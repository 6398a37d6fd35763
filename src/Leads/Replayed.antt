-- ===== src/Leads/Replayed.antt =====
-- packages/core/src/leads.ts: the entries of a lead's history over the calls that change leads.
use careerscope.Leads.Save.{new_lead, first_history}
use careerscope.Leads.Cases.{update_lead-cases, save-cases, with_edit, with_lead}
use careerscope.Leads.Update.{
  same_tags, same_application_evidence, tags_of, evidence_of, edited, edit_history, checked,
  record_liveness_check,
}
use careerscope.Leads.Trace.{check_call, update_call, save_call, LeadCall, lead_steps, lead_step}
use careerscope.Leads.Schema.{LeadChanges, TextCalls}
use careerscope.Leads.State.{is_about, is_lead, LivenessStatus, LeadTables, LeadHistory, Lead}
use careerscope.Leads.Replay.{
  not_saved, view_of, saved_as, expected, Replay, same_flag, replay_entry, replay, IsReplayed,
}
use careerscope.Search.State.{CollectedJob}
use careerscope.Base.Table.{find, find-update, find-append, find-holds, adjust, or_else}
use careerscope.Base.{
  none, some, true, false, [], ◌∷◌, ◌+◌, ◌++◌, ℕ, Bool, List, Option, any, not, keep, ◌==◌, ◌&&◌,
  arith, ◌≡◌, refl, inl, inr, ◌∙◌, ap, sym, subst, Bool-cases, ==_iff, ==_refl,
}

replay-append :
    (hs : List LeadHistory) (h : LeadHistory) (r : Replay)
    → replay (hs ++ (h ∷ [])) r ≡ replay_entry (replay hs r) h
unfolding replay
replay-append [] h r = refl
replay-append (k ∷ hs) h r = replay-append hs h (replay_entry r k)

keep-append_true :
    (p : LeadHistory → Bool) (hs : List LeadHistory) (h : LeadHistory)
    → p h ≡ true
    → keep p (hs ++ (h ∷ [])) ≡ keep p hs ++ (h ∷ [])
keep-append_true p [] h e = ground arith
keep-append_true p (k ∷ hs) h e = ground (arith, keep-append_true p hs h e)

keep-append_false :
    (p : LeadHistory → Bool) (hs : List LeadHistory) (h : LeadHistory)
    → p h ≡ false
    → keep p (hs ++ (h ∷ [])) ≡ keep p hs
keep-append_false p [] h e = ground arith
keep-append_false p (k ∷ hs) h e = ground (arith, keep-append_false p hs h e)

same_flag_refl : (b : Bool) → same_flag b b ≡ true
same_flag_refl true = refl
same_flag_refl false = refl

replay_entry-edit :
    (now : ℕ) (l : Lead) (c : LeadChanges)
    → replay_entry (saved_as (view_of l)) (edit_history now l c)
      ≡ saved_as (view_of (edited now c (evidence_of l c) (tags_of l c) l))
unfolding replay_entry
replay_entry-edit now l c =
    let a =
      same_flag_refl (not (same_application_evidence l.application_evidence (evidence_of l c))) in
    let b = same_flag_refl (not (same_tags l.tags (tags_of l c))) in
    let d = ==_refl (l.revision + 1) in ground arith

pub adjust-other :
    (o i owner id : ℕ) (f : Lead → Lead) (r : Option Lead) (ls : List Lead)
    → find (is_lead o i) ls ≡ r
    → (owner == o) && (id == i) ≡ false
    → adjust (is_lead owner id) f r ≡ r
adjust-other o i owner id f none ls e d = refl
adjust-other o i owner id f (some x) ls e d =
    let h = find-holds (is_lead o i) ls x e in ground arith

pub found_as :
    (o i owner id : ℕ) (ls : List Lead) (r : Option Lead)
    → o ≡ owner
    → i ≡ id
    → find (is_lead owner id) ls ≡ r
    → find (is_lead o i) ls ≡ r
found_as o i owner id ls r a b e =
    subst (λ x. find (is_lead x i) ls ≡ r) (sym a)
      (subst (λ y. find (is_lead owner y) ls ≡ r) (sym b) e)

pub found_lead :
    (owner id : ℕ) (ls : List Lead) (l : Lead)
    → find (is_lead owner id) ls ≡ some l
    → find (is_lead l.owner_id l.id) ls ≡ some l
found_lead owner id ls l e =
    let h = find-holds (is_lead owner id) ls l e in
    found_as l.owner_id l.id owner id ls (some l) ((==_iff l.owner_id owner).0 (ground arith))
      ((==_iff l.id id).0 (ground arith)) e

with_edit-same :
    (now : ℕ) (l : Lead) (c : LeadChanges) (t : LeadTables)
    → find (is_lead l.owner_id l.id) t.leads ≡ some l
    → IsReplayed l.owner_id l.id t
    → IsReplayed l.owner_id l.id (with_edit now l c t)
unfolding IsReplayed
with_edit-same now l c t f k =
    let p = is_lead l.owner_id l.id in
    let e = edited now c (evidence_of l c) (tags_of l c) in
    let h = edit_history now l c in
    let q = is_about l.owner_id l.id in
    let a = keep-append_true q t.history h (ground (arith, ==_refl l.owner_id, ==_refl l.id)) in
    let b = replay-append (keep q t.history) h not_saved in
    let d = find-update p p e t.leads (λ x. refl) in
    let m : adjust p e (some l) ≡ some (e l) = ground (arith, ==_refl l.owner_id, ==_refl l.id) in
    ap (λ x. replay x not_saved) a
    ∙ b
    ∙ ap (λ r. replay_entry r h) (k ∙ ap expected f)
    ∙ replay_entry-edit now l c
    ∙ sym (ap expected (d ∙ ap (adjust p e) f ∙ m))

with_edit-other :
    (now o i : ℕ) (l : Lead) (c : LeadChanges) (t : LeadTables)
    → (l.owner_id == o) && (l.id == i) ≡ false
    → IsReplayed o i t
    → IsReplayed o i (with_edit now l c t)
unfolding IsReplayed
with_edit-other now o i l c t d k =
    let p = is_lead l.owner_id l.id in
    let e = edited now c (evidence_of l c) (tags_of l c) in
    let h = edit_history now l c in
    let a = keep-append_false (is_about o i) t.history h d in
    let f = find-update (is_lead o i) p e t.leads (λ x. refl) in
    let g = adjust-other o i l.owner_id l.id e (find (is_lead o i) t.leads) t.leads refl d in
    rw (a, f, g) k

with_edit-IsReplayed :
    (now owner id o i : ℕ) (l : Lead) (c : LeadChanges) (t : LeadTables)
    → find (is_lead owner id) t.leads ≡ some l
    → IsReplayed o i t
    → IsReplayed o i (with_edit now l c t)
with_edit-IsReplayed now owner id o i l c t f k =
    elim (Bool-cases ((l.owner_id == o) && (l.id == i))) [
      | inr d ↦ with_edit-other now o i l c t d k
      | inl e ↦
          let a : l.owner_id ≡ o = (==_iff l.owner_id o).0 (ground arith) in
          let b : l.id ≡ i = (==_iff l.id i).0 (ground arith) in
          subst (λ x. IsReplayed x i (with_edit now l c t)) a
            (subst (λ y. IsReplayed l.owner_id y (with_edit now l c t)) b
              (with_edit-same now l c t (found_lead owner id t.leads l f) (
                subst (λ x. IsReplayed x l.id t) (sym a)
                  (subst (λ y. IsReplayed o y t) (sym b) k))))
    ]

any-find-none :
    (o i : ℕ) (ls : List Lead) → any (λ l. l.id == i) ls ≡ false → find (is_lead o i) ls ≡ none
unfolding find
any-find-none o i [] e = refl
any-find-none o i (l ∷ ls) e = ground (arith, any-find-none o i ls)

with_lead-same :
    (now id owner : ℕ) (job : CollectedJob) (t : LeadTables)
    → any (λ l. l.id == id) t.leads ≡ false
    → IsReplayed owner id t
    → IsReplayed owner id (with_lead now id owner job t)
unfolding IsReplayed replay_entry find
with_lead-same now id owner job t e k =
    let h = first_history now owner id in
    let n = any-find-none owner id t.leads e in
    let q = is_about owner id in
    let a = keep-append_true q t.history h (ground (arith, ==_refl owner, ==_refl id)) in
    let b = replay-append (keep q t.history) h not_saved in
    let l = new_lead now id owner job in
    let d = find-append (is_lead owner id) t.leads (l ∷ []) in
    let m : find (is_lead owner id) (l ∷ []) ≡ some l = ground (arith, ==_refl owner, ==_refl id) in
    let g : replay_entry not_saved h ≡ saved_as (view_of l) = ground arith in
    let w : find (is_lead owner id) (t.leads ++ (l ∷ [])) ≡ some l =
      d ∙ ap (λ o. or_else o (find (is_lead owner id) (l ∷ []))) n ∙ m in
    ap (λ x. replay x not_saved) a
    ∙ b
    ∙ ap (λ r. replay_entry r h) (k ∙ ap expected n)
    ∙ g
    ∙ sym (ap expected w)

pub or_else-none : (o : Option Lead) → or_else o none ≡ o
or_else-none none = refl
or_else-none (some l) = refl

with_lead-other :
    (now id owner o i : ℕ) (job : CollectedJob) (t : LeadTables)
    → (owner == o) && (id == i) ≡ false
    → IsReplayed o i t
    → IsReplayed o i (with_lead now id owner job t)
unfolding IsReplayed find
with_lead-other now id owner o i job t d k =
    let a = keep-append_false (is_about o i) t.history (first_history now owner id) d in
    let f = find-append (is_lead o i) t.leads (new_lead now id owner job ∷ []) in
    let g : find (is_lead o i) (new_lead now id owner job ∷ []) ≡ none = ground arith in
    let w : find (is_lead o i) (t.leads ++ (new_lead now id owner job ∷ []))
        ≡ find (is_lead o i) t.leads =
      f ∙ ap (or_else (find (is_lead o i) t.leads)) g ∙ or_else-none (find (is_lead o i) t.leads) in
    ap (λ x. replay x not_saved) a ∙ k ∙ sym (ap expected w)

with_lead-IsReplayed :
    (now id owner o i : ℕ) (job : CollectedJob) (t : LeadTables)
    → any (λ l. l.id == id) t.leads ≡ false
    → IsReplayed o i t
    → IsReplayed o i (with_lead now id owner job t)
with_lead-IsReplayed now id owner o i job t e k = elim (Bool-cases ((owner == o) && (id == i))) [
  | inr d ↦ with_lead-other now id owner o i job t d k
  | inl s ↦
      let a : owner ≡ o = (==_iff owner o).0 (ground arith) in
      let b : id ≡ i = (==_iff id i).0 (ground arith) in
      subst (λ x. IsReplayed x i (with_lead now id owner job t)) a
        (subst (λ y. IsReplayed owner y (with_lead now id owner job t)) b
          (with_lead-same now id owner job t e
            (subst (λ x. IsReplayed x id t) (sym a) (subst (λ y. IsReplayed o y t) (sym b) k))))
]

expected-checked :
    (now : ℕ) (status : LivenessStatus) (q : Lead → Bool) (o : Option Lead)
    → expected (adjust q (checked now status) o) ≡ expected o
expected-checked now status q none = refl
expected-checked now status q (some l) = ground arith

check-IsReplayed :
    (now owner id o i : ℕ) (status : LivenessStatus) (t : LeadTables)
    → IsReplayed o i t
    → IsReplayed o i (record_liveness_check now owner id status t)
unfolding IsReplayed record_liveness_check
check-IsReplayed now owner id o i status t k =
    k
    ∙ sym (expected-checked now status (is_lead owner id) (find (is_lead o i) t.leads))
    ∙ sym (
        ap expected
          (find-update (is_lead o i) (is_lead owner id) (checked now status) t.leads (λ x. refl)))

module _ (texts : TextCalls) where
  lead_step-IsReplayed :
      (now o i : ℕ) (call : LeadCall) (t : LeadTables)
      → IsReplayed o i t
      → IsReplayed o i (lead_step texts now call t)
  unfolding lead_step
  lead_step-IsReplayed now o i (save_call id owner job_id jobs runs) t k =
      elim (save-cases now id owner job_id jobs runs t) [
        | inl e ↦ subst (IsReplayed o i) (sym e) k
        | inr (job, n, e) ↦
            subst (IsReplayed o i) (sym e) (with_lead-IsReplayed now id owner o i job t n k)
      ]
  lead_step-IsReplayed now o i (update_call ms owner id changes) t k =
      elim (update_lead-cases texts ms now owner id changes t) [
        | inl e ↦ subst (IsReplayed o i) (sym e) k
        | inr (l, c, f, (r, b, u, e)) ↦
            subst (λ x. IsReplayed o i x.1) (sym e)
              (with_edit-IsReplayed now owner id o i l c t f k)
      ]
  lead_step-IsReplayed now o i (check_call owner id status) t k =
      check-IsReplayed now owner id o i status t k

  -- Whatever calls are made, the entries of a lead's history keep leading to the lead's revision, status,
  -- evidence and tags: they count up from one, each starts from the status that the one before reached,
  -- and each tells truly whether evidence and tags changed.
  pub lead_steps-IsReplayed :
      (o i : ℕ) (calls : List (ℕ × LeadCall)) (t : LeadTables)
      → IsReplayed o i t
      → IsReplayed o i (lead_steps texts calls t)
  unfolding lead_steps
  lead_steps-IsReplayed o i [] t k = k
  lead_steps-IsReplayed o i ((now, call) ∷ calls) t k =
      lead_steps-IsReplayed o i calls (lead_step texts now call t)
        (lead_step-IsReplayed now o i call t k)
