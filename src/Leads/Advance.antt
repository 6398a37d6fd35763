-- ===== src/Leads/Advance.antt =====
-- packages/core/src/leads.ts: how the row of a lead moves, and edits whose revision it has left behind.
use careerscope.Leads.Save.{new_lead}
use careerscope.Leads.Trace.{check_call, update_call, save_call, LeadCall, lead_steps, lead_step}
use careerscope.Leads.Replayed.{found_lead, found_as, adjust-other}
use careerscope.Leads.Cases.{update_lead-cases, save-cases, with_lead, with_edit}
use careerscope.Leads.Schema.{EvidenceChange, TextCalls, LeadChanges}
use careerscope.Leads.Update.{
  is_progressed, next_evidence, checked, record_liveness_check, is_removal, tags_of, evidence_of,
  edited, broken_rule,
}
use careerscope.Leads.State.{
  status_code, is_status, LeadStatus, LivenessStatus, ApplicationEvidence, is_lead, LeadTables,
  Lead,
}
use careerscope.Search.State.{CollectedJob}
use careerscope.Leads.Schema.{keep_evidence, remove_evidence, give_evidence}
use careerscope.Base.Table.{find, find-update, find-append, adjust, or_else}
use careerscope.Base.{
  none, some, true, false, [], ◌∷◌, ℕ, Bool, List, Option, not, is_some, leb, ◌==◌, ◌&&◌, ◌||◌,
  arith, ◌≡◌, refl, inl, inr, ◌∙◌, ap, sym, subst, Bool-cases, ==_iff, ==_refl,
}

-- The same lead, no revision back, and with evidence if there was evidence.
abbrev pub advances : Lead → Lead → Bool
advances l m =
    (m.id == l.id)
    && (m.owner_id == l.owner_id)
    && (m.fingerprint == l.fingerprint)
    && leb l.revision m.revision
    && (not (is_some l.application_evidence) || is_some m.application_evidence)

-- A status of an application has evidence behind it.
abbrev pub is_supported : Lead → Bool
is_supported l = not (is_progressed l.status) || is_some l.application_evidence

-- A lead without evidence for its status is one that had none before either, at the same status.
abbrev pub is_backed : Lead → Lead → Bool
is_backed l m = is_supported m || (not (is_supported l) && is_status l.status m.status)

abbrev moves : Lead → Lead → Bool
moves l m = advances l m && is_backed l m

abbrev pub IsAdvanced : ℕ → ℕ → Lead → LeadTables → Type 0
IsAdvanced o i l t = (m : Lead) × (find (is_lead o i) t.leads ≡ some m) × (moves l m ≡ true)

advances_refl : (l : Lead) → advances l l ≡ true
advances_refl l = ground (arith, ==_refl l.id, ==_refl l.owner_id, ==_refl l.fingerprint)

advances_trans : (l m k : Lead) → advances l m ≡ true → advances m k ≡ true → advances l k ≡ true
advances_trans l m k a b = ground arith

status_code-same : (a b : LeadStatus) → is_status a b ≡ true → status_code a ≡ status_code b
status_code-same a b e = (==_iff (status_code a) (status_code b)).0 e

is_progressed-same :
    (a b : LeadStatus) → is_status a b ≡ true → is_progressed b ≡ true → is_progressed a ≡ true
is_progressed-same a b e =
    subst (λ n. n == 1 || n == 2 || n == 3 || n == 4 || n == 5 ≡ true)
      (sym (status_code-same a b e))

is_status_trans :
    (a b c : LeadStatus) → is_status a b ≡ true → is_status b c ≡ true → is_status a c ≡ true
is_status_trans a b c e f =
    (==_iff (status_code a) (status_code c)).1 (status_code-same a b e ∙ status_code-same b c f)

is_backed_refl : (l : Lead) → is_backed l l ≡ true
is_backed_refl l = let s = ==_refl (status_code l.status) in ground arith

is_backed_trans :
    (l m k : Lead) → is_backed l m ≡ true → is_backed m k ≡ true → is_backed l k ≡ true
is_backed_trans l m k a b =
    elim (Bool-cases (is_status l.status m.status && is_status m.status k.status)) [
      | inl d ↦
          let e = is_status_trans l.status m.status k.status (ground arith) (ground arith) in
          ground arith
      | inr d ↦ ground arith
    ]

moves_refl : (l : Lead) → moves l l ≡ true
moves_refl l = let a = advances_refl l in let b = is_backed_refl l in ground arith

moves_trans : (l m k : Lead) → moves l m ≡ true → moves m k ≡ true → moves l k ≡ true
moves_trans l m k a b =
    let c = advances_trans l m k (ground arith) (ground arith) in
    let d = is_backed_trans l m k (ground arith) (ground arith) in ground arith

pub next_evidence-kept :
    (o : Option ApplicationEvidence) (change : EvidenceChange)
    → is_some o && is_removal change ≡ false
    → not (is_some o) || is_some (next_evidence o change) ≡ true
next_evidence-kept none change e = refl
next_evidence-kept (some x) keep_evidence e = refl
next_evidence-kept (some x) remove_evidence e = ground arith
next_evidence-kept (some x) (give_evidence y) e = refl

pub unbroken_removal :
    (l : Lead) (c : LeadChanges)
    → broken_rule l c ≡ none
    → is_some l.application_evidence && is_removal c.application_evidence ≡ false
unfolding broken_rule
unbroken_removal l c b = ground arith

unbroken_status :
    (l : Lead) (c : LeadChanges)
    → broken_rule l c ≡ none
    → is_progressed c.status
        && not (is_some l.application_evidence)
        && not (is_some (evidence_of l c))
        && not (is_status l.status c.status)
      ≡ false
unfolding broken_rule
unbroken_status l c b = ground arith

edited-is_backed :
    (now : ℕ) (l : Lead) (c : LeadChanges)
    → broken_rule l c ≡ none
    → is_backed l (edited now c (evidence_of l c) (tags_of l c) l) ≡ true
edited-is_backed now l c b =
    let a =
      next_evidence-kept l.application_evidence c.application_evidence (unbroken_removal l c b) in
    let d = unbroken_status l c b in
    elim (Bool-cases (is_progressed c.status && is_status l.status c.status)) [
      | inl e ↦
          let p = is_progressed-same l.status c.status (ground arith) (ground arith) in ground arith
      | inr e ↦ ground arith
    ]

edited-advances :
    (now : ℕ) (l : Lead) (c : LeadChanges)
    → broken_rule l c ≡ none
    → advances l (edited now c (evidence_of l c) (tags_of l c) l) ≡ true
edited-advances now l c b =
    let r = advances_refl l in
    let n =
      next_evidence-kept l.application_evidence c.application_evidence (unbroken_removal l c b) in
    ground arith

edited-moves :
    (now : ℕ) (l : Lead) (c : LeadChanges)
    → broken_rule l c ≡ none
    → moves l (edited now c (evidence_of l c) (tags_of l c) l) ≡ true
edited-moves now l c b =
    let a = edited-advances now l c b in let d = edited-is_backed now l c b in ground arith

with_edit-same_lead :
    (now : ℕ) (l : Lead) (c : LeadChanges) (t : LeadTables)
    → broken_rule l c ≡ none
    → find (is_lead l.owner_id l.id) t.leads ≡ some l
    → IsAdvanced l.owner_id l.id l (with_edit now l c t)
with_edit-same_lead now l c t b f =
    let p = is_lead l.owner_id l.id in
    let e = edited now c (evidence_of l c) (tags_of l c) in
    let m : adjust p e (some l) ≡ some (e l) = ground (arith, ==_refl l.owner_id, ==_refl l.id) in
    (e l, find-update p p e t.leads (λ x. refl) ∙ ap (adjust p e) f ∙ m, edited-moves now l c b)

same_row : (a b : Lead) (o : Option Lead) → o ≡ some a → o ≡ some b → a ≡ b
same_row a b o e f = cc

with_edit-IsAdvanced :
    (now owner id o i : ℕ) (l x : Lead) (c : LeadChanges) (t : LeadTables)
    → broken_rule l c ≡ none
    → find (is_lead owner id) t.leads ≡ some l
    → find (is_lead o i) t.leads ≡ some x
    → IsAdvanced o i x (with_edit now l c t)
with_edit-IsAdvanced now owner id o i l x c t b f g =
    elim (Bool-cases ((l.owner_id == o) && (l.id == i))) [
      | inr d ↦
          let e = edited now c (evidence_of l c) (tags_of l c) in
          let p = is_lead l.owner_id l.id in
          (
            x,
            find-update (is_lead o i) p e t.leads (λ y. refl)
                ∙ adjust-other o i l.owner_id l.id e (find (is_lead o i) t.leads) t.leads refl d
                ∙ g,
            moves_refl x,
          )
      | inl s ↦
          let a : l.owner_id ≡ o = (==_iff l.owner_id o).0 (ground arith) in
          let k : l.id ≡ i = (==_iff l.id i).0 (ground arith) in
          let h = found_as l.owner_id l.id o i t.leads (some x) a k g in
          let same : l ≡ x =
            same_row l x (find (is_lead l.owner_id l.id) t.leads) (found_lead owner id t.leads l f)
              h in
          subst (λ z. IsAdvanced o i z (with_edit now l c t)) same
            (subst (λ z. IsAdvanced z i l (with_edit now l c t)) a
              (subst (λ z. IsAdvanced l.owner_id z l (with_edit now l c t)) k
                (with_edit-same_lead now l c t b (found_lead owner id t.leads l f))))
    ]

with_lead-IsAdvanced :
    (now id owner o i : ℕ) (job : CollectedJob) (x : Lead) (t : LeadTables)
    → find (is_lead o i) t.leads ≡ some x
    → IsAdvanced o i x (with_lead now id owner job t)
with_lead-IsAdvanced now id owner o i job x t g =
    let n = find (is_lead o i) (new_lead now id owner job ∷ []) in
    (
      x,
      find-append (is_lead o i) t.leads (new_lead now id owner job ∷ []) ∙ ap (λ r. or_else r n) g,
      moves_refl x,
    )

adjust-checked :
    (now : ℕ) (status : LivenessStatus) (q : Lead → Bool) (x : Lead)
    → (m : Lead) × (adjust q (checked now status) (some x) ≡ some m) × (moves x m ≡ true)
adjust-checked now status q x = elim (Bool-cases (q x)) [
  | inl e ↦ (checked now status x, rw e refl, moves_refl x)
  | inr e ↦ (x, rw e refl, moves_refl x)
]

check-IsAdvanced :
    (now owner id o i : ℕ) (status : LivenessStatus) (x : Lead) (t : LeadTables)
    → find (is_lead o i) t.leads ≡ some x
    → IsAdvanced o i x (record_liveness_check now owner id status t)
unfolding record_liveness_check
check-IsAdvanced now owner id o i status x t g =
    let q = is_lead owner id in
    let (m, e, a) = adjust-checked now status q x in
    (
      m,
      find-update (is_lead o i) q (checked now status) t.leads (λ y. refl)
          ∙ ap (adjust q (checked now status)) g
          ∙ e,
      a,
    )

module _ (texts : TextCalls) where
  lead_step-IsAdvanced :
      (now o i : ℕ) (call : LeadCall) (x : Lead) (t : LeadTables)
      → find (is_lead o i) t.leads ≡ some x
      → IsAdvanced o i x (lead_step texts now call t)
  unfolding lead_step
  lead_step-IsAdvanced now o i (save_call id owner job_id jobs runs) x t g =
      elim (save-cases now id owner job_id jobs runs t) [
        | inl e ↦ subst (IsAdvanced o i x) (sym e) (x, g, moves_refl x)
        | inr (job, n, e) ↦
            subst (IsAdvanced o i x) (sym e) (with_lead-IsAdvanced now id owner o i job x t g)
      ]
  lead_step-IsAdvanced now o i (update_call ms owner id changes) x t g =
      elim (update_lead-cases texts ms now owner id changes t) [
        | inl e ↦ subst (IsAdvanced o i x) (sym e) (x, g, moves_refl x)
        | inr (l, c, f, (r, b, u, e)) ↦
            subst (λ y. IsAdvanced o i x y.1) (sym e)
              (with_edit-IsAdvanced now owner id o i l x c t b f g)
      ]
  lead_step-IsAdvanced now o i (check_call owner id status) x t g =
      check-IsAdvanced now owner id o i status x t g

  lead_steps-IsAdvanced :
      (o i : ℕ) (calls : List (ℕ × LeadCall)) (x : Lead) (t : LeadTables)
      → find (is_lead o i) t.leads ≡ some x
      → IsAdvanced o i x (lead_steps texts calls t)
  unfolding lead_steps
  lead_steps-IsAdvanced o i [] x t g = (x, g, moves_refl x)
  lead_steps-IsAdvanced o i ((now, call) ∷ calls) x t g =
      let (m, f, a) = lead_step-IsAdvanced now o i call x t g in
      let (k, h, b) = lead_steps-IsAdvanced o i calls m (lead_step texts now call t) f in
      (k, h, moves_trans x m k a b)

  -- A saved lead is never lost: after any calls it is there under its identifier with its owner and its
  -- fingerprint, its revision has not gone back, and evidence that was recorded is still recorded.
  pub lead_steps-advances :
      (o i : ℕ) (calls : List (ℕ × LeadCall)) (x : Lead) (t : LeadTables)
      → find (is_lead o i) t.leads ≡ some x
      → (m : Lead) × (find (is_lead o i) (lead_steps texts calls t).leads ≡ some m)
        × (advances x m ≡ true)
  lead_steps-advances o i calls x t g =
      let (m, f, a) = lead_steps-IsAdvanced o i calls x t g in (m, f, ground arith)

  -- After any calls a saved lead has evidence for a status that is that of an application, but for a lead
  -- that lacked it before and is still at the same status.
  pub lead_steps-is_backed :
      (o i : ℕ) (calls : List (ℕ × LeadCall)) (x : Lead) (t : LeadTables)
      → find (is_lead o i) t.leads ≡ some x
      → (m : Lead) × (find (is_lead o i) (lead_steps texts calls t).leads ≡ some m)
        × (is_backed x m ≡ true)
  lead_steps-is_backed o i calls x t g =
      let (m, f, a) = lead_steps-IsAdvanced o i calls x t g in (m, f, ground arith)
