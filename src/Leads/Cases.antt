-- ===== src/Leads/Cases.antt =====
-- packages/core/src/leads.ts: the outcomes of `save` and of `update`: the tables as they were, or a row of
-- each table.
use careerscope.Leads.Update.{
  lead_answer, edit_history, tags_of, update_allowed, is_unchanged, evidence_of, update_row, edited,
  broken_rule, update_parsed, LeadResult, LeadIssue, write_edit, update_lead,
}
use careerscope.Leads.Schema.{parse_changes, TextCalls, LeadChanges}
use careerscope.Leads.State.{is_lead, is_about, insert_history, LeadTables, Lead}
use careerscope.Leads.Save.{
  is_fingerprint, first_history, save_job, save_found, new_lead, is_source_job, save, FoundJob,
}
use careerscope.Search.State.{SearchRun, CollectedJob}
use careerscope.Base.Table.{find, update}
use careerscope.Base.{
  none, some, false, [], ◌∷◌, ◌+◌, ◌++◌, ℕ, List, Option, any, ◌==◌, ◌&&◌, ◌≡◌, refl, inl, inr, ◌⊎◌,
  Bool-cases, ==_iff,
}

abbrev pub with_edit : ℕ → Lead → LeadChanges → LeadTables → LeadTables
with_edit now l c t = record t {
  leads = update (is_lead l.owner_id l.id) (edited now c (evidence_of l c) (tags_of l c)) t.leads;
  history = t.history ++ (edit_history now l c ∷ []);
}

abbrev pub edit_result : ℕ → Lead → LeadChanges → LeadTables → LeadResult × LeadTables
edit_result now l c t =
    (lead_answer (edited now c (evidence_of l c) (tags_of l c) l), with_edit now l c t)

abbrev pub IsWritten : ℕ → Lead → LeadChanges → LeadTables → LeadResult × LeadTables → Type 0
IsWritten now l c t r =
    (l.revision ≡ c.revision)
    × (broken_rule l c ≡ none)
    × (is_unchanged l c ≡ false)
    × (r ≡ edit_result now l c t)

write_edit-cases :
    (now : ℕ) (l : Lead) (c : LeadChanges) (t : LeadTables)
    → ((write_edit now l c t).1 ≡ t) ⊎ (write_edit now l c t ≡ edit_result now l c t)
unfolding write_edit insert_history
write_edit-cases now l c t =
    elim (Bool-cases
      (any (λ x. is_about l.owner_id l.id x && (x.revision == (l.revision + 1))) t.history)) [
        | inl e ↦ inl (rw e refl)
        | inr e ↦ inr (rw e refl)
      ]

update_allowed-cases :
    (now : ℕ) (l : Lead) (c : LeadChanges) (t : LeadTables) (o : Option LeadIssue)
    → broken_rule l c ≡ o
    → l.revision ≡ c.revision
    → ((update_allowed now l c t o).1 ≡ t) ⊎ IsWritten now l c t (update_allowed now l c t o)
update_allowed-cases now l c t (some i) b r = inl refl
update_allowed-cases now l c t none b r = elim (Bool-cases (is_unchanged l c)) [
  | inl e ↦ inl (rw e refl)
  | inr e ↦ elim (write_edit-cases now l c t) [
    | inl w ↦ inl (rw e w)
    | inr w ↦ inr (r, b, e, rw e w)
  ]
]

abbrev pub IsEdit : ℕ → ℕ → ℕ → LeadTables → LeadResult × LeadTables → Type 0
IsEdit now owner id t r =
    (l : Lead) × (c : LeadChanges) × (find (is_lead owner id) t.leads ≡ some l)
    × IsWritten now l c t r

update_row-cases :
    (now owner id : ℕ) (c : LeadChanges) (t : LeadTables) (o : Option Lead)
    → find (is_lead owner id) t.leads ≡ o
    → ((update_row now c t o).1 ≡ t) ⊎ IsEdit now owner id t (update_row now c t o)
update_row-cases now owner id c t none f = inl refl
update_row-cases now owner id c t (some l) f = elim (Bool-cases (l.revision == c.revision)) [
  | inr e ↦ inl (rw e refl)
  | inl e ↦
      elim (update_allowed-cases now l c t (broken_rule l c) refl
        ((==_iff l.revision c.revision).0 e)) [
          | inl w ↦ inl (rw e w)
          | inr w ↦ inr (l, c, f, rw e w)
        ]
]

update_parsed-cases :
    (now owner id : ℕ) (t : LeadTables) (o : Option LeadChanges)
    → ((update_parsed now owner id t o).1 ≡ t)
      ⊎ IsEdit now owner id t (update_parsed now owner id t o)
update_parsed-cases now owner id t none = inl refl
update_parsed-cases now owner id t (some c) =
    update_row-cases now owner id c t (find (is_lead owner id) t.leads) refl

-- An update leaves the tables as they are, or edits the lead's row and adds a row of its history.
pub update_lead-cases :
    (texts : TextCalls) (ms now owner id : ℕ) (changes : LeadChanges) (t : LeadTables)
    → ((update_lead texts ms now owner id changes t).1 ≡ t)
      ⊎ IsEdit now owner id t (update_lead texts ms now owner id changes t)
unfolding update_lead
update_lead-cases texts ms now owner id changes t =
    update_parsed-cases now owner id t (parse_changes texts ms changes)

abbrev pub with_lead : ℕ → ℕ → ℕ → CollectedJob → LeadTables → LeadTables
with_lead now id owner job t = record t {
  leads = t.leads ++ (new_lead now id owner job ∷ []);
  history = t.history ++ (first_history now owner id ∷ []);
}

abbrev pub IsSave : ℕ → ℕ → ℕ → LeadTables → LeadTables → Type 0
IsSave now id owner t u =
    (job : CollectedJob) × (any (λ l. l.id == id) t.leads ≡ false)
    × (u ≡ with_lead now id owner job t)

save_job-cases :
    (now id owner : ℕ) (job : CollectedJob) (o : Option Lead) (t : LeadTables)
    → ((save_job now id owner job o t).1 ≡ t)
      ⊎ IsSave now id owner t (save_job now id owner job o t).1
unfolding insert_history
save_job-cases now id owner job (some l) t = inl refl
save_job-cases now id owner job none t = elim (Bool-cases (any (λ l. l.id == id) t.leads)) [
  | inl e ↦ inl (rw e refl)
  | inr e ↦ elim (Bool-cases (any (λ x. is_about owner id x && (x.revision == 1)) t.history)) [
    | inl g ↦ inl (rw (e, g) refl)
    | inr g ↦ inr (job, e, rw (e, g) refl)
  ]
]

save_found-cases :
    (now id owner : ℕ) (o : Option FoundJob) (t : LeadTables)
    → ((save_found now id owner o t).1 ≡ t) ⊎ IsSave now id owner t (save_found now id owner o t).1
save_found-cases now id owner none t = inl refl
save_found-cases now id owner (some j) t =
    save_job-cases now id owner j.data_row
      (find (is_fingerprint owner j.data_row.fingerprint) t.leads) t

pub save-cases :
    (now id owner job_id : ℕ) (jobs : List FoundJob) (runs : List SearchRun) (t : LeadTables)
    → ((save now id owner job_id jobs runs t).1 ≡ t)
      ⊎ IsSave now id owner t (save now id owner job_id jobs runs t).1
unfolding save
save-cases now id owner job_id jobs runs t =
    save_found-cases now id owner (find (is_source_job owner job_id runs) jobs) t
