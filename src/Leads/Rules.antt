-- ===== src/Leads/Rules.antt =====
-- packages/core/src/leads.ts: edits of a revision that is gone.
use careerscope.Leads.Advance.{lead_steps-advances}
use careerscope.Leads.Trace.{LeadCall, lead_steps}
use careerscope.Leads.Update.{
  bad_changes, issue, update_parsed, revision_conflict, update_row, update_lead, LeadResult,
}
use careerscope.Leads.State.{is_lead, LeadTables, Lead}
use careerscope.Search.State.{Text}
use careerscope.Leads.Schema.{
  parse_optional_tags, parse_evidence_change, max_revision, EvidenceChange, parse_changes,
  TextCalls, LeadChanges,
}
use careerscope.Base.Table.{find}
use careerscope.Base.{
  none, some, true, false, ℕ, Bool, List, Option, leb, length, ◌>>=◌, ◌>>◌, guard, ◌&&◌, arith, ◌≡◌,
  refl, inl, inr, ◌⊎◌, sym, subst, ◌<◌,
}

parsed_with :
    (changes c : LeadChanges) (g : Bool) (o : Option EvidenceChange)
    (p : Option (Option (List Text)))
    → (guard g
        >> (o >>= λ e. p >>= λ ts. some (record changes { application_evidence = e; tags = ts })))
      ≡ some c
    → c.revision ≡ changes.revision
parsed_with changes c false o p e = ground arith
parsed_with changes c true none p e = ground arith
parsed_with changes c true (some x) none e = ground arith
parsed_with changes c true (some x) (some y) e = ground arith

parse_changes-revision :
    (texts : TextCalls) (ms : ℕ) (changes c : LeadChanges)
    → parse_changes texts ms changes ≡ some c
    → c.revision ≡ changes.revision
unfolding parse_changes
parse_changes-revision texts ms changes c e =
    parsed_with changes c
      (leb 1 changes.revision
        && leb changes.revision max_revision
        && leb (length changes.notes) 10000)
      (parse_evidence_change texts ms changes.application_evidence)
      (parse_optional_tags texts changes.tags) e

abbrev pub IsRefused : LeadTables → LeadResult × LeadTables → Type 0
IsRefused t r = (r ≡ (revision_conflict, t)) ⊎ (r ≡ (issue bad_changes, t))

update_row-stale :
    (now : ℕ) (c : LeadChanges) (t : LeadTables) (o : Option Lead) (m : Lead)
    → o ≡ some m
    → c.revision < m.revision
    → update_row now c t o ≡ (revision_conflict, t)
update_row-stale now c t none m e h = ground arith
update_row-stale now c t (some l) m e h =
    let same : l.revision ≡ m.revision = ground arith in ground arith

update_parsed-stale :
    (now owner id r : ℕ) (t : LeadTables) (o : Option LeadChanges) (m : Lead)
    → find (is_lead owner id) t.leads ≡ some m
    → ((c : LeadChanges) → o ≡ some c → c.revision ≡ r)
    → r < m.revision
    → IsRefused t (update_parsed now owner id t o)
update_parsed-stale now owner id r t none m f k h = inr refl
update_parsed-stale now owner id r t (some c) m f k h = inl (
    update_row-stale now c t (find (is_lead owner id) t.leads) m f
      (subst (λ x. x < m.revision) (sym (k c refl)) h))

module _ (texts : TextCalls) where
  -- An edit of a revision below the lead's is refused without a change, also after any further calls: of two
  -- edits of one revision the later one never undoes what the first one wrote.
  pub update_lead-IsRefused :
      (ms now owner id : ℕ) (changes : LeadChanges) (l : Lead) (t : LeadTables)
      (calls : List (ℕ × LeadCall))
      → find (is_lead owner id) t.leads ≡ some l
      → changes.revision < l.revision
      → IsRefused
          (lead_steps texts calls t)
          (update_lead texts ms now owner id changes (lead_steps texts calls t))
  unfolding update_lead
  update_lead-IsRefused ms now owner id changes l t calls f h =
      let (m, g, a) = lead_steps-advances texts owner id calls l t f in
      update_parsed-stale now owner id changes.revision (lead_steps texts calls t)
        (parse_changes texts ms changes) m g (parse_changes-revision texts ms changes)
        (ground arith)
