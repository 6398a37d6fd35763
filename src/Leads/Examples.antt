-- ===== src/Leads/Examples.antt =====
-- packages/core/src/leads.ts: a lead that is saved, applied to and checked.
use careerscope.Leads.Replayed.{lead_steps-IsReplayed}
use careerscope.Leads.Save.{new_lead}
use careerscope.Leads.Advance.{lead_steps-is_backed, is_backed, lead_steps-advances, advances}
use careerscope.Leads.Cases.{with_lead, with_edit}
use careerscope.Leads.Update.{
  lead_answer, same_application_evidence, is_unchanged, broken_rule, write_edit, edited,
  update_lead,
}
use careerscope.Leads.Trace.{check_call, update_call, lead_steps, LeadCall}
use careerscope.Leads.Replay.{replay_entry, replay, IsReplayed}
use careerscope.Leads.Rules.{update_lead-IsRefused, IsRefused}
use careerscope.Search.State.{Text, CollectedJob, Source}
use careerscope.Leads.Schema.{
  parse_evidence, parse_changes, TextCalls, LeadChanges, keep_evidence, give_evidence,
}
use careerscope.Leads.State.{
  insert_history, is_lead, LeadStatus, LeadTables, Lead, ApplicationEvidence, received, high, live,
  applied,
}
use careerscope.Base.Table.{find, update}
use careerscope.Base.{
  none, some, true, false, [], ◌∷◌, ℕ, Bool, List, Option, length, arith, ◌≡◌, refl,
}

abbrev same_characters : Text → Text
same_characters t = t

abbrev no_control : Text → Bool
no_control t = false

abbrev in_1970 : Text → Option ℕ
in_1970 t = some 0

abbrev texts : TextCalls
texts = record {
  trim = same_characters;
  lower = same_characters;
  has_control = no_control;
  code_points = length;
  instant = in_1970;
}

abbrev job : CollectedJob
job = record {
  fingerprint = 77;
  title = 4;
  company = 9;
  source = Source.lever;
  source_links = [];
  posted_at = none;
  content = 0;
}

abbrev no_leads : LeadTables
no_leads = record { leads = []; history = [] }

abbrev one_lead : LeadTables
one_lead = with_lead 1000 5 7 job no_leads

abbrev evidence : ApplicationEvidence
evidence = record {
  method = 101 ∷ [];
  applied_at = 49 ∷ [];
  confirmation = received;
  source = [];
  confidence = high;
}

abbrev apply_change : LeadChanges
apply_change = record {
  revision = 1;
  notes = 104 ∷ [];
  status = applied;
  application_evidence = give_evidence evidence;
  tags = none;
}

abbrev shelve_change : LeadChanges
shelve_change = record {
  revision = 2;
  notes = [];
  status = LeadStatus.archived;
  application_evidence = keep_evidence;
  tags = none;
}

abbrev calls : List (ℕ × LeadCall)
calls =
    (2000, update_call 5 7 5 apply_change)
    ∷ (3000, check_call 7 5 live)
    ∷ (4000, update_call 5 7 5 shelve_change)
    ∷ []

-- The lead after the application was recorded.
abbrev applied_lead : Lead
applied_lead = edited 2000 apply_change (some evidence) [] (new_lead 1000 5 7 job)

abbrev applied_tables : LeadTables
applied_tables = with_edit 2000 (new_lead 1000 5 7 job) apply_change one_lead

edit_test :
    update_lead texts 5 2000 7 5 apply_change one_lead ≡ (lead_answer applied_lead, applied_tables)
unfolding update_lead parse_changes parse_evidence broken_rule is_unchanged
    same_application_evidence write_edit insert_history find update
edit_test = refl

lead_steps-IsReplayed_example : IsReplayed 7 5 (lead_steps texts calls one_lead)
unfolding IsReplayed replay replay_entry find
lead_steps-IsReplayed_example = lead_steps-IsReplayed texts 7 5 calls one_lead refl

lead_steps-advances_example :
    (m : Lead) × (find (is_lead 7 5) (lead_steps texts calls one_lead).leads ≡ some m)
    × (advances (new_lead 1000 5 7 job) m ≡ true)
unfolding find
lead_steps-advances_example =
    lead_steps-advances texts 7 5 calls (new_lead 1000 5 7 job) one_lead refl

update_lead-IsRefused_example :
    IsRefused (lead_steps texts ((3000, check_call 7 5 live) ∷ []) applied_tables) (
      update_lead texts 5 5000 7 5 apply_change
        (lead_steps texts ((3000, check_call 7 5 live) ∷ []) applied_tables))
unfolding find update
update_lead-IsRefused_example =
    update_lead-IsRefused texts 5 5000 7 5 apply_change applied_lead applied_tables
      ((3000, check_call 7 5 live) ∷ []) refl (omega arith)

lead_steps-is_backed_example :
    (m : Lead) × (find (is_lead 7 5) (lead_steps texts calls one_lead).leads ≡ some m)
    × (is_backed (new_lead 1000 5 7 job) m ≡ true)
unfolding find
lead_steps-is_backed_example =
    lead_steps-is_backed texts 7 5 calls (new_lead 1000 5 7 job) one_lead refl
