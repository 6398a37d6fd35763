-- ===== src/Leads/Trace.antt =====
-- packages/core/src/leads.ts: the calls that change leads, as one type, and their effect in a row.
use careerscope.Leads.Update.{record_liveness_check, update_lead}
use careerscope.Leads.State.{LivenessStatus, LeadTables}
use careerscope.Leads.Schema.{LeadChanges, TextCalls}
use careerscope.Leads.Save.{save, FoundJob}
use careerscope.Search.State.{SearchRun}
use careerscope.Base.{[], ◌∷◌, ℕ, List}

pub data LeadCall : Type 0 where
  save_call : ℕ → ℕ → ℕ → List FoundJob → List SearchRun → LeadCall
  update_call : ℕ → ℕ → ℕ → LeadChanges → LeadCall
  check_call : ℕ → ℕ → LivenessStatus → LeadCall

module _ (texts : TextCalls) where
  unfoldable pub lead_step : ℕ → LeadCall → LeadTables → LeadTables
  lead_step now (save_call id owner job_id jobs runs) t = (save now id owner job_id jobs runs t).1
  lead_step now (update_call ms owner id changes) t =
      (update_lead texts ms now owner id changes t).1
  lead_step now (check_call owner id status) t = record_liveness_check now owner id status t

  unfoldable pub lead_steps : List (ℕ × LeadCall) → LeadTables → LeadTables
  unfolding lead_step
  lead_steps [] t = t
  lead_steps ((now, call) ∷ calls) t = lead_steps calls (lead_step now call t)
