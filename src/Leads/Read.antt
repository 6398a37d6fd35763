-- ===== src/Leads/Read.antt =====
-- packages/core/src/leads.ts: the queries: one page of leads, the export, one page of history and the leads
-- whose link is due for a check. The answers are the rows; the schemas read them again.
use careerscope.Leads.Update.{is_progressed}
use careerscope.Leads.State.{
  rejected, is_about, archived, is_status, is_lead, LeadTables, LeadStatus, LeadHistory, Lead,
}
use careerscope.Base.Table.{find, order_rows}
use careerscope.Base.{
  ◌*◌, none, some, true, false, [], ◌∷◌, ◌+◌, ℕ, Bool, List, Option, length, leb, ltb, not, ◌==◌,
  ◌&&◌, ◌||◌, if◌then◌else◌, keep, take,
}

-- `ORDER BY created_at DESC, id DESC`
abbrev pub is_newer : Lead → Lead → Bool
is_newer a b = ltb b.created_at a.created_at || ((a.created_at == b.created_at) && ltb b.id a.id)

-- `(created_at, id) < (SELECT …)`, which a cursor that is not there makes false of every row.
abbrev is_after_cursor : Option ℕ → Option Lead → Lead → Bool
is_after_cursor none cursor l = true
is_after_cursor (some b) none l = false
is_after_cursor (some b) (some c) l = is_newer c l

abbrev pub last_id : List Lead → Option ℕ
last_id [] = none
last_id (l ∷ []) = some l.id
last_id (l ∷ m ∷ ls) = last_id (m ∷ ls)

pub record LeadPage : Type 0 where
  pub items : List Lead
  pub next_cursor : Option ℕ

abbrev lead_page : ℕ → List Lead → LeadPage
lead_page limit rows = record {
  items = take limit rows;
  next_cursor = if ltb limit (length rows) then last_id (take limit rows) else none;
}

abbrev pub cursor_row : ℕ → Option ℕ → List Lead → Option Lead
cursor_row owner none leads = none
cursor_row owner (some b) leads = find (is_lead owner b) leads

unfoldable pub list_leads : ℕ → LeadStatus → Option ℕ → ℕ → LeadTables → LeadPage
list_leads owner status before limit t =
    let cursor = cursor_row owner before t.leads in
    lead_page limit (
      take (limit + 1) (
        order_rows is_newer (
          keep
            (λ l.
              (l.owner_id == owner) && is_status l.status status && is_after_cursor before cursor l)
            t.leads)))

-- `ORDER BY updated_at DESC, id DESC`
abbrev is_updated_later : Lead → Lead → Bool
is_updated_later a b =
    ltb b.updated_at a.updated_at || ((a.updated_at == b.updated_at) && ltb b.id a.id)

unfoldable pub list_applications_for_export : ℕ → LeadTables → List Lead
list_applications_for_export owner t =
    order_rows is_updated_later
      (keep (λ l. (l.owner_id == owner) && is_progressed l.status) t.leads)

pub record HistoryPage : Type 0 where
  pub items : List LeadHistory
  pub next_cursor : Option ℕ

abbrev last_revision : List LeadHistory → Option ℕ
last_revision [] = none
last_revision (h ∷ []) = some h.revision
last_revision (h ∷ k ∷ hs) = last_revision (k ∷ hs)

abbrev is_below : Option ℕ → LeadHistory → Bool
is_below none h = true
is_below (some b) h = ltb h.revision b

abbrev is_later_revision : LeadHistory → LeadHistory → Bool
is_later_revision a b = ltb b.revision a.revision

abbrev history_page : List LeadHistory → HistoryPage
history_page rows = record {
  items = take 25 rows;
  next_cursor = if ltb 25 (length rows) then last_revision (take 25 rows) else none;
}

unfoldable pub history : ℕ → ℕ → Option ℕ → LeadTables → Option HistoryPage
history owner id before t = elim (find (is_lead owner id) t.leads) [
  | none ↦ none
  | some l ↦ some (
      history_page (
        take 26 (
          order_rows is_later_revision
            (keep (λ h. is_about owner id h && is_below before h) t.history))))
]

abbrev is_dismissed : LeadStatus → Bool
is_dismissed s = is_status s archived || is_status s rejected

-- Never checked, or checked more than so many hours ago.
abbrev is_stale : ℕ → ℕ → Option ℕ → Bool
is_stale now hours none = true
is_stale now hours (some t) = ltb (t + hours * 3600) now

-- `ORDER BY liveness_checked_at ASC NULLS FIRST`
abbrev is_checked_earlier : Lead → Lead → Bool
is_checked_earlier a b = elim a.liveness_checked_at [
  | none ↦ true
  | some s ↦ elim b.liveness_checked_at [ none ↦ false | some t ↦ leb s t ]
]

unfoldable pub due_for_liveness_check : ℕ → ℕ → ℕ → LeadTables → List Lead
due_for_liveness_check now limit hours t = take limit (
    order_rows is_checked_earlier
      (keep (λ l. not (is_dismissed l.status) && is_stale now hours l.liveness_checked_at) t.leads))
