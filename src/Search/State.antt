-- ===== src/Search/State.antt =====
-- The rows behind packages/core/src/database.ts: the outbox, the command executions, the search
-- runs, the jobs they collected and the events of a run. Identifiers, hashes and other texts that
-- are only compared for equality are numbers; times are milliseconds.
use careerscope.Base.{
  ℕ, ◌≡◌, ◌↔◌, Bool, true, false, ◌&&◌, Option, none, some, List, refl, arith, ◌==◌, ==_refl,
}
use careerscope.Base.Table.{find}

pub data CommandType : Type 0 where
  search_collect job_rank company_enrich resume_parse email_process : CommandType
  export_generate application_prepare : CommandType

abbrev pub command_type_code : CommandType → ℕ
command_type_code search_collect = 0
command_type_code job_rank = 1
command_type_code company_enrich = 2
command_type_code resume_parse = 3
command_type_code email_process = 4
command_type_code export_generate = 5
command_type_code application_prepare = 6

abbrev pub is_type : CommandType → CommandType → Bool
is_type a b = command_type_code a == command_type_code b

-- `version` is the literal 1 and is left out.
pub record Command : Type 0 where
  pub id : ℕ
  pub kind : CommandType
  pub aggregate_id : ℕ
  pub owner_id : ℕ
  pub occurred_at : ℕ
  pub correlation_id : ℕ
  pub causation_id : Option ℕ

abbrev same_option : Option ℕ → Option ℕ → Bool
same_option none none = true
same_option (some a) (some b) = a == b
same_option _ _ = false

-- Equality of the stored and the presented command, field by field.
unfoldable pub command_eq : Command → Command → Bool
command_eq a b =
    a.id == b.id
    && is_type a.kind b.kind
    && a.aggregate_id == b.aggregate_id
    && a.owner_id == b.owner_id
    && a.occurred_at == b.occurred_at
    && a.correlation_id == b.correlation_id
    && same_option a.causation_id b.causation_id

pub data ExecutionStatus : Type 0 where
  running completed failed : ExecutionStatus

abbrev pub is_running : ExecutionStatus → Bool
is_running running = true
is_running _ = false

pub record Execution : Type 0 where
  pub id : ℕ
  pub status : ExecutionStatus
  pub fence : ℕ
  pub attempts : ℕ
  pub lease_until : ℕ

pub record OutboxRow : Type 0 where
  pub id : ℕ
  pub command : Command
  pub published_at : Option ℕ
  pub created_at : ℕ

pub data Source : Type 0 where
  ashby greenhouse himalayas lever remoteok workable : Source

-- The place of a source in the alphabetical order of the names.
abbrev pub source_code : Source → ℕ
source_code ashby = 0
source_code greenhouse = 1
source_code himalayas = 2
source_code lever = 3
source_code remoteok = 4
source_code workable = 5

abbrev pub is_source : Source → Source → Bool
is_source a b = source_code a == source_code b

pub data OutcomeStatus : Type 0 where
  completed empty failed : OutcomeStatus

pub data ErrorCode : Type 0 where
  source_failed source_timeout invalid_response source_permission_pending : ErrorCode

pub record SourceOutcome : Type 0 where
  pub source : Source
  pub status : OutcomeStatus
  pub accepted : ℕ
  pub limited : Bool
  pub error_code : Option ErrorCode

pub data Origin : Type 0 where
  manual scheduled : Origin

-- A text as the list of its code units.
abbrev pub Text : Type 0
Text = List ℕ

pub record Request : Type 0 where
  pub query : Text
  pub use_profile_titles : Option Bool
  pub origin : Origin
  pub sources : List Source

-- What a run keeps of the profile; `preferences` beside the titles are not read here.
pub record MatchingProfile : Type 0 where
  pub location : Text
  pub titles : List Text
  pub other_preferences : ℕ
  pub expected_ctc : Option ℕ
  pub years_of_experience : Option ℕ
  pub willing_to_relocate : Bool
  pub derived : Option ℕ

pub data RunStatus : Type 0 where
  queued running completed partial failed cancelled : RunStatus

-- `status IN ('queued', 'running')`.
abbrev pub is_open : RunStatus → Bool
is_open queued = true
is_open running = true
is_open _ = false

pub record SearchRun : Type 0 where
  pub id : ℕ
  pub owner_id : ℕ
  pub status : RunStatus
  pub request : Request
  pub request_hash : ℕ
  pub idempotency_key : ℕ
  pub matching_profile : Option MatchingProfile
  pub profile_revision : Option ℕ
  pub source_outcomes : Option (List SourceOutcome)
  pub created_at : ℕ

pub record SourceLink : Type 0 where
  pub source : Source
  pub url : ℕ

-- A job that has passed `collectedJobSchema`; the texts that no statement reads are one number.
pub record CollectedJob : Type 0 where
  pub fingerprint : ℕ
  pub title : ℕ
  pub company : ℕ
  pub source : Source
  pub source_links : List SourceLink
  pub posted_at : Option ℕ
  pub content : ℕ

pub record SearchJob : Type 0 where
  pub run_id : ℕ
  pub owner_id : ℕ
  pub fingerprint : ℕ
  pub job : CollectedJob

pub record JobSighting : Type 0 where
  pub owner_id : ℕ
  pub fingerprint : ℕ
  pub title : ℕ
  pub company : ℕ
  pub first_posted_at : Option ℕ
  pub last_posted_at : Option ℕ
  pub last_run_id : ℕ
  pub last_seen_at : ℕ
  pub sightings : ℕ
  pub repost_count : ℕ

pub data EventType : Type 0 where
  search_queued search_started search_cancelled : EventType
  search_completed search_partial search_failed : EventType

pub record RunEvent : Type 0 where
  pub run_id : ℕ
  pub owner_id : ℕ
  pub kind : EventType

pub record Database : Type 0 where
  pub outbox : List OutboxRow
  pub executions : List Execution
  pub runs : List SearchRun
  pub jobs : List SearchJob
  pub sightings : List JobSighting
  pub events : List RunEvent

-- Why a call throws: the codes of `Conflict`, and a failed schema.
pub data Failure : Type 0 where
  invalid_input search_command_missing unsupported_start_type search_cannot_start : Failure
  unsupported_completion_type not_eligible jobs_do_not_match : Failure
  idempotency_key_reused missing_target_roles constraint_violated : Failure

pub data Result {ℓ} (A : Type ℓ) : Type ℓ where
  ok : A → Result A
  err : Failure → Result A

-- `executionStatus` and `command` read a row by its primary key.
unfoldable pub execution : ℕ → Database → Option Execution
execution id db = find (λ e. e.id == id) db.executions

unfoldable pub outbox_row : ℕ → Database → Option OutboxRow
outbox_row id db = find (λ o. o.id == id) db.outbox

unfoldable pub run : ℕ → Database → Option SearchRun
run id db = find (λ r. r.id == id) db.runs

unfoldable pub execution_status : ℕ → Database → Option ExecutionStatus
unfolding execution
execution_status id db = elim (execution id db) [ none ↦ none | some e ↦ some e.status ]

unfoldable pub command : ℕ → Database → Option Command
unfolding outbox_row
command id db = elim (outbox_row id db) [ none ↦ none | some o ↦ some o.command ]

pub command_type-injective : (a b : CommandType) → command_type_code a ≡ command_type_code b → a ≡ b
command_type-injective a b h = ground arith

same_option_refl : (o : Option ℕ) → same_option o o ≡ true
same_option_refl none = refl
same_option_refl (some a) = ==_refl a

command_eq_refl : (a : Command) → command_eq a a ≡ true
unfolding command_eq
command_eq_refl a = ground (arith, same_option_refl a.causation_id)

command_eq-eq : (a b : Command) → command_eq a b ≡ true → a ≡ b
unfolding command_eq
command_eq-eq a b h = ground (arith, command_type-injective a.kind b.kind)

pub command_eq_iff : (a b : Command) → (command_eq a b ≡ true) ↔ (a ≡ b)
command_eq_iff a b = (command_eq-eq a b, λ e. rw e (command_eq_refl b))
