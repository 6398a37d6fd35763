-- ===== src/Search/Create.antt =====
-- database.ts: `createSearch`, with the snapshot of the profile (profile.ts, `matchingProfile`).
use careerscope.Base.{
  ℕ, Bool, false, not, ◌&&◌, Option, none, some, List, [], ◌∷◌, ◌++◌, ltb, leb, ◌==◌, if◌then◌else◌,
  any, length, get_or,
}
use careerscope.Base.Table.{find}
use careerscope.Search.State.{
  Command, search_collect, Text, Request, MatchingProfile, RunStatus, SearchRun, EventType,
  Database, Failure, Result, ok, err,
}
use careerscope.Commands.{RequestInput, parse_request}

-- The fields of a saved profile that the snapshot copies, and the rest of it.
pub record WritableProfile : Type 0 where
  pub location : Text
  pub titles : List Text
  pub other_preferences : ℕ
  pub expected_ctc : Option ℕ
  pub years_of_experience : Option ℕ
  pub willing_to_relocate : Bool
  pub not_for_matching : ℕ

pub record ProfileRow : Type 0 where
  pub owner_id : ℕ
  pub revision : ℕ
  pub profile : WritableProfile

pub record ResumeResult : Type 0 where
  pub owner_id : ℕ
  pub is_parsed : Bool
  pub derived : Option ℕ
  pub created_at : ℕ

unfoldable pub matching_profile : WritableProfile → Option ℕ → MatchingProfile
matching_profile p derived = record {
  location = p.location;
  titles = p.titles;
  other_preferences = p.other_preferences;
  expected_ctc = p.expected_ctc;
  years_of_experience = p.years_of_experience;
  willing_to_relocate = p.willing_to_relocate;
  derived = derived;
}

abbrev is_parsed_of : ℕ → ResumeResult → Bool
is_parsed_of owner r = r.owner_id == owner && r.is_parsed

-- The later of two results; an earlier row wins a tie.
abbrev later : ResumeResult → Option ResumeResult → ResumeResult
later r none = r
later r (some s) = if ltb r.created_at s.created_at then s else r

-- `WHERE owner AND status = 'parsed' ORDER BY created_at DESC LIMIT 1`.
unfoldable pub latest_resume : ℕ → List ResumeResult → Option ResumeResult
latest_resume owner [] = none
latest_resume owner (r ∷ rs) =
    let rest = latest_resume owner rs in if is_parsed_of owner r then some (later r rest) else rest

-- `title.trim().length` is 2 to 160 for some title.
abbrev has_usable_title : (Text → Text) → MatchingProfile → Bool
has_usable_title trim p = any (λ t. leb 2 (length (trim t)) && leb (length (trim t)) 160) p.titles

abbrev pub is_keyed : ℕ → ℕ → SearchRun → Bool
is_keyed owner key r = r.owner_id == owner && r.idempotency_key == key

-- The identifiers that a call draws: `randomUUID`, and the time.
pub record Fresh : Type 0 where
  pub run_id : ℕ
  pub command_id : ℕ
  pub now : ℕ

module _ (trim : Text → Text) (hash : Request → ℕ) where
  unfoldable pub new_run : Fresh → ℕ → ℕ → Request → List ProfileRow → List ResumeResult → SearchRun
  unfolding matching_profile
  new_run f owner key request profiles resumes =
      let profile = find (λ (p : ProfileRow). p.owner_id == owner) profiles in
      record {
        id = f.run_id;
        owner_id = owner;
        status = RunStatus.queued;
        request = request;
        request_hash = hash request;
        idempotency_key = key;
        matching_profile = elim profile [
          | none ↦ none
          | some p ↦ some (
              matching_profile p.profile
                (elim (latest_resume owner resumes) [ none ↦ none | some r ↦ r.derived ]))
        ];
        profile_revision = elim profile [ none ↦ none | some p ↦ some p.revision ];
        source_outcomes = none;
        created_at = f.now;
      }

  abbrev pub lacks_titles : SearchRun → Bool
  lacks_titles r =
      get_or r.request.use_profile_titles false
      && not (elim r.matching_profile [ none ↦ false | some p ↦ has_usable_title trim p ])

  abbrev collect_command : Fresh → ℕ → Command
  collect_command f owner = record {
    id = f.command_id;
    kind = search_collect;
    aggregate_id = f.run_id;
    owner_id = owner;
    occurred_at = f.now;
    correlation_id = f.run_id;
    causation_id = none;
  }

  -- The database with the run, its command and its first event.
  unfoldable pub created : Fresh → ℕ → SearchRun → Database → Database
  created f owner r db = record db {
    runs = db.runs ++ r ∷ [];
    outbox =
        db.outbox
        ++ record {
          id = f.command_id;
          command = collect_command f owner;
          published_at = none;
          created_at = f.now;
        }
          ∷ [];
    events =
        db.events
        ++ record { run_id = f.run_id; owner_id = owner; kind = EventType.search_queued } ∷ [];
  }

  -- The run's row is refused by the unique index on (owner, key), where a run has the key already.
  unfoldable pub create_search :
      Fresh
      → ℕ
      → ℕ
      → RequestInput
      → List ProfileRow
      → List ResumeResult
      → Database
      → Result SearchRun × Database
  unfolding new_run created
  create_search f owner key input profiles resumes db = elim (parse_request trim input) [
    | none ↦ (err Failure.invalid_input, db)
    | some request ↦ elim (find (is_keyed owner key) db.runs) [
      | some existing ↦
          if existing.request_hash == hash request
          then (ok existing, db)
          else (err Failure.idempotency_key_reused, db)
      | none ↦
          if lacks_titles (new_run f owner key request profiles resumes)
          then (err Failure.missing_target_roles, db)
          else (
            ok (new_run f owner key request profiles resumes),
            created f owner (new_run f owner key request profiles resumes) db,
          )
    ]
  ]
