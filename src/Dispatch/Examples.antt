-- ===== src/Dispatch/Examples.antt =====
-- Concrete runs of the theorems on packages/core/src/dispatch.ts.
use careerscope.Dispatch.Publishing.{publish_pending-marks}
use careerscope.Search.Lease.{is_due, claim}
use careerscope.Dispatch.Delivery.{consume_message-acknowledges, Completed}
use careerscope.Dispatch.Redelivery.{consume_message_again}
use careerscope.Base.Table.{sort_by, update, find}
use careerscope.Base.{◌⊎◌, none, some, true, false, [], ◌∷◌, refl, ◌≡◌, ℕ}
use careerscope.Search.State.{
  outbox_row, run, execution_status, execution, command_eq, command, Command, search_collect,
  Request, RunStatus, Database, Text, Origin, Source,
}
use careerscope.Search.Trace.{after, complete_search, release_lease}
use careerscope.Search.Settle.{settled, same_sources, complete, fail}
use careerscope.Dispatch.{
  publish_pending, is_durable, consume_message, Message, Surroundings, Consumed, decoded,
  acknowledge,
}

abbrev sample_trim : Text → Text
sample_trim t = t

abbrev sample_hash : Request → ℕ
sample_hash r = 0

abbrev sample_jitter : ℕ → ℕ
sample_jitter n = n

abbrev sample_command : Command
sample_command = record {
  id = 1;
  kind = search_collect;
  aggregate_id = 10;
  owner_id = 7;
  occurred_at = 1000;
  correlation_id = 5;
  causation_id = none;
}

abbrev sample_db : Database
sample_db = record {
  outbox = record { id = 1; command = sample_command; published_at = none; created_at = 1000 } ∷ [];
  executions = [];
  runs =
      record {
        id = 10;
        owner_id = 7;
        status = RunStatus.queued;
        request = record {
          query = 100 ∷ 101 ∷ [];
          use_profile_titles = none;
          origin = Origin.manual;
          sources = Source.lever ∷ [];
        };
        request_hash = 0;
        idempotency_key = 3;
        matching_profile = none;
        profile_revision = none;
        source_outcomes = none;
        created_at = 1000;
      }
      ∷ [];
  jobs = [];
  sightings = [];
  events = [];
}

abbrev sample_message : Message
sample_message = record {
  receipt = some 900;
  body = decoded sample_command;
  receive_count = some 1;
}

-- The handler settles the search under the fence it was given.
abbrev sample_surroundings : Surroundings
sample_surroundings = record {
  is_aborted = false;
  claimed_at = 2000;
  meanwhile = (2500, complete_search sample_command 1 []) ∷ [];
  is_committed = true;
  is_held = true;
  is_aborted_later = false;
  is_heartbeat_failed = false;
  settled_at = 3000;
  is_lease_lost = false;
}

consume_message-acknowledges_example :
    (c : Command) × (sample_message.body ≡ decoded c)
    × (is_durable search_collect c sample_db ≡ true)
    × (((consume_message sample_trim sample_hash sample_jitter fail search_collect
            sample_surroundings sample_message sample_db).0
          ≡ Consumed.completed)
        ⊎ ((consume_message sample_trim sample_hash sample_jitter fail search_collect
              sample_surroundings sample_message sample_db).0
            ≡ Consumed.duplicate))
    × Completed c.id
        (consume_message sample_trim sample_hash sample_jitter fail search_collect
          sample_surroundings sample_message sample_db).2
unfolding consume_message find command command_eq claim execution execution_status after complete
    run same_sources settled update
consume_message-acknowledges_example =
    consume_message-acknowledges sample_trim sample_hash sample_jitter fail search_collect
      sample_surroundings sample_message sample_db refl

consume_message_again_example :
    let left =
      after sample_trim sample_hash
        ((4000, release_lease 1 1) ∷ [])
        (consume_message sample_trim sample_hash sample_jitter fail search_collect
          sample_surroundings sample_message sample_db).2 in
    consume_message sample_trim sample_hash sample_jitter fail search_collect sample_surroundings
      (record sample_message { receipt = some 901 })
      left
    ≡ (Consumed.duplicate, acknowledge 901 ∷ [], left)
unfolding consume_message find command command_eq claim execution execution_status after complete
    run same_sources settled update
consume_message_again_example =
    consume_message_again sample_trim sample_hash sample_jitter fail search_collect
      sample_surroundings sample_message sample_db ((4000, release_lease 1 1) ∷ [])
      sample_surroundings (record sample_message { receipt = some 901 }) 901 refl refl refl refl
      refl

publish_pending-marks_example :
    outbox_row 1 (publish_pending (λ t. true) (λ c. false) 5000 5000 sample_db).2
    ≡ outbox_row 1 sample_db
unfolding publish_pending is_due sort_by
publish_pending-marks_example =
    publish_pending-marks (λ t. true) (λ c. false) 5000 5000 sample_db 1 refl
