-- ===== src/Search/Exclusion.antt =====
-- packages/core/src/database.ts: the fenced leases over any calls by any processes.
use careerscope.Search.Commits.{claim_commits}
use careerscope.Base.Table.{find-update}
use careerscope.Search.Fences.{after-Advances, Advances}
use careerscope.Search.Ownership.{
  claim_unknown, claim_again, found-id, claim_refused, renew_holds, claim_takes_over, claim-Grants,
  settle_finishes, settle_Settles, Grants,
}
use careerscope.Search.Settle.{settle}
use careerscope.Search.Lease.{held_by, release, renew, seconds, claim}
use careerscope.Search.Trace.{after, Call}
use careerscope.Search.State.{
  outbox_row, OutboxRow, ok, is_running, execution, SourceOutcome, RunStatus, Execution,
  CollectedJob, Database, Command, Request, Text,
}
use careerscope.Base.{
  refl, ◌==◌, none, Bool-cases, ◌∙◌, ◌*◌, ◌≤◌, sym, inr, inl, arith, Option-cases, ◌≢◌, ◌+◌, true,
  false, ◌<◌, some, ◌≡◌, Option, List, ℕ,
}

module _ (trim : Text → Text) (hash : Request → ℕ) where
  -- Once an execution is finished, no later settlement of its command is committed.
  finished_not_settled :
      (calls : List (ℕ × Call)) (db : Database) (e : Execution) (now : ℕ) (c : Command) (fence : ℕ)
      (jobs : List CollectedJob) (status : RunStatus) (outcomes : Option (List SourceOutcome))
      → execution c.id db ≡ some e
      → is_running e.status ≡ false
      → (settle now c fence jobs status outcomes (after trim hash calls db)).0 ≢ ok true
  finished_not_settled calls db e now c fence jobs status outcomes h stopped done =
      let x = settle_Settles now c fence jobs status outcomes (after trim hash calls db) done in
      let k = rw (h, x.stored) at (after-Advances trim hash calls c.id db) in
      ground (arith, k.1 stopped, x.runs)

  -- A command is settled at most once: after a settlement that is committed, and any further calls
  -- at all, no settlement of the command is committed again, whatever fence it presents.
  pub settle_once :
      (now : ℕ) (c : Command) (fence : ℕ) (jobs : List CollectedJob) (status : RunStatus)
      (outcomes : Option (List SourceOutcome)) (db : Database) (calls : List (ℕ × Call)) (now' : ℕ)
      (d : Command) (fence' : ℕ) (jobs' : List CollectedJob) (status' : RunStatus)
      (outcomes' : Option (List SourceOutcome))
      → (settle now c fence jobs status outcomes db).0 ≡ ok true
      → d.id ≡ c.id
      → (settle now' d fence' jobs' status' outcomes'
          (after trim hash calls (settle now c fence jobs status outcomes db).1)).0
        ≢ ok true
  settle_once now c fence jobs status outcomes db calls now' d fence' jobs' status' outcomes' done
        same =
      let (e, stored, stopped) = settle_finishes now c fence jobs status outcomes db done in
      finished_not_settled calls (settle now c fence jobs status outcomes db).1 e now' d fence'
        jobs' status' outcomes' (rw same stored) stopped

  -- Every claim of a command that succeeds gets a greater fence than all that succeeded before.
  pub claim_fences_grow :
      (now id s : ℕ) (db : Database) (calls : List (ℕ × Call)) (now' s' : ℕ) (f g : ℕ)
      → (claim now id s db).0 ≡ some f
      → (claim now' id s' (after trim hash calls (claim now id s db).1)).0 ≡ some g
      → f < g
  claim_fences_grow now id s db calls now' s' f g h k =
      let given = claim-Grants now id s db f h in
      grows given (after-Advances trim hash calls id (claim now id s db).1)
    where
      grows :
          Grants (now + seconds s) id f (claim now id s db).1
          → Advances
              (execution id (claim now id s db).1)
              (execution id (after trim hash calls (claim now id s db).1))
          → f < g
      grows given moved =
          elim (Option-cases (execution id (after trim hash calls (claim now id s db).1))) [
            | inl e ↦ absurd (rw (given.stored, e) at moved)
            | inr (y, e) ↦
                let m = rw (given.stored, e) at moved in
                omega (
                  arith,
                  claim_takes_over now' id s' (after trim hash calls (claim now id s db).1) y g e k,
                  m,
                  given.fenced,
                )
          ]

  -- What a claim granted is a lower bound of the fence ever after.
  fence_after :
      (until id g : ℕ) (db : Database) (later : List (ℕ × Call))
      → Grants until id g db
      → (e : Execution) × (execution id (after trim hash later db) ≡ some e) × (g ≤ e.fence)
  fence_after until id g db later given =
      elim (Option-cases (execution id (after trim hash later db))) [
        | inl e ↦ absurd (rw (given.stored, e) at (after-Advances trim hash later id db))
        | inr (y, e) ↦
            let m = rw (given.stored, e) at (after-Advances trim hash later id db) in
            (y, e, omega (arith, m.0, given.fenced))
      ]

  outdated :
      (db : Database) (e : Execution) (f : ℕ) (c : Command) (at : ℕ) (jobs : List CollectedJob)
      (status : RunStatus) (outcomes : Option (List SourceOutcome)) (s : ℕ)
      → execution c.id db ≡ some e
      → f < e.fence
      → ((settle at c f jobs status outcomes db).0 ≢ ok true) × ((renew at c.id f s db).0 ≡ false)
  outdated db e f c at jobs status outcomes s h less = (
    (λ done.
        let x = settle_Settles at c f jobs status outcomes db done in
        let same : some x.row ≡ some e = sym x.stored ∙ h in ground (arith, same, x.fenced)),
    elim (Bool-cases (renew at c.id f s db).0) [
      | inl t ↦ absurd (omega (arith, renew_holds at c.id f s db e h t))
      | inr t ↦ t
    ],
  )

  -- A worker whose lease was taken over has lost it for good: after a later claim of the command
  -- that succeeds, and any further calls, its fence settles nothing and renews nothing.
  pub taken_over_is_stale :
      (now s : ℕ) (c : Command) (db : Database) (f g : ℕ) (calls later : List (ℕ × Call))
      (now' s' at : ℕ) (jobs : List CollectedJob) (status : RunStatus)
      (outcomes : Option (List SourceOutcome)) (s'' : ℕ)
      → (claim now c.id s db).0 ≡ some f
      → (claim now' c.id s' (after trim hash calls (claim now c.id s db).1)).0 ≡ some g
      → let end =
          after trim hash later
            (claim now' c.id s' (after trim hash calls (claim now c.id s db).1)).1 in
        ((settle at c f jobs status outcomes end).0 ≢ ok true)
        × ((renew at c.id f s'' end).0 ≡ false)
  taken_over_is_stale now s c db f g calls later now' s' at jobs status outcomes s'' h k =
      let mid = after trim hash calls (claim now c.id s db).1 in
      let less = claim_fences_grow now c.id s db calls now' s' f g h k in
      let (e, stored, above) =
        fence_after (now' + seconds s') c.id g (claim now' c.id s' mid).1 later
          (claim-Grants now' c.id s' mid g k) in
      outdated (after trim hash later (claim now' c.id s' mid).1) e f c at jobs status outcomes s''
        stored (omega (arith, less, above))

claim_outbox :
    (now id s : ℕ) (db : Database) (f : ℕ)
    → (claim now id s db).0 ≡ some f
    → (o : OutboxRow) × (outbox_row id (claim now id s db).1 ≡ some o)
claim_outbox now id s db f h = elim (Option-cases (outbox_row id db)) [
  | inl e ↦ cc (claim_unknown now id s db e)
  | inr (o, e) ↦ (o, same-outbox o e)
]
  where
    same-outbox :
        (o : OutboxRow) → outbox_row id db ≡ some o → outbox_row id (claim now id s db).1 ≡ some o
    same-outbox o e = elim (claim_commits now id s db) [
      | inl k ↦ rw k e
      | inr (inl k) ↦ rw k (unfold outbox_row in e)
      | inr (inr k) ↦ rw k (unfold outbox_row in e)
    ]

released_row :
    (id f at : ℕ) (db : Database) (e : Execution)
    → execution id db ≡ some e
    → held_by id f e ≡ true
    → execution id (release at id f db) ≡ some (record e { lease_until = at })
unfolding release execution
released_row id f at db e h k =
    find-update (λ x. x.id == id) (held_by id f) (λ x. record x { lease_until = at }) db.executions
      (λ x. refl)
    ∙ rw h (rw k refl)

release_then_claim :
    {until id f : ℕ} {db : Database} (given : Grants until id f db) (at later s : ℕ)
    → at < later
    → (o : OutboxRow) × (outbox_row id db ≡ some o)
    → (claim later id s (release at id f db)).0 ≡ some (f + 1)
release_then_claim {until} {id} {f} {db} given at later s next (o, stored) =
    let e = record (given.row) { lease_until = at } in
    let same = found-id id db given.row given.stored in
    let row =
      released_row id f at db given.row given.stored
        (ground (arith, same, given.fenced, given.runs)) in
    let kept : outbox_row id (release at id f db) ≡ some o = unfold release outbox_row in stored in
    let again =
      claim_again later id s (release at id f db) o e kept row (ground (arith, same, given.runs)) in
    ground (arith, again, given.fenced)

-- A claim excludes every other claim until its lease has run out, and once the lease is released a
-- claim at any later time gets the next fence.
pub lease_excludes :
    (now id s : ℕ) (db : Database) (f now' s' : ℕ) (at later s'' : ℕ)
    → (claim now id s db).0 ≡ some f
    → now' ≤ now + s * 1000
    → at < later
    → let mine = (claim now id s db).1 in
      (claim now' id s' mine ≡ (none, mine))
      × ((claim later id s'' (release at id f mine)).0 ≡ some (f + 1))
lease_excludes now id s db f now' s' at later s'' h soon next =
    let given = claim-Grants now id s db f h in
    (
      claim_refused now' id s' (claim now id s db).1 given.row given.stored
          (ground (arith, given.leased)),
      release_then_claim given at later s'' next (claim_outbox now id s db f h),
    )
