-- ===== src/Search/Idempotency.antt =====
-- packages/core/src/database.ts, `createSearch`: what a repeated idempotency key does.
use careerscope.Base.{
  ==_iff, if◌then◌else◌, ap, sym, sym, none, some, true, false, [], ◌∷◌, ◌∙◌, inl, inr, refl, arith,
  ◌≡◌, ℕ, Bool, List, ◌==◌, Bool-cases, Option-cases, ==_refl,
}
use careerscope.Base.Table.{find, find-append}
use careerscope.Search.State.{Database, SearchRun, Request, Text, Result, ok, err, Failure, Source}
use careerscope.Search.Create.{
  Fresh, ProfileRow, ResumeResult, create_search, created, new_run, is_keyed, lacks_titles,
}
use careerscope.Commands.{RequestInput, parse_request}
use careerscope.Commands.Laws.{parse_request-perm}
use mathlib.Core.List.{Perm}

choose_true : {A : Type 0} (b : Bool) (x y : A) → b ≡ true → (if b then x else y) ≡ x
choose_true b x y h = rw h refl

choose_false : {A : Type 0} (b : Bool) (x y : A) → b ≡ false → (if b then x else y) ≡ y
choose_false b x y h = rw h refl

module _ (trim : Text → Text) (hash : Request → ℕ) (owner key : ℕ) where
  -- The run that holds the key answers for it.
  answered :
      (f : Fresh) (input : RequestInput) (profiles : List ProfileRow) (resumes : List ResumeResult)
      (db : Database) (request : Request) (r : SearchRun)
      → parse_request trim input ≡ some request
      → find (is_keyed owner key) db.runs ≡ some r
      → r.request_hash ≡ hash request
      → create_search trim hash f owner key input profiles resumes db ≡ (ok r, db)
  unfolding create_search
  answered f input profiles resumes db request r e k h =
      rw (create_search, e, k) (ground (arith, h))

  new_run-key :
      (f : Fresh) (request : Request) (profiles : List ProfileRow) (resumes : List ResumeResult)
      → (is_keyed owner key (new_run trim hash f owner key request profiles resumes) ≡ true)
        × ((new_run trim hash f owner key request profiles resumes).request_hash ≡ hash request)
  unfolding new_run
  new_run-key f request profiles resumes = (ground (arith, ==_refl owner, ==_refl key), refl)

  created-found :
      (f : Fresh) (r : SearchRun) (db : Database)
      → find (is_keyed owner key) db.runs ≡ none
      → is_keyed owner key r ≡ true
      → find (is_keyed owner key) (created trim hash f owner r db).runs ≡ some r
  unfolding created find
  created-found f r db e k = find-append (is_keyed owner key) db.runs (r ∷ []) ∙ rw (e, k) refl

  module _ (f : Fresh) (input : RequestInput) (profiles : List ProfileRow)
      (resumes : List ResumeResult) (db : Database) where
    create_search_invalid :
        parse_request trim input ≡ none
        → create_search trim hash f owner key input profiles resumes db
          ≡ (err Failure.invalid_input, db)
    unfolding create_search
    create_search_invalid e = rw (create_search, e) refl

    create_search_existing :
        (q : Request) (x : SearchRun)
        → parse_request trim input ≡ some q
        → find (is_keyed owner key) db.runs ≡ some x
        → create_search trim hash f owner key input profiles resumes db ≡ (
            if x.request_hash == hash q
            then (ok x, db)
            else (err Failure.idempotency_key_reused, db))
    unfolding create_search
    create_search_existing q x e k = rw (create_search, e, k) refl

    create_search_fresh :
        (q : Request)
        → parse_request trim input ≡ some q
        → find (is_keyed owner key) db.runs ≡ none
        → create_search trim hash f owner key input profiles resumes db ≡ (
            if lacks_titles trim hash (new_run trim hash f owner key q profiles resumes)
            then (err Failure.missing_target_roles, db)
            else (
              ok (new_run trim hash f owner key q profiles resumes),
              created trim hash f owner (new_run trim hash f owner key q profiles resumes) db,
            ))
    unfolding create_search
    create_search_fresh q e k = rw (create_search, e, k) refl

  ok_injective : (x r : SearchRun) → ok x ≡ ok r → x ≡ r
  ok_injective x r h = ap (λ (o : Result SearchRun). elim o [ ok y ↦ y | err e ↦ x ]) h

  -- A result that answers the run stored under the key.
  stored_at :
      (out : Result SearchRun × Database) (x r : SearchRun) (d : Database) (q : Request)
      → out ≡ (ok x, d)
      → out.0 ≡ ok r
      → find (is_keyed owner key) d.runs ≡ some x
      → x.request_hash ≡ hash q
      → (find (is_keyed owner key) out.1.runs ≡ some r) × (r.request_hash ≡ hash q)
  stored_at out x r d q e h k same =
      let i = ok_injective x r (sym (ap (λ o. o.0) e) ∙ h) in
      (
        ap (λ (o : Result SearchRun × Database). find (is_keyed owner key) o.1.runs) e
            ∙ k
            ∙ ap some i,
        sym (ap (λ (y : SearchRun). y.request_hash) i) ∙ same,
      )

  -- What a call that answers a run leaves: the run under its key, with the hash of the request.
  create_search-stores :
      (f : Fresh) (input : RequestInput) (profiles : List ProfileRow) (resumes : List ResumeResult)
      (db : Database) (r : SearchRun)
      → (create_search trim hash f owner key input profiles resumes db).0 ≡ ok r
      → (request : Request) × (parse_request trim input ≡ some request)
        × (find
              (is_keyed owner key)
              (create_search trim hash f owner key input profiles resumes db).1.runs
            ≡ some r)
        × (r.request_hash ≡ hash request)
  create_search-stores f input profiles resumes db r h =
      elim (Option-cases (parse_request trim input)) [
        | inl e ↦ cc (rw (create_search_invalid f input profiles resumes db e) at h)
        | inr (q, e) ↦ elim (Option-cases (find (is_keyed owner key) db.runs)) [
          | inr (x, k) ↦
              let p = create_search_existing f input profiles resumes db q x e k in
              elim (Bool-cases (x.request_hash == hash q)) [
                | inl t ↦
                    let s =
                      stored_at _ x r db q (p ∙ choose_true _ _ _ t) h k
                        ((==_iff x.request_hash (hash q)).0 t) in
                    (q, e, s.0, s.1)
                | inr t ↦ cc (rw (p ∙ choose_false _ _ _ t) at h)
              ]
          | inl k ↦
              let p = create_search_fresh f input profiles resumes db q e k in
              let made = new_run-key f q profiles resumes in
              elim (Bool-cases
                (lacks_titles trim hash (new_run trim hash f owner key q profiles resumes))) [
                  | inl t ↦ cc (rw (p ∙ choose_true _ _ _ t) at h)
                  | inr t ↦
                      let s =
                        stored_at _ _ r _ q (p ∙ choose_false _ _ _ t) h
                          (created-found f _ db k made.0) made.1 in
                      (q, e, s.0, s.1)
                ]
        ]
      ]

  -- A call that is repeated with the same key, and with its sources in any order, answers the same run
  -- and changes nothing, whatever the profile and the resumes are by then.
  pub create_search_again :
      (f : Fresh) (input : RequestInput) (profiles : List ProfileRow) (resumes : List ResumeResult)
      (db : Database) (r : SearchRun) (f' : Fresh) (ts : List Source) (profiles' : List ProfileRow)
      (resumes' : List ResumeResult)
      → (create_search trim hash f owner key input profiles resumes db).0 ≡ ok r
      → Perm input.sources ts
      → let left = (create_search trim hash f owner key input profiles resumes db).1 in
        create_search trim hash f' owner key (record input { sources = ts }) profiles' resumes' left
        ≡ (ok r, left)
  create_search_again f input profiles resumes db r f' ts profiles' resumes' h p =
      let (q, e, k, same) = create_search-stores f input profiles resumes db r h in
      answered f' (record input { sources = ts }) profiles' resumes' _ q r
        (sym (parse_request-perm trim input ts p) ∙ e) k same
