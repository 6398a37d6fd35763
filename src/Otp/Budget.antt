-- ===== src/Otp/Budget.antt =====
-- packages/core/src/email-otp-challenges.ts, `consume`: the attempts that a challenge has left.
use careerscope.Otp.Consume.{ConsumeInput, count_attempt, consume_row, consume, apply_verdict}
use careerscope.Base.Table.{find-update, find-delete-none, update, find-holds, delete, find}
use careerscope.Base.{
  ◌⊎◌, sym, ◌∙◌, subst, Option-cases, get_or, ◌≤◌, ◌<◌, ltb, List, Bool, ℕ, Option, none, some,
  true, [], ◌∷◌, ◌+◌, ◌-◌, inl, inr, refl, arith, ◌≡◌,
}
use careerscope.Otp.Challenges.{
  Intent, hash_otp_email, is_row, is_challenge, ChallengeContext, Keys, Challenge, Result, ok,
}
use careerscope.Otp.Code.{
  Submitted, Secret, verify_email_otp, Verification, Crypto, accepted, incorrect, exhausted,
  invalid,
}

-- The codes that may still be tried against a challenge.
abbrev budget_of : Option Challenge → ℕ
budget_of none = 0
budget_of (some c) = 5 - c.attempts

unfoldable pub budget : ℕ → ℕ → List Challenge → ℕ
budget id email_hash rows = budget_of (find (is_challenge id email_hash) rows)

-- One, if the answer is accepted, incorrect or exhausted.
abbrev pub tried : Result Verification → ℕ
tried (ok accepted) = 1
tried (ok incorrect) = 1
tried (ok exhausted) = 1
tried r = 0

-- The table's check constraint on `attempts`; the fifth wrong attempt deletes the row.
abbrev pub within : Option Challenge → Bool
within none = true
within (some c) = ltb c.attempts 5

pub find-delete_row :
    (id h : ℕ) (rows : List Challenge) → find (is_challenge id h) (delete (is_row id) rows) ≡ none
find-delete_row id h rows =
    find-delete-none (is_challenge id h) (is_row id) rows (λ x t. ground arith)

budget-delete : (id h : ℕ) (rows : List Challenge) → budget id h (delete (is_row id) rows) ≡ 0
unfolding budget
budget-delete id h rows = rw (find-delete_row id h rows)

budget-found :
    (id h : ℕ) (rows : List Challenge) (c : Challenge)
    → find (is_challenge id h) rows ≡ some c
    → budget id h rows ≡ 5 - c.attempts
unfolding budget
budget-found id h rows c found = rw found

pub found_row :
    (id h : ℕ) (rows : List Challenge) (c : Challenge)
    → find (is_challenge id h) rows ≡ some c
    → (c.id ≡ id) × (c.email_hash ≡ h)
found_row id h rows c found =
    let t = find-holds (is_challenge id h) rows c found in (ground arith, ground arith)

find-count_row :
    (id h : ℕ) (rows : List Challenge) (c : Challenge)
    → find (is_challenge id h) rows ≡ some c
    → find (is_challenge id h) (update (is_row id) count_attempt rows) ≡ some (count_attempt c)
find-count_row id h rows c found =
    find-update (is_challenge id h) (is_row id) count_attempt rows (λ x. refl)
    ∙ rw found (ground (arith, found_row id h rows c found))

budget-count :
    (id h : ℕ) (rows : List Challenge) (c : Challenge)
    → find (is_challenge id h) rows ≡ some c
    → budget id h (update (is_row id) count_attempt rows) ≡ 5 - (c.attempts + 1)
unfolding budget
budget-count id h rows c found = rw (find-count_row id h rows c found)

module _ {S : Type 0} (crypto : Crypto) (keys : Keys)
    (on_accepted : ChallengeContext → S → Option S) where
  apply_verdict-budget :
      (v : Verification) (h : ℕ) (c : Challenge) (rows : List Challenge) (s : S)
      → find (is_challenge c.id h) rows ≡ some c
      → c.attempts < 5
      → tried (apply_verdict crypto keys on_accepted v c rows s).0
          + budget c.id h (apply_verdict crypto keys on_accepted v c rows s).1
        ≤ budget c.id h rows
  unfolding apply_verdict
  apply_verdict-budget accepted h c rows s found low =
      ground (arith, budget-delete c.id h rows, budget-found c.id h rows c)
  apply_verdict-budget _ h c rows s found low =
      ground
        (arith, budget-delete c.id h rows, budget-found c.id h rows c, budget-count c.id h rows c)

  consume_row-budget :
      (clock : ℕ) (input : ConsumeInput) (h : ℕ) (c : Challenge) (rows : List Challenge) (s : S)
      → find (is_challenge c.id h) rows ≡ some c
      → c.attempts < 5
      → tried (consume_row crypto keys on_accepted clock input c rows s).0
          + budget c.id h (consume_row crypto keys on_accepted clock input c rows s).1
        ≤ budget c.id h rows
  unfolding consume_row
  consume_row-budget clock input h c rows s found low =
      let now = get_or input.now clock in
      let v =
        verify_email_otp crypto c.id input.code c.digest input.secret c.expires_at c.attempts now in
      ground (arith, budget-delete c.id h rows, apply_verdict-budget v h c rows s found low)

  apply_verdict-within :
      (v : Verification) (h : ℕ) (c : Challenge) (rows : List Challenge) (s : S)
      → find (is_challenge c.id h) rows ≡ some c
      → c.attempts < 5
      → within (find (is_challenge c.id h) (apply_verdict crypto keys on_accepted v c rows s).1)
        ≡ true
  unfolding apply_verdict
  apply_verdict-within accepted h c rows s found low =
      ground (arith, found, find-delete_row c.id h rows)
  apply_verdict-within _ h c rows s found low =
      ground (arith, found, find-delete_row c.id h rows, find-count_row c.id h rows c found)

  consume_row-within :
      (clock : ℕ) (input : ConsumeInput) (h : ℕ) (c : Challenge) (rows : List Challenge) (s : S)
      → find (is_challenge c.id h) rows ≡ some c
      → c.attempts < 5
      → within
          (find (is_challenge c.id h) (consume_row crypto keys on_accepted clock input c rows s).1)
        ≡ true
  unfolding consume_row
  consume_row-within clock input h c rows s found low =
      let now = get_or input.now clock in
      let v =
        verify_email_otp crypto c.id input.code c.digest input.secret c.expires_at c.attempts now in
      ground
        (arith, found, find-delete_row c.id h rows, apply_verdict-within v h c rows s found low)

  module _ (clock : ℕ) (input : ConsumeInput) (h : ℕ) (rows : List Challenge) (s : S)
      (hashed : hash_otp_email crypto keys input.email input.secret ≡ some h) where
    abbrev pub answer : Result Verification × List Challenge × S
    answer = consume crypto keys on_accepted clock input rows s

    pub consume_none : find (is_challenge input.id h) rows ≡ none → answer ≡ (ok invalid, rows, s)
    unfolding consume
    consume_none e = ground arith

    pub consume_found :
        (c : Challenge)
        → find (is_challenge input.id h) rows ≡ some c
        → (answer ≡ (ok invalid, rows, s))
          ⊎ (answer ≡ consume_row crypto keys on_accepted clock input c rows s)
    unfolding consume
    consume_found c e = ground arith

  module _ (clock : ℕ) (input : ConsumeInput) (h : ℕ) (rows : List Challenge) (s : S)
      (hashed : hash_otp_email crypto keys input.email input.secret ≡ some h)
      (low : within (find (is_challenge input.id h) rows) ≡ true) where
    -- One call spends at most what it tries, and leaves the row within its limit.
    consume_budget :
        (tried (answer clock input h rows s hashed).0
            + budget input.id h (answer clock input h rows s hashed).1
          ≤ budget input.id h rows)
        × (within (find (is_challenge input.id h) (answer clock input h rows s hashed).1) ≡ true)
    consume_budget = elim (Option-cases (find (is_challenge input.id h) rows)) [
      | inl e ↦ rw (consume_none clock input h rows s hashed e) (omega arith, low)
      | inr (c, e) ↦ elim (consume_found clock input h rows s hashed c e) [
        | inl k ↦ rw k (omega arith, low)
        | inr k ↦
            let same = (found_row input.id h rows c e).0 in
            let here = subst (λ i. find (is_challenge i h) rows ≡ some c) (sym same) e in
            let few : c.attempts < 5 = ground (arith, rw e at low) in
            rw k (
              subst
                (λ i.
                  (tried (consume_row crypto keys on_accepted clock input c rows s).0
                      + budget i h (consume_row crypto keys on_accepted clock input c rows s).1
                    ≤ budget i h rows)
                  × (within (
                        find (is_challenge i h)
                          (consume_row crypto keys on_accepted clock input c rows s).1)
                      ≡ true))
                same
                (
                  consume_row-budget clock input h c rows s here few,
                  consume_row-within clock input h c rows s here few,
                ))
      ]
    ]

-- One try at a challenge: what varies between the calls.
pub record Try : Type 0 where
  pub clock : ℕ
  pub code : Submitted
  pub now : Option ℕ
  pub expected_intent : Option Intent

module _ {S : Type 0} (crypto : Crypto) (keys : Keys)
    (on_accepted : ChallengeContext → S → Option S) (id email : ℕ) (secret : Secret) where
  abbrev pub input_of : Try → ConsumeInput
  input_of t = record {
    id = id;
    email = email;
    code = t.code;
    secret = secret;
    now = t.now;
    expected_intent = t.expected_intent;
  }

  -- How many of the tries are answered by accepted, incorrect or exhausted.
  unfoldable pub tries : List Try → List Challenge → S → ℕ
  tries [] rows s = 0
  tries (t ∷ ts) rows s =
      let (r, rows', s') = consume crypto keys on_accepted t.clock (input_of t) rows s in
      tried r + tries ts rows' s'

  tries-le-budget :
      (h : ℕ) (ts : List Try) (rows : List Challenge) (s : S)
      → hash_otp_email crypto keys email secret ≡ some h
      → within (find (is_challenge id h) rows) ≡ true
      → tries ts rows s ≤ budget id h rows
  unfolding tries
  tries-le-budget h [] rows s hashed low = omega arith
  tries-le-budget h (t ∷ ts) rows s hashed low =
      let k = consume_budget crypto keys on_accepted t.clock (input_of t) h rows s hashed low in
      let a = consume crypto keys on_accepted t.clock (input_of t) rows s in
      omega (arith, k.0, tries-le-budget h ts a.1 a.2 hashed k.1)

budget-le : (o : Option Challenge) → budget_of o ≤ 5
budget-le none = omega arith
budget-le (some c) = omega arith

-- However many tries are made against a challenge whose row is within its limit, at any times, with
-- any intents and codes and whatever the caller does on acceptance, at most five of them are answered
-- by accepted, incorrect or exhausted.
pub five_tries :
    {S : Type 0} (crypto : Crypto) (keys : Keys) (on_accepted : ChallengeContext → S → Option S)
    (id email : ℕ) (secret : Secret) (h : ℕ) (ts : List Try) (rows : List Challenge) (s : S)
    → hash_otp_email crypto keys email secret ≡ some h
    → within (find (is_challenge id h) rows) ≡ true
    → tries crypto keys on_accepted id email secret ts rows s ≤ 5
unfolding budget
five_tries crypto keys on_accepted id email secret h ts rows s hashed low = omega (
  arith,
  tries-le-budget crypto keys on_accepted id email secret h ts rows s hashed low,
  budget-le (find (is_challenge id h) rows),
)
