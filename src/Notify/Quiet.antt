-- ===== src/Notify/Quiet.antt =====
-- packages/core/src/notification-delivery.ts, `quietHoursDefer`: the end of the quiet window, found minute
-- by minute in the user's time zone.
use careerscope.Base.{
  ◌-◌, ◌≢◌, ◌≤◌, ◌%◌, ◌||◌, ltb, ◌&&◌, not, leb, if◌then◌else◌, is_some, Bool-cases, ◌<◌, ◌*◌,
  Option, Bool, ℕ, none, some, true, false, ◌+◌, inl, inr, arith, ◌≡◌, zero, suc,
}

-- The window may cross midnight.
abbrev pub is_quiet : ℕ → ℕ → ℕ → Bool
is_quiet from to minute =
    if leb from to then leb from minute && ltb minute to else leb from minute || ltb minute to

-- `deferred` is the instant to send at; `unresolved` and `invalid` are thrown errors.
pub data Defer : Type 0 where
  at_once unresolved invalid : Defer
  deferred : ℕ → Defer

start : (c : ℕ) → c + 60000 * 0 ≡ c
start c = omega arith

next : (c j : ℕ) → c + 60000 * suc j ≡ c + 60000 + 60000 * j
next c j = omega arith

end_not_quiet : (from to : ℕ) → is_quiet from to to ≡ false
end_not_quiet from to = ground arith

abbrev defer_to : Option ℕ → Defer
defer_to none = unresolved
defer_to (some t) = deferred t

defer_cases :
    (b : Bool) (o : Option ℕ) (t : ℕ)
    → (if not b then at_once else defer_to o) ≡ deferred t
    → (b ≡ true) × (o ≡ some t)
defer_cases b o t h = ground arith

defer_resolved :
    (b : Bool) (o : Option ℕ)
    → is_some o ≡ true
    → (if not b then at_once else defer_to o) ≢ unresolved
defer_resolved b o h k = ground arith

-- `local_minute` is the minute of the day of an instant in the user's zone, which `Intl` computes.
module _ (local_minute : ℕ → ℕ) where
  -- The loop, with the number of rounds that are left.
  unfoldable pub find_end : ℕ → ℕ → ℕ → ℕ → Option ℕ
  find_end from to zero candidate = none
  find_end from to (suc rounds) candidate =
      let rest = find_end from to rounds (candidate + 60000) in
      if not (is_quiet from to (local_minute candidate)) then some candidate else rest

  -- `start` and `end` are minutes of the day, `none` where the text is no time of the day.
  unfoldable pub quiet_hours_defer : ℕ → Option ℕ → Option ℕ → Defer
  unfolding find_end
  quiet_hours_defer now none end = invalid
  quiet_hours_defer now (some from) none = invalid
  quiet_hours_defer now (some from) (some to) =
      if not (is_quiet from to (local_minute now))
      then at_once
      else defer_to (find_end from to 1560 (now + 60000))

  find_end-first :
      (from to rounds candidate t : ℕ)
      → find_end from to rounds candidate ≡ some t
      → (k : ℕ) × (t ≡ candidate + 60000 * k)
        × (k < rounds)
        × (is_quiet from to (local_minute t) ≡ false)
        × ((j : ℕ) → j < k → is_quiet from to (local_minute (candidate + 60000 * j)) ≡ true)
  unfolding find_end
  find_end-first from to zero candidate t h = ground arith
  find_end-first from to (suc rounds) candidate t h =
      elim (Bool-cases (is_quiet from to (local_minute candidate))) [
        | inr e ↦ (
          0,
          ground (arith, e),
          omega arith,
          ground (arith, e),
          λ j l. absurd (ground (arith, l)),
        )
        | inl e ↦
            let (k, same, less, ends, before) =
              find_end-first from to rounds (candidate + 60000) t (ground (arith, e, h)) in
            (suc k, omega (arith, same), omega (arith, less), ends, earlier e k before)
      ]
    where
      earlier :
          is_quiet from to (local_minute candidate) ≡ true
          → (k : ℕ)
          → ((j : ℕ)
              → j < k
              → is_quiet from to (local_minute (candidate + 60000 + 60000 * j)) ≡ true)
          → (j : ℕ) → j < suc k
          → is_quiet from to (local_minute (candidate + 60000 * j)) ≡ true
      earlier e k before zero l = rw (start candidate) e
      earlier e k before (suc j) l = rw (next candidate j) (before j (omega (arith, l)))

  find_end-found :
      (from to rounds candidate k : ℕ)
      → k < rounds
      → is_quiet from to (local_minute (candidate + 60000 * k)) ≡ false
      → is_some (find_end from to rounds candidate) ≡ true
  unfolding find_end
  find_end-found from to zero candidate k l h = ground (arith, l)
  find_end-found from to (suc rounds) candidate zero l h =
      let e : is_quiet from to (local_minute candidate) ≡ false = rw (start candidate) at h in
      ground (arith, e)
  find_end-found from to (suc rounds) candidate (suc k) l h = ground (
    arith,
    find_end-found from to rounds (candidate + 60000) k (omega (arith, l))
        (rw (next candidate k) at h),
  )

  -- A deferred instant is a whole number of minutes after `now`, 1 to 1560 of them; it is quiet now,
  -- and not quiet at that instant.
  pub quiet_hours_defer-ends :
      (now from to t : ℕ)
      → quiet_hours_defer now (some from) (some to) ≡ deferred t
      → (k : ℕ) × (t ≡ now + 60000 * k)
        × (0 < k)
        × (k ≤ 1560)
        × (is_quiet from to (local_minute now) ≡ true)
        × (is_quiet from to (local_minute t) ≡ false)
  unfolding quiet_hours_defer
  quiet_hours_defer-ends now from to t h =
      let found = defer_cases (is_quiet from to (local_minute now)) _ t h in
      let (k, same, less, ends, before) = find_end-first from to 1560 (now + 60000) t found.1 in
      (suc k, omega (arith, same), omega arith, omega (arith, less), found.0, ends)

  steady_minute :
      (now k : ℕ)
      → ((t : ℕ) → local_minute (t + 60000) ≡ (local_minute t + 1) % 1440)
      → local_minute now < 1440
      → local_minute (now + 60000 * k) ≡ (local_minute now + k) % 1440
  steady_minute now zero steady l = rw (start now) (omega (arith, l))
  steady_minute now (suc k) steady l =
      rw (next now k) (
        omega (arith, steady_minute (now + 60000) k steady (omega (arith, steady now)), steady now))

  -- Where the zone's clock runs without a jump, the end of the window is always found.
  pub quiet_hours_defer-resolved :
      (now from to : ℕ)
      → ((t : ℕ) → local_minute (t + 60000) ≡ (local_minute t + 1) % 1440)
      → local_minute now < 1440
      → from < 1440
      → to < 1440
      → quiet_hours_defer now (some from) (some to) ≢ unresolved
  unfolding quiet_hours_defer
  quiet_hours_defer-resolved now from to steady l f t h =
      let k = (2879 + to - local_minute now) % 1440 in
      let at_end = steady_minute (now + 60000) k steady (omega (arith, steady now)) in
      let e : local_minute (now + 60000 + 60000 * k) ≡ to = omega (arith, at_end, steady now) in
      defer_resolved (is_quiet from to (local_minute now)) _
        (find_end-found from to 1560 (now + 60000) k (omega arith) (rw e (end_not_quiet from to))) h
