-- ===== src/Commands/Laws.antt =====
-- packages/core/src/commands.ts: `createSearchSchema` and `retryDelay`.
use careerscope.Base.{
  ◌*◌, ℕ, zero, suc, ◌-◌, ◌^◌, min, ◌≤◌, ◌<◌, ◌≡◌, refl, sym, ap, ◌∙◌, inl, inr, Bool, ◌||◌, none,
  some, List, [], ◌∷◌, arith, any, length, leb_of_le, leb_of_lt, le_or_lt,
}
use native.Mathlib.Nat.{pow-suc}
use mathlib.Core.List.{Perm, Permᴰ}
use mathlib.Core.Logic.{∥∥₁_elim}
use careerscope.Search.State.{Source, source_code, is_source, Text, Request}
use careerscope.Commands.{
  RequestInput, distinct, insert_source, sort_sources, parse_request, as_input, delay_cap,
  retry_delay,
}

-- Each name comes after the one before it.
abbrev pub IsSorted : List Source → Type 0
IsSorted [] = Unit {0}
IsSorted (s ∷ []) = Unit {0}
IsSorted (s ∷ t ∷ ts) = (source_code s ≤ source_code t) × IsSorted (t ∷ ts)

source_code-injective : (a b : Source) → source_code a ≡ source_code b → a ≡ b
source_code-injective a b h = ground arith

IsSorted-tail : (s : Source) (ss : List Source) → IsSorted (s ∷ ss) → IsSorted ss
IsSorted-tail s [] h = tt
IsSorted-tail s (t ∷ ts) h = h.1

insert_le :
    (s t : Source) (ts : List Source)
    → source_code s ≤ source_code t
    → insert_source s (t ∷ ts) ≡ s ∷ t ∷ ts
unfolding insert_source
insert_le s t ts h = rw (leb_of_le _ _ h)

insert_gt :
    (s t : Source) (ts : List Source)
    → source_code t < source_code s
    → insert_source s (t ∷ ts) ≡ t ∷ insert_source s ts
unfolding insert_source
insert_gt s t ts h = rw (leb_of_lt _ _ h)

insert_source-IsSorted_tail :
    (s t : Source) (ts : List Source)
    → source_code t ≤ source_code s
    → IsSorted (t ∷ ts)
    → IsSorted (insert_source s ts)
    → IsSorted (t ∷ insert_source s ts)
unfolding insert_source
insert_source-IsSorted_tail s t [] h k i = (h, tt)
insert_source-IsSorted_tail s t (u ∷ us) h k i = elim (le_or_lt (source_code s) (source_code u)) [
  | inl e ↦ rw (leb_of_le _ _ e) (h, rw (leb_of_le _ _ e) at i)
  | inr e ↦ rw (leb_of_lt _ _ e) (k.0, rw (leb_of_lt _ _ e) at i)
]

insert_source-IsSorted :
    (s : Source) (ts : List Source) → IsSorted ts → IsSorted (insert_source s ts)
unfolding insert_source
insert_source-IsSorted s [] h = tt
insert_source-IsSorted s (t ∷ ts) h = elim (le_or_lt (source_code s) (source_code t)) [
  | inl e ↦ rw (leb_of_le _ _ e) (e, h)
  | inr e ↦ rw (leb_of_lt _ _ e) (
      insert_source-IsSorted_tail s t ts (omega arith) h
        (insert_source-IsSorted s ts (IsSorted-tail t ts h)))
]

sort_sources-IsSorted : (ss : List Source) → IsSorted (sort_sources ss)
unfolding sort_sources
sort_sources-IsSorted [] = tt
sort_sources-IsSorted (s ∷ ss) =
    insert_source-IsSorted s (sort_sources ss) (sort_sources-IsSorted ss)

insert_source-cons :
    (s : Source) (ts : List Source) → IsSorted (s ∷ ts) → insert_source s ts ≡ s ∷ ts
unfolding insert_source
insert_source-cons s [] h = refl
insert_source-cons s (t ∷ ts) h = rw (leb_of_le _ _ h.0)

-- Sorting a sorted list changes nothing.
sort_sources-of_IsSorted : (ss : List Source) → IsSorted ss → sort_sources ss ≡ ss
unfolding sort_sources
sort_sources-of_IsSorted [] h = refl
sort_sources-of_IsSorted (s ∷ ss) h =
    rw (sort_sources-of_IsSorted ss (IsSorted-tail s ss h)) (insert_source-cons s ss h)

insert_source-comm_below :
    (s t u : Source) (us : List Source)
    → source_code u < source_code t
    → source_code s ≤ source_code t
    → insert_source s (insert_source t us) ≡ insert_source t (insert_source s us)
    → insert_source s (insert_source t (u ∷ us)) ≡ insert_source t (insert_source s (u ∷ us))
insert_source-comm_below s t u us ut h ih =
    rw (insert_gt t u us ut) (elim (le_or_lt (source_code s) (source_code u)) [
      | inl su ↦ rw (
        insert_le s u us su,
        insert_le s u (insert_source t us) su,
        insert_gt t s (u ∷ us) (omega arith),
        insert_gt t u us ut,
      )
      | inr past ↦ rw (
        insert_gt s u us past,
        insert_gt s u (insert_source t us) past,
        insert_gt t u (insert_source s us) ut,
        ih,
      )
    ])

length-insert_source :
    (s : Source) (ts : List Source) → length (insert_source s ts) ≡ suc (length ts)
unfolding insert_source
length-insert_source s [] = refl
length-insert_source s (t ∷ ts) = ground (arith, length-insert_source s ts)

one_le_pow : (m : ℕ) → 1 ≤ 2 ^ m
one_le_pow zero = omega arith
one_le_pow (suc m) = rw pow-suc (omega (arith, one_le_pow m))

-- An equal or smaller head stays in front.
insert_past :
    (s t : Source) (us : List Source)
    → source_code s ≤ source_code t
    → insert_source t us ≡ t ∷ us
    → s ∷ t ∷ us ≡ insert_source t (s ∷ us)
insert_past s t us h k = elim (le_or_lt (source_code t) (source_code s)) [
  | inl e ↦ rw (insert_le t s us e, source_code-injective s t (omega arith))
  | inr e ↦ rw (insert_gt t s us e, k)
]

insert_source-comm_le :
    (s t : Source) (us : List Source)
    → source_code s ≤ source_code t
    → insert_source s (insert_source t us) ≡ insert_source t (insert_source s us)
unfolding insert_source
insert_source-comm_le s t [] h = rw (leb_of_le _ _ h) (insert_past s t [] h refl)
insert_source-comm_le s t (u ∷ us) h = elim (le_or_lt (source_code t) (source_code u)) [
  | inl tu ↦
      rw (insert_le t u us tu, insert_le s t (u ∷ us) h, insert_le s u us (omega arith))
        (insert_past s t (u ∷ us) h (insert_le t u us tu))
  | inr ut ↦ insert_source-comm_below s t u us ut h (insert_source-comm_le s t us h)
]

-- The order in which two sources are inserted does not matter.
insert_source_comm :
    (s t : Source) (us : List Source)
    → insert_source s (insert_source t us) ≡ insert_source t (insert_source s us)
insert_source_comm s t us = elim (le_or_lt (source_code s) (source_code t)) [
  | inl h ↦ insert_source-comm_le s t us h
  | inr h ↦ sym (insert_source-comm_le t s us (omega arith))
]

sort_sources-permᴰ : {ss ts : List Source} → Permᴰ ss ts → sort_sources ss ≡ sort_sources ts
unfolding sort_sources
sort_sources-permᴰ Permᴰ.nil = refl
sort_sources-permᴰ (Permᴰ.cons e p) = rw (e, sort_sources-permᴰ p)
sort_sources-permᴰ (Permᴰ.swap {a} {b} {l = l} e f) =
    rw (← e, ← f) (insert_source_comm a b (sort_sources l))
sort_sources-permᴰ (Permᴰ.trans p q) = sort_sources-permᴰ p ∙ sort_sources-permᴰ q

length-sort : (ss : List Source) → length (sort_sources ss) ≡ length ss
unfolding sort_sources
length-sort [] = refl
length-sort (s ∷ ss) = omega (arith, length-insert_source s (sort_sources ss), length-sort ss)

any-insert_source :
    (p : Source → Bool) (s : Source) (ts : List Source)
    → any p (insert_source s ts) ≡ (p s || any p ts)
unfolding insert_source
any-insert_source p s [] = refl
any-insert_source p s (t ∷ ts) = elim (le_or_lt (source_code s) (source_code t)) [
  | inl e ↦ rw (leb_of_le _ _ e)
  | inr e ↦ rw (leb_of_lt _ _ e, any-insert_source p s ts) (ground arith)
]

distinct-insert_source :
    (s : Source) (ts : List Source) → distinct (insert_source s ts) ≡ distinct (s ∷ ts)
unfolding insert_source
distinct-insert_source s [] = refl
distinct-insert_source s (t ∷ ts) = elim (le_or_lt (source_code s) (source_code t)) [
  | inl e ↦ rw (leb_of_le _ _ e)
  | inr e ↦
      rw (leb_of_lt _ _ e, any-insert_source (is_source t) s ts, distinct-insert_source s ts)
        (ground arith)
]

any-sort_sources : (p : Source → Bool) (ss : List Source) → any p (sort_sources ss) ≡ any p ss
unfolding sort_sources
any-sort_sources p [] = refl
any-sort_sources p (s ∷ ss) =
    any-insert_source p s (sort_sources ss) ∙ ap (λ b. p s || b) (any-sort_sources p ss)

distinct-sort : (ss : List Source) → distinct (sort_sources ss) ≡ distinct ss
unfolding sort_sources
distinct-sort [] = refl
distinct-sort (s ∷ ss) = rw (
  distinct-insert_source s (sort_sources ss),
  any-sort_sources (is_source s) ss,
  distinct-sort ss,
)

Source-list-set : IsSet (List Source)
Source-list-set = hlevel

sort_sources-perm : (ss ts : List Source) → Perm ss ts → sort_sources ss ≡ sort_sources ts
sort_sources-perm ss ts p = ∥∥₁_elim p (Source-list-set _ _) sort_sources-permᴰ

-- Parsing reads the sources only through their sorted list.
parse_request-of_sort :
    (trim : Text → Text) (input : RequestInput) (ts : List Source)
    → sort_sources input.sources ≡ sort_sources ts
    → parse_request trim input ≡ parse_request trim (record input { sources = ts })
parse_request-of_sort trim input ts h =
    let lengths : length input.sources ≡ length ts =
      sym (length-sort input.sources) ∙ ap length h ∙ length-sort ts in
    let same : distinct input.sources ≡ distinct ts =
      sym (distinct-sort input.sources) ∙ ap distinct h ∙ distinct-sort ts in
    unfold parse_request in rw (h, lengths, same)

-- Two requests that differ only in the order of their sources are parsed to the same request, so
-- they have the same hash.
pub parse_request-perm :
    (trim : Text → Text) (input : RequestInput) (ts : List Source)
    → Perm input.sources ts
    → parse_request trim input ≡ parse_request trim (record input { sources = ts })
parse_request-perm trim input ts p =
    parse_request-of_sort trim input ts (sort_sources-perm input.sources ts p)

-- Where trimming twice is trimming once, a parsed request that is parsed again is unchanged.
pub parse_request-idempotent :
    (trim : Text → Text) (input : RequestInput) (r : Request)
    → ((q : Text) → trim (trim q) ≡ trim q)
    → parse_request trim input ≡ some r
    → (parse_request trim (as_input r) ≡ some r) × IsSorted r.sources
unfolding parse_request
parse_request-idempotent trim input r h e = (
  ground (
    arith,
    h input.query,
    length-sort input.sources,
    distinct-sort input.sources,
    sort_sources-of_IsSorted (sort_sources input.sources) (sort_sources-IsSorted input.sources),
  ),
  ground (arith, sort_sources-IsSorted input.sources),
)

-- One second, doubled after each attempt and never more than five minutes.
abbrev pub doubled : ℕ → ℕ
doubled zero = 1000
doubled (suc n) = min 300000 (2 * doubled n)

min_pow_suc :
    (n : ℕ)
    → min 300000 (1000 * 2 ^ min (suc n) 9) ≡ min 300000 (2 * min 300000 (1000 * 2 ^ min n 9))
min_pow_suc n = elim (le_or_lt 9 n) [
  | inl h ↦
      let a : min (suc n) 9 ≡ 9 = omega arith in let b : min n 9 ≡ 9 = omega arith in rw (a, b) refl
  | inr h ↦
      let a : min (suc n) 9 ≡ suc n = omega arith in
      let b : min n 9 ≡ n = omega arith in rw (a, b, pow-suc) (omega arith)
]

doubled_le : (n : ℕ) → doubled n ≤ 300000
doubled_le zero = omega arith
doubled_le (suc n) = omega arith

delay_cap-doubled : (n : ℕ) → delay_cap (suc n) ≡ doubled n
unfolding delay_cap
delay_cap-doubled zero = refl
delay_cap-doubled (suc n) =
    let a : suc (suc n) - 1 ≡ suc n = omega arith in
    let b : suc n - 1 ≡ n = omega arith in
    let ih : min 300000 (1000 * 2 ^ min n 9) ≡ doubled n =
      ap (λ x. min 300000 (1000 * 2 ^ min x 9)) (sym b) ∙ delay_cap-doubled n in
    ap (λ x. min 300000 (1000 * 2 ^ min x 9)) a ∙ min_pow_suc n ∙ ap (λ x. min 300000 (2 * x)) ih

-- The n-th attempt after the first waits a draw from one second that was doubled n times, each time capped
-- at five minutes, and at most that long where a draw does not exceed what it is from; attempt 0 throws.
pub retry_delay-doubled :
    (jitter : ℕ → ℕ) (n : ℕ)
    → ((m : ℕ) → jitter m ≤ m)
    → (retry_delay jitter 0 ≡ none)
      × (retry_delay jitter (suc n) ≡ some (jitter (doubled n)))
      × (jitter (doubled n) ≤ 300000)
unfolding retry_delay
retry_delay-doubled jitter n h =
    let low : (m : ℕ) → doubled m ≤ 300000 = doubled_le in
    (refl, rw (delay_cap-doubled n) (ground arith), omega (arith, h (doubled n), low n))
