-- ===== src/Profiles/Stored.antt =====
-- packages/core/src/profile.ts: the row of a user in the table of profiles, and the two statements of a save.
use careerscope.Profiles.Register.{verdict, stored_content, accepted_as, Verdict, latest}
use careerscope.Profiles.{
  next_profile, updated_row, profile_conflict, ProfileSaved, first_profile, create_profile,
  is_at_revision, is_profile_of, StoredProfile,
}
use careerscope.Search.Create.{WritableProfile}
use careerscope.Base.Table.{
  find, update, count, find-update, find-append, count-append, count-update, adjust, or_else,
}
use careerscope.Base.{
  none, some, true, false, [], ◌∷◌, ◌+◌, ◌++◌, ℕ, List, Option, any, length, is_some, ◌==◌,
  if◌then◌else◌, arith, ◌≡◌, refl, ◌∙◌, ap, ==_iff, ==_refl, ◌≤◌,
}

-- The user has at most one row, and it holds the number of accepted profiles and the newest of them.
abbrev pub IsStored : ℕ → List WritableProfile → List StoredProfile → Type 0
IsStored o versions rows =
    (count (is_profile_of o) rows ≤ 1)
    × (stored_content (find (is_profile_of o) rows) ≡ latest versions)

abbrev pub at_revision : ℕ → Option StoredProfile → Option StoredProfile
at_revision revision none = none
at_revision revision (some r) = if r.revision == revision then some r else none

find-none_owned :
    (o revision : ℕ) (rows : List StoredProfile)
    → count (is_profile_of o) rows ≡ 0
    → find (is_at_revision o revision) rows ≡ none
unfolding count find
find-none_owned o revision [] e = refl
find-none_owned o revision (r ∷ rs) e = ground (arith, find-none_owned o revision rs)

pub find-at_revision :
    (o revision : ℕ) (rows : List StoredProfile)
    → count (is_profile_of o) rows ≤ 1
    → find (is_at_revision o revision) rows ≡ at_revision revision (find (is_profile_of o) rows)
unfolding count find
find-at_revision o revision [] e = refl
find-at_revision o revision (r ∷ rs) e =
    ground (arith, find-at_revision o revision rs, find-none_owned o revision rs)

any-is_some :
    (o : ℕ) (rows : List StoredProfile)
    → any (is_profile_of o) rows ≡ is_some (find (is_profile_of o) rows)
unfolding find
any-is_some o [] = refl
any-is_some o (r ∷ rs) = ground (arith, any-is_some o rs)

count-absent :
    (o : ℕ) (rows : List StoredProfile)
    → any (is_profile_of o) rows ≡ false
    → count (is_profile_of o) rows ≡ 0
unfolding count
count-absent o [] e = refl
count-absent o (r ∷ rs) e = ground (arith, count-absent o rs)

abbrev pub IsSimulated :
    ℕ → Verdict × List WritableProfile → ProfileSaved × List StoredProfile → Type 0
IsSimulated o spec saved = (verdict saved.0 ≡ spec.0) × IsStored o spec.1 saved.1

count-owned_first :
    (o now : ℕ) (profile : WritableProfile)
    → count (is_profile_of o) (first_profile now o profile ∷ []) ≡ 1
unfolding count
count-owned_first o now profile = ground (arith, ==_refl o)

pub create_profile-first :
    (now o : ℕ) (profile : WritableProfile) (rows : List StoredProfile)
    → find (is_profile_of o) rows ≡ none
    → IsSimulated o (accepted_as 1, profile ∷ []) (create_profile now o profile rows)
unfolding find
create_profile-first now o profile rows f =
    let absent : any (is_profile_of o) rows ≡ false = any-is_some o rows ∙ ap is_some f in
    let r = first_profile now o profile in
    let c = count-append (is_profile_of o) rows (r ∷ []) in
    let d = count-owned_first o now profile in
    let n = count-absent o rows absent in
    let g = find-append (is_profile_of o) rows (r ∷ []) in
    let m : find (is_profile_of o) (r ∷ []) ≡ some r = ground (arith, ==_refl o) in
    let w : find (is_profile_of o) (rows ++ (r ∷ [])) ≡ some r =
      g ∙ ap (λ x. or_else x (find (is_profile_of o) (r ∷ []))) f ∙ m in
    rw absent (refl, (ground arith, ap stored_content w))

pub create_profile-conflict :
    (now o : ℕ) (profile : WritableProfile) (rows : List StoredProfile)
    → is_some (find (is_profile_of o) rows) ≡ true
    → create_profile now o profile rows ≡ (profile_conflict, rows)
create_profile-conflict now o profile rows f =
    let present : any (is_profile_of o) rows ≡ true = any-is_some o rows ∙ f in rw present refl

pub updated_row-next :
    (now o revision : ℕ) (profile : WritableProfile) (versions : List WritableProfile)
    (rows : List StoredProfile) (r : StoredProfile)
    → count (is_profile_of o) rows ≤ 1
    → find (is_profile_of o) rows ≡ some r
    → is_profile_of o r ≡ true
    → r.revision ≡ length versions
    → r.revision ≡ revision
    → IsSimulated o
        (accepted_as (length versions + 1), profile ∷ versions)
        (updated_row now o revision profile rows (some r))
updated_row-next now o revision profile versions rows r u f own len same =
    let q = is_at_revision o revision in
    let g = next_profile now profile in
    let c = count-update (is_profile_of o) q g rows (λ x. refl) in
    let d = find-update (is_profile_of o) q g rows (λ x. refl) in
    let m : adjust q g (some r) ≡ some (g r) =
      ground (arith, own, (==_iff r.revision revision).1 same) in
    let w : find (is_profile_of o) (update q g rows) ≡ some (g r) = d ∙ ap (adjust q g) f ∙ m in
    (
      ap (λ n. accepted_as (n + 1)) len,
      (ground arith, ap stored_content w ∙ ap (λ n. some (n + 1, profile)) len),
    )
