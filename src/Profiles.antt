-- ===== src/Profiles.antt =====
-- packages/core/src/profile.ts: `ProfileRepository`, the profile of a user behind a revision. The schema of a
-- profile's content is left to the caller: a save is given the profile that was parsed.
use careerscope.Search.Create.{WritableProfile}
use careerscope.Base.Table.{find, update}
use careerscope.Base.{
  none, some, true, false, [], ◌∷◌, ◌+◌, ◌++◌, ℕ, Bool, List, Option, any, ltb, is_some, ◌==◌, ◌&&◌,
  ◌||◌, if◌then◌else◌,
}
pub mod Register
pub mod Stored
pub mod Refinement
mod Examples

pub record StoredProfile : Type 0 where
  pub owner_id : ℕ
  pub revision : ℕ
  pub profile : WritableProfile
  pub updated_at : ℕ
  pub scheduled_discovery_enabled : Bool

pub data ProfileSaved : Type 0 where
  stored_profile : StoredProfile → ProfileSaved
  profile_conflict : ProfileSaved
  malformed_save : ProfileSaved

-- The largest revision that the schema of a save lets through.
abbrev pub max_profile_revision : ℕ
max_profile_revision = 2147483646

abbrev pub is_profile_of : ℕ → StoredProfile → Bool
is_profile_of owner r = r.owner_id == owner

unfoldable pub get_profile : ℕ → List StoredProfile → Option StoredProfile
get_profile owner rows = find (is_profile_of owner) rows

-- `none` is the conflict that no profile was saved.
unfoldable pub set_scheduled_discovery_enabled :
    ℕ → Bool → List StoredProfile → Option Bool × List StoredProfile
set_scheduled_discovery_enabled owner enabled rows =
    if any (is_profile_of owner) rows
    then (
      some enabled,
      update (is_profile_of owner) (λ r. record r { scheduled_discovery_enabled = enabled }) rows,
    )
    else (none, rows)

abbrev pub first_profile : ℕ → ℕ → WritableProfile → StoredProfile
first_profile now owner profile = record {
  owner_id = owner;
  revision = 1;
  profile = profile;
  updated_at = now;
  scheduled_discovery_enabled = false;
}

abbrev pub next_profile : ℕ → WritableProfile → StoredProfile → StoredProfile
next_profile now profile r = record r {
  profile = profile;
  revision = r.revision + 1;
  updated_at = now;
}

abbrev pub is_at_revision : ℕ → ℕ → StoredProfile → Bool
is_at_revision owner revision r = is_profile_of owner r && (r.revision == revision)

-- `INSERT … ON CONFLICT (owner_id) DO NOTHING`
abbrev pub create_profile :
    ℕ → ℕ → WritableProfile → List StoredProfile → ProfileSaved × List StoredProfile
create_profile now owner profile rows =
    if any (is_profile_of owner) rows then (profile_conflict, rows) else (
      stored_profile (first_profile now owner profile),
      rows ++ (first_profile now owner profile ∷ []),
    )

-- The row that the `UPDATE` returns.
abbrev pub updated_row :
    ℕ
    → ℕ
    → ℕ
    → WritableProfile
    → List StoredProfile
    → Option StoredProfile
    → ProfileSaved × List StoredProfile
updated_row now owner revision profile rows none = (profile_conflict, rows)
updated_row now owner revision profile rows (some r) = (
  stored_profile (next_profile now profile r),
  update (is_at_revision owner revision) (next_profile now profile) rows,
)

unfoldable pub save_profile :
    ℕ → ℕ → ℕ → WritableProfile → List StoredProfile → ProfileSaved × List StoredProfile
save_profile now owner revision profile rows =
    if ltb max_profile_revision revision
    then (malformed_save, rows)
    else if revision == 0
    then create_profile now owner profile rows
    else updated_row now owner revision profile rows (find (is_at_revision owner revision) rows)
