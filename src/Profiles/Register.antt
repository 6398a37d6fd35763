-- ===== src/Profiles/Register.antt =====
-- packages/core/src/profile.ts: what the profiles promise to one user, as a list of the profiles that were
-- accepted, the newest first, and the calls of all users beside it.
use careerscope.Profiles.{
  save_profile, stored_profile, set_scheduled_discovery_enabled, max_profile_revision,
  StoredProfile, ProfileSaved,
}
use careerscope.Search.Create.{WritableProfile}
use careerscope.Profiles.{stored_profile, profile_conflict, malformed_save}
use careerscope.Base.{
  none, some, [], ◌∷◌, ◌+◌, ℕ, Bool, List, Option, ltb, length, ◌==◌, if◌then◌else◌,
}

pub data Verdict : Type 0 where
  accepted_as : ℕ → Verdict
  conflicting : Verdict
  malformed : Verdict

-- A save is accepted when it names the number of profiles that were accepted before it.
unfoldable pub register_save :
    ℕ → WritableProfile → List WritableProfile → Verdict × List WritableProfile
register_save revision profile versions =
    if ltb max_profile_revision revision
    then (malformed, versions)
    else if revision == length versions
    then (accepted_as (length versions + 1), profile ∷ versions)
    else (conflicting, versions)

abbrev pub verdict : ProfileSaved → Verdict
verdict (stored_profile r) = accepted_as r.revision
verdict profile_conflict = conflicting
verdict malformed_save = malformed

pub data ProfileCall : Type 0 where
  save_profile_call : ℕ → ℕ → WritableProfile → ProfileCall
  toggle_call : ℕ → Bool → ProfileCall

-- The verdicts on one user's saves among the calls of all users.
unfoldable pub run_profiles :
    ℕ → List (ℕ × ProfileCall) → List StoredProfile → List Verdict × List StoredProfile
run_profiles o [] rows = ([], rows)
run_profiles o ((now, toggle_call owner enabled) ∷ calls) rows =
    run_profiles o calls (set_scheduled_discovery_enabled owner enabled rows).1
run_profiles o ((now, save_profile_call owner revision profile) ∷ calls) rows =
    let saved = save_profile now owner revision profile rows in
    let rest = run_profiles o calls saved.1 in
    if owner == o then (verdict saved.0 ∷ rest.0, rest.1) else rest

unfoldable pub run_register :
    ℕ → List (ℕ × ProfileCall) → List WritableProfile → List Verdict × List WritableProfile
run_register o [] versions = ([], versions)
run_register o ((now, toggle_call owner enabled) ∷ calls) versions = run_register o calls versions
run_register o ((now, save_profile_call owner revision profile) ∷ calls) versions =
    let saved = register_save revision profile versions in
    let mine = run_register o calls saved.1 in
    let others = run_register o calls versions in
    if owner == o then (saved.0 ∷ mine.0, mine.1) else others

abbrev pub latest : List WritableProfile → Option (ℕ × WritableProfile)
latest [] = none
latest (p ∷ ps) = some (length ps + 1, p)

abbrev pub stored_content : Option StoredProfile → Option (ℕ × WritableProfile)
stored_content none = none
stored_content (some r) = some (r.revision, r.profile)
