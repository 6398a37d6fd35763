-- ===== src/Profiles/Examples.antt =====
-- packages/core/src/profile.ts: two users who save and toggle their profiles.
use careerscope.Profiles.Refinement.{run_profiles-run_register}
use careerscope.Profiles.Stored.{IsStored}
use careerscope.Profiles.{set_scheduled_discovery_enabled, save_profile}
use careerscope.Search.Create.{WritableProfile}
use careerscope.Profiles.Register.{
  conflicting, accepted_as, run_register, run_profiles, ProfileCall, save_profile_call, toggle_call,
}
use careerscope.Base.Table.{find, update, count}
use careerscope.Base.{none, some, true, false, [], ◌∷◌, ℕ, List, arith, ◌≡◌, refl}

abbrev profile_of : ℕ → WritableProfile
profile_of salary = record {
  location = [];
  titles = [];
  other_preferences = 0;
  expected_ctc = some salary;
  years_of_experience = none;
  willing_to_relocate = false;
  not_for_matching = 0;
}

-- The second save of revision one comes too late.
abbrev calls : List (ℕ × ProfileCall)
calls =
    (10, save_profile_call 7 0 (profile_of 1))
    ∷ (11, save_profile_call 8 0 (profile_of 2))
    ∷ (12, toggle_call 7 true)
    ∷ (13, save_profile_call 7 1 (profile_of 3))
    ∷ (14, save_profile_call 7 1 (profile_of 4))
    ∷ []

verdicts_test : (run_profiles 7 calls []).0 ≡ accepted_as 1 ∷ accepted_as 2 ∷ conflicting ∷ []
unfolding run_profiles save_profile set_scheduled_discovery_enabled find update
verdicts_test = refl

run_profiles-run_register_example :
    ((run_profiles 7 calls []).0 ≡ (run_register 7 calls []).0)
    × IsStored 7 (run_register 7 calls []).1 (run_profiles 7 calls []).1
unfolding find count
run_profiles-run_register_example = run_profiles-run_register 7 calls [] [] (omega arith, refl)
