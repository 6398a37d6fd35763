-- ===== src/Profiles/Refinement.antt =====
-- packages/core/src/profile.ts: the table of profiles and the list of the profiles that a user saved.
use careerscope.Profiles.Stored.{
  updated_row-next, create_profile-conflict, find-at_revision, create_profile-first, at_revision,
  IsSimulated, IsStored,
}
use careerscope.Profiles.{
  next_profile, updated_row, max_profile_revision, create_profile, is_at_revision, first_profile,
  set_scheduled_discovery_enabled, save_profile, is_profile_of, StoredProfile,
}
use careerscope.Search.Create.{WritableProfile}
use careerscope.Profiles.Register.{
  conflicting, accepted_as, ProfileCall, stored_content, run_register, run_profiles, register_save,
  save_profile_call, toggle_call,
}
use careerscope.Base.Table.{
  find, count, find-update, find-append, find-holds, count-append, count-update, adjust, or_else,
}
use careerscope.Base.{
  none, some, true, false, [], ◌∷◌, ◌+◌, ◌++◌, ℕ, Bool, List, Option, any, ltb, length, ◌==◌,
  if◌then◌else◌, arith, ◌≡◌, refl, inl, inr, ◌∙◌, ap, sym, subst, Bool-cases, ==_iff,
}

stored_content-none : (x : Option StoredProfile) → stored_content x ≡ none → x ≡ none
stored_content-none none e = refl
stored_content-none (some r) e = ground arith

stored_content-some :
    (x : Option StoredProfile) (n : ℕ) (p : WritableProfile)
    → stored_content x ≡ some (n, p)
    → (r : StoredProfile) × (x ≡ some r) × (r.revision ≡ n)
stored_content-some none n p e = ground arith
stored_content-some (some r) n p e = (r, refl, ground arith)

-- A save with revision zero.
create-IsSimulated :
    (now o : ℕ) (profile : WritableProfile) (versions : List WritableProfile)
    (rows : List StoredProfile)
    → IsStored o versions rows
    → IsSimulated o
        (if 0 == length versions
          then (accepted_as (length versions + 1), profile ∷ versions)
          else (conflicting, versions))
        (create_profile now o profile rows)
create-IsSimulated now o profile [] rows h =
    create_profile-first now o profile rows (stored_content-none (find (is_profile_of o) rows) h.1)
create-IsSimulated now o profile (p ∷ ps) rows h =
    let (r, e, n) = stored_content-some (find (is_profile_of o) rows) (length ps + 1) p h.1 in
    let k : (0 == length (p ∷ ps)) ≡ false = ground arith in
    rw (k, create_profile-conflict now o profile rows (rw e refl)) (refl, h)

-- A save with another revision.
update-IsSimulated :
    (now o revision : ℕ) (profile : WritableProfile) (versions : List WritableProfile)
    (rows : List StoredProfile)
    → (revision == 0) ≡ false
    → IsStored o versions rows
    → IsSimulated o
        (if revision == length versions
          then (accepted_as (length versions + 1), profile ∷ versions)
          else (conflicting, versions))
        (updated_row now o revision profile rows
          (at_revision revision (find (is_profile_of o) rows)))
update-IsSimulated now o revision profile [] rows z h =
    rw (z, stored_content-none (find (is_profile_of o) rows) h.1) (refl, h)
update-IsSimulated now o revision profile (p ∷ ps) rows z h =
    let (r, e, n) = stored_content-some (find (is_profile_of o) rows) (length ps + 1) p h.1 in
    let len : r.revision ≡ length (p ∷ ps) = ground arith in
    elim (Bool-cases (r.revision == revision)) [
      | inl s ↦
          let same : r.revision ≡ revision = (==_iff r.revision revision).0 s in
          let k : (revision == length (p ∷ ps)) ≡ true = ground arith in
          rw (k, e, s)
            (updated_row-next now o revision profile (p ∷ ps) rows r h.0 e
              (find-holds (is_profile_of o) rows r e) len same)
      | inr s ↦
          let k : (revision == length (p ∷ ps)) ≡ false = ground arith in rw (k, e, s) (refl, h)
    ]

save_profile-IsSimulated :
    (now o revision : ℕ) (profile : WritableProfile) (versions : List WritableProfile)
    (rows : List StoredProfile)
    → IsStored o versions rows
    → IsSimulated o
        (register_save revision profile versions)
        (save_profile now o revision profile rows)
unfolding register_save save_profile
save_profile-IsSimulated now o revision profile versions rows h =
    elim (Bool-cases (ltb max_profile_revision revision)) [
      | inl e ↦ rw e (refl, h)
      | inr e ↦ elim (Bool-cases (revision == 0)) [
        | inl z ↦
            let s : revision ≡ 0 = (==_iff revision 0).0 z in
            rw (e, z)
              (subst
                (λ x.
                  IsSimulated o
                    (if x == length versions
                      then (accepted_as (length versions + 1), profile ∷ versions)
                      else (conflicting, versions))
                    (create_profile now o profile rows))
                (sym s) (create-IsSimulated now o profile versions rows h))
        | inr z ↦
            rw (e, z, find-at_revision o revision rows h.0)
              (update-IsSimulated now o revision profile versions rows z h)
      ]
    ]

count-other_first :
    (o owner now : ℕ) (profile : WritableProfile)
    → (owner == o) ≡ false
    → count (is_profile_of o) (first_profile now owner profile ∷ []) ≡ 0
unfolding count
count-other_first o owner now profile d = ground arith

or_else-absent : (x : Option StoredProfile) → or_else x none ≡ x
or_else-absent none = refl
or_else-absent (some r) = refl

create_profile-other :
    (now o owner : ℕ) (profile : WritableProfile) (versions : List WritableProfile)
    (rows : List StoredProfile)
    → (owner == o) ≡ false
    → IsStored o versions rows
    → IsStored o versions (create_profile now owner profile rows).1
unfolding find
create_profile-other now o owner profile versions rows d h =
    let r = first_profile now owner profile in
    let c = count-append (is_profile_of o) rows (r ∷ []) in
    let n = count-other_first o owner now profile d in
    let g = find-append (is_profile_of o) rows (r ∷ []) in
    let m : find (is_profile_of o) (r ∷ []) ≡ none = ground arith in
    let w : find (is_profile_of o) (rows ++ (r ∷ [])) ≡ find (is_profile_of o) rows =
      g
      ∙ ap (or_else (find (is_profile_of o) rows)) m
      ∙ or_else-absent (find (is_profile_of o) rows) in
    elim (Bool-cases (any (is_profile_of owner) rows)) [
      | inl e ↦ rw e h
      | inr e ↦ rw e (ground arith, ap stored_content w ∙ h.1)
    ]

adjust-other_profile :
    (o owner revision : ℕ) (g : StoredProfile → StoredProfile) (x : Option StoredProfile)
    (rows : List StoredProfile)
    → find (is_profile_of o) rows ≡ x
    → (owner == o) ≡ false
    → adjust (is_at_revision owner revision) g x ≡ x
adjust-other_profile o owner revision g none rows f d = refl
adjust-other_profile o owner revision g (some r) rows f d =
    let h = find-holds (is_profile_of o) rows r f in ground arith

updated_row-other :
    (now o owner revision : ℕ) (profile : WritableProfile) (versions : List WritableProfile)
    (rows : List StoredProfile) (x : Option StoredProfile)
    → (owner == o) ≡ false
    → IsStored o versions rows
    → IsStored o versions (updated_row now owner revision profile rows x).1
updated_row-other now o owner revision profile versions rows none d h = h
updated_row-other now o owner revision profile versions rows (some r) d h =
    let q = is_at_revision owner revision in
    let g = next_profile now profile in
    let c = count-update (is_profile_of o) q g rows (λ y. refl) in
    let w =
      find-update (is_profile_of o) q g rows (λ y. refl)
      ∙ adjust-other_profile o owner revision g (find (is_profile_of o) rows) rows refl d in
    (ground arith, ap stored_content w ∙ h.1)

save_profile-other :
    (now o owner revision : ℕ) (profile : WritableProfile) (versions : List WritableProfile)
    (rows : List StoredProfile)
    → (owner == o) ≡ false
    → IsStored o versions rows
    → IsStored o versions (save_profile now owner revision profile rows).1
unfolding save_profile
save_profile-other now o owner revision profile versions rows d h =
    elim (Bool-cases (ltb max_profile_revision revision)) [
      | inl e ↦ rw e h
      | inr e ↦ elim (Bool-cases (revision == 0)) [
        | inl z ↦ rw (e, z) (create_profile-other now o owner profile versions rows d h)
        | inr z ↦
            rw (e, z)
              (updated_row-other now o owner revision profile versions rows
                (find (is_at_revision owner revision) rows) d h)
      ]
    ]

toggled :
    (q : StoredProfile → Bool) (enabled : Bool) (x : Option StoredProfile)
    → stored_content (adjust q (λ r. record r { scheduled_discovery_enabled = enabled }) x)
      ≡ stored_content x
toggled q enabled none = refl
toggled q enabled (some r) = ground arith

toggle-IsStored :
    (o owner : ℕ) (enabled : Bool) (versions : List WritableProfile) (rows : List StoredProfile)
    → IsStored o versions rows
    → IsStored o versions (set_scheduled_discovery_enabled owner enabled rows).1
unfolding set_scheduled_discovery_enabled
toggle-IsStored o owner enabled versions rows h =
    let q = is_profile_of owner in
    let f : StoredProfile → StoredProfile =
      λ r. record r { scheduled_discovery_enabled = enabled } in
    let c = count-update (is_profile_of o) q f rows (λ x. refl) in
    let d = find-update (is_profile_of o) q f rows (λ x. refl) in
    elim (Bool-cases (any q rows)) [
      | inr e ↦ rw e h
      | inl e ↦ rw e (
        ground arith,
        ap stored_content d ∙ toggled q enabled (find (is_profile_of o) rows) ∙ h.1,
      )
    ]

save_profile-IsSimulated_at :
    (now o owner revision : ℕ) (profile : WritableProfile) (versions : List WritableProfile)
    (rows : List StoredProfile)
    → owner ≡ o
    → IsStored o versions rows
    → IsSimulated o
        (register_save revision profile versions)
        (save_profile now owner revision profile rows)
save_profile-IsSimulated_at now o owner revision profile versions rows e h =
    subst
      (λ x.
        IsSimulated o (register_save revision profile versions)
          (save_profile now x revision profile rows))
      (sym e) (save_profile-IsSimulated now o revision profile versions rows h)

-- The profiles refine the list of accepted profiles: whatever saves and toggles all users make, a user's
-- saves are answered as the list answers them, a save being accepted exactly if it names the number of
-- profiles accepted before, and the user's row then holds that number and the newest profile.
pub run_profiles-run_register :
    (o : ℕ) (calls : List (ℕ × ProfileCall)) (versions : List WritableProfile)
    (rows : List StoredProfile)
    → IsStored o versions rows
    → ((run_profiles o calls rows).0 ≡ (run_register o calls versions).0)
      × IsStored o (run_register o calls versions).1 (run_profiles o calls rows).1
unfolding run_profiles run_register
run_profiles-run_register o [] versions rows h = (refl, h)
run_profiles-run_register o ((now, toggle_call owner enabled) ∷ calls) versions rows h =
    run_profiles-run_register o calls versions
      (set_scheduled_discovery_enabled owner enabled rows).1
      (toggle-IsStored o owner enabled versions rows h)
run_profiles-run_register o ((now, save_profile_call owner revision profile) ∷ calls) versions rows
      h =
    elim (Bool-cases (owner == o)) [
      | inl e ↦
          let s =
            save_profile-IsSimulated_at now o owner revision profile versions rows
              ((==_iff owner o).0 e) h in
          let k =
            run_profiles-run_register o calls (register_save revision profile versions).1
              (save_profile now owner revision profile rows).1 s.1 in
          rw (e, s.0, k.0) (refl, k.1)
      | inr d ↦ rw d (
          run_profiles-run_register o calls versions
            (save_profile now owner revision profile rows).1
            (save_profile-other now o owner revision profile versions rows d h))
    ]
