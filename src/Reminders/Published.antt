-- ===== src/Reminders/Published.antt =====
-- packages/core/src/notifications.ts, `publishDueInterviewReminders`: which notifications it adds.
use mathlib.Core.List.{append_assoc, append-nil}
use careerscope.Base.{
  leb, Option, ℕ, Bool, List, none, some, true, false, [], ◌∷◌, ◌++◌, ◌+◌, ◌&&◌, not, is_some, any,
  all, length, ◌≡◌, ◌⊎◌, inl, inr, refl, arith, Bool-cases, ==_refl, sym, subst, ◌∙◌,
}
use careerscope.Base.Rows.{any-append, all-implies}
use careerscope.Reminders.{
  interview_reminder_preference, is_due_round, reminder_time, reminds_at, is_of_round,
  ReminderPreference, insert_reminders, insert_reminder, Round, Notification, is_key,
}

-- The notification reminds of the round, which is due.
abbrev pub is_announced : ℕ → Notification → Round → Bool
is_announced now n r =
    is_of_round r.owner_id r.id n && reminds_at r.reminder_at n.reminder_at && is_due_round now r

-- An unread reminder of one of the rounds, which its user wants and which none of `ns` repeats.
abbrev pub is_reminder :
    ℕ → List ReminderPreference → List Round → List Notification → Notification → Bool
is_reminder now ps rounds ns n =
    any (is_announced now n) rounds
    && interview_reminder_preference n.owner_id ps
    && not (any (is_key n.owner_id n.round_id n.reminder_at) ns)
    && not (is_some n.read_at)
    && not (is_some n.retired_at)

module _ (draw : ℕ → ℕ) (now : ℕ) (ps : List ReminderPreference) where
  abbrev pub new_reminder : Round → Notification
  new_reminder r = record {
    id = draw r.id;
    owner_id = r.owner_id;
    round_id = r.id;
    reminder_at = reminder_time r;
    created_at = now;
    read_at = none;
    retired_at = none;
  }

  abbrev pub IsInserted : Round → List Notification → Type 0
  IsInserted r ns =
      (insert_reminder draw now ps r ns ≡ (1, ns ++ new_reminder r ∷ []))
      × (is_due_round now r ≡ true)
      × (interview_reminder_preference r.owner_id ps ≡ true)
      × (any (is_key r.owner_id r.id (reminder_time r)) ns ≡ false)

  pub insert_reminder-cases :
      (r : Round) (ns : List Notification)
      → (insert_reminder draw now ps r ns ≡ (0, ns)) ⊎ IsInserted r ns
  unfolding insert_reminder
  insert_reminder-cases r ns =
      elim (Bool-cases (
        is_due_round now r
        && interview_reminder_preference r.owner_id ps
        && not (any (is_key r.owner_id r.id (reminder_time r)) ns))) [
          | inl e ↦ inr (ground (arith, e), ground (arith, e), ground (arith, e), ground (arith, e))
          | inr e ↦ inl (ground (arith, e))
        ]

  reminds_at-some :
      (at : Option ℕ)
      → elim at [ none ↦ false | some t ↦ leb t now ] ≡ true
      → reminds_at at (elim at [ none ↦ 0 | some t ↦ t ]) ≡ true
  reminds_at-some none e = e
  reminds_at-some (some t) e = ==_refl t

  reminds_at-time :
      (r : Round) → is_due_round now r ≡ true → reminds_at r.reminder_at (reminder_time r) ≡ true
  reminds_at-time r e = reminds_at-some r.reminder_at (ground (arith, e))

  new_reminder-is_reminder :
      (r : Round) (rs : List Round) (ns : List Notification)
      → IsInserted r ns
      → is_reminder now ps (r ∷ rs) ns (new_reminder r) ≡ true
  new_reminder-is_reminder r rs ns (i, d, p, k) =
      ground (arith, reminds_at-time r d, ==_refl r.owner_id, ==_refl r.id)

  abbrev pub IsExtended : List Round → List Notification → Type 0
  IsExtended rs ns =
      (added : List Notification) × ((insert_reminders draw now ps rs ns).1 ≡ ns ++ added)
      × ((insert_reminders draw now ps rs ns).0 ≡ length added)
      × (all (is_reminder now ps rs ns) added ≡ true)

  abbrev IsGrown : Round → List Round → List Notification → ℕ × List Notification → Type 0
  IsGrown r rs ns z =
      (added : List Notification) × ((insert_reminders draw now ps rs z.1).1 ≡ ns ++ added)
      × (z.0 + (insert_reminders draw now ps rs z.1).0 ≡ length added)
      × (all (is_reminder now ps (r ∷ rs) ns) added ≡ true)

  fewer_reminders :
      (r : Round) (rs : List Round) (ns added : List Notification)
      → all (is_reminder now ps rs ns) added ≡ true
      → all (is_reminder now ps (r ∷ rs) ns) added ≡ true
  fewer_reminders r rs ns added =
      all-implies (is_reminder now ps rs ns) (is_reminder now ps (r ∷ rs) ns) added
        (λ n h. ground (arith, h))

  older_reminders :
      (rs : List Round) (ns more added : List Notification)
      → all (is_reminder now ps rs (ns ++ more)) added ≡ true
      → all (is_reminder now ps rs ns) added ≡ true
  older_reminders rs ns more added =
      all-implies (is_reminder now ps rs (ns ++ more)) (is_reminder now ps rs ns) added
        (λ n h. ground (arith, any-append (is_key n.owner_id n.round_id n.reminder_at) ns more, h))

  IsGrown-skipped :
      (r : Round) (rs : List Round) (ns : List Notification)
      → IsExtended rs ns
      → IsGrown r rs ns (0, ns)
  IsGrown-skipped r rs ns (added, a, b, c) =
      (added, a, omega (arith, b), fewer_reminders r rs ns added c)

  IsGrown-inserted :
      (r : Round) (rs : List Round) (ns : List Notification)
      → IsInserted r ns
      → IsExtended rs (ns ++ new_reminder r ∷ [])
      → IsGrown r rs ns (1, ns ++ new_reminder r ∷ [])
  IsGrown-inserted r rs ns i (added, a, b, c) =
      let later =
        fewer_reminders r rs ns added (older_reminders rs ns (new_reminder r ∷ []) added c) in
      let first = new_reminder-is_reminder r rs ns i in
      (
        new_reminder r ∷ added,
        a ∙ append_assoc ns (new_reminder r ∷ []) added,
        omega (arith, b),
        ground (arith, later, first),
      )

  pub insert_reminders-IsExtended : (rs : List Round) (ns : List Notification) → IsExtended rs ns
  unfolding insert_reminders
  insert_reminders-IsExtended [] ns = ([], sym (append-nil ns), refl, refl)
  insert_reminders-IsExtended (r ∷ rs) ns = elim (insert_reminder-cases r ns) [
    | inl e ↦
        subst (IsGrown r rs ns) (sym e)
          (IsGrown-skipped r rs ns (insert_reminders-IsExtended rs ns))
    | inr i ↦
        subst (IsGrown r rs ns) (sym i.0)
          (IsGrown-inserted r rs ns i (insert_reminders-IsExtended rs (ns ++ new_reminder r ∷ [])))
  ]
