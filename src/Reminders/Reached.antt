-- ===== src/Reminders/Reached.antt =====
-- packages/core/src/notifications.ts, `publishDueInterviewReminders`: which rounds it does not miss.
use careerscope.Base.{
  ℕ, Bool, List, none, some, true, false, [], ◌∷◌, ◌==◌, ◌&&◌, not, any, keep, length, ◌≡◌, ◌≤◌,
  inl, inr, arith, Bool-cases, ==_refl, ==_iff, ap, sym, subst, ◌∙◌, Option,
}
use careerscope.Base.Table.{sort_by}
use careerscope.Base.Rows.{any-append, any-implies, any-keep, any-sort_by, length-sort_by, take-all}
use careerscope.Reminders.Published.{insert_reminders-IsExtended, new_reminder}
use careerscope.Reminders.{
  due_rounds, stale_rounds, interview_reminder_preference, is_due_round, reminder_time, reminds_at,
  is_of_round, is_noted, ReminderTables, ReminderPreference, publish_due, insert_reminders,
  insert_reminder, Round, Notification, is_key, retire,
}

-- The round is due and to be reminded of at `at`.
abbrev pub is_waiting : ℕ → ℕ → ℕ → ℕ → Round → Bool
is_waiting now owner round at r =
    r.owner_id == owner && r.id == round && reminds_at r.reminder_at at && is_due_round now r

-- A round that the publisher can take: due, free, and without a notification for its time.
abbrev pub is_open_round : (Round → Bool) → ℕ → List Notification → ReminderTables → Round → Bool
is_open_round is_free now ns t r =
    is_due_round now r
    && not (is_noted ns r)
    && interview_reminder_preference r.owner_id t.preferences
    && is_free r

reminds_at-some : (o : Option ℕ) (at : ℕ) → reminds_at o at ≡ true → o ≡ some at
reminds_at-some none at e = ground (arith, e)
reminds_at-some (some t) at e = ap some ((==_iff t at).0 e)

module _ (now owner round at : ℕ) where
  module _ (r : Round) (w : is_waiting now owner round at r ≡ true) where
    waiting_owner : r.owner_id ≡ owner
    waiting_owner = (==_iff r.owner_id owner).0 (ground (arith, w))

    waiting_round : r.id ≡ round
    waiting_round = (==_iff r.id round).0 (ground (arith, w))

    waiting_at : r.reminder_at ≡ some at
    waiting_at = reminds_at-some r.reminder_at at (ground (arith, w))

    same_key :
        (P : ℕ → ℕ → Option ℕ → Type 0) → P r.owner_id r.id r.reminder_at → P owner round (some at)
    same_key P p =
        subst (λ x. P owner round x) waiting_at
          (subst (λ x. P owner x r.reminder_at) waiting_round
            (subst (λ x. P x r.id r.reminder_at) waiting_owner p))

    noted-key :
        (ns : List Notification) → is_noted ns r ≡ true → any (is_key owner round at) ns ≡ true
    noted-key ns h =
        any-implies (λ n. is_of_round owner round n && at == n.reminder_at) (is_key owner round at)
          ns
          (λ n e.
            let s : (n.reminder_at == at) ≡ true =
              (==_iff n.reminder_at at).1 (sym ((==_iff at n.reminder_at).0 (ground (arith, e)))) in
            ground (arith, e, s))
          (same_key (λ o i x. any (λ n. is_of_round o i n && reminds_at x n.reminder_at) ns ≡ true)
            h)

  module _ (draw : ℕ → ℕ) (ps : List ReminderPreference) where
    insert_reminder-noted :
        (r : Round) (ns : List Notification)
        → is_due_round now r ≡ true
        → interview_reminder_preference r.owner_id ps ≡ true
        → any (is_key r.owner_id r.id (reminder_time r)) (insert_reminder draw now ps r ns).1 ≡ true
    unfolding insert_reminder
    insert_reminder-noted r ns d p =
        elim (Bool-cases (any (is_key r.owner_id r.id (reminder_time r)) ns)) [
          | inl e ↦ ground (arith, e)
          | inr e ↦ ground (
            arith,
            e,
            d,
            p,
            any-append (is_key r.owner_id r.id (reminder_time r)) ns
                (new_reminder draw now ps r ∷ []),
            ==_refl r.owner_id,
            ==_refl r.id,
            ==_refl (reminder_time r),
          )
        ]

    insert_reminders-kept :
        (p : Notification → Bool) (rs : List Round) (ns : List Notification)
        → any p ns ≡ true
        → any p (insert_reminders draw now ps rs ns).1 ≡ true
    insert_reminders-kept p rs ns h =
        let (added, a, b, c) = insert_reminders-IsExtended draw now ps rs ns in
        subst (λ z. any p z ≡ true) (sym a) (ground (arith, any-append p ns added, h))

    insert_reminders-noted :
        (rs : List Round) (ns : List Notification)
        → any (is_waiting now owner round at) rs ≡ true
        → interview_reminder_preference owner ps ≡ true
        → any (is_key owner round at) (insert_reminders draw now ps rs ns).1 ≡ true
    unfolding insert_reminders
    insert_reminders-noted [] ns h p = ground (arith, h)
    insert_reminders-noted (r ∷ rs) ns h p = elim (Bool-cases (is_waiting now owner round at r)) [
      | inl w ↦
          insert_reminders-kept (is_key owner round at) rs (insert_reminder draw now ps r ns).1 (
            same_key r w
              (λ o i x.
                any (is_key o i (elim x [ none ↦ 0 | some t ↦ t ]))
                  (insert_reminder draw now ps r ns).1
                ≡ true)
              (insert_reminder-noted r ns (ground (arith, w)) (
                subst (λ o. interview_reminder_preference o ps ≡ true) (sym (waiting_owner r w))
                  p)))
      | inr w ↦
          insert_reminders-noted rs (insert_reminder draw now ps r ns).1 (ground (arith, w, h)) p
    ]

  module _ (is_free : Round → Bool) (t : ReminderTables) where
    abbrev IsWanted : List Notification → Type 0
    IsWanted ns =
        (any (is_key owner round at) ns ≡ false)
        × (interview_reminder_preference owner t.preferences ≡ true)

    waiting-open :
        (ns : List Notification) (r : Round)
        → IsWanted ns
        → is_waiting now owner round at r && is_free r ≡ true
        → is_waiting now owner round at r && is_open_round is_free now ns t r ≡ true
    waiting-open ns r (absent, p) h =
        let w : is_waiting now owner round at r ≡ true = ground (arith, h) in
        let q : interview_reminder_preference r.owner_id t.preferences ≡ true =
          subst (λ o. interview_reminder_preference o t.preferences ≡ true)
            (sym (waiting_owner r w)) p in
        let k : is_noted ns r ≡ false = elim (Bool-cases (is_noted ns r)) [
          | inl e ↦ let c = noted-key r w ns e in ground (arith, c, absent)
          | inr e ↦ e
        ] in
        ground (arith, h, q, k)

    due_rounds-all :
        (ns : List Notification)
        → length (keep (is_open_round is_free now ns t) t.rounds) ≤ 100
        → due_rounds is_free now ns t
          ≡ sort_by reminder_time
              (sort_by (λ (r : Round). r.id) (keep (is_open_round is_free now ns t) t.rounds))
    unfolding due_rounds
    due_rounds-all ns h =
        let rows = keep (is_open_round is_free now ns t) t.rounds in
        let by_id = sort_by (λ (r : Round). r.id) rows in
        take-all 100 (sort_by reminder_time by_id) (
          subst (λ n. n ≤ 100)
            (sym (length-sort_by reminder_time by_id ∙ length-sort_by (λ (r : Round). r.id) rows))
            h)

    due_rounds-waiting :
        (ns : List Notification)
        → length (keep (is_open_round is_free now ns t) t.rounds) ≤ 100
        → IsWanted ns
        → any (is_waiting now owner round at) (keep is_free t.rounds) ≡ true
        → any (is_waiting now owner round at) (due_rounds is_free now ns t) ≡ true
    due_rounds-waiting ns few wanted h =
        let p = is_waiting now owner round at in
        let rows = keep (is_open_round is_free now ns t) t.rounds in
        ap (any p) (due_rounds-all ns few)
        ∙ any-sort_by reminder_time p (sort_by (λ (r : Round). r.id) rows)
        ∙ any-sort_by (λ (r : Round). r.id) p rows
        ∙ any-keep p (is_open_round is_free now ns t) t.rounds
        ∙ any-implies (λ r. p r && is_free r) (λ r. p r && is_open_round is_free now ns t r)
            t.rounds (λ r. waiting-open ns r wanted) (sym (any-keep p is_free t.rounds) ∙ h)

  -- Where at most a hundred rounds are open for the publisher, a round that is due and that no other publisher
  -- has locked has a notification after the pass, if its user wants reminders before the locks are held and after.
  pub publish_due-reaches :
      (draw : ℕ → ℕ) (is_free : Round → Bool) (later : List ReminderPreference) (t : ReminderTables)
      → length (
          keep
            (is_open_round is_free now
              (retire now t.rounds (stale_rounds is_free now t) t.notifications)
              t)
            t.rounds)
        ≤ 100
      → any (is_waiting now owner round at) (keep is_free t.rounds) ≡ true
      → interview_reminder_preference owner t.preferences ≡ true
      → interview_reminder_preference owner later ≡ true
      → any (is_key owner round at) (publish_due draw is_free now later t).1.notifications ≡ true
  unfolding publish_due
  publish_due-reaches draw is_free later t few h p q =
      let old = retire now t.rounds (stale_rounds is_free now t) t.notifications in
      elim (Bool-cases (any (is_key owner round at) old)) [
        | inl e ↦
            insert_reminders-kept draw later (is_key owner round at) (due_rounds is_free now old t)
              old e
        | inr e ↦
            insert_reminders-noted draw later (due_rounds is_free now old t) old
              (due_rounds-waiting is_free t old few (e, p) h) q
      ]
