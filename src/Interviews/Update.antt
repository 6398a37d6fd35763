-- ===== src/Interviews/Update.antt =====
-- packages/core/src/interviews.ts, `update`: the round, its documents and its notifications afterwards.
use careerscope.Reminders.{is_current, is_of_round, Notification}
use careerscope.Interviews.{
  as_reminder_round, update_found, retire_notification, next_round, assert_owned_documents,
  validate_common_input, update_checked, is_unmatched, is_round_at, is_round, stored_round,
  documents_of, InterviewTables, write_round, update_round, is_document_of, RoundResult, RoundInput,
  RoundDocument, InterviewSources, InterviewRound,
}
use careerscope.Base.Table.{find, update, delete}
use careerscope.Base.{
  none, some, true, false, [], ◌∷◌, ◌++◌, ℕ, Bool, List, Option, any, all, keep, not, is_some, ◌==◌,
  ◌||◌, arith, ◌≡◌, refl, inl, inr, ◌∙◌, Bool-cases, ==_iff, ==_refl,
}

abbrev pub is_stored : RoundResult → Bool
is_stored (stored_round r) = true
is_stored _ = false

-- The notification is not of the round, is retired, or is what a stored round says.
abbrev pub is_matched : ℕ → ℕ → ℕ → List InterviewRound → Notification → Bool
is_matched now owner id rounds n =
    not (is_of_round owner id n)
    || is_some n.retired_at
    || any (λ r. is_current now n (as_reminder_round r)) rounds

update-is_matched :
    (now owner id : ℕ) (rounds : List InterviewRound) (ns : List Notification)
    → all
        (is_matched now owner id rounds)
        (update (is_unmatched now owner id rounds) (retire_notification now) ns)
      ≡ true
unfolding update
update-is_matched now owner id rounds [] = refl
update-is_matched now owner id rounds (n ∷ ns) =
    ground (arith, update-is_matched now owner id rounds ns)

keep-delete :
    (p : RoundDocument → Bool) (ds es : List RoundDocument) → keep p (delete p ds ++ es) ≡ keep p es
unfolding delete
keep-delete p [] es = refl
keep-delete p (d ∷ ds) es = ground (arith, keep-delete p ds es)

keep-documents_of :
    (owner id : ℕ) (ids : List ℕ)
    → keep (is_document_of owner id) (documents_of owner id ids) ≡ documents_of owner id ids
keep-documents_of owner id [] = refl
keep-documents_of owner id (u ∷ us) =
    ground (arith, keep-documents_of owner id us, ==_refl owner, ==_refl id)

-- What holds after an update is stored.
abbrev IsStoredUpdate :
    ℕ → ℕ → ℕ → RoundInput → InterviewSources → InterviewTables → InterviewTables → Type 0
IsStoredUpdate now owner id i s t u =
    (r : InterviewRound) × (find (is_round owner id) t.rounds ≡ some r)
    × (r.input.revision ≡ i.revision)
    × (assert_owned_documents owner i.resume_upload_ids s ≡ true)
    × (keep (is_document_of owner id) u.documents ≡ documents_of owner id i.resume_upload_ids)
    × (all (is_matched now owner id u.rounds) u.notifications ≡ true)

write_round-matched :
    (now owner id : ℕ) (i : RoundInput) (t : InterviewTables)
    → all
        (is_matched now owner id (write_round now owner id i t).rounds)
        (write_round now owner id i t).notifications
      ≡ true
unfolding write_round
write_round-matched now owner id i t =
    update-is_matched now owner id
      (update (is_round_at owner id i.revision) (next_round now i) t.rounds) t.notifications

write_round-documents :
    (now owner id : ℕ) (i : RoundInput) (t : InterviewTables)
    → keep (is_document_of owner id) (write_round now owner id i t).documents
      ≡ documents_of owner id i.resume_upload_ids
unfolding write_round
write_round-documents now owner id i t =
    keep-delete (is_document_of owner id) t.documents (documents_of owner id i.resume_upload_ids)
    ∙ keep-documents_of owner id i.resume_upload_ids

update_found-stored :
    (now owner id : ℕ) (i : RoundInput) (s : InterviewSources) (t : InterviewTables)
    (o : Option InterviewRound)
    → find (is_round owner id) t.rounds ≡ o
    → is_stored (update_found now owner id i s t o).0 ≡ true
    → IsStoredUpdate now owner id i s t (update_found now owner id i s t o).1
update_found-stored now owner id i s t none f e = ground arith
update_found-stored now owner id i s t (some r) f e =
    let m = write_round-matched now owner id i t in
    let d = write_round-documents now owner id i t in
    let same = (==_iff r.input.revision i.revision).0 in
    elim (Bool-cases (r.input.revision == i.revision)) [
      | inr x ↦ ground arith
      | inl x ↦ elim (Bool-cases (assert_owned_documents owner i.resume_upload_ids s)) [
        | inr y ↦ ground arith
        | inl y ↦ rw (x, y) (r, f, same x, refl, d, m)
      ]
    ]

update_checked-stored :
    (now owner id : ℕ) (s : InterviewSources) (t : InterviewTables) (o : Option RoundInput)
    → is_stored (update_checked now owner id s t o).0 ≡ true
    → (i : RoundInput) × (o ≡ some i)
      × (validate_common_input i ≡ true)
      × IsStoredUpdate now owner id i s t (update_checked now owner id s t o).1
update_checked-stored now owner id s t none e = ground arith
update_checked-stored now owner id s t (some i) e = elim (Bool-cases (validate_common_input i)) [
  | inr v ↦ ground arith
  | inl v ↦ (
    i,
    refl,
    v,
    rw v (
        update_found-stored now owner id i s t (find (is_round owner id) t.rounds) refl
          (ground arith)),
  )
]

-- An update is stored only for a round of the user at the revision that the body names, with distinct
-- documents that are the user's and parsed. The round's documents are then those of the body, and every
-- notification of the round that is not retired is what a stored round says at that time.
pub update_round-stored :
    (parse : RoundInput → Option RoundInput) (now owner id : ℕ) (body : RoundInput)
    (s : InterviewSources) (t : InterviewTables)
    → is_stored (update_round parse now owner id body s t).0 ≡ true
    → (i : RoundInput) × (parse body ≡ some i)
      × (validate_common_input i ≡ true)
      × ((r : InterviewRound) × (find (is_round owner id) t.rounds ≡ some r)
          × (r.input.revision ≡ i.revision)
          × (assert_owned_documents owner i.resume_upload_ids s ≡ true)
          × (keep (is_document_of owner id) (update_round parse now owner id body s t).1.documents
              ≡ documents_of owner id i.resume_upload_ids)
          × (all
                (is_matched now owner id (update_round parse now owner id body s t).1.rounds)
                (update_round parse now owner id body s t).1.notifications
              ≡ true))
unfolding update_round
update_round-stored parse now owner id body s t e =
    update_checked-stored now owner id s t (parse body) e
