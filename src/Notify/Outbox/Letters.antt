-- ===== src/Notify/Outbox/Letters.antt =====
-- packages/core/src/notification-delivery.ts, `deliverNext`: deliveries that are given up, and their dead
-- letters.
use careerscope.Base.Table.{update}
use careerscope.Notify.Channels.{is_channel, NotificationChannel}
use careerscope.Base.{
  sym, subst, leb, ==_iff, map, Option, ℕ, ◌||◌, ◌++◌, not, any, all, Bool, List, if◌then◌else◌,
  Bool-cases, Bool-cases, not, any, all, List, Bool, none, some, true, false, [], ◌∷◌, ◌+◌, inl,
  inr, refl, arith, ◌≡◌,
}
use careerscope.Notify.Outbox.{
  send_claimed, claim_row, next_delivery, attempt_limit, give_up_stalled, is_delivery,
  finish_delivery, deliver_next, claim_delivery, letter_of, is_letter, is_dead, insert_letter, bury,
  DeadLetter, Delivery, NotificationTables,
}

-- The delivery is alive or has a dead letter.
abbrev pub is_accounted : List DeadLetter → Delivery → Bool
is_accounted letters d = not (is_dead d.status) || any (is_letter d.event_id d.channel) letters

abbrev pub Accounted : NotificationTables → Type 0
Accounted t = all (is_accounted t.dead_letters) t.deliveries ≡ true

any-append_left :
    {A : Type 0} (p : A → Bool) (xs ys : List A) → any p xs ≡ true → any p (xs ++ ys) ≡ true
any-append_left p [] ys h = ground (arith, h)
any-append_left p (x ∷ xs) ys h = ground (arith, h, any-append_left p xs ys)

any-append_last :
    {A : Type 0} (p : A → Bool) (xs : List A) (y : A) → p y ≡ true → any p (xs ++ y ∷ []) ≡ true
any-append_last p [] y h = ground (arith, h)
any-append_last p (x ∷ xs) y h = ground (arith, any-append_last p xs y h)

insert_letter-keeps :
    (q : DeadLetter → Bool) (l : DeadLetter) (rows : List DeadLetter)
    → any q rows ≡ true
    → any q (insert_letter l rows) ≡ true
unfolding insert_letter
insert_letter-keeps q l rows h = ground (arith, h, any-append_left q rows (l ∷ []))

channel_refl : (c : NotificationChannel) → is_channel c c ≡ true
channel_refl c = ground arith

insert_letter-has :
    (l : DeadLetter) (rows : List DeadLetter)
    → any (is_letter l.event_id l.channel) (insert_letter l rows) ≡ true
unfolding insert_letter
insert_letter-has l rows = elim (Bool-cases (any (is_letter l.event_id l.channel) rows)) [
  | inl e ↦ rw (e, e) refl
  | inr e ↦ rw e (
      any-append_last (is_letter l.event_id l.channel) rows l
        (ground (arith, channel_refl l.channel)))
]

bury-keeps :
    (q : DeadLetter → Bool) (ds : List Delivery) (letters : List DeadLetter)
    → any q letters ≡ true
    → any q (bury ds letters) ≡ true
unfolding bury
bury-keeps q [] letters h = h
bury-keeps q (d ∷ ds) letters h = elim (Bool-cases (is_dead d.status)) [
  | inl e ↦ rw e (bury-keeps q ds _ (insert_letter-keeps q (letter_of d) letters h))
  | inr e ↦ rw e (bury-keeps q ds letters h)
]

all_of :
    (p : Delivery → Bool) (ds : List Delivery) → ((d : Delivery) → p d ≡ true) → all p ds ≡ true
all_of p [] h = refl
all_of p (d ∷ ds) h = ground (arith, h d, all_of p ds h)

all_mono :
    (p q : Delivery → Bool) (ds : List Delivery)
    → ((d : Delivery) → p d ≡ true → q d ≡ true)
    → all p ds ≡ true
    → all q ds ≡ true
all_mono p q [] h k = refl
all_mono p q (d ∷ ds) h k = ground (arith, h d, all_mono p q ds h)

all-update_where :
    (p q : Delivery → Bool) (f : Delivery → Delivery) (ds : List Delivery)
    → ((d : Delivery) → q d ≡ true → p (f d) ≡ true)
    → all p ds ≡ true
    → all p (update q f ds) ≡ true
unfolding update
all-update_where p q f [] h k = refl
all-update_where p q f (d ∷ ds) h k = ground (arith, h d, all-update_where p q f ds h)

channel-eq : (a b : NotificationChannel) → is_channel a b ≡ true → a ≡ b
channel-eq a b h = ground arith

accounted_by :
    (letters more : List DeadLetter)
    → ((q : DeadLetter → Bool) → any q letters ≡ true → any q more ≡ true)
    → (d : Delivery) → is_accounted letters d ≡ true
    → is_accounted more d ≡ true
accounted_by letters more h d k = elim (Bool-cases (is_dead d.status)) [
  | inl e ↦ ground (arith, e, k, h (is_letter d.event_id d.channel))
  | inr e ↦ rw e refl
]

bury-cons :
    (d : Delivery) (ds : List Delivery) (letters : List DeadLetter)
    → bury (d ∷ ds) letters
      ≡ bury ds (if is_dead d.status then insert_letter (letter_of d) letters else letters)
unfolding bury
bury-cons d ds letters = refl

head_accounted :
    (d : Delivery) (ds : List Delivery) (letters : List DeadLetter)
    → is_accounted
        (bury ds (if is_dead d.status then insert_letter (letter_of d) letters else letters))
        d
      ≡ true
head_accounted d ds letters = elim (Bool-cases (is_dead d.status)) [
  | inl e ↦
      rw e
        (bury-keeps (is_letter d.event_id d.channel) ds _ (insert_letter-has (letter_of d) letters))
  | inr e ↦ rw e refl
]

all-cons :
    (p : Delivery → Bool) (d : Delivery) (ds : List Delivery)
    → p d ≡ true
    → all p ds ≡ true
    → all p (d ∷ ds) ≡ true
all-cons p d ds h k = rw (h, k) refl

bury-accounts :
    (ds : List Delivery) (letters : List DeadLetter)
    → all (is_accounted (bury ds letters)) ds ≡ true
bury-accounts [] letters = refl
bury-accounts (d ∷ ds) letters =
    let more = if is_dead d.status then insert_letter (letter_of d) letters else letters in
    subst (λ ls. all (is_accounted ls) (d ∷ ds) ≡ true) (sym (bury-cons d ds letters))
      (all-cons (is_accounted (bury ds more)) d ds (head_accounted d ds letters)
        (bury-accounts ds more))

same_key :
    (id : ℕ) (c : NotificationChannel) (d : Delivery) (letters : List DeadLetter)
    → is_delivery id c d ≡ true
    → any (is_letter id c) letters ≡ true
    → any (is_letter d.event_id d.channel) letters ≡ true
same_key id c d letters h k =
    let i : d.event_id ≡ id = (==_iff d.event_id id).0 (ground (arith, h)) in
    let j : d.channel ≡ c = channel-eq d.channel c (ground (arith, h)) in rw (i, j) k

claim_row-Accounted :
    (now : ℕ) (rows : List Delivery) (letters : List DeadLetter) (t : NotificationTables)
    (o : Option Delivery)
    → all (is_accounted letters) rows ≡ true
    → Accounted (claim_row now rows letters t o).1
unfolding claim_row
claim_row-Accounted now rows letters t none h = h
claim_row-Accounted now rows letters t (some d) h = all-update_where _ _ _ rows (λ x k. refl) h

claim_delivery-Accounted :
    (now : ℕ) (kill_email : Bool) (t : NotificationTables)
    → Accounted (claim_delivery now kill_email t).1
unfolding claim_delivery
claim_delivery-Accounted now kill_email t =
    claim_row-Accounted now _ _ t
      (next_delivery now kill_email (map (give_up_stalled now) t.deliveries))
      (bury-accounts (map (give_up_stalled now) t.deliveries) t.dead_letters)

finish_delivery-Accounted :
    (now : ℕ) (max_attempts base_delay : Option ℕ) (sent : Bool) (d : Delivery)
    (t : NotificationTables)
    → Accounted t
    → Accounted (finish_delivery now max_attempts base_delay sent d t)
unfolding finish_delivery
finish_delivery-Accounted now max_attempts base_delay true d t h =
    all-update_where _ _ _ t.deliveries (λ x k. refl) h
finish_delivery-Accounted now max_attempts base_delay false d t h =
    elim (Bool-cases (leb (attempt_limit max_attempts) (d.attempts + 1))) [
      | inr e ↦ rw e (all-update_where _ _ _ t.deliveries (λ x k. refl) h)
      | inl e ↦
          let l : DeadLetter = record (letter_of d) { attempts = d.attempts + 1 } in
          rw e (
            all-update_where _ _ _ t.deliveries
              (λ x k. same_key d.event_id d.channel x _ k (insert_letter-has l t.dead_letters))
              (all_mono _ _ t.deliveries
                (accounted_by t.dead_letters _ (λ q k. insert_letter-keeps q l t.dead_letters k))
                h))
    ]

send_claimed-Accounted :
    (transports : Delivery → Bool) (sent_at : ℕ) (max_attempts base_delay : Option ℕ)
    (o : Option Delivery) (t : NotificationTables)
    → Accounted t
    → Accounted (send_claimed transports sent_at max_attempts base_delay (o, t)).1
unfolding send_claimed
send_claimed-Accounted transports sent_at max_attempts base_delay none t h = h
send_claimed-Accounted transports sent_at max_attempts base_delay (some d) t h =
    finish_delivery-Accounted sent_at max_attempts base_delay (transports d) d t h

-- After a pass of delivery, whatever the rows were before, each delivery that is given up has a dead
-- letter.
pub deliver_next-Accounted :
    (transports : Delivery → Bool) (now sent_at : ℕ) (max_attempts base_delay : Option ℕ)
    (kill_email : Bool) (t : NotificationTables)
    → Accounted (deliver_next transports now sent_at max_attempts base_delay kill_email t).1
unfolding deliver_next
deliver_next-Accounted transports now sent_at max_attempts base_delay kill_email t =
    send_claimed-Accounted transports sent_at max_attempts base_delay
      (claim_delivery now kill_email t).0 _ (claim_delivery-Accounted now kill_email t)
