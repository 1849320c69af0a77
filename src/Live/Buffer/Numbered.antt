-- ===== src/Live/Buffer/Numbered.antt =====
-- The replay of a history whose sequence numbers have no gaps, as Redis INCR hands them out.
use metropulse.Prelude.{
  ℕ, suc, zero, ◌+◌, ◌-◌, ◌≤◌, ◌<◌, ◌≡◌, refl, sym, ap, ◌∙◌, true, false, none, some, List, [], ◌∷◌,
  ◌++◌, arith, ltb, if◌then◌else◌, Bool-cases, length, length-append, get_last?, All, drop, subst,
  inl, inr, min, ltb→lt,
}
use metropulse.Prelude.Int.{ℤ, pos, ltb_ℤ, leb_ℤ}
use metropulse.Live.Message.{Message}
use metropulse.Live.Buffer.{
  Entry, ReplayBuffer, empty, tail, add, newer, between, since_entries, since,
}
use metropulse.Live.Buffer.Replay.{
  record_all, Increasing, EndsWith-record_all, get_last?-append, get_last?-cons, between_complete,
}

-- messages numbered from `first`
abbrev pub numbered : ℕ → List Message → List Entry
numbered first [] = []
numbered first (m ∷ ms) = (pos first, m) ∷ numbered (suc first) ms

numbered-above :
    (n s : ℕ) (ms : List Message)
    → n < s
    → All (λ (x : Entry). ltb_ℤ (pos n) x.0 ≡ true) (numbered s ms)
numbered-above n s [] h = tt
numbered-above n s (m ∷ ms) h = (ground arith, numbered-above n (suc s) ms (omega arith))

pub numbered-Increasing : (s : ℕ) (ms : List Message) → Increasing (numbered s ms)
numbered-Increasing s [] = tt
numbered-Increasing s (m ∷ ms) =
    (numbered-above s (suc s) ms (omega arith), numbered-Increasing (suc s) ms)

length-numbered : (s : ℕ) (ms : List Message) → length (numbered s ms) ≡ length ms
length-numbered s [] = refl
length-numbered s (m ∷ ms) = ap suc (length-numbered (suc s) ms)

newer-numbered-all :
    (last s : ℕ) (ms : List Message) → last < s → newer (pos last) (numbered s ms) ≡ ms
newer-numbered-all last s [] h = refl
newer-numbered-all last s (m ∷ ms) h = elim (Bool-cases (ltb_ℤ (pos last) (pos s))) [
  | inl e ↦
      rw e (ap (λ (t : List Message). m ∷ t) (newer-numbered-all last (suc s) ms (omega arith)))
  | inr e ↦ absurd (ground arith)
]

drop-nil {ℓ} : {A : Type ℓ} (n : ℕ) → drop {A = A} n [] ≡ []
drop-nil zero = refl
drop-nil (suc n) = refl

-- Above `last` stand all but the first `last + 1 - first` messages.
newer-numbered :
    (last s : ℕ) (ms : List Message) → newer (pos last) (numbered s ms) ≡ drop (last + 1 - s) ms
newer-numbered last s [] = sym (drop-nil (last + 1 - s))
newer-numbered last s (m ∷ ms) = elim (Bool-cases (ltb last s)) [
  | inl e ↦
      let none_dropped : last + 1 - s ≡ 0 = ground arith in
      rw none_dropped (newer-numbered-all last s (m ∷ ms) (ltb→lt last s e))
  | inr e ↦
      let dropped : last + 1 - s ≡ suc (last + 1 - suc s) = ground arith in
      let seen : ltb_ℤ (pos last) (pos s) ≡ false = ground arith in
      rw (dropped, seen) (newer-numbered last (suc s) ms)
]

-- the number at a place
numbered-split :
    (s : ℕ) (ms : List Message) (front rest : List Entry) (first : Entry)
    → front ++ first ∷ rest ≡ numbered s ms
    → first.0 ≡ pos (s + length front)
numbered-split s [] [] rest first e = cc
numbered-split s [] (x ∷ front) rest first e = cc
numbered-split s (m ∷ ms) [] rest first e = ground arith
numbered-split s (m ∷ ms) (x ∷ front) rest first e =
    numbered-split (suc s) ms front rest first (cons_tail e) ∙ ap pos (omega arith)
  where
    cons_tail : {x y : Entry} {xs ys : List Entry} → x ∷ xs ≡ y ∷ ys → xs ≡ ys
    cons_tail p = cc

newest-numbered :
    (s : ℕ) (m : Message) (ms : List Message) (newest : Entry)
    → get_last? (numbered s (m ∷ ms)) ≡ some newest
    → newest.0 ≡ pos (s + length ms)
newest-numbered s m [] newest e = ground arith
newest-numbered s m (n ∷ ms) newest e = newest-numbered (suc s) n ms newest e ∙ ap pos (omega arith)

-- the buffer is as full as it can be
length-tail : (xs : List Entry) → length (tail xs) ≡ length xs - 1
length-tail [] = refl
length-tail (x ∷ xs) = omega arith

length-add :
    (b : ReplayBuffer) (n : ℤ) (m : Message)
    → length b.buffer ≤ b.max_size
    → length (add b n m).buffer ≡ min b.max_size (length b.buffer + 1)
unfolding add
length-add b n m h =
    ground (arith, length-tail (b.buffer ++ (n, m) ∷ []), length-append b.buffer ((n, m) ∷ []))

length-record_all :
    (b : ReplayBuffer) (h : List Entry)
    → length b.buffer ≤ b.max_size
    → length (record_all b h).buffer ≡ min b.max_size (length b.buffer + length h)
unfolding record_all add
length-record_all b [] k = omega arith
length-record_all b ((n, m) ∷ h) k =
    let grown = length-add b n m k in omega (arith, length-record_all (add b n m) h (omega arith))

between-gap :
    (last a b : ℕ) (x y : ℤ) (entries : List Entry)
    → x ≡ pos a
    → y ≡ pos b
    → a ≤ b
    → ltb (last + 1) a ≡ true
    → between (pos last) x y entries ≡ none
between-gap last a b x y entries ex ey h gap = rw (ex, ey) (ground arith)

between-bridged :
    (last a : ℕ) (x y : ℤ) (entries : List Entry)
    → x ≡ pos a
    → ltb (last + 1) a ≡ false
    → (ms : List Message) × (between (pos last) x y entries ≡ some ms)
between-bridged last a x y entries ex bridged = elim (Bool-cases (leb_ℤ y (pos last))) [
  | inl e ↦ ([], rw e)
  | inr e ↦ (newer (pos last) entries, rw (ex, e) (ground arith))
]

module _ (s last : ℕ) (m : Message) (ms : List Message) (front rest : List Entry)
    (first newest : Entry) (e : front ++ first ∷ rest ≡ numbered s (m ∷ ms))
    (l : get_last? (first ∷ rest) ≡ some newest) where
  first_number : first.0 ≡ pos (s + length front)
  first_number = numbered-split s (m ∷ ms) front rest first e

  newest_number : newest.0 ≡ pos (s + length ms)
  newest_number =
      newest-numbered s m ms newest (ap get_last? (sym e) ∙ get_last?-append front rest first ∙ l)

  front_room : length front + suc (length rest) ≡ suc (length ms)
  front_room = sym (length-append front (first ∷ rest)) ∙ ap length e ∙ length-numbered s (m ∷ ms)

  between-numbered :
      between (pos last) first.0 newest.0 (first ∷ rest)
      ≡ (if ltb (last + 1) (s + length front) then none else some (drop (last + 1 - s) (m ∷ ms)))
  between-numbered = elim (Bool-cases (ltb (last + 1) (s + length front))) [
    | inl gap ↦
        between-gap last _ _ first.0 newest.0 (first ∷ rest) first_number newest_number
          (omega (arith, front_room)) gap
        ∙ sym (rw gap)
    | inr bridged ↦
        let (sent, sent_e) =
          between-bridged last _ first.0 newest.0 (first ∷ rest) first_number bridged in
        sent_e
        ∙ ap some (
            between_complete (pos last) front rest first newest sent
              (subst Increasing (sym e) (numbered-Increasing s (m ∷ ms))) l sent_e
            ∙ ap (newer (pos last)) e
            ∙ newer-numbered last s (m ∷ ms))
        ∙ sym (rw bridged)
  ]

kept-numbered :
    (max_size s last : ℕ) (m : Message) (ms : List Message) (front kept : List Entry)
    → 0 < max_size
    → front ++ kept ≡ numbered s (m ∷ ms)
    → length kept ≡ min max_size (suc (length ms))
    → since_entries (pos last) kept ≡ (
        if ltb (last + 1) (s + (suc (length ms) - max_size))
        then none
        else some (drop (last + 1 - s) (m ∷ ms)))
kept-numbered max_size s last m ms front [] h e k = absurd (omega arith)
kept-numbered max_size s last m ms front (first ∷ rest) h e k =
    let (newest, l) = get_last?-cons first rest in
    let dropped : length front ≡ suc (length ms) - max_size =
      omega (arith, front_room s last m ms front rest first newest e l) in
    rw (← dropped)
      (rw (l, since_entries) (between-numbered s last m ms front rest first newest e l))

-- When messages numbered from `s` without gaps have been recorded in a buffer with room for
-- `max_size`, a client that has seen everything up to `last` is refused a replay exactly if it
-- misses a message that the buffer has dropped or that is older than `s`; else it is sent all but
-- the first `last + 1 - s` messages (none, if it is up to date).
pub since-numbered :
    (max_size s last : ℕ) (m : Message) (ms : List Message)
    → 0 < max_size
    → since (record_all (empty max_size) (numbered s (m ∷ ms))) (pos last) ≡ (
        if ltb (last + 1) (s + (suc (length ms) - max_size))
        then none
        else some (drop (last + 1 - s) (m ∷ ms)))
unfolding since
since-numbered max_size s last m ms h =
    let history = numbered s (m ∷ ms) in
    let (front, e) = EndsWith-record_all (empty max_size) history in
    kept-numbered max_size s last m ms front _ h e (
      omega (
        arith,
        length-record_all (empty max_size) history (omega arith),
        length-numbered s (m ∷ ms),
      ))
