-- ===== src/Live/Buffer/Replay.antt =====
-- What a reconnecting client is sent, against the whole history of published messages
-- (`ReplayBuffer.since` of src/metropulse/application/live_hub.py).
use mathlib.Core.List.{append-nil, append_assoc, map-append}
use mathlib.Core.Option.{some-injective}
use metropulse.Prelude.{
  ℕ, ◌+◌, ◌≤◌, ◌≡◌, refl, sym, ap, ◌∙◌, true, false, none, some, List, [], ◌∷◌, ◌++◌, arith, ltb,
  Bool-cases, length, length-append, filter, filter-append, get_last?, All, inl, inr,
}
use metropulse.Prelude.Int.{ℤ, pos, ltb_ℤ, leb_ℤ, ◌-ℤ◌}
use metropulse.Live.Message.{Message}
use metropulse.Live.Buffer.{
  Entry, ReplayBuffer, empty, tail, add, newer, between, since_entries, since,
}

-- The messages that the hub recorded, oldest first.
unfoldable pub record_all : ReplayBuffer → List Entry → ReplayBuffer
record_all b [] = b
record_all b ((n, message) ∷ rest) = record_all (add b n message) rest

-- Each sequence number is above the one before it.
abbrev pub Increasing : List Entry → Type 0
Increasing [] = Unit
Increasing (e ∷ es) = All (λ (x : Entry). ltb_ℤ e.0 x.0 ≡ true) es × Increasing es

-- The bound on the buffer.
length-tail-le : (xs : List Entry) (n : ℕ) → length xs ≤ n + 1 → length (tail xs) ≤ n
length-tail-le [] n h = omega arith
length-tail-le (x ∷ xs) n h = omega arith

pub length-add-le :
    (b : ReplayBuffer) (n : ℤ) (m : Message)
    → length b.buffer ≤ b.max_size
    → length (add b n m).buffer ≤ b.max_size
unfolding add
length-add-le b n m h = elim (Bool-cases (ltb b.max_size (length (b.buffer ++ (n, m) ∷ [])))) [
  | inl e ↦ rw e (
      length-tail-le (b.buffer ++ (n, m) ∷ []) b.max_size
        (omega (arith, length-append b.buffer ((n, m) ∷ []))))
  | inr e ↦ rw e (ground arith)
]

-- The buffer never holds more than `max_size` messages.
pub length-record_all-le :
    (b : ReplayBuffer) (h : List Entry)
    → length b.buffer ≤ b.max_size
    → length (record_all b h).buffer ≤ b.max_size
unfolding record_all add
length-record_all-le b [] k = k
length-record_all-le b ((n, m) ∷ h) k = length-record_all-le (add b n m) h (length-add-le b n m k)

-- What was dropped stands in front of what is kept.
abbrev pub EndsWith : List Entry → List Entry → Type 0
EndsWith whole end = (front : List Entry) × (front ++ end ≡ whole)

EndsWith-tail : (xs : List Entry) → EndsWith xs (tail xs)
EndsWith-tail [] = ([], refl)
EndsWith-tail (x ∷ xs) = (x ∷ [], refl)

EndsWith-add :
    (b : ReplayBuffer) (n : ℤ) (m : Message) → EndsWith (b.buffer ++ (n, m) ∷ []) (add b n m).buffer
unfolding add
EndsWith-add b n m = elim (Bool-cases (ltb b.max_size (length (b.buffer ++ (n, m) ∷ [])))) [
  | inl e ↦ rw e (EndsWith-tail (b.buffer ++ (n, m) ∷ []))
  | inr e ↦ rw e ([], refl)
]

EndsWith-extend :
    (whole middle end rest : List Entry)
    → EndsWith whole middle
    → EndsWith (middle ++ rest) end
    → EndsWith (whole ++ rest) end
EndsWith-extend whole middle end rest (old, e) (front, e') = (
  old ++ front,
  append_assoc old front end
      ∙ ap (λ (t : List Entry). old ++ t) e'
      ∙ sym (append_assoc old middle rest)
      ∙ ap (λ (t : List Entry). t ++ rest) e,
)

pub EndsWith-record_all :
    (b : ReplayBuffer) (h : List Entry) → EndsWith (b.buffer ++ h) (record_all b h).buffer
unfolding record_all
EndsWith-record_all b [] = ([], sym (append-nil b.buffer))
EndsWith-record_all b ((n, m) ∷ h) =
    let (front, e) =
      EndsWith-extend _ (add b n m).buffer _ h (EndsWith-add b n m)
        (EndsWith-record_all (add b n m) h) in
    (front, e ∙ append_assoc b.buffer ((n, m) ∷ []) h)

-- Filtering by sequence number.
newer-append :
    (last : ℤ) (xs ys : List Entry) → newer last (xs ++ ys) ≡ newer last xs ++ newer last ys
newer-append last xs ys =
    rw (filter-append (λ (e : Entry). ltb_ℤ last e.0) xs ys)
      (map-append (λ (e : Entry). e.1) (filter (λ (e : Entry). ltb_ℤ last e.0) xs) _)

abbrev AllSeen : ℤ → List Entry → Type 0
AllSeen last = All (λ (e : Entry). ltb_ℤ last e.0 ≡ false)

newer-AllSeen : (last : ℤ) (xs : List Entry) → AllSeen last xs → newer last xs ≡ []
newer-AllSeen last [] h = refl
newer-AllSeen last (x ∷ xs) h = rw h.0 (newer-AllSeen last xs h.1)

-- What stands before `first` lies below it.
AllSeen-before :
    (last : ℤ) (front rest : List Entry) (first : Entry)
    → Increasing (front ++ first ∷ rest)
    → ltb_ℤ last (first.0 -ℤ pos 1) ≡ false
    → AllSeen last front
AllSeen-before last [] rest first h k = tt
AllSeen-before last (x ∷ front) rest first h k =
    (below (All-middle front h.0), AllSeen-before last front rest first h.1 k)
  where
    All-middle :
        (front : List Entry)
        → All (λ (y : Entry). ltb_ℤ x.0 y.0 ≡ true) (front ++ first ∷ rest)
        → ltb_ℤ x.0 first.0 ≡ true
    All-middle [] a = a.0
    All-middle (y ∷ front) a = All-middle front a.1

    below : ltb_ℤ x.0 first.0 ≡ true → ltb_ℤ last x.0 ≡ false
    below a = ground arith

-- Nothing lies above the last entry.
AllSeen-newest :
    (last : ℤ) (xs : List Entry) (newest : Entry)
    → Increasing xs
    → get_last? xs ≡ some newest
    → leb_ℤ newest.0 last ≡ true
    → AllSeen last xs
AllSeen-newest last [] newest h e k = tt
AllSeen-newest last (x ∷ []) newest h e k = (ground arith, tt)
AllSeen-newest last (x ∷ y ∷ xs) newest h e k =
    let rest = AllSeen-newest last (y ∷ xs) newest h.1 e k in (ground (arith, h.0.0, rest.0), rest)

pub get_last?-append :
    (front rest : List Entry) (x : Entry) → get_last? (front ++ x ∷ rest) ≡ get_last? (x ∷ rest)
get_last?-append [] rest x = refl
get_last?-append (y ∷ []) rest x = refl
get_last?-append (y ∷ z ∷ front) rest x = get_last?-append (z ∷ front) rest x

pub get_last?-cons : (x : Entry) (xs : List Entry) → (y : Entry) × (get_last? (x ∷ xs) ≡ some y)
get_last?-cons x [] = (x, refl)
get_last?-cons x (y ∷ xs) = get_last?-cons y xs

impossible {ℓ} : {A : Type ℓ} {ms : List Message} → none ≡ some ms → A
impossible e = absurd (cc)

pub between_complete :
    (last : ℤ) (front rest : List Entry) (first newest : Entry) (ms : List Message)
    → Increasing (front ++ first ∷ rest)
    → get_last? (first ∷ rest) ≡ some newest
    → between last first.0 newest.0 (first ∷ rest) ≡ some ms
    → ms ≡ newer last (front ++ first ∷ rest)
between_complete last front rest first newest ms h l e = elim (Bool-cases (leb_ℤ newest.0 last)) [
  | inl up_to_date ↦
      some-injective _ _ (sym e ∙ rw up_to_date)
      ∙ sym (
          newer-AllSeen last _
            (AllSeen-newest last _ newest h (get_last?-append front rest first ∙ l) up_to_date))
  | inr behind ↦ elim (Bool-cases (ltb_ℤ last (first.0 -ℤ pos 1))) [
    | inl gap ↦ impossible (rw (behind, gap) at e)
    | inr bridged ↦
        some-injective _ _ (sym e ∙ rw (behind, bridged))
        ∙ sym (
            newer-append last front (first ∷ rest)
            ∙ ap (λ (t : List Message). t ++ newer last (first ∷ rest))
                (newer-AllSeen last front (AllSeen-before last front rest first h bridged)))
  ]
]

pub since_entries_complete :
    (last : ℤ) (front kept : List Entry) (ms : List Message)
    → Increasing (front ++ kept)
    → since_entries last kept ≡ some ms
    → ms ≡ newer last (front ++ kept)
since_entries_complete last front [] ms h e = cc
since_entries_complete last front (first ∷ rest) ms h e =
    let (newest, l) = get_last?-cons first rest in
    between_complete last front rest first newest ms h l (sym (rw (l, since_entries)) ∙ e)

-- Whatever was published, in increasing order, and whatever of it the buffer has dropped: if a
-- client that has seen everything up to `last` is sent a replay, then the replay is every
-- published message above `last`, in order.
pub replay_complete :
    (max_size : ℕ) (history : List Entry) (last : ℤ) (ms : List Message)
    → Increasing history
    → since (record_all (empty max_size) history) last ≡ some ms
    → ms ≡ newer last history
unfolding since
replay_complete max_size history last ms h e =
    let (front, split) = EndsWith-record_all (empty max_size) history in
    rw (← split) (since_entries_complete last front _ ms (rw (← split) at h) e)
