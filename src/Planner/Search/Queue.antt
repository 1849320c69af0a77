-- ===== src/Planner/Search/Queue.antt =====
-- `heappop` of a queue (src/metropulse/application/journey_planner.py).
use metropulse.Prelude.{
  suc, ◌≡◌, refl, sym, ap, ◌⊎◌, inl, inr, Bool, true, false, List, [], ◌∷◌, arith, if◌then◌else◌,
  Bool-cases, length, All, Any,
}
use metropulse.Planner.Number.{Number, AtMost}
use metropulse.Planner.Search.{Entry, before, pop_min}

module _ (number : Number) (State : Type 0) where
  open number use {Num, lt, lt_irrefl, lt_asymm, at_most_trans}

  abbrev pub Item : Type 0
  Item = Entry number State

  abbrev first : Item → Item → Item
  first e x = if before number State x e then x else e

  abbrev second : Item → Item → Item
  second e x = if before number State x e then e else x

  pub length-pop_min :
      (e : Item) (xs : List Item) → length (pop_min number State e xs).1 ≡ length xs
  unfolding pop_min
  length-pop_min e [] = refl
  length-pop_min e (x ∷ xs) = ap suc (length-pop_min (first e x) xs)

  module _ (P : Item → Type 0) where
    either : (b : Bool) (e x : Item) → P e ⊎ P x → P (if b then x else e) ⊎ P (if b then e else x)
    either true e x (inl h) = inr h
    either true e x (inr h) = inl h
    either false e x h = h

    both : (b : Bool) (e x : Item) → P e → P x → P (if b then x else e) × P (if b then e else x)
    both true e x h k = (k, h)
    both false e x h k = (h, k)

    pub All-pop_min :
        (e : Item) (xs : List Item)
        → P e
        → All P xs
        → P (pop_min number State e xs).0 × All P (pop_min number State e xs).1
    unfolding pop_min
    All-pop_min e [] h k = (h, tt)
    All-pop_min e (x ∷ xs) h k =
        let (f, s) = both (before number State x e) e x h k.0 in
        let (m, rest) = All-pop_min (first e x) xs f k.1 in (m, (s, rest))

    popped_first : {A B C : Type 0} → A ⊎ B → A ⊎ C ⊎ B
    popped_first (inl a) = inl a
    popped_first (inr b) = inr (inr b)

    pub Any-pop_min :
        (e : Item) (xs : List Item)
        → P e ⊎ Any P xs
        → P (pop_min number State e xs).0 ⊎ Any P (pop_min number State e xs).1
    unfolding pop_min
    Any-pop_min e [] h = h
    Any-pop_min e (x ∷ xs) (inr (inr h)) = popped_first (Any-pop_min (first e x) xs (inr h))
    Any-pop_min e (x ∷ xs) (inr (inl h)) = elim (either (before number State x e) e x (inr h)) [
      | inl f ↦ popped_first (Any-pop_min (first e x) xs (inl f))
      | inr s ↦ inr (inl s)
    ]
    Any-pop_min e (x ∷ xs) (inl h) = elim (either (before number State x e) e x (inl h)) [
      | inl f ↦ popped_first (Any-pop_min (first e x) xs (inl f))
      | inr s ↦ inr (inl s)
    ]

  -- the popped entry is a cheapest one
  abbrev pub NoCheaper : Item → Item → Type 0
  NoCheaper m x = AtMost number m.0 x.0

  before-AtMost : (x e : Item) → before number State x e ≡ true → AtMost number x.0 e.0
  before-AtMost x e h = ground (arith, lt_asymm x.0 e.0)

  not_before-AtMost : (x e : Item) → before number State x e ≡ false → AtMost number e.0 x.0
  not_before-AtMost x e h = ground arith

  first-AtMost : (e x : Item) → NoCheaper (first e x) e × NoCheaper (first e x) (second e x)
  first-AtMost e x = elim (Bool-cases (before number State x e)) [
    | inl b ↦ rw b (before-AtMost x e b, before-AtMost x e b)
    | inr b ↦ rw b (lt_irrefl e.0, not_before-AtMost x e b)
  ]

  pub pop_min-NoCheaper :
      (e : Item) (xs : List Item)
      → NoCheaper (pop_min number State e xs).0 e
        × All (NoCheaper (pop_min number State e xs).0) (pop_min number State e xs).1
  unfolding pop_min
  pop_min-NoCheaper e [] = (lt_irrefl e.0, tt)
  pop_min-NoCheaper e (x ∷ xs) =
      let (m, rest) = pop_min-NoCheaper (first e x) xs in
      let (under_e, under_second) = first-AtMost e x in
      (at_most_trans _ _ _ m under_e, (at_most_trans _ _ _ m under_second, rest))

  -- Two entries of one state have different costs.
  abbrev pub Differ : Item → Item → Type 0
  Differ x y = x.2 ≡ y.2 → (lt x.0 y.0 ≡ true) ⊎ (lt y.0 x.0 ≡ true)

  abbrev pub Apart : List Item → Type 0
  Apart [] = Unit
  Apart (x ∷ xs) = All (Differ x) xs × Apart xs

  Differ-symm : (x y : Item) → Differ x y → Differ y x
  Differ-symm x y h e = elim (h (sym e)) [ inl k ↦ inr k | inr k ↦ inl k ]

  Apart-choose :
      (b : Bool) (e x : Item) (xs : List Item)
      → Apart (e ∷ x ∷ xs)
      → Apart ((if b then x else e) ∷ (if b then e else x) ∷ xs)
  Apart-choose true e x xs h = ((Differ-symm e x h.0.0, h.1.0), (h.0.1, h.1.1))
  Apart-choose false e x xs h = h

  pub Apart-pop_min :
      (e : Item) (xs : List Item)
      → Apart (e ∷ xs)
      → Apart ((pop_min number State e xs).0 ∷ (pop_min number State e xs).1)
  unfolding pop_min
  Apart-pop_min e [] h = h
  Apart-pop_min e (x ∷ xs) h =
      let g = Apart-choose (before number State x e) e x xs h in
      let (m, rest) = Apart-pop_min (first e x) xs (g.0.1, g.1.1) in
      let others =
        All-pop_min (Differ (second e x)) (first e x) xs
          (Differ-symm (first e x) (second e x) g.0.0) g.1.0 in
      (
        (Differ-symm (second e x) (pop_min number State (first e x) xs).0 others.0, m),
        (others.1, rest),
      )
