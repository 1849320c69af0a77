-- ===== src/Prelude/Lists.antt =====
-- Lists measured by native numbers, Boolean search and filtering, and predicates over a list.
use Prim.Native.Nat.{ℕ, zero, suc, ◌+◌, ◌≤◌}
use mathlib.Core.Path.{◌≡◌, refl}
use mathlib.Core.Logic.{inl, inr, ◌⊎◌}
use mathlib.Core.Bool.{Bool, true, false, ◌||◌}
use mathlib.Core.Option.{Option, none, some}
use mathlib.Core.List.{List, [], ◌∷◌, ◌++◌, map}
use native.Mathlib.Omega.{arith}
use metropulse.Prelude.Tests.{if◌then◌else◌, Comparable, ◌==◌, Bool-cases}

module _ {ℓ} {A : Type ℓ} where
  abbrev pub length : List A → ℕ
  length [] = 0
  length (x ∷ xs) = suc (length xs)

  -- xs[i], none where Python raises IndexError
  abbrev pub get_elem? : List A → ℕ → Option A
  get_elem? [] i = none
  get_elem? (x ∷ xs) zero = some x
  get_elem? (x ∷ xs) (suc i) = get_elem? xs i

  -- xs[n:]
  abbrev pub drop : ℕ → List A → List A
  drop zero xs = xs
  drop (suc n) [] = []
  drop (suc n) (x ∷ xs) = drop n xs

  -- xs[:n]
  abbrev pub take : ℕ → List A → List A
  take zero xs = []
  take (suc n) [] = []
  take (suc n) (x ∷ xs) = x ∷ take n xs

  -- [x for x in xs if p(x)]
  abbrev pub filter : (A → Bool) → List A → List A
  filter p [] = []
  filter p (x ∷ xs) = let rest = filter p xs in if p x then x ∷ rest else rest

  -- any(p(x) for x in xs)
  abbrev pub any : (A → Bool) → List A → Bool
  any p [] = false
  any p (x ∷ xs) = p x || any p xs

  -- xs[-1]
  abbrev pub get_last? : List A → Option A
  get_last? [] = none
  get_last? (x ∷ []) = some x
  get_last? (x ∷ y ∷ xs) = get_last? (y ∷ xs)

  pub length-append : (xs ys : List A) → length (xs ++ ys) ≡ length xs + length ys
  length-append [] ys = omega arith
  length-append (x ∷ xs) ys = omega (arith, length-append xs ys)

  pub length-filter-le : (p : A → Bool) (xs : List A) → length (filter p xs) ≤ length xs
  length-filter-le p [] = omega arith
  length-filter-le p (x ∷ xs) = ground (arith, length-filter-le p xs)

  pub filter-append :
      (p : A → Bool) (xs ys : List A) → filter p (xs ++ ys) ≡ filter p xs ++ filter p ys
  filter-append p [] ys = refl
  filter-append p (x ∷ xs) ys = ground (arith, filter-append p xs ys)

module _ {ℓ} {A : Type ℓ} where
  pub get_last?-snoc : (xs : List A) (x : A) → get_last? (xs ++ x ∷ []) ≡ some x
  get_last?-snoc [] x = refl
  get_last?-snoc (a ∷ []) x = refl
  get_last?-snoc (a ∷ b ∷ xs) x = get_last?-snoc (b ∷ xs) x

-- every element satisfies the predicate
abbrev pub All {ℓ κ} : {A : Type ℓ} → (A → Type κ) → List A → Type κ
All P [] = Unit
All P (x ∷ xs) = P x × All P xs

module _ {ℓ κ} {A : Type ℓ} (P : A → Type κ) where
  pub All-append : (xs ys : List A) → All P xs → All P ys → All P (xs ++ ys)
  All-append [] ys h k = k
  All-append (x ∷ xs) ys h k = (h.0, All-append xs ys h.1 k)

  pub All-filter : (p : A → Bool) (xs : List A) → All P xs → All P (filter p xs)
  All-filter p [] h = h
  All-filter p (x ∷ xs) h = elim (Bool-cases (p x)) [
    | inl e ↦ rw e (h.0, All-filter p xs h.1)
    | inr e ↦ rw e (All-filter p xs h.1)
  ]

-- some element satisfies the predicate, with its place
abbrev pub Any {ℓ} : {A : Type ℓ} → (A → Type 0) → List A → Type 0
Any P [] = ⊥
Any P (x ∷ xs) = P x ⊎ Any P xs

module _ {ℓ} {A : Type ℓ} (P : A → Type 0) where
  pub Any-append_left : (xs ys : List A) → Any P xs → Any P (xs ++ ys)
  Any-append_left [] ys h = elim h [ ]
  Any-append_left (x ∷ xs) ys (inl p) = inl p
  Any-append_left (x ∷ xs) ys (inr h) = inr (Any-append_left xs ys h)

  pub Any-append_right : (xs ys : List A) → Any P ys → Any P (xs ++ ys)
  Any-append_right [] ys h = h
  Any-append_right (x ∷ xs) ys h = inr (Any-append_right xs ys h)

  pub Any-map : (Q : A → Type 0) → ((x : A) → P x → Q x) → (xs : List A) → Any P xs → Any Q xs
  Any-map Q f [] h = elim h [ ]
  Any-map Q f (x ∷ xs) (inl p) = inl (f x p)
  Any-map Q f (x ∷ xs) (inr h) = inr (Any-map Q f xs h)

module _ {ℓ κ} {A : Type ℓ} (P : A → Type κ) where
  pub All-map {μ} : (Q : A → Type μ) → ((x : A) → P x → Q x) → (xs : List A) → All P xs → All Q xs
  All-map Q f [] h = tt
  All-map Q f (x ∷ xs) h = (f x h.0, All-map Q f xs h.1)

pub All-at {κ} :
    {A : Type 0} (P : A → Type κ) (Q : A → Type 0) (xs : List A)
    → All P xs
    → Any Q xs
    → (x : A) × P x × Q x
All-at P Q [] h k = elim k [ ]
All-at P Q (x ∷ xs) h (inl q) = (x, h.0, q)
All-at P Q (x ∷ xs) h (inr k) = All-at P Q xs h.1 k

pub All-zip {ℓ κ μ ν} :
    {A : Type ℓ} (P : A → Type κ) (Q : A → Type μ) (R : A → Type ν)
    → ((x : A) → P x → Q x → R x)
    → (xs : List A) → All P xs
    → All Q xs
    → All R xs
All-zip P Q R f [] h k = tt
All-zip P Q R f (x ∷ xs) h k = (f x h.0 k.0, All-zip P Q R f xs h.1 k.1)

-- of the elements one by one, each with its place
pub All-of_each {κ} :
    {A : Type 0} (P : A → Type κ) (xs : List A) → ((x : A) → Any (λ y. x ≡ y) xs → P x) → All P xs
All-of_each P [] f = tt
All-of_each P (x ∷ xs) f = (f x (inl refl), All-of_each P xs (λ y h. f y (inr h)))

pub or_right : (x : Bool) {y : Bool} → y ≡ true → (x || y) ≡ true
or_right true h = refl
or_right false h = h

pub or_left : (x y : Bool) → x ≡ true → (x || y) ≡ true
or_left true y h = refl
or_left false y h = cc

pub or_false : (x y : Bool) → (x || y) ≡ false → (x ≡ false) × (y ≡ false)
or_false true y h = cc
or_false false y h = (refl, h)

-- x in xs
module _ {ℓ} {A : Type ℓ} ⦃e : Comparable A⦄ where
  abbrev pub contains : A → List A → Bool
  contains a [] = false
  contains a (x ∷ xs) = x == a || contains a xs

  pub contains-append :
      (a : A) (xs ys : List A) → contains a (xs ++ ys) ≡ (contains a xs || contains a ys)
  contains-append a [] ys = refl
  contains-append a (x ∷ xs) ys = ground (arith, contains-append a xs ys)

  -- no element twice
  abbrev pub Distinct : List A → Type 0
  Distinct [] = Unit
  Distinct (x ∷ xs) = (contains x xs ≡ false) × Distinct xs

module _ {ℓ} {A : Type ℓ} (P : A → Type 0) where
  pub Any-append : (xs ys : List A) → Any P (xs ++ ys) → Any P xs ⊎ Any P ys
  Any-append [] ys h = inr h
  Any-append (x ∷ xs) ys (inl p) = inl (inl p)
  Any-append (x ∷ xs) ys (inr h) = elim (Any-append xs ys h) [ inl k ↦ inl (inr k) | inr k ↦ inr k ]

module _ {ℓ κ} {A : Type ℓ} {B : Type κ} (f : A → B) (P : B → Type 0) where
  pub Any-of_map : (xs : List A) → Any P (map f xs) → Any (λ x. P (f x)) xs
  Any-of_map [] h = elim h [ ]
  Any-of_map (x ∷ xs) (inl p) = inl p
  Any-of_map (x ∷ xs) (inr h) = inr (Any-of_map xs h)

  pub Any-to_map : (xs : List A) → Any (λ x. P (f x)) xs → Any P (map f xs)
  Any-to_map [] h = elim h [ ]
  Any-to_map (x ∷ xs) (inl p) = inl p
  Any-to_map (x ∷ xs) (inr h) = inr (Any-to_map xs h)

-- an element that satisfies the predicate
pub Any-element :
    {A : Type 0} (P : A → Type 0) (xs : List A) → Any P xs → (x : A) × Any (λ y. y ≡ x) xs × P x
Any-element P [] h = elim h [ ]
Any-element P (x ∷ xs) (inl p) = (x, inl refl, p)
Any-element P (x ∷ xs) (inr h) = let (y, is_in, p) = Any-element P xs h in (y, inr is_in, p)
