-- ===== src/Realtime/Snapshot/Sorted.antt =====
-- Python's `sorted` on strings (src/metropulse/application/snapshot.py).
use Prim.Native.String.{String, compare}
use Prim.Native.Nat.{Ordering}
use metropulse.Prelude.{
  ◌≡◌, refl, ◌∙◌, ap, Bool, true, false, ◌||◌, List, [], ◌∷◌, if◌then◌else◌, ◌==◌,
  comparable_string, contains, arith,
}

-- the order of the code points
abbrev pub follows : String → String → Bool
follows s t = elim (compare s t) [ Ordering.gt ↦ true | _ ↦ false ]

unfoldable pub place : String → List String → List String
place s [] = s ∷ []
place s (t ∷ ts) = let rest = place s ts in if follows s t then t ∷ rest else s ∷ t ∷ ts

unfoldable pub sorted : List String → List String
sorted [] = []
sorted (s ∷ ss) = place s (sorted ss)

contains-place :
    (v s : String) (ts : List String) → contains v (place s ts) ≡ (s == v || contains v ts)
unfolding place
contains-place v s [] = refl
contains-place v s (t ∷ ts) = ground (arith, contains-place v s ts)

pub contains-sorted : (v : String) (ss : List String) → contains v (sorted ss) ≡ contains v ss
unfolding sorted
contains-sorted v [] = refl
contains-sorted v (s ∷ ss) =
    contains-place v s (sorted ss) ∙ ap (λ (b : Bool). s == v || b) (contains-sorted v ss)
