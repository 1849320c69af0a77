-- ===== src/Realtime/Store/Parts.antt =====
-- What applying and caching leave of each hash (src/metropulse/infrastructure/redis/vehicle_store.py).
use metropulse.Prelude.{
  String, ◌≡◌, refl, ap, Bool, true, false, Option, none, some, List, [], ◌∷◌, if◌then◌else◌,
  comparable_string, key_cases, inl, inr,
}
use metropulse.Prelude.Dict.{Dict, keys, lookup}
use metropulse.Realtime.Store.{VehicleStore, apply, assembled, cache_train_states, hdel, hset}
use metropulse.Realtime.Store.Applied.{or_else}

abbrev pub is_some : {A : Type 0} → Option A → Bool
is_some none = false
is_some (some a) = true

abbrev pub apply_to : {A B : Type 0} → (A → B) → Option A → Option B
apply_to f none = none
apply_to f (some a) = some (f a)

module _ {Position Train : Type 0} where
  pub apply-vehicles :
      (upserts : Dict String Position) (removed : List String) (store : VehicleStore Position Train)
      → (apply upserts removed store).vehicles ≡ hdel removed (hset upserts store.vehicles)
  unfolding apply hset hdel
  apply-vehicles [] [] store = refl
  apply-vehicles [] (k ∷ ks) store = refl
  apply-vehicles (e ∷ es) removed store = refl

  pub apply-trains :
      (upserts : Dict String Position) (removed : List String) (store : VehicleStore Position Train)
      → (apply upserts removed store).trains ≡ hdel removed store.trains
  unfolding apply hset hdel
  apply-trains [] [] store = refl
  apply-trains [] (k ∷ ks) store = refl
  apply-trains (e ∷ es) removed store = refl

  pub cache-trains :
      (states : Dict String Train) (removed : List String) (store : VehicleStore Position Train)
      → (cache_train_states states removed store).trains ≡ hdel removed (hset states store.trains)
  unfolding cache_train_states hset hdel
  cache-trains [] [] store = refl
  cache-trains [] (k ∷ ks) store = refl
  cache-trains (e ∷ es) removed store = refl

  pub apply-rest :
      (upserts : Dict String Position) (removed : List String) (store : VehicleStore Position Train)
      → ((apply upserts removed store).sequence ≡ store.sequence)
        × ((apply upserts removed store).updates ≡ store.updates)
  unfolding apply
  apply-rest [] [] store = (refl, refl)
  apply-rest [] (k ∷ ks) store = (refl, refl)
  apply-rest (e ∷ es) removed store = (refl, refl)

  pub cache-rest :
      (states : Dict String Train) (removed : List String) (store : VehicleStore Position Train)
      → ((cache_train_states states removed store).vehicles ≡ store.vehicles)
        × ((cache_train_states states removed store).sequence ≡ store.sequence)
        × ((cache_train_states states removed store).updates ≡ store.updates)
  unfolding cache_train_states
  cache-rest [] [] store = (refl, refl, refl)
  cache-rest [] (k ∷ ks) store = (refl, refl, refl)
  cache-rest (e ∷ es) removed store = (refl, refl, refl)

  pub keys-assembled :
      (f : Position → Train) (d : Dict String Position) → keys (assembled f d) ≡ keys d
  unfolding assembled
  keys-assembled f [] = refl
  keys-assembled f ((k, p) ∷ d) = ap (λ (ks : List String). k ∷ ks) (keys-assembled f d)

  pub lookup-assembled :
      (f : Position → Train) (v : String) (d : Dict String Position)
      → lookup v (assembled f d) ≡ apply_to f (lookup v d)
  unfolding assembled
  lookup-assembled f v [] = refl
  lookup-assembled f v ((k, p) ∷ d) = elim (key_cases k v) [
    | inl same ↦ rw ((comparable_string.equal_iff k v).1 same) refl
    | inr other ↦ rw other (lookup-assembled f v d)
  ]

  pub present :
      (f : Position → Train) (gone : Bool) (changed old : Option Position) (train : Option Train)
      → is_some train ≡ is_some old
      → is_some (if gone then none else or_else (apply_to f changed) (if gone then none else train))
        ≡ is_some (if gone then none else or_else changed old)
  present f true changed old train h = refl
  present f false none old train h = h
  present f false (some p) old train h = refl
