-- ===== src/Common/HashMap.antt =====
-- Rust's `HashMap<String, V>` as an association list. The order of the entries is the order in
-- which the map is iterated, which the source leaves open: the lemmas hold for each.
use Prim.Native.Nat.{suc}
use Prim.Native.String.{String}
use mathlib.Core.Path.{◌≡◌, refl}
use mathlib.Core.Bool.{Bool, true}
use mathlib.Core.Option.{Option, none, some}
use mathlib.Core.List.{List, [], ◌∷◌, map}
use native.Mathlib.Omega.{arith}
use text.Mathlib.Text.{◌==◌ as str_eq}
use text.Mathlib.TextEquality.{eq_iff}
use text.Mathlib.TextPositions.{eq_refl}
use lclq.Common.Tests.{if◌then◌else◌, is_some}
use lclq.Common.Lists.{length}

abbrev pub HashMap {ℓ} : Type ℓ → Type ℓ
HashMap V = List (String × V)

module _ {ℓ} {V : Type ℓ} where
  unfoldable pub get : String → HashMap V → Option V
  get k [] = none
  get k ((j, v) ∷ m) = if str_eq j k then some v else get k m

  unfoldable pub insert : String → V → HashMap V → HashMap V
  insert k v [] = (k, v) ∷ []
  insert k v ((j, w) ∷ m) = if str_eq j k then (k, v) ∷ m else (j, w) ∷ insert k v m

  unfoldable pub remove : String → HashMap V → HashMap V
  remove k [] = []
  remove k ((j, v) ∷ m) = if str_eq j k then remove k m else (j, v) ∷ remove k m

  unfoldable pub retain : (V → Bool) → HashMap V → HashMap V
  retain p [] = []
  retain p ((j, v) ∷ m) = if p v then (j, v) ∷ retain p m else retain p m

  abbrev pub contains_key : String → HashMap V → Bool
  contains_key k m = is_some (get k m)

  abbrev pub values : HashMap V → List V
  values = map (λ e. e.1)

  -- No key stands twice, as in a `HashMap`.
  abbrev pub HasUniqueKeys : HashMap V → Type ℓ
  HasUniqueKeys [] = Unit
  HasUniqueKeys ((k, v) ∷ m) = (get k m ≡ none) × HasUniqueKeys m

module _ {ℓ} {V : Type ℓ} where
  pub get-insert :
      (k j : String) (v : V) (m : HashMap V)
      → get j (insert k v m) ≡ (if str_eq k j then some v else get j m)
  unfolding get insert
  get-insert k j v [] = refl
  get-insert k j v ((i, w) ∷ m) =
      ground (arith, eq_iff k j, eq_iff i k, eq_iff i j, get-insert k j v m)

  pub get-remove :
      (k j : String) (m : HashMap V) → get j (remove k m) ≡ (if str_eq k j then none else get j m)
  unfolding get remove
  get-remove k j [] = ground arith
  get-remove k j ((i, w) ∷ m) = ground (arith, eq_iff k j, eq_iff i k, eq_iff i j, get-remove k j m)

  pub get-retain-none :
      (p : V → Bool) (k : String) (m : HashMap V) → get k m ≡ none → get k (retain p m) ≡ none
  unfolding get retain
  get-retain-none p k [] h = refl
  get-retain-none p k ((j, v) ∷ m) h = ground (arith, get-retain-none p k m)

  pub insert-HasUniqueKeys :
      (k : String) (v : V) (m : HashMap V) → HasUniqueKeys m → HasUniqueKeys (insert k v m)
  unfolding insert get
  insert-HasUniqueKeys k v [] u = (refl, tt)
  insert-HasUniqueKeys k v ((j, w) ∷ m) u =
      ground (arith, eq_iff j k, eq_iff k j, get-insert k j v m, insert-HasUniqueKeys k v m u.1)

  pub remove-HasUniqueKeys :
      (k : String) (m : HashMap V) → HasUniqueKeys m → HasUniqueKeys (remove k m)
  unfolding remove
  remove-HasUniqueKeys k [] u = tt
  remove-HasUniqueKeys k ((j, w) ∷ m) u =
      ground (arith, get-remove k j m, remove-HasUniqueKeys k m u.1)

  pub retain-HasUniqueKeys :
      (p : V → Bool) (m : HashMap V) → HasUniqueKeys m → HasUniqueKeys (retain p m)
  unfolding retain
  retain-HasUniqueKeys p [] u = tt
  retain-HasUniqueKeys p ((j, w) ∷ m) u =
      ground (arith, get-retain-none p j m, retain-HasUniqueKeys p m u.1)

  pub remove_of_none : (k : String) (m : HashMap V) → get k m ≡ none → remove k m ≡ m
  unfolding get remove
  remove_of_none k [] h = refl
  remove_of_none k ((j, v) ∷ m) h = ground (arith, remove_of_none k m)

  pub length-remove :
      (k : String) (m : HashMap V) (v : V)
      → HasUniqueKeys m
      → get k m ≡ some v
      → length m ≡ suc (length (remove k m))
  unfolding get remove
  length-remove k [] v u h = ground arith
  length-remove k ((j, w) ∷ m) v u h =
      ground (arith, eq_iff j k, remove_of_none k m, length-remove k m v u.1)

  pub length-insert_new :
      (k : String) (v : V) (m : HashMap V) → get k m ≡ none → length (insert k v m) ≡ suc (length m)
  unfolding get insert
  length-insert_new k v [] h = refl
  length-insert_new k v ((j, w) ∷ m) h = ground (arith, length-insert_new k v m)

  pub get-insert_self : (k : String) (v : V) (m : HashMap V) → get k (insert k v m) ≡ some v
  get-insert_self k v m = simp (get-insert, eq_refl)

  pub get-remove_self : (k : String) (m : HashMap V) → get k (remove k m) ≡ none
  get-remove_self k m = simp (get-remove, eq_refl)

module _ {ℓ} {V : Type ℓ} where
  pub get-retain :
      (p : V → Bool) (k : String) (v : V) (m : HashMap V)
      → HasUniqueKeys m
      → get k m ≡ some v
      → p v ≡ true
      → get k (retain p m) ≡ some v
  unfolding get retain
  get-retain p k v [] u h t = cc
  get-retain p k v ((j, w) ∷ m) u h t = ground (arith, eq_iff j k, get-retain p k v m u.1)

pub ruleset map_laws = (get-insert, get-remove, get-insert_self, get-remove_self, eq_refl)
