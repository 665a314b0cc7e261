-- ===== src/Common/Entries.antt =====
-- Hash maps entry by entry: predicates on all entries, and maps whose entries stand in two parts.
use mathlib.Core.List.{[], ◌∷◌, ◌++◌}
use lclq.Common.{String, ◌≡◌, refl, none, some, arith, eq_iff}
use lclq.Common.HashMap.{HashMap, HasUniqueKeys, get, insert, remove}

module _ {ℓ κ} {V : Type ℓ} where
  -- A predicate on the keys with their values.
  abbrev pub AllEntries : (String → V → Type κ) → HashMap V → Type κ
  AllEntries P [] = Unit
  AllEntries P ((k, v) ∷ m) = P k v × AllEntries P m

  pub AllEntries-get :
      (P : String → V → Type κ) (k : String) (m : HashMap V) (v : V)
      → AllEntries P m
      → get k m ≡ some v
      → P k v
  unfolding get
  AllEntries-get P k [] v a h = cc
  AllEntries-get P k ((j, w) ∷ m) v a h = ground (arith, eq_iff j k, AllEntries-get P k m v a.1)

  pub AllEntries-insert :
      (P : String → V → Type κ) (k : String) (v : V) (m : HashMap V)
      → P k v
      → AllEntries P m
      → AllEntries P (insert k v m)
  unfolding insert
  AllEntries-insert P k v [] p a = (p, tt)
  AllEntries-insert P k v ((j, w) ∷ m) p a = ground (arith, AllEntries-insert P k v m p a.1)

  pub AllEntries-remove :
      (P : String → V → Type κ) (k : String) (m : HashMap V)
      → AllEntries P m
      → AllEntries P (remove k m)
  unfolding remove
  AllEntries-remove P k [] a = tt
  AllEntries-remove P k ((j, w) ∷ m) a = ground (arith, AllEntries-remove P k m a.1)

module _ {ℓ} {V : Type ℓ} (k : String) (v : V) where
  -- In a map with unique keys, an entry is found wherever it stands.
  pub get-append_entry :
      (front back : HashMap V)
      → HasUniqueKeys (front ++ (k, v) ∷ back)
      → get k (front ++ (k, v) ∷ back) ≡ some v
  unfolding get
  get-append_entry [] back u = ground (arith, eq_iff k k)
  get-append_entry ((j, w) ∷ front) back u =
      ground (arith, eq_iff j k, get-append_entry front back u.1)

  remove-none : (m : HashMap V) → get k m ≡ none → remove k m ≡ m
  unfolding get remove
  remove-none [] h = refl
  remove-none ((j, w) ∷ m) h = ground (arith, remove-none m)

  pub remove-append_entry :
      (front back : HashMap V)
      → HasUniqueKeys (front ++ (k, v) ∷ back)
      → remove k (front ++ (k, v) ∷ back) ≡ front ++ back
  unfolding remove
  remove-append_entry [] back u = ground (arith, eq_iff k k, remove-none back u.0)
  remove-append_entry ((j, w) ∷ front) back u =
      ground
        (arith, eq_iff j k, get-append_entry front back u.1, remove-append_entry front back u.1)

  get-append_none :
      (j : String) (front back : HashMap V)
      → get j (front ++ (k, v) ∷ back) ≡ none
      → get j (front ++ back) ≡ none
  unfolding get
  get-append_none j [] back h = ground arith
  get-append_none j ((i, w) ∷ front) back h = ground (arith, get-append_none j front back)

  pub HasUniqueKeys-drop_entry :
      (front back : HashMap V)
      → HasUniqueKeys (front ++ (k, v) ∷ back)
      → HasUniqueKeys (front ++ back)
  HasUniqueKeys-drop_entry [] back u = u.1
  HasUniqueKeys-drop_entry ((j, w) ∷ front) back u =
      (get-append_none j front back u.0, HasUniqueKeys-drop_entry front back u.1)
