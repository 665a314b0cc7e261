-- ===== src/Common/Sorting.antt =====
-- `sort_by_key` on the entries of a map by their keys: the order of Rust's `str`, which on UTF-8 is
-- that of the code points, and an insertion sort, which is stable as Rust's sort is.
pub mod Order
use Prim.Native.Char.{Char, code}
use Prim.Native.String.{String}
use Prim.Native.String
use text.Mathlib.TextEquality.{Char-path}
use mathlib.Core.Logic.{◌≢◌}
use mathlib.Core.Path.{◌≡◌, refl, sym, ap, ◌∙◌}
use mathlib.Core.Bool.{Bool, true, false}
use mathlib.Core.List.{List, [], ◌∷◌}
use native.Mathlib.Omega.{arith}
use lclq.Common.Tests.{ltb, if◌then◌else◌}
use lclq.Common.HashMap.{HashMap, HasUniqueKeys, get}

unfoldable pub str_leb : String → String → Bool
str_leb String.[] t = true
str_leb (String.◌∷◌ c s) String.[] = false
str_leb (String.◌∷◌ c s) (String.◌∷◌ d t) =
    let rest = str_leb s t in
    if ltb (code c) (code d) then true else if ltb (code d) (code c) then false else rest

module _ {ℓ} {V : Type ℓ} where
  unfoldable pub insert_sorted : String × V → HashMap V → HashMap V
  insert_sorted e [] = e ∷ []
  insert_sorted e (x ∷ m) =
      let rest = insert_sorted e m in if str_leb (e.0) (x.0) then e ∷ x ∷ m else x ∷ rest

  unfoldable pub sort_by_key : HashMap V → HashMap V
  sort_by_key [] = []
  sort_by_key (e ∷ m) = insert_sorted e (sort_by_key m)

str_leb_total : (s t : String) → str_leb s t ≡ false → str_leb t s ≡ true
unfolding str_leb
str_leb_total String.[] t h = ground arith
str_leb_total (String.◌∷◌ c s) String.[] h = refl
str_leb_total (String.◌∷◌ c s) (String.◌∷◌ d t) h = ground (arith, str_leb_total s t)

str_leb_trans : (s t u : String) → str_leb s t ≡ true → str_leb t u ≡ true → str_leb s u ≡ true
unfolding str_leb
str_leb_trans String.[] t u h k = refl
str_leb_trans (String.◌∷◌ c s) String.[] u h k = ground arith
str_leb_trans (String.◌∷◌ c s) (String.◌∷◌ d t) String.[] h k = ground arith
str_leb_trans (String.◌∷◌ c s) (String.◌∷◌ d t) (String.◌∷◌ e u) h k =
    ground (arith, str_leb_trans s t u)

str_leb-antisym : (s t : String) → str_leb s t ≡ true → str_leb t s ≡ true → s ≡ t
unfolding str_leb
str_leb-antisym String.[] String.[] h k = refl
str_leb-antisym String.[] (String.◌∷◌ d t) h k = ground arith
str_leb-antisym (String.◌∷◌ c s) String.[] h k = ground arith
str_leb-antisym (String.◌∷◌ c s) (String.◌∷◌ d t) h k =
    cc (Char-path c d (ground arith), str_leb-antisym s t (ground arith) (ground arith))

module _ {ℓ} {V : Type ℓ} where
  pub insert_sorted_comm :
      (d e : String × V) (m : HashMap V)
      → d.0 ≢ e.0
      → insert_sorted d (insert_sorted e m) ≡ insert_sorted e (insert_sorted d m)
  unfolding insert_sorted
  insert_sorted_comm d e [] h =
      ground (arith, str_leb_total (d.0) (e.0), str_leb-antisym (d.0) (e.0))
  insert_sorted_comm d e (x ∷ m) h = ground (
    arith,
    insert_sorted_comm d e m h,
    str_leb_total (d.0) (e.0),
    str_leb-antisym (d.0) (e.0),
    str_leb_total (d.0) (x.0),
    str_leb_total (e.0) (x.0),
    str_leb_trans (d.0) (x.0) (e.0),
    str_leb_trans (e.0) (x.0) (d.0),
    str_leb_trans (d.0) (e.0) (x.0),
    str_leb_trans (e.0) (d.0) (x.0),
  )
