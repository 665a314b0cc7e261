-- ===== src/Common/Sorting/Order.antt =====
-- About sorting by keys: entries in another order.
use mathlib.Core.Path.{◌≡◌, refl, sym, ap, ◌∙◌}
use mathlib.Core.Logic.{◌≢◌}
use mathlib.Core.Option.{none}
use mathlib.Core.List.{◌∷◌, Permᴰ}
use native.Mathlib.Omega.{arith}
use text.Mathlib.TextEquality.{eq_iff}
use text.Mathlib.Text.{◌==◌ as str_eq}
use Prim.Native.String.{String}
use lclq.Common.HashMap.{HashMap, HasUniqueKeys, get}
use lclq.Common.Sorting.{sort_by_key, insert_sorted_comm}

module _ {ℓ} {V : Type ℓ} where
  get-Perm_none : (k : String) {m n : HashMap V} → Permᴰ m n → get k m ≡ none → get k n ≡ none
  unfolding get
  get-Perm_none k Permᴰ.nil h = h
  get-Perm_none k (Permᴰ.cons {a = a} {b = b} e p) h =
      ground (arith, get-Perm_none k p, ap (λ x. str_eq (x.0) k) e)
  get-Perm_none k (Permᴰ.swap {a = a} {b = b} {a' = c} {b' = d} e f) h =
      ground (arith, ap (λ x. str_eq (x.0) k) e, ap (λ x. str_eq (x.0) k) f)
  get-Perm_none k (Permᴰ.trans p q) h = get-Perm_none k q (get-Perm_none k p h)

  HasUniqueKeys-Perm : {m n : HashMap V} → Permᴰ m n → HasUniqueKeys m → HasUniqueKeys n
  unfolding get
  HasUniqueKeys-Perm Permᴰ.nil u = u
  HasUniqueKeys-Perm (Permᴰ.cons {b = b} {l₂ = n} e p) u =
      (ap (λ x. get (x.0) n) (sym e) ∙ get-Perm_none _ p (u.0), HasUniqueKeys-Perm p (u.1))
  HasUniqueKeys-Perm (Permᴰ.swap {a = a} {b = b} {a' = c} {b' = d} {l = l} e f) u = ground (
    arith,
    eq_iff (a.0) (b.0),
    eq_iff (c.0) (d.0),
    eq_iff (d.0) (c.0),
    ap (λ x. x.0) e,
    ap (λ x. x.0) f,
    ap (λ x. get (x.0) l) e,
    ap (λ x. get (x.0) l) f,
  )
  HasUniqueKeys-Perm (Permᴰ.trans p q) u = HasUniqueKeys-Perm q (HasUniqueKeys-Perm p u)

  different : (a b : String × V) (l : HashMap V) → HasUniqueKeys (a ∷ b ∷ l) → a.0 ≢ b.0
  unfolding get
  different a b l u e = ground (arith, eq_iff (b.0) (a.0))

  -- The order of the entries of a map with unique keys does not show in its sorted list.
  pub sort_by_key-Perm :
      {m n : HashMap V} → Permᴰ m n → HasUniqueKeys m → sort_by_key m ≡ sort_by_key n
  unfolding sort_by_key
  sort_by_key-Perm Permᴰ.nil u = refl
  sort_by_key-Perm (Permᴰ.cons e p) u = cc (e, sort_by_key-Perm p (u.1))
  sort_by_key-Perm (Permᴰ.swap {a = a} {b = b} {l = l} e f) u =
      insert_sorted_comm a b (sort_by_key l) (different a b l u) ∙ cc (e, f)
  sort_by_key-Perm (Permᴰ.trans p q) u =
      sort_by_key-Perm p u ∙ sort_by_key-Perm q (HasUniqueKeys-Perm p u)
