-- ===== src/Common/Replace.antt =====
-- Rust's `strip_prefix`, `contains` and `replace` on texts: a match is taken at the leftmost place,
-- and the search goes on behind it.
use Prim.Native.Nat.{ℕ, zero, suc, ◌-◌}
use Prim.Native.Char.{Char, code}
use Prim.Native.String.{String, [], ◌∷◌, count}
use mathlib.Core.Path.{◌≡◌, ap, ◌∙◌}
use mathlib.Core.Bool.{Bool, ◌||◌}
use mathlib.Core.Option.{Option, none, some}
use text.Mathlib.TextLemmas.{nil-append, cons-append}
use lclq.Common.Tests.{◌==◌, if◌then◌else◌, is_some}
use lclq.Common.Text.{◌<>◌}

unfoldable pub strip_prefix : (prefix : String) → String → Option String
strip_prefix [] s = some s
strip_prefix (p ∷ prefix) [] = none
strip_prefix (p ∷ prefix) (c ∷ s) =
    let rest = strip_prefix prefix s in if code p == code c then rest else none

abbrev pub starts_with : (prefix : String) → String → Bool
unfolding strip_prefix
starts_with prefix s = is_some (strip_prefix prefix s)

unfoldable pub contains : (pattern : String) → String → Bool
unfolding strip_prefix
contains pattern [] = starts_with pattern []
contains pattern (c ∷ s) = let rest = contains pattern s in starts_with pattern (c ∷ s) || rest

-- The first argument counts the characters of a match that are still to be passed over.
unfoldable pub replace_from : ℕ → (pattern to : String) → String → String
unfolding strip_prefix
replace_from skip pattern to [] = ""
replace_from (suc skip) pattern to (c ∷ s) = replace_from skip pattern to s
replace_from zero pattern to (c ∷ s) =
    let matched = to <> replace_from (count pattern - 1) pattern to s in
    let rest = replace_from zero pattern to s in
    if starts_with pattern (c ∷ s) then matched else c ∷ rest

-- `replace` with a pattern that is not empty.
unfoldable pub replace : (pattern to : String) → String → String
unfolding replace_from
replace = replace_from zero

-- `replace` with a character as its pattern.
unfoldable pub replace_char : Char → (to : String) → String → String
replace_char p to [] = ""
replace_char p to (c ∷ s) =
    let rest = replace_char p to s in if code p == code c then to <> rest else c ∷ rest

-- `<>` by clauses, which computes at literals.
abbrev pub push : String → String → String
push [] t = t
push (c ∷ s) t = c ∷ push s t

pub append-push : (s t : String) → s <> t ≡ push s t
append-push [] t = nil-append t
append-push (c ∷ s) t = cons-append c s t ∙ ap (λ x. c ∷ x) (append-push s t)
