-- ===== src/Common/Split.antt =====
-- Rust's `split(':')`: the pieces between the colons, one more than there are colons.
use Prim.Native.Char.{Char}
use Prim.Native.String.{String}
use mathlib.Core.Path.{◌≡◌, refl}
use mathlib.Core.Bool.{Bool, true, not}
use mathlib.Core.List.{List, [], ◌∷◌}
use native.Mathlib.Omega.{arith}
use text.Mathlib.TextLemmas.{nil-append, cons-append}
use lclq.Common.Chars.{is_char, all_chars}
use lclq.Common.Tests.{if◌then◌else◌}
use lclq.Common.Text.{◌<>◌}

-- A character in front of the first piece.
abbrev pub push_front : Char → List String → List String
push_front c [] = String.◌∷◌ c "" ∷ []
push_front c (part ∷ parts) = String.◌∷◌ c part ∷ parts

unfoldable pub split_colon : String → List String
split_colon String.[] = "" ∷ []
split_colon (String.◌∷◌ c s) =
    let rest = split_colon s in if is_char b':' c then "" ∷ rest else push_front c rest

abbrev pub has_no_colon : String → Bool
has_no_colon = all_chars (λ c. not (is_char b':' c))

pub split_colon-part : (s : String) → has_no_colon s ≡ true → split_colon s ≡ s ∷ []
unfolding split_colon all_chars
split_colon-part String.[] h = refl
split_colon-part (String.◌∷◌ c s) h = ground (arith, split_colon-part s)

pub split_colon-append :
    (s t : String) → has_no_colon s ≡ true → split_colon (s <> ":" <> t) ≡ s ∷ split_colon t
unfolding split_colon all_chars
split_colon-append String.[] t h =
    rw (nil-append (":" <> t), cons-append ":" "" t, nil-append t) refl
split_colon-append (String.◌∷◌ c s) t h =
    rw (cons-append c s (":" <> t)) (ground (arith, split_colon-append s t))
