-- ===== src/Common/Whitespace.antt =====
-- Rust's `char::is_whitespace`, the Unicode property White_Space, and `str::trim_start`.
use Prim.Native.Char.{Char}
use Prim.Native.String.{String}
use mathlib.Core.Bool.{Bool, ◌||◌}
use lclq.Common.Tests.{if◌then◌else◌}
use lclq.Common.Chars.{is_char, is_between}

is_whitespace : Char → Bool
is_whitespace c =
    is_between 9 13 c
    || is_char 32 c
    || is_char 133 c
    || is_char 160 c
    || is_char 5760 c
    || is_between 8192 8202 c
    || is_between 8232 8233 c
    || is_char 8239 c
    || is_char 8287 c
    || is_char 12288 c

unfoldable pub trim_start : String → String
unfolding is_whitespace
trim_start String.[] = ""
trim_start (String.◌∷◌ c s) =
    let rest = trim_start s in if is_whitespace c then rest else String.◌∷◌ c s
