-- ===== src/Sqs/Escape/Safe.antt =====
-- About the XML entities of sqs/response.rs: what escaped text cannot hold.
use Prim.Native.Char.{Char}
use lclq.Common.{String, ◌≡◌, refl, Bool, true, not, ◌&&◌, arith}
use lclq.Common.Chars.{is_char, all_chars}
use lclq.Common.Replace.{push}
use lclq.Sqs.Escape.{escape_xml}
use lclq.Sqs.Escape.Pieces.{flat, piece, entities₅, by_cases, escape_xml-flat}

-- A character that neither opens nor closes a tag nor ends a quoted text.
abbrev pub is_safe : Char → Bool
is_safe c =
    not (is_char b'<' c) && not (is_char b'>' c) && not (is_char b'"' c) && not (is_char b'\'' c)

all_chars-push :
    (s t : String)
    → all_chars is_safe s ≡ true
    → all_chars is_safe t ≡ true
    → all_chars is_safe (push s t) ≡ true
unfolding all_chars
all_chars-push String.[] t h k = k
all_chars-push (String.◌∷◌ c s) t h k = ground (arith, all_chars-push s t)

piece-safe : (c : Char) → all_chars is_safe (piece entities₅ c) ≡ true
unfolding all_chars
piece-safe =
    by_cases (λ c. all_chars is_safe (piece entities₅ c) ≡ true) refl refl refl refl refl
      (λ c n. ground arith)

flat-safe : (s : String) → all_chars is_safe (flat (piece entities₅) s) ≡ true
unfolding all_chars
flat-safe String.[] = refl
flat-safe (String.◌∷◌ c s) = all_chars-push (piece entities₅ c) _ (piece-safe c) (flat-safe s)

-- An escaped text holds none of the four characters that end a text or an attribute of XML.
pub escape_xml-safe : (s : String) → all_chars is_safe (escape_xml s) ≡ true
escape_xml-safe s = rw (escape_xml-flat s) (flat-safe s)
