-- ===== src/Sqs/Escape/Pieces.antt =====
-- About `escape_xml` of sqs/response.rs: an escaped text as a piece for each character.
use Prim.Native.Char.{Char, code}
use mathlib.Core.Path.{subst}
use text.Mathlib.TextEquality.{Char-path}
use lclq.Common.{
  String, ◌≡◌, refl, sym, ap, ◌∙◌, Bool, true, false, inl, inr, List, [], ◌∷◌, arith, ◌==◌,
  if◌then◌else◌, Bool-cases,
}
use lclq.Common.Replace.{replace, replace_char, push, append-push}
use lclq.Sqs.Escape.{escape_xml}

-- A text with each character replaced by a piece.
abbrev pub flat : (Char → String) → String → String
flat piece String.[] = ""
flat piece (String.◌∷◌ c s) = push (piece c) (flat piece s)

abbrev pub Table : Type 0
Table = List (Char × String)

-- The piece of a character: its entity, if the table has one.
abbrev pub piece : Table → Char → String
piece [] c = String.◌∷◌ c ""
piece ((d, entity) ∷ table) c = if code d == code c then entity else piece table c

abbrev pub entities₁ : Table
entities₁ = ("&", "&amp;") ∷ []

abbrev pub entities₂ : Table
entities₂ = (">", "&gt;") ∷ entities₁

abbrev pub entities₃ : Table
entities₃ = ("<", "&lt;") ∷ entities₂

abbrev pub entities₄ : Table
entities₄ = ("'", "&apos;") ∷ entities₃

abbrev pub entities₅ : Table
entities₅ = ("\"", "&quot;") ∷ entities₄

-- The tables that escaping passes through, which takes the entities in another order.
abbrev written₁ : Table
written₁ = ("&", "&amp;") ∷ []

abbrev written₂ : Table
written₂ = ("<", "&lt;") ∷ written₁

abbrev written₃ : Table
written₃ = (">", "&gt;") ∷ written₂

abbrev written₄ : Table
written₄ = ("\"", "&quot;") ∷ written₃

push_assoc : (s t u : String) → push (push s t) u ≡ push s (push t u)
push_assoc String.[] t u = refl
push_assoc (String.◌∷◌ c s) t u = ap (String.◌∷◌ c) (push_assoc s t u)

replace_char-push :
    (p : Char) (to s t : String)
    → replace_char p to (push s t) ≡ push (replace_char p to s) (replace_char p to t)
unfolding replace_char
replace_char-push p to String.[] t = refl
replace_char-push p to (String.◌∷◌ c s) t = ground (
  arith,
  replace_char-push p to s t,
  append-push to (replace_char p to (push s t)),
  append-push to (replace_char p to s),
  push_assoc to (replace_char p to s) (replace_char p to t),
)

replace_char-flat :
    (p : Char) (to : String) (f g : Char → String)
    → ((c : Char) → replace_char p to (f c) ≡ g c)
    → (s : String) → replace_char p to (flat f s) ≡ flat g s
unfolding replace_char
replace_char-flat p to f g h String.[] = refl
replace_char-flat p to f g h (String.◌∷◌ c s) =
    replace_char-push p to (f c) (flat f s) ∙ cc (h c, replace_char-flat p to f g h s)

pub flat_self : (s : String) → flat (piece []) s ≡ s
flat_self String.[] = refl
flat_self (String.◌∷◌ c s) = ap (String.◌∷◌ c) (flat_self s)

pub step :
    (pattern to : String) (f g : Char → String)
    → ((c : Char) (rest : String)
        → replace pattern to (push (f c) rest) ≡ push (g c) (replace pattern to rest))
    → (s : String) → replace pattern to (flat f s) ≡ flat g s
unfolding replace
step pattern to f g h String.[] = refl
step pattern to f g h (String.◌∷◌ c s) = h c (flat f s) ∙ ap (push (g c)) (step pattern to f g h s)

abbrev is : Char → Char → Bool
is d c = code d == code c

abbrev IsPlain : Char → Type 0
IsPlain c =
    (is "&" c ≡ false)
    × (is ">" c ≡ false)
    × (is "<" c ≡ false)
    × (is "'" c ≡ false)
    × (is "\"" c ≡ false)

same : (d c : Char) → is d c ≡ true → d ≡ c
same d c e = Char-path d c (ground arith)

-- A character that has an entity is known, any other fails each test.
pub by_cases :
    (P : Char → Type 0)
    → P "&"
    → P ">"
    → P "<"
    → P "'"
    → P "\""
    → ((c : Char) → IsPlain c → P c)
    → (c : Char) → P c
by_cases P amp gt lt apos quot plain c = elim (Bool-cases (is "&" c)) [
  | inl e ↦ subst P (same "&" c e) amp
  | inr n₁ ↦ elim (Bool-cases (is ">" c)) [
    | inl e ↦ subst P (same ">" c e) gt
    | inr n₂ ↦ elim (Bool-cases (is "<" c)) [
      | inl e ↦ subst P (same "<" c e) lt
      | inr n₃ ↦ elim (Bool-cases (is "'" c)) [
        | inl e ↦ subst P (same "'" c e) apos
        | inr n₄ ↦ elim (Bool-cases (is "\"" c)) [
          | inl e ↦ subst P (same "\"" c e) quot
          | inr n₅ ↦ plain c (n₁, n₂, n₃, n₄, n₅)
        ]
      ]
    ]
  ]
]

do_amp : (c : Char) → replace_char "&" "&amp;" (piece [] c) ≡ piece written₁ c
unfolding replace_char
do_amp =
    by_cases (λ c. replace_char "&" "&amp;" (piece [] c) ≡ piece written₁ c) refl refl refl refl
      refl (λ c n. ground arith)

do_lt : (c : Char) → replace_char "<" "&lt;" (piece written₁ c) ≡ piece written₂ c
unfolding replace_char
do_lt =
    by_cases (λ c. replace_char "<" "&lt;" (piece written₁ c) ≡ piece written₂ c) refl refl refl
      refl refl (λ c n. ground arith)

do_gt : (c : Char) → replace_char ">" "&gt;" (piece written₂ c) ≡ piece written₃ c
unfolding replace_char
do_gt =
    by_cases (λ c. replace_char ">" "&gt;" (piece written₂ c) ≡ piece written₃ c) refl refl refl
      refl refl (λ c n. ground arith)

do_quot : (c : Char) → replace_char "\"" "&quot;" (piece written₃ c) ≡ piece written₄ c
unfolding replace_char
do_quot =
    by_cases (λ c. replace_char "\"" "&quot;" (piece written₃ c) ≡ piece written₄ c) refl refl refl
      refl refl (λ c n. ground arith)

do_apos : (c : Char) → replace_char "'" "&apos;" (piece written₄ c) ≡ piece entities₅ c
unfolding replace_char
do_apos =
    by_cases (λ c. replace_char "'" "&apos;" (piece written₄ c) ≡ piece entities₅ c) refl refl refl
      refl refl (λ c n. ground arith)

pub escape_xml-flat : (s : String) → escape_xml s ≡ flat (piece entities₅) s
unfolding escape_xml
escape_xml-flat s =
    let undone = sym (flat_self s) in
    ap escape_xml undone
    ∙ rw
        (
          replace_char-flat "&" "&amp;" (piece []) (piece written₁) do_amp s,
          replace_char-flat "<" "&lt;" (piece written₁) (piece written₂) do_lt s,
          replace_char-flat ">" "&gt;" (piece written₂) (piece written₃) do_gt s,
          replace_char-flat "\"" "&quot;" (piece written₃) (piece written₄) do_quot s,
          replace_char-flat "'" "&apos;" (piece written₄) (piece entities₅) do_apos s,
        )
        refl
