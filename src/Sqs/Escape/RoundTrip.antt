-- ===== src/Sqs/Escape/RoundTrip.antt =====
-- About the XML entities of sqs/response.rs: unescaping, entity by entity.
use Prim.Native.Char.{Char}
use lclq.Common.{String, ◌≡◌, refl, [], arith}
use lclq.Common.Replace.{replace, push, append-push}
use lclq.Sqs.Escape.{escape_xml, unescape_xml}
use lclq.Sqs.Escape.Pieces.{
  piece, entities₁, entities₂, entities₃, entities₄, entities₅, flat_self, step, by_cases,
  escape_xml-flat,
}

undo_amp :
    (c : Char) (rest : String)
    → replace "&amp;" "&" (push (piece entities₁ c) rest)
      ≡ push (piece [] c) (replace "&amp;" "&" rest)
unfolding replace
undo_amp =
    by_cases
      (λ c.
        (rest : String)
        → replace "&amp;" "&" (push (piece entities₁ c) rest)
          ≡ push (piece [] c) (replace "&amp;" "&" rest))
      (λ rest. append-push "&" (replace "&amp;" "&" rest)) (λ rest. refl) (λ rest. refl)
      (λ rest. refl) (λ rest. refl) (λ c n rest. ground arith)

undo_gt :
    (c : Char) (rest : String)
    → replace "&gt;" ">" (push (piece entities₂ c) rest)
      ≡ push (piece entities₁ c) (replace "&gt;" ">" rest)
unfolding replace
undo_gt =
    by_cases
      (λ c.
        (rest : String)
        → replace "&gt;" ">" (push (piece entities₂ c) rest)
          ≡ push (piece entities₁ c) (replace "&gt;" ">" rest))
      (λ rest. refl) (λ rest. append-push ">" (replace "&gt;" ">" rest)) (λ rest. refl)
      (λ rest. refl) (λ rest. refl) (λ c n rest. ground arith)

undo_lt :
    (c : Char) (rest : String)
    → replace "&lt;" "<" (push (piece entities₃ c) rest)
      ≡ push (piece entities₂ c) (replace "&lt;" "<" rest)
unfolding replace
undo_lt =
    by_cases
      (λ c.
        (rest : String)
        → replace "&lt;" "<" (push (piece entities₃ c) rest)
          ≡ push (piece entities₂ c) (replace "&lt;" "<" rest))
      (λ rest. refl) (λ rest. refl) (λ rest. append-push "<" (replace "&lt;" "<" rest))
      (λ rest. refl) (λ rest. refl) (λ c n rest. ground arith)

undo_apos :
    (c : Char) (rest : String)
    → replace "&apos;" "'" (push (piece entities₄ c) rest)
      ≡ push (piece entities₃ c) (replace "&apos;" "'" rest)
unfolding replace
undo_apos =
    by_cases
      (λ c.
        (rest : String)
        → replace "&apos;" "'" (push (piece entities₄ c) rest)
          ≡ push (piece entities₃ c) (replace "&apos;" "'" rest))
      (λ rest. refl) (λ rest. refl) (λ rest. refl)
      (λ rest. append-push "'" (replace "&apos;" "'" rest)) (λ rest. refl)
      (λ c n rest. ground arith)

undo_quot :
    (c : Char) (rest : String)
    → replace "&quot;" "\"" (push (piece entities₅ c) rest)
      ≡ push (piece entities₄ c) (replace "&quot;" "\"" rest)
unfolding replace
undo_quot =
    by_cases
      (λ c.
        (rest : String)
        → replace "&quot;" "\"" (push (piece entities₅ c) rest)
          ≡ push (piece entities₄ c) (replace "&quot;" "\"" rest))
      (λ rest. refl) (λ rest. refl) (λ rest. refl) (λ rest. refl)
      (λ rest. append-push "\"" (replace "&quot;" "\"" rest)) (λ c n rest. ground arith)

-- Escaping a text for XML and then unescaping it gives the text back.
pub unescape_xml-escape_xml : (s : String) → unescape_xml (escape_xml s) ≡ s
unfolding unescape_xml
unescape_xml-escape_xml s =
    rw
      (
        escape_xml-flat s,
        step "&quot;" "\"" (piece entities₅) (piece entities₄) undo_quot s,
        step "&apos;" "'" (piece entities₄) (piece entities₃) undo_apos s,
        step "&lt;" "<" (piece entities₃) (piece entities₂) undo_lt s,
        step "&gt;" ">" (piece entities₂) (piece entities₁) undo_gt s,
        step "&amp;" "&" (piece entities₁) (piece []) undo_amp s,
      )
      (flat_self s)
