-- ===== src/Sqs/Escape.antt =====
-- sqs/response.rs: the XML entities.
pub mod Pieces
pub mod RoundTrip
pub mod Safe
use Prim.Native.Char.{Char}
use lclq.Common.{String}
use lclq.Common.Replace.{replace, replace_char}

unfoldable pub escape_xml : String → String
escape_xml s = replace_char "'" "&apos;" (
    replace_char "\"" "&quot;"
      (replace_char ">" "&gt;" (replace_char "<" "&lt;" (replace_char "&" "&amp;" s))))

unfoldable pub unescape_xml : String → String
unescape_xml s =
    replace "&amp;" "&"
      (replace "&gt;" ">" (replace "&lt;" "<" (replace "&apos;" "'" (replace "&quot;" "\"" s))))
