-- ===== src/Sbi/Lines.antt =====
-- protocol/sbi/framing.py: line terminators, and the splitting of a payload into lines; and `parse_reply` of
-- protocol/sbi/parser.py.
pub mod Split
pub mod Whole
use sartoriuslib.Prelude.{
  ℕ, ◌-◌, List, [], ◌∷◌, ◌++◌, Bool, true, false, ◌&&◌, length, take, drop, leb, ◌==◌,
  if◌then◌else◌,
}
use sartoriuslib.Prelude.Bytes.{Bytes, bytes_eq}
use sartoriuslib.Errors.{frame}
use sartoriuslib.Errors.Result.{Result, ok, err, ◌>>=◌}
use sartoriuslib.Sbi.Types.{SbiLine, SbiReply, SbiCodec}

abbrev pub newline : ℕ
newline = 10

abbrev pub carriage_return : ℕ
carriage_return = 13

abbrev pub line_terminator : Bytes
line_terminator = 13 ∷ 10 ∷ []

-- line.endswith(suffix)
abbrev pub ends_with : Bytes → Bytes → Bool
ends_with line suffix =
    leb (length suffix) (length line) && bytes_eq (drop (length line - length suffix) line) suffix

abbrev prepend : ℕ → Bytes → Bytes
prepend c [] = if c == carriage_return then [] else c ∷ []
prepend c (d ∷ rest) = c ∷ d ∷ rest

-- line.rstrip(b"\r")
abbrev pub strip_carriage_returns : Bytes → Bytes
strip_carriage_returns [] = []
strip_carriage_returns (c ∷ rest) = prepend c (strip_carriage_returns rest)

unfoldable pub strip_line_terminator : Bytes → Bytes
strip_line_terminator line =
    if ends_with line line_terminator
    then take (length line - 2) line
    else if ends_with line (newline ∷ [])
    then strip_carriage_returns (take (length line - 1) line)
    else line

-- The payload is used up: a part of a line that is left over has no terminator.
at_end : Bytes → Result (List Bytes)
at_end [] = ok []
at_end (c ∷ line) = err frame

-- The loop of `split_lines`: `line` is the part of the current line that the search for the next newline has passed.
unfoldable pub split_from : Bytes → Bytes → Result (List Bytes)
unfolding at_end
split_from line [] = at_end line
split_from line (c ∷ rest) = elim (c == newline) [
  | true ↦ split_from [] rest >>= λ lines. ok ((line ++ c ∷ []) ∷ lines)
  | false ↦ split_from (line ++ c ∷ []) rest
]

unfoldable pub split_lines : Bytes → Result (List Bytes)
unfolding split_from
split_lines raw = split_from [] raw

module _ {R : Type 0} (codec : SbiCodec R) where
  -- tuple(parse_line(line) for line in lines)
  parse_lines : List Bytes → Result (List (SbiLine R))
  parse_lines [] = ok []
  parse_lines (line ∷ rest) = do
    parsed ← codec.parse_line line
    others ← parse_lines rest
    ok (parsed ∷ others)

  unfoldable pub parse_reply : Bytes → Result (SbiReply R)
  unfolding parse_lines
  parse_reply raw = do
    lines ← split_lines raw
    parsed ← parse_lines lines
    ok (record { lines = parsed; raw = raw })
