-- ===== src/Plumbing/Lines.antt =====
-- plumbing/text.py, over `str.splitlines` and the width of a code point in UTF-8.
pub mod Bounds
use lab_charts.Base.{
  ℕ, zero, suc, ◌+◌, ◌-◌, ◌≤◌, Bool, true, false, ◌&&◌, ◌||◌, List, [], ◌∷◌, ◌++◌, length, take,
  leb, ltb, nat_eq, list_eq, ◌==◌, if◌then◌else◌, Text, text, join, show,
}
use mathlib.Core.List.{reverse}

-- the line boundaries of `str.splitlines`
unfoldable pub is_break : ℕ → Bool
is_break c =
    (leb 10 c && leb c 13) || ((leb 28 c && leb c 30) || (c == 133 || (c == 8232 || c == 8233)))

-- `line` is what the current line holds; a line feed after a carriage return ends no other line
unfoldable pub lines_from : (after_cr : Bool) → (line : Text) → Text → List Text
unfolding is_break
lines_from after_cr [] [] = []
lines_from after_cr (x ∷ xs) [] = (x ∷ xs) ∷ []
lines_from after_cr line (c ∷ cs) = elim (after_cr && c == 10) [
  | true ↦ lines_from false line cs
  | false ↦ elim (is_break c) [
    | true ↦ line ∷ lines_from (c == 13) [] cs
    | false ↦ lines_from false (line ++ c ∷ []) cs
  ]
]

unfoldable pub splitlines : Text → List Text
unfolding lines_from
splitlines t = lines_from false [] t

-- `t.rstrip("\n")`
unfoldable pub drop_newlines : Text → Text
drop_newlines [] = []
drop_newlines (c ∷ cs) = let rest = drop_newlines cs in if c == 10 then rest else c ∷ cs

unfoldable pub rstrip_newlines : Text → Text
unfolding drop_newlines
rstrip_newlines t = reverse (drop_newlines (reverse t))

unfoldable pub line_marker : ℕ → Text
line_marker n = text "... (" ++ (show n ++ text " more line(s) truncated)")

unfoldable pub truncate_lines : Text → ℕ → Text
unfolding splitlines rstrip_newlines line_marker
truncate_lines [] max_lines = []
truncate_lines (c ∷ cs) max_lines =
    let lines = splitlines (c ∷ cs) in
    if leb (length lines) max_lines
    then rstrip_newlines (c ∷ cs)
    else join (text "\n") (take max_lines lines ++ line_marker (length lines - max_lines) ∷ [])

-- the bytes of a code point
unfoldable pub width : ℕ → ℕ
width c = if ltb c 128 then 1 else if ltb c 2048 then 2 else if ltb c 65536 then 3 else 4

-- `len(t.encode("utf-8"))`
unfoldable pub byte_length : Text → ℕ
unfolding width
byte_length [] = 0
byte_length (c ∷ cs) = width c + byte_length cs

-- `encoded[:n].decode("utf-8", errors="ignore")`: the characters that fit whole
unfoldable pub decode_head : ℕ → Text → Text
unfolding width
decode_head n [] = []
decode_head n (c ∷ cs) =
    let rest = decode_head (n - width c) cs in if leb (width c) n then c ∷ rest else []

unfoldable pub byte_marker : ℕ → Text
byte_marker n = text "\n... (" ++ (show n ++ text " more byte(s) truncated)")

unfoldable pub truncate_bytes : Text → ℕ → Text
unfolding byte_length decode_head byte_marker
truncate_bytes [] max_bytes = []
truncate_bytes (c ∷ cs) max_bytes =
    let size = byte_length (c ∷ cs) in
    if leb size max_bytes
    then c ∷ cs
    else decode_head max_bytes (c ∷ cs) ++ byte_marker (size - max_bytes)
