-- ===== src/Csv.antt =====
-- The production log written as comma-separated values (src/orders/order-production-log.service.ts,
-- `encodeCsvCell` and `buildProductionRunsCsv`), and a reader of such a text after RFC 4180. A text
-- is the list of its UTF-16 code units.
use mes_copy.Base.{
  ℕ, Bool, true, false, ◌||◌, Option, none, some, List, [], ◌∷◌, ◌++◌, map, ◌==◌, if◌then◌else◌,
}
pub mod RoundTrip
mod Tests

abbrev pub Text : Type 0
Text = List ℕ

-- `[\t\r ]` and `[=+\-@]`.
abbrev pub is_lead : ℕ → Bool
is_lead c = (c == 9) || (c == 13) || (c == 32)

abbrev pub is_formula : ℕ → Bool
is_formula c = (c == 61) || (c == 43) || (c == 45) || (c == 64)

-- `/^[\t\r ]*[=+\-@]/.test(text)`.
unfoldable pub starts_formula : Text → Bool
starts_formula [] = false
starts_formula (c ∷ cs) = let rest = starts_formula cs in if is_lead c then rest else is_formula c

-- An apostrophe keeps a spreadsheet from reading a formula.
unfoldable pub protect : Text → Text
unfolding starts_formula
protect text = if starts_formula text then 39 ∷ text else text

-- `/[",\r\n]/`.
abbrev pub is_special : ℕ → Bool
is_special c = (c == 34) || (c == 44) || (c == 13) || (c == 10)

unfoldable pub has_special : Text → Bool
has_special [] = false
has_special (c ∷ cs) = let rest = has_special cs in if is_special c then true else rest

-- `replace(/"/g, '""')`.
unfoldable pub double_quotes : Text → Text
double_quotes [] = []
double_quotes (c ∷ cs) = let rest = double_quotes cs in if c == 34 then 34 ∷ 34 ∷ rest else c ∷ rest

unfoldable pub encode_text : Text → Text
unfolding has_special double_quotes
encode_text text = if has_special text then 34 ∷ (double_quotes text ++ 34 ∷ []) else text

-- `encodeCsvCell`, of a value that is none or has this text.
unfoldable pub encode_cell : Option Text → Text
unfolding encode_text protect
encode_cell none = []
encode_cell (some text) = encode_text (protect text)

-- `row.map(encodeCsvCell).join(',')`.
unfoldable pub encode_row : List (Option Text) → Text
unfolding encode_cell
encode_row [] = []
encode_row (c ∷ []) = encode_cell c
encode_row (c ∷ d ∷ ds) = encode_cell c ++ 44 ∷ encode_row (d ∷ ds)

-- `lines.join('\r\n')` and the `\r\n` at the end.
unfoldable pub encode_rows : List (List (Option Text)) → Text
unfolding encode_row
encode_rows [] = []
encode_rows (r ∷ rs) = encode_row r ++ 13 ∷ 10 ∷ encode_rows rs

-- What the mark of the byte order begins.
unfoldable pub build_csv : List (List (Option Text)) → Text
unfolding encode_rows
build_csv rows = 65279 ∷ encode_rows rows

-- The reader: at the start of a cell, in one without quotes, in one with quotes, after a quote in
-- such a one, and after a carriage return.
pub data Mode : Type 0 where
  start : Mode
  plain : Mode
  quoted : Mode
  closed : Mode
  returned : Mode

abbrev pub Rows : Type 0
Rows = List (List Text)

-- What follows is read first; a character goes before what is read of its cell.
abbrev pub add : ℕ → Rows → Rows
add c [] = []
add c ([] ∷ rows) = [] ∷ rows
add c ((cell ∷ cells) ∷ rows) = ((c ∷ cell) ∷ cells) ∷ rows

abbrev pub new_cell : Rows → Rows
new_cell [] = []
new_cell (cells ∷ rows) = ([] ∷ cells) ∷ rows

abbrev pub new_row : Rows → Rows
new_row rows = ([] ∷ []) ∷ rows

-- A character of a cell without quotes, or after one with quotes.
abbrev pub read_plain : ℕ → Rows → Rows → Rows → Rows
read_plain c at_start at_plain at_return =
    if c == 44 then new_cell at_start else if c == 13 then at_return else add c at_plain

unfoldable pub read : Mode → Text → Rows
read mode [] = ([] ∷ []) ∷ []
read start (c ∷ cs) =
    let rest = read start cs in
    let inside = read quoted cs in
    let on = read plain cs in
    let ended = read returned cs in if c == 34 then inside else read_plain c rest on ended
read plain (c ∷ cs) =
    let rest = read start cs in
    let on = read plain cs in let ended = read returned cs in read_plain c rest on ended
read quoted (c ∷ cs) =
    let inside = read quoted cs in
    let after = read closed cs in if c == 34 then after else add c inside
read closed (c ∷ cs) =
    let rest = read start cs in
    let inside = read quoted cs in
    let on = read plain cs in
    let ended = read returned cs in if c == 34 then add 34 inside else read_plain c rest on ended
read returned (c ∷ cs) =
    let rest = read start cs in
    let on = read plain cs in if c == 10 then new_row rest else add 13 (add c on)

-- The rows of a text, the empty one after the last line end included.
unfoldable pub read_csv : Text → Rows
unfolding read
read_csv [] = []
read_csv (c ∷ cs) = let rest = read start cs in if c == 65279 then rest else read start (c ∷ cs)
