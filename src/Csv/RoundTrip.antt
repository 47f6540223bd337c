-- ===== src/Csv/RoundTrip.antt =====
-- What is written of a production log is read again (src/orders/order-production-log.service.ts).
use mes_copy.Base.{
  ◌≡◌, refl, sym, ap, false, Option, none, some, List, [], ◌∷◌, ◌++◌, map, All, arith, ◌==◌, inl,
  inr, Bool-cases, ==_iff,
}
use mathlib.Core.Path.{◌∙◌}
use mathlib.Core.List.{append_assoc}
use mes_copy.Csv.{
  Text, Rows, start, plain, quoted, closed, returned, add, new_cell, read_plain, read, read_csv,
  is_special, has_special, double_quotes, protect, starts_formula, encode_text, encode_cell,
  encode_row, encode_rows, build_csv,
}

-- A text before what is read of the cell.
abbrev add_all : Text → Rows → Rows
add_all [] rows = rows
add_all (c ∷ cs) rows = add c (add_all cs rows)

read-plain : (s t : Text) → has_special s ≡ false → read plain (s ++ t) ≡ add_all s (read plain t)
unfolding has_special read
read-plain [] t h = refl
read-plain (c ∷ cs) t h =
    let here : is_special c ≡ false = ground (arith, h) in
    let later : has_special cs ≡ false = ground (arith, h) in
    let on : read_plain c (read start (cs ++ t)) (read plain (cs ++ t)) (read returned (cs ++ t))
        ≡ add c (read plain (cs ++ t)) =
      ground (arith, here) in
    on ∙ ap (add c) (read-plain cs t later)

read-quoted : (s t : Text) → read quoted (double_quotes s ++ 34 ∷ t) ≡ add_all s (read closed t)
unfolding double_quotes read
read-quoted [] t = refl
read-quoted (c ∷ cs) t = elim (Bool-cases (c == 34)) [
  | inl quote ↦
      let same : c ≡ 34 = ground (arith, ==_iff c 34) in
      rw quote
        (ap (add 34) (read-quoted cs t) ∙ ap (λ n. add n (add_all cs (read closed t))) (sym same))
  | inr other ↦ rw other (rw other (ap (add c) (read-quoted cs t)))
]

-- What may follow a cell: it is read alike wherever the cell ends.
record IsEnd (t : Text) : Type 0 where
  from_start : read start t ≡ read plain t
  from_closed : read closed t ≡ read plain t

comma-IsEnd : (t : Text) → IsEnd (44 ∷ t)
unfolding read
comma-IsEnd t = record { from_start = refl; from_closed = refl }

return-IsEnd : (t : Text) → IsEnd (13 ∷ t)
unfolding read
return-IsEnd t = record { from_start = refl; from_closed = refl }

-- A text without special characters is read alike from the start of a cell.
read-start :
    (s t : Text) → has_special s ≡ false → IsEnd t → read start (s ++ t) ≡ read plain (s ++ t)
unfolding has_special read
read-start [] t h end = end.from_start
read-start (c ∷ cs) t h end = let other : (c == 34) ≡ false = ground (arith, h) in rw other refl

read-encode_text :
    (s t : Text) → IsEnd t → read start (encode_text s ++ t) ≡ add_all s (read plain t)
unfolding encode_text read
read-encode_text s t end = elim (Bool-cases (has_special s)) [
  | inl special ↦ rw special (
      ap (λ u. read start (34 ∷ u)) (append_assoc (double_quotes s) (34 ∷ []) t)
      ∙ (read-quoted s t ∙ ap (add_all s) end.from_closed))
  | inr ordinary ↦ rw ordinary (read-start s t ordinary end ∙ read-plain s t ordinary)
]

-- The text of a cell, guarded against formulas.
abbrev pub cell_text : Option Text → Text
unfolding protect
cell_text none = []
cell_text (some text) = protect text

read-encode_cell :
    (c : Option Text) (t : Text)
    → IsEnd t
    → read start (encode_cell c ++ t) ≡ add_all (cell_text c) (read plain t)
unfolding encode_cell
read-encode_cell none t end = end.from_start
read-encode_cell (some text) t end = read-encode_text (protect text) t end

add_all-row :
    (s : Text) (cells : List Text) (rows : Rows)
    → add_all s (([] ∷ cells) ∷ rows) ≡ (s ∷ cells) ∷ rows
add_all-row [] cells rows = refl
add_all-row (c ∷ cs) cells rows = ap (add c) (add_all-row cs cells rows)

-- A row has a cell at least.
abbrev IsRow : {A : Type 0} → List A → Type 0
IsRow [] = ⊥
IsRow (x ∷ xs) = Unit

read-encode_row :
    (row : List (Option Text)) (t : Text)
    → IsRow row
    → read start (encode_row row ++ 13 ∷ 10 ∷ t) ≡ map cell_text row ∷ read start t
unfolding encode_row read
read-encode_row [] t h = elim h [ ]
read-encode_row (c ∷ []) t h =
    read-encode_cell c (13 ∷ 10 ∷ t) (return-IsEnd (10 ∷ t))
    ∙ add_all-row (cell_text c) [] (read start t)
read-encode_row (c ∷ d ∷ ds) t h =
    ap (read start) (append_assoc (encode_cell c) (44 ∷ encode_row (d ∷ ds)) (13 ∷ 10 ∷ t))
    ∙ (read-encode_cell c (44 ∷ (encode_row (d ∷ ds) ++ 13 ∷ 10 ∷ t))
          (comma-IsEnd (encode_row (d ∷ ds) ++ 13 ∷ 10 ∷ t))
        ∙ (ap (λ rows. add_all (cell_text c) (new_cell rows)) (read-encode_row (d ∷ ds) t tt)
            ∙ add_all-row (cell_text c) (map cell_text (d ∷ ds)) (read start t)))

read-encode_rows :
    (rows : List (List (Option Text)))
    → All IsRow rows
    → read start (encode_rows rows) ≡ map (map cell_text) rows ++ (([] ∷ []) ∷ [])
unfolding encode_rows read
read-encode_rows [] h = refl
read-encode_rows (r ∷ rs) h =
    read-encode_row r (encode_rows rs) h.0
    ∙ ap (λ rows. map cell_text r ∷ rows) (read-encode_rows rs h.1)

-- A reader of comma-separated values gets back from the export every row with the text of every
-- cell, whatever commas, quotes and line ends it has; a text that a spreadsheet would take for a
-- formula has an apostrophe before it. Each row has a cell at least.
pub read_csv-build_csv :
    (rows : List (List (Option Text)))
    → All IsRow rows
    → read_csv (build_csv rows) ≡ map (map cell_text) rows ++ (([] ∷ []) ∷ [])
unfolding read_csv build_csv
read_csv-build_csv rows h = read-encode_rows rows h

abbrev pub IsHarmless : Text → Type 0
IsHarmless text = starts_formula text ≡ false

cell_text-IsHarmless : (c : Option Text) → IsHarmless (cell_text c)
unfolding starts_formula protect
cell_text-IsHarmless none = refl
cell_text-IsHarmless (some text) = elim (Bool-cases (starts_formula text)) [
  | inl formula ↦ rw formula refl
  | inr harmless ↦ rw harmless harmless
]

cells-IsHarmless : (row : List (Option Text)) → All IsHarmless (map cell_text row)
cells-IsHarmless [] = tt
cells-IsHarmless (c ∷ cs) = (cell_text-IsHarmless c, cells-IsHarmless cs)

rows-IsHarmless :
    (rows : List (List (Option Text)))
    → All (All IsHarmless) (map (map cell_text) rows ++ (([] ∷ []) ∷ []))
unfolding starts_formula
rows-IsHarmless [] = ((refl, tt), tt)
rows-IsHarmless (r ∷ rs) = (cells-IsHarmless r, rows-IsHarmless rs)

-- No cell that a reader gets from the export starts with what a spreadsheet takes for a formula,
-- with tabs, carriage returns and spaces before it or without. Each row has a cell at least.
pub read_csv-IsHarmless :
    (rows : List (List (Option Text)))
    → All IsRow rows
    → All (All IsHarmless) (read_csv (build_csv rows))
read_csv-IsHarmless rows h = rw (read_csv-build_csv rows h) (rows-IsHarmless rows)
