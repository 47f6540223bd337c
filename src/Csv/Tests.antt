-- ===== src/Csv/Tests.antt =====
-- Runs of the export of the production log and its properties at concrete rows.
use mes_copy.Base.{◌≡◌, refl, Option, none, some, List, [], ◌∷◌, ◌++◌, map, All}
use mes_copy.Csv.{Text, encode_cell, build_csv, read_csv}
use mes_copy.Csv.RoundTrip.{IsHarmless, cell_text, read_csv-build_csv, read_csv-IsHarmless}

-- `a,"b`, `=1` and no value.
abbrev row : List (Option Text)
row = some (97 ∷ 44 ∷ 34 ∷ 98 ∷ []) ∷ some (61 ∷ 49 ∷ []) ∷ none ∷ []

encode_cell_test :
    encode_cell (some (97 ∷ 44 ∷ 34 ∷ 98 ∷ [])) ≡ 34 ∷ 97 ∷ 44 ∷ 34 ∷ 34 ∷ 98 ∷ 34 ∷ []
unfolding encode_cell
encode_cell_test = refl

formula_test : encode_cell (some (61 ∷ 49 ∷ [])) ≡ 39 ∷ 61 ∷ 49 ∷ []
unfolding encode_cell
formula_test = refl

read_csv-build_csv_example :
    read_csv (build_csv (row ∷ row ∷ [])) ≡ map (map cell_text) (row ∷ row ∷ []) ++ (([] ∷ []) ∷ [])
read_csv-build_csv_example = read_csv-build_csv (row ∷ row ∷ []) (tt, (tt, tt))

read_csv-IsHarmless_example : All (All IsHarmless) (read_csv (build_csv (row ∷ row ∷ [])))
read_csv-IsHarmless_example = read_csv-IsHarmless (row ∷ row ∷ []) (tt, (tt, tt))
