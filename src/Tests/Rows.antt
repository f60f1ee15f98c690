-- ===== src/Tests/Rows.antt =====
-- Columns and rows: the theorems on a result of two columns that have the same name.
use module_sybase.Base.{
  ℕ, ◌≡◌, ◌≢◌, ◌⊎◌, refl, arith, pos, negsuc, Bytes, none, some, List, [], ◌∷◌, ◌++◌, text, true,
  false,
}
use module_sybase.Ct.{int_type, decimal_type, money_type, Datafmt, Cell}
use module_sybase.Effect.{State, ok}
use module_sybase.Value.{Value, nothing, int, Fields, end, field, has_key, set_key, hash}
use module_sybase.Value.Keys.{IsDistinct, set_key-IsDistinct}
use module_sybase.Command.Names.{candidate, free_name}
use module_sybase.Command.Names.Free.{free_name_total}
use module_sybase.Command.Convert.{decoded, unknown_type, value_of, convert, read_le, signed}
use module_sybase.Command.Convert.Decimal.{spaces, text_cell, exact_value, value_of-exact}
use module_sybase.Command.Convert.Integers.{write_le, pattern_of, value_of-int}
use module_sybase.Command.Convert.Known.{value_of_known}
use module_sybase.Command.Describe.{describe_column, retr_colinfo}
use module_sybase.Command.Describe.Bound.{IsBound, retr_colinfo-IsBound}
use module_sybase.Command.Rows.{read_rows, read_cols}
use module_sybase.Command.Rows.Loop.{rows_value, Read, too_many}
use module_sybase.Command.Rows.SelectColumns.{IsTransposed, read_cols-Read}
use module_sybase.Command.Rows.Select.{RowsAre, read_rows-Read, read_rows_single}
use module_sybase.Tests.Fixture.{Server, fake, build, conn, column, start, idle}

abbrev two_columns : List Datafmt
two_columns = column (text "A") int_type ∷ column (text "a") int_type ∷ []

abbrev cell : ℕ → Cell
cell n = record { indicator = pos 0; value = n ∷ 0 ∷ 0 ∷ 0 ∷ 0 ∷ 0 ∷ 0 ∷ 0 ∷ []; value_len = 4 }

abbrev two_rows : List (List Cell)
two_rows = (cell 1 ∷ cell 2 ∷ []) ∷ (cell 3 ∷ cell 4 ∷ []) ∷ []

abbrev two_vals : List (List Value)
two_vals = (int (pos 1) ∷ int (pos 2) ∷ []) ∷ (int (pos 3) ∷ int (pos 4) ∷ []) ∷ []

abbrev selected : State Server
selected = start two_columns (record idle { rows = two_rows })

read_rows-Read_example :
    (gs : List Fields) × Read build fake 3
      (read_rows build fake 3 3 none false selected)
      (rows_value gs)
      idle
    × RowsAre none two_columns two_vals gs
unfolding value_of convert signed read_le
read_rows-Read_example =
    read_rows-Read build fake 3 none two_rows two_vals 3 selected idle refl (refl, refl)
      (record idle { rows = (cell 3 ∷ cell 4 ∷ []) ∷ [] }, refl, (idle, refl, (pos 0, [], refl)))
      ((refl, (refl, tt)), ((refl, (refl, tt)), tt)) (omega arith)

read_rows_single_example :
    let r = read_rows build fake 3 2 none true selected in
    (r.0 ≡ ok (some nothing)) × (r.1.sink ≡ too_many ∷ [])
unfolding value_of convert signed read_le
read_rows_single_example =
    read_rows_single build fake 3 none (cell 1 ∷ cell 2 ∷ []) (cell 3 ∷ cell 4 ∷ []) []
      (int (pos 1) ∷ int (pos 2) ∷ []) (int (pos 3) ∷ int (pos 4) ∷ []) 0 selected idle refl
      (refl, refl)
      (record idle { rows = (cell 3 ∷ cell 4 ∷ []) ∷ [] }, refl, (idle, refl, (pos 0, [], refl)))
      (refl, (refl, tt)) (refl, (refl, tt))

free_name_total_example :
    (k : Bytes) × (free_name (field (text "a") nothing end) (text "a") ≡ some k)
    × (has_key (field (text "a") nothing end) k ≡ false)
    × ((k ≡ text "a") ⊎ ((i : ℕ) × (k ≡ candidate (text "a") i)))
free_name_total_example = free_name_total (field (text "a") nothing end) (text "a")

retr_colinfo-IsBound_example :
    IsBound
      ((retr_colinfo build fake 3 (start [] (record idle { columns = two_columns }))).1.commands 3)
unfolding retr_colinfo
retr_colinfo-IsBound_example =
    retr_colinfo-IsBound build fake 3 (start [] (record idle { columns = two_columns }))
      (retr_colinfo build fake 3 (start [] (record idle { columns = two_columns }))).1 refl

value_of-exact_example :
    value_of build conn
      (describe_column build false (column (text "n") decimal_type))
      (text_cell (text "120" ++ spaces 2))
    ≡ decoded (exact_value (text "120"))
unfolding text
value_of-exact_example =
    value_of-exact build conn false (column (text "n") decimal_type) (text "120") 2 tt refl
      (refl, (refl, (refl, tt)))

value_of-int_example :
    value_of build conn
      (describe_column build false (column (text "n") int_type))
      (record (cell 0) { value = write_le 4 (pattern_of 32 (negsuc 4)) ++ 9 ∷ 9 ∷ 9 ∷ 9 ∷ [] })
    ≡ decoded (int (negsuc 4))
value_of-int_example =
    value_of-int build conn false (column (text "n") int_type)
      (record (cell 0) { value = write_le 4 (pattern_of 32 (negsuc 4)) ++ 9 ∷ 9 ∷ 9 ∷ 9 ∷ [] })
      (negsuc 4) (9 ∷ 9 ∷ 9 ∷ 9 ∷ []) tt refl (omega arith, omega arith) refl

value_of_known_example :
    value_of build conn (describe_column build false (column (text "n") money_type)) (cell 0)
    ≢ unknown_type
value_of_known_example =
    value_of_known build conn false (column (text "n") money_type) (cell 0) refl

set_key-IsDistinct_example : IsDistinct (set_key (field (text "a") nothing end) (text "b") nothing)
unfolding has_key
set_key-IsDistinct_example =
    set_key-IsDistinct (field (text "a") nothing end) (text "b") nothing (refl, tt)

read_cols-Read_example :
    (h : Fields) × Read build fake 3
      (read_cols build fake 3 3 none (negsuc 0) false selected)
      (hash h)
      idle
    × IsTransposed none two_columns two_vals h
unfolding value_of convert signed read_le
read_cols-Read_example =
    read_cols-Read build fake 3 none two_rows two_vals 3 false selected idle refl (refl, refl)
      (record idle { rows = (cell 3 ∷ cell 4 ∷ []) ∷ [] }, refl, (idle, refl, (pos 0, [], refl)))
      ((refl, (refl, tt)), ((refl, (refl, tt)), tt)) (omega arith) refl
