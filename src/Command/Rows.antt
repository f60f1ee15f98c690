-- ===== src/Command/Rows.antt =====
-- Rows as values: `fetch_row_into_buffers`, `output_buffers_to_hash`, `append_buffers_to_list`,
-- `setupColumns`, `fetch_row`, `read_cols` and the two `read_rows` of src/command.cpp. The loops
-- over the rows take fuel; `none` means that it has run out. A null pointer is `nothing`.
pub mod Hash
pub mod Loop
pub mod Select
pub mod Transposed
pub mod SelectColumns
use module_sybase.Base.{
  ℕ, zero, suc, ◌+◌, ◌-◌, ℤ, pos, negsuc, sub_ℕ, ◌-ℤ◌, eq_ℤ, Bytes, Option, none, some, List, [],
  ◌∷◌, ◌++◌, Bool, true, false, not, ◌&&◌, ◌||◌, if◌then◌else◌, ◌==◌, text, format_int, decimal,
  is_nil,
}
use module_sybase.Build.{Build}
use module_sybase.Ct.{
  CtLib, RetCode, succeed, end_data, row_fail, fail, end_results, other_code, Datafmt, Cell,
}
use module_sybase.Effect.{
  ResType, res_none, Columns, Command, State, Connection, Outcome, ok, thrown, fault, M, ◌>>=◌,
  ◌>>◌, pure, gets, call, skip, raise, has_exception, when, get_command, set_command,
}
use module_sybase.Messages.{do_exception}
use module_sybase.Value.{Value, nothing, list, hash, Items, nil, cons, Fields, end, field, push}
use module_sybase.Command.Names.{column_name, assign_column, and_then}
use module_sybase.Command.Convert.{get_value}
use module_sybase.Command.Describe.{ensure_colinfo}

abbrev pub is_empty : Fields → Bool
is_empty end = true
is_empty (field k v h) = false

-- `setupColumns`, for the columns from number `i` on: an empty list for each column.
unfoldable pub setup_columns : Option (List Bytes) → List Datafmt → ℕ → Fields → Option Fields
unfolding column_name assign_column
setup_columns ph [] i h = some h
setup_columns ph (d ∷ ds) i h =
    and_then (assign_column h (column_name ph d i) (list nil)) (setup_columns ph ds (suc i))

-- `rv` and `l` of `read_rows`: no row yet, one row, or a list of at least two.
unfoldable pub add_row : Value → Value → Value
unfolding push
add_row nothing h = h
add_row (list l) h = list (push l h)
add_row rv h = list (push (push nil rv) h)

-- `l->size() == 1`, where the list has just been made of the row before.
abbrev pub is_second : Value → Bool
is_second nothing = false
is_second (list l) = false
is_second rv = true

module _ (build : Build) (ct : CtLib) (this : ℕ) where
  open ct use {World}

  abbrev pub stuck : {A : Type 0} → M World A
  stuck s = (fault, s)

  -- What is done with a result, and what without one.
  abbrev pub given : {A B : Type 0} → Option A → M World B → (A → M World B) → M World B
  given none m f = m
  given (some a) m f = f a

  -- What follows `ct_fetch`, by its return code.
  unfoldable pub fetched : RetCode → ℤ → M World Bool
  fetched succeed n = do
    when (not (eq_ℤ n (pos 1))) (
        do_exception ct (text "TDS-EXEC-ERROR")
          (text "ct_fetch() returned " ++ format_int n ++ text " rows (expected 1)"))
    pure true
  fetched end_data n = do
    c ← get_command this
    set_command this (record c { last_res = res_none })
    pure false
  fetched row_fail n = do
    do_exception ct (text "TDS-EXEC-EXCEPTION")
        (text "ct_fetch() returned CS_ROW_FAIL; " ++ format_int n ++ text " rows read")
    pure false
  fetched ret n = do
    do_exception ct (text "TDS-EXEC-EXCEPTION")
        (text "ct_fetch() returned errno " ++ format_int (ct.ret_number ret))
    pure false

  -- `fetch_row_into_buffers`: `ct_fetch` writes into the buffers that are bound.
  unfoldable pub fetch_row_into_buffers : M World Bool
  unfolding fetched
  fetch_row_into_buffers = do
    c ← get_command this
    (err, rows_read, cells) ← call (ct.ct_fetch c.m_cmd)
    set_command this (record c { out_buffers = cells })
    fetched err rows_read

  -- `output_buffers_to_hash`, for the columns from number `i` on; `none` is the null pointer.
  unfoldable pub output_buffers_to_hash :
      Option (List Bytes) → List Datafmt → List Cell → ℕ → Fields → M World (Option Fields)
  unfolding column_name assign_column
  output_buffers_to_hash ph [] cells i h = pure (some h)
  output_buffers_to_hash ph (d ∷ ds) [] i h = stuck
  output_buffers_to_hash ph (d ∷ ds) (c ∷ cells) i h = do
    v ← get_value build ct d c
    stop ← has_exception
    let assigned = assign_column h (column_name ph d i) v
    if stop then pure none else given assigned stuck (output_buffers_to_hash ph ds cells (suc i))

  -- `append_buffers_to_list`: the hash with a value more in each of its lists.
  unfoldable pub append_buffers_to_list :
      List Datafmt → List Cell → Fields → M World (Option Fields)
  append_buffers_to_list [] cells h = pure (some h)
  append_buffers_to_list (d ∷ ds) (c ∷ cells) (field k (list l) h) = do
    v ← get_value build ct d c
    stop ← has_exception
    if stop then pure none else (do
      rest ← append_buffers_to_list ds cells h
      given rest (pure none) λ g. pure (some (field k (list (push l v)) g)))
  append_buffers_to_list (d ∷ ds) cells h = stuck

  -- The loop of `read_cols`; `h` is the hash so far and `cnt` counts down to 0, if it is positive.
  unfoldable pub read_cols_loop : ℕ → Option (List Bytes) → ℤ → Fields → M World (Option Value)
  unfolding fetch_row_into_buffers setup_columns append_buffers_to_list
  read_cols_loop zero ph cnt h = pure none
  read_cols_loop (suc fuel) ph cnt h = do
    more ← fetch_row_into_buffers
    if not more then pure (some (hash h)) else (do
      c ← get_command this
      given (if is_empty h then setup_columns ph c.colinfo.datafmt 0 h else some h) stuck λ g. (do
        appended ← append_buffers_to_list c.colinfo.datafmt c.out_buffers g
        given appended (pure (some nothing)) λ g'.
            if eq_ℤ (cnt -ℤ pos 1) (pos 0)
            then pure (some (hash g'))
            else read_cols_loop fuel ph (cnt -ℤ pos 1) g'))

  -- `read_cols`
  unfoldable pub read_cols : ℕ → Option (List Bytes) → ℤ → Bool → M World (Option Value)
  unfolding ensure_colinfo read_cols_loop setup_columns
  read_cols fuel ph cnt cols = do
    failed ← ensure_colinfo build ct this
    stop ← has_exception
    if failed || stop then pure (some nothing) else (do
      c ← get_command this
      given (if cols then setup_columns ph c.colinfo.datafmt 0 end else some end) stuck
          (read_cols_loop fuel ph cnt))

  -- `fetch_row`
  unfoldable pub fetch_row : Option (List Bytes) → M World Value
  unfolding ensure_colinfo fetch_row_into_buffers output_buffers_to_hash
  fetch_row ph = do
    failed ← ensure_colinfo build ct this
    if failed then pure nothing else (do
      more ← fetch_row_into_buffers
      if not more then pure nothing else (do
        c ← get_command this
        h ← output_buffers_to_hash ph c.colinfo.datafmt c.out_buffers 0 end
        given h (pure nothing) λ g. pure (hash g)))

  -- The loop of `read_rows`; `rv` is the value so far.
  unfoldable pub read_rows_loop : ℕ → Option (List Bytes) → Bool → Value → M World (Option Value)
  unfolding fetch_row_into_buffers output_buffers_to_hash add_row
  read_rows_loop zero ph single_row rv = pure none
  read_rows_loop (suc fuel) ph single_row rv = do
    more ← fetch_row_into_buffers
    if not more then pure (some rv) else (do
      c ← get_command this
      h ← output_buffers_to_hash ph c.colinfo.datafmt c.out_buffers 0 end
      stop ← has_exception
      given h (pure (some nothing)) λ g.
          if stop
          then pure (some nothing)
          else if single_row && is_second rv
          then (do
            raise (text "DBI-SELECT-ROW-ERROR")
                (text "SQL passed to selectRow() returned more than 1 row")
            pure (some nothing))
          else read_rows_loop fuel ph single_row (add_row rv (hash g)))

  -- `read_rows(ph, xsink, single_row)`
  unfoldable pub read_rows : ℕ → Option (List Bytes) → Bool → M World (Option Value)
  unfolding ensure_colinfo read_rows_loop
  read_rows fuel ph single_row = do
    failed ← ensure_colinfo build ct this
    if failed then pure (some nothing) else read_rows_loop fuel ph single_row nothing

  -- `read_rows(placeholder_list, list, cols, xsink, single_row)`
  unfoldable pub read_rows_as :
      ℕ → Option (List Bytes) → Bool → Bool → Bool → M World (Option Value)
  unfolding ensure_colinfo read_rows read_cols
  read_rows_as fuel ph as_list cols single_row = do
    failed ← ensure_colinfo build ct this
    if failed
        then pure (some nothing)
        else if not as_list
        then read_cols fuel ph (negsuc 0) cols
        else read_rows fuel ph single_row
