-- ===== src/Command/Describe.antt =====
-- The description of a result: `get_column_count`, `get_row_description`, `setup_output_buffers`,
-- `retr_colinfo` and `ensure_colinfo` of src/command.cpp and src/command.h, and the sizes of the
-- buffers of src/row_output_buffers.cpp.
pub mod Bound
use module_sybase.Base.{
  ℕ, zero, suc, ◌+◌, ◌*◌, ℤ, pos, negsuc, pos_part, leb, ltb, ltb_ℤ, eq_ℤ, Bytes, Option, none,
  some, List, [], ◌∷◌, ◌++◌, Bool, true, false, not, ◌&&◌, ◌||◌, if◌then◌else◌, text, format_int,
  decimal, is_nil,
}
use module_sybase.Build.{Build}
use module_sybase.Ct.{
  CtLib, is_succeed, CsType, char_type, varchar_type, longchar_type, text_type, unichar_type,
  decimal_type, numeric_type, float_type, money_type, money4_type, Format, fmt_padblank,
  fmt_nullterm, fmt_unused, Datafmt, Cell,
}
use module_sybase.Effect.{
  Columns, Command, State, Connection, Outcome, ok, thrown, fault, M, ◌>>=◌, ◌>>◌, pure, gets, call,
  skip, has_exception, when, get_command, set_command,
}
use module_sybase.Messages.{do_exception}

abbrev with_format : Format → Datafmt → Datafmt
with_format f d = record d { format = f }

-- Text whose type is CHAR, in a buffer of 50 bytes.
abbrev as_char : Format → Datafmt → Datafmt
as_char f d = record d { maxlength = 50; datatype = char_type; format = f }

abbrev widened : Bool → Datafmt → Datafmt
widened is_multi_byte d = record d {
  maxlength = if is_multi_byte then d.maxlength * 2 else d.maxlength;
  format = fmt_nullterm;
}

-- The switch of `get_row_description` over the column's type.
unfoldable pub by_type : Build → Bool → Datafmt → CsType → Datafmt
by_type build multi d decimal_type = as_char fmt_padblank d
by_type build multi d numeric_type = as_char fmt_padblank d
by_type build multi d unichar_type = record d { datatype = text_type; format = fmt_nullterm }
by_type build multi d char_type = with_format fmt_padblank d
by_type build multi d longchar_type = widened multi d
by_type build multi d varchar_type = widened multi d
by_type build multi d text_type = widened multi d
by_type build multi d float_type =
    if build.freetds && eq_ℤ d.usertype (pos 26)
    then as_char fmt_nullterm d
    else with_format fmt_unused d
by_type build multi d money_type = record d { datatype = float_type; format = fmt_unused }
by_type build multi d money4_type = record d { datatype = float_type; format = fmt_unused }
by_type build multi d _ = with_format fmt_unused d

-- What `get_row_description` makes of a column that `ct_describe` has described.
unfoldable pub describe_column : Build → Bool → Datafmt → Datafmt
unfolding by_type
describe_column build multi d =
    by_type build multi (record d { count = 1; origin_datatype = d.datatype }) d.datatype

-- The bytes of a buffer of `output_value_buffer`, its terminator included.
unfoldable pub buffer_size : ℕ → ℕ
buffer_size size = suc (if ltb size 7 then 7 else size)

pub zeros : ℕ → Bytes
zeros zero = []
zeros (suc n) = 0 ∷ zeros n

-- A new buffer. What it holds before a fetch is not read; it is taken to be zero.
unfoldable pub output_value_buffer : ℕ → Cell
unfolding zeros buffer_size
output_value_buffer size = record {
  indicator = pos 0;
  value = zeros (buffer_size size);
  value_len = 0;
}

module _ (build : Build) (ct : CtLib) (this : ℕ) where
  open ct use {World}

  -- `get_column_count`
  unfoldable pub get_column_count : M World ℕ
  get_column_count = do
    c ← get_command this
    (err, num_cols) ← call (ct.ct_res_info_numdata c.m_cmd)
    when (not (is_succeed err)) (
        do_exception ct (text "TDS-EXEC-EXCEPTION")
          (text "ct_res_info() failed with error " ++ format_int (ct.ret_number err)))
    when (not (ltb_ℤ (pos 0) num_cols))
        (do_exception ct (text "TDS-EXEC-EXCEPTION") (text "ct_res_info() failed"))
    pure (pos_part num_cols)

  -- `get_row_description`, for `n` more columns from number `i` on; the result is the columns.
  unfoldable pub get_row_description : ℕ → ℕ → ℕ → M World (List Datafmt)
  unfolding describe_column
  get_row_description column_count zero i = pure []
  get_row_description column_count (suc n) i = do
    c ← get_command this
    (err, d) ← call (ct.ct_describe c.m_cmd (suc i))
    when (not (is_succeed err)) (
        do_exception ct (text "TDS-EXEC-ERROR") (
          text "ct_describe() failed with error "
          ++ format_int (ct.ret_number err)
          ++ text " on column "
          ++ decimal (suc i)
          ++ text " / "
          ++ decimal column_count))
    conn ← gets (λ s. s.conn)
    rest ← get_row_description column_count n (suc i)
    pure (describe_column build conn.is_multi_byte d ∷ rest)

  -- `setup_output_buffers`, for the columns from number `i` on; the result is the buffers.
  unfoldable pub setup_output_buffers : List Datafmt → ℕ → M World (List Cell)
  unfolding output_value_buffer
  setup_output_buffers [] i = pure []
  setup_output_buffers (d ∷ ds) i = do
    c ← get_command this
    err ← call (ct.ct_bind c.m_cmd (suc i) d)
    when (not (is_succeed err)) (
        do_exception ct (text "TDS-EXEC-ERROR")
          (text "ct_bind() failed with error " ++ format_int (ct.ret_number err)))
    rest ← setup_output_buffers ds (suc i)
    pure (output_value_buffer d.maxlength ∷ rest)

  -- The parts of `retr_colinfo`: the buffers for the columns, and the columns before them.
  unfoldable pub bind_columns : List Datafmt → M World Bool
  unfolding setup_output_buffers
  bind_columns ds = do
    c ← get_command this
    set_command this
        (record c { colinfo = record { dirty = true; datafmt = ds }; out_buffers = [] })
    bs ← setup_output_buffers ds 0
    c' ← get_command this
    set_command this
        (record c' { colinfo = record { dirty = false; datafmt = ds }; out_buffers = bs })
    pure false

  unfoldable pub describe_columns : ℕ → M World Bool
  unfolding get_row_description bind_columns
  describe_columns columns = do
    c ← get_command this
    set_command this (record c { colinfo = record { dirty = true; datafmt = [] } })
    ds ← get_row_description columns columns 0
    bind_columns ds

  -- `retr_colinfo`: whether it fails.
  unfoldable pub retr_colinfo : M World Bool
  unfolding get_column_count describe_columns
  retr_colinfo = do
    columns ← get_column_count
    stop ← has_exception
    if stop then pure true else describe_columns columns

  -- `ensure_colinfo`, with `need_refresh`
  unfoldable pub ensure_colinfo : M World Bool
  unfolding retr_colinfo
  ensure_colinfo = do
    c ← get_command this
    if c.colinfo.dirty || is_nil c.colinfo.datafmt then retr_colinfo else pure false
