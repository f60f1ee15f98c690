-- ===== src/Ct.antt =====
-- Client-Library (ctpublic.h), which the driver calls and does not contain: the constants, the
-- structures and the calls that src/ uses. A call takes the state of the library and the server, and
-- returns its results with the new state. A handle is the number of a pointer, `none` a null one.
use module_sybase.Base.{ℕ, ℤ, Bytes, Option, List, Bool, true, false}

-- `CS_RETCODE`
pub data RetCode : Type 0 where
  succeed fail end_results end_data row_fail : RetCode
  other_code : ℤ → RetCode

abbrev pub is_succeed : RetCode → Bool
is_succeed succeed = true
is_succeed _ = false

abbrev pub is_fail : RetCode → Bool
is_fail fail = true
is_fail _ = false

-- The result types of `ct_results`.
pub data ResultType : Type 0 where
  cmd_done cmd_succeed cmd_fail param_result status_result row_result : ResultType
  other_result : ℤ → ResultType

-- The data types of columns and parameters.
pub data CsType : Type 0 where
  char_type varchar_type longchar_type text_type unichar_type : CsType
  decimal_type numeric_type float_type real_type money_type money4_type : CsType
  tinyint_type smallint_type int_type bigint_type bit_type : CsType
  binary_type varbinary_type longbinary_type image_type : CsType
  datetime_type datetime4_type bigdatetime_type bigtime_type date_type : CsType
  other_type : ℤ → CsType

pub data Format : Type 0 where
  fmt_unused fmt_nullterm fmt_padblank : Format
  fmt_other : ℤ → Format

-- `CS_DATAFMT_EX` of src/command.h: a column's description, with the type that it had at first.
pub record Datafmt : Type 0 where
  pub name : Bytes
  pub datatype : CsType
  pub format : Format
  pub maxlength : ℕ
  pub count : ℕ
  pub usertype : ℤ
  pub origin_datatype : CsType

-- What `ct_fetch` writes into a bound buffer: the indicator, the bytes and their length.
pub record Cell : Type 0 where
  pub indicator : ℤ
  pub value : Bytes
  pub value_len : ℕ

-- A parameter for `ct_param`: its name, type and format, and the bytes, or none for NULL.
pub record Param : Type 0 where
  pub name : Bytes
  pub datatype : Option CsType
  pub format : Option Format
  pub maxlength : Option ℕ
  pub value : Option Bytes
  pub is_null : Bool

-- `CS_CLIENTMSG`, with the parts of its number that CS_NUMBER and CS_SEVERITY take out.
pub record ClientMsg : Type 0 where
  pub number : ℤ
  pub severity : ℤ
  pub msgstring : Bytes
  pub osnumber : ℤ
  pub osstring : Bytes
  pub osstringlen : ℤ

-- `CS_SERVERMSG`
pub record ServerMsg : Type 0 where
  pub msgnumber : ℤ
  pub severity : ℤ
  pub state : ℤ
  pub line : ℤ
  pub svrname : Bytes
  pub svrnlen : ℤ
  pub msgtext : Bytes
  pub textlen : ℤ

pub record CtLib : Type 1 where
  pub World : Type 0
  pub ret_number : RetCode → ℤ
  pub result_number : ResultType → ℤ
  pub type_number : CsType → ℤ
  pub ct_cmd_alloc : Option ℕ → World → (RetCode × Option ℕ) × World
  pub ct_cmd_drop : Option ℕ → World → RetCode × World
  -- `ct_cancel(0, cmd, CS_CANCEL_ALL)` and `ct_cancel(conn, 0, CS_CANCEL_ALL)`
  pub ct_cancel : Option ℕ → World → RetCode × World
  pub ct_cancel_connection : Option ℕ → World → RetCode × World
  pub ct_command : Option ℕ → Bytes → World → RetCode × World
  pub ct_send : Option ℕ → World → RetCode × World
  pub ct_fetch : Option ℕ → World → (RetCode × ℤ × List Cell) × World
  -- `ct_res_info` for CS_NUMDATA and for CS_ROW_COUNT: what the variable holds after the call
  pub ct_res_info_numdata : Option ℕ → World → (RetCode × ℤ) × World
  pub ct_res_info_row_count : Option ℕ → ℤ → World → (RetCode × ℤ) × World
  pub ct_results : Option ℕ → World → (RetCode × ResultType) × World
  pub ct_describe : Option ℕ → ℕ → World → (RetCode × Datafmt) × World
  pub ct_bind : Option ℕ → ℕ → Datafmt → World → RetCode × World
  pub ct_param : Option ℕ → Param → World → RetCode × World
  -- `ct_diag`: CS_STATUS and CS_GET for client and for server messages, and CS_CLEAR for all
  pub client_status : Option ℕ → World → (RetCode × ℕ) × World
  pub client_get : Option ℕ → ℕ → World → (RetCode × ClientMsg) × World
  pub server_status : Option ℕ → World → (RetCode × ℕ) × World
  pub server_get : Option ℕ → ℕ → World → (RetCode × ServerMsg) × World
  pub diag_clear : Option ℕ → World → RetCode × World
