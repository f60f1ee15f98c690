-- ===== src/Connection/Library.antt =====
-- What `connection` uses and src/ does not contain, besides the calls that commands make: the calls
-- of the library for contexts, connections and locales, the `Datasource`, and Qore's encodings.
use module_sybase.Base.{ℕ, Bytes, Option, Bool}
use module_sybase.Build.{Build, Exception}
use module_sybase.Conversions.{DateTime}
use module_sybase.Ct.{CtLib, RetCode}
use module_sybase.Encoding.{QoreEncoding}
use module_sybase.Query.{Dbi}
use module_sybase.Value.{Value, Arg}
use module_sybase.Command.Arguments.{QoreTm}

-- The properties that `ct_con_props` sets, the options of `ct_options`, and those of `cs_locale`.
pub data ConProp : Type 0 where
  login_timeout : ℕ → ConProp
  con_username : Bytes → ConProp
  con_password : Bytes → ConProp
  serveraddr : Bytes → ConProp
  loc_prop : Option ℕ → ConProp
  charsetcnv : Bool → ConProp

pub data CtOption : Type 0 where
  chainxacts : Bool → CtOption
  textsize : ℕ → CtOption

pub data CsLocale : Type 0 where
  lc_all : CsLocale
  syb_charset : Option Bytes → CsLocale

pub record Connecting (W : Type 0) : Type 0 where
  -- whether `SYBASE` or `FREETDS_LOCALE` is defined
  pub has_locale : Bool
  -- `cs_ctx_alloc`, with what the variable for the context holds then, `ct_init`, `ct_exit` with and
  -- without CS_FORCE_EXIT, `cs_ctx_drop`, and `ct_config` for CS_VER_STRING, with what it writes
  pub cs_ctx_alloc : W → (RetCode × Option ℕ) × W
  pub ct_init : Option ℕ → W → RetCode × W
  pub ct_exit : Option ℕ → W → RetCode × W
  pub ct_exit_force : Option ℕ → W → RetCode × W
  pub cs_ctx_drop : Option ℕ → W → RetCode × W
  pub ct_config_version : Option ℕ → W → (RetCode × Bytes) × W
  pub ct_con_alloc : W → (RetCode × Option ℕ) × W
  -- `ct_diag(conn, CS_INIT)`
  pub diag_init : Option ℕ → W → RetCode × W
  -- `ct_con_props`: CS_SET, and CS_GET of CS_CON_STATUS, compared with CS_CONSTAT_CONNECTED
  pub set_con_props : Option ℕ → ConProp → W → RetCode × W
  pub con_status : Option ℕ → W → (RetCode × Bool) × W
  pub ct_connect : Option ℕ → Bytes → W → RetCode × W
  pub ct_options : Option ℕ → CtOption → W → RetCode × W
  -- `cs_dt_info` for CS_DT_CONVFMT and CS_DATES_LONG
  pub cs_dt_info : W → RetCode × W
  pub cs_loc_alloc : W → (RetCode × Option ℕ) × W
  pub cs_locale : Option ℕ → CsLocale → W → RetCode × W
  pub cs_loc_drop : Option ℕ → W → RetCode × W
  -- `ct_close`, with and without CS_FORCE_CLOSE
  pub ct_close : Option ℕ → W → RetCode × W
  pub ct_close_force : Option ℕ → W → RetCode × W
  pub ct_con_drop : Option ℕ → W → RetCode × W

-- The text in another encoding, or the exception that `convertEncoding` raises.
pub data Converted : Type 0 where
  converted : Bytes → Converted
  not_converted : Exception → Converted

-- `Datasource` keeps its flags in the state of what is outside of the driver.
pub record Qore (W : Type 0) : Type 0 where
  pub username : Option Bytes
  pub password : Option Bytes
  pub db_name : Option Bytes
  pub host_name : Option Bytes
  pub port : ℕ
  pub active_transaction : W → Bool
  pub connection_aborted : W → W
  pub was_connection_aborted : W → Bool
  pub db_encoding : W → Option Bytes
  pub qore_encoding : W → ℕ
  pub set_db_encoding : Bytes → W → W
  pub set_qore_encoding : ℕ → W → W
  -- the numbers of encodings, `QCS_DEFAULT`, `QEM.findCreate`, and `convertEncoding` from the first
  -- to the second; `QoreEncoding::isMultiByte` and the name of an encoding
  pub number_of : QoreEncoding → ℕ
  pub qcs_default : QoreEncoding
  pub find_create : Bytes → QoreEncoding
  pub is_multi_byte : ℕ → Bool
  pub get_code : ℕ → Bytes
  pub convert_encoding : ℕ → ℕ → Bytes → Converted
  -- `DBI_concat_numeric` and `DBI_concat_string`, with what the latter raises
  pub dbi : Dbi Arg
  pub concat_string_error : Exception
  -- `getTypeName` of a value
  pub type_name : Value → Bytes
  -- `getInfo` of a date in a time zone
  pub get_info : ℕ → DateTime → QoreTm

pub record Env : Type 1 where
  pub build : Build
  pub ct : CtLib
  pub lib : Connecting ct.World
  pub qore : Qore ct.World
