-- ===== src/Effect.antt =====
-- The driver's state, and the monad of its methods. A method may throw an `ss::Error`, raise
-- exceptions in the `ExceptionSink` and go on, or fail an assertion. The objects that are shared by
-- pointers, commands and statements, stand in a store under their addresses.
pub mod Fuelled
pub mod Keeps
pub mod FuelledKeeps
use module_sybase.Base.{
  ℕ, ℤ, Bytes, Option, List, [], ◌∷◌, ◌++◌, Bool, not, if◌then◌else◌, ◌==◌, is_nil,
}
use module_sybase.Build.{Exception, exception}
use module_sybase.Ct.{Datafmt, Cell}
use module_sybase.Number.{NumericSupport}
use module_sybase.Query.{Query}
use module_sybase.Value.{Fields, Arg}

-- `command::ResType`
pub data ResType : Type 0 where
  res_none res_param res_status res_row res_end res_done res_error res_retry res_canceled : ResType

-- `Columns`
pub record Columns : Type 0 where
  pub dirty : Bool
  pub datafmt : List Datafmt

-- The members of `command`, but for the reference to the connection, which there is one of.
pub record Command : Type 0 where
  pub query : Option Query
  pub m_cmd : Option ℕ
  pub rowcount : ℤ
  pub last_res : ResType
  pub colinfo : Columns
  pub out_buffers : List Cell

-- The members of `connection` that its methods read and write.
pub record Connection : Type 0 where
  pub m_context : Option ℕ
  pub m_connection : Option ℕ
  pub connected : Bool
  pub is_sybase : Bool
  pub enc : ℕ
  pub is_multi_byte : Bool
  pub numeric_support : NumericSupport
  pub server_tz : Option ℕ
  pub optimized_date_binds : Bool
  pub stmt : Option ℕ

-- The members of `Statement`: `context` is the address of its command.
pub record Statement : Type 0 where
  pub exec_res : Option Fields
  pub context : Option ℕ
  pub placeholders : List Bytes
  pub valid : Bool

-- `DBModuleWrap<Statement>::ModuleWrap`: `m` is not shared, so that it stands in the wrap itself.
pub record ModuleWrap : Type 0 where
  pub m : Statement
  pub query : Option Bytes
  pub raw : Bool
  pub params : Option (List Arg)

-- `private_data` of an `SQLStatement` is the address of its wrap. Commands and wraps that are made
-- get the address `fresh`.
pub record State (W : Type 0) : Type 0 where
  pub world : W
  pub sink : List Exception
  pub conn : Connection
  pub commands : ℕ → Command
  pub wraps : ℕ → ModuleWrap
  pub private_data : ℕ → Option ℕ
  pub fresh : ℕ

pub data Outcome (A : Type 0) : Type 0 where
  ok : A → Outcome A
  thrown : Exception → Outcome A
  fault : Outcome A

abbrev pub M : Type 0 → Type 0 → Type 0
M W A = State W → Outcome A × State W

module _ {W A B : Type 0} where
  abbrev pub follow : Outcome A → (A → M W B) → M W B
  follow (ok a) f s = f a s
  follow (thrown e) f s = (thrown e, s)
  follow fault f s = (fault, s)

  infixl 5 ◌>>=◌ ◌>>◌
  abbrev pub ◌>>=◌ : M W A → (A → M W B) → M W B
  ◌>>=◌ m f s = let r = m s in follow r.0 f r.1

  abbrev pub ◌>>◌ : M W A → M W B → M W B
  m >> k = m >>= λ _. k

module _ {W A : Type 0} where
  abbrev pub pure : A → M W A
  pure a s = (ok a, s)

  -- `throw ss::Error(err, desc)`
  abbrev pub throw : Bytes → Bytes → M W A
  throw e d s = (thrown (exception e d), s)

  abbrev pub gets : (State W → A) → M W A
  gets f s = (ok (f s), s)

  -- A call of the library.
  abbrev pub call : (W → A × W) → M W A
  call f s = let r = f s.world in (ok r.0, record s { world = r.1 })

module _ {W : Type 0} where
  abbrev pub skip : M W (Unit {0})
  skip = pure tt

  -- `xsink->raiseException(err, desc)`
  abbrev pub raise : Bytes → Bytes → M W (Unit {0})
  raise e d s = (ok tt, record s { sink = s.sink ++ exception e d ∷ [] })

  abbrev pub require : Bool → M W (Unit {0})
  require b s = if b then (ok tt, s) else (fault, s)

  -- `*xsink`: whether there is an exception.
  abbrev pub has_exception : M W Bool
  has_exception s = (ok (not (is_nil s.sink)), s)

  abbrev pub when : Bool → M W (Unit {0}) → M W (Unit {0})
  when b m s = if b then m s else (ok tt, s)

  abbrev pub get_command : ℕ → M W Command
  get_command this s = (ok (s.commands this), s)

  abbrev pub set_command : ℕ → Command → M W (Unit {0})
  set_command this c s = (ok tt, record s { commands = λ a. if a == this then c else s.commands a })
