-- ===== src/Statements/Wrap.antt =====
-- The methods of `DBModuleWrap` of src/dbmodulewrap.h, which Qore calls for an `SQLStatement`. Those
-- that `EmptyStatement` leaves without effect return 0.
use module_sybase.Base.{
  ℕ, ℤ, pos, negsuc, Bytes, Option, none, some, List, Bool, true, false, if◌then◌else◌, ◌==◌,
}
use module_sybase.Build.{Exception}
use module_sybase.Effect.{ModuleWrap, ok, fault, gets, raise, has_exception, when, M}
use module_sybase.Effect.Fuelled.{F, ◌>>=◌, ◌>>◌, lift, ret, caught}
use module_sybase.Value.{Value, nothing, Fields, Arg}
use module_sybase.Connection.Handles.{
  get_wrap, set_wrap, allocate, register_statement, deregister_statement, destroyed,
}
use module_sybase.Connection.Library.{Env, Converted, converted, not_converted}
use module_sybase.Statements.Methods
use module_sybase.Statements.Methods.{new_statement}

abbrev pub new_wrap : ModuleWrap
new_wrap = record { m = new_statement; query = none; raw = false; params = none }

module _ {W : Type 0} where
  -- `stmt->getPrivateData()` and `stmt->setPrivateData`
  abbrev pub get_private : ℕ → M W (Option ℕ)
  get_private sql s = (ok (s.private_data sql), s)

  abbrev pub set_private : ℕ → Option ℕ → M W (Unit {0})
  set_private sql p s =
      (ok tt, record s { private_data = λ a. if a == sql then p else s.private_data a })

  -- `Error::raise`: an exception that is there already is kept alone.
  unfoldable pub raise_error : Exception → F W (Unit {0})
  raise_error e = do stop ← lift has_exception; if stop then ret tt else lift (raise e.err e.desc)

module _ (env : Env) where
  open env use {build, ct, lib, qore}
  open ct use {World}

  -- `module_wrap(stmt)`, which makes a wrap where there is none.
  unfoldable pub made_wrap : ℕ → Option ℕ → F World ℕ
  unfolding register_statement
  made_wrap sql (some wrap) = ret wrap
  made_wrap sql none = do
    wrap ← lift allocate
    lift (set_wrap wrap new_wrap)
    lift (set_private sql (some wrap))
    lift (register_statement env wrap)
    ret wrap

  unfoldable pub module_wrap : ℕ → F World ℕ
  unfolding made_wrap
  module_wrap sql = do p ← lift (get_private sql); made_wrap sql p

  abbrev pub change_wrap : ℕ → (ModuleWrap → ModuleWrap) → F World (Unit {0})
  change_wrap wrap f = do w ← lift (get_wrap wrap); lift (set_wrap wrap (f w))

  -- `run`, for a method, and the result in case of an error
  unfoldable pub run : {A : Type 0} → A → (ℕ → F World A) → ℕ → F World A
  unfolding module_wrap raise_error
  run a method sql = do
    stop ← lift has_exception
    if stop
        then ret a
        else caught (do wrap ← module_wrap sql; method wrap) (λ e. do raise_error e; ret a)

  -- `encodeSQL`, for a text in the encoding `enc`
  unfoldable pub encode_sql : Converted → F World (Option Bytes)
  encode_sql (not_converted e) = do lift (raise e.err e.desc); ret none
  encode_sql (converted t) = ret (some t)

  -- `_prepare`
  unfoldable pub prepare_with : ℕ → ℕ → Bytes → Option (List Arg) → F World ℤ
  unfolding module_wrap encode_sql
  prepare_with sql enc str args = do
    wrap ← module_wrap sql
    to ← lift (gets (λ s. qore.qore_encoding s.world))
    query ← encode_sql (qore.convert_encoding enc to str)
    change_wrap wrap (λ w. record w { query = query; params = args })
    ret (pos 0)

  -- `prepare` and `prepare_raw`
  unfoldable pub prepare : ℕ → ℕ → Bytes → Option (List Arg) → F World ℤ
  unfolding module_wrap prepare_with
  prepare sql enc str args = do
    wrap ← module_wrap sql
    change_wrap wrap (λ w. record w { raw = false })
    prepare_with sql enc str args

  unfoldable pub prepare_raw : ℕ → ℕ → Bytes → F World ℤ
  unfolding module_wrap prepare_with
  prepare_raw sql enc str = do
    wrap ← module_wrap sql
    change_wrap wrap (λ w. record w { raw = true })
    prepare_with sql enc str none

  -- `ModuleWrap::Delete`: the statement is destroyed, with its command.
  unfoldable pub delete_wrap : Option ℕ → F World ℤ
  unfolding destroyed
  delete_wrap none = ret (pos 0)
  delete_wrap (some this) = λ s. destroyed env this (ret (pos 0) s)

  -- `close`; a statement without a wrap is a null pointer, which is not checked for.
  unfoldable pub close_wrap : ℕ → Option ℕ → F World ℤ
  unfolding deregister_statement delete_wrap
  close_wrap sql none = λ s. (fault, s)
  close_wrap sql (some wrap) = do
    w ← lift (get_wrap wrap)
    lift (when w.m.valid (deregister_statement env wrap))
    lift (set_private sql none)
    delete_wrap w.m.context

  unfoldable pub close : ℕ → F World ℤ
  unfolding close_wrap
  close sql = do p ← lift (get_private sql); close_wrap sql p

  -- `bind`
  unfoldable pub bind : ℕ → List Arg → F World ℤ
  unfolding module_wrap
  bind sql l = do
    wrap ← module_wrap sql
    change_wrap wrap (λ w. record w { params = some l })
    ret (pos 0)

  -- `exec`
  unfoldable pub exec : ℕ → ℕ → F World ℤ
  unfolding Methods.exec module_wrap raise_error
  exec fuel sql =
      caught
        (do
          wrap ← module_wrap sql
          w ← lift (get_wrap wrap)
          Methods.exec env fuel wrap w.query w.params w.raw)
        (λ e. do raise_error e; ret (negsuc 0))

  -- The methods that `run` calls.
  unfoldable pub bind_placeholders : ℕ → List Bytes → F World ℤ
  unfolding run Methods.bind_placeholders
  bind_placeholders sql l = run (pos 0) (λ wrap. Methods.bind_placeholders env wrap l) sql

  unfoldable pub bind_values : ℕ → F World ℤ
  unfolding run
  bind_values sql = run (pos 0) (λ wrap. ret (pos 0)) sql

  unfoldable pub fetch_row : ℕ → F World (Option Fields)
  unfolding run Methods.release_res
  fetch_row sql = run none (Methods.release_res env) sql

  unfoldable pub fetch_rows : ℕ → ℕ → ℤ → F World Value
  unfolding run Methods.fetch_rows
  fetch_rows fuel sql rows = run nothing (λ wrap. Methods.fetch_rows env fuel wrap rows) sql

  unfoldable pub fetch_columns : ℕ → ℕ → ℤ → F World Value
  unfolding run Methods.fetch_columns
  fetch_columns fuel sql rows = run nothing (λ wrap. Methods.fetch_columns env fuel wrap rows) sql

  unfoldable pub describe : ℕ → F World Value
  unfolding run
  describe sql = run nothing (λ wrap. ret nothing) sql

  unfoldable pub next : ℕ → ℕ → F World Bool
  unfolding run Methods.next
  next fuel sql = run false (Methods.next env fuel) sql

  unfoldable pub affected_rows : ℕ → F World ℤ
  unfolding run Methods.affected_rows
  affected_rows sql = run (pos 0) (Methods.affected_rows env) sql

  unfoldable pub get_output : ℕ → ℕ → F World Value
  unfolding run Methods.get_output
  get_output fuel sql = run nothing (Methods.get_output env fuel) sql

  -- `define` of the statement, and `get_output_rows` of `EmptyStatement`
  unfoldable pub define : ℕ → F World ℤ
  unfolding run
  define sql = run (pos 0) (λ wrap. ret (pos 0)) sql

  unfoldable pub get_output_rows : ℕ → F World Value
  unfolding run
  get_output_rows sql = run nothing (λ wrap. ret nothing) sql
