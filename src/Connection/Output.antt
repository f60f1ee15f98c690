-- ===== src/Connection/Output.antt =====
-- `command::readOutput` of src/command.cpp, and the methods of src/connection.cpp that run a query and
-- read its results: `execReadOutput`, `select`, `exec`, `execRaw`, `exec_rows`, `exec_row` and
-- `get_server_version`. `init`, which a reconnection calls, is an argument.
pub mod Collected
use module_sybase.Base.{
  ℕ, zero, suc, ℤ, Bytes, Option, none, some, List, Bool, true, false, ◌==◌, if◌then◌else◌, text,
  decimal, trim_trailing, not, ◌++◌,
}
use module_sybase.Effect.{
  throw, fault, gets, raise, has_exception, get_command, set_command, ResType, res_none, res_param,
  res_status, res_row, res_end, res_done, res_error, res_retry, res_canceled,
}
use module_sybase.Effect.Fuelled.{F, ◌>>=◌, ◌>>◌, lift, ret, out}
use module_sybase.Messages.{do_exception, purge_messages}
use module_sybase.Query.{Query}
use module_sybase.ResultFactory.{ResultFactory, new_factory, add, add_params, done, res}
use module_sybase.Value.{Value, nothing, string, hash, end, field, Arg}
use module_sybase.Command.Describe.{retr_colinfo}
use module_sybase.Command.Rows.{read_rows, read_rows_as}
use module_sybase.Connection.Handles.{destroyed, invalidate_statement}
use module_sybase.Connection.Library.{Env, Converted, converted, not_converted}
use module_sybase.Connection.Recover.{setup_command, connection_read_next_result}

-- The number of an enumerator.
abbrev pub result_code : ResType → ℕ
result_code res_none = 0
result_code res_param = 1
result_code res_status = 2
result_code res_row = 3
result_code res_end = 4
result_code res_done = 5
result_code res_error = 6
result_code res_retry = 7
result_code res_canceled = 8

-- What the switch of `readOutput` does: it returns, it breaks or it continues.
pub data Turn : Type 0 where
  returned : Value → Turn
  broken : ResultFactory → Turn
  continued : ResultFactory → Turn

abbrev pub with_value : (Value → ResultFactory) → Option Value → Option Turn
with_value f none = none
with_value f (some v) = some (broken (f v))

-- `QoreStringNode::trim_trailing('\n')` of a string; another value is left as it is.
abbrev pub trimmed : Value → Value
trimmed (string t enc) = string (trim_trailing (λ c. c == b'\n') t) enc
trimmed v = v

module _ (env : Env) where
  open env use {build, ct, lib, qore}
  open ct use {World}

  module _ (this : ℕ) (as_list cols single_row : Bool) where
    -- The case `RES_PARAM`, where `query->` is checked.
    unfoldable pub param_turn : ℕ → ResultFactory → Option Query → F World Turn
    param_turn fuel rf none = lift (throw (text "TDS-SYBASE") (text "Not initialized"))
    param_turn fuel rf (some q) = do
      v ← read_rows build ct this fuel (some q.placeholders) false
      ret (broken (add_params rf v))

    unfoldable pub status_turn : ℕ → ResultFactory → F World Turn
    status_turn fuel rf = do
      _ ← read_rows_as build ct this fuel none as_list false false
      c ← lift (get_command this)
      lift (set_command this (record c { colinfo = record c.colinfo { dirty = true } }))
      ret (continued rf)

    -- The switch over the result.
    unfoldable pub turn : ℕ → ResultFactory → ResType → F World Turn
    unfolding param_turn status_turn
    turn fuel rf res_error = ret (returned nothing)
    turn fuel rf res_param = do
      failed ← lift (retr_colinfo build ct this)
      c ← lift (get_command this)
      if failed then ret (returned nothing) else param_turn fuel rf c.query
    turn fuel rf res_row = do
      v ← read_rows_as build ct this fuel none as_list cols single_row
      ret (broken (add rf v))
    turn fuel rf res_end = ret (returned (res rf))
    turn fuel rf res_done = do c ← lift (get_command this); ret (continued (done rf c.rowcount))
    turn fuel rf res_status = do
      failed ← lift (retr_colinfo build ct this)
      if failed then ret (returned nothing) else status_turn fuel rf
    turn fuel rf rt = do
      lift (
          do_exception ct (text "TDS-EXEC-ERROR") (
            text "command::readOutput(): ct_results() returned unknown result value "
            ++ decimal (result_code rt)))
      ret (broken rf)

  -- What follows a turn; the flag is `*xsink`.
  abbrev pub turned : Turn → Bool → (ResultFactory → F World Value) → F World Value
  turned (returned v) stop f = ret v
  turned (broken rf) stop f = if stop then ret nothing else f rf
  turned (continued rf) stop f = f rf

  module _ (reinit : F World ℤ) where
    -- The loop of `readOutput`; `rf` is the factory so far.
    unfoldable pub read_output_loop : ℕ → ℕ → Bool → Bool → Bool → ResultFactory → F World Value
    unfolding connection_read_next_result turn
    read_output_loop zero this as_list cols single_row rf = out
    read_output_loop (suc fuel) this as_list cols single_row rf = do
      rt ← connection_read_next_result env reinit fuel this
      stop ← lift has_exception
      if stop then ret nothing else (do
        t ← turn this as_list cols single_row fuel rf rt
        stop' ← lift has_exception
        turned t stop' (read_output_loop fuel this as_list cols single_row))

    -- `readOutput`
    unfoldable pub read_output : ℕ → ℕ → Bool → Bool → Bool → F World Value
    unfolding read_output_loop
    read_output fuel this as_list cols single_row =
        read_output_loop fuel this as_list cols single_row new_factory

    -- What `execReadOutput` does with its command, which is destroyed then. A null pointer is read
    -- through, which is a fault.
    unfoldable pub read_result : ℕ → ℕ → Bool → Bool → Bool → F World Value
    unfolding read_output
    read_result fuel this need_list cols single_row = do
      v ← read_output fuel this need_list cols single_row
      stop ← lift has_exception
      ret (if stop then nothing else v)

    unfoldable pub run_command : ℕ → Bool → Bool → Bool → Option ℕ → F World Value
    unfolding read_result destroyed
    run_command fuel need_list cols single_row none = λ s. (fault, s)
    run_command fuel need_list cols single_row (some this) =
        λ s. destroyed env this (read_result fuel this need_list cols single_row s)

    -- `execReadOutput`; its `connection_reset` is never set, and is left out.
    unfoldable pub exec_read_output :
        ℕ → Bytes → Option (List Arg) → Bool → Bool → Bool → Bool → F World Value
    unfolding run_command setup_command
    exec_read_output fuel cmd_text args need_list do_binding cols single_row = do
      lift (invalidate_statement env)
      cmd ← setup_command env reinit fuel cmd_text args (not do_binding)
      run_command fuel need_list cols single_row cmd

    -- A query in the connection's encoding, and how it is run.
    abbrev pub in_encoding : Converted → (Bytes → F World Value) → F World Value
    in_encoding (not_converted e) f = do lift (raise e.err e.desc); ret nothing
    in_encoding (converted query) f = do rv ← f query; _ ← lift (purge_messages ct); ret rv

    unfoldable pub with_query : ℕ → Bytes → (Bytes → F World Value) → F World Value
    with_query enc cmd f = do
      to ← lift (gets (λ s. s.conn.enc))
      in_encoding (qore.convert_encoding enc to cmd) f

    -- `select`, `exec`, `execRaw`, `exec_rows` and `exec_row`, for a text in the encoding `enc`.
    unfoldable pub select : ℕ → ℕ → Bytes → Option (List Arg) → F World Value
    unfolding exec_read_output with_query
    select fuel enc cmd args =
        with_query enc cmd λ query. exec_read_output fuel query args false true true false

    unfoldable pub exec : ℕ → ℕ → Bytes → Option (List Arg) → F World Value
    unfolding exec_read_output with_query
    exec fuel enc cmd args =
        with_query enc cmd λ query. exec_read_output fuel query args false true false false

    unfoldable pub exec_raw : ℕ → ℕ → Bytes → F World Value
    unfolding exec_read_output with_query
    exec_raw fuel enc cmd =
        with_query enc cmd λ query. exec_read_output fuel query none false false false false

    unfoldable pub exec_rows : ℕ → ℕ → Bytes → Option (List Arg) → F World Value
    unfolding exec_read_output with_query
    exec_rows fuel enc cmd args =
        with_query enc cmd λ query. exec_read_output fuel query args true true false false

    unfoldable pub exec_row : ℕ → ℕ → Bytes → Option (List Arg) → F World Value
    unfolding exec_read_output with_query
    exec_row fuel enc cmd args =
        with_query enc cmd λ query. exec_read_output fuel query args true true false true

    -- The value of the first key, without newlines at its end. Any other value than a hash fails
    -- the assertion.
    unfoldable pub version_of : Value → F World Value
    version_of nothing = ret nothing
    version_of (hash end) = ret nothing
    version_of (hash (field k v h)) = ret (trimmed v)
    version_of v = λ s. (fault, s)

    -- `get_server_version`
    unfoldable pub get_server_version : ℕ → F World Value
    unfolding exec_read_output version_of
    get_server_version fuel = do
      v ←
          exec_read_output fuel (text "begin tran select @@version commit tran") none true true
            false false
      version_of v
