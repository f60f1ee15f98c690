-- ===== src/Statements/Methods.antt =====
-- The methods of `Statement` of src/statement.h and src/statement.cpp, for the statement of a wrap.
use module_sybase.Base.{
  ℕ, zero, suc, ℤ, pos, negsuc, ◌-ℤ◌, ltb_ℤ, Bytes, Option, none, some, List, [], Bool, true, false,
  not, ◌&&◌, if◌then◌else◌, text,
}
use module_sybase.Effect.{
  Statement, fault, raise, has_exception, get_command, ResType, res_row, res_param,
}
use module_sybase.Effect.Fuelled.{F, ◌>>=◌, ◌>>◌, lift, ret, out}
use module_sybase.Value.{Value, nothing, hash, list, Items, nil, push, Fields, Arg}
use module_sybase.Command.Results.{cancel, is_some}
use module_sybase.Command.Rows.{fetch_row, read_cols}
use module_sybase.Connection.Handles.{get_wrap, set_wrap, safe_get, destroyed}
use module_sybase.Connection.Library.{Env}
use module_sybase.Connection.Recover.{setup_command, connection_read_next_result}
use module_sybase.Connection.Login.{init}

abbrev pub expect_row : ResType → Bool
expect_row res_row = true
expect_row res_param = true
expect_row _ = false

-- `Statement()`
abbrev pub new_statement : Statement
new_statement = record { exec_res = none; context = none; placeholders = []; valid = true }

-- A pointer to a hash, and the value for a pointer.
abbrev pub row_of : Value → Option Fields
row_of (hash h) = some h
row_of v = none

abbrev pub pushed : Items → Option Fields → Items
pushed l none = l
pushed l (some h) = push l (hash h)

module _ (env : Env) where
  open env use {build, ct, lib, qore}
  open ct use {World}

  -- The statement of a wrap, and a change of it.
  abbrev pub get_statement : ℕ → F World Statement
  get_statement wrap = do w ← lift (get_wrap wrap); ret w.m

  abbrev pub set_statement : ℕ → (Statement → Statement) → F World (Unit {0})
  set_statement wrap f = do w ← lift (get_wrap wrap); lift (set_wrap wrap (record w { m = f w.m }))

  -- `checkValid`: whether it has raised the error.
  unfoldable pub check_valid : ℕ → F World Bool
  check_valid wrap = do
    m ← get_statement wrap
    if m.valid then ret false else (do
      lift (
          raise (text "STATEMENT-CONNECTION-ERROR") (
            text
              "the connection was lost while the statement was in progress; it cannot be used any longer"))
      ret true)

  -- `if (context.get()) context->cancel();`
  unfoldable pub cancel_context : Option ℕ → F World (Unit {0})
  cancel_context none = ret tt
  cancel_context (some this) = do _ ← lift (cancel ct this); ret tt

  -- The old command is destroyed where `context.reset` puts another one into its place.
  unfoldable pub reset_context : Option ℕ → F World (Unit {0})
  unfolding destroyed
  reset_context none = ret tt
  reset_context (some old) = λ s. destroyed env old (ret tt s)

  -- `*context.get()`: a null pointer is not checked for.
  unfoldable pub context_of : Option ℕ → F World ℕ
  context_of none = λ s. (fault, s)
  context_of (some this) = ret this

  -- `exec` after `setupCommand`.
  unfoldable pub executed : ℕ → ℕ → Option ℕ → F World ℤ
  unfolding reset_context context_of connection_read_next_result
  executed fuel wrap cmd = do
    m ← get_statement wrap
    set_statement wrap (λ m. record m { context = cmd })
    reset_context m.context
    stop ← lift has_exception
    if stop then ret (negsuc 0) else (do
      this ← context_of cmd
      _ ← connection_read_next_result env (init env fuel) fuel this
      stop' ← lift has_exception
      ret (if stop' then negsuc 0 else pos 0))

  -- A query that has not been prepared is a null pointer, which is not checked for.
  unfoldable pub query_text : Option Bytes → F World Bytes
  query_text none = λ s. (fault, s)
  query_text (some query) = ret query

  -- `exec`
  unfoldable pub exec : ℕ → ℕ → Option Bytes → Option (List Arg) → Bool → F World ℤ
  unfolding check_valid cancel_context query_text executed setup_command
  exec fuel wrap query args raw = do
    failed ← check_valid wrap
    if failed then ret (negsuc 0) else (do
      m ← get_statement wrap
      cancel_context m.context
      cmd_text ← query_text query
      cmd ← setup_command env (init env fuel) fuel cmd_text args raw
      executed fuel wrap cmd)

  -- `next` after `readNextResult`.
  unfoldable pub next_row : ℕ → ℕ → ResType → F World Bool
  unfolding fetch_row
  next_row wrap this res = do
    m ← get_statement wrap
    if expect_row res && not (is_some m.exec_res)
        then (do
          v ← lift (fetch_row build ct this none)
          set_statement wrap (λ m. record m { exec_res = row_of v }))
        else ret tt
    m' ← get_statement wrap
    ret (is_some m'.exec_res)

  -- `next`
  unfoldable pub next : ℕ → ℕ → F World Bool
  unfolding check_valid context_of connection_read_next_result next_row
  next fuel wrap = do
    failed ← check_valid wrap
    if failed then ret false else (do
      m ← get_statement wrap
      this ← context_of m.context
      res ← connection_read_next_result env (init env fuel) fuel this
      stop ← lift has_exception
      if stop then ret false else next_row wrap this res)

  -- `fetch_row`, which is `release_res`
  unfoldable pub release_res : ℕ → F World (Option Fields)
  release_res wrap = do
    m ← get_statement wrap
    set_statement wrap (λ m. record m { exec_res = none })
    ret m.exec_res

  -- A round of the loop of `fetch_rows`; `l` is the list so far.
  unfoldable pub row_round : (Items → F World Value) → ℕ → ℕ → Items → F World Value
  row_round again fuel wrap l = do
    h ← release_res wrap
    more ← next fuel wrap
    if more then again (pushed l h) else ret (list (pushed l h))

  -- The loop of `fetch_rows`: `r` is the number asked for, `rows` counts it down. The null pointer is
  -- `nothing`.
  unfoldable pub fetch_rows_loop : ℕ → ℕ → ℤ → ℤ → Items → F World Value
  unfolding row_round
  fetch_rows_loop zero wrap r rows l = out
  fetch_rows_loop (suc fuel) wrap r rows l =
      let again = fetch_rows_loop fuel wrap r (if ltb_ℤ (pos 0) r then rows -ℤ pos 1 else rows) in
      if ltb_ℤ (pos 0) r && ltb_ℤ rows (pos 0)
      then ret (list l)
      else (do stop ← lift has_exception; if stop then ret nothing else row_round again fuel wrap l)

  -- `fetch_rows`
  unfoldable pub fetch_rows : ℕ → ℕ → ℤ → F World Value
  unfolding check_valid fetch_rows_loop
  fetch_rows fuel wrap rows = do
    failed ← check_valid wrap
    if failed then ret nothing else fetch_rows_loop fuel wrap rows rows nil

  -- `get_output`
  unfoldable pub get_output : ℕ → ℕ → F World Value
  unfolding check_valid read_cols safe_get
  get_output fuel wrap = do
    failed ← check_valid wrap
    if failed then ret nothing else (do
      m ← get_statement wrap
      this ← lift (safe_get m.context)
      read_cols build ct this fuel (some m.placeholders) (negsuc 0) false)

  -- `affected_rows`, which calls `get_row_count`
  unfoldable pub affected_rows : ℕ → F World ℤ
  unfolding check_valid safe_get
  affected_rows wrap = do
    failed ← check_valid wrap
    if failed then ret (pos 0) else (do
      m ← get_statement wrap
      this ← lift (safe_get m.context)
      c ← lift (get_command this)
      ret c.rowcount)

  -- `fetch_columns`
  unfoldable pub fetch_columns : ℕ → ℕ → ℤ → F World Value
  unfolding check_valid read_cols safe_get
  fetch_columns fuel wrap rows = do
    failed ← check_valid wrap
    if failed then ret nothing else (do
      m ← get_statement wrap
      this ← lift (safe_get m.context)
      read_cols build ct this fuel none rows false)

  -- `bind_placeholders`, for a list of strings
  unfoldable pub bind_placeholders : ℕ → List Bytes → F World ℤ
  unfolding check_valid
  bind_placeholders wrap l = do
    failed ← check_valid wrap
    if failed
        then ret (negsuc 0)
        else (do set_statement wrap (λ m. record m { placeholders = l }); ret (pos 0))
