-- ===== src/Driver/Queries.antt =====
-- The functions of src/sybase.cpp for queries, transactions, versions and options.
use module_sybase.Base.{
  ℕ, ℤ, pos, negsuc, Bytes, Option, none, some, List, ◌++◌, Bool, true, false, not, if◌then◌else◌,
  text,
}
use module_sybase.Build.{Exception}
use module_sybase.Effect.{ok, fault, gets, raise, has_exception, when}
use module_sybase.Effect.Fuelled.{F, ◌>>=◌, ◌>>◌, lift, ret, caught}
use module_sybase.Value.{Value, nothing, int, list, hash, nil, push, Arg}
use module_sybase.Command.Sending.{is_null}
use module_sybase.Connection.Context.{new_context, delete_context, get_client_version}
use module_sybase.Connection.Execute.{commit, rollback}
use module_sybase.Connection.Handles.{set_conn}
use module_sybase.Connection.Library.{Env}
use module_sybase.Connection.Login.{init}
use module_sybase.Connection.Options.{
  QoreOptions, SetOption, option_set, zone_missing, no_option, set_option, get_option,
}
use module_sybase.Connection.Output.{
  select, exec, exec_raw, exec_rows, exec_row, get_server_version,
}
use module_sybase.Driver.{callback}

abbrev pub is_row : Value → Bool
is_row (hash h) = true
is_row nothing = true
is_row v = false

-- `selectRows()` gives a list of one row for a hash.
unfoldable pub as_rows : Value → Value
unfolding push
as_rows (hash h) = list (push nil (hash h))
as_rows v = v

-- `if (!rv) rv = 0;`
unfoldable pub or_zero : Value → Value
or_zero nothing = int (pos 0)
or_zero v = v

module _ (env : Env) where
  open env use {build, ct, lib, qore}
  open ct use {World}

  -- `sybase_select`, `sybase_select_row`, `sybase_select_rows`, `sybase_exec` and `sybase_execRaw`,
  -- for a text in the encoding `enc`. Where an error is caught the null value is returned: `int 0`
  -- as a value, and `nothing` as a pointer.
  unfoldable pub sybase_select : ℕ → ℕ → Bytes → Option (List Arg) → F World Value
  unfolding callback select
  sybase_select fuel enc qstr args =
      callback (int (pos 0)) (select env (init env fuel) fuel enc qstr args)

  unfoldable pub row_only : Value → F World Value
  row_only v = if is_row v then ret v else (do
    stop ← lift has_exception
    lift (
        when (not stop) (
          raise (text "DBI-SELECT-ROW-ERROR") (
            text "selectRow() returned type '"
            ++ qore.type_name v
            ++ text "'; expecting a hash for a single row")))
    ret nothing)

  unfoldable pub sybase_select_row : ℕ → ℕ → Bytes → Option (List Arg) → F World Value
  unfolding callback exec_row row_only
  sybase_select_row fuel enc qstr args =
      callback nothing (do v ← exec_row env (init env fuel) fuel enc qstr args; row_only v)

  unfoldable pub sybase_select_rows : ℕ → ℕ → Bytes → Option (List Arg) → F World Value
  unfolding callback exec_rows as_rows
  sybase_select_rows fuel enc qstr args =
      callback (int (pos 0))
        (do v ← exec_rows env (init env fuel) fuel enc qstr args; ret (as_rows v))

  unfoldable pub sybase_exec : ℕ → ℕ → Bytes → Option (List Arg) → F World Value
  unfolding callback exec or_zero
  sybase_exec fuel enc qstr args =
      callback (int (pos 0)) (do v ← exec env (init env fuel) fuel enc qstr args; ret (or_zero v))

  unfoldable pub sybase_exec_raw : ℕ → ℕ → Bytes → F World Value
  unfolding callback exec_raw or_zero
  sybase_exec_raw fuel enc qstr =
      callback (int (pos 0)) (do v ← exec_raw env (init env fuel) fuel enc qstr; ret (or_zero v))

  -- `sybase_commit` and `sybase_rollback`
  unfoldable pub sybase_commit : ℕ → F World ℤ
  unfolding callback commit
  sybase_commit fuel = callback (pos 0) (commit ct fuel)

  unfoldable pub sybase_rollback : ℕ → F World ℤ
  unfolding callback rollback
  sybase_rollback fuel = callback (pos 0) (rollback ct fuel)

  -- `sybase_get_client_version`: a context is made and destroyed again.
  unfoldable pub version_in : Option ℕ → F World Value
  unfolding get_client_version
  version_in m_context =
      if is_null m_context then ret nothing else lift (get_client_version env m_context)

  unfoldable pub sybase_get_client_version : F World Value
  unfolding callback new_context version_in delete_context
  sybase_get_client_version = callback (int (pos 0)) (do
    m_context ← lift (new_context env)
    v ← version_in m_context
    lift (delete_context env m_context)
    ret v)

  -- `sybase_get_server_version`
  unfoldable pub sybase_get_server_version : ℕ → F World Value
  unfolding callback get_server_version
  sybase_get_server_version fuel =
      callback (int (pos 0)) (get_server_version env (init env fuel) fuel)

  -- `sybase_opt_set`; `find_create_timezone` has raised `zone_error` where there is no zone.
  unfoldable pub option_result : Exception → SetOption → F World ℤ
  option_result zone_error (option_set c) = do lift (set_conn (λ _. c)); ret (pos 0)
  option_result zone_error zone_missing = do
    lift (raise zone_error.err zone_error.desc)
    ret (negsuc 0)
  option_result zone_error no_option = λ s. (fault, s)

  unfoldable pub sybase_opt_set : QoreOptions → Exception → Bytes → Bytes → F World ℤ
  unfolding callback option_result set_option
  sybase_opt_set options zone_error opt val =
      callback (pos 0)
        (do c ← lift (gets (λ s. s.conn)); option_result zone_error (set_option options c opt val))

  -- `sybase_opt_get`, which raises nothing
  abbrev found_option : Option Value → F World Value
  found_option none s = (fault, s)
  found_option (some v) s = (ok (some v), s)

  unfoldable pub sybase_opt_get : QoreOptions → Bytes → F World Value
  unfolding get_option
  sybase_opt_get options opt =
      caught (do c ← lift (gets (λ s. s.conn)); found_option (get_option options build c opt))
        (λ e. ret nothing)
