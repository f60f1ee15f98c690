-- ===== src/Driver.antt =====
-- src/sybase.cpp: the functions that Qore calls for a datasource. An error that is thrown ends there:
-- END_CALLBACK raises it. The connection of the state is the datasource's private data.
pub mod Open
pub mod Queries
pub mod Callback
pub mod Opened
use module_sybase.Base.{
  ℕ, zero, suc, ℤ, pos, negsuc, Bytes, Option, none, some, List, [], ◌∷◌, ◌++◌, Bool, true, false,
  not, ◌&&◌, ◌==◌, if◌then◌else◌, text, decimal,
}
use module_sybase.Build.{Exception}
use module_sybase.Effect.{
  State, Connection, Outcome, ok, thrown, fault, M, gets, raise, has_exception, when, skip,
}
use module_sybase.Effect.Fuelled.{F, ◌>>=◌, ◌>>◌, lift, ret, caught, rethrow}
use module_sybase.Encoding.{name_to_qore_encoding, qore_encoding_to_sybase_name}
use module_sybase.Number.{num_optimal}
use module_sybase.Value.{Value, nothing, int, list, hash, nil, push, is_value, Arg}
use module_sybase.Command.Sending.{is_null}
use module_sybase.Connection.Context.{new_context, delete_context, get_client_version}
use module_sybase.Connection.Execute.{commit, rollback}
use module_sybase.Connection.Handles.{set_conn, delete_connection}
use module_sybase.Connection.Library.{Env}
use module_sybase.Connection.Login.{init}
use module_sybase.Connection.Options.{
  QoreOptions, SetOption, option_set, zone_missing, no_option, set_option, get_option,
}
use module_sybase.Connection.Output.{
  select, exec, exec_raw, exec_rows, exec_row, get_server_version,
}
use module_sybase.Statements.Wrap.{raise_error}

module _ {W : Type 0} where
  -- BEGIN_CALLBACK and END_CALLBACK
  unfoldable pub callback : {A : Type 0} → A → F W A → F W A
  unfolding raise_error
  callback rv m = caught m (λ e. do raise_error e; ret rv)
