-- ===== src/Connection/Recover.antt =====
-- `closeAndReconnect`, `setupCommand` and `readNextResult` of src/connection.cpp: a connection that
-- is lost is closed and opened again, by `init`, which is an argument here.
use module_sybase.Base.{
  ℕ, zero, suc, ℤ, pos, negsuc, eq_ℤ, Bytes, Option, none, some, List, Bool, true, false, not, ◌||◌,
  if◌then◌else◌, text,
}
use module_sybase.Build.{Exception}
use module_sybase.Effect.{
  State, Outcome, ok, thrown, fault, gets, raise, require, has_exception, ResType, res_error,
}
use module_sybase.Effect.Fuelled.{F, ◌>>=◌, ◌>>◌, lift, ret, out, caught, rethrow}
use module_sybase.Query.{
  Query, init, init_raw, Outcome as Scanned, done, bad_percent, missing_name, string_failed,
  overrun, out_of_fuel,
}
use module_sybase.Value.{Arg}
use module_sybase.Command.Params.{bind_query}
use module_sybase.Command.Results.{read_next_result}
use module_sybase.Command.Sending.{send, is_null}
use module_sybase.Connection.Handles.{
  ping, close_lost, abort_connection, clear_exceptions, new_command, destroyed,
}
use module_sybase.Connection.Library.{Env}

module _ (env : Env) where
  open env use {build, ct, lib, qore}
  open ct use {World}

  -- The query that `sybase_query::init` makes; with none, an exception has been raised. Reading on
  -- behind the text is a fault.
  unfoldable pub query_of : Scanned → F World (Option Query)
  query_of (done q) = ret (some q)
  query_of bad_percent = do
    lift (raise (text "DBI-EXEC-EXCEPTION") (text "Only %v or %d expected in parameter list"))
    ret none
  query_of missing_name = do
    lift (raise (text "DBI-EXEC-EXCEPTION") (text "Placeholder name missing after ':'"))
    ret none
  query_of string_failed = do
    lift (raise qore.concat_string_error.err qore.concat_string_error.desc)
    ret none
  query_of overrun = λ s. (fault, s)
  query_of out_of_fuel = out

  unfoldable pub made_query : Bytes → Option (List Arg) → Bool → F World (Option Query)
  unfolding query_of
  made_query cmd_text args raw =
      if raw
      then (do lift (require (is_null args)); ret (some (init_raw cmd_text)))
      else query_of (init qore.dbi args cmd_text)

  -- A command stays with the caller if it has been sent, and is destroyed otherwise.
  unfoldable pub released :
      ℕ → Outcome (Option Bool) × State World → Outcome (Option Bool) × State World
  unfolding destroyed
  released this (ok (some true), s) = (ok (some true), s)
  released this (ok (some false), s) = destroyed env this (ok (some false), s)
  released this (ok none, s) = (ok none, s)
  released this (thrown e, s) = destroyed env this (thrown e, s)
  released this (fault, s) = (fault, s)

  module _ (reinit : F World ℤ) where
    -- What `closeAndReconnect` does after `init`.
    unfoldable pub reconnected : Bool → ℤ → F World ℤ
    unfolding abort_connection
    reconnected try_reconnect rc =
        if not (eq_ℤ rc (pos 0)) then (do lift (abort_connection env); ret (negsuc 0)) else (do
          t ← lift (gets (λ s. qore.active_transaction s.world))
          if not try_reconnect || t
              then ret (negsuc 0)
              else (do lift clear_exceptions; ret (pos 0)))

    -- `closeAndReconnect`
    unfoldable pub close_and_reconnect : ℕ → Bool → F World ℤ
    unfolding close_lost reconnected
    close_and_reconnect this try_reconnect = do
      lift (close_lost env this)
      rc ← reinit
      reconnected try_reconnect rc

    -- The `catch` of `setupCommand`: whether the loop goes on, or the error is thrown again.
    unfoldable pub retry : ℕ → Exception → F World Bool
    unfolding close_and_reconnect ping
    retry this e = do
      up ← lift (ping env)
      if up then rethrow e else (do
        rc ← close_and_reconnect this true
        if eq_ℤ rc (pos 0) then ret false else rethrow e)

    -- `bind_query` and `send` of `setupCommand`: whether the command has been sent.
    unfoldable pub bind_and_send : ℕ → Query → Option (List Arg) → F World Bool
    unfolding retry
    bind_and_send this q args = do
      lift (bind_query build ct qore.get_info this q args)
      caught (do lift (send ct this); ret true) (retry this)

    -- One round of `setupCommand`; the result is none if there is a further one.
    unfoldable pub attempt : Option Query → Option (List Arg) → F World (Option (Option ℕ))
    unfolding new_command released bind_and_send
    attempt none args = ret (some none)
    attempt (some q) args = do
      this ← lift (new_command env)
      sent ← λ s. released this (bind_and_send this q args s)
      ret (if sent then some (some this) else none)

    abbrev pub or_again : {A : Type 0} → Option A → F World A → F World A
    or_again none m = m
    or_again (some a) m = ret a

    -- `setupCommand`: `none` is the null pointer. The fuel bounds the number of reconnections.
    unfoldable pub setup_command : ℕ → Bytes → Option (List Arg) → Bool → F World (Option ℕ)
    unfolding made_query attempt
    setup_command zero cmd_text args raw = out
    setup_command (suc fuel) cmd_text args raw = do
      query ← made_query cmd_text args raw
      r ← attempt query args
      or_again r (setup_command fuel cmd_text args raw)

    -- `readNextResult` after `read_next_result` of the command; the flag is `disconnect`.
    unfoldable pub after_result : ℕ → ResType → Bool → F World ResType
    unfolding close_and_reconnect
    after_result this rc false = ret rc
    after_result this rc true = do _ ← close_and_reconnect this false; ret res_error

    -- `readNextResult`; its `connection_reset` is never set, and is left out.
    unfoldable pub connection_read_next_result : ℕ → ℕ → F World ResType
    unfolding after_result
    connection_read_next_result fuel this = do
      stop ← lift has_exception
      if stop then ret res_error else (do
        (rc, disconnect) ← read_next_result ct this fuel
        after_result this rc disconnect)
