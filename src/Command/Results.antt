-- ===== src/Command/Results.antt =====
-- `read_next_result1`, `read_next_result` and the cancelling of a command: the state machine over
-- `lastRes`.
pub mod Steps
pub mod Errors
pub mod Ends
use module_sybase.Base.{
  ℕ, zero, suc, ℤ, pos, negsuc, Bytes, Option, none, some, List, [], ◌∷◌, ◌++◌, Bool, true, false,
  not, ◌&&◌, ◌||◌, if◌then◌else◌, ◌==◌, text, format_int,
}
use module_sybase.Ct.{
  CtLib, RetCode, succeed, fail, end_results, is_succeed, is_fail, ResultType, cmd_done,
  cmd_succeed, cmd_fail, param_result, status_result, row_result, other_result,
}
use module_sybase.Effect.{
  ResType, res_none, res_param, res_status, res_row, res_end, res_done, res_error, res_retry,
  res_canceled, Columns, Command, Connection, State, Outcome, ok, thrown, fault, M, ◌>>=◌, ◌>>◌,
  pure, throw, gets, call, skip, raise, require, has_exception, when, get_command, set_command,
}
use module_sybase.Messages.{do_exception, purge_messages}

abbrev pub is_some {ℓ} : {A : Type ℓ} → Option A → Bool
is_some none = false
is_some (some a) = true

-- In these states `read_next_result1` reads on.
abbrev pub is_readable : ResType → Bool
is_readable res_done = true
is_readable res_none = true
is_readable res_retry = true
is_readable _ = false

abbrev pub is_end : ResType → Bool
is_end res_end = true
is_end _ = false

abbrev pub is_retry : ResType → Bool
is_retry res_retry = true
is_retry _ = false

module _ (ct : CtLib) (this : ℕ) where
  open ct use {World}

  -- `cancelIntern`: whether the cancellation failed, so that the connection has to be closed.
  unfoldable pub cancel_intern : M World Bool
  cancel_intern = do
    c ← get_command this
    require (is_some c.m_cmd)
    ret ← call (ct.ct_cancel c.m_cmd)
    pure (is_fail ret)

  -- `cancelDisconnect`
  unfoldable pub cancel_disconnect : M World (Unit {0})
  unfolding cancel_intern
  cancel_disconnect = do
    c ← get_command this
    require (is_some c.m_cmd)
    _ ← cancel_intern
    _ ← call (ct.ct_cmd_drop c.m_cmd)
    set_command this (record c { m_cmd = none })

  -- `cancel`
  unfoldable pub cancel : M World Bool
  unfolding cancel_intern
  cancel = do
    c ← get_command this
    if is_end c.last_res
        then pure false
        else (do set_command this (record c { last_res = res_canceled }); cancel_intern)

  -- The case CS_CMD_DONE: the row count is read.
  unfoldable pub cmd_done_result : M World ResType
  cmd_done_result = do
    c ← get_command this
    (ret, n) ← call (ct.ct_res_info_row_count c.m_cmd (negsuc 0))
    set_command this (record c { rowcount = n })
    if not (is_succeed ret)
        then (do
          do_exception ct (text "TDS-EXEC-EXCEPTION")
              (text "ct_res_info() failed with error " ++ format_int (ct.ret_number ret))
          _ ← purge_messages ct
          pure res_error)
        else (do
          c' ← get_command this
          set_command this (record c' { colinfo = record c'.colinfo { dirty = true } })
          pure res_done)

  -- The switch over the result type.
  unfoldable pub result_of : ResultType → M World ResType
  unfolding cmd_done_result
  result_of cmd_done = cmd_done_result
  result_of cmd_succeed = pure res_retry
  result_of cmd_fail = do
    do_exception ct (text "TDS-EXEC-ERROR") (text "command::read_output(): SQL command failed")
    pure res_error
  result_of param_result = pure res_param
  result_of status_result = pure res_status
  result_of row_result = pure res_row
  result_of (other_result n) = do
    do_exception ct (text "TDS-EXEC-ERROR") (
        text "command::read_output(): ct_results() returned unexpected result type "
        ++ format_int n)
    pure res_error

  -- The switch over the return code of `ct_results`. The second result: whether `disconnect` is set.
  unfoldable pub results_of : RetCode → ResultType → M World (ResType × Bool)
  unfolding result_of cancel_intern
  results_of end_results t = pure (res_end, false)
  results_of fail t = do
    failed ← cancel_intern
    raise (text "TDS-EXEC-ERROR")
        (text "command::read_output(): ct_results() failed with CS_FAIL, command canceled")
    pure (res_error, failed)
  results_of succeed t = do r ← result_of t; pure (r, false)
  results_of ret t = do
    do_exception ct (text "TDS-EXEC-ERROR") (
        text "command::read_output(): ct_results() returned error code "
        ++ format_int (ct.ret_number ret))
    pure (res_error, false)

  -- `read_next_result1`
  unfoldable pub read_next_result1 : M World (ResType × Bool)
  unfolding results_of
  read_next_result1 = do
    stop ← has_exception
    c ← get_command this
    if stop
        then pure (res_error, false)
        else if is_readable c.last_res
        then (do (ret, t) ← call (ct.ct_results c.m_cmd); results_of ret t)
        else pure (c.last_res, false)

  -- `read_next_result`: the loop over RES_RETRY, on fuel; `none` means that the fuel has run out. A
  -- call that sets `disconnect` returns RES_ERROR, so it ends the loop.
  unfoldable pub read_next_result : ℕ → M World (Option (ResType × Bool))
  read_next_result zero = pure none
  read_next_result (suc fuel) = do
    r ← read_next_result1
    c ← get_command this
    set_command this (record c { last_res = r.0 })
    if is_retry r.0 then read_next_result fuel else pure (some r)
