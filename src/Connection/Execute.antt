-- ===== src/Connection/Execute.antt =====
-- `direct_execute`, `commit` and `rollback` of src/connection.cpp, with the scope guards that cancel
-- and drop the command when the block is left.
pub mod Guards
pub mod Drain
use module_sybase.Base.{
  ℕ, zero, suc, ℤ, Bytes, Option, none, some, List, [], ◌∷◌, ◌++◌, Bool, true, false, not,
  if◌then◌else◌, is_nil, text, format_int,
}
use module_sybase.Ct.{CtLib, RetCode, is_succeed, ResultType, cmd_succeed}
use module_sybase.Effect.{
  State, Connection, Outcome, ok, thrown, fault, M, ◌>>=◌, ◌>>◌, pure, gets, call, skip, require,
  when,
}
use module_sybase.Messages.{do_exception, do_check_exception_fmt, purge_messages}

abbrev pub is_cmd_succeed : ResultType → Bool
is_cmd_succeed cmd_succeed = true
is_cmd_succeed _ = false

module _ {W A : Type 0} where
  -- What a scope guard does when a block is left: in any case, or only if it is left by an error,
  -- where it has been dismissed before. A failed assertion ends the program.
  abbrev pub left : (State W → State W) → Outcome A × State W → Outcome A × State W
  left f (ok a, s) = (ok a, f s)
  left f (thrown e, s) = (thrown e, f s)
  left f (fault, s) = (fault, s)

  abbrev pub left_by_error : (State W → State W) → Outcome A × State W → Outcome A × State W
  left_by_error f (ok a, s) = (ok a, s)
  left_by_error f (thrown e, s) = (thrown e, f s)
  left_by_error f (fault, s) = (fault, s)

module _ (ct : CtLib) where
  open ct use {World}

  -- The guards' calls.
  abbrev pub dropped : Option ℕ → State World → State World
  dropped cmd s = record s { world = (ct.ct_cmd_drop cmd s.world).1 }

  abbrev pub cancelled : Option ℕ → State World → State World
  cancelled cmd s = record s { world = (ct.ct_cancel cmd s.world).1 }

  -- `while ((err = ct_results(cmd, &result_type)) == CS_SUCCEED);`, on fuel.
  unfoldable pub drain : ℕ → Option ℕ → M World (Option (Unit {0}))
  drain zero cmd = pure none
  drain (suc fuel) cmd = do
    (err, t) ← call (ct.ct_results cmd)
    if is_succeed err then drain fuel cmd else pure (some tt)

  -- The block from `ct_command` on, up to `canceller.Dismiss()`.
  unfoldable pub send_and_drain : ℕ → Option ℕ → Bytes → M World (Option (Unit {0}))
  unfolding drain
  send_and_drain fuel cmd sql_text = do
    err ← call (ct.ct_command cmd sql_text)
    when (not (is_succeed err))
        (do_exception ct (text "TDS-EXEC-ERROR") (text "ct_command() failed"))
    err' ← call (ct.ct_send cmd)
    when (not (is_succeed err')) (do_exception ct (text "TDS-EXEC-ERROR") (text "ct_send() failed"))
    (err'', t) ← call (ct.ct_results cmd)
    when (not (is_succeed err'')) (
        do_exception ct (text "TDS-EXEC-ERROR") (
          text "connection::direct_execute(): ct_results() returned error code "
          ++ format_int (ct.ret_number err'')))
    when (not (is_cmd_succeed t)) (
        do_check_exception_fmt ct true (text "TDS-EXEC-ERROR") (
          text "connection::direct_execute(): ct_results() failed with result_type = "
          ++ format_int (ct.result_number t)))
    drain fuel cmd

  -- The block that `ON_BLOCK_EXIT(ct_cmd_drop, cmd)` guards; the result is none where the fuel has
  -- run out.
  unfoldable pub guarded_block : ℕ → Option ℕ → Bytes → M World (Option ℤ)
  unfolding send_and_drain
  guarded_block fuel cmd sql_text = do
    done ← λ s. left_by_error (cancelled cmd) (send_and_drain fuel cmd sql_text s)
    rc ← purge_messages ct
    pure (elim done [ none ↦ none | some u ↦ some rc ])

  -- `direct_execute`
  unfoldable pub direct_execute : ℕ → Bytes → M World (Option ℤ)
  unfolding guarded_block
  direct_execute fuel sql_text = do
    require (not (is_nil sql_text))
    conn ← gets (λ s. s.conn.m_connection)
    (err, cmd) ← call (ct.ct_cmd_alloc conn)
    when (not (is_succeed err))
        (do_exception ct (text "TDS-EXEC-ERROR") (text "ct_cmd_alloc() failed"))
    λ s. left (dropped cmd) (guarded_block fuel cmd sql_text s)

  -- `commit` and `rollback`
  abbrev cancel_all : M World (Unit {0})
  cancel_all = do
    conn ← gets (λ s. s.conn.m_connection)
    _ ← call (ct.ct_cancel_connection conn)
    skip

  unfoldable pub commit : ℕ → M World (Option ℤ)
  unfolding direct_execute
  commit fuel = do cancel_all; direct_execute fuel (text "commit")

  unfoldable pub rollback : ℕ → M World (Option ℤ)
  unfolding direct_execute
  rollback fuel = do cancel_all; direct_execute fuel (text "rollback")
