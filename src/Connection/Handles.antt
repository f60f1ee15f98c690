-- ===== src/Connection/Handles.antt =====
-- The connection's handle, its commands and its statement, of src/connection.h and
-- src/connection.cpp: `ping`, the registration of a statement, the parts of `closeAndReconnect` that
-- need no reconnection, and the life of a command that a `std::unique_ptr` owns.
use module_sybase.Base.{
  ℕ, suc, Option, none, some, [], Bool, false, not, ◌&&◌, if◌then◌else◌, ◌==◌, text,
}
use module_sybase.Ct.{is_succeed}
use module_sybase.Effect.{
  State, Connection, ModuleWrap, Outcome, ok, thrown, fault, M, ◌>>=◌, ◌>>◌, pure, throw, gets,
  call, skip, raise, require, when,
}
use module_sybase.Messages.{discard_messages}
use module_sybase.Command.Results.{cancel_disconnect, is_some}
use module_sybase.Command.Sending.{construct, clear}
use module_sybase.Connection.Context.{delete_context}
use module_sybase.Connection.Library.{Env}

module _ {W : Type 0} where
  abbrev pub get_wrap : ℕ → M W ModuleWrap
  get_wrap wrap s = (ok (s.wraps wrap), s)

  abbrev pub set_wrap : ℕ → ModuleWrap → M W (Unit {0})
  set_wrap wrap w s = (ok tt, record s { wraps = λ a. if a == wrap then w else s.wraps a })

  abbrev pub set_conn : (Connection → Connection) → M W (Unit {0})
  set_conn f s = (ok tt, record s { conn = f s.conn })

  -- The address of an object that is made.
  abbrev pub allocate : M W ℕ
  allocate s = (ok s.fresh, record s { fresh = suc s.fresh })

  -- `xsink->clear()`
  abbrev pub clear_exceptions : M W (Unit {0})
  clear_exceptions s = (ok tt, record s { sink = [] })

  -- `SafePtr::operator->`, with the pointer itself for what is done with it.
  unfoldable pub safe_get : Option ℕ → M W ℕ
  safe_get none = throw (text "TDS-SYBASE") (text "Not initialized")
  safe_get (some a) = pure a

  -- A destructor has been run: an error that leaves it ends the program.
  abbrev pub after_destructor :
      {A : Type 0} → Outcome A → Outcome (Unit {0}) × State W → Outcome A × State W
  after_destructor r (ok u, s) = (r, s)
  after_destructor r (thrown e, s) = (fault, s)
  after_destructor r (fault, s) = (fault, s)

module _ (env : Env) where
  open env use {ct, lib, qore}
  open ct use {World}

  -- `ping`
  unfoldable pub ping : M World Bool
  ping = do
    conn ← gets (λ s. s.conn.m_connection)
    (rc, up) ← call (lib.con_status conn)
    pure (is_succeed rc && up)

  -- `Statement::invalidate`, which `ModuleWrap::invalidate` calls.
  unfoldable pub invalidate : ℕ → M World (Unit {0})
  unfolding safe_get
  invalidate wrap = do
    w ← get_wrap wrap
    require w.m.valid
    context ← safe_get w.m.context
    cancel_disconnect ct context
    set_wrap wrap (record w { m = record w.m { valid = false } })

  -- What is done with the statement that is registered, if there is one.
  unfoldable pub with_registered : Option ℕ → M World (Unit {0})
  with_registered none = skip
  with_registered (some wrap) = invalidate wrap

  -- `invalidateStatement`
  unfoldable pub invalidate_statement : M World (Unit {0})
  unfolding with_registered
  invalidate_statement = do
    stmt ← gets (λ s. s.conn.stmt)
    with_registered stmt
    set_conn (λ c. record c { stmt = none })

  -- `registerStatement`
  unfoldable pub register_statement : ℕ → M World (Unit {0})
  unfolding with_registered
  register_statement n_stmt = do
    stmt ← gets (λ s. s.conn.stmt)
    with_registered stmt
    set_conn (λ c. record c { stmt = some n_stmt })

  abbrev pub is_the : Option ℕ → ℕ → Bool
  is_the none n = false
  is_the (some m) n = m == n

  -- `deregisterStatement`, with the assertion of a debug build, which implies the other one.
  unfoldable pub deregister_statement : ℕ → M World (Unit {0})
  deregister_statement n_stmt = do
    stmt ← gets (λ s. s.conn.stmt)
    require (is_the stmt n_stmt)
    set_conn (λ c. record c { stmt = none })

  -- `closeAndReconnect`, from `ct_close` up to the call of `init`.
  unfoldable pub close_forced : M World (Unit {0})
  close_forced = do
    conn ← gets (λ s. s.conn.m_connection)
    _ ← call (lib.ct_close_force conn)
    set_conn (λ c. record c { connected = false })

  unfoldable pub report_transaction : M World (Unit {0})
  report_transaction = do
    t ← gets (λ s. qore.active_transaction s.world)
    when t (
        raise (text "TDS-TRANSACTION-ERROR")
          (text "connection to server lost while in a transaction; transaction has been lost"))

  unfoldable pub drop_connection : M World (Unit {0})
  drop_connection = do
    conn ← gets (λ s. s.conn.m_connection)
    _ ← call (lib.ct_con_drop conn)
    set_conn (λ c. record c { m_connection = none })

  -- `closeAndReconnect`, up to the call of `init`.
  unfoldable pub close_lost : ℕ → M World (Unit {0})
  unfolding invalidate_statement close_forced report_transaction drop_connection
  close_lost this = do
    cancel_disconnect ct this
    invalidate_statement
    close_forced
    discard_messages ct
    report_transaction
    drop_connection

  -- `ds->connectionAborted()`
  unfoldable pub abort_connection : M World (Unit {0})
  abort_connection s = (ok tt, record s { world = qore.connection_aborted s.world })

  -- `new command(*this, xsink)`
  unfoldable pub new_command : M World ℕ
  new_command = do this ← allocate; construct ct this; pure this

  -- `~command()`, at the end of a block.
  unfoldable pub destroyed : {A : Type 0} → ℕ → Outcome A × State World → Outcome A × State World
  destroyed this (fault, s) = (fault, s)
  destroyed this (r, s) = after_destructor r (clear ct this (qore.was_connection_aborted s.world) s)

  -- The destructor of `connection`.
  unfoldable pub close_handle : Option ℕ → M World (Unit {0})
  close_handle conn = do
    connected ← gets (λ s. s.conn.connected)
    when connected (do
      ret ← call (lib.ct_close conn)
      when (not (is_succeed ret))
          (do ret' ← call (lib.ct_close_force conn); require (is_succeed ret')))
    ret ← call (lib.ct_con_drop conn)
    require (is_succeed ret)

  unfoldable pub destruct : M World (Unit {0})
  unfolding invalidate_statement close_handle
  destruct = do
    invalidate_statement
    conn ← gets (λ s. s.conn.m_connection)
    when (is_some conn) (close_handle conn)

  -- `delete` of a connection: its destructor, and that of its context.
  unfoldable pub delete_connection : M World (Unit {0})
  unfolding destruct delete_context
  delete_connection s =
      after_destructor (ok tt)
        ((do destruct; m_context ← gets (λ s. s.conn.m_context); delete_context env m_context) s)
