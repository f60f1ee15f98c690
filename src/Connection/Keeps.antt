-- ===== src/Connection/Keeps.antt =====
-- What the recovery of a connection and the methods that run a query keep.
use module_sybase.Base.{
  ℕ, zero, suc, ℤ, Bytes, Option, none, some, List, Bool, true, false, if◌then◌else◌, ◌≡◌, refl,
}
use module_sybase.Build.{Exception}
use module_sybase.Effect.{State, Connection, Outcome, ok, thrown, fault, ResType}
use module_sybase.Effect.Fuelled.{F}
use module_sybase.Effect.FuelledKeeps.{
  fkeeps, FKeeps-ret, FKeeps-out, FKeeps-fault, FKeeps-bind, FKeeps-lift,
}
use module_sybase.Effect.Keeps.{Keeps, IsFrame, keeps, Keeps-bind}
use module_sybase.Messages.Keeps.{discard_messages-Keeps}
use module_sybase.Query.{
  Query, Outcome as Scanned, done, bad_percent, missing_name, string_failed, overrun, out_of_fuel,
}
use module_sybase.Value.{Arg}
use module_sybase.Command.Keeps.{
  construct-Keeps, send-Keeps, clear-Keeps, cancel_disconnect-Keeps, read_next_result-Keeps,
}
use module_sybase.Command.Keeps.Params.{bind_query-Keeps}
use module_sybase.Connection.Handles.{
  set_conn, allocate, ping, close_lost, close_forced, report_transaction, drop_connection,
  new_command, destroyed, invalidate_statement, after_destructor,
}
use module_sybase.Connection.Library.{Env}
use module_sybase.Connection.Recover.{
  query_of, made_query, released, close_and_reconnect, retry, bind_and_send, attempt, or_again,
  setup_command, after_result, connection_read_next_result,
}

-- What does not depend on the connection's members but for the statement, on the address of the next
-- object, or on a statement that is invalidated.
pub record IsQueryFrame (env : Env) (P : State env.ct.World → Type 0) : Type 0 where
  pub frame : IsFrame P
  pub by_conn :
      (s : State env.ct.World) (c : Connection)
      → c.stmt ≡ s.conn.stmt
      → P s
      → P (record s { conn = c })
  pub by_fresh : (s : State env.ct.World) → P s → P (record s { fresh = suc s.fresh })
  pub by_invalidate : Keeps P (invalidate_statement env)

module _ (env : Env) {P : State env.ct.World → Type 0} (q : IsQueryFrame env P) where
  open env use {build, ct, lib, qore}
  open ct use {World}

  pub after_destructor-Keeps :
      {A : Type 0} (r : Outcome A) (o : Outcome (Unit {0}) × State World)
      → P o.1
      → P (after_destructor r o).1
  after_destructor-Keeps r (ok u, s) h = h
  after_destructor-Keeps r (thrown e, s) h = h
  after_destructor-Keeps r (fault, s) h = h

  pub destroyed-Keeps :
      {A : Type 0} (this : ℕ) (r : Outcome A × State World) → P r.1 → P (destroyed env this r).1
  unfolding destroyed
  destroyed-Keeps this (fault, s) h = h
  destroyed-Keeps this (ok a, s) h =
      after_destructor-Keeps (ok a) _ ((clear-Keeps ct q.frame this _).at s h)
  destroyed-Keeps this (thrown e, s) h =
      after_destructor-Keeps (thrown e) _ ((clear-Keeps ct q.frame this _).at s h)

  pub set_conn-Keeps :
      (f : Connection → Connection)
      → ((c : Connection) → (f c).stmt ≡ c.stmt)
      → Keeps P (set_conn f)
  set_conn-Keeps f e = record { at = λ s h. q.by_conn s (f s.conn) (e s.conn) h }

  disconnected-Keeps : (b : Bool) → Keeps P (set_conn (λ c. record c { connected = b }))
  disconnected-Keeps b = set_conn-Keeps _ (λ c. refl)

  handle-Keeps : (h : Option ℕ) → Keeps P (set_conn (λ c. record c { m_connection = h }))
  handle-Keeps h = set_conn-Keeps _ (λ c. refl)

  allocate-Keeps : Keeps P allocate
  allocate-Keeps = record { at = q.by_fresh }

  close_forced-Keeps : Keeps P (close_forced env)
  unfolding close_forced
  close_forced-Keeps = search (keeps, q.frame, disconnected-Keeps) depth 20

  report_transaction-Keeps : Keeps P (report_transaction env)
  unfolding report_transaction
  report_transaction-Keeps = search (keeps, q.frame) depth 20

  drop_connection-Keeps : Keeps P (drop_connection env)
  unfolding drop_connection
  drop_connection-Keeps = search (keeps, q.frame, handle-Keeps) depth 20

  pub close_lost-Keeps : (this : ℕ) → Keeps P (close_lost env this)
  unfolding close_lost
  close_lost-Keeps this = Keeps-bind _ _ (cancel_disconnect-Keeps ct q.frame this) λ u₁.
      Keeps-bind _ _ q.by_invalidate λ u₂. Keeps-bind _ _ close_forced-Keeps λ u₃.
        Keeps-bind _ _ (discard_messages-Keeps ct q.frame)
          λ u₄. Keeps-bind _ _ report_transaction-Keeps λ u₅. drop_connection-Keeps

  pub new_command-Keeps : Keeps P (new_command env)
  unfolding new_command
  new_command-Keeps = search (keeps, q.frame, allocate-Keeps, construct-Keeps) depth 20

  module _ (reinit : F World ℤ)
      (close : (this : ℕ) (b : Bool) → Keeps P (close_and_reconnect env reinit this b)) where
    ping-Keeps : Keeps P (ping env)
    unfolding ping
    ping-Keeps = search (keeps, q.frame) depth 20

    retry-Keeps : (this : ℕ) (e : Exception) → Keeps P (retry env reinit this e)
    unfolding retry
    retry-Keeps this e = search (fkeeps, close, ping-Keeps) depth 20

    bind_and_send-Keeps :
        (this : ℕ) (query : Query) (args : Option (List Arg))
        → Keeps P (bind_and_send env reinit this query args)
    unfolding bind_and_send
    bind_and_send-Keeps this query args =
        search (fkeeps, q.frame, bind_query-Keeps, send-Keeps, retry-Keeps) depth 20

    query_of-Keeps : (o : Scanned) → Keeps P (query_of env o)
    unfolding query_of
    query_of-Keeps (done query) = FKeeps-ret _
    query_of-Keeps bad_percent = search (fkeeps, keeps, q.frame) depth 20
    query_of-Keeps missing_name = search (fkeeps, keeps, q.frame) depth 20
    query_of-Keeps string_failed = search (fkeeps, keeps, q.frame) depth 20
    query_of-Keeps overrun = FKeeps-fault
    query_of-Keeps out_of_fuel = FKeeps-out

    made_query-Keeps :
        (t : Bytes) (args : Option (List Arg)) (raw : Bool) → Keeps P (made_query env t args raw)
    unfolding made_query
    made_query-Keeps t args raw = search (fkeeps, keeps, query_of-Keeps) depth 20

    released-Keeps :
        (this : ℕ) (r : Outcome (Option Bool) × State World) → P r.1 → P (released env this r).1
    unfolding released
    released-Keeps this (ok none, s) h = h
    released-Keeps this (ok (some true), s) h = h
    released-Keeps this (ok (some false), s) h = destroyed-Keeps this (ok (some false), s) h
    released-Keeps this (thrown e, s) h = destroyed-Keeps {A = Option Bool} this (thrown e, s) h
    released-Keeps this (fault, s) h = h

    attempt-Keeps :
        (o : Option Query) (args : Option (List Arg)) → Keeps P (attempt env reinit o args)
    unfolding attempt
    attempt-Keeps none args = FKeeps-ret _
    attempt-Keeps (some query) args = FKeeps-bind _ _ (FKeeps-lift _ new_command-Keeps) λ this.
        FKeeps-bind _ _
          (record {
            at = λ s h. released-Keeps this _ ((bind_and_send-Keeps this query args).at s h);
          })
          λ sent. FKeeps-ret (if sent then some (some this) else none)

    or_again-Keeps :
        {A : Type 0} (o : Option A) (m : F World A) → Keeps P m → Keeps P (or_again env reinit o m)
    or_again-Keeps none m km = km
    or_again-Keeps (some a) m km = FKeeps-ret a

    pub setup_command-Keeps :
        (fuel : ℕ) (t : Bytes) (args : Option (List Arg)) (raw : Bool)
        → Keeps P (setup_command env reinit fuel t args raw)
    unfolding setup_command
    setup_command-Keeps zero t args raw = FKeeps-out
    setup_command-Keeps (suc fuel) t args raw = FKeeps-bind _ _ (made_query-Keeps t args raw) λ o.
        FKeeps-bind _ _ (attempt-Keeps o args)
          λ r. or_again-Keeps r _ (setup_command-Keeps fuel t args raw)

    after_result-Keeps :
        (this : ℕ) (rc : ResType) (b : Bool) → Keeps P (after_result env reinit this rc b)
    unfolding after_result
    after_result-Keeps this rc false = FKeeps-ret rc
    after_result-Keeps this rc true = search (fkeeps, close) depth 20

    pub connection_read_next_result-Keeps :
        (fuel this : ℕ) → Keeps P (connection_read_next_result env reinit fuel this)
    unfolding connection_read_next_result
    connection_read_next_result-Keeps fuel this =
        search (fkeeps, keeps, q.frame, read_next_result-Keeps, after_result-Keeps) depth 20
