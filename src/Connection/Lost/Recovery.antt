-- ===== src/Connection/Lost/Recovery.antt =====
-- `closeAndReconnect` and `readNextResult` of src/connection.cpp, where a connection is lost with an
-- exception before or in a transaction.
use module_sybase.Base.{
  ℕ, ℤ, negsuc, some, Bool, true, false, ◌⊎◌, inl, inr, refl, arith, ◌≡◌, is_nil, subst, ap,
}
use module_sybase.Effect.{State, Outcome, ok, thrown, fault, M, follow, ◌>>◌}
use module_sybase.Effect.Fuelled.{fuelled, lifted, ◌>>=◌}
use module_sybase.Messages.{discard_messages}
use module_sybase.Command.Results.{cancel_disconnect}
use module_sybase.Connection.Handles.{
  close_lost, close_forced, report_transaction, drop_connection, invalidate_statement,
}
use module_sybase.Connection.Keeps.{close_lost-Keeps}
use module_sybase.Connection.Library.{Env}
use module_sybase.Connection.Login.{init}
use module_sybase.Connection.Lost.{HasException, HasException-IsQueryFrame, is_nil-append}
use module_sybase.Connection.Lost.Init.{IsAborted, reopened-IsAborted, init-IsLost}
use module_sybase.Connection.Recover.{reconnected, close_and_reconnect}

module _ (env : Env) where
  open env use {build, ct, lib, qore}
  open ct use {World}

  -- Where `m` returns, there is an exception.
  record Raises (m : M World (Unit {0})) : Type 0 where
    at : (s t : State World) → m s ≡ (ok tt, t) → HasException t

  Raises-then : (m k : M World (Unit {0})) → Raises k → Raises (m >> k)
  Raises-then m k rk = record { at = λ s t. after (m s).0 (m s).1 t }
    where
      after :
          (o : Outcome (Unit {0})) (s t : State World)
          → follow o (λ _. k) s ≡ (ok tt, t)
          → HasException t
      after (ok u) s t e = rk.at s t e
      after (thrown x) s t e = absurd cc
      after fault s t e = absurd cc

  report-Raises :
      ((w : World) → qore.active_transaction w ≡ true)
      → Raises (do report_transaction env; drop_connection env)
  unfolding report_transaction drop_connection
  report-Raises h = record { at = λ s t e. grind (arith, rw (h s.world) at e, is_nil-append) }

  close_lost-Raises :
      (this : ℕ) → ((w : World) → qore.active_transaction w ≡ true) → Raises (close_lost env this)
  unfolding close_lost
  close_lost-Raises this h = Raises-then (cancel_disconnect ct this) _ (
      Raises-then (invalidate_statement env) _
        (Raises-then (close_forced env) _ (Raises-then (discard_messages ct) _ (report-Raises h))))

  -- Either is enough for there to be an exception when the connection has been closed.
  abbrev pub CannotRecover : State World → Type 0
  CannotRecover s = HasException s ⊎ ((w : World) → qore.active_transaction w ≡ true)

  close_lost-HasException :
      (this : ℕ) (s t : State World)
      → CannotRecover s
      → close_lost env this s ≡ (ok tt, t)
      → HasException t
  close_lost-HasException this s t (inl h) e =
      subst (λ r. HasException r.1) e
        ((close_lost-Keeps env (HasException-IsQueryFrame env) this).at s h)
  close_lost-HasException this s t (inr h) e = (close_lost-Raises this h).at s t e

  reopened :
      (fuel : ℕ) (b : Bool) (o : Outcome (Unit {0})) (t : State World)
      → (o ≡ ok tt → HasException t)
      → {rc : ℤ}
      → (fuelled (lifted o) (λ u. init env fuel >>= reconnected env (init env fuel) b) t).0
        ≡ ok (some rc)
      → IsAborted env
          (fuelled (lifted o) (λ u. init env fuel >>= reconnected env (init env fuel) b) t)
  reopened fuel b (ok u) t h e =
      reopened-IsAborted env (init env fuel) (init-IsLost env fuel) b t (h refl)
  reopened fuel b (thrown x) t h e = absurd cc
  reopened fuel b fault t h e = absurd cc

  -- A connection that is lost where there is an exception already, or in a transaction, is not
  -- recovered: whatever `init` does then, `closeAndReconnect` never returns 0. Where it returns, it
  -- returns -1, with an exception, and the datasource is marked, so that it counts as aborted if
  -- that is what the mark does.
  pub close_and_reconnect_lost :
      (fuel this : ℕ) (try_reconnect : Bool) (s : State World) (rc : ℤ)
      → ((w : World) → qore.was_connection_aborted (qore.connection_aborted w) ≡ true)
      → CannotRecover s
      → (close_and_reconnect env (init env fuel) this try_reconnect s).0 ≡ ok (some rc)
      → let r = close_and_reconnect env (init env fuel) this try_reconnect s in
        (rc ≡ negsuc 0) × (is_nil r.1.sink ≡ false) × (qore.was_connection_aborted r.1.world ≡ true)
  unfolding close_and_reconnect
  close_and_reconnect_lost fuel this try_reconnect s rc mark h e =
      let c = close_lost env this s in
      let a =
        reopened fuel try_reconnect c.0 c.1
          (λ k. close_lost-HasException this s c.1 h (ap (λ o. (o, c.1)) k)) e in
      let (t, m) = a.marked e in (a.result e, a.failed, rw m (mark t.world))
