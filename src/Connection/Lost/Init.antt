-- ===== src/Connection/Lost/Init.antt =====
-- `init` and `closeAndReconnect` where there is an exception before.
use module_sybase.Base.{
  ℕ, zero, suc, ℤ, pos, negsuc, Bytes, Option, none, some, Bool, refl, arith, ◌≡◌, ◌≢◌,
}
use module_sybase.Effect.{State, Outcome, ok, thrown, fault}
use module_sybase.Effect.Fuelled.{F, fuelled, ◌>>=◌}
use module_sybase.Effect.FuelledKeeps.{FKeeps-bind, FKeeps-lift}
use module_sybase.Effect.Keeps.{Keeps}
use module_sybase.Messages.Keeps.{purge_messages-Keeps}
use module_sybase.Value.{Value}
use module_sybase.Connection.Keeps.{close_lost-Keeps}
use module_sybase.Connection.Library.{Env}
use module_sybase.Connection.Login.{exit_code, identify, connect_and_ask, init_once, init, login_of}
use module_sybase.Connection.LoginKeeps.{connect-Keeps}
use module_sybase.Connection.Lost.{
  HasException, HasException-IsFrame, HasException-IsQueryFrame, IsLost, IsLost-bind, IsLost-out,
}
use module_sybase.Connection.OutputKeeps.{get_server_version-Keeps}
use module_sybase.Connection.Recover.{reconnected, close_and_reconnect}
use module_sybase.Connection.Lost.Settings.{init_once-IsLost}

module _ (env : Env) where
  open env use {build, ct, lib, qore}
  open ct use {World}

  -- With an exception the end of `init` returns -1.
  exit_code-IsLost : (reinit : F World ℤ) (fuel : ℕ) → IsLost env (exit_code env reinit fuel)
  unfolding exit_code
  exit_code-IsLost reinit fuel =
      IsLost-bind env _ _ (FKeeps-lift _ (purge_messages-Keeps ct HasException-IsFrame)) λ rc.
        record {
          keeps = record { at = λ s h. h };
          fails = λ s h e. absurd (ground (arith, rw h at e));
        }

  identify_exception :
      (reinit : F World ℤ) (fuel : ℕ) (v : Value) (s : State World)
      → HasException s
      → identify env reinit fuel v s ≡ exit_code env reinit fuel s
  unfolding identify
  identify_exception reinit fuel v s h = rw h refl

  identify-IsLost :
      (reinit : F World ℤ) (fuel : ℕ) (v : Value) → IsLost env (identify env reinit fuel v)
  identify-IsLost reinit fuel v =
      let l = exit_code-IsLost reinit fuel in
      record {
        keeps = record { at = λ s h. rw (identify_exception reinit fuel v s h) (l.keeps.at s h) };
        fails = λ s h. rw (identify_exception reinit fuel v s h) (l.fails s h);
      }

  -- `closeAndReconnect` after an `init` that has not returned 0.
  abbrev pub aborted : State World → State World
  aborted s = record s { world = qore.connection_aborted s.world }

  reconnected_failed :
      (reinit : F World ℤ) (b : Bool) (rc : ℤ) (s : State World)
      → rc ≢ pos 0
      → reconnected env reinit b rc s ≡ (ok (some (negsuc 0)), aborted s)
  unfolding reconnected
  reconnected_failed reinit b (pos zero) s n = absurd (n refl)
  reconnected_failed reinit b (pos (suc k)) s n = ground arith
  reconnected_failed reinit b (negsuc k) s n = ground arith

  -- It returns -1, marks the datasource and leaves an exception.
  pub record IsAborted (r : Outcome (Option ℤ) × State World) : Type 0 where
    pub result : {rc : ℤ} → r.0 ≡ ok (some rc) → rc ≡ negsuc 0
    pub marked : {rc : ℤ} → r.0 ≡ ok (some rc) → (t : State World) × (r.1 ≡ aborted t)
    pub failed : HasException r.1

  reconnected-IsAborted :
      (reinit : F World ℤ) (b : Bool) (o : Outcome (Option ℤ)) (t : State World)
      → HasException t
      → o ≢ ok (some (pos 0))
      → IsAborted (fuelled o (reconnected env reinit b) t)
  reconnected-IsAborted reinit b (ok none) t h n = record {
    result = λ e. cc;
    marked = λ e. absurd cc;
    failed = h;
  }
  reconnected-IsAborted reinit b (ok (some rc)) t h n =
      rw (reconnected_failed reinit b rc t (λ e. n (rw e refl)))
        (record { result = λ e. ground arith; marked = λ e. (t, refl); failed = h })
  reconnected-IsAborted reinit b (thrown x) t h n = record {
    result = λ e. cc;
    marked = λ e. absurd cc;
    failed = h;
  }
  reconnected-IsAborted reinit b fault t h n = record {
    result = λ e. cc;
    marked = λ e. absurd cc;
    failed = h;
  }

  -- What `closeAndReconnect` does where `init` fails so.
  pub reopened-IsAborted :
      (reinit : F World ℤ)
      → IsLost env reinit
      → (b : Bool) (t : State World) → HasException t
      → IsAborted ((reinit >>= reconnected env reinit b) t)
  reopened-IsAborted reinit l b t h =
      reconnected-IsAborted reinit b (reinit t).0 (reinit t).1 (l.keeps.at t h) (l.fails t h)

  close_and_reconnect-Keeps :
      (reinit : F World ℤ)
      → IsLost env reinit
      → (this : ℕ) (b : Bool) → Keeps HasException (close_and_reconnect env reinit this b)
  unfolding close_and_reconnect
  close_and_reconnect-Keeps reinit l this b =
      FKeeps-bind _ _ (FKeeps-lift _ (close_lost-Keeps env (HasException-IsQueryFrame env) this))
        λ u. record { at = λ t h. (reopened-IsAborted reinit l b t h).failed }

  connect_and_ask-IsLost :
      (reinit : F World ℤ)
      → IsLost env reinit
      → (fuel : ℕ) (dbname : Bytes) → IsLost env (connect_and_ask env reinit fuel dbname)
  unfolding connect_and_ask
  connect_and_ask-IsLost reinit l fuel dbname =
      IsLost-bind env _ _ (connect-Keeps env (HasException-IsQueryFrame env) dbname) λ u.
        IsLost-bind env _ _
          (get_server_version-Keeps env (HasException-IsQueryFrame env) reinit
            (close_and_reconnect-Keeps reinit l) fuel)
          (identify-IsLost reinit fuel)

  -- With an exception before, `init` leaves one and does not return 0, whatever the library does.
  pub init-IsLost : (fuel : ℕ) → IsLost env (init env fuel)
  unfolding init
  init-IsLost zero = IsLost-out env
  init-IsLost (suc fuel) = record {
    keeps = record { at = λ s. (once (init-IsLost fuel) s).keeps.at s };
    fails = λ s. (once (init-IsLost fuel) s).fails s;
  }
    where
      once :
          IsLost env (init env fuel)
          → (s : State World)
          → IsLost env (init_once env (init env fuel) fuel (login_of env s.world))
      once again s =
          let l = login_of env s.world in
          init_once-IsLost env (init env fuel) fuel l
            (connect_and_ask-IsLost (init env fuel) again fuel l.dbname)
