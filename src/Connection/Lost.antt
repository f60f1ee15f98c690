-- ===== src/Connection/Lost.antt =====
-- A connection that is lost while there are exceptions, or in a transaction, is not recovered.
pub mod Settings
pub mod Init
pub mod Recovery
pub mod Results
use module_sybase.Base.{
  ℕ, zero, suc, ℤ, pos, negsuc, eq_ℤ, Bytes, Option, none, some, List, [], ◌∷◌, ◌++◌, Bool, true,
  false, not, ◌⊎◌, inl, inr, refl, arith, ◌≡◌, ◌≢◌, is_nil, if◌then◌else◌,
}
use module_sybase.Ct.{RetCode, is_succeed}
use module_sybase.Effect.{State, Connection, Outcome, ok, thrown, fault, M, has_exception}
use module_sybase.Effect.Fuelled.{F, ret, out, lift, fuelled, ◌>>=◌}
use module_sybase.Effect.FuelledKeeps.{fkeeps, FKeeps-ret, FKeeps-bind}
use module_sybase.Effect.Keeps.{Keeps, IsFrame, keeps}
use module_sybase.Messages.Keeps.{do_exception-Keeps, purge_messages-Keeps}
use module_sybase.Command.Keeps.{cancel_disconnect-Keeps}
use module_sybase.Connection.Execute.{left}
use module_sybase.Connection.Handles.{
  invalidate, invalidate_statement, with_registered, safe_get, get_wrap, set_wrap, set_conn,
  close_lost, abort_connection,
}
use module_sybase.Connection.Keeps.{IsQueryFrame, close_lost-Keeps}
use module_sybase.Connection.Library.{Env, ConProp}
use module_sybase.Connection.Login.{
  Login, checked, set_prop, set_password, set_address, set_locale, with_locale, connect,
  connect_and_ask, init_once, init, loc_dropped, login_of,
}
use module_sybase.Connection.Recover.{reconnected, close_and_reconnect}

-- An exception is there.
abbrev pub HasException : {W : Type 0} → State W → Type 0
HasException s = is_nil s.sink ≡ false

pub is_nil-append : {A : Type 0} (l : List A) (x : A) → is_nil (l ++ x ∷ []) ≡ false
is_nil-append [] x = refl
is_nil-append (y ∷ l) x = refl

pub HasException-IsFrame : {W : Type 0} → IsFrame {W = W} HasException
HasException-IsFrame = record {
  by_world = λ s w h. h;
  by_raise = λ s e h. is_nil-append s.sink e;
  by_commands = λ s c h. h;
}

module _ (env : Env) where
  open env use {build, ct, lib, qore}
  open ct use {World}

  get_wrap-Keeps : (wrap : ℕ) → Keeps {W = World} HasException (get_wrap wrap)
  get_wrap-Keeps wrap = record { at = λ s h. h }

  set_wrap-Keeps : (wrap : ℕ) (w : _) → Keeps {W = World} HasException (set_wrap wrap w)
  set_wrap-Keeps wrap w = record { at = λ s h. h }

  set_conn-Keeps : (f : Connection → Connection) → Keeps {W = World} HasException (set_conn f)
  set_conn-Keeps f = record { at = λ s h. h }

  safe_get-Keeps : (o : Option ℕ) → Keeps {W = World} HasException (safe_get o)
  unfolding safe_get
  safe_get-Keeps none = search (keeps)
  safe_get-Keeps (some a) = search (keeps)

  invalidate-Keeps : (wrap : ℕ) → Keeps HasException (invalidate env wrap)
  unfolding invalidate
  invalidate-Keeps wrap =
      search
        (
          keeps,
          get_wrap-Keeps,
          set_wrap-Keeps,
          safe_get-Keeps,
          cancel_disconnect-Keeps ct HasException-IsFrame,
        )
        depth 20

  with_registered-Keeps : (o : Option ℕ) → Keeps HasException (with_registered env o)
  unfolding with_registered
  with_registered-Keeps none = search (keeps)
  with_registered-Keeps (some wrap) = invalidate-Keeps wrap

  invalidate_statement-Keeps : Keeps HasException (invalidate_statement env)
  unfolding invalidate_statement
  invalidate_statement-Keeps = search (keeps, with_registered-Keeps, set_conn-Keeps) depth 20

  pub HasException-IsQueryFrame : IsQueryFrame env HasException
  HasException-IsQueryFrame = record {
    frame = HasException-IsFrame;
    by_conn = λ s c e h. h;
    by_fresh = λ s h. h;
    by_invalidate = invalidate_statement-Keeps;
  }

  -- With an exception at first, `m` keeps one and does not return 0.
  pub record IsLost (m : F World ℤ) : Type 0 where
    pub keeps : Keeps HasException m
    pub fails : (s : State World) → HasException s → (m s).0 ≢ ok (some (pos 0))

  pub IsLost-ret : (n : ℕ) → IsLost (ret (negsuc n))
  IsLost-ret n = record { keeps = FKeeps-ret _; fails = λ s h e. cc }

  pub IsLost-out : IsLost out
  IsLost-out = record { keeps = record { at = λ s h. h }; fails = λ s h e. cc }

  pub IsLost-bind :
      {A : Type 0} (m : F World A) (f : A → F World ℤ)
      → Keeps HasException m
      → ((a : A) → IsLost (f a))
      → IsLost (m >>= f)
  IsLost-bind {A} m f km lf = record {
    keeps = FKeeps-bind m f km (λ a. (lf a).keeps);
    fails = λ s h. after (m s).0 (m s).1 (km.at s h);
  }
    where
      after :
          (o : Outcome (Option A)) (s : State World)
          → HasException s
          → (fuelled o f s).0 ≢ ok (some (pos 0))
      after (ok none) s h e = cc
      after (ok (some a)) s h e = (lf a).fails s h e
      after (thrown x) s h e = cc
      after fault s h e = cc

  pub IsLost-if : (b : Bool) (m n : F World ℤ) → IsLost m → IsLost n → IsLost (if b then m else n)
  IsLost-if true m n lm ln = lm
  IsLost-if false m n lm ln = ln

  pub ruleset lost = (IsLost-ret, IsLost-out, IsLost-bind, IsLost-if)
