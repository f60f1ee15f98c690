-- ===== src/Connection/Lost/Settings.antt =====
-- `init` up to `ct_connect`, where there is an exception before.
use module_sybase.Base.{ℕ, ℤ, pos, Bytes, Option, none, some, ◌≢◌}
use module_sybase.Ct.{RetCode}
use module_sybase.Effect.{State, Outcome, ok, thrown, fault}
use module_sybase.Effect.Fuelled.{F}
use module_sybase.Effect.FuelledKeeps.{fkeeps}
use module_sybase.Effect.Keeps.{keeps}
use module_sybase.Connection.Execute.{left}
use module_sybase.Connection.Library.{Env, ConProp}
use module_sybase.Connection.Login.{
  Login, checked, set_prop, set_password, set_address, set_locale, with_locale, connect_and_ask,
  init_once, loc_dropped,
}
use module_sybase.Connection.LoginKeeps.{set_enc-Keeps, handle_set-Keeps}
use module_sybase.Connection.Lost.{
  HasException, HasException-IsFrame, HasException-IsQueryFrame, IsLost, lost,
}

module _ (env : Env) where
  open env use {build, ct, lib, qore}
  open ct use {World}

  checked-IsLost :
      (rc : RetCode) (err desc : Bytes) (rest : F World ℤ)
      → IsLost env rest
      → IsLost env (checked env rc err desc rest)
  unfolding checked
  checked-IsLost rc err desc rest l = search (lost, keeps, fkeeps, HasException-IsFrame) depth 20

  set_prop-IsLost :
      (p : ConProp) (err what : Bytes) (rest : F World ℤ)
      → IsLost env rest
      → IsLost env (set_prop env p err what rest)
  unfolding set_prop
  set_prop-IsLost p err what rest l =
      search (lost, keeps, fkeeps, HasException-IsFrame, checked-IsLost) depth 20

  set_password-IsLost :
      (t : Bytes) (rest : F World ℤ) → IsLost env rest → IsLost env (set_password env t rest)
  unfolding set_password
  set_password-IsLost t rest l = search (lost, set_prop-IsLost) depth 20

  set_address-IsLost :
      (host : Option Bytes) (port : ℕ) (rest : F World ℤ)
      → IsLost env rest
      → IsLost env (set_address env host port rest)
  unfolding set_address
  set_address-IsLost none port rest l = l
  set_address-IsLost (some h) port rest l = search (lost, set_prop-IsLost) depth 20

  set_locale-IsLost :
      (loc : Option ℕ) (e : Option Bytes) (rest : F World ℤ)
      → IsLost env rest
      → IsLost env (set_locale env loc e rest)
  unfolding set_locale
  set_locale-IsLost loc e rest l =
      search (lost, keeps, fkeeps, HasException-IsFrame, checked-IsLost) depth 30

  left-IsLost :
      (loc : Option ℕ) (m : F World ℤ)
      → IsLost env m
      → IsLost env (λ s. left (loc_dropped env loc) (m s))
  left-IsLost loc m l = record {
    keeps = record { at = λ s h. keeps_after (m s).0 (m s).1 (l.keeps.at s h) };
    fails = λ s h. fails_after (m s).0 (m s).1 (l.fails s h);
  }
    where
      keeps_after :
          (o : Outcome (Option ℤ)) (s : State World)
          → HasException s
          → HasException (left (loc_dropped env loc) (o, s)).1
      keeps_after (ok a) s h = h
      keeps_after (thrown e) s h = h
      keeps_after fault s h = h

      fails_after :
          (o : Outcome (Option ℤ)) (s : State World)
          → o ≢ ok (some (pos 0))
          → (left (loc_dropped env loc) (o, s)).0 ≢ ok (some (pos 0))
      fails_after (ok a) s n = n
      fails_after (thrown e) s n = n
      fails_after fault s n = n

  with_locale-IsLost :
      (e : Option Bytes) (rest : F World ℤ) → IsLost env rest → IsLost env (with_locale env e rest)
  unfolding with_locale
  with_locale-IsLost e rest l =
      search
        (lost, keeps, fkeeps, HasException-IsFrame, checked-IsLost, left-IsLost, set_locale-IsLost)
        depth 20

  pub init_once-IsLost :
      (reinit : F World ℤ) (fuel : ℕ) (l : Login)
      → IsLost env (connect_and_ask env reinit fuel l.dbname)
      → IsLost env (init_once env reinit fuel l)
  unfolding init_once
  init_once-IsLost reinit fuel l k =
      search
        (
          lost,
          keeps,
          fkeeps,
          HasException-IsFrame,
          set_enc-Keeps,
          handle_set-Keeps,
          HasException-IsQueryFrame env,
          checked-IsLost,
          set_prop-IsLost,
          set_password-IsLost,
          set_address-IsLost,
          with_locale-IsLost,
        )
        depth 40
