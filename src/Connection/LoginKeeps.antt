-- ===== src/Connection/LoginKeeps.antt =====
-- What `init` keeps, and `closeAndReconnect` with it.
use module_sybase.Base.{
  ℕ, zero, suc, ℤ, Bytes, Option, none, some, List, [], Bool, true, false, refl, text, map,
  to_lower,
}
use module_sybase.Ct.{RetCode}
use module_sybase.Effect.{State, Outcome, ok, thrown, fault}
use module_sybase.Effect.Fuelled.{F}
use module_sybase.Effect.FuelledKeeps.{
  fkeeps, FKeeps-ret, FKeeps-out, FKeeps-fault, FKeeps-bind, FKeeps-lift, FKeeps-if, FKeeps-caught,
}
use module_sybase.Effect.Keeps.{Keeps, keeps}
use module_sybase.Messages.Keeps.{do_exception-Keeps, purge_messages-Keeps}
use module_sybase.Value.{Value, nothing, string, hash, Arg, get_key}
use module_sybase.Connection.Charset.{
  set_enc, use_code_page, code_page_of, ask_code_page, use_collation, collation_of, use_version,
  contains, starts_with_digit,
}
use module_sybase.Connection.Execute.{left}
use module_sybase.Connection.Handles.{set_conn, clear_exceptions, abort_connection}
use module_sybase.Connection.Keeps.{IsQueryFrame, close_lost-Keeps, set_conn-Keeps}
use module_sybase.Connection.Library.{Env, ConProp}
use module_sybase.Connection.Login.{
  Login, checked, set_prop, set_password, set_address, set_locale, with_locale, connect, exit_code,
  identify, connect_and_ask, init_once, init, login_of, loc_dropped,
}
use module_sybase.Connection.Output.{exec_row}
use module_sybase.Connection.OutputKeeps.{
  exec_read_output-Keeps, with_query-Keeps, get_server_version-Keeps,
}
use module_sybase.Connection.Recover.{reconnected, close_and_reconnect}

module _ (env : Env) {P : State env.ct.World → Type 0} (q : IsQueryFrame env P) where
  open env use {build, ct, lib, qore}
  open ct use {World}

  pub set_enc-Keeps : (enc : ℕ) → Keeps P (set_enc env enc)
  unfolding set_enc
  set_enc-Keeps enc = FKeeps-lift _ (set_conn-Keeps env q _ (λ c. refl))

  checked-Keeps :
      (rc : RetCode) (err desc : Bytes) (rest : F World ℤ)
      → Keeps P rest
      → Keeps P (checked env rc err desc rest)
  unfolding checked
  checked-Keeps rc err desc rest k = search (fkeeps, keeps, q.frame) depth 20

  set_prop-Keeps :
      (p : ConProp) (err what : Bytes) (rest : F World ℤ)
      → Keeps P rest
      → Keeps P (set_prop env p err what rest)
  unfolding set_prop
  set_prop-Keeps p err what rest k = search (fkeeps, keeps, q.frame, checked-Keeps) depth 20

  set_password-Keeps :
      (t : Bytes) (rest : F World ℤ) → Keeps P rest → Keeps P (set_password env t rest)
  unfolding set_password
  set_password-Keeps t rest k = search (fkeeps, set_prop-Keeps) depth 20

  set_address-Keeps :
      (host : Option Bytes) (port : ℕ) (rest : F World ℤ)
      → Keeps P rest
      → Keeps P (set_address env host port rest)
  unfolding set_address
  set_address-Keeps none port rest k = k
  set_address-Keeps (some h) port rest k = search (fkeeps, set_prop-Keeps) depth 20

  set_locale-Keeps :
      (loc : Option ℕ) (e : Option Bytes) (rest : F World ℤ)
      → Keeps P rest
      → Keeps P (set_locale env loc e rest)
  unfolding set_locale
  set_locale-Keeps loc e rest k = search (fkeeps, keeps, q.frame, checked-Keeps) depth 30

  left-Keeps :
      {A : Type 0} (loc : Option ℕ) (m : F World A)
      → Keeps P m
      → Keeps P (λ s. left (loc_dropped env loc) (m s))
  left-Keeps {A} loc m k = record { at = λ s h. after (m s).0 (m s).1 (k.at s h) }
    where
      after :
          (o : Outcome (Option A)) (s : State World) → P s → P (left (loc_dropped env loc) (o, s)).1
      after (ok a) s h = q.frame.by_world s _ h
      after (thrown e) s h = q.frame.by_world s _ h
      after fault s h = h

  with_locale-Keeps :
      (e : Option Bytes) (rest : F World ℤ) → Keeps P rest → Keeps P (with_locale env e rest)
  unfolding with_locale
  with_locale-Keeps e rest k =
      search (fkeeps, keeps, q.frame, checked-Keeps, left-Keeps, set_locale-Keeps) depth 20

  connected-Keeps : Keeps P (set_conn (λ c. record c { connected = true }))
  connected-Keeps = set_conn-Keeps env q _ (λ c. refl)

  pub connect-Keeps : (dbname : Bytes) → Keeps P (connect env dbname)
  unfolding connect
  connect-Keeps dbname =
      search (fkeeps, keeps, q.frame, do_exception-Keeps, connected-Keeps) depth 40

  pub handle_set-Keeps : (h : Option ℕ) → Keeps P (set_conn (λ c. record c { m_connection = h }))
  handle_set-Keeps h = set_conn-Keeps env q _ (λ c. refl)

  -- `init` keeps what its end, from `ct_connect` on, keeps.
  pub init_once-Keeps :
      (reinit : F World ℤ) (fuel : ℕ) (l : Login)
      → Keeps P (connect_and_ask env reinit fuel l.dbname)
      → Keeps P (init_once env reinit fuel l)
  unfolding init_once
  init_once-Keeps reinit fuel l k =
      search
        (
          fkeeps, keeps, q.frame, set_enc-Keeps, handle_set-Keeps, checked-Keeps, set_prop-Keeps,
          set_password-Keeps, set_address-Keeps, with_locale-Keeps,
        )
        depth 40

  -- What does not depend on there being exceptions is kept by all of it.
  module _ (by_clear : (s : State World) → P s → P (record s { sink = [] })) where
    clear_exceptions-Keeps : Keeps P clear_exceptions
    clear_exceptions-Keeps = record { at = by_clear }

    abort_connection-Keeps : Keeps P (abort_connection env)
    unfolding abort_connection
    abort_connection-Keeps = record { at = λ s h. q.frame.by_world s _ h }

    reconnected-Keeps :
        (reinit : F World ℤ) (b : Bool) (rc : ℤ) → Keeps P (reconnected env reinit b rc)
    unfolding reconnected
    reconnected-Keeps reinit b rc =
        search (fkeeps, keeps, clear_exceptions-Keeps, abort_connection-Keeps) depth 20

    pub close_and_reconnect-Keeps :
        (reinit : F World ℤ)
        → Keeps P reinit
        → (this : ℕ) (b : Bool) → Keeps P (close_and_reconnect env reinit this b)
    unfolding close_and_reconnect
    close_and_reconnect-Keeps reinit k this b =
        FKeeps-bind _ _ (FKeeps-lift _ (close_lost-Keeps env q this))
          λ u. FKeeps-bind _ _ k (reconnected-Keeps reinit b)

    module _ (reinit : F World ℤ) (k : Keeps P reinit) (fuel : ℕ) where
      exec_row-Keeps :
          (enc : ℕ) (t : Bytes) (args : Option (List Arg))
          → Keeps P (exec_row env reinit fuel enc t args)
      unfolding exec_row
      exec_row-Keeps enc t args =
          with_query-Keeps env q reinit (close_and_reconnect-Keeps reinit k) enc t _ λ t'.
            exec_read_output-Keeps env q reinit (close_and_reconnect-Keeps reinit k) fuel t' args
              true true false true

      use_code_page-Keeps : (v : Option Value) → Keeps P (use_code_page env reinit fuel v)
      unfolding use_code_page
      use_code_page-Keeps none = FKeeps-ret tt
      use_code_page-Keeps (some nothing) = FKeeps-ret tt
      use_code_page-Keeps (some (string t e)) =
          FKeeps-if (starts_with_digit t) _ _ (set_enc-Keeps _) (FKeeps-ret tt)
      use_code_page-Keeps (some _) = FKeeps-fault

      code_page_of-Keeps : (v : Value) → Keeps P (code_page_of env reinit fuel v)
      unfolding code_page_of
      code_page_of-Keeps (hash h) = use_code_page-Keeps (get_key h (text "cp"))
      code_page_of-Keeps _ = FKeeps-ret tt

      ask_code_page-Keeps : (coll : Bytes) → Keeps P (ask_code_page env reinit fuel coll)
      unfolding ask_code_page
      ask_code_page-Keeps coll =
          search
            (
              fkeeps, keeps, q.frame, exec_row-Keeps, purge_messages-Keeps, clear_exceptions-Keeps,
              code_page_of-Keeps,
            )
            depth 20

      use_collation-Keeps : (v : Option Value) → Keeps P (use_collation env reinit fuel v)
      unfolding use_collation
      use_collation-Keeps (some (string t e)) =
          FKeeps-if (contains (text "utf8") (map to_lower t)) _ _ (set_enc-Keeps _)
            (FKeeps-caught _ _ (ask_code_page-Keeps t) (λ x. FKeeps-ret tt))
      use_collation-Keeps _ = FKeeps-fault

      collation_of-Keeps : (v : Value) → Keeps P (collation_of env reinit fuel v)
      unfolding collation_of
      collation_of-Keeps (hash h) = use_collation-Keeps (get_key h (text "coll"))
      collation_of-Keeps _ = FKeeps-ret tt

      adaptive-Keeps : Keeps P (set_conn (λ c. record c { is_sybase = true }))
      adaptive-Keeps = set_conn-Keeps env q _ (λ c. refl)

      use_version-Keeps : (v : Value) → Keeps P (use_version env reinit fuel v)
      unfolding use_version
      use_version-Keeps v =
          search (fkeeps, keeps, adaptive-Keeps, exec_row-Keeps, collation_of-Keeps) depth 20

      identify-Keeps : (v : Value) → Keeps P (identify env reinit fuel v)
      unfolding identify exit_code
      identify-Keeps v =
          search (fkeeps, keeps, q.frame, use_version-Keeps, purge_messages-Keeps) depth 20

      connect_and_ask-Keeps : (dbname : Bytes) → Keeps P (connect_and_ask env reinit fuel dbname)
      unfolding connect_and_ask
      connect_and_ask-Keeps dbname = FKeeps-bind _ _ (connect-Keeps dbname) λ u.
          FKeeps-bind _ _
            (get_server_version-Keeps env q reinit (close_and_reconnect-Keeps reinit k) fuel)
            identify-Keeps

    pub init-Keeps : (fuel : ℕ) → Keeps P (init env fuel)
    unfolding init
    init-Keeps zero = FKeeps-out
    init-Keeps (suc fuel) = record {
      at = λ s.
          let l = login_of env s.world in
          (init_once-Keeps (init env fuel) fuel l
              (connect_and_ask-Keeps (init env fuel) (init-Keeps fuel) fuel l.dbname)).at
            s;
    }
