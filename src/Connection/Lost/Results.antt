-- ===== src/Connection/Lost/Results.antt =====
-- `readNextResult` of src/connection.cpp, where the command asks for the connection to be closed.
use module_sybase.Base.{
  ℕ, zero, suc, ℤ, Option, none, some, Bool, true, false, inl, inr, refl, arith, ◌≡◌, ◌≢◌, is_nil,
  Bool-cases, ap, if◌then◌else◌,
}
use module_sybase.Ct.{
  CtLib, RetCode, succeed, fail, end_results, end_data, row_fail, other_code, ResultType,
}
use module_sybase.Effect.{
  State, Outcome, ok, thrown, fault, follow, ◌>>=◌, ◌>>◌, pure, get_command, set_command, ResType,
  res_error,
}
use module_sybase.Effect.Fuelled.{fuelled, ret}
use module_sybase.Command.Results.{
  is_readable, is_retry, result_of, results_of, read_next_result1, read_next_result,
}
use module_sybase.Command.Results.Errors.{after_exception, cancelled}
use module_sybase.Connection.Library.{Env}
use module_sybase.Connection.Login.{init}
use module_sybase.Connection.Lost.{HasException, is_nil-append}
use module_sybase.Connection.Lost.Recovery.{close_and_reconnect_lost}
use module_sybase.Connection.Recover.{
  close_and_reconnect, after_result, connection_read_next_result,
}

module _ (ct : CtLib) (this : ℕ) where
  no_disconnect :
      (o : Outcome ResType × State ct.World) (s' : State ct.World) (rc : ResType)
      → follow {B = ResType × Bool} o.0 (λ r. pure (r, false)) o.1 ≢ (ok (rc, true), s')
  no_disconnect (ok r, t) s' rc = λ k. ground arith
  no_disconnect (thrown x, t) s' rc = λ k. cc
  no_disconnect (fault, t) s' rc = λ k. cc

  results_of_disconnect :
      (ret : RetCode) (t : ResultType) (s s' : State ct.World) (rc : ResType)
      → results_of ct this ret t s ≡ (ok (rc, true), s')
      → (rc ≡ res_error) × HasException s'
  unfolding results_of
  results_of_disconnect end_results t s s' rc e = absurd (ground arith)
  results_of_disconnect fail t s s' rc e = grind (arith, is_nil-append s.sink cancelled)
  results_of_disconnect succeed t s s' rc e = absurd (no_disconnect (result_of ct this t s) s' rc e)
  results_of_disconnect end_data t s s' rc e = absurd (after_exception ct _ _ _ s s' e)
  results_of_disconnect row_fail t s s' rc e = absurd (after_exception ct _ _ _ s s' e)
  results_of_disconnect (other_code n) t s s' rc e = absurd (after_exception ct _ _ _ s s' e)

  read_next_result1_disconnect :
      (s s' : State ct.World) (rc : ResType)
      → read_next_result1 ct this s ≡ (ok (rc, true), s')
      → (rc ≡ res_error) × HasException s'
  unfolding read_next_result1
  read_next_result1_disconnect s s' rc e = elim (Bool-cases (is_nil s.sink)) [
    | inr n ↦ absurd (ground (arith, rw n at e))
    | inl n ↦ elim (Bool-cases (is_readable (s.commands this).last_res)) [
      | inr k ↦ absurd (ground (arith, rw (n, k) at e))
      | inl k ↦
          let r = ct.ct_results (s.commands this).m_cmd s.world in
          results_of_disconnect r.0.0 r.0.1 (record s { world = r.1 }) s' rc (rw (n, k) at e)
    ]
  ]

  -- What the loop does with a round.
  abbrev round :
      ℕ
      → Outcome (ResType × Bool) × State ct.World
      → Outcome (Option (ResType × Bool)) × State ct.World
  round fuel r =
      follow r.0
        (λ q. do
          c ← get_command this
          set_command this (record c { last_res = q.0 })
          if is_retry q.0 then read_next_result ct this fuel else pure (some q))
        r.1

  ended :
      (d : Bool) (rt rc : ResType) (u x s' : State ct.World)
      → x.sink ≡ u.sink
      → (d ≡ true → (rt ≡ res_error) × HasException u)
      → ◌≡◌ {A = Outcome (Option (ResType × Bool)) × State ct.World}
          (ok (some (rt, d)), x)
          (ok (some (rc, true)), s')
      → (rc ≡ res_error) × HasException s'
  ended true rt rc u x s' k one e = let h = one refl in ground (arith, h, rw k at e)
  ended false rt rc u x s' k one e = absurd (ground arith)

  round_disconnect :
      (fuel : ℕ) (r : Outcome (ResType × Bool) × State ct.World) (s' : State ct.World)
      (rc : ResType)
      → ((rt : ResType) (t : State ct.World)
          → r ≡ (ok (rt, true), t)
          → (rt ≡ res_error) × HasException t)
      → ((s t : State ct.World)
          → read_next_result ct this fuel s ≡ (ok (some (rc, true)), t)
          → (rc ≡ res_error) × HasException t)
      → round fuel r ≡ (ok (some (rc, true)), s')
      → (rc ≡ res_error) × HasException s'
  round_disconnect fuel (ok (rt, d), u) s' rc one more e = elim (Bool-cases (is_retry rt)) [
    | inl k ↦ more _ s' (rw k at e)
    | inr k ↦ ended d rt rc u _ s' refl (λ h. one rt u (ap (λ b. (ok (rt, b), u)) h)) (rw k at e)
  ]
  round_disconnect fuel (thrown x, u) s' rc one more e = absurd (ground arith)
  round_disconnect fuel (fault, u) s' rc one more e = absurd (ground arith)

  -- `disconnect` comes with RES_ERROR and an exception.
  pub read_next_result_disconnect :
      (fuel : ℕ) (s s' : State ct.World) (rc : ResType)
      → read_next_result ct this fuel s ≡ (ok (some (rc, true)), s')
      → (rc ≡ res_error) × HasException s'
  unfolding read_next_result
  read_next_result_disconnect zero s s' rc e = absurd (ground arith)
  read_next_result_disconnect (suc fuel) s s' rc e =
      round_disconnect fuel (read_next_result1 ct this s) s' rc
        (λ rt t k. read_next_result1_disconnect s t rt k)
        (λ u t k. read_next_result_disconnect fuel u t rc k) e

module _ (env : Env) where
  open env use {build, ct, lib, qore}
  open ct use {World}

  -- What follows a failed cancellation, for an outcome of `closeAndReconnect`.
  closed :
      (o : Outcome (Option ℤ)) (t : State World) (r : ResType)
      → ((rc : ℤ)
          → o ≡ ok (some rc)
          → (is_nil t.sink ≡ false) × (qore.was_connection_aborted t.world ≡ true))
      → (fuelled o (λ rc. ret res_error) t).0 ≡ ok (some r)
      → let x = fuelled o (λ rc. ret res_error) t in
        (r ≡ res_error) × (is_nil x.1.sink ≡ false) × (qore.was_connection_aborted x.1.world ≡ true)
  closed (ok none) t r h e = absurd cc
  closed (ok (some rc)) t r h e = let (n, a) = h rc refl in (ground arith, n, a)
  closed (thrown x) t r h e = absurd cc
  closed fault t r h e = absurd cc

  -- A command whose results cannot be had and that cannot be cancelled loses the connection for
  -- good: where `readNextResult` returns then, it returns RES_ERROR with an exception, and the
  -- datasource is marked, so that it counts as aborted if that is what the mark does. This holds
  -- whether or not the server can be reached again.
  pub connection_read_next_result_lost :
      (fuel this : ℕ) (s t : State World) (rc r : ResType)
      → ((w : World) → qore.was_connection_aborted (qore.connection_aborted w) ≡ true)
      → is_nil s.sink ≡ true
      → read_next_result ct this fuel s ≡ (ok (some (rc, true)), t)
      → (connection_read_next_result env (init env fuel) fuel this s).0 ≡ ok (some r)
      → let x = connection_read_next_result env (init env fuel) fuel this s in
        (r ≡ res_error) × (is_nil x.1.sink ≡ false) × (qore.was_connection_aborted x.1.world ≡ true)
  unfolding connection_read_next_result after_result
  connection_read_next_result_lost fuel this s t rc r mark n d =
      let c = close_and_reconnect env (init env fuel) this false t in
      let (_, h) = read_next_result_disconnect ct this fuel s t rc d in
      rw (n, d)
        (closed c.0 c.1 r λ rc' k.
          let (_, x, a) = close_and_reconnect_lost env fuel this false t rc' mark (inl h) k in
          (x, a))
