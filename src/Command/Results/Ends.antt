-- ===== src/Command/Results/Ends.antt =====
-- The rounds that the loop of `read_next_result` goes on from: errors are not silent, and it ends.
use module_sybase.Base.{
  ℕ, zero, suc, ◌<◌, negsuc, Option, none, some, List, [], ◌∷◌, Bool, true, false, ◌≡◌, ◌≢◌, refl,
  arith, ◌∙◌, Bool-cases, inl, inr, is_nil, sym, ap, subst,
}
use module_sybase.Build.{Exception}
use module_sybase.Ct.{
  CtLib, RetCode, succeed, fail, end_data, row_fail, ResultType, cmd_succeed, cmd_done, cmd_fail,
  other_result, other_code, end_results, is_succeed,
}
use module_sybase.Effect.{
  ResType, res_error, res_retry, res_done, State, Outcome, ok, thrown, fault, follow, pure,
}
use module_sybase.Command.Results.Steps.{stored, read_next_result-Rounds}
use module_sybase.Command.Results.Errors.{after_exception, read_next_result1-error}
use module_sybase.Command.Results.{
  is_readable, is_retry, result_of, results_of, read_next_result1, read_next_result,
}

module _ (ct : CtLib) where
  result_of-retry :
      (this : ℕ) (t : ResultType) (s s' : State ct.World)
      → result_of ct this t s ≡ (ok res_retry, s')
      → (t ≡ cmd_succeed) × (s' ≡ s)
  unfolding result_of
  result_of-retry this cmd_done s s' e =
      elim (Bool-cases
        (is_succeed (ct.ct_res_info_row_count (s.commands this).m_cmd (negsuc 0) s.world).0.0)) [
          | inl k ↦ absurd (done_ne_retry (rw k at e))
          | inr k ↦ absurd (after_exception ct _ _ _ _ s' (rw k at e))
        ]
    where
      done_ne_retry :
          {x y : State ct.World}
          → ◌≢◌ {A = Outcome ResType × State ct.World} (ok res_done, x) (ok res_retry, y)
      done_ne_retry k = ground arith
  result_of-retry this cmd_succeed s s' e = (refl, ground arith)
  result_of-retry this cmd_fail s s' e = absurd (after_exception ct _ _ _ s s' e)
  result_of-retry this (other_result n) s s' e = absurd (after_exception ct _ _ _ s s' e)
  result_of-retry this _ s s' e = absurd (ground arith)

  undo_retry :
      (o : Outcome ResType × State ct.World) (q : ResType × Bool) (s' : State ct.World)
      → is_retry q.0 ≡ true
      → follow {B = ResType × Bool} o.0 (λ r. pure (r, false)) o.1 ≡ (ok q, s')
      → o ≡ (ok res_retry, s')
  undo_retry (ok r, t) q s' h e = ground arith
  undo_retry (thrown x, t) q s' h e = absurd (ground arith)
  undo_retry (fault, t) q s' h e = absurd (ground arith)

  results_of-retry :
      (this : ℕ) (ret : RetCode) (t : ResultType) (s s' : State ct.World) (q : ResType × Bool)
      → is_retry q.0 ≡ true
      → results_of ct this ret t s ≡ (ok q, s')
      → (ret ≡ succeed) × (t ≡ cmd_succeed) × (s' ≡ s)
  unfolding results_of
  results_of-retry this end_results t s s' q h e = absurd (ground arith)
  results_of-retry this fail t s s' q h e = absurd (ground arith)
  results_of-retry this succeed t s s' q h e =
      let r = result_of-retry this t s s' (undo_retry (result_of ct this t s) q s' h e) in
      (refl, r.0, r.1)
  results_of-retry this end_data t s s' q h e = absurd (after_exception ct _ _ _ s s' e)
  results_of-retry this row_fail t s s' q h e = absurd (after_exception ct _ _ _ s s' e)
  results_of-retry this (other_code n) t s s' q h e = absurd (after_exception ct _ _ _ s s' e)

  -- A round that the loop follows by another has changed the library's state only, by a call of
  -- `ct_results` that gave CS_CMD_SUCCEED.
  read_next_result1-retry :
      (this : ℕ) (s s' : State ct.World) (q : ResType × Bool)
      → s.sink ≡ []
      → is_readable (s.commands this).last_res ≡ true
      → is_retry q.0 ≡ true
      → read_next_result1 ct this s ≡ (ok q, s')
      → let r = ct.ct_results (s.commands this).m_cmd s.world in
        (r.0 ≡ (succeed, cmd_succeed))
        × (s'.world ≡ r.1)
        × (s'.sink ≡ [])
        × (s'.commands ≡ s.commands)
  unfolding read_next_result1
  read_next_result1-retry this s s' q n h k e =
      let r = ct.ct_results (s.commands this).m_cmd s.world in
      let w =
        results_of-retry this r.0.0 r.0.1 (record s { world = r.1; sink = [] }) s' q k
          (rw (n, h) at e) in
      (ground arith, ground (arith, w.2), ground (arith, w.2), ground (arith, w.2))

  -- Started with no exception, in a state in which results are read, the loop does not return
  -- RES_ERROR in silence: an exception has been raised.
  pub read_next_result-error :
      (this fuel : ℕ) (s s' : State ct.World) (d : Bool)
      → s.sink ≡ []
      → is_readable (s.commands this).last_res ≡ true
      → read_next_result ct this fuel s ≡ (ok (some (res_error, d)), s')
      → s'.sink ≢ []
  read_next_result-error this zero s s' d n h e = absurd (unfold read_next_result in ground arith)
  read_next_result-error this (suc fuel) s s' d n h e =
      let (q, t, k, last) = read_next_result-Rounds ct this fuel s (res_error, d) s' e in
      elim last [
        | inl (b, l, m) ↦ λ z.
            (read_next_result1-error ct this s t d n h
                (subst (λ x. read_next_result1 ct this s ≡ (ok x, t)) (sym l) k)).0
              (ap (λ (x : State ct.World). x.sink) (sym m) ∙ z)
        | inr (b, l) ↦
            let (_, _, n', _) = read_next_result1-retry this s t q n h b k in
            read_next_result-error this fuel (stored ct this q.0 t) s' d n' (ground arith) l
      ]

  is_nil-eq : (l : List Exception) → is_nil l ≡ true → l ≡ []
  is_nil-eq [] e = refl
  is_nil-eq (x ∷ l) e = cc

  retry_reads :
      (this : ℕ) (s t : State ct.World) (q : ResType × Bool)
      → read_next_result1 ct this s ≡ (ok q, t)
      → is_retry q.0 ≡ true
      → (s.sink ≡ []) × (is_readable (s.commands this).last_res ≡ true)
  unfolding read_next_result1
  retry_reads this s t q k b = (ground (arith, is_nil-eq s.sink), ground arith)

  -- The loop ends, whatever state it starts in, if the library has a measure that falls with each
  -- CS_CMD_SUCCEED, such as the number of results that are still to come; it needs no more fuel
  -- than one round above that measure.
  pub read_next_result_terminates :
      (pending : ct.World → ℕ) (this fuel : ℕ) (s : State ct.World)
      → ((c : Option ℕ) (w : ct.World)
          → (ct.ct_results c w).0 ≡ (succeed, cmd_succeed)
          → pending (ct.ct_results c w).1 < pending w)
      → pending s.world < fuel
      → (read_next_result ct this fuel s).0 ≢ ok none
  unfolding read_next_result
  read_next_result_terminates pending this zero s falls h = absurd (omega arith)
  read_next_result_terminates pending this (suc fuel) s falls h =
      split (read_next_result1 ct this s) refl
        (λ u l. read_next_result_terminates pending this fuel u falls l)
    where
      split :
          (o : Outcome (ResType × Bool) × State ct.World)
          → read_next_result1 ct this s ≡ o
          → ((u : State ct.World)
              → pending u.world < fuel
              → (read_next_result ct this fuel u).0 ≢ ok none)
          → (read_next_result ct this (suc fuel) s).0 ≢ ok none
      split (ok q, t) k again = elim (Bool-cases (is_retry q.0)) [
        | inl b ↦
            let (n, readable) = retry_reads this s t q k b in
            let (r, w, _, _) = read_next_result1-retry this s t q n readable b k in
            let fell = falls (s.commands this).m_cmd s.world r in
            let less : pending t.world < fuel = omega (arith, fell, ap pending w) in
            rw (k, b) (again (stored ct this q.0 t) less)
        | inr b ↦ rw (k, b) (λ z. cc)
      ]
      split (thrown x, t) k again = rw k (λ z. cc)
      split (fault, t) k again = rw k (λ z. cc)
