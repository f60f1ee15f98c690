-- ===== src/Command/Results/Errors.antt =====
-- `read_next_result1` does not fail in silence.
use module_sybase.Base.{
  ℕ, negsuc, Bytes, List, [], ◌∷◌, ◌++◌, Bool, true, false, ◌≡◌, ◌≢◌, refl, arith, text, Bool-cases,
  inl, inr,
}
use module_sybase.Build.{Exception, exception}
use module_sybase.Ct.{
  CtLib, RetCode, succeed, fail, end_data, row_fail, ResultType, cmd_done, cmd_fail, other_result,
  other_code, end_results, is_succeed,
}
use module_sybase.Effect.{
  ResType, res_error, State, Outcome, ok, thrown, fault, M, follow, ◌>>=◌, pure,
}
use module_sybase.Messages.{do_exception}
use module_sybase.Messages.Frame.{do_exception-ne-ok}
use module_sybase.Command.Results.{is_readable, result_of, results_of, read_next_result1}

append-ne-nil : {A : Type 0} (l : List A) (x : A) → l ++ x ∷ [] ≢ []
append-ne-nil [] x e = cc
append-ne-nil (y ∷ l) x e = cc

-- What is raised where `ct_results` has failed.
abbrev pub cancelled : Exception
cancelled =
    exception (text "TDS-EXEC-ERROR")
      (text "command::read_output(): ct_results() failed with CS_FAIL, command canceled")

module _ (ct : CtLib) where
  -- What stands behind a call of `do_exception` is not reached.
  pub after_exception :
      {A : Type 0} (e t : Bytes) (f : Unit {0} → M ct.World A) (s s' : State ct.World) {a : A}
      → (do_exception ct e t >>= f) s ≢ (ok a, s')
  after_exception {A} e t f s s' {a} = never (do_exception ct e t s) (do_exception-ne-ok ct e t s)
    where
      never :
          (o : Outcome (Unit {0}) × State ct.World) → o.0 ≢ ok tt → follow o.0 f o.1 ≢ (ok a, s')
      never (ok u, t) h = absurd (h refl)
      never (thrown x, t) h = λ k. cc
      never (fault, t) h = λ k. cc

  result_of-ne-error :
      (this : ℕ) (t : ResultType) (s s' : State ct.World)
      → result_of ct this t s ≢ (ok res_error, s')
  unfolding result_of
  result_of-ne-error this cmd_done s s' =
      elim (Bool-cases
        (is_succeed (ct.ct_res_info_row_count (s.commands this).m_cmd (negsuc 0) s.world).0.0)) [
          | inl e ↦ rw e (λ k. ground arith)
          | inr e ↦ rw e (after_exception _ _ _ _ s')
        ]
  result_of-ne-error this cmd_fail s s' = after_exception _ _ _ s s'
  result_of-ne-error this (other_result n) s s' = after_exception _ _ _ s s'
  result_of-ne-error this _ s s' = λ k. ground arith

  undo :
      (o : Outcome ResType × State ct.World) (s' : State ct.World) (d : Bool)
      → follow {B = ResType × Bool} o.0 (λ r. pure (r, false)) o.1 ≡ (ok (res_error, d), s')
      → o ≡ (ok res_error, s')
  undo (ok r, t) s' d e = ground arith
  undo (thrown x, t) s' d e = absurd (ground arith)
  undo (fault, t) s' d e = absurd (ground arith)

  results_of-error :
      (this : ℕ) (ret : RetCode) (t : ResultType) (s s' : State ct.World) (d : Bool)
      → results_of ct this ret t s ≡ (ok (res_error, d), s')
      → (s'.sink ≢ [])
        × (d ≡ true → (ret ≡ fail) × ((ct.ct_cancel (s.commands this).m_cmd s.world).0 ≡ fail))
  unfolding results_of
  results_of-error this end_results t s s' d e = absurd (ground arith)
  results_of-error this fail t s s' d e =
      (ground (arith, append-ne-nil s.sink cancelled), λ k. ground arith)
  results_of-error this succeed t s s' d e =
      absurd (result_of-ne-error this t s s' (undo (result_of ct this t s) s' d e))
  results_of-error this end_data t s s' d e = absurd (after_exception _ _ _ s s' e)
  results_of-error this row_fail t s s' d e = absurd (after_exception _ _ _ s s' e)
  results_of-error this (other_code n) t s s' d e = absurd (after_exception _ _ _ s s' e)

  -- `read_next_result1` does not return RES_ERROR in silence: an exception has been raised then, in
  -- a state in which it reads on with no exception before. It asks for the connection to be closed
  -- only where `ct_results` has failed and the cancellation of the command has failed too.
  pub read_next_result1-error :
      (this : ℕ) (s s' : State ct.World) (d : Bool)
      → s.sink ≡ []
      → is_readable (s.commands this).last_res ≡ true
      → read_next_result1 ct this s ≡ (ok (res_error, d), s')
      → (s'.sink ≢ [])
        × (d ≡ true
            → let r = ct.ct_results (s.commands this).m_cmd s.world in
              (r.0.0 ≡ fail) × ((ct.ct_cancel (s.commands this).m_cmd r.1).0 ≡ fail))
  unfolding read_next_result1
  read_next_result1-error this s s' d n h e =
      let r = ct.ct_results (s.commands this).m_cmd s.world in
      results_of-error this r.0.0 r.0.1 (record s { world = r.1; sink = [] }) s' d (rw (n, h) at e)
