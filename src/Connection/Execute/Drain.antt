-- ===== src/Connection/Execute/Drain.antt =====
-- The loop that reads all results of a command that has none to give.
use module_sybase.Base.{
  ℕ, zero, suc, ◌<◌, Option, some, true, ◌≡◌, refl, arith, Bool-cases, inl, inr,
}
use module_sybase.Ct.{CtLib, is_succeed}
use module_sybase.Effect.{State, ok}
use module_sybase.Connection.Execute.{drain}

module _ (ct : CtLib) (pending : ct.World → ℕ) where
  -- The loop ends if the library has a measure that falls with each result, such as the number of
  -- results that are still to come; it needs one round above that measure.
  pub drain_terminates :
      (cmd : Option ℕ) (fuel : ℕ) (s : State ct.World)
      → ((w : ct.World)
          → is_succeed (ct.ct_results cmd w).0.0 ≡ true
          → pending (ct.ct_results cmd w).1 < pending w)
      → pending s.world < fuel
      → (drain ct fuel cmd s).0 ≡ ok (some tt)
  unfolding drain
  drain_terminates cmd zero s falls h = absurd (omega (arith, h))
  drain_terminates cmd (suc fuel) s falls h =
      let r = ct.ct_results cmd s.world in
      elim (Bool-cases (is_succeed r.0.0)) [
        | inl k ↦
            let rest =
              drain_terminates cmd fuel (record s { world = r.1 }) falls
                (omega (arith, falls s.world k, h)) in
            rw k rest
        | inr k ↦ rw k refl
      ]
