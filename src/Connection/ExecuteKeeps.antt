-- ===== src/Connection/ExecuteKeeps.antt =====
-- What `direct_execute`, `commit` and `rollback` keep.
use module_sybase.Base.{ℕ, zero, suc, Bytes, Option, none, some}
use module_sybase.Ct.{CtLib}
use module_sybase.Effect.{State, Outcome, ok, thrown, fault, M}
use module_sybase.Effect.Keeps.{Keeps, IsFrame, keeps, Keeps-pure, Keeps-bind}
use module_sybase.Messages.Keeps.{
  do_exception-Keeps, do_check_exception-Keeps, purge_messages-Keeps,
}
use module_sybase.Connection.Execute.{
  left, left_by_error, dropped, cancelled, drain, send_and_drain, guarded_block, direct_execute,
  commit, rollback,
}

module _ (ct : CtLib) {P : State ct.World → Type 0} (frame : IsFrame P) where
  left-Keeps :
      {A : Type 0} (cmd : Option ℕ) (m : M ct.World A)
      → Keeps P m
      → Keeps P (λ s. left (dropped ct cmd) (m s))
  left-Keeps {A} cmd m k = record { at = λ s h. after (m s).0 (m s).1 (k.at s h) }
    where
      after : (o : Outcome A) (s : State ct.World) → P s → P (left (dropped ct cmd) (o, s)).1
      after (ok a) s h = frame.by_world s _ h
      after (thrown e) s h = frame.by_world s _ h
      after fault s h = frame.by_world s _ h

  left_by_error-Keeps :
      {A : Type 0} (cmd : Option ℕ) (m : M ct.World A)
      → Keeps P m
      → Keeps P (λ s. left_by_error (cancelled ct cmd) (m s))
  left_by_error-Keeps {A} cmd m k = record { at = λ s h. after (m s).0 (m s).1 (k.at s h) }
    where
      after :
          (o : Outcome A) (s : State ct.World) → P s → P (left_by_error (cancelled ct cmd) (o, s)).1
      after (ok a) s h = h
      after (thrown e) s h = frame.by_world s _ h
      after fault s h = frame.by_world s _ h

  drain-Keeps : (fuel : ℕ) (cmd : Option ℕ) → Keeps P (drain ct fuel cmd)
  unfolding drain
  drain-Keeps zero cmd = Keeps-pure _
  drain-Keeps (suc fuel) cmd = search (keeps, frame, drain-Keeps fuel) depth 20

  send_and_drain-Keeps :
      (fuel : ℕ) (cmd : Option ℕ) (t : Bytes) → Keeps P (send_and_drain ct fuel cmd t)
  unfolding send_and_drain
  send_and_drain-Keeps fuel cmd t =
      search (keeps, frame, do_exception-Keeps, do_check_exception-Keeps, drain-Keeps) depth 30

  guarded_block-Keeps :
      (fuel : ℕ) (cmd : Option ℕ) (t : Bytes) → Keeps P (guarded_block ct fuel cmd t)
  unfolding guarded_block
  guarded_block-Keeps fuel cmd t =
      Keeps-bind _ _ (left_by_error-Keeps cmd _ (send_and_drain-Keeps fuel cmd t)) λ done.
        Keeps-bind _ _ (purge_messages-Keeps ct frame)
          λ rc. Keeps-pure (elim done [ none ↦ none | some u ↦ some rc ])

  direct_execute-Keeps : (fuel : ℕ) (t : Bytes) → Keeps P (direct_execute ct fuel t)
  unfolding direct_execute
  direct_execute-Keeps fuel t =
      search (keeps, frame, do_exception-Keeps, left-Keeps, guarded_block-Keeps) depth 30

  pub commit-Keeps : (fuel : ℕ) → Keeps P (commit ct fuel)
  unfolding commit
  commit-Keeps fuel = search (keeps, frame, direct_execute-Keeps) depth 20

  pub rollback-Keeps : (fuel : ℕ) → Keeps P (rollback ct fuel)
  unfolding rollback
  rollback-Keeps fuel = search (keeps, frame, direct_execute-Keeps) depth 20
