-- ===== src/Connection/Dropped.antt =====
-- The end of a command of src/connection.cpp and src/statement.h that a `std::unique_ptr` owns: its handle
-- is dropped, however the block ends.
use module_sybase.Base.{
  ℕ, ℤ, Option, none, some, Bool, true, false, ◌||◌, Bool-cases, ◌≡◌, ◌≢◌, ◌⊎◌, inl, inr, refl, sym,
  arith, ap, not,
}
use module_sybase.Ct.{is_succeed}
use module_sybase.Effect.{
  ResType, res_none, res_param, res_status, res_row, res_end, res_done, res_error, res_canceled,
  res_retry, State, Outcome, ok, thrown, fault,
}
use module_sybase.Effect.Fuelled.{F}
use module_sybase.Command.Sending.{
  clear, clear_idempotent, drop_command, cancel_unfinished, is_finished, is_null,
}
use module_sybase.Connection.Handles.{destroyed, after_destructor}
use module_sybase.Connection.Library.{Env}
use module_sybase.Connection.Output.{read_result, run_command}
use module_sybase.Statements.Wrap.{delete_wrap}

-- The command has nothing left to cancel, or the connection is lost.
pub Finished : ResType → Bool → Type 0
Finished r aborted = (r ≡ res_canceled) ⊎ (r ≡ res_end) ⊎ (aborted ≡ true)

no_end : {r : ResType} → r ≢ res_canceled → r ≢ res_end → ¬ Finished r false
unfolding Finished
no_end c e (inl h) = c h
no_end c e (inr (inl h)) = e h
no_end c e (inr (inr h)) = absurd cc

Finished-cases :
    (r : ResType) (aborted : Bool)
    → (Finished r aborted × ((is_finished r || aborted) ≡ true))
      ⊎ ((¬ Finished r aborted) × ((is_finished r || aborted) ≡ false))
unfolding Finished
Finished-cases res_canceled aborted = inl (inl refl, refl)
Finished-cases res_end aborted = inl (inr (inl refl), refl)
Finished-cases res_none true = inl (inr (inr refl), refl)
Finished-cases res_param true = inl (inr (inr refl), refl)
Finished-cases res_status true = inl (inr (inr refl), refl)
Finished-cases res_row true = inl (inr (inr refl), refl)
Finished-cases res_done true = inl (inr (inr refl), refl)
Finished-cases res_error true = inl (inr (inr refl), refl)
Finished-cases res_retry true = inl (inr (inr refl), refl)
Finished-cases res_none false = inr (no_end (λ e. absurd cc) (λ e. absurd cc), refl)
Finished-cases res_param false = inr (no_end (λ e. absurd cc) (λ e. absurd cc), refl)
Finished-cases res_status false = inr (no_end (λ e. absurd cc) (λ e. absurd cc), refl)
Finished-cases res_row false = inr (no_end (λ e. absurd cc) (λ e. absurd cc), refl)
Finished-cases res_done false = inr (no_end (λ e. absurd cc) (λ e. absurd cc), refl)
Finished-cases res_error false = inr (no_end (λ e. absurd cc) (λ e. absurd cc), refl)
Finished-cases res_retry false = inr (no_end (λ e. absurd cc) (λ e. absurd cc), refl)

module _ (env : Env) (this : ℕ) where
  open env use {ct, qore}
  open ct use {World}

  -- From the world `w` to `w'` the handle is dropped, and what is open is cancelled before.
  pub Freed : Option ℕ → ResType → Bool → World → World → Type 0
  Freed none r aborted w w' = w' ≡ w
  Freed (some h) r aborted w w' =
      (Finished r aborted × (w' ≡ (ct.ct_cmd_drop (some h) w).1))
      ⊎ ((¬ Finished r aborted) × (w' ≡ (ct.ct_cmd_drop (some h) (ct.ct_cancel (some h) w).1).1))

  -- The program has ended, or the handle that the command has in the state `s`, if it has one, is
  -- dropped, and the command has none any more.
  pub Dropped : {A : Type 0} → State World → Outcome A × State World → Type 0
  Dropped s r =
      (r.0 ≡ fault)
      ⊎ (((r.1.commands this).m_cmd ≡ none)
          × Freed (s.commands this).m_cmd (s.commands this).last_res
              (qore.was_connection_aborted s.world) s.world r.1.world)

  drop_command-world :
      (s t : State World)
      → drop_command ct this s ≡ (ok tt, t)
      → t.world ≡ (ct.ct_cmd_drop (s.commands this).m_cmd s.world).1
  unfolding drop_command
  drop_command-world s t e = ground (arith, e)

  clear-Freed :
      (aborted : Bool) (s t : State World) (o : Option ℕ)
      → (s.commands this).m_cmd ≡ o
      → clear ct this aborted s ≡ (ok tt, t)
      → Freed o (s.commands this).last_res aborted s.world t.world
  unfolding clear cancel_unfinished Freed
  clear-Freed aborted s t none k e = ground (arith, k, rw k at e)
  clear-Freed aborted s t (some h) k e =
      let held = ap is_null k in
      elim (Finished-cases (s.commands this).last_res aborted) [
        | inl (f, l) ↦ inl (f, rw (sym k) (drop_command-world s t (rw (held, ap not l) at e)))
        | inr (f, l) ↦
            let r = ct.ct_cancel (s.commands this).m_cmd s.world in
            elim (Bool-cases (is_succeed r.0)) [
              | inl m ↦ inr (
                f,
                rw (sym k)
                    (drop_command-world (record s { world = r.1 }) t (rw (held, ap not l, m) at e)),
              )
              | inr m ↦ absurd (ground (arith, rw (held, ap not l, m) at e))
            ]
      ]

  after_destructor-Dropped :
      {A : Type 0} (r : Outcome A) (s : State World)
      → Dropped s (after_destructor r (clear ct this (qore.was_connection_aborted s.world) s))
  unfolding Dropped
  after_destructor-Dropped r s = left (clear ct this aborted s) refl
    where
      aborted : Bool
      aborted = qore.was_connection_aborted s.world

      left :
          (c : Outcome (Unit {0}) × State World)
          → clear ct this aborted s ≡ c
          → ((after_destructor r c).0 ≡ fault)
            ⊎ ((((after_destructor r c).1.commands this).m_cmd ≡ none)
                × Freed
                    (s.commands this).m_cmd
                    (s.commands this).last_res
                    aborted
                    s.world
                    (after_destructor r c).1.world)
      left (ok u, t) e =
          inr ((clear_idempotent ct this aborted aborted s t e).0, clear-Freed aborted s t _ refl e)
      left (thrown x, t) e = inl refl
      left (fault, t) e = inl refl

  destroyed-Dropped :
      {A : Type 0} (r : Outcome A × State World) → Dropped r.1 (destroyed env this r)
  unfolding destroyed Dropped
  destroyed-Dropped (ok a, s) = after_destructor-Dropped (ok a) s
  destroyed-Dropped (thrown e, s) = after_destructor-Dropped (thrown e) s
  destroyed-Dropped (fault, s) = inl refl

  -- The end of the command that `execReadOutput` runs, after its results have been read or that has
  -- failed, and of a statement's command in `ModuleWrap::Delete`: when this returns or throws, also if
  -- the fuel has run out, the command has no handle any more. Where it had one, `ct_cmd_drop` has been
  -- called for it, once, and before it `ct_cancel` exactly if the last result is neither the end nor a
  -- cancellation and the datasource has not lost its connection; without a handle the library has not
  -- been called. Else the program has ended, as it does where an error leaves a destructor.
  pub run_command-Dropped :
      (reinit : F World ℤ) (fuel : ℕ) (need_list cols single_row : Bool) (s : State World)
      → Dropped
          (read_result env reinit fuel this need_list cols single_row s).1
          (run_command env reinit fuel need_list cols single_row (some this) s)
        × Dropped s (delete_wrap env (some this) s)
  unfolding run_command delete_wrap
  run_command-Dropped reinit fuel need_list cols single_row s = (
    destroyed-Dropped (read_result env reinit fuel this need_list cols single_row s),
    destroyed-Dropped (ok _, s),
  )
