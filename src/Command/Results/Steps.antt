-- ===== src/Command/Results/Steps.antt =====
-- What `read_next_result` may return, and when.
use module_sybase.Base.{
  ℕ, zero, suc, some, [], Bool, true, false, if◌then◌else◌, ◌==◌, ◌≡◌, ◌≢◌, ◌⊎◌, refl, arith,
  Bool-cases, inl, inr,
}
use module_sybase.Ct.{CtLib}
use module_sybase.Effect.{
  ResType, res_none, res_param, res_status, res_row, res_end, res_done, res_error, res_canceled,
  res_retry, State, Outcome, ok, thrown, fault,
}
use module_sybase.Command.Results.{is_readable, is_retry, read_next_result1, read_next_result}

-- The results after which the command has to do something else first, or has ended.
unfoldable pub Waits : ResType → Type 0
Waits res_param = Unit
Waits res_status = Unit
Waits res_row = Unit
Waits res_end = Unit
Waits res_error = Unit
Waits res_canceled = Unit
Waits res_none = ⊥
Waits res_done = ⊥
Waits res_retry = ⊥

Waits-is_readable : (r : ResType) → Waits r → is_readable r ≡ false
unfolding Waits
Waits-is_readable res_param w = refl
Waits-is_readable res_status w = refl
Waits-is_readable res_row w = refl
Waits-is_readable res_end w = refl
Waits-is_readable res_error w = refl
Waits-is_readable res_canceled w = refl
Waits-is_readable res_none w = absurd w
Waits-is_readable res_done w = absurd w
Waits-is_readable res_retry w = absurd w

module _ (ct : CtLib) (this : ℕ) where
  -- With no exception, and where the last result has parameters, a status or rows to be read, or is
  -- the end, an error or a cancellation, that result is returned again; the library, the exceptions
  -- and the last results of all commands stay as they are.
  pub read_next_result_waits :
      (fuel : ℕ) (s : State ct.World)
      → s.sink ≡ []
      → Waits (s.commands this).last_res
      → (read_next_result ct this (suc fuel) s).0 ≡ ok (some ((s.commands this).last_res, false))
        × ((read_next_result ct this (suc fuel) s).1.world ≡ s.world)
        × ((read_next_result ct this (suc fuel) s).1.sink ≡ s.sink)
        × ((a : ℕ)
            → ((read_next_result ct this (suc fuel) s).1.commands a).last_res
              ≡ (s.commands a).last_res)
  unfolding read_next_result read_next_result1
  read_next_result_waits fuel s e h =
      let k = Waits-is_readable (s.commands this).last_res h in
      (ground (arith, k), ground (arith, k), ground (arith, k), λ a. ground (arith, k))

  -- `lastRes = r`
  abbrev pub stored : ResType → State ct.World → State ct.World
  stored r s = record s {
    commands = λ a. if a == this then record (s.commands this) { last_res = r } else s.commands a;
  }

  -- A round of the loop that is done, or is followed by others.
  abbrev pub Rounds : ℕ → State ct.World → ResType × Bool → State ct.World → Type 0
  Rounds fuel s x s' =
      (q : ResType × Bool) × (t : State ct.World) × (read_next_result1 ct this s ≡ (ok q, t))
      × (((is_retry q.0 ≡ false) × (x ≡ q) × (s' ≡ stored q.0 t))
          ⊎ ((is_retry q.0 ≡ true)
              × (read_next_result ct this fuel (stored q.0 t) ≡ (ok (some x), s'))))

  pub read_next_result-Rounds :
      (fuel : ℕ) (s : State ct.World) (x : ResType × Bool) (s' : State ct.World)
      → read_next_result ct this (suc fuel) s ≡ (ok (some x), s')
      → Rounds fuel s x s'
  unfolding read_next_result
  read_next_result-Rounds fuel s x s' e = split (read_next_result1 ct this s) refl
    where
      split :
          (o : Outcome (ResType × Bool) × State ct.World)
          → read_next_result1 ct this s ≡ o
          → Rounds fuel s x s'
      split (ok q, t) k = elim (Bool-cases (is_retry q.0)) [
        | inl b ↦ (q, t, k, inr (b, rw (k, b) at e))
        | inr b ↦ (q, t, k, inl (b, ground arith, ground arith))
      ]
      split (thrown y, t) k = absurd (ground arith)
      split (fault, t) k = absurd (ground arith)

  -- A result that the loop returns is the new state of the command, and never RES_RETRY.
  pub read_next_result-last_res :
      (fuel : ℕ) (s : State ct.World) (x : ResType × Bool) (s' : State ct.World)
      → read_next_result ct this fuel s ≡ (ok (some x), s')
      → ((s'.commands this).last_res ≡ x.0) × (x.0 ≢ res_retry)
  read_next_result-last_res zero s x s' e = absurd (unfold read_next_result in ground arith)
  read_next_result-last_res (suc fuel) s x s' e =
      let (q, t, k, last) = read_next_result-Rounds fuel s x s' e in
      elim last [
        | inl (b, l, m) ↦ (ground arith, ground arith)
        | inr (b, l) ↦ read_next_result-last_res fuel (stored q.0 t) x s' l
      ]
