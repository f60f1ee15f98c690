-- ===== src/Statements/Fetch/Rows.antt =====
-- `fetch_rows` of src/statement.h: the rows that it returns.
use module_sybase.Base.{
  ℕ, zero, suc, ◌<◌, ℤ, pos, ltb_ℤ, ◌-ℤ◌, Option, none, some, List, [], ◌∷◌, ◌++◌, length, Bool,
  true, false, ◌&&◌, ◌≡◌, refl, arith, ap, ◌∙◌, is_nil, if◌then◌else◌, append-nil, append_assoc,
  sym, Bool-cases, inl, inr, not,
}
use module_sybase.Ct.{Datafmt, Cell}
use module_sybase.Effect.{State, Connection, ok}
use module_sybase.Effect.Fuelled.{F}
use module_sybase.Value.{Value, hash, list, Items, Fields, push, items_of}
use module_sybase.Connection.Library.{Env}
use module_sybase.Statements.Fetch.{
  IsFetching, next_more, next_end, release_res-IsFetching, released,
}
use module_sybase.Statements.Fetch.Counted.{
  counted, at_hand, further, items, counted_stop, counted_more, counted_nil, counted-at_hand,
  counted-further, push-items, start_goes,
}
use module_sybase.Statements.Methods.{check_valid, row_round, fetch_rows_loop, fetch_rows}

if_true : {A B : Type 0} (b : Bool) (f g : A → B) (a : A) → b ≡ true → (if b then f else g) a ≡ f a
if_true true f g a e = refl
if_true false f g a e = absurd cc

if_false :
    {A B : Type 0} (b : Bool) (f g : A → B) (a : A) → b ≡ false → (if b then f else g) a ≡ g a
if_false false f g a e = refl
if_false true f g a e = absurd cc

no_exception : {W : Type 0} (s : State W) → s.sink ≡ [] → is_nil s.sink ≡ true
no_exception s e = ap is_nil e

module _ (env : Env) (wrap this : ℕ) (conn : Connection) (ds : List Datafmt)
    (w : env.ct.World) where
  open env use {build, ct, lib, qore}
  open ct use {World}

  abbrev limited : ℤ → Bool
  limited r = ltb_ℤ (pos 0) r

  round_more :
      (again : Items → F World Value) (fuel : ℕ) (l : Items) (x : List Cell)
      (rows : List (List Cell)) (g g' : Fields) (gs : List Fields) (s : State World)
      → IsFetching env wrap this conn ds w s (some g) (x ∷ rows) (g' ∷ gs)
      → (s' : State World) × (row_round env again (suc fuel) wrap l s ≡ again (push l (hash g)) s')
        × IsFetching env wrap this conn ds w s' (some g') rows gs
  unfolding row_round
  round_more again fuel l x rows g g' gs s f =
      let (taken, f') =
        release_res-IsFetching env wrap this conn ds w s (some g) (x ∷ rows) (g' ∷ gs) f in
      let (s', found, f'') =
        next_more env wrap this conn ds w fuel (released env wrap this conn ds w s) x rows g' gs
          f' in
      (s', rw (taken, found) refl, f'')

  round_end :
      (again : Items → F World Value) (fuel : ℕ) (l : Items) (g : Fields) (s : State World)
      → IsFetching env wrap this conn ds w s (some g) [] []
      → (row_round env again (suc fuel) wrap l s).0 ≡ ok (some (list (push l (hash g))))
  unfolding row_round
  round_end again fuel l g s f =
      let (taken, f') = release_res-IsFetching env wrap this conn ds w s (some g) [] [] f in
      let ended = next_end env wrap this conn ds w fuel (released env wrap this conn ds w s) f' in
      rw (taken, ended) refl

  -- The loop, where it does not stop.
  unlimited :
      (fuel : ℕ) (r n : ℤ) (l : Items) (s : State World)
      → (limited r && ltb_ℤ n (pos 0)) ≡ false
      → is_nil s.sink ≡ true
      → fetch_rows_loop env (suc fuel) wrap r n l s
        ≡ row_round env
            (fetch_rows_loop env fuel wrap r (if limited r then n -ℤ pos 1 else n))
            fuel
            wrap
            l
            s
  unfolding fetch_rows_loop
  unlimited fuel r n l s e k = if_false _ _ _ s e ∙ if_false _ _ _ s (ap not k)

  stopped :
      (fuel : ℕ) (r n : ℤ) (l : Items) (s : State World)
      → (limited r && ltb_ℤ n (pos 0)) ≡ true
      → fetch_rows_loop env (suc fuel) wrap r n l s ≡ (ok (some (list l)), s)
  unfolding fetch_rows_loop
  stopped fuel r n l s e = if_true _ _ _ s e

  -- The rounds from the row `g` on, where the loop does not stop.
  going :
      (fuel : ℕ) (r n : ℤ) (acc : List Fields) (g : Fields) (rows : List (List Cell))
      (gs : List Fields) (s : State World)
      → IsFetching env wrap this conn ds w s (some g) rows gs
      → ((r n : ℤ) (acc : List Fields) (g : Fields) (rows : List (List Cell)) (gs : List Fields)
            (s : State World)
          → IsFetching env wrap this conn ds w s (some g) rows gs
          → suc (length gs) < suc fuel
          → (fetch_rows_loop env (suc fuel) wrap r n (items acc) s).0
            ≡ ok (some (list (items (acc ++ counted (limited r) n (g ∷ gs))))))
      → suc (length gs) < suc (suc fuel)
      → (let m = if limited r then n -ℤ pos 1 else n in
          (row_round env (fetch_rows_loop env (suc fuel) wrap r m) (suc fuel) wrap (items acc) s).0
          ≡ ok (some (list (items (acc ++ g ∷ counted (limited r) m gs)))))
  going fuel r n acc g [] [] s f loop l =
      let m = if limited r then n -ℤ pos 1 else n in
      round_end (fetch_rows_loop env (suc fuel) wrap r m) fuel (items acc) g s f
      ∙ ap (λ k. ok (some (list k)))
          (push-items acc g ∙ ap (λ k. items (acc ++ g ∷ k)) (sym (counted_nil (limited r) m)))
  going fuel r n acc g (x ∷ rows) (g' ∷ gs) s f loop l =
      let m = if limited r then n -ℤ pos 1 else n in
      let (s', e, f') =
        round_more (fetch_rows_loop env (suc fuel) wrap r m) fuel (items acc) x rows g g' gs s f in
      ap (λ q. q.0) e
      ∙ (ap (λ k. (fetch_rows_loop env (suc fuel) wrap r m k s').0) (push-items acc g)
          ∙ (loop r m (acc ++ g ∷ []) g' rows gs s' f' (omega arith)
              ∙ ap (λ k. ok (some (list (items k)))) (append_assoc acc (g ∷ []) _)))
  going fuel r n acc g [] (g' ∷ gs) s f loop l = absurd f.hashes
  going fuel r n acc g (x ∷ rows) [] s f loop l = absurd f.hashes

  loop_lem :
      (fuel : ℕ) (r n : ℤ) (acc : List Fields) (g : Fields) (rows : List (List Cell))
      (gs : List Fields) (s : State World)
      → IsFetching env wrap this conn ds w s (some g) rows gs
      → suc (length gs) < fuel
      → (fetch_rows_loop env fuel wrap r n (items acc) s).0
        ≡ ok (some (list (items (acc ++ counted (limited r) n (g ∷ gs)))))
  loop_lem zero r n acc g rows gs s f l = absurd (omega arith)
  loop_lem (suc zero) r n acc g rows gs s f l = absurd (omega arith)
  loop_lem (suc (suc fuel)) r n acc g rows gs s f l =
      elim (Bool-cases (limited r && ltb_ℤ n (pos 0))) [
        | inl e ↦
            ap (λ q. q.0) (stopped (suc fuel) r n (items acc) s e)
            ∙ ap (λ m. ok (some (list (items m))))
                (sym (append-nil acc)
                  ∙ ap (λ m. acc ++ m) (sym (counted_stop (limited r) n (g ∷ gs) e)))
        | inr e ↦
            ap (λ q. q.0) (unlimited (suc fuel) r n (items acc) s e (no_exception s f.quiet))
            ∙ (going fuel r n acc g rows gs s f (loop_lem (suc fuel)) l
                ∙ ap (λ m. ok (some (list (items (acc ++ m)))))
                    (sym (counted_more (limited r) n g gs e)))
      ]

  -- The first round, where `next` has not been called.
  first_round :
      (fuel : ℕ) (r m : ℤ) (rows : List (List Cell)) (gs : List Fields) (s : State World)
      → IsFetching env wrap this conn ds w s none rows gs
      → length gs < suc fuel
      → (row_round env (fetch_rows_loop env (suc fuel) wrap r m) (suc fuel) wrap (items []) s).0
        ≡ ok (some (list (items (counted (limited r) m gs))))
  unfolding row_round
  first_round fuel r m [] [] s f l =
      let (taken, f') = release_res-IsFetching env wrap this conn ds w s none [] [] f in
      let ended = next_end env wrap this conn ds w fuel (released env wrap this conn ds w s) f' in
      rw (taken, ended) (ap (λ k. ok (some (list (items k)))) (sym (counted_nil (limited r) m)))
  first_round fuel r m (x ∷ rows) (g ∷ gs) s f l =
      let (taken, f') =
        release_res-IsFetching env wrap this conn ds w s none (x ∷ rows) (g ∷ gs) f in
      let (s', found, f'') =
        next_more env wrap this conn ds w fuel (released env wrap this conn ds w s) x rows g gs
          f' in
      rw (taken, found) (loop_lem (suc fuel) r m [] g rows gs s' f'' (omega arith))
  first_round fuel r m [] (g ∷ gs) s f l = absurd f.hashes
  first_round fuel r m (x ∷ rows) [] s f l = absurd f.hashes

  from_res :
      (fuel : ℕ) (r : ℤ) (res : Option Fields) (rows : List (List Cell)) (gs : List Fields)
      (s : State World)
      → IsFetching env wrap this conn ds w s res rows gs
      → suc (length gs) < fuel
      → (fetch_rows_loop env fuel wrap r r (items []) s).0
        ≡ ok (some (list (items (at_hand res ++ further r gs))))
  from_res fuel r (some g) rows gs s f l =
      loop_lem fuel r r [] g rows gs s f l
      ∙ ap (λ k. ok (some (list (items k)))) (counted-at_hand r g gs)
  from_res zero r none rows gs s f l = absurd (omega arith)
  from_res (suc zero) r none rows gs s f l = absurd (omega arith)
  from_res (suc (suc fuel)) r none rows gs s f l =
      ap (λ q. q.0) (unlimited (suc fuel) r r (items []) s (start_goes r) (no_exception s f.quiet))
      ∙ (first_round fuel r (if limited r then r -ℤ pos 1 else r) rows gs s f (omega arith)
          ∙ ap (λ k. ok (some (list (items k)))) (counted-further r gs))

  -- `fetch_rows` for a valid statement, whose command stands in a row result, ends, if there is fuel
  -- for one round more than there are further rows. It returns, in order, the row that `next` has
  -- fetched before and that has not been taken yet, if there is one, and of the further rows as many as
  -- it is asked for, or all of them if that number is not positive or they are fewer.
  pub fetch_rows-counted :
      (fuel : ℕ) (r : ℤ) (res : Option Fields) (rows : List (List Cell)) (gs : List Fields)
      (s : State World)
      → IsFetching env wrap this conn ds w s res rows gs
      → suc (length gs) < fuel
      → (fetch_rows env fuel wrap r s).0 ≡ ok (some (list (items (at_hand res ++ further r gs))))
  unfolding fetch_rows check_valid items_of
  fetch_rows-counted fuel r res rows gs s f l = rw f.is_valid (from_res fuel r res rows gs s f l)
