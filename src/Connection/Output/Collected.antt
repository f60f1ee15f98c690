-- ===== src/Connection/Output/Collected.antt =====
-- `command::readOutput` of src/command.cpp for any number of statements that a server answers, against
-- the value that is assembled of their results.
use module_sybase.Base.{
  ℕ, zero, suc, ◌+◌, ◌<◌, ◌==◌, ℤ, none, some, List, [], ◌∷◌, Bool, true, false, ◌≡◌, refl, arith,
  ◌∙◌, is_nil, if◌then◌else◌,
}
use module_sybase.Effect.{State, ok, ResType, res_param, res_status, res_row, res_end, res_done}
use module_sybase.Effect.Fuelled.{F}
use module_sybase.Query.{Query}
use module_sybase.Value.{Value}
use module_sybase.Command.Describe.{retr_colinfo}
use module_sybase.Command.Rows.{read_rows, read_rows_as}
use module_sybase.Connection.Library.{Env}
use module_sybase.Connection.Output.{read_output_loop, read_output, turn, param_turn, status_turn}
use module_sybase.Connection.Recover.{connection_read_next_result}
use module_sybase.ResultFactory.{ResultFactory, new_factory, add, add_params, done, res}
use module_sybase.ResultFactory.Shape.{assembled, res-assembled}
use module_sybase.ResultFactory.Collect.{
  Result, query, params, Statement, add_result, add_results, add_statements, all_params,
  all_queries, add_statements-collects,
}

module _ (env : Env) (reinit : F env.ct.World ℤ) (this n : ℕ) where
  open env use {ct}
  open ct use {World}

  -- With the fuel for the calls that it makes, `readNextResult` returns this, without an exception.
  pub record Next (s : State World) (rt : ResType) (t : State World) : Type 0 where
    pub returned :
        (f : ℕ) → n < f → connection_read_next_result env reinit f this s ≡ (ok (some rt), t)
    pub quiet : is_nil t.sink ≡ true

  abbrev pub redescribed : State World → State World
  redescribed s =
      let c = s.commands this in
      record s {
        commands = λ a.
            if a == this
            then record c { colinfo = record c.colinfo { dirty = true } }
            else s.commands a;
      }

module _ (env : Env) (reinit : F env.ct.World ℤ) (this : ℕ) (as_list cols single_row : Bool)
    (n : ℕ) where
  open env use {build, ct}
  open ct use {World}

  -- The results of these statements follow in the state `s`, in `k` rounds: those of a statement are
  -- followed by its row count, and a status result may stand anywhere.
  pub data Answers : ℕ → State World → List Statement → Type 0 where
    ended : (s t : State World) → Next env reinit this n s res_end t → Answers 1 s []
    rows :
        (k : ℕ) (s t u : State World) (v : Value) (rs : List Result) (c : ℤ) (ss : List Statement)
        → Next env reinit this n s res_row t
        → ((f : ℕ)
            → n < f
            → read_rows_as build ct this f none as_list cols single_row t ≡ (ok (some v), u))
        → is_nil u.sink ≡ true
        → Answers k u (record { results = rs; rowcount = c } ∷ ss)
        → Answers (suc k) s (record { results = query v ∷ rs; rowcount = c } ∷ ss)
    output :
        (k : ℕ) (s t t' u : State World) (q : Query) (v : Value) (rs : List Result) (c : ℤ)
        (ss : List Statement)
        → Next env reinit this n s res_param t
        → retr_colinfo build ct this t ≡ (ok false, t')
        → (t'.commands this).query ≡ some q
        → ((f : ℕ)
            → n < f
            → read_rows build ct this f (some q.placeholders) false t' ≡ (ok (some v), u))
        → is_nil u.sink ≡ true
        → Answers k u (record { results = rs; rowcount = c } ∷ ss)
        → Answers (suc k) s (record { results = params v ∷ rs; rowcount = c } ∷ ss)
    counted :
        (k : ℕ) (s t : State World) (ss : List Statement)
        → Next env reinit this n s res_done t
        → Answers k t ss
        → Answers (suc k) s (record { results = []; rowcount = (t.commands this).rowcount } ∷ ss)
    status :
        (k : ℕ) (s t t' u : State World) (v : Value) (ss : List Statement)
        → Next env reinit this n s res_status t
        → retr_colinfo build ct this t ≡ (ok false, t')
        → ((f : ℕ)
            → n < f
            → read_rows_as build ct this f none as_list false false t' ≡ (ok (some v), u))
        → Answers k (redescribed env reinit this n u) ss
        → Answers (suc k) s ss

  loop-res :
      (fuel : ℕ) (rf : ResultFactory)
      → {k : ℕ} → {s : State World} → {ss : List Statement} → Answers k s ss
      → n + k < fuel
      → (let r = read_output_loop env reinit fuel this as_list cols single_row rf s in
          (r.0 ≡ ok (some (res (add_statements rf ss)))) × (is_nil r.1.sink ≡ true))
  unfolding read_output_loop turn param_turn status_turn add_statements add_results add_result
  loop-res zero rf a l = absurd (omega arith)
  loop-res (suc f) rf (ended s t x) l = rw (x.returned f (omega arith), x.quiet) (refl, x.quiet)
  loop-res (suc f) rf (rows k' s t u v rs c ss' x r q a) l =
      rw (x.returned f (omega arith), x.quiet, r f (omega arith), q)
        (loop-res f (add rf v) a (omega arith))
  loop-res (suc f) rf (output k' s t t' u q v rs c ss' x d h r n a) l =
      rw (x.returned f (omega arith), x.quiet, d, h, r f (omega arith), n)
        (loop-res f (add_params rf v) a (omega arith))
  loop-res (suc f) rf (counted k' s t ss' x a) l =
      rw (x.returned f (omega arith), x.quiet)
        (loop-res f (done rf (t.commands this).rowcount) a (omega arith))
  loop-res (suc f) rf (status k' s t t' u v ss' x d r a) l =
      rw (x.returned f (omega arith), x.quiet, d, r f (omega arith)) (loop-res f rf a (omega arith))

  -- `readOutput` reads the results of any number of statements, if `readNextResult` returns one after
  -- the other, their rows can be read, and there is fuel for each: it ends without an exception. Its
  -- value is assembled of two lists: the output parameters of all statements, and the rows of all of
  -- them, both in order, the latter with the row count of a statement where that is positive and no
  -- value stands for it; a status result leaves nothing. Where one of the lists is empty, the value is
  -- made of the other, and else it is a hash with the key query for the rows and params for the output
  -- parameters. A list that is empty is no value, a single value stands for itself, and more are a
  -- hash with the keys query0, query1 and so on.
  pub read_output-collects :
      (fuel k : ℕ) (s : State World) (ss : List Statement)
      → Answers k s ss
      → n + k < fuel
      → (let r = read_output env reinit fuel this as_list cols single_row s in
          (r.0 ≡ ok (some (assembled (all_params ss) (all_queries ss)))) × (is_nil r.1.sink ≡ true))
  unfolding read_output
  read_output-collects fuel k s ss a l =
      let (ps, rs, _) = add_statements-collects ss in
      let (e, q) = loop-res fuel new_factory a l in
      (e ∙ rw (res-assembled (add_statements new_factory ss), ps, rs) refl, q)
