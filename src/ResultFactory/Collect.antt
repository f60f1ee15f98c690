-- ===== src/ResultFactory/Collect.antt =====
-- The results of whole statements, against the list of values that they leave.
use module_sybase.Base.{
  ◌++◌, false, ◌≡◌, refl, ◌∙◌, List, [], ◌∷◌, append-nil, append_assoc, ℤ, pos, if◌then◌else◌,
  ltb_ℤ, arith, sym, subst,
}
use module_sybase.Value.{Value, nothing, null, int, is_value}
use module_sybase.ResultFactory.{ResultFactory, new_factory, add, add_params, done}

-- A result of a statement: the rows of a query, or output parameters.
pub data Result : Type 0 where
  query : Value → Result
  params : Value → Result

-- A statement: its results in order, and the row count that CS_CMD_DONE reports.
pub record Statement : Type 0 where
  pub results : List Result
  pub rowcount : ℤ

unfoldable pub add_result : ResultFactory → Result → ResultFactory
add_result rf (query v) = add rf v
add_result rf (params v) = add_params rf v

unfoldable pub add_results : ResultFactory → List Result → ResultFactory
unfolding add_result
add_results rf [] = rf
add_results rf (r ∷ rs) = add_results (add_result rf r) rs

unfoldable pub add_statements : ResultFactory → List Statement → ResultFactory
add_statements rf [] = rf
add_statements rf (s ∷ ss) = add_statements (done (add_results rf s.results) s.rowcount) ss

-- What a statement leaves, by itself.
abbrev pub queries : List Result → List Value
queries [] = []
queries (query v ∷ rs) = v ∷ queries rs
queries (params v ∷ rs) = queries rs

abbrev pub param_sets : List Result → List Value
param_sets [] = []
param_sets (query v ∷ rs) = param_sets rs
param_sets (params v ∷ rs) = v ∷ param_sets rs

abbrev pub value_of : Result → Value
value_of (query v) = v
value_of (params v) = v

abbrev pub last_of : Value → List Result → Value
last_of v [] = v
last_of v (r ∷ rs) = last_of (value_of r) rs

-- The row count counts where the last result, if any, holds no value.
abbrev counted : ℤ → Value → List Value
counted n last = if ltb_ℤ (pos 0) n then if is_value last then [] else int n ∷ [] else []

abbrev pub row_count : Statement → List Value
row_count s = counted s.rowcount (last_of nothing s.results)

abbrev pub all_queries : List Statement → List Value
all_queries [] = []
all_queries (s ∷ ss) = queries s.results ++ row_count s ++ all_queries ss

abbrev pub all_params : List Statement → List Value
all_params [] = []
all_params (s ∷ ss) = param_sets s.results ++ all_params ss

-- The fields of a factory but for `lasttype`, which nothing reads.
record Holds (rf : ResultFactory) (ps rs : List Value) (last : Value) : Type 0 where
  params_are : rf.params ≡ ps
  reslist_is : rf.reslist ≡ rs
  last_is : rf.last ≡ last

add_results-Holds :
    (rf : ResultFactory) (rs : List Result)
    → Holds
        (add_results rf rs)
        (rf.params ++ param_sets rs)
        (rf.reslist ++ queries rs)
        (last_of rf.last rs)
unfolding add_results add add_params
add_results-Holds rf [] = record {
  params_are = sym (append-nil rf.params);
  reslist_is = sym (append-nil rf.reslist);
  last_is = refl;
}
add_results-Holds rf (query v ∷ rs) =
    let h = add_results-Holds (add rf v) rs in
    record {
      params_are = h.params_are;
      reslist_is = h.reslist_is ∙ append_assoc rf.reslist (v ∷ []) (queries rs);
      last_is = h.last_is;
    }
add_results-Holds rf (params v ∷ rs) =
    let h = add_results-Holds (add_params rf v) rs in
    record {
      params_are = h.params_are ∙ append_assoc rf.params (v ∷ []) (param_sets rs);
      reslist_is = h.reslist_is;
      last_is = h.last_is;
    }

is_value-nothing : (v : Value) → is_value v ≡ false → v ≡ nothing
unfolding is_value
is_value-nothing nothing h = refl
is_value-nothing null h = cc
is_value-nothing (int n) h = cc
is_value-nothing _ h = cc

done-Holds :
    (rf : ResultFactory) (n : ℤ) {ps rs : List Value} {last : Value}
    → Holds rf ps rs last
    → Holds (done rf n) ps (rs ++ counted n last) nothing
unfolding done
done-Holds rf n {ps} {rs} {last} h = record {
  params_are = ground (arith, h.params_are);
  reslist_is = ground (arith, h.reslist_is, h.last_is, append-nil rs);
  last_is = ground (arith, is_value-nothing rf.last);
}

statement-Holds :
    (rf : ResultFactory) (s : Statement)
    → rf.last ≡ nothing
    → Holds
        (done (add_results rf s.results) s.rowcount)
        (rf.params ++ param_sets s.results)
        (rf.reslist ++ (queries s.results ++ row_count s))
        nothing
statement-Holds rf s e =
    let h = add_results-Holds rf s.results in
    let d = done-Holds (add_results rf s.results) s.rowcount (
      subst
        (λ l.
          Holds (add_results rf s.results) (rf.params ++ param_sets s.results)
            (rf.reslist ++ queries s.results) (last_of l s.results))
        e h) in
    record {
      params_are = d.params_are;
      reslist_is = d.reslist_is ∙ append_assoc rf.reslist (queries s.results) (row_count s);
      last_is = d.last_is;
    }

add_statements-Holds :
    (rf : ResultFactory) (ss : List Statement)
    → rf.last ≡ nothing
    → Holds
        (add_statements rf ss)
        (rf.params ++ all_params ss)
        (rf.reslist ++ all_queries ss)
        nothing
unfolding add_statements
add_statements-Holds rf [] e = record {
  params_are = sym (append-nil rf.params);
  reslist_is = sym (append-nil rf.reslist);
  last_is = e;
}
add_statements-Holds rf (s ∷ ss) e =
    let d = statement-Holds rf s e in
    let h = add_statements-Holds (done (add_results rf s.results) s.rowcount) ss d.last_is in
    record {
      params_are = h.params_are ∙ rw (d.params_are, append_assoc);
      reslist_is = h.reslist_is ∙ rw (d.reslist_is, append_assoc, append_assoc);
      last_is = h.last_is;
    }

-- After any number of statements the factory holds the output parameters of all of them and the
-- rows of all of them, in order; a statement adds its row count, if that is positive, exactly
-- where its last result holds no value or it has none. Nothing of one statement bears on how the
-- next is counted.
pub add_statements-collects :
    (ss : List Statement)
    → ((add_statements new_factory ss).params ≡ all_params ss)
      × ((add_statements new_factory ss).reslist ≡ all_queries ss)
      × ((add_statements new_factory ss).last ≡ nothing)
add_statements-collects ss =
    let h = add_statements-Holds new_factory ss refl in (h.params_are, h.reslist_is, h.last_is)
