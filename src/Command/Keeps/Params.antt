-- ===== src/Command/Keeps/Params.antt =====
-- What the binding of a query keeps.
use module_sybase.Base.{ℕ, Option, none, some, List, [], ◌∷◌}
use module_sybase.Build.{Build}
use module_sybase.Conversions.{DateTime}
use module_sybase.Ct.{CtLib}
use module_sybase.Effect.{State}
use module_sybase.Effect.Keeps.{Keeps, IsFrame, keeps, Keeps-pure}
use module_sybase.Messages.Keeps.{do_exception-Keeps}
use module_sybase.Query.{Query}
use module_sybase.Command.Arguments.{Arg, QoreTm}
use module_sybase.Command.Keeps.{initiate_language_command-Keeps}
use module_sybase.Command.Params.{
  Bind, bind, bind_last, bind_error, bind_thrown, bind_param, set_params, bind_query,
}

module _ (build : Build) (ct : CtLib) (get_info : ℕ → DateTime → QoreTm)
    {P : State ct.World → Type 0} (frame : IsFrame P) (this : ℕ) where
  bind_param-Keeps : (i : ℕ) (b : Bind) → Keeps P (bind_param build ct get_info this i b)
  unfolding bind_param
  bind_param-Keeps i (bind p) = search (keeps, frame, do_exception-Keeps) depth 20
  bind_param-Keeps i (bind_last p) = search (keeps, frame) depth 20
  bind_param-Keeps i (bind_error t) = search (keeps, frame, do_exception-Keeps) depth 20
  bind_param-Keeps i (bind_thrown e t) = search (keeps, frame) depth 20

  set_params-Keeps :
      (ks : List ℕ) (args : Option (List Arg)) (i : ℕ)
      → Keeps P (set_params build ct get_info this ks args i)
  unfolding set_params
  set_params-Keeps [] args i = Keeps-pure tt
  set_params-Keeps (k ∷ ks) args i = search (keeps, bind_param-Keeps, set_params-Keeps ks) depth 20

  pub bind_query-Keeps :
      (q : Query) (args : Option (List Arg)) → Keeps P (bind_query build ct get_info this q args)
  unfolding bind_query
  bind_query-Keeps q none = search (keeps, frame, initiate_language_command-Keeps) depth 20
  bind_query-Keeps q (some l) =
      search (keeps, frame, initiate_language_command-Keeps, set_params-Keeps) depth 20
