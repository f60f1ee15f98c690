-- ===== src/Statements/Owners/Methods.antt =====
-- The methods of prepared statements keep the invariant of the registrations.
use module_sybase.Base.{
  ℕ, zero, suc, ℤ, negsuc, Bytes, Option, none, some, List, [], Bool, ◌≡◌, refl,
}
use module_sybase.Effect.{State, Statement, ResType}
use module_sybase.Effect.Fuelled.{F, ret}
use module_sybase.Effect.FuelledKeeps.{
  fkeeps, FKeeps-ret, FKeeps-fault, FKeeps-out, FKeeps-bind, FKeeps-if,
}
use module_sybase.Effect.Keeps.{Keeps, keeps}
use module_sybase.Command.Keeps.{cancel-Keeps}
use module_sybase.Command.Keeps.Rows.{fetch_row-Keeps, read_cols-Keeps}
use module_sybase.Connection.Handles.{get_wrap, safe_get}
use module_sybase.Connection.Keeps.{
  destroyed-Keeps, setup_command-Keeps, connection_read_next_result-Keeps,
}
use module_sybase.Connection.Library.{Env}
use module_sybase.Connection.Login.{init}
use module_sybase.Connection.LoginKeeps.{init-Keeps, close_and_reconnect-Keeps}
use module_sybase.Connection.Recover.{close_and_reconnect}
use module_sybase.Statements.Methods
use module_sybase.Statements.Methods.{
  check_valid, cancel_context, reset_context, context_of, executed, query_text, next_row,
  release_res, row_round, fetch_rows_loop, set_statement, get_statement,
}
use module_sybase.Statements.Owners.{IsOwned, IsOwned-IsFrame, rewrapped-IsOwned}
use module_sybase.Statements.Owners.Invalidate.{IsOwned-IsQueryFrame}
use module_sybase.Value.{Value, Items, Arg}

module _ (env : Env) where
  open env use {build, ct, lib, qore}
  open ct use {World}

  cleared-IsOwned : (s : State World) → IsOwned s → IsOwned (record s { sink = [] })
  cleared-IsOwned s o = record {
    below = o.below;
    distinct = o.distinct;
    registered = o.registered;
    stmt_valid = o.stmt_valid;
    stmt_below = o.stmt_below;
  }

  pub init-IsOwned : (fuel : ℕ) → Keeps IsOwned (init env fuel)
  init-IsOwned = init-Keeps env (IsOwned-IsQueryFrame env) cleared-IsOwned

  pub close-IsOwned :
      (fuel this : ℕ) (b : Bool) → Keeps IsOwned (close_and_reconnect env (init env fuel) this b)
  close-IsOwned fuel =
      close_and_reconnect-Keeps env (IsOwned-IsQueryFrame env) cleared-IsOwned (init env fuel)
        (init-IsOwned fuel)

  get_wrap-Keeps : (wrap : ℕ) → Keeps {W = World} IsOwned (get_wrap wrap)
  get_wrap-Keeps wrap = record { at = λ s o. o }

  safe_get-Keeps : (o : Option ℕ) → Keeps {W = World} IsOwned (safe_get o)
  unfolding safe_get
  safe_get-Keeps none = search (keeps)
  safe_get-Keeps (some a) = search (keeps)

  get_statement-Keeps : (wrap : ℕ) → Keeps IsOwned (get_statement env wrap)
  get_statement-Keeps wrap = record { at = λ s o. o }

  set_statement-Keeps :
      (wrap : ℕ) (f : Statement → Statement)
      → ((m : Statement) → (f m).valid ≡ m.valid)
      → Keeps IsOwned (set_statement env wrap f)
  set_statement-Keeps wrap f e = record {
    at = λ s o.
        rewrapped-IsOwned s wrap (record (s.wraps wrap) { m = f (s.wraps wrap).m })
          (e (s.wraps wrap).m) o;
  }

  set_res-Keeps :
      (wrap : ℕ) (r : _) → Keeps IsOwned (set_statement env wrap (λ m. record m { exec_res = r }))
  set_res-Keeps wrap r = set_statement-Keeps wrap (λ m. record m { exec_res = r }) (λ m. refl)

  set_context-Keeps :
      (wrap : ℕ) (c : Option ℕ)
      → Keeps IsOwned (set_statement env wrap (λ m. record m { context = c }))
  set_context-Keeps wrap c = set_statement-Keeps wrap (λ m. record m { context = c }) (λ m. refl)

  set_placeholders-Keeps :
      (wrap : ℕ) (l : List Bytes)
      → Keeps IsOwned (set_statement env wrap (λ m. record m { placeholders = l }))
  set_placeholders-Keeps wrap l =
      set_statement-Keeps wrap (λ m. record m { placeholders = l }) (λ m. refl)

  ruleset statements = (
    get_wrap-Keeps, safe_get-Keeps, get_statement-Keeps, set_res-Keeps, set_context-Keeps,
    set_placeholders-Keeps,
  )

  check_valid-Keeps : (wrap : ℕ) → Keeps IsOwned (check_valid env wrap)
  unfolding check_valid
  check_valid-Keeps wrap = search (fkeeps, keeps, statements, IsOwned-IsFrame) depth 20

  cancel_context-Keeps : (o : Option ℕ) → Keeps IsOwned (cancel_context env o)
  unfolding cancel_context
  cancel_context-Keeps none = FKeeps-ret tt
  cancel_context-Keeps (some this) = search (fkeeps, cancel-Keeps ct IsOwned-IsFrame) depth 20

  reset_context-Keeps : (o : Option ℕ) → Keeps IsOwned (reset_context env o)
  unfolding reset_context
  reset_context-Keeps none = FKeeps-ret tt
  reset_context-Keeps (some old) = record {
    at = λ s o. destroyed-Keeps env (IsOwned-IsQueryFrame env) old (ret tt s) o;
  }

  context_of-Keeps : (o : Option ℕ) → Keeps IsOwned (context_of env o)
  unfolding context_of
  context_of-Keeps none = FKeeps-fault
  context_of-Keeps (some this) = FKeeps-ret this

  query_text-Keeps : (o : Option Bytes) → Keeps IsOwned (query_text env o)
  unfolding query_text
  query_text-Keeps none = FKeeps-fault
  query_text-Keeps (some t) = FKeeps-ret t

  executed-Keeps : (fuel wrap : ℕ) (cmd : Option ℕ) → Keeps IsOwned (executed env fuel wrap cmd)
  unfolding executed
  executed-Keeps fuel wrap cmd =
      search
        (
          fkeeps,
          keeps,
          statements,
          reset_context-Keeps,
          context_of-Keeps,
          connection_read_next_result-Keeps env (IsOwned-IsQueryFrame env) (init env fuel)
              (close-IsOwned fuel),
        )
        depth 30

  pub exec-Keeps :
      (fuel wrap : ℕ) (query : Option Bytes) (args : Option (List Arg)) (raw : Bool)
      → Keeps IsOwned (Methods.exec env fuel wrap query args raw)
  unfolding Methods.exec
  exec-Keeps fuel wrap query args raw = FKeeps-bind _ _ (check_valid-Keeps wrap) λ failed.
      FKeeps-if failed _ _ (FKeeps-ret (negsuc 0)) (
        FKeeps-bind _ _ (get_statement-Keeps wrap) λ m.
          FKeeps-bind _ _ (cancel_context-Keeps m.context) λ u.
            FKeeps-bind _ _ (query_text-Keeps query) λ t.
              FKeeps-bind _ _
                (setup_command-Keeps env (IsOwned-IsQueryFrame env) (init env fuel)
                  (close-IsOwned fuel) fuel t args raw)
                (executed-Keeps fuel wrap))

  next_row-Keeps : (wrap this : ℕ) (res : ResType) → Keeps IsOwned (next_row env wrap this res)
  unfolding next_row
  next_row-Keeps wrap this res =
      search (fkeeps, statements, fetch_row-Keeps build ct IsOwned-IsFrame) depth 20

  pub next-Keeps : (fuel wrap : ℕ) → Keeps IsOwned (Methods.next env fuel wrap)
  unfolding Methods.next
  next-Keeps fuel wrap =
      search
        (
          fkeeps,
          keeps,
          statements,
          check_valid-Keeps,
          context_of-Keeps,
          next_row-Keeps,
          connection_read_next_result-Keeps env (IsOwned-IsQueryFrame env) (init env fuel)
              (close-IsOwned fuel),
        )
        depth 30

  pub release_res-Keeps : (wrap : ℕ) → Keeps IsOwned (release_res env wrap)
  unfolding release_res
  release_res-Keeps wrap = search (fkeeps, statements) depth 20

  row_round-Keeps :
      (again : Items → F World Value) (fuel wrap : ℕ) (l : Items)
      → ((l : Items) → Keeps IsOwned (again l))
      → Keeps IsOwned (row_round env again fuel wrap l)
  unfolding row_round
  row_round-Keeps again fuel wrap l k = search (fkeeps, release_res-Keeps, next-Keeps) depth 20

  fetch_rows_loop-Keeps :
      (fuel wrap : ℕ) (r rows : ℤ) (l : Items)
      → Keeps IsOwned (fetch_rows_loop env fuel wrap r rows l)
  unfolding fetch_rows_loop
  fetch_rows_loop-Keeps zero wrap r rows l = FKeeps-out
  fetch_rows_loop-Keeps (suc fuel) wrap r rows l =
      search (fkeeps, keeps, row_round-Keeps, fetch_rows_loop-Keeps fuel) depth 20

  pub fetch_rows-Keeps :
      (fuel wrap : ℕ) (rows : ℤ) → Keeps IsOwned (Methods.fetch_rows env fuel wrap rows)
  unfolding Methods.fetch_rows
  fetch_rows-Keeps fuel wrap rows =
      search (fkeeps, check_valid-Keeps, fetch_rows_loop-Keeps) depth 20

  pub get_output-Keeps : (fuel wrap : ℕ) → Keeps IsOwned (Methods.get_output env fuel wrap)
  unfolding Methods.get_output
  get_output-Keeps fuel wrap =
      search (fkeeps, statements, check_valid-Keeps, read_cols-Keeps build ct IsOwned-IsFrame) depth
        20

  pub fetch_columns-Keeps :
      (fuel wrap : ℕ) (rows : ℤ) → Keeps IsOwned (Methods.fetch_columns env fuel wrap rows)
  unfolding Methods.fetch_columns
  fetch_columns-Keeps fuel wrap rows =
      search (fkeeps, statements, check_valid-Keeps, read_cols-Keeps build ct IsOwned-IsFrame) depth
        20

  pub affected_rows-Keeps : (wrap : ℕ) → Keeps IsOwned (Methods.affected_rows env wrap)
  unfolding Methods.affected_rows
  affected_rows-Keeps wrap = search (fkeeps, keeps, statements, check_valid-Keeps) depth 20

  pub bind_placeholders-Keeps :
      (wrap : ℕ) (l : List Bytes) → Keeps IsOwned (Methods.bind_placeholders env wrap l)
  unfolding Methods.bind_placeholders
  bind_placeholders-Keeps wrap l = search (fkeeps, statements, check_valid-Keeps) depth 20
