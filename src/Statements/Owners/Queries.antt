-- ===== src/Statements/Owners/Queries.antt =====
-- The driver's functions for queries and transactions keep the invariant of the registrations.
use module_sybase.Base.{ℕ, pos, Bytes, Option, none, List, Bool, true, false}
use module_sybase.Effect.Fuelled.{F}
use module_sybase.Effect.FuelledKeeps.{fkeeps, FKeeps-ret, FKeeps-bind, FKeeps-lift, FKeeps-caught}
use module_sybase.Effect.Keeps.{Keeps, keeps}
use module_sybase.Value.{Value, int, Arg}
use module_sybase.Connection.Context.Keeps.{
  new_context-Keeps, delete_context-Keeps, get_client_version-Keeps,
}
use module_sybase.Connection.ExecuteKeeps.{commit-Keeps, rollback-Keeps}
use module_sybase.Connection.Library.{Env}
use module_sybase.Connection.Login.{init}
use module_sybase.Connection.Output.{
  select, exec, exec_raw, exec_rows, exec_row, with_query, exec_read_output,
}
use module_sybase.Connection.OutputKeeps.{
  exec_read_output-Keeps, with_query-Keeps, get_server_version-Keeps,
}
use module_sybase.Driver.{callback}
use module_sybase.Driver.Queries.{
  row_only, sybase_select, sybase_select_row, sybase_select_rows, sybase_exec, sybase_exec_raw,
  sybase_commit, sybase_rollback, sybase_get_server_version, sybase_get_client_version, version_in,
}
use module_sybase.Statements.Owners.{IsOwned, IsOwned-IsFrame}
use module_sybase.Statements.Owners.Invalidate.{IsOwned-IsQueryFrame}
use module_sybase.Statements.Owners.Methods.{close-IsOwned}
use module_sybase.Statements.Owners.Wrapped.{raise_error-Keeps}

module _ (env : Env) where
  open env use {build, ct, lib, qore}
  open ct use {World}

  pub callback-Keeps :
      {A : Type 0} (rv : A) (m : F World A) → Keeps IsOwned m → Keeps IsOwned (callback rv m)
  unfolding callback
  callback-Keeps rv m k =
      FKeeps-caught _ _ k (λ e. FKeeps-bind _ _ (raise_error-Keeps env e) λ u. FKeeps-ret rv)

  -- A query of any kind.
  query-Keeps :
      (fuel enc : ℕ) (t : Bytes) (args : Option (List Arg))
      (need_list do_binding cols single_row : Bool)
      → Keeps IsOwned (
          with_query env (init env fuel) enc t λ q.
            exec_read_output env (init env fuel) fuel q args need_list do_binding cols single_row)
  query-Keeps fuel enc t args need_list do_binding cols single_row =
      with_query-Keeps env (IsOwned-IsQueryFrame env) (init env fuel) (close-IsOwned env fuel) enc t
        _
        λ q.
          exec_read_output-Keeps env (IsOwned-IsQueryFrame env) (init env fuel)
            (close-IsOwned env fuel) fuel q args need_list do_binding cols single_row

  row_only-Keeps : (v : Value) → Keeps IsOwned (row_only env v)
  unfolding row_only
  row_only-Keeps v = search (fkeeps, keeps, IsOwned-IsFrame) depth 20

  pub sybase_select-Keeps :
      (fuel enc : ℕ) (t : Bytes) (args : Option (List Arg))
      → Keeps IsOwned (sybase_select env fuel enc t args)
  unfolding sybase_select select
  sybase_select-Keeps fuel enc t args =
      callback-Keeps (int (pos 0)) _ (query-Keeps fuel enc t args false true true false)

  pub sybase_select_row-Keeps :
      (fuel enc : ℕ) (t : Bytes) (args : Option (List Arg))
      → Keeps IsOwned (sybase_select_row env fuel enc t args)
  unfolding sybase_select_row exec_row
  sybase_select_row-Keeps fuel enc t args =
      callback-Keeps _ _
        (FKeeps-bind _ _ (query-Keeps fuel enc t args true true false true) row_only-Keeps)

  pub sybase_select_rows-Keeps :
      (fuel enc : ℕ) (t : Bytes) (args : Option (List Arg))
      → Keeps IsOwned (sybase_select_rows env fuel enc t args)
  unfolding sybase_select_rows exec_rows
  sybase_select_rows-Keeps fuel enc t args =
      callback-Keeps _ _
        (FKeeps-bind _ _ (query-Keeps fuel enc t args true true false false) (λ v. FKeeps-ret _))

  pub sybase_exec-Keeps :
      (fuel enc : ℕ) (t : Bytes) (args : Option (List Arg))
      → Keeps IsOwned (sybase_exec env fuel enc t args)
  unfolding sybase_exec exec
  sybase_exec-Keeps fuel enc t args =
      callback-Keeps _ _
        (FKeeps-bind _ _ (query-Keeps fuel enc t args false true false false) (λ v. FKeeps-ret _))

  pub sybase_exec_raw-Keeps :
      (fuel enc : ℕ) (t : Bytes) → Keeps IsOwned (sybase_exec_raw env fuel enc t)
  unfolding sybase_exec_raw exec_raw
  sybase_exec_raw-Keeps fuel enc t =
      callback-Keeps _ _
        (FKeeps-bind _ _ (query-Keeps fuel enc t none false false false false) (λ v. FKeeps-ret _))

  pub sybase_commit-Keeps : (fuel : ℕ) → Keeps IsOwned (sybase_commit env fuel)
  unfolding sybase_commit
  sybase_commit-Keeps fuel = callback-Keeps (pos 0) _ (commit-Keeps ct IsOwned-IsFrame fuel)

  pub sybase_rollback-Keeps : (fuel : ℕ) → Keeps IsOwned (sybase_rollback env fuel)
  unfolding sybase_rollback
  sybase_rollback-Keeps fuel = callback-Keeps (pos 0) _ (rollback-Keeps ct IsOwned-IsFrame fuel)

  pub sybase_get_server_version-Keeps :
      (fuel : ℕ) → Keeps IsOwned (sybase_get_server_version env fuel)
  unfolding sybase_get_server_version
  sybase_get_server_version-Keeps fuel = callback-Keeps _ _ (
      get_server_version-Keeps env (IsOwned-IsQueryFrame env) (init env fuel)
        (close-IsOwned env fuel) fuel)

  version_in-Keeps : (c : Option ℕ) → Keeps IsOwned (version_in env c)
  unfolding version_in
  version_in-Keeps c = search (fkeeps, get_client_version-Keeps, IsOwned-IsFrame) depth 20

  pub sybase_get_client_version-Keeps : Keeps IsOwned (sybase_get_client_version env)
  unfolding sybase_get_client_version
  sybase_get_client_version-Keeps = callback-Keeps _ _ (
      FKeeps-bind _ _ (FKeeps-lift _ (new_context-Keeps env IsOwned-IsFrame)) λ c.
        FKeeps-bind _ _ (version_in-Keeps c) λ v.
          FKeeps-bind _ _ (FKeeps-lift _ (delete_context-Keeps env IsOwned-IsFrame c))
            λ u. FKeeps-ret v)
