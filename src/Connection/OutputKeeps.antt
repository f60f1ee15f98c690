-- ===== src/Connection/OutputKeeps.antt =====
-- What `readOutput` and the methods that run a query keep.
use module_sybase.Base.{ℕ, zero, suc, ℤ, Bytes, Option, none, some, List, Bool, true, false}
use module_sybase.Effect.{
  State, ResType, res_none, res_param, res_status, res_row, res_end, res_done, res_error, res_retry,
  res_canceled,
}
use module_sybase.Effect.Fuelled.{F}
use module_sybase.Effect.FuelledKeeps.{
  fkeeps, FKeeps-ret, FKeeps-out, FKeeps-fault, FKeeps-bind, FKeeps-lift, FKeeps-if,
}
use module_sybase.Effect.Keeps.{Keeps, keeps}
use module_sybase.Messages.Keeps.{do_exception-Keeps, purge_messages-Keeps}
use module_sybase.Query.{Query}
use module_sybase.ResultFactory.{ResultFactory}
use module_sybase.Value.{Value, Arg, nothing, hash, end, field}
use module_sybase.Command.Keeps.{retr_colinfo-Keeps}
use module_sybase.Command.Keeps.Rows.{read_rows-Keeps, read_rows_as-Keeps}
use module_sybase.Connection.Keeps.{
  IsQueryFrame, destroyed-Keeps, setup_command-Keeps, connection_read_next_result-Keeps,
}
use module_sybase.Connection.Library.{Env, Converted, converted, not_converted}
use module_sybase.Connection.Output.{
  Turn, returned, broken, continued, param_turn, status_turn, turn, turned, read_output_loop,
  read_output, read_result, run_command, exec_read_output, in_encoding, with_query, version_of,
  get_server_version,
}
use module_sybase.Connection.Recover.{close_and_reconnect}

module _ (env : Env) {P : State env.ct.World → Type 0} (q : IsQueryFrame env P) where
  open env use {build, ct, lib, qore}
  open ct use {World}

  module _ (this : ℕ) (as_list cols single_row : Bool) where
    param_turn-Keeps :
        (fuel : ℕ) (rf : ResultFactory) (o : Option Query)
        → Keeps P (param_turn env this as_list cols single_row fuel rf o)
    unfolding param_turn
    param_turn-Keeps fuel rf none = search (fkeeps, keeps) depth 20
    param_turn-Keeps fuel rf (some query) = search (fkeeps, q.frame, read_rows-Keeps) depth 20

    status_turn-Keeps :
        (fuel : ℕ) (rf : ResultFactory)
        → Keeps P (status_turn env this as_list cols single_row fuel rf)
    unfolding status_turn
    status_turn-Keeps fuel rf = search (fkeeps, keeps, q.frame, read_rows_as-Keeps) depth 20

    turn-Keeps :
        (fuel : ℕ) (rf : ResultFactory) (rt : ResType)
        → Keeps P (turn env this as_list cols single_row fuel rf rt)
    unfolding turn
    turn-Keeps fuel rf res_error = FKeeps-ret _
    turn-Keeps fuel rf res_param =
        search (fkeeps, keeps, q.frame, retr_colinfo-Keeps, param_turn-Keeps) depth 20
    turn-Keeps fuel rf res_row = search (fkeeps, q.frame, read_rows_as-Keeps) depth 20
    turn-Keeps fuel rf res_end = FKeeps-ret _
    turn-Keeps fuel rf res_done = search (fkeeps, keeps) depth 20
    turn-Keeps fuel rf res_status =
        search (fkeeps, q.frame, retr_colinfo-Keeps, status_turn-Keeps) depth 20
    turn-Keeps fuel rf res_none = search (fkeeps, q.frame, do_exception-Keeps) depth 20
    turn-Keeps fuel rf res_retry = search (fkeeps, q.frame, do_exception-Keeps) depth 20
    turn-Keeps fuel rf res_canceled = search (fkeeps, q.frame, do_exception-Keeps) depth 20

  turned-Keeps :
      (t : Turn) (stop : Bool) (f : ResultFactory → F World Value)
      → ((rf : ResultFactory) → Keeps P (f rf))
      → Keeps P (turned env t stop f)
  turned-Keeps (returned v) stop f kf = FKeeps-ret v
  turned-Keeps (broken rf) stop f kf = FKeeps-if stop _ _ (FKeeps-ret nothing) (kf rf)
  turned-Keeps (continued rf) stop f kf = kf rf

  module _ (reinit : F World ℤ)
      (close : (this : ℕ) (b : Bool) → Keeps P (close_and_reconnect env reinit this b)) where
    read_output_loop-Keeps :
        (fuel this : ℕ) (as_list cols single_row : Bool) (rf : ResultFactory)
        → Keeps P (read_output_loop env reinit fuel this as_list cols single_row rf)
    unfolding read_output_loop
    read_output_loop-Keeps zero this as_list cols single_row rf = FKeeps-out
    read_output_loop-Keeps (suc fuel) this as_list cols single_row rf =
        search
          (
            fkeeps,
            keeps,
            connection_read_next_result-Keeps env q reinit close,
            turn-Keeps,
            turned-Keeps,
            read_output_loop-Keeps fuel,
          )
          depth 20

    read_result-Keeps :
        (fuel this : ℕ) (need_list cols single_row : Bool)
        → Keeps P (read_result env reinit fuel this need_list cols single_row)
    unfolding read_result read_output
    read_result-Keeps fuel this need_list cols single_row =
        search (fkeeps, keeps, read_output_loop-Keeps) depth 20

    run_command-Keeps :
        (fuel : ℕ) (need_list cols single_row : Bool) (o : Option ℕ)
        → Keeps P (run_command env reinit fuel need_list cols single_row o)
    unfolding run_command
    run_command-Keeps fuel need_list cols single_row none = FKeeps-fault
    run_command-Keeps fuel need_list cols single_row (some this) = record {
      at = λ s h.
          destroyed-Keeps env q this (read_result env reinit fuel this need_list cols single_row s)
            ((read_result-Keeps fuel this need_list cols single_row).at s h);
    }

    pub exec_read_output-Keeps :
        (fuel : ℕ) (t : Bytes) (args : Option (List Arg))
        (need_list do_binding cols single_row : Bool)
        → Keeps P (exec_read_output env reinit fuel t args need_list do_binding cols single_row)
    unfolding exec_read_output
    exec_read_output-Keeps fuel t args need_list do_binding cols single_row =
        FKeeps-bind _ _ (FKeeps-lift _ q.by_invalidate) λ u.
          FKeeps-bind _ _ (setup_command-Keeps env q reinit close fuel t args _)
            λ o. run_command-Keeps fuel need_list cols single_row o

    in_encoding-Keeps :
        (c : Converted) (f : Bytes → F World Value)
        → ((t : Bytes) → Keeps P (f t))
        → Keeps P (in_encoding env reinit c f)
    in_encoding-Keeps (not_converted e) f kf = search (fkeeps, keeps, q.frame) depth 20
    in_encoding-Keeps (converted t) f kf = search (fkeeps, q.frame, purge_messages-Keeps) depth 20

    pub with_query-Keeps :
        (enc : ℕ) (t : Bytes) (f : Bytes → F World Value)
        → ((t : Bytes) → Keeps P (f t))
        → Keeps P (with_query env reinit enc t f)
    unfolding with_query
    with_query-Keeps enc t f kf = record {
      at = λ s. (in_encoding-Keeps (qore.convert_encoding enc s.conn.enc t) f kf).at s;
    }

    version_of-Keeps : (v : Value) → Keeps P (version_of env reinit v)
    unfolding version_of
    version_of-Keeps nothing = FKeeps-ret _
    version_of-Keeps (hash end) = FKeeps-ret _
    version_of-Keeps (hash (field k v h)) = FKeeps-ret _
    version_of-Keeps _ = FKeeps-fault

    pub get_server_version-Keeps : (fuel : ℕ) → Keeps P (get_server_version env reinit fuel)
    unfolding get_server_version
    get_server_version-Keeps fuel =
        FKeeps-bind _ _ (exec_read_output-Keeps fuel _ none true true false false) version_of-Keeps
