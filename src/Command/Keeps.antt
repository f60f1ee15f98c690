-- ===== src/Command/Keeps.antt =====
-- What the methods of a command keep.
pub mod Rows
pub mod Params
use module_sybase.Base.{ℕ, zero, suc, ℤ, Bytes, Option, some, Bool, true, false, List, [], ◌∷◌}
use module_sybase.Build.{Build}
use module_sybase.Ct.{
  CtLib, RetCode, succeed, fail, end_results, end_data, row_fail, other_code, ResultType, cmd_done,
  cmd_succeed, cmd_fail, param_result, status_result, row_result, other_result, Datafmt,
}
use module_sybase.Effect.{State, get_command, set_command}
use module_sybase.Effect.Keeps.{
  Keeps, IsFrame, keeps, Keeps-pure, Keeps-bind, Keeps-if, Keeps-get_command, Keeps-set_command,
}
use module_sybase.Messages.Keeps.{do_exception-Keeps, purge_messages-Keeps}
use module_sybase.Command.Describe.{
  get_column_count, get_row_description, setup_output_buffers, bind_columns, describe_columns,
  retr_colinfo, ensure_colinfo,
}
use module_sybase.Command.Results.{
  is_retry, cancel_intern, cancel_disconnect, cancel, cmd_done_result, result_of, results_of,
  read_next_result1, read_next_result,
}
use module_sybase.Command.Sending.{
  construct, initiate_language_command, send, drop_command, cancel_unfinished, clear,
}

module _ (ct : CtLib) {P : State ct.World → Type 0} (frame : IsFrame P) (this : ℕ) where
  pub construct-Keeps : Keeps P (construct ct this)
  unfolding construct
  construct-Keeps = search (keeps, frame) depth 20

  pub initiate_language_command-Keeps : (t : Bytes) → Keeps P (initiate_language_command ct this t)
  unfolding initiate_language_command
  initiate_language_command-Keeps t = search (keeps, frame, do_exception-Keeps) depth 20

  pub send-Keeps : Keeps P (send ct this)
  unfolding send
  send-Keeps = search (keeps, frame, do_exception-Keeps) depth 20

  pub clear-Keeps : (aborted : Bool) → Keeps P (clear ct this aborted)
  unfolding clear drop_command cancel_unfinished
  clear-Keeps aborted = search (keeps, frame) depth 20

  pub cancel_intern-Keeps : Keeps P (cancel_intern ct this)
  unfolding cancel_intern
  cancel_intern-Keeps = search (keeps, frame) depth 20

  pub cancel_disconnect-Keeps : Keeps P (cancel_disconnect ct this)
  unfolding cancel_disconnect
  cancel_disconnect-Keeps = search (keeps, frame, cancel_intern-Keeps) depth 20

  pub cancel-Keeps : Keeps P (cancel ct this)
  unfolding cancel
  cancel-Keeps = search (keeps, frame, cancel_intern-Keeps) depth 20

  cmd_done_result-Keeps : Keeps P (cmd_done_result ct this)
  unfolding cmd_done_result
  cmd_done_result-Keeps = search (keeps, frame, do_exception-Keeps, purge_messages-Keeps) depth 20

  result_of-Keeps : (t : ResultType) → Keeps P (result_of ct this t)
  unfolding result_of
  result_of-Keeps cmd_done = cmd_done_result-Keeps
  result_of-Keeps cmd_succeed = Keeps-pure _
  result_of-Keeps cmd_fail = search (keeps, frame, do_exception-Keeps) depth 20
  result_of-Keeps param_result = Keeps-pure _
  result_of-Keeps status_result = Keeps-pure _
  result_of-Keeps row_result = Keeps-pure _
  result_of-Keeps (other_result n) = search (keeps, frame, do_exception-Keeps) depth 20

  results_of-Keeps : (ret : RetCode) (t : ResultType) → Keeps P (results_of ct this ret t)
  unfolding results_of
  results_of-Keeps end_results t = Keeps-pure _
  results_of-Keeps fail t = search (keeps, frame, cancel_intern-Keeps) depth 20
  results_of-Keeps succeed t = search (keeps, result_of-Keeps) depth 20
  results_of-Keeps end_data t = search (keeps, frame, do_exception-Keeps) depth 20
  results_of-Keeps row_fail t = search (keeps, frame, do_exception-Keeps) depth 20
  results_of-Keeps (other_code n) t = search (keeps, frame, do_exception-Keeps) depth 20

  read_next_result1-Keeps : Keeps P (read_next_result1 ct this)
  unfolding read_next_result1
  read_next_result1-Keeps = search (keeps, frame, results_of-Keeps) depth 20

  pub read_next_result-Keeps : (fuel : ℕ) → Keeps P (read_next_result ct this fuel)
  unfolding read_next_result
  read_next_result-Keeps zero = Keeps-pure _
  read_next_result-Keeps (suc fuel) = Keeps-bind _ _ read_next_result1-Keeps λ r.
      Keeps-bind (get_command this) _ (Keeps-get_command this) λ c.
        Keeps-bind (set_command this (record c { last_res = r.0 })) _
          (Keeps-set_command frame this _)
          λ u. Keeps-if (is_retry r.0) _ _ (read_next_result-Keeps fuel) (Keeps-pure (some r))

  module _ (build : Build) where
    get_column_count-Keeps : Keeps P (get_column_count build ct this)
    unfolding get_column_count
    get_column_count-Keeps = search (keeps, frame, do_exception-Keeps) depth 20

    get_row_description-Keeps : (k n i : ℕ) → Keeps P (get_row_description build ct this k n i)
    unfolding get_row_description
    get_row_description-Keeps k zero i = Keeps-pure _
    get_row_description-Keeps k (suc n) i =
        search (keeps, frame, do_exception-Keeps, get_row_description-Keeps k n) depth 20

    setup_output_buffers-Keeps :
        (ds : List Datafmt) (i : ℕ) → Keeps P (setup_output_buffers build ct this ds i)
    unfolding setup_output_buffers
    setup_output_buffers-Keeps [] i = Keeps-pure _
    setup_output_buffers-Keeps (d ∷ ds) i =
        search (keeps, frame, do_exception-Keeps, setup_output_buffers-Keeps ds) depth 20

    pub retr_colinfo-Keeps : Keeps P (retr_colinfo build ct this)
    unfolding retr_colinfo describe_columns bind_columns
    retr_colinfo-Keeps =
        search
          (
            keeps, frame, get_column_count-Keeps, get_row_description-Keeps,
            setup_output_buffers-Keeps,
          )
          depth 30

    pub ensure_colinfo-Keeps : Keeps P (ensure_colinfo build ct this)
    unfolding ensure_colinfo
    ensure_colinfo-Keeps = search (keeps, retr_colinfo-Keeps) depth 20
