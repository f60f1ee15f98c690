-- ===== src/Tests/Outputs.antt =====
-- The results of a command, its end and the opening of a datasource: the theorems on a server that
-- answers two statements, and on one that answers nothing.
use module_sybase.Base.{
  ℕ, zero, suc, ◌<◌, ◌≡◌, pos, none, some, List, [], ◌∷◌, refl, arith, text, is_nil, true, false,
  to_lower,
}
use module_sybase.Ct.{succeed, row_result, cmd_done, int_type}
use module_sybase.Effect.{State, ok, ResType, res_row, res_done, res_end}
use module_sybase.Value.{int, field, end, hash, has_key, set_key}
use module_sybase.Command.Convert.{get_value, value_of, convert, signed, read_le}
use module_sybase.Command.Names.{free_name}
use module_sybase.Command.Results.{read_next_result, read_next_result1}
use module_sybase.Command.Rows.{read_rows_as, add_row}
use module_sybase.Connection.Dropped.{Dropped, run_command-Dropped}
use module_sybase.Connection.Login.{init}
use module_sybase.Connection.Output.{read_output, read_result, run_command}
use module_sybase.Connection.Output.Collected.{
  Next, Answers, ended, rows, counted, read_output-collects,
}
use module_sybase.Connection.Recover.{connection_read_next_result}
use module_sybase.ResultFactory.Shape.{assembled}
use module_sybase.ResultFactory.Collect.{Statement, query, all_params, all_queries}
use module_sybase.Driver.Open.{sybase_open}
use module_sybase.Driver.Opened.{Agrees, sybase_open-Agrees}
use module_sybase.Statements.Wrap.{delete_wrap}
use module_sybase.Tests.Datasource.{env}
use module_sybase.Tests.Fixture.{Server, build, column, start, idle}

-- A row and its count, and the count of a second statement.
abbrev answering : State Server
answering = start (column (text "A") int_type ∷ []) (record idle {
  results = (succeed, row_result) ∷ (succeed, cmd_done) ∷ (succeed, cmd_done) ∷ [];
  rows =
      (record { indicator = pos 0; value = 7 ∷ 0 ∷ 0 ∷ 0 ∷ 0 ∷ 0 ∷ 0 ∷ 0 ∷ []; value_len = 4 } ∷ [])
      ∷ [];
})

abbrev statements : List Statement
statements =
    record { results = query (hash (field (text "a") (int (pos 7)) end)) ∷ []; rowcount = pos 1 }
    ∷ record { results = []; rowcount = pos 1 }
    ∷ []

abbrev following : State Server → State Server
following s = (connection_read_next_result env (init env 4) 2 3 s).1

abbrev after_rows : State Server
after_rows = (read_rows_as build env.ct 3 2 none true true false (following answering)).1

is_Next :
    (s t : State Server) (rt : ResType)
    → ((f : ℕ) → connection_read_next_result env (init env 4) (suc f) 3 s ≡ (ok (some rt), t))
    → is_nil t.sink ≡ true
    → Next env (init env 4) 3 1 s rt t
is_Next s t rt h q = record { returned = by_fuel; quiet = q }
  where
    by_fuel :
        (f : ℕ) → 1 < f → connection_read_next_result env (init env 4) f 3 s ≡ (ok (some rt), t)
    by_fuel zero l = absurd (omega arith)
    by_fuel (suc f) l = h f

rows_read :
    (f : ℕ)
    → 1 < f
    → read_rows_as build env.ct 3 f none true true false (following answering)
      ≡ (ok (some (hash (field (text "a") (int (pos 7)) end))), after_rows)
unfolding connection_read_next_result read_next_result read_next_result1 read_rows_as add_row
    get_value value_of convert signed read_le text free_name has_key set_key to_lower
rows_read zero l = absurd (omega arith)
rows_read (suc zero) l = absurd (omega arith)
rows_read (suc (suc f)) l = refl

answers : Answers env (init env 4) 3 true true false 1 4 answering statements
unfolding connection_read_next_result read_next_result read_next_result1 read_rows_as add_row
    get_value value_of convert signed read_le text free_name has_key set_key to_lower
answers =
    let t = following after_rows in
    let u = following t in
    rows 3 answering (following answering) after_rows _ [] (pos 1) _
      (is_Next answering _ res_row (λ f. refl) refl) rows_read refl
      (counted 2 after_rows t _ (is_Next after_rows t res_done (λ f. refl) refl) (
        counted 1 t u [] (is_Next t u res_done (λ f. refl) refl)
          (ended u (following u) (is_Next u (following u) res_end (λ f. refl) refl))))

read_output-collects_example :
    let r = read_output env (init env 4) 6 3 true true false answering in
    (r.0 ≡ ok (some (assembled (all_params statements) (all_queries statements))))
    × (is_nil r.1.sink ≡ true)
read_output-collects_example =
    read_output-collects env (init env 4) 3 true true false 1 6 4 answering statements answers
      (omega arith)

run_command-Dropped_example :
    Dropped env 3
      (read_result env (init env 4) 6 3 true true false answering).1
      (run_command env (init env 4) 6 true true false (some 3) answering)
    × Dropped env 3 answering (delete_wrap env (some 3) answering)
run_command-Dropped_example = run_command-Dropped env 3 (init env 4) 6 true true false answering

sybase_open-Agrees_example : Agrees (sybase_open env 4 (start [] idle))
sybase_open-Agrees_example = sybase_open-Agrees env 4 (start [] idle)
