-- ===== src/Tests/Library.antt =====
-- Messages and results: the theorems on a script of a server.
use module_sybase.Base.{
  ℕ, ◌<◌, ◌≡◌, ◌≢◌, refl, arith, negsuc, Option, none, some, List, [], ◌∷◌, text, length, true,
  false,
}
use module_sybase.Ct.{RetCode, succeed, fail, ResultType, cmd_done, cmd_succeed, row_result}
use module_sybase.Effect.{res_error, res_row, res_retry, ok, State}
use module_sybase.Build.{exception}
use module_sybase.Messages.{purge_messages, client_desc, server_desc}
use module_sybase.Messages.Purge.{purge_messages_exact}
use module_sybase.Command.Results.{read_next_result, read_next_result1, cancel_intern}
use module_sybase.Command.Results.Steps.{
  Waits, stored, read_next_result_waits, read_next_result-last_res,
}
use module_sybase.Command.Results.Errors.{cancelled}
use module_sybase.Command.Results.Ends.{read_next_result-error, read_next_result_terminates}
use module_sybase.Tests.Fixture.{Server, fake, fake_diag, start, idle, client_msg, server_msg}

abbrev noisy : State Server
noisy = start [] (record idle { clients = client_msg ∷ []; servers = server_msg ∷ [] })

purge_messages_exact_example : purge_messages fake noisy ≡ (
  ok (negsuc 0),
  record (start [] idle) {
    sink =
        exception (text "TDS-CLIENT-ERROR") (client_desc client_msg)
        ∷ exception (text "TDS-SERVER-ERROR") (server_desc server_msg)
        ∷ [];
  },
)
purge_messages_exact_example = purge_messages_exact fake noisy (fake_diag (some 5))

-- CS_CMD_SUCCEED, and rows then.
abbrev row_script : List (RetCode × ResultType)
row_script = (succeed, cmd_succeed) ∷ (succeed, row_result) ∷ []

abbrev at_rows : State Server
at_rows = stored fake 3 res_row (stored fake 3 res_retry (start [] idle))

last_res_example : ((at_rows.commands 3).last_res ≡ res_row) × (res_row ≢ res_retry)
unfolding read_next_result1
last_res_example =
    read_next_result-last_res fake 3 2 (start [] (record idle { results = row_script }))
      (res_row, false) at_rows (unfold read_next_result in refl)

-- CS_FAIL, on a connection where the cancellation fails too.
abbrev failing : State Server
failing = start [] (record idle { results = (fail, cmd_done) ∷ [] })

abbrev failed : State Server
failed = stored fake 3 res_error (record (start [] idle) { sink = cancelled ∷ [] })

read_next_result-error_example : failed.sink ≢ []
unfolding read_next_result1 cancel_intern
read_next_result-error_example =
    read_next_result-error fake 3 2 failing failed true refl refl (unfold read_next_result in refl)

-- The number of CS_CMD_SUCCEED that are still to come.
abbrev pending : Server → ℕ
pending w = length w.results

next_result_falls :
    (c : Option ℕ) (w : Server)
    → (fake.ct_results c w).0 ≡ (succeed, cmd_succeed)
    → pending (fake.ct_results c w).1 < pending w
next_result_falls c w e = by_results w.results refl e
  where
    by_results :
        (l : List (RetCode × ResultType))
        → w.results ≡ l
        → (fake.ct_results c w).0 ≡ (succeed, cmd_succeed)
        → pending (fake.ct_results c w).1 < pending w
    by_results [] e k = absurd (ground (arith, e, k))
    by_results (r ∷ rs) e k = rw e (omega arith)

read_next_result_terminates_example :
    (read_next_result fake 3 3 (start [] (record idle { results = row_script }))).0 ≢ ok none
read_next_result_terminates_example =
    read_next_result_terminates fake pending 3 3 (start [] (record idle { results = row_script }))
      next_result_falls (omega arith)

-- After a row result the loop waits for its rows to be fetched.
read_next_result_waits_example :
    let s = stored fake 3 res_row (start [] (record idle { results = row_script })) in
    ((read_next_result fake 3 1 s).0 ≡ ok (some (res_row, false)))
    × ((read_next_result fake 3 1 s).1.world ≡ s.world)
    × ((read_next_result fake 3 1 s).1.sink ≡ s.sink)
    × ((a : ℕ) → ((read_next_result fake 3 1 s).1.commands a).last_res ≡ (s.commands a).last_res)
unfolding Waits
read_next_result_waits_example =
    read_next_result_waits fake 3 0
      (stored fake 3 res_row (start [] (record idle { results = row_script }))) refl tt
