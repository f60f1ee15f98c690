-- ===== src/Tests/Recovery.antt =====
-- A connection that is lost: the theorems on the script of a server whose results cannot be had.
use module_sybase.Base.{negsuc, [], ◌∷◌, ◌≡◌, refl, text, true, false, inl, is_nil}
use module_sybase.Build.{exception}
use module_sybase.Ct.{fail, cmd_done}
use module_sybase.Effect.{State, res_error}
use module_sybase.Messages.{discard_messages, purge_messages, purge_clients, purge_servers}
use module_sybase.Command.Results.{read_next_result, read_next_result1, cancel_disconnect}
use module_sybase.Command.Params.{bind_query}
use module_sybase.Command.Sending.{construct, initiate_language_command, send, clear}
use module_sybase.Connection.Login.{init}
use module_sybase.Connection.Lost.Recovery.{close_and_reconnect_lost}
use module_sybase.Connection.Lost.Results.{connection_read_next_result_lost}
use module_sybase.Connection.Recover.{close_and_reconnect, connection_read_next_result}
use module_sybase.Tests.Datasource.{env}
use module_sybase.Tests.Fixture.{Server, start, idle}

-- An exception is there already.
abbrev erroneous : State Server
erroneous = record (start [] idle) { sink = exception (text "TDS-EXEC-ERROR") [] ∷ [] }

close_and_reconnect_lost_example :
    let r = close_and_reconnect env (init env 4) 3 true erroneous in
    (negsuc 0 ≡ negsuc 0) × (is_nil r.1.sink ≡ false) × (r.1.world.aborted ≡ true)
unfolding close_and_reconnect cancel_disconnect discard_messages init module_sybase.Query.init text
    construct bind_query initiate_language_command send clear purge_messages purge_clients
    purge_servers
close_and_reconnect_lost_example =
    close_and_reconnect_lost env 4 3 true erroneous (negsuc 0) (λ w. refl) (inl refl) refl

-- The library has no result, and cancelling fails.
abbrev broken_off : State Server
broken_off = start [] (record idle { results = (fail, cmd_done) ∷ (fail, cmd_done) ∷ [] })

connection_read_next_result_lost_example :
    let x = connection_read_next_result env (init env 4) 4 3 broken_off in
    (res_error ≡ res_error) × (is_nil x.1.sink ≡ false) × (x.1.world.aborted ≡ true)
unfolding read_next_result read_next_result1 connection_read_next_result cancel_disconnect
    discard_messages init module_sybase.Query.init text construct bind_query
    initiate_language_command send clear purge_messages purge_clients purge_servers
connection_read_next_result_lost_example =
    connection_read_next_result_lost env 4 3 broken_off (read_next_result env.ct 3 4 broken_off).1
      res_error res_error (λ w. refl) refl refl refl
