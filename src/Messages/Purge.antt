-- ===== src/Messages/Purge.antt =====
-- What `purge_messages` raises and returns.
use module_sybase.Base.{
  ℕ, suc, ℤ, pos, negsuc, Option, List, [], ◌∷◌, ◌++◌, length, ◌≡◌, arith, ◌∙◌, append_assoc,
  append-nil, Bool, ◌||◌, any, if◌then◌else◌, text, Bool-cases, inl, inr,
}
use module_sybase.Build.{Exception, exception}
use module_sybase.Ct.{CtLib, ClientMsg, ServerMsg}
use module_sybase.Effect.{State, ok}
use module_sybase.Messages.{
  purge_clients, purge_servers, purge_messages, client_desc, server_desc, is_severe,
}
use module_sybase.Messages.Queue.{Diag, Serves, Serves-clients, Serves-servers}

-- The exceptions for the messages with a severity above 10, in order.
abbrev pub client_errors : List ClientMsg → List Exception
client_errors [] = []
client_errors (m ∷ l) =
    (if is_severe m.severity then exception (text "TDS-CLIENT-ERROR") (client_desc m) ∷ [] else [])
    ++ client_errors l

abbrev pub server_errors : List ServerMsg → List Exception
server_errors [] = []
server_errors (m ∷ l) =
    (if is_severe m.severity then exception (text "TDS-SERVER-ERROR") (server_desc m) ∷ [] else [])
    ++ server_errors l

abbrev pub rc_of : Bool → ℤ → ℤ
rc_of b rc = if b then negsuc 0 else rc

module _ (ct : CtLib) (conn : Option ℕ) where
  pub purge_clients_lem :
      (l : List ClientMsg) (i : ℕ) (rc : ℤ) (s : State ct.World)
      → Serves (ct.client_get conn) s.world i l
      → purge_clients ct conn (length l) i rc s ≡ (
        ok (rc_of (any (λ m. is_severe m.severity) l) rc),
        record s { sink = s.sink ++ client_errors l },
      )
  unfolding purge_clients
  purge_clients_lem [] i rc s h = ground (arith, append-nil s.sink)
  purge_clients_lem (m ∷ l) i rc s h = elim (Bool-cases (is_severe m.severity)) [
    | inl e ↦
        let x = exception (text "TDS-CLIENT-ERROR") (client_desc m) in
        rw h.0 (
          rw e (
            purge_clients_lem l (suc i) (negsuc 0) (record s { sink = s.sink ++ x ∷ [] }) h.1
            ∙ ground (arith, append_assoc s.sink (x ∷ []) (client_errors l))))
    | inr e ↦ rw h.0 (rw e (purge_clients_lem l (suc i) rc s h.1))
  ]

  pub purge_servers_lem :
      (l : List ServerMsg) (i : ℕ) (rc : ℤ) (s : State ct.World)
      → Serves (ct.server_get conn) s.world i l
      → purge_servers ct conn (length l) i rc s ≡ (
        ok (rc_of (any (λ m. is_severe m.severity) l) rc),
        record s { sink = s.sink ++ server_errors l },
      )
  unfolding purge_servers
  purge_servers_lem [] i rc s h = ground (arith, append-nil s.sink)
  purge_servers_lem (m ∷ l) i rc s h = elim (Bool-cases (is_severe m.severity)) [
    | inl e ↦
        let x = exception (text "TDS-SERVER-ERROR") (server_desc m) in
        rw h.0 (
          rw e (
            purge_servers_lem l (suc i) (negsuc 0) (record s { sink = s.sink ++ x ∷ [] }) h.1
            ∙ ground (arith, append_assoc s.sink (x ∷ []) (server_errors l))))
    | inr e ↦ rw h.0 (rw e (purge_servers_lem l (suc i) rc s h.1))
  ]

-- A message of either kind with a severity above 10 is waiting.
abbrev pub any_severe : List ClientMsg → List ServerMsg → Bool
any_severe cs ms = any (λ m. is_severe m.severity) ms || any (λ m. is_severe m.severity) cs

-- `purge_messages` raises an exception for each waiting message with a severity above 10, the
-- client's before the server's, and no other; it returns -1 exactly where there is such a message,
-- leaves the connection with no messages, and changes nothing else.
pub purge_messages_exact :
    (ct : CtLib) (s : State ct.World) (d : Diag ct s.conn.m_connection)
    → purge_messages ct s ≡ (
      ok (rc_of (any_severe (d.clients s.world) (d.servers s.world)) (pos 0)),
      record s {
        world = d.cleared s.world;
        sink = (s.sink ++ client_errors (d.clients s.world)) ++ server_errors (d.servers s.world);
      },
    )
unfolding purge_messages
purge_messages_exact ct s d =
    let conn = s.conn.m_connection in
    let cs = d.clients s.world in
    let rc = rc_of (any (λ (m : ClientMsg). is_severe m.severity) cs) (pos 0) in
    let s' = record s { sink = s.sink ++ client_errors cs } in
    rw (d.client_status_is s.world) (
      rw (purge_clients_lem ct conn cs 1 (pos 0) s (Serves-clients d s.world)) (
        rw (d.server_status_is s.world) (
          rw (purge_servers_lem ct conn (d.servers s.world) 1 rc s' (Serves-servers d s.world))
            (rw (d.diag_clear_is s.world) (ground arith)))))
