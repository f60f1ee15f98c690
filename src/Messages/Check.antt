-- ===== src/Messages/Check.antt =====
-- What `do_check_exception` and `do_exception` throw, and when the former returns.
use module_sybase.Base.{
  ℕ, suc, ◌-◌, Bytes, Option, List, [], ◌∷◌, ◌++◌, length, ◌≡◌, refl, arith, ◌∙◌, Bool, true, false,
  ◌||◌, ◌&&◌, not, ◌==◌, any, if◌then◌else◌, text, take, ap,
}
use module_sybase.Build.{exception}
use module_sybase.Ct.{CtLib, ClientMsg, ServerMsg}
use module_sybase.Effect.{State, ok, thrown}
use module_sybase.Messages.{
  check_clients, check_servers, do_check_exception, do_exception, add_client, add_server, is_severe,
  is_ignorable,
}
use module_sybase.Messages.Queue.{Diag, Serves, Serves-clients, Serves-servers}

-- The text with the severe messages added, and how many there are, counted from `count`.
abbrev pub client_report : Bytes → ℕ → List ClientMsg → Bytes × ℕ
client_report t count [] = (t, count)
client_report t count (m ∷ l) =
    client_report (if is_severe m.severity then add_client t count m else t)
      (if is_severe m.severity then suc count else count) l

abbrev pub server_report : Bytes → ℕ → List ServerMsg → Bytes × ℕ
server_report t count [] = (t, count)
server_report t count (m ∷ l) =
    server_report (if is_severe m.severity then add_server t count m else t)
      (if is_severe m.severity then suc count else count) l

-- The description of the error: the text and its severe messages, or the text without its last
-- two bytes.
abbrev pub report : Bytes → List ClientMsg → List ServerMsg → Bytes
report t cs ms =
    let c = client_report t 0 cs in
    let r = server_report c.0 c.1 ms in if r.1 == 0 then take (length r.0 - 2) r.0 else r.0

-- The one server message is about a transaction that is not there.
abbrev pub may_ignore : List ServerMsg → Bool
may_ignore ms = any is_ignorable ms && length ms == 1

or_assoc : (a b c : Bool) → ((a || b) || c) ≡ (a || (b || c))
or_assoc true b c = refl
or_assoc false b c = refl

module _ (ct : CtLib) (conn : Option ℕ) where
  check_clients_lem :
      (l : List ClientMsg) (i : ℕ) (t : Bytes) (count : ℕ) (s : State ct.World)
      → Serves (ct.client_get conn) s.world i l
      → check_clients ct conn (length l) i t count s ≡ (ok (client_report t count l), s)
  unfolding check_clients
  check_clients_lem [] i t count s h = refl
  check_clients_lem (m ∷ l) i t count s h = rw h.0 (check_clients_lem l (suc i) _ _ s h.1)

  check_servers_lem :
      (l : List ServerMsg) (i : ℕ) (t : Bytes) (count : ℕ) (b : Bool) (s : State ct.World)
      → Serves (ct.server_get conn) s.world i l
      → check_servers ct conn (length l) i t count b s
        ≡ (let r = server_report t count l in (ok (r.0, r.1, b || any is_ignorable l), s))
  unfolding check_servers
  check_servers_lem [] i t count b s h = ground arith
  check_servers_lem (m ∷ l) i t count b s h =
      let r = server_report t count (m ∷ l) in
      rw h.0 (
        check_servers_lem l (suc i) _ _ _ s h.1
        ∙ ap (λ (x : Bool). (ok (r.0, r.1, x), s))
            (or_assoc b (is_ignorable m) (any is_ignorable l)))

pub do_check_exception_exact :
    (ct : CtLib) (check : Bool) (err t : Bytes) (s : State ct.World)
    (d : Diag ct s.conn.m_connection)
    → do_check_exception ct check err t s ≡ (
      (if check && may_ignore (d.servers s.world)
          then ok tt
          else thrown (exception err (report t (d.clients s.world) (d.servers s.world)))),
      record s { world = d.cleared s.world },
    )
unfolding do_check_exception
do_check_exception_exact ct check err t s d =
    let conn = s.conn.m_connection in
    let c = client_report t 0 (d.clients s.world) in
    rw (d.client_status_is s.world) (
      rw (check_clients_lem ct conn (d.clients s.world) 1 t 0 s (Serves-clients d s.world)) (
        rw (d.server_status_is s.world) (
          rw
            (check_servers_lem ct conn (d.servers s.world) 1 c.0 c.1 (not check) s
              (Serves-servers d s.world))
            (rw (d.diag_clear_is s.world) (ground arith)))))

-- `do_exception` throws the code and the report of all messages, whatever they are, and clears them.
pub do_exception_throws :
    (ct : CtLib) (err t : Bytes) (s : State ct.World) (d : Diag ct s.conn.m_connection)
    → do_exception ct err t s ≡ (
      thrown (exception err (report (t ++ text ": ") (d.clients s.world) (d.servers s.world))),
      record s { world = d.cleared s.world },
    )
unfolding do_exception
do_exception_throws ct err t s d = do_check_exception_exact ct false err (t ++ text ": ") s d
