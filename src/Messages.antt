-- ===== src/Messages.antt =====
-- The messages of the library: `discard_messages`, `purge_messages`, `do_check_exception` and
-- `do_exception` of src/connection.cpp. Assertions are part of the model: one that fails is a fault.
pub mod Queue
pub mod Frame
pub mod Purge
pub mod Check
pub mod Keeps
use module_sybase.Base.{
  ℕ, zero, suc, ◌+◌, ◌-◌, ℤ, pos, negsuc, ltb_ℤ, Bytes, Option, none, some, List, [], ◌∷◌, ◌++◌,
  Bool, true, false, not, ◌&&◌, ◌||◌, if◌then◌else◌, ◌==◌, length, text, decimal, format_int,
  trim_trailing, is_nil, eq_ℤ, take,
}
use module_sybase.Ct.{CtLib, RetCode, is_succeed, ClientMsg, ServerMsg}
use module_sybase.Effect.{
  State, Connection, Outcome, ok, thrown, fault, M, ◌>>=◌, ◌>>◌, pure, throw, gets, call, skip,
  raise, require, when,
}

abbrev pub is_severe : ℤ → Bool
is_severe n = ltb_ℤ (pos 10) n

abbrev pub is_nonzero : ℤ → Bool
is_nonzero n = not (eq_ℤ n (pos 0))

-- The texts that `purge_messages` raises.
unfoldable pub client_desc : ClientMsg → Bytes
client_desc m =
    text "client message "
    ++ format_int m.number
    ++ text ", severity "
    ++ format_int m.severity
    ++ text ": "
    ++ m.msgstring
    ++ (if is_nonzero m.osstringlen
        then text " (" ++ format_int m.osnumber ++ text "): '" ++ m.osstring ++ text "'"
        else [])

unfoldable pub server_desc : ServerMsg → Bytes
server_desc m =
    trim_trailing (λ c. c == b'\n')
      (text "state "
        ++ format_int m.state
        ++ text ", server message "
        ++ format_int m.msgnumber
        ++ text ", "
        ++ (if is_nonzero m.line then text "line " ++ format_int m.line ++ text ", " else [])
        ++ text "severity "
        ++ format_int m.severity
        ++ text ": "
        ++ m.msgtext)

-- The text so far, with a client or a server message added to it by `do_check_exception`; `count`
-- messages stand in it already.
abbrev separated : Bytes → ℕ → Bytes
separated estr count = if count == 0 then estr else estr ++ text ", "

unfoldable pub add_client : Bytes → ℕ → ClientMsg → Bytes
add_client estr count m =
    trim_trailing (λ c. c == b'.')
      (separated estr count
        ++ text "client message "
        ++ format_int m.number
        ++ text ": severity "
        ++ format_int m.severity
        ++ text ": "
        ++ m.msgstring)
    ++ (if is_nonzero m.osnumber && ltb_ℤ (pos 0) m.osstringlen
        then text ", OS error " ++ format_int m.osnumber ++ text ": " ++ m.osstring
        else [])

unfoldable pub add_server : Bytes → ℕ → ServerMsg → Bytes
add_server estr count m =
    trim_trailing (λ c. c == b'\n' || c == b'.')
      (separated estr count
        ++ (if is_nonzero m.svrnlen then m.svrname ++ text ": " else [])
        ++ text "state "
        ++ format_int m.state
        ++ text ", server message "
        ++ format_int m.msgnumber
        ++ text ", "
        ++ (if is_nonzero m.line then text "line " ++ format_int m.line ++ text ", " else [])
        ++ text "severity "
        ++ format_int m.severity
        ++ (if is_nonzero m.textlen then text ": " ++ m.msgtext else []))

-- 3902 and 3903: COMMIT or ROLLBACK with no transaction.
abbrev pub is_ignorable : ServerMsg → Bool
is_ignorable m = eq_ℤ m.msgnumber (pos 3902) || eq_ℤ m.msgnumber (pos 3903)

module _ (ct : CtLib) where
  open ct use {World}

  -- `discard_messages`
  unfoldable pub discard_messages : M World (Unit {0})
  discard_messages = do
    conn ← gets (λ s. s.conn.m_connection)
    ret ← call (ct.diag_clear conn)
    require (is_succeed ret)

  -- The loops of `purge_messages`, for `n` more messages from number `i` on. The result is `rc`.
  unfoldable pub purge_clients : Option ℕ → ℕ → ℕ → ℤ → M World ℤ
  purge_clients conn zero i rc = pure rc
  purge_clients conn (suc n) i rc = do
    (ret, m) ← call (ct.client_get conn i)
    require (is_succeed ret)
    when (is_severe m.severity) (raise (text "TDS-CLIENT-ERROR") (client_desc m))
    purge_clients conn n (suc i) (if is_severe m.severity then negsuc 0 else rc)

  unfoldable pub purge_servers : Option ℕ → ℕ → ℕ → ℤ → M World ℤ
  purge_servers conn zero i rc = pure rc
  purge_servers conn (suc n) i rc = do
    (ret, m) ← call (ct.server_get conn i)
    require (is_succeed ret)
    when (is_severe m.severity) (raise (text "TDS-SERVER-ERROR") (server_desc m))
    purge_servers conn n (suc i) (if is_severe m.severity then negsuc 0 else rc)

  -- `purge_messages`
  unfoldable pub purge_messages : M World ℤ
  purge_messages = do
    conn ← gets (λ s. s.conn.m_connection)
    (ret, num) ← call (ct.client_status conn)
    require (is_succeed ret)
    rc ← purge_clients conn num 1 (pos 0)
    (ret', num') ← call (ct.server_status conn)
    require (is_succeed ret')
    rc' ← purge_servers conn num' 1 rc
    ret'' ← call (ct.diag_clear conn)
    require (is_succeed ret'')
    pure rc'

  -- The loops of `do_check_exception`. They skip a message that cannot be had.
  unfoldable pub check_clients : Option ℕ → ℕ → ℕ → Bytes → ℕ → M World (Bytes × ℕ)
  check_clients conn zero i estr count = pure (estr, count)
  check_clients conn (suc n) i estr count = do
    (ret, m) ← call (ct.client_get conn i)
    let taken = is_succeed ret && is_severe m.severity
    check_clients conn n (suc i) (if taken then add_client estr count m else estr)
        (if taken then suc count else count)

  unfoldable pub check_servers : Option ℕ → ℕ → ℕ → Bytes → ℕ → Bool → M World (Bytes × ℕ × Bool)
  check_servers conn zero i estr count fnd = pure (estr, count, fnd)
  check_servers conn (suc n) i estr count fnd = do
    (ret, m) ← call (ct.server_get conn i)
    let taken = is_succeed ret && is_severe m.severity
    check_servers conn n (suc i) (if taken then add_server estr count m else estr)
        (if taken then suc count else count) (fnd || (is_succeed ret && is_ignorable m))

  -- `do_check_exception(xsink, check, err, estr)`: it throws, or returns where the one server
  -- message may be ignored. With no message in it the text loses its last two bytes.
  unfoldable pub do_check_exception : Bool → Bytes → Bytes → M World (Unit {0})
  do_check_exception check err estr = do
    conn ← gets (λ s. s.conn.m_connection)
    (ret, num) ← call (ct.client_status conn)
    require (is_succeed ret)
    (estr₁, count) ← check_clients conn num 1 estr 0
    (ret', num') ← call (ct.server_status conn)
    require (is_succeed ret')
    (estr₂, count', fnd) ← check_servers conn num' 1 estr₁ count (not check)
    ret'' ← call (ct.diag_clear conn)
    require (is_succeed ret'')
    if check && fnd && num' == 1
        then skip
        else throw err (if count' == 0 then take (length estr₂ - 2) estr₂ else estr₂)

  -- `do_check_exception(xsink, check, err, fmt, ...)` and `do_exception`, with the text formatted.
  abbrev pub do_check_exception_fmt : Bool → Bytes → Bytes → M World (Unit {0})
  do_check_exception_fmt check err t = do_check_exception check err (t ++ text ": ")

  unfoldable pub do_exception : Bytes → Bytes → M World (Unit {0})
  unfolding do_check_exception
  do_exception err t = do_check_exception false err (t ++ text ": ")
