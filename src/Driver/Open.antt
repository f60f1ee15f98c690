-- ===== src/Driver/Open.antt =====
-- `sybase_open` and `sybase_close` of src/sybase.cpp.
use module_sybase.Base.{
  ℕ, ℤ, pos, negsuc, Bytes, Option, none, some, ◌++◌, Bool, true, false, not, ◌==◌, if◌then◌else◌,
  text, decimal,
}
use module_sybase.Effect.{Connection, ok, gets, raise, has_exception}
use module_sybase.Effect.Fuelled.{F, ◌>>=◌, ◌>>◌, lift, ret, caught, rethrow}
use module_sybase.Encoding.{name_to_qore_encoding, qore_encoding_to_sybase_name}
use module_sybase.Number.{num_optimal}
use module_sybase.Connection.Context.{new_context}
use module_sybase.Connection.Handles.{set_conn, delete_connection}
use module_sybase.Connection.Library.{Env}
use module_sybase.Connection.Login.{init}
use module_sybase.Driver.{callback}

-- The members of a `connection` that has been constructed.
abbrev pub new_connection : Option ℕ → Connection
new_connection m_context = record {
  m_context = m_context;
  m_connection = none;
  connected = false;
  is_sybase = false;
  enc = 0;
  is_multi_byte = false;
  numeric_support = num_optimal;
  server_tz = none;
  optimized_date_binds = false;
  stmt = none;
}

-- What is done with a name that has to be there.
abbrev pub named : {W A : Type 0} → Option Bytes → F W A → (Bytes → F W A) → F W A
named none m f = m
named (some t) m f = f t

module _ (env : Env) where
  open env use {build, ct, lib, qore}
  open ct use {World}

  -- The encoding of the datasource; the result is whether there is none, so that an exception has
  -- been raised.
  unfoldable pub choose_encoding : Option Bytes → F World Bool
  unfolding name_to_qore_encoding qore_encoding_to_sybase_name
  choose_encoding (some name) = λ s.
      let enc = qore.number_of (name_to_qore_encoding qore.find_create name) in
      (ok (some false), record s { world = qore.set_qore_encoding enc s.world })
  choose_encoding none =
      named (qore_encoding_to_sybase_name qore.qcs_default)
        (do
          lift (
              raise (text "TDS-UNKNOWN-CHARACTER-SET") (
                text "cannot find the Sybase character encoding equivalent for '"
                ++ qore.get_code (qore.number_of qore.qcs_default)
                ++ text "'"))
          ret true)
        (λ enc s.
          let w = qore.set_db_encoding enc s.world in
          (
            ok (some false),
            record s { world = qore.set_qore_encoding (qore.number_of qore.qcs_default) w },
          ))

  -- `sybase_open` with the connection constructed; where the result is not 0 it is destroyed.
  abbrev pub refuse : Bytes → Bytes → F World ℤ
  refuse err desc = do lift (raise err desc); lift (delete_connection env); ret (negsuc 0)

  unfoldable pub open_connection : ℕ → F World ℤ
  unfolding init delete_connection
  open_connection fuel = do
    _ ← caught (init env fuel) (λ e. do lift (delete_connection env); rethrow e)
    stop ← lift has_exception
    if stop then (do lift (delete_connection env); ret (negsuc 0)) else ret (pos 0)

  unfoldable pub check_address : ℕ → Option Bytes → ℕ → F World ℤ
  unfolding open_connection
  check_address fuel none port =
      if port == 0
      then open_connection fuel
      else refuse (text "TDS-CONNECT-ERROR") (
          text "port is set to "
          ++ decimal port
          ++ text
              ", but no hostname is set; both hostname and port must be set to override the interfaces file")
  check_address fuel (some hostname) port =
      if not (port == 0)
      then open_connection fuel
      else refuse (text "TDS-CONNECT-ERROR") (
          text "hostname is set to '"
          ++ hostname
          ++ text
              "', but no port is set; both hostname and port must be set to override the interfaces file")

  -- `sybase_open`, within the callback
  unfoldable pub open_named : ℕ → F World ℤ
  unfolding choose_encoding check_address new_context
  open_named fuel = do
    name ← lift (gets (λ s. qore.db_encoding s.world))
    failed ← choose_encoding name
    if failed then ret (negsuc 0) else (do
      m_context ← lift (new_context env)
      lift (set_conn (λ c. new_connection m_context))
      stop ← lift has_exception
      if stop
          then (do lift (delete_connection env); ret (negsuc 0))
          else check_address fuel qore.host_name qore.port)

  unfoldable pub sybase_open : ℕ → F World ℤ
  unfolding open_named callback
  sybase_open fuel = callback (negsuc 0) (
      named qore.username
        (do
          lift (
              raise (text "DATASOURCE-MISSING-USERNAME")
                (text "Datasource has an empty username parameter"))
          ret (negsuc 0))
        (λ username.
          named qore.db_name
            (do
              lift (
                  raise (text "DATASOURCE-MISSING-DBNAME")
                    (text "Datasource has an empty dbname parameter"))
              ret (negsuc 0))
            (λ db_name. open_named fuel)))

  -- `sybase_close`
  unfoldable pub sybase_close : F World ℤ
  unfolding delete_connection
  sybase_close = do lift (delete_connection env); ret (pos 0)
