-- ===== src/Connection/Login.antt =====
-- `init` of src/connection.cpp: the connection is made and set up, and its encoding is found out. A
-- query of it that loses the connection again calls `init` again; the fuel bounds how often.
use module_sybase.Base.{
  ℕ, zero, suc, ℤ, pos, negsuc, Bytes, Option, none, some, [], ◌++◌, true, false, not, ◌==◌,
  if◌then◌else◌, is_nil, text, decimal, format_int,
}
use module_sybase.Ct.{RetCode, is_succeed}
use module_sybase.Effect.{State, gets, call, raise, require, when, has_exception}
use module_sybase.Effect.Fuelled.{F, ◌>>=◌, ◌>>◌, lift, ret, out}
use module_sybase.Messages.{do_exception, purge_messages}
use module_sybase.Command.Sending.{is_null}
use module_sybase.Value.{Value}
use module_sybase.Connection.Charset.{set_enc, use_version}
use module_sybase.Connection.Execute.{left}
use module_sybase.Connection.Handles.{set_conn}
use module_sybase.Connection.Library.{
  Env, ConProp, login_timeout, con_username, con_password, serveraddr, loc_prop, charsetcnv,
  chainxacts, textsize, lc_all, syb_charset,
}
use module_sybase.Connection.Output.{get_server_version}

-- The arguments of `init`.
pub record Login : Type 0 where
  pub username : Bytes
  pub password : Bytes
  pub dbname : Bytes
  pub db_encoding : Option Bytes
  pub n_enc : ℕ
  pub hostname : Option Bytes
  pub port : ℕ

abbrev pub or_empty : Option Bytes → Bytes
or_empty none = []
or_empty (some t) = t

module _ (env : Env) where
  open env use {ct, lib, qore}
  open ct use {World}

  -- An error of a call that is raised; the result of `init` is -1 then.
  unfoldable pub checked : RetCode → Bytes → Bytes → F World ℤ → F World ℤ
  checked rc err desc rest =
      if is_succeed rc then rest else (do lift (raise err desc); ret (negsuc 0))

  -- A property is set; `what` is the text before the number of the error.
  unfoldable pub set_prop : ConProp → Bytes → Bytes → F World ℤ → F World ℤ
  unfolding checked
  set_prop p err what rest = do
    conn ← lift (gets (λ s. s.conn.m_connection))
    rc ← lift (call (lib.set_con_props conn p))
    checked rc err (what ++ text " failed with error " ++ format_int (ct.ret_number rc)) rest

  unfoldable pub set_password : Bytes → F World ℤ → F World ℤ
  unfolding set_prop
  set_password password rest =
      if is_nil password
      then rest
      else set_prop (con_password password) (text "TDS-CTLIB-SET-PASSWORD")
          (text "ct_con_props(CS_PASSWORD)") rest

  -- `hostname && port`
  unfoldable pub set_address : Option Bytes → ℕ → F World ℤ → F World ℤ
  unfolding set_prop
  set_address none port rest = rest
  set_address (some hostname) port rest =
      let hn = hostname ++ text " " ++ decimal port in
      if port == 0
      then rest
      else set_prop (serveraddr hn) (text "TDS-CTLIB-SET-SERVERADDR")
          (text "ct_con_props(CS_SERVERADDR, '" ++ hn ++ text "')") rest

  -- The lines for builds with a locale, which is dropped when `init` is left.
  abbrev pub loc_dropped : Option ℕ → State World → State World
  loc_dropped loc s = record s { world = (lib.cs_loc_drop loc s.world).1 }

  unfoldable pub set_locale : Option ℕ → Option Bytes → F World ℤ → F World ℤ
  unfolding checked
  set_locale loc db_encoding rest = do
    rc ← lift (call (lib.cs_locale loc lc_all))
    checked rc (text "TDS-EXEC-EXCEPTION")
        (text "cs_locale(CS_LC_ALL) returned error " ++ format_int (ct.ret_number rc))
        (do
          rc' ← lift (call (lib.cs_locale loc (syb_charset db_encoding)))
          checked rc' (text "TDS-EXEC-EXCEPTION")
              (text "cs_locale(CS_SYB_CHARSET, '"
                ++ or_empty db_encoding
                ++ text "') failed with error "
                ++ format_int (ct.ret_number rc'))
              (do
                conn ← lift (gets (λ s. s.conn.m_connection))
                rc'' ← lift (call (lib.set_con_props conn (loc_prop loc)))
                checked rc'' (text "TDS-EXEC-EXCEPTION")
                    (text "ct_con_props(CS_SET, CS_LOC_PROP) failed with error "
                      ++ format_int (ct.ret_number rc''))
                    rest))

  unfoldable pub with_locale : Option Bytes → F World ℤ → F World ℤ
  unfolding checked set_locale
  with_locale db_encoding rest = if not lib.has_locale then rest else (do
    (rc, loc) ← lift (call lib.cs_loc_alloc)
    checked rc (text "TDS-EXEC-EXCEPTION")
        (text "cs_loc_alloc() returned error " ++ format_int (ct.ret_number rc))
        (λ s. left (loc_dropped loc) (set_locale loc db_encoding rest s)))

  -- `ct_connect` and the options; each error is thrown.
  abbrev pub failing : RetCode → Bytes → Bytes → F World (Unit {0})
  failing rc err desc = lift (when (not (is_succeed rc)) (do_exception ct err desc))

  unfoldable pub connect : Bytes → F World (Unit {0})
  connect dbname = do
    conn ← lift (gets (λ s. s.conn.m_connection))
    rc ← lift (call (lib.ct_connect conn dbname))
    failing rc (text "TDS-CTLIB-CONNECT-ERROR")
        (text "ct_connect() failed with error " ++ format_int (ct.ret_number rc))
    lift (set_conn (λ c. record c { connected = true }))
    rc₁ ← lift (call (lib.ct_options conn (chainxacts true)))
    failing rc₁ (text "TDS-INIT-ERROR") (text "ct_options(CS_OPT_CHAINXACTS) failed")
    rc₂ ← lift (call (lib.ct_options conn (textsize 1048576)))
    failing rc₂ (text "TDS-INIT-ERROR") (text "ct_options(CS_OPT_TEXTSIZE) failed")
    rc₃ ← lift (call lib.cs_dt_info)
    failing rc₃ (text "TDS-INIT-ERROR") (text "cs_dt_info(CS_DT_CONVFMT) failed")
    rc₄ ← lift (call (lib.set_con_props conn (charsetcnv false)))
    failing rc₄ (text "TDS-INIT-ERROR") (text "ct_options(CS_CHARSETCNV) failed")

  module _ (reinit : F World ℤ) (fuel : ℕ) where
    -- The end of `init`.
    unfoldable pub exit_code : F World ℤ
    exit_code = do
      _ ← lift (purge_messages ct)
      stop ← lift has_exception
      ret (if stop then negsuc 0 else pos 0)

    -- `init` with the server's version.
    unfoldable pub identify : Value → F World ℤ
    unfolding use_version exit_code
    identify v = do
      stop ← lift has_exception
      if stop then ret tt else use_version env reinit fuel v
      exit_code

    -- `init` from `ct_connect` on.
    unfoldable pub connect_and_ask : Bytes → F World ℤ
    unfolding connect identify get_server_version
    connect_and_ask dbname = do connect dbname; v ← get_server_version env reinit fuel; identify v

    -- One call of `init`, with `reinit` for a call from within it.
    unfoldable pub init_once : Login → F World ℤ
    unfolding checked set_prop set_password set_address with_locale connect_and_ask
    init_once l = do
      conn ← lift (gets (λ s. s.conn.m_connection))
      lift (require (is_null conn))
      set_enc env l.n_enc
      (rc, m_connection) ← lift (call lib.ct_con_alloc)
      lift (set_conn (λ c. record c { m_connection = m_connection }))
      checked rc (text "TDS-CTLIB-CREATE-CONNECTION")
          (text "ct_con_alloc() failed with error " ++ format_int (ct.ret_number rc))
          (do
            rc' ← lift (call (lib.diag_init m_connection))
            checked rc' (text "TDS-CTLIB-INIT-ERROR-HANDLING-ERROR")
                (text "ct_diag(CS_INIT) failed with error "
                  ++ format_int (ct.ret_number rc')
                  ++ text ", unable to initialize inline error handling")
                (set_prop (login_timeout 60) (text "TDS-CTLIB-SET-LOGIN-TIMEOUT")
                  (text "ct_con_props(CS_LOGIN_TIMEOUT)")
                  (set_prop (con_username l.username) (text "TDS-CTLIB-SET-USERNAME")
                    (text "ct_con_props(CS_USERNAME)")
                    (set_password l.password (
                      set_address l.hostname l.port
                        (with_locale l.db_encoding (connect_and_ask l.dbname)))))))

  -- The arguments that the datasource has.
  abbrev pub login_of : World → Login
  login_of w = record {
    username = or_empty qore.username;
    password = or_empty qore.password;
    dbname = or_empty qore.db_name;
    db_encoding = qore.db_encoding w;
    n_enc = qore.qore_encoding w;
    hostname = qore.host_name;
    port = qore.port;
  }

  -- `init`, with the arguments that both of its callers give it.
  unfoldable pub init : ℕ → F World ℤ
  unfolding init_once
  init zero = out
  init (suc fuel) = do l ← lift (gets (λ s. login_of s.world)); init_once (init fuel) fuel l
