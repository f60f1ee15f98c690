-- ===== src/Tests/Fixture.antt =====
-- A server whose messages, results, columns and rows are lists, and a driver that is connected to it.
use module_sybase.Base.{
  ℕ, zero, suc, ℤ, pos, negsuc, Bytes, Option, none, some, List, [], ◌∷◌, Bool, length, get_elem?,
  refl, true, false, text, ap,
}
use module_sybase.Build.{Build}
use module_sybase.Ct.{
  CtLib, RetCode, succeed, fail, end_results, end_data, ResultType, cmd_done, CsType, int_type,
  fmt_unused, Datafmt, Cell, ClientMsg, ServerMsg,
}
use module_sybase.Effect.{res_none, Command, Connection, State}
use module_sybase.Messages.Queue.{Diag}
use module_sybase.Number.{num_optimal}
use module_sybase.Statements.Wrap.{new_wrap}

pub record Server : Type 0 where
  pub clients : List ClientMsg
  pub servers : List ServerMsg
  pub results : List (RetCode × ResultType)
  pub columns : List Datafmt
  pub rows : List (List Cell)
  pub aborted : Bool

abbrev pub client_msg : ClientMsg
client_msg = record {
  number = pos 7;
  severity = pos 11;
  msgstring = text "lost";
  osnumber = pos 0;
  osstring = [];
  osstringlen = pos 0;
}

abbrev pub server_msg : ServerMsg
server_msg = record {
  msgnumber = pos 3902;
  severity = pos 16;
  state = pos 1;
  line = pos 1;
  svrname = [];
  svrnlen = pos 0;
  msgtext = text "no transaction\n";
  textlen = pos 15;
}

abbrev pub column : Bytes → CsType → Datafmt
column n t = record {
  name = n;
  datatype = t;
  format = fmt_unused;
  maxlength = 4;
  count = 1;
  usertype = pos 0;
  origin_datatype = t;
}

abbrev found : {A : Type 0} → A → Option A → RetCode × A
found a none = (fail, a)
found a (some b) = (succeed, b)

abbrev client_at : ℕ → List ClientMsg → RetCode × ClientMsg
client_at zero l = (fail, client_msg)
client_at (suc i) l = found client_msg (get_elem? l i)

abbrev server_at : ℕ → List ServerMsg → RetCode × ServerMsg
server_at zero l = (fail, server_msg)
server_at (suc i) l = found server_msg (get_elem? l i)

abbrev column_at : ℕ → List Datafmt → RetCode × Datafmt
column_at zero l = (fail, column [] int_type)
column_at (suc i) l = found (column [] int_type) (get_elem? l i)

abbrev script_row : List (List Cell) → Server → (RetCode × ℤ × List Cell) × Server
script_row [] w = ((end_data, pos 0, []), w)
script_row (r ∷ rs) w = ((succeed, pos 1, r), record w { rows = rs })

abbrev next_result : List (RetCode × ResultType) → Server → (RetCode × ResultType) × Server
next_result [] w = ((end_results, cmd_done), w)
next_result (r ∷ rs) w = (r, record w { results = rs })

abbrev quiet : Server → Server
quiet w = record w { clients = []; servers = [] }

-- Cancelling fails, so that the worst case of an error is reached.
abbrev pub fake : CtLib
fake = record {
  World = Server;
  ret_number = λ r. pos 0;
  result_number = λ r. pos 0;
  type_number = λ t. pos 0;
  ct_cmd_alloc = λ c w. ((succeed, some 1), w);
  ct_cmd_drop = λ c w. (succeed, w);
  ct_cancel = λ c w. (fail, w);
  ct_cancel_connection = λ c w. (succeed, w);
  ct_command = λ c t w. (succeed, w);
  ct_send = λ c w. (succeed, w);
  ct_fetch = λ c w. script_row w.rows w;
  ct_res_info_numdata = λ c w. ((succeed, pos (length w.columns)), w);
  ct_res_info_row_count = λ c n w. ((succeed, pos 1), w);
  ct_results = λ c w. next_result w.results w;
  ct_describe = λ c i w. (column_at i w.columns, w);
  ct_bind = λ c i d w. (succeed, w);
  ct_param = λ c p w. (succeed, w);
  client_status = λ c w. ((succeed, length w.clients), w);
  client_get = λ c i w. (client_at i w.clients, w);
  server_status = λ c w. ((succeed, length w.servers), w);
  server_get = λ c i w. (server_at i w.servers, w);
  diag_clear = λ c w. (succeed, quiet w);
}

-- The script keeps to what is relied on of `ct_diag`.
abbrev pub fake_diag : (conn : Option ℕ) → Diag fake conn
fake_diag conn = record {
  clients = λ (w : Server). w.clients;
  servers = λ (w : Server). w.servers;
  cleared = quiet;
  client_status_is = λ w. refl;
  client_get_is = λ w i m e. ap (λ o. (found client_msg o, w)) e;
  server_status_is = λ w. refl;
  server_get_is = λ w i m e. ap (λ o. (found server_msg o, w)) e;
  diag_clear_is = λ w. refl;
  no_clients = λ w. refl;
  no_servers = λ w. refl;
}

abbrev pub build : Build
build = record {
  freetds = true;
  sybase = false;
  has_time_zones = true;
  has_bigint = true;
  has_bigdatetime = true;
  has_bigtime = true;
  has_date = true;
  real_to_float = λ n. n;
  int_to_float = λ n. 0;
  current_tz = 0;
}

abbrev pub conn : Connection
conn = record {
  m_context = some 1;
  m_connection = some 5;
  connected = true;
  is_sybase = false;
  enc = 0;
  is_multi_byte = false;
  numeric_support = num_optimal;
  server_tz = none;
  optimized_date_binds = false;
  stmt = none;
}

abbrev pub a_command : List Datafmt → Command
a_command ds = record {
  query = none;
  m_cmd = some 1;
  rowcount = negsuc 0;
  last_res = res_none;
  colinfo = record { dirty = false; datafmt = ds };
  out_buffers = [];
}

-- A driver whose commands have these columns, and a server with this script.
abbrev pub start : List Datafmt → Server → State Server
start ds w = record {
  world = w;
  sink = [];
  conn = conn;
  commands = λ a. a_command ds;
  wraps = λ a. new_wrap;
  private_data = λ a. none;
  fresh = 10;
}

abbrev pub idle : Server
idle = record { clients = []; servers = []; results = []; columns = []; rows = []; aborted = false }
