-- ===== src/Tests/Datasource.antt =====
-- A datasource, and a library that connects at once, for the server that follows a script.
use module_sybase.Base.{none, some, List, [], ◌∷◌, true, false, text}
use module_sybase.Build.{exception}
use module_sybase.Ct.{RetCode, succeed, fail, ResultType}
use module_sybase.Encoding.{utf8}
use module_sybase.Connection.Library.{Connecting, Qore, Env, converted}
use module_sybase.Tests.Fixture.{Server, fake, build}

abbrev pub connecting : Connecting Server
connecting = record {
  has_locale = false;
  cs_ctx_alloc = λ w. ((succeed, some 1), w);
  ct_init = λ c w. (succeed, w);
  ct_exit = λ c w. (succeed, w);
  ct_exit_force = λ c w. (succeed, w);
  cs_ctx_drop = λ c w. (succeed, w);
  ct_config_version = λ c w. ((succeed, []), w);
  ct_con_alloc = λ w. ((succeed, some 6), record w { results = [] });
  diag_init = λ c w. (succeed, w);
  set_con_props = λ c p w. (succeed, w);
  con_status = λ c w. ((succeed, true), w);
  ct_connect = λ c t w. (succeed, w);
  ct_options = λ c o w. (succeed, w);
  cs_dt_info = λ w. (succeed, w);
  cs_loc_alloc = λ w. ((succeed, some 1), w);
  cs_locale = λ l c w. (succeed, w);
  cs_loc_drop = λ l w. (succeed, w);
  ct_close = λ c w. (succeed, w);
  ct_close_force = λ c w. (succeed, w);
  ct_con_drop = λ c w. (succeed, w);
}

abbrev pub datasource : Qore Server
datasource = record {
  username = some (text "u");
  password = none;
  db_name = none;
  host_name = none;
  port = 0;
  active_transaction = λ w. false;
  connection_aborted = λ w. record w { aborted = true };
  was_connection_aborted = λ (w : Server). w.aborted;
  db_encoding = λ w. some (text "utf8");
  qore_encoding = λ w. 0;
  set_db_encoding = λ t w. w;
  set_qore_encoding = λ e w. w;
  number_of = λ e. 0;
  qcs_default = utf8;
  find_create = λ t. utf8;
  is_multi_byte = λ e. true;
  get_code = λ e. text "UTF-8";
  convert_encoding = λ a b t. converted t;
  dbi = record { concat_numeric = λ v. text "1"; concat_string = λ v. some (text "x") };
  concat_string_error = exception [] [];
  type_name = λ v. [];
  get_info =
      λ z t. record { year = 0; month = 0; day = 0; hour = 0; minute = 0; second = 0; us = 0 };
}

-- The library of the script; a call that cancels fails while there are results.
abbrev cancelled : List (RetCode × ResultType) → RetCode
cancelled [] = succeed
cancelled (r ∷ rs) = fail

abbrev pub env : Env
env = record {
  build = build;
  ct = record fake { ct_cancel = λ c w. (cancelled w.results, w) };
  lib = connecting;
  qore = datasource;
}
