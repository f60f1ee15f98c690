-- ===== src/Tests/Connections.antt =====
-- The connection's methods, and the command's handle: the theorems on a script of a server.
use module_sybase.Base.{
  ◌<◌, ◌≡◌, refl, arith, none, some, List, [], ◌∷◌, text, length, true, false, to_lower, eq_text,
  if◌then◌else◌, ◌==◌,
}
use module_sybase.Ct.{RetCode, succeed, ResultType, cmd_done, cmd_succeed, is_succeed}
use module_sybase.Effect.{State, ok}
use module_sybase.Number.{num_optimal, num_string, num_numeric}
use module_sybase.Value.{bool}
use module_sybase.Connection.Execute.{drain, direct_execute}
use module_sybase.Connection.Execute.Drain.{drain_terminates}
use module_sybase.Connection.Execute.Guards.{Left, direct_execute-Left}
use module_sybase.Connection.Options.{
  QoreOptions, option_set, set_option, get_option, same_option, HasDistinctNumbers,
  set_option-get_option,
}
use module_sybase.Tests.Fixture.{Server, fake, build, conn, start, idle, a_command}

-- A statement with two results.
abbrev answering : State Server
answering = start [] (record idle { results = (succeed, cmd_succeed) ∷ (succeed, cmd_done) ∷ [] })

results_fall :
    (w : Server)
    → is_succeed (fake.ct_results (some 1) w).0.0 ≡ true
    → length (fake.ct_results (some 1) w).1.results < length w.results
results_fall w e = by_results w.results refl e
  where
    by_results :
        (l : List (RetCode × ResultType))
        → w.results ≡ l
        → is_succeed (fake.ct_results (some 1) w).0.0 ≡ true
        → length (fake.ct_results (some 1) w).1.results < length w.results
    by_results [] e k = absurd (ground (arith, e, k))
    by_results (r ∷ rs) e k = rw e (omega arith)

drain_terminates_example : (drain fake 3 (some 1) answering).0 ≡ ok (some tt)
drain_terminates_example =
    drain_terminates fake (λ (w : Server). length w.results) (some 1) 3 answering results_fall
      (omega arith)

direct_execute-Left_example :
    Left fake 5 (some 1) (text "commit") answering (direct_execute fake 5 (text "commit") answering)
unfolding text
direct_execute-Left_example = direct_execute-Left fake 5 (text "commit") answering refl refl

-- Options with short names.
abbrev options : QoreOptions
options = record {
  number_opt = text "o";
  number_string = text "s";
  number_numeric = text "n";
  timezone = text "t";
  find_create_timezone = λ n. none;
  region_name = λ z. [];
  default_encoding = 0;
}

options-HasDistinctNumbers : HasDistinctNumbers options
unfolding same_option text eq_text to_lower
options-HasDistinctNumbers num_optimal num_optimal = refl
options-HasDistinctNumbers num_optimal num_string = refl
options-HasDistinctNumbers num_optimal num_numeric = refl
options-HasDistinctNumbers num_string num_optimal = refl
options-HasDistinctNumbers num_string num_string = refl
options-HasDistinctNumbers num_string num_numeric = refl
options-HasDistinctNumbers num_numeric num_optimal = refl
options-HasDistinctNumbers num_numeric num_string = refl
options-HasDistinctNumbers num_numeric num_numeric = refl

set_option-get_option_example :
    (set_option options conn (text "s") []
      ≡ option_set (record conn { numeric_support = num_string }))
    × (get_option options build (record conn { numeric_support = num_string }) (text "o")
        ≡ some (bool false))
set_option-get_option_example =
    set_option-get_option options build conn num_string num_optimal [] options-HasDistinctNumbers

-- A command whose connection has been lost: it is dropped with no attempt to cancel it.
abbrev dropped_command : State Server
dropped_command = record (start [] idle) {
  commands = λ a. if a == 3 then record (a_command []) { m_cmd = none } else a_command [];
}
