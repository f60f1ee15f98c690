-- ===== src/Statements/Reach.antt =====
-- What Qore does with statements and queries of the driver, as steps, and the states that are reached.
use module_sybase.Base.{ℕ, ℤ, pos, Bytes, Option, none, some, List, true, false, ◌≡◌, ◌↔◌, arith}
use module_sybase.Build.{Exception}
use module_sybase.Effect.FuelledKeeps.{FKeeps-ret}
use module_sybase.Value.{nothing, Arg}
use module_sybase.Connection.Options.{QoreOptions}
use module_sybase.Driver.Queries.{
  sybase_get_server_version, sybase_get_client_version, sybase_opt_set, sybase_select,
  sybase_select_row, sybase_select_rows, sybase_exec, sybase_exec_raw, sybase_commit,
  sybase_rollback,
}
use module_sybase.Statements.Owners.Options.{sybase_opt_set-Keeps}
use module_sybase.Statements.Owners.Queries.{
  sybase_get_server_version-Keeps, sybase_get_client_version-Keeps, sybase_select-Keeps,
  sybase_select_row-Keeps, sybase_select_rows-Keeps, sybase_exec-Keeps, sybase_exec_raw-Keeps,
  sybase_commit-Keeps, sybase_rollback-Keeps,
}
use module_sybase.Statements.Wrap.{
  define, describe, bind_values, get_output_rows, prepare, prepare_raw, bind, close, exec,
  bind_placeholders, fetch_row, fetch_rows, fetch_columns, next, affected_rows, get_output,
}
use module_sybase.Effect.{State, ok}
use module_sybase.Connection.Library.{Env}
use module_sybase.Statements.Owners.{IsOwned}
use module_sybase.Statements.Owners.Close.{close-Keeps}
use module_sybase.Statements.Owners.Methods.{
  next-Keeps, release_res-Keeps, fetch_rows-Keeps, get_output-Keeps, fetch_columns-Keeps,
  affected_rows-Keeps, bind_placeholders-Keeps,
}
use module_sybase.Statements.Owners.Wrapped.{
  prepare-Returns, prepare_raw-Returns, bind-Returns, exec_at, run_at,
}

module _ (env : Env) where
  open env use {build, ct, lib, qore}
  open ct use {World}

  -- A call of the driver. `prepare`, `prepare_raw` and `bind` make a wrap, so that they count where
  -- they return; the other methods are for statements that have one, and count however they end.
  pub data Step (s : State World) : State World → Type 0 where
    prepared :
        (sql enc : ℕ) (str : Bytes) (args : Option (List Arg)) (n : ℤ) (t : State World)
        → prepare env sql enc str args s ≡ (ok (some n), t)
        → Step s t
    prepared_raw :
        (sql enc : ℕ) (str : Bytes) (n : ℤ) (t : State World)
        → prepare_raw env sql enc str s ≡ (ok (some n), t)
        → Step s t
    bound :
        (sql : ℕ) (l : List Arg) (n : ℤ) (t : State World)
        → bind env sql l s ≡ (ok (some n), t)
        → Step s t
    closed : (sql : ℕ) → Step s (close env sql s).1
    executed : (fuel sql wrap : ℕ) → s.private_data sql ≡ some wrap → Step s (exec env fuel sql s).1
    placed :
        (sql wrap : ℕ) (l : List Bytes)
        → s.private_data sql ≡ some wrap
        → Step s (bind_placeholders env sql l s).1
    advanced : (fuel sql wrap : ℕ) → s.private_data sql ≡ some wrap → Step s (next env fuel sql s).1
    fetched : (sql wrap : ℕ) → s.private_data sql ≡ some wrap → Step s (fetch_row env sql s).1
    fetched_rows :
        (fuel sql wrap : ℕ) (rows : ℤ)
        → s.private_data sql ≡ some wrap
        → Step s (fetch_rows env fuel sql rows s).1
    fetched_columns :
        (fuel sql wrap : ℕ) (rows : ℤ)
        → s.private_data sql ≡ some wrap
        → Step s (fetch_columns env fuel sql rows s).1
    counted : (sql wrap : ℕ) → s.private_data sql ≡ some wrap → Step s (affected_rows env sql s).1
    output :
        (fuel sql wrap : ℕ) → s.private_data sql ≡ some wrap → Step s (get_output env fuel sql s).1
    defined : (sql wrap : ℕ) → s.private_data sql ≡ some wrap → Step s (define env sql s).1
    described : (sql wrap : ℕ) → s.private_data sql ≡ some wrap → Step s (describe env sql s).1
    valued : (sql wrap : ℕ) → s.private_data sql ≡ some wrap → Step s (bind_values env sql s).1
    output_rows :
        (sql wrap : ℕ) → s.private_data sql ≡ some wrap → Step s (get_output_rows env sql s).1
    selected :
        (fuel enc : ℕ) (t : Bytes) (args : Option (List Arg))
        → Step s (sybase_select env fuel enc t args s).1
    selected_row :
        (fuel enc : ℕ) (t : Bytes) (args : Option (List Arg))
        → Step s (sybase_select_row env fuel enc t args s).1
    selected_rows :
        (fuel enc : ℕ) (t : Bytes) (args : Option (List Arg))
        → Step s (sybase_select_rows env fuel enc t args s).1
    run :
        (fuel enc : ℕ) (t : Bytes) (args : Option (List Arg))
        → Step s (sybase_exec env fuel enc t args s).1
    run_raw : (fuel enc : ℕ) (t : Bytes) → Step s (sybase_exec_raw env fuel enc t s).1
    committed : (fuel : ℕ) → Step s (sybase_commit env fuel s).1
    rolled_back : (fuel : ℕ) → Step s (sybase_rollback env fuel s).1
    server_asked : (fuel : ℕ) → Step s (sybase_get_server_version env fuel s).1
    client_asked : Step s (sybase_get_client_version env s).1
    optioned :
        (q : QoreOptions) (e : Exception) (opt val : Bytes)
        → Step s (sybase_opt_set env q e opt val s).1

  pub data Reach (s : State World) : State World → Type 0 where
    here : Reach s s
    after : {t u : State World} → Reach s t → Step t u → Reach s u

  pub Step-IsOwned : {s t : State World} → Step s t → IsOwned s → IsOwned t
  unfolding bind_placeholders next fetch_row fetch_rows fetch_columns affected_rows get_output
      define describe bind_values get_output_rows
  Step-IsOwned {s} (prepared sql enc str args n t e) o =
      (prepare-Returns env sql enc str args).at s t n o e
  Step-IsOwned {s} (prepared_raw sql enc str n t e) o =
      (prepare_raw-Returns env sql enc str).at s t n o e
  Step-IsOwned {s} (bound sql l n t e) o = (bind-Returns env sql l).at s t n o e
  Step-IsOwned {s} (closed sql) o = (close-Keeps env sql).at s o
  Step-IsOwned {s} (executed fuel sql wrap e) o = exec_at env fuel sql wrap s e o
  Step-IsOwned {s} (placed sql wrap l e) o =
      run_at env (pos 0) _ sql wrap s e (bind_placeholders-Keeps env wrap l) o
  Step-IsOwned {s} (advanced fuel sql wrap e) o =
      run_at env false _ sql wrap s e (next-Keeps env fuel wrap) o
  Step-IsOwned {s} (fetched sql wrap e) o =
      run_at env none _ sql wrap s e (release_res-Keeps env wrap) o
  Step-IsOwned {s} (fetched_rows fuel sql wrap rows e) o =
      run_at env nothing _ sql wrap s e (fetch_rows-Keeps env fuel wrap rows) o
  Step-IsOwned {s} (fetched_columns fuel sql wrap rows e) o =
      run_at env nothing _ sql wrap s e (fetch_columns-Keeps env fuel wrap rows) o
  Step-IsOwned {s} (counted sql wrap e) o =
      run_at env (pos 0) _ sql wrap s e (affected_rows-Keeps env wrap) o
  Step-IsOwned {s} (output fuel sql wrap e) o =
      run_at env nothing _ sql wrap s e (get_output-Keeps env fuel wrap) o
  Step-IsOwned {s} (defined sql wrap e) o = run_at env (pos 0) _ sql wrap s e (FKeeps-ret (pos 0)) o
  Step-IsOwned {s} (described sql wrap e) o =
      run_at env nothing _ sql wrap s e (FKeeps-ret nothing) o
  Step-IsOwned {s} (valued sql wrap e) o = run_at env (pos 0) _ sql wrap s e (FKeeps-ret (pos 0)) o
  Step-IsOwned {s} (output_rows sql wrap e) o =
      run_at env nothing _ sql wrap s e (FKeeps-ret nothing) o
  Step-IsOwned {s} (selected fuel enc t args) o = (sybase_select-Keeps env fuel enc t args).at s o
  Step-IsOwned {s} (selected_row fuel enc t args) o =
      (sybase_select_row-Keeps env fuel enc t args).at s o
  Step-IsOwned {s} (selected_rows fuel enc t args) o =
      (sybase_select_rows-Keeps env fuel enc t args).at s o
  Step-IsOwned {s} (run fuel enc t args) o = (sybase_exec-Keeps env fuel enc t args).at s o
  Step-IsOwned {s} (run_raw fuel enc t) o = (sybase_exec_raw-Keeps env fuel enc t).at s o
  Step-IsOwned {s} (committed fuel) o = (sybase_commit-Keeps env fuel).at s o
  Step-IsOwned {s} (rolled_back fuel) o = (sybase_rollback-Keeps env fuel).at s o
  Step-IsOwned {s} (server_asked fuel) o = (sybase_get_server_version-Keeps env fuel).at s o
  Step-IsOwned {s} client_asked o = (sybase_get_client_version-Keeps env).at s o
  Step-IsOwned {s} (optioned q x opt val) o = (sybase_opt_set-Keeps env q x opt val).at s o

  -- The invariant holds in every state that is reached from one in which it holds.
  pub Reach-IsOwned : {s t : State World} → IsOwned s → Reach s t → IsOwned t
  Reach-IsOwned o here = o
  Reach-IsOwned o (after r st) = Step-IsOwned st (Reach-IsOwned o r)

  no_statements :
      {s : State World} → ((sql : ℕ) → s.private_data sql ≡ none) → s.conn.stmt ≡ none → IsOwned s
  no_statements h k = record {
    below = λ {sql = q} e. absurd (ground (arith, h q, e));
    distinct = λ {sql = q} e f. absurd (ground (arith, h q, e));
    registered = λ {sql = q} e v. absurd (ground (arith, h q, e));
    stmt_valid = λ e. absurd (ground (arith, k, e));
    stmt_below = λ e. absurd (ground (arith, k, e));
  }

  -- From a driver without statements on, after any calls of statements and queries in any order,
  -- where those that make a statement's wrap have returned, and the others, of statements that have one,
  -- and the queries, may have ended in any way: a statement is valid exactly if it is the one that
  -- the connection has registered.
  pub one_valid_statement :
      (s t : State World) (sql v : ℕ)
      → ((a : ℕ) → s.private_data a ≡ none)
      → s.conn.stmt ≡ none
      → Reach s t
      → t.private_data sql ≡ some v
      → ((t.wraps v).m.valid ≡ true) ↔ (t.conn.stmt ≡ some v)
  one_valid_statement s t sql v h k r e =
      let o = Reach-IsOwned (no_statements h k) r in (o.registered e, o.stmt_valid)
