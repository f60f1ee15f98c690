-- ===== src/Tests/Statements.antt =====
-- Statements and queries of the driver: the theorems on a statement with two rows, and on one that
-- has only been prepared.
use module_sybase.Base.{
  to_lower, ℕ, pos, none, some, List, [], ◌∷◌, ◌++◌, ◌≡◌, ◌↔◌, refl, arith, text, true,
}
use module_sybase.Ct.{int_type, Datafmt, Cell}
use module_sybase.Effect.{State, ModuleWrap, ok, thrown, res_row}
use module_sybase.Value.{int, Fields, end, field, list, has_key, set_key}
use module_sybase.Command.Convert.{get_value, value_of, convert, signed, read_le}
use module_sybase.Command.Names.{free_name}
use module_sybase.Command.Rows.{output_buffers_to_hash}
use module_sybase.Driver.Queries.{sybase_select}
use module_sybase.Statements.Fetch.{IsFetching}
use module_sybase.Statements.Fetch.Counted.{at_hand, further, items}
use module_sybase.Statements.Fetch.Rows.{fetch_rows-counted}
use module_sybase.Statements.Fresh.{not_initialized, prepare-select_fresh}
use module_sybase.Statements.Methods.{fetch_rows}
use module_sybase.Statements.Reach.{Reach, here, after, prepared, one_valid_statement}
use module_sybase.Statements.Wrap.{new_wrap, prepare}
use module_sybase.Tests.Datasource.{env}
use module_sybase.Tests.Fixture.{Server, build, conn, column, start, idle, a_command}

abbrev columns : List Datafmt
columns = column (text "A") int_type ∷ []

abbrev cell : ℕ → Cell
cell n = record { indicator = pos 0; value = n ∷ 0 ∷ 0 ∷ 0 ∷ 0 ∷ 0 ∷ 0 ∷ 0 ∷ []; value_len = 4 }

abbrev row : ℕ → Fields
row n = field (text "a") (int (pos n)) end

-- The row 1 has been fetched, and the server has the rows 2 and 3.
abbrev executed_wrap : ModuleWrap
executed_wrap = record new_wrap {
  m = record { exec_res = some (row 1); context = some 3; placeholders = []; valid = true };
}

abbrev fetching : State Server
fetching = record (start columns (record idle { rows = (cell 2 ∷ []) ∷ (cell 3 ∷ []) ∷ [] })) {
  wraps = λ a. executed_wrap;
  commands = λ a. record (a_command columns) { last_res = res_row };
}

row_hash :
    (s : State Server)
    → s.conn ≡ conn
    → s.sink ≡ []
    → ((output_buffers_to_hash build env.ct 3 none columns (cell 2 ∷ []) 0 end s
        ≡ (ok (some (row 2)), s)))
      × (output_buffers_to_hash build env.ct 3 none columns (cell 3 ∷ []) 0 end s
          ≡ (ok (some (row 3)), s))
unfolding output_buffers_to_hash value_of convert signed read_le text get_value free_name has_key
    set_key to_lower
row_hash s c k = (rw (c, k) refl, rw (c, k) refl)

fetching-IsFetching :
    IsFetching env 0 3 conn columns idle fetching
      (some (row 1))
      ((cell 2 ∷ []) ∷ (cell 3 ∷ []) ∷ [])
      (row 2 ∷ row 3 ∷ [])
unfolding value_of convert signed read_le text
fetching-IsFetching = record {
  quiet = refl;
  same_conn = refl;
  is_valid = refl;
  has_context = refl;
  has_res = refl;
  in_row = refl;
  ready = (refl, refl);
  columns = refl;
  fetches = (record idle { rows = (cell 3 ∷ []) ∷ [] }, refl, (idle, refl, (pos 0, [], refl)));
  hashes = (λ s c k. (row_hash s c k).0, (λ s c k. (row_hash s c k).1, tt));
}

fetch_rows-counted_example :
    (fetch_rows env 4 0 (pos 1) fetching).0
    ≡ ok (some (list (items (at_hand (some (row 1)) ++ further (pos 1) (row 2 ∷ row 3 ∷ [])))))
fetch_rows-counted_example =
    fetch_rows-counted env 0 3 conn columns idle 4 (pos 1) (some (row 1))
      ((cell 2 ∷ []) ∷ (cell 3 ∷ []) ∷ []) (row 2 ∷ row 3 ∷ []) fetching fetching-IsFetching
      (omega arith)

-- The statement 7 is prepared; its wrap is at 10.
abbrev first : State Server
first = (prepare env 7 0 (text "select 1") none (start [] idle)).1

first_prepared : Reach env (start [] idle) first
unfolding prepare
first_prepared = after here (prepared 7 0 (text "select 1") none (pos 0) first refl)

one_valid_statement_example : ((first.wraps 10).m.valid ≡ true) ↔ (first.conn.stmt ≡ some 10)
unfolding prepare
one_valid_statement_example =
    one_valid_statement env (start [] idle) first 7 10 (λ a. refl) refl first_prepared refl

prepare-select_fresh_example :
    ((prepare env 8 0 (text "select 2") none first).0 ≡ thrown not_initialized)
    × (sybase_select env 4 0 (text "select 2") none first
        ≡ (ok (some (int (pos 0))), record first { sink = first.sink ++ not_initialized ∷ [] }))
unfolding prepare
prepare-select_fresh_example =
    prepare-select_fresh env 10 8 4 0 (text "select 2") (text "select 2") none first
      (record { is_registered = refl; is_valid = refl; no_context = refl; is_below = omega arith })
      refl refl refl
