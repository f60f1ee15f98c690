-- ===== src/Statements/Fetch.antt =====
-- `next` and `fetch_rows` of src/statement.h and src/statement.cpp, for the rows that a server sends.
pub mod Counted
pub mod Rows
use module_sybase.Base.{
  ℕ, zero, suc, ◌+◌, ◌<◌, ◌==◌, ℤ, pos, negsuc, ltb_ℤ, ◌-ℤ◌, Bytes, Option, none, some, List, [],
  ◌∷◌, ◌++◌, map, length, take, Bool, true, false, ◌&&◌, ◌≡◌, refl, arith, ap, ◌∙◌, sym, is_nil,
  if◌then◌else◌, ==_iff, append-nil, append_assoc, subst,
}
use module_sybase.Ct.{Datafmt, Cell, succeed, end_data}
use module_sybase.Effect.{State, Connection, Command, Statement, Outcome, ok, ResType, res_row}
use module_sybase.Effect.Fuelled.{F, ret}
use module_sybase.Value.{Value, nothing, end, hash, list, Items, Fields, push, items_of}
use module_sybase.Command.Results.{read_next_result1, read_next_result}
use module_sybase.Command.Rows.{fetch_row, fetch_row_into_buffers, output_buffers_to_hash}
use module_sybase.Command.Rows.Loop.{
  Fetches, AreHashes, with_command, fetched_row, fetch_more, fetch_end, same_address,
}
use module_sybase.Command.Rows.Select.{IsReady, ensure_colinfo_ready}
use module_sybase.Connection.Library.{Env}
use module_sybase.Connection.Login.{init}
use module_sybase.Connection.Recover.{connection_read_next_result, after_result}
use module_sybase.Statements.Methods.{
  check_valid, context_of, next_row, next, release_res, fetch_rows_loop, fetch_rows,
}

module _ (env : Env) (wrap this : ℕ) (conn : Connection) (ds : List Datafmt)
    (w : env.ct.World) where
  open env use {build, ct, lib, qore}
  open ct use {World}

  -- The statement of the wrap has a command that stands in a row result, whose further rows and
  -- their hashes are known; `res` is the row that `next` has fetched and that has not been taken, if
  -- there is one.
  pub record IsFetching (s : State World) (res : Option Fields) (rows : List (List Cell))
      (gs : List Fields) : Type 0 where
    pub quiet : s.sink ≡ []
    pub same_conn : s.conn ≡ conn
    pub is_valid : (s.wraps wrap).m.valid ≡ true
    pub has_context : (s.wraps wrap).m.context ≡ some this
    pub has_res : (s.wraps wrap).m.exec_res ≡ res
    pub in_row : (s.commands this).last_res ≡ res_row
    pub ready : IsReady (s.commands this).colinfo
    pub columns : (s.commands this).colinfo.datafmt ≡ ds
    pub fetches : Fetches build ct this (s.commands this).m_cmd s.world rows w
    pub hashes : AreHashes build ct this none conn ds rows gs

  same_wrap : (wrap == wrap) ≡ true
  same_wrap = (==_iff wrap wrap).1 refl

  here : (this == this) ≡ true
  here = (==_iff this this).1 refl

  -- `release_res` takes the row, if there is one.
  abbrev pub released : State World → State World
  released s = record s {
    wraps = λ a.
        if a == wrap
        then record (s.wraps wrap) { m = record (s.wraps wrap).m { exec_res = none } }
        else s.wraps a;
  }

  pub release_res-IsFetching :
      (s : State World) (res : Option Fields) (rows : List (List Cell)) (gs : List Fields)
      → IsFetching s res rows gs
      → (release_res env wrap s ≡ (ok (some res), released s))
        × IsFetching (released s) none rows gs
  unfolding release_res
  release_res-IsFetching s res rows gs f = (
    rw f.has_res refl,
    record {
      quiet = f.quiet;
      same_conn = f.same_conn;
      is_valid = rw same_wrap f.is_valid;
      has_context = rw same_wrap f.has_context;
      has_res = rw same_wrap refl;
      in_row = f.in_row;
      ready = f.ready;
      columns = f.columns;
      fetches = f.fetches;
      hashes = f.hashes;
    },
  )

  -- `readNextResult` leaves the command where it is.
  abbrev stays : State World → State World
  stays s = with_command build ct this (record (s.commands this) { last_res = res_row }) s

  stays_in_row :
      (fuel k : ℕ) (s : State World)
      → s.sink ≡ []
      → (s.commands this).last_res ≡ res_row
      → connection_read_next_result env (init env k) (suc fuel) this s
        ≡ (ok (some res_row), stays s)
  unfolding connection_read_next_result read_next_result read_next_result1 after_result
  stays_in_row fuel k s n e = rw (n, e) refl

  -- `fetch_row`, for a row and behind the last one.
  fetch_row_more :
      (t : State World) (x : List Cell) (g : Fields) (u : World)
      → t.sink ≡ []
      → t.conn ≡ conn
      → IsReady (t.commands this).colinfo
      → ct.ct_fetch (t.commands this).m_cmd t.world ≡ ((succeed, pos 1, x), u)
      → ((s : State World)
          → s.conn ≡ conn
          → s.sink ≡ []
          → output_buffers_to_hash build ct this none (t.commands this).colinfo.datafmt x 0 end s
            ≡ (ok (some g), s))
      → fetch_row build ct this none t ≡ (ok (hash g), fetched_row build ct this t u x)
  unfolding fetch_row
  fetch_row_more t x g u n c r f h =
      rw
        (
          ensure_colinfo_ready build ct this t r,
          fetch_more build ct this t x u f,
          here,
          h (fetched_row build ct this t u x) c n,
        )
        refl

  fetch_row_end :
      (t : State World) (n : ℤ) (cells : List Cell) (u : World)
      → IsReady (t.commands this).colinfo
      → ct.ct_fetch (t.commands this).m_cmd t.world ≡ ((end_data, n, cells), u)
      → (fetch_row build ct this none t).0 ≡ ok nothing
  unfolding fetch_row
  fetch_row_end t n cells u r f =
      rw (ensure_colinfo_ready build ct this t r, fetch_end build ct this t n cells u f) refl

  -- The state after `next` has fetched a row.
  abbrev row_fetched : State World → World → List Cell → Fields → State World
  row_fetched s u x g =
      let t = fetched_row build ct this (stays s) u x in
      record t {
        wraps = λ a.
            if a == wrap
            then record (s.wraps wrap) { m = record (s.wraps wrap).m { exec_res = some g } }
            else s.wraps a;
      }

  -- `next` up to `next_row`.
  next_at_row :
      (fuel : ℕ) (s : State World) (rows : List (List Cell)) (gs : List Fields)
      → IsFetching s none rows gs
      → next env (suc fuel) wrap s ≡ next_row env wrap this res_row (stays s)
  unfolding next check_valid context_of
  next_at_row fuel s rows gs f =
      rw
        (
          f.is_valid,
          f.has_context,
          stays_in_row fuel (suc fuel) s f.quiet f.in_row,
          ap is_nil f.quiet,
        )
        refl

  pub next_more :
      (fuel : ℕ) (s : State World) (x : List Cell) (rows : List (List Cell)) (g : Fields)
      (gs : List Fields)
      → IsFetching s none (x ∷ rows) (g ∷ gs)
      → (s' : State World) × (next env (suc fuel) wrap s ≡ (ok (some true), s'))
        × IsFetching s' (some g) rows gs
  unfolding next_row
  next_more fuel s x rows g gs f =
      let (u, e, fs) = f.fetches in
      let found = fetch_row_more (stays s) x g u f.quiet f.same_conn (rw here f.ready) (rw here e) (
        subst
          (λ d.
            (t : State World)
            → t.conn ≡ conn
            → t.sink ≡ []
            → output_buffers_to_hash build ct this none d x 0 end t ≡ (ok (some g), t))
          (rw here (sym f.columns)) f.hashes.0) in
      (
        row_fetched s u x g,
        next_at_row fuel s (x ∷ rows) (g ∷ gs) f ∙ rw (f.has_res, found, same_wrap) refl,
        record {
          quiet = f.quiet;
          same_conn = f.same_conn;
          is_valid = rw same_wrap f.is_valid;
          has_context = rw same_wrap f.has_context;
          has_res = rw same_wrap refl;
          in_row = rw here refl;
          ready = rw here f.ready;
          columns = rw here f.columns;
          fetches = rw here fs;
          hashes = f.hashes.1;
        },
      )

  pub next_end :
      (fuel : ℕ) (s : State World)
      → IsFetching s none [] []
      → (next env (suc fuel) wrap s).0 ≡ ok (some false)
  unfolding next_row
  next_end fuel s f =
      let (n, cells, e) = f.fetches in
      let ended = fetch_row_end (stays s) n cells w (rw here f.ready) (rw here e) in
      ap (λ r. r.0) (next_at_row fuel s [] [] f) ∙ rw (f.has_res, ended, same_wrap) refl
