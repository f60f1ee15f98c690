-- ===== src/Statements/Fresh.antt =====
-- A statement that is registered and has not been executed yet: `invalidate` of src/statement.h reads
-- its context, which is not there.
use module_sybase.Base.{
  ℕ, suc, ◌<◌, ◌==◌, pos, Bytes, Option, none, some, List, [], ◌∷◌, ◌++◌, true, false, ◌≡◌, refl,
  arith, is_nil, text, if◌then◌else◌,
}
use module_sybase.Build.{Exception, exception}
use module_sybase.Effect.{State, ok, thrown}
use module_sybase.Value.{int, Arg}
use module_sybase.Connection.Handles.{
  invalidate, invalidate_statement, with_registered, safe_get, register_statement,
}
use module_sybase.Connection.Library.{Env, converted}
use module_sybase.Connection.Output.{select, with_query, exec_read_output}
use module_sybase.Driver.{callback}
use module_sybase.Driver.Queries.{sybase_select}
use module_sybase.Statements.Wrap.{new_wrap, prepare, module_wrap, made_wrap, raise_error}

abbrev pub not_initialized : Exception
not_initialized = exception (text "TDS-SYBASE") (text "Not initialized")

-- A statement of the wrap is registered and valid, and has no command.
pub record IsFresh {W : Type 0} (wrap : ℕ) (s : State W) : Type 0 where
  pub is_registered : s.conn.stmt ≡ some wrap
  pub is_valid : (s.wraps wrap).m.valid ≡ true
  pub no_context : (s.wraps wrap).m.context ≡ none
  pub is_below : wrap < s.fresh

module _ (env : Env) where
  open env use {build, ct, lib, qore}
  open ct use {World}

  invalidate_fresh :
      (wrap : ℕ) (s : State World)
      → (s.wraps wrap).m.valid ≡ true
      → (s.wraps wrap).m.context ≡ none
      → invalidate env wrap s ≡ (thrown not_initialized, s)
  unfolding invalidate safe_get
  invalidate_fresh wrap s v c = rw (v, c) refl

  registered_fresh :
      (o : Option ℕ) (wrap : ℕ) (s : State World)
      → o ≡ some wrap
      → (s.wraps wrap).m.valid ≡ true
      → (s.wraps wrap).m.context ≡ none
      → with_registered env o s ≡ (thrown not_initialized, s)
  unfolding with_registered
  registered_fresh o wrap s e v c = rw (e, invalidate_fresh wrap s v c) refl

  invalidate_statement_fresh :
      (wrap : ℕ) (s : State World)
      → IsFresh wrap s
      → invalidate_statement env s ≡ (thrown not_initialized, s)
  unfolding invalidate_statement
  invalidate_statement_fresh wrap s f =
      rw (registered_fresh s.conn.stmt wrap s f.is_registered f.is_valid f.no_context) refl

  other_address : (a b : ℕ) → a < b → (a == b) ≡ false
  other_address a b l = ground arith

  -- The state in which a new wrap is registered.
  abbrev allocated : ℕ → State World → State World
  allocated sql s = record s {
    fresh = suc s.fresh;
    wraps = λ a. if a == s.fresh then new_wrap else s.wraps a;
    private_data = λ a. if a == sql then some s.fresh else s.private_data a;
  }

  made_wrap_fresh :
      (wrap sql : ℕ) (s : State World)
      → IsFresh wrap s
      → (made_wrap env sql none s).0 ≡ thrown not_initialized
  unfolding made_wrap register_statement
  made_wrap_fresh wrap sql s f =
      let n = other_address wrap s.fresh f.is_below in
      rw
        (registered_fresh s.conn.stmt wrap (allocated sql s) f.is_registered (rw n f.is_valid)
          (rw n f.no_context))
        refl

  -- Preparing another statement registers its wrap, which invalidates the first one.
  prepare_fresh :
      (wrap sql enc : ℕ) (str : Bytes) (args : Option (List Arg)) (s : State World)
      → IsFresh wrap s
      → s.private_data sql ≡ none
      → (prepare env sql enc str args s).0 ≡ thrown not_initialized
  unfolding prepare module_wrap
  prepare_fresh wrap sql enc str args s f p = rw (p, made_wrap_fresh wrap sql s f) refl

  select_fresh :
      (wrap fuel enc : ℕ) (qstr query : Bytes) (args : Option (List Arg)) (s : State World)
      → IsFresh wrap s
      → qore.convert_encoding enc s.conn.enc qstr ≡ converted query
      → is_nil s.sink ≡ true
      → sybase_select env fuel enc qstr args s
        ≡ (ok (some (int (pos 0))), record s { sink = s.sink ++ not_initialized ∷ [] })
  unfolding sybase_select select callback raise_error with_query exec_read_output
  select_fresh wrap fuel enc qstr query args s f c n =
      rw (c, invalidate_statement_fresh wrap s f, n) refl

  -- While a statement is registered that has not been executed, the error "Not initialized" of its
  -- missing context ends whatever invalidates it: `prepare` of another statement, which has no
  -- wrap yet, throws it to its caller, and a query of the datasource whose text can be converted
  -- raises it, and returns 0 without having sent anything, with the statement still registered.
  pub prepare-select_fresh :
      (wrap sql fuel enc : ℕ) (qstr query : Bytes) (args : Option (List Arg)) (s : State World)
      → IsFresh wrap s
      → s.private_data sql ≡ none
      → qore.convert_encoding enc s.conn.enc qstr ≡ converted query
      → is_nil s.sink ≡ true
      → ((prepare env sql enc qstr args s).0 ≡ thrown not_initialized)
        × (sybase_select env fuel enc qstr args s
            ≡ (ok (some (int (pos 0))), record s { sink = s.sink ++ not_initialized ∷ [] }))
  prepare-select_fresh wrap sql fuel enc qstr query args s f p c n = (
    prepare_fresh wrap sql enc qstr args s f p,
    select_fresh wrap fuel enc qstr query args s f c n,
  )
