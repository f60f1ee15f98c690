-- ===== src/Statements/Owners/Options.antt =====
-- `sybase_opt_set` and `sybase_opt_get` of src/sybase.cpp leave the registered statement alone.
use module_sybase.Base.{
  ℕ, pos, Bytes, Option, none, some, Bool, true, false, if◌then◌else◌, ◌≡◌, refl,
}
use module_sybase.Build.{Exception}
use module_sybase.Number.{NumericSupport}
use module_sybase.Effect.{State, Connection}
use module_sybase.Effect.Keeps.{Keeps}
use module_sybase.Connection.Library.{Env}
use module_sybase.Connection.Options.{
  QoreOptions, SetOption, option_set, zone_missing, no_option, set_option, with_zone,
}
use module_sybase.Driver.Queries.{option_result, sybase_opt_set}
use module_sybase.Statements.Owners.{IsOwned, IsOwned-IsFrame}
use module_sybase.Statements.Owners.Invalidate.{IsOwned-IsQueryFrame}
use module_sybase.Statements.Owners.Queries.{callback-Keeps}

-- The connection that is set has the statement of `conn`.
SameStatement : Connection → SetOption → Type 0
SameStatement conn (option_set c) = c.stmt ≡ conn.stmt
SameStatement conn zone_missing = Unit
SameStatement conn no_option = Unit

if-SameStatement :
    (conn : Connection) (b : Bool) (x y : SetOption)
    → SameStatement conn x
    → SameStatement conn y
    → SameStatement conn (if b then x else y)
if-SameStatement conn true x y p q = p
if-SameStatement conn false x y p q = q

number-SameStatement :
    (conn : Connection) (m : NumericSupport)
    → SameStatement conn (option_set (record conn { numeric_support = m }))
unfolding SameStatement
number-SameStatement conn m = refl

dates-SameStatement :
    (conn : Connection) (b : Bool)
    → SameStatement conn (option_set (record conn { optimized_date_binds = b }))
unfolding SameStatement
dates-SameStatement conn b = refl

no_option-SameStatement : (conn : Connection) → SameStatement conn no_option
unfolding SameStatement
no_option-SameStatement conn = tt

with_zone-SameStatement : (conn : Connection) (z : Option ℕ) → SameStatement conn (with_zone conn z)
unfolding SameStatement
with_zone-SameStatement conn none = tt
with_zone-SameStatement conn (some z) = refl

set_option-SameStatement :
    (q : QoreOptions) (conn : Connection) (opt val : Bytes)
    → SameStatement conn (set_option q conn opt val)
unfolding set_option
set_option-SameStatement q conn opt val =
    search
      (
        if-SameStatement, number-SameStatement, with_zone-SameStatement, dates-SameStatement,
        no_option-SameStatement,
      )
      depth 20

module _ (env : Env) where
  open env use {build, ct, lib, qore}
  open ct use {World}

  option_result-IsOwned :
      (e : Exception) (s : State World) (r : SetOption)
      → SameStatement s.conn r
      → IsOwned s
      → IsOwned (option_result env e r s).1
  unfolding option_result SameStatement
  option_result-IsOwned e s (option_set c) k o = (IsOwned-IsQueryFrame env).by_conn s c k o
  option_result-IsOwned e s zone_missing k o = IsOwned-IsFrame.by_raise s _ o
  option_result-IsOwned e s no_option k o = o

  pub sybase_opt_set-Keeps :
      (q : QoreOptions) (e : Exception) (opt val : Bytes)
      → Keeps IsOwned (sybase_opt_set env q e opt val)
  unfolding sybase_opt_set
  sybase_opt_set-Keeps q e opt val = callback-Keeps env (pos 0) _ (record {
    at = λ s o. option_result-IsOwned e s _ (set_option-SameStatement q s.conn opt val) o;
  })
