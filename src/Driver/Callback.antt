-- ===== src/Driver/Callback.antt =====
-- The outcomes of the functions of src/sybase.cpp that run queries: what their `try` blocks and their
-- last lines leave.
use module_sybase.Base.{Option, none, some, Bool, true, false, ◌≡◌}
use module_sybase.Effect.{Outcome, ok, thrown, fault}
use module_sybase.Value.{Value, nothing, hash}

-- There is no error, and a value satisfies the test.
pub Returns : (Value → Bool) → Outcome (Option Value) → Type 0
Returns p (ok (some v)) = p v ≡ true
Returns p (ok none) = Unit
Returns p fault = Unit
Returns p (thrown e) = ⊥

-- The values that are not a hash, and not the null pointer.
unfoldable pub no_hash : Value → Bool
no_hash (hash h) = false
no_hash v = true

unfoldable pub no_null : Value → Bool
no_null nothing = false
no_null v = true
