-- ===== src/Effect/Fuelled.antt =====
-- The monad of the methods that loop or that reach themselves again by a reconnection: they take
-- fuel, and `none` means that it has run out, which ends the method. A `do` block of a file that takes
-- `>>=` from here is one of such methods; the others are lifted into it.
use module_sybase.Base.{Option, none, some}
use module_sybase.Build.{Exception}
use module_sybase.Effect.{State, Outcome, ok, thrown, fault, M}

abbrev pub F : Type 0 → Type 0 → Type 0
F W A = M W (Option A)

module _ {W A B : Type 0} where
  abbrev pub fuelled : Outcome (Option A) → (A → F W B) → F W B
  fuelled (ok none) f s = (ok none, s)
  fuelled (ok (some a)) f s = f a s
  fuelled (thrown e) f s = (thrown e, s)
  fuelled fault f s = (fault, s)

  infixl 5 ◌>>=◌ ◌>>◌
  abbrev pub ◌>>=◌ : F W A → (A → F W B) → F W B
  ◌>>=◌ m f s = let r = m s in fuelled r.0 f r.1

  abbrev pub ◌>>◌ : F W A → F W B → F W B
  m >> k = m >>= λ _. k

module _ {A : Type 0} where
  abbrev pub lifted : Outcome A → Outcome (Option A)
  lifted (ok a) = ok (some a)
  lifted (thrown e) = thrown e
  lifted fault = fault

module _ {W A : Type 0} where
  abbrev pub lift : M W A → F W A
  lift m s = let r = m s in (lifted r.0, r.1)

  abbrev pub ret : A → F W A
  ret a s = (ok (some a), s)

  -- The fuel has run out.
  abbrev pub out : F W A
  out s = (ok none, s)

  -- `try { m } catch (const ss::Error& e) { h }`
  abbrev pub handled :
      (Exception → F W A) → Outcome (Option A) × State W → Outcome (Option A) × State W
  handled h (ok a, s) = (ok a, s)
  handled h (thrown e, s) = h e s
  handled h (fault, s) = (fault, s)

  abbrev pub caught : F W A → (Exception → F W A) → F W A
  caught m h s = handled h (m s)

  -- A throw of an error that has been caught.
  abbrev pub rethrow : Exception → F W A
  rethrow e s = (thrown e, s)
