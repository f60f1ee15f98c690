-- ===== src/Effect/FuelledKeeps.antt =====
-- The rules of `Keeps` for the methods that take fuel.
use module_sybase.Base.{Option, none, some, Bool, true, false, if◌then◌else◌}
use module_sybase.Build.{Exception}
use module_sybase.Effect.{State, Outcome, ok, thrown, fault, M}
use module_sybase.Effect.Fuelled.{F, fuelled, ◌>>=◌, lift, ret, out, caught, handled, rethrow}
use module_sybase.Effect.Keeps.{Keeps}

module _ {W : Type 0} {P : State W → Type 0} where
  pub FKeeps-ret : {A : Type 0} (a : A) → Keeps P (ret a)
  FKeeps-ret a = record { at = λ s h. h }

  pub FKeeps-out : {A : Type 0} → Keeps P (out {A = A})
  FKeeps-out = record { at = λ s h. h }

  pub FKeeps-rethrow : {A : Type 0} (e : Exception) → Keeps P (rethrow {A = A} e)
  FKeeps-rethrow e = record { at = λ s h. h }

  pub FKeeps-fault : {A : Type 0} → Keeps {A = A} P (λ s. (fault, s))
  FKeeps-fault = record { at = λ s h. h }

  pub FKeeps-lift : {A : Type 0} (m : M W A) → Keeps P m → Keeps P (lift m)
  FKeeps-lift m km = record { at = km.at }

  pub FKeeps-bind :
      {A B : Type 0} (m : F W A) (f : A → F W B)
      → Keeps P m
      → ((a : A) → Keeps P (f a))
      → Keeps P (m >>= f)
  FKeeps-bind {A} {B} m f km kf = record { at = λ s h. after (m s).0 (m s).1 (km.at s h) }
    where
      after : (o : Outcome (Option A)) (s : State W) → P s → P (fuelled o f s).1
      after (ok none) s h = h
      after (ok (some a)) s h = (kf a).at s h
      after (thrown e) s h = h
      after fault s h = h

  pub FKeeps-if :
      {A : Type 0} (b : Bool) (m n : F W A) → Keeps P m → Keeps P n → Keeps P (if b then m else n)
  FKeeps-if true m n km kn = km
  FKeeps-if false m n km kn = kn

  pub FKeeps-caught :
      {A : Type 0} (m : F W A) (h : Exception → F W A)
      → Keeps P m
      → ((e : Exception) → Keeps P (h e))
      → Keeps P (caught m h)
  FKeeps-caught {A} m h km kh = record { at = λ s p. after (m s).0 (m s).1 (km.at s p) }
    where
      after : (o : Outcome (Option A)) (s : State W) → P s → P (handled h (o, s)).1
      after (ok a) s p = p
      after (thrown e) s p = (kh e).at s p
      after fault s p = p

pub ruleset fkeeps = (
  FKeeps-ret, FKeeps-out, FKeeps-rethrow, FKeeps-fault, FKeeps-lift, FKeeps-bind, FKeeps-if,
  FKeeps-caught,
)
