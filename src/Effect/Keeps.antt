-- ===== src/Effect/Keeps.antt =====
-- Properties of the state that actions keep, one rule for each way to build an action.
use module_sybase.Base.{ℕ, [], ◌∷◌, ◌++◌, Bool, true, false, if◌then◌else◌, Bytes}
use module_sybase.Build.{Exception, exception}
use module_sybase.Effect.{
  State, Command, Outcome, ok, thrown, fault, M, follow, ◌>>=◌, pure, throw, gets, call, raise,
  require, when, get_command, set_command,
}

-- `m` keeps `P`, however it ends.
pub record Keeps {W A : Type 0} (P : State W → Type 0) (m : M W A) : Type 0 where
  pub at : (s : State W) → P s → P (m s).1

-- What does not depend on the library's state, the exceptions' texts or the commands.
pub record IsFrame {W : Type 0} (P : State W → Type 0) : Type 0 where
  pub by_world : (s : State W) (w : W) → P s → P (record s { world = w })
  pub by_raise : (s : State W) (e : Exception) → P s → P (record s { sink = s.sink ++ e ∷ [] })
  pub by_commands : (s : State W) (c : ℕ → Command) → P s → P (record s { commands = c })

module _ {W : Type 0} {P : State W → Type 0} where
  pub Keeps-pure : {A : Type 0} (a : A) → Keeps P (pure a)
  Keeps-pure a = record { at = λ s h. h }

  pub Keeps-throw : {A : Type 0} (e d : Bytes) → Keeps P (throw {A = A} e d)
  Keeps-throw e d = record { at = λ s h. h }

  pub Keeps-gets : {A : Type 0} (f : State W → A) → Keeps P (gets f)
  Keeps-gets f = record { at = λ s h. h }

  pub Keeps-bind :
      {A B : Type 0} (m : M W A) (f : A → M W B)
      → Keeps P m
      → ((a : A) → Keeps P (f a))
      → Keeps P (m >>= f)
  Keeps-bind {A} {B} m f km kf = record { at = λ s h. after (m s).0 (m s).1 (km.at s h) }
    where
      after : (o : Outcome A) (s : State W) → P s → P (follow o f s).1
      after (ok a) s h = (kf a).at s h
      after (thrown e) s h = h
      after fault s h = h

  pub Keeps-if :
      {A : Type 0} (b : Bool) (m n : M W A) → Keeps P m → Keeps P n → Keeps P (if b then m else n)
  Keeps-if true m n km kn = km
  Keeps-if false m n km kn = kn

  pub Keeps-require : (b : Bool) → Keeps P (require b)
  Keeps-require true = record { at = λ s h. h }
  Keeps-require false = record { at = λ s h. h }

  pub Keeps-when : (b : Bool) (m : M W (Unit {0})) → Keeps P m → Keeps P (when b m)
  Keeps-when true m km = record { at = km.at }
  Keeps-when false m km = record { at = λ s h. h }

  pub Keeps-get_command : (this : ℕ) → Keeps P (get_command this)
  Keeps-get_command this = record { at = λ s h. h }

  module _ (frame : IsFrame P) where
    pub Keeps-call : {A : Type 0} (f : W → A × W) → Keeps P (call f)
    Keeps-call f = record { at = λ s h. frame.by_world s (f s.world).1 h }

    pub Keeps-raise : (e d : Bytes) → Keeps P (raise e d)
    Keeps-raise e d = record { at = λ s h. frame.by_raise s (exception e d) h }

    pub Keeps-set_command : (this : ℕ) (c : Command) → Keeps P (set_command this c)
    Keeps-set_command this c = record { at = λ s h. frame.by_commands s _ h }

pub ruleset keeps = (
  Keeps-pure, Keeps-throw, Keeps-gets, Keeps-bind, Keeps-if, Keeps-require, Keeps-when,
  Keeps-get_command, Keeps-call, Keeps-raise, Keeps-set_command,
)
