-- ===== src/Statements/Owners/Close.antt =====
-- `close` of src/dbmodulewrap.h keeps the invariant, and so does what it destroys.
use module_sybase.Base.{
  ℕ, ◌==◌, Option, none, some, Bool, true, false, ◌≡◌, refl, arith, sym, ◌∙◌, if◌then◌else◌, ==_iff,
  Bool-cases, inl, inr,
}
use module_sybase.Effect.{State, when}
use module_sybase.Effect.Fuelled.{fuelled, lifted, ret}
use module_sybase.Effect.FuelledKeeps.{FKeeps-ret}
use module_sybase.Effect.Keeps.{Keeps}
use module_sybase.Connection.Handles.{deregister_statement, is_the}
use module_sybase.Connection.Keeps.{destroyed-Keeps}
use module_sybase.Connection.Library.{Env}
use module_sybase.Statements.Owners.{IsOwned}
use module_sybase.Statements.Owners.Invalidate.{IsOwned-IsQueryFrame}
use module_sybase.Statements.Wrap.{close_wrap, close, delete_wrap}

module _ (env : Env) where
  open env use {build, ct, lib, qore}
  open ct use {World}

  delete_wrap-Keeps : (c : Option ℕ) → Keeps IsOwned (delete_wrap env c)
  unfolding delete_wrap
  delete_wrap-Keeps none = FKeeps-ret _
  delete_wrap-Keeps (some this) = record {
    at = λ s o. destroyed-Keeps env (IsOwned-IsQueryFrame env) this (ret _ s) o;
  }

  abbrev without : ℕ → State World → State World
  without sql s = record s { private_data = λ a. if a == sql then none else s.private_data a }

  kept_owner :
      (s : State World) (sql a w : ℕ)
      → (without sql s).private_data a ≡ some w
      → (s.private_data a ≡ some w) × ((a == sql) ≡ false)
  kept_owner s sql a w e = elim (Bool-cases (a == sql)) [
    | inl k ↦ absurd (ground (arith, rw k at e))
    | inr k ↦ (rw k at e, k)
  ]

  -- The statement was not registered.
  without-IsOwned : (s : State World) (sql : ℕ) → IsOwned s → IsOwned (without sql s)
  without-IsOwned s sql o = record {
    below = λ {sql = a} {wrap = w} e. o.below (kept_owner s sql a w e).0;
    distinct = λ {sql = a} {other = b} {wrap = w} e f.
        o.distinct (kept_owner s sql a w e).0 (kept_owner s sql b w f).0;
    registered = λ {sql = a} {wrap = w} e h. o.registered (kept_owner s sql a w e).0 h;
    stmt_valid = o.stmt_valid;
    stmt_below = o.stmt_below;
  }

  -- The statement was the one that is registered.
  deregistered-IsOwned :
      (s : State World) (sql wrap : ℕ)
      → s.private_data sql ≡ some wrap
      → (s.wraps wrap).m.valid ≡ true
      → IsOwned s
      → IsOwned (without sql (record s { conn = record s.conn { stmt = none } }))
  deregistered-IsOwned s sql wrap p v o = record {
    below = λ {sql = a} {wrap = w} e. o.below (kept_owner s sql a w e).0;
    distinct = λ {sql = a} {other = b} {wrap = w} e f.
        o.distinct (kept_owner s sql a w e).0 (kept_owner s sql b w f).0;
    registered = λ {sql = a} {wrap = w} e h.
        let (q, n) = kept_owner s sql a w e in
        let same = o.distinct (rw (unwrap (sym (o.registered p v) ∙ o.registered q h)) at p) q in
        absurd (ground (arith, n, (==_iff a sql).1 (sym same)));
    stmt_valid = λ e. absurd cc;
    stmt_below = λ e. absurd cc;
  }
    where
      unwrap : {a b : ℕ} → some a ≡ some b → a ≡ b
      unwrap l = cc

  -- What is done before the wrap is destroyed.
  unlinked-Keeps :
      (sql wrap : ℕ) (s : State World)
      → s.private_data sql ≡ some wrap
      → IsOwned s
      → (valid : Bool) → (s.wraps wrap).m.valid ≡ valid
      → IsOwned
          (fuelled
            (lifted (when valid (deregister_statement env wrap) s).0)
            (λ _ t. (delete_wrap env (s.wraps wrap).m.context) (without sql t))
            (when valid (deregister_statement env wrap) s).1).1
  unfolding deregister_statement
  unlinked-Keeps sql wrap s p o false v =
      (delete_wrap-Keeps (s.wraps wrap).m.context).at (without sql s) (without-IsOwned s sql o)
  unlinked-Keeps sql wrap s p o true v = elim (Bool-cases (is_the env s.conn.stmt wrap)) [
    | inr k ↦ rw k o
    | inl k ↦
        rw k (
          (delete_wrap-Keeps (s.wraps wrap).m.context).at _ (deregistered-IsOwned s sql wrap p v o))
  ]

  close_at :
      (sql : ℕ) (p : Option ℕ) (s : State World)
      → s.private_data sql ≡ p
      → IsOwned s
      → IsOwned (close_wrap env sql p s).1
  unfolding close_wrap
  close_at sql none s e o = o
  close_at sql (some wrap) s e o = unlinked-Keeps sql wrap s e o (s.wraps wrap).m.valid refl

  pub close-Keeps : (sql : ℕ) → Keeps IsOwned (close env sql)
  unfolding close
  close-Keeps sql = record { at = λ s o. close_at sql (s.private_data sql) s refl o }
