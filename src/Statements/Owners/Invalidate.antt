-- ===== src/Statements/Owners/Invalidate.antt =====
-- `invalidateStatement` and `registerStatement` of src/connection.h keep the invariant.
use module_sybase.Base.{
  ℕ, ◌==◌, Option, none, some, false, ◌≡◌, ◌≢◌, ◌⊎◌, refl, arith, sym, ==_iff, Bool-cases,
  Option-cases, inl, inr,
}
use module_sybase.Effect.{State, ModuleWrap, Outcome, ok, thrown, fault, follow}
use module_sybase.Effect.Keeps.{Keeps}
use module_sybase.Command.Keeps.{cancel_disconnect-Keeps}
use module_sybase.Connection.Handles.{
  invalidate, invalidate_statement, with_registered, set_wrap, set_conn,
}
use module_sybase.Connection.Keeps.{IsQueryFrame}
use module_sybase.Connection.Library.{Env}
use module_sybase.Statements.Owners.{
  IsOwned, SameOwners, SameOwners-IsOwned, SameOwners-refl, SameOwners-IsFrame, IsOwned-IsFrame,
}

module _ (env : Env) where
  open env use {build, ct, lib, qore}
  open ct use {World}

  -- The wrap is not valid any more, and all else is as it was.
  pub record Invalidated (s : State World) (wrap : ℕ) (t : State World) : Type 0 where
    pub stmt_kept : t.conn.stmt ≡ s.conn.stmt
    pub private_kept : t.private_data ≡ s.private_data
    pub fresh_kept : t.fresh ≡ s.fresh
    pub gone : (t.wraps wrap).m.valid ≡ false
    pub others : (v : ℕ) → v ≢ wrap → (t.wraps v).m.valid ≡ (s.wraps v).m.valid

  -- How `invalidate` ends.
  abbrev pub Ends : State World → ℕ → Outcome (Unit {0}) × State World → Type 0
  Ends s wrap r = ((r.0 ≢ ok tt) × SameOwners s r.1) ⊎ ((r.0 ≡ ok tt) × Invalidated s wrap r.1)

  cancelled :
      (s : State World) (wrap : ℕ) (w : ModuleWrap) (o : Outcome (Unit {0})) (u : State World)
      → w.m.valid ≡ false
      → SameOwners s u
      → Ends s wrap (follow o (λ _. set_wrap wrap w) u)
  cancelled s wrap w (ok x) u f k = inr (
    refl,
    record {
      stmt_kept = k.stmt_kept;
      private_kept = k.private_kept;
      fresh_kept = k.fresh_kept;
      gone = rw ((==_iff wrap wrap).1 refl) f;
      others = λ v n. elim (Bool-cases (v == wrap)) [
        | inl e ↦ absurd (n ((==_iff v wrap).0 e))
        | inr e ↦ rw (e, k.wraps_kept) refl
      ];
    },
  )
  cancelled s wrap w (thrown e) u f k = inl (λ h. cc, k)
  cancelled s wrap w fault u f k = inl (λ h. cc, k)

  pub invalidate-Ends : (wrap : ℕ) (s : State World) → Ends s wrap (invalidate env wrap s)
  unfolding invalidate
  invalidate-Ends wrap s = elim (Bool-cases (s.wraps wrap).m.valid) [
    | inr n ↦ inl (rw n (λ h. cc), rw n (SameOwners-refl s))
    | inl v ↦ elim (Option-cases (s.wraps wrap).m.context) [
      | inl n ↦ inl (rw (v, n) (λ h. cc), rw (v, n) (SameOwners-refl s))
      | inr (c, n) ↦
          rw (v, n)
            (cancelled s wrap _ _ _ refl
              ((cancel_disconnect-Keeps ct (SameOwners-IsFrame s) c).at s (SameOwners-refl s)))
    ]
  ]

  -- Where the registered statement is invalidated, no statement is valid.
  pub all_invalid :
      (s t : State World) (wrap : ℕ)
      → s.conn.stmt ≡ some wrap
      → Invalidated s wrap t
      → IsOwned s
      → {sql v : ℕ} → t.private_data sql ≡ some v
      → (t.wraps v).m.valid ≡ false
  all_invalid s t wrap e i o {sql} {v} p = elim (Bool-cases (v == wrap)) [
    | inl k ↦ rw ((==_iff v wrap).0 k) i.gone
    | inr k ↦ elim (Bool-cases (t.wraps v).m.valid) [
      | inr f ↦ f
      | inl h ↦
          let same =
            o.registered (rw i.private_kept at p)
              (rw (i.others v (λ q. ground (arith, (==_iff v wrap).1 q))) at h) in
          absurd (ground (arith, e, same, (==_iff v wrap).1))
    ]
  ]

  unregistered-IsOwned :
      (s t : State World) (wrap : ℕ)
      → s.conn.stmt ≡ some wrap
      → Invalidated s wrap t
      → IsOwned s
      → IsOwned (record t { conn = record t.conn { stmt = none } })
  unregistered-IsOwned s t wrap e i o = record {
    below = λ p. rw i.fresh_kept (o.below (rw i.private_kept at p));
    distinct = λ p q. o.distinct (rw i.private_kept at p) (rw i.private_kept at q);
    registered = λ p v. absurd (ground (arith, v, all_invalid s t wrap e i o p));
    stmt_valid = λ p. absurd cc;
    stmt_below = λ p. absurd cc;
  }

  unset :
      (s : State World) (wrap : ℕ) (o : Outcome (Unit {0})) (t : State World)
      → s.conn.stmt ≡ some wrap
      → Ends s wrap (o, t)
      → IsOwned s
      → IsOwned (follow o (λ _. set_conn (λ c. record c { stmt = none })) t).1
  unset s wrap (ok x) t e (inl (n, k)) w = absurd (n refl)
  unset s wrap (ok x) t e (inr (k, i)) w = unregistered-IsOwned s t wrap e i w
  unset s wrap (thrown x) t e (inl (n, k)) w = SameOwners-IsOwned k w
  unset s wrap (thrown x) t e (inr (k, i)) w = absurd cc
  unset s wrap fault t e (inl (n, k)) w = SameOwners-IsOwned k w
  unset s wrap fault t e (inr (k, i)) w = absurd cc

  unset_stmt :
      (stmt : Option ℕ) (s : State World)
      → s.conn.stmt ≡ stmt
      → IsOwned s
      → let r = with_registered env stmt s in
        IsOwned (follow r.0 (λ _. set_conn (λ c. record c { stmt = none })) r.1).1
  unfolding with_registered
  unset_stmt none s e o =
      SameOwners-IsOwned {s = s}
        (record { stmt_kept = sym e; wraps_kept = refl; private_kept = refl; fresh_kept = refl }) o
  unset_stmt (some wrap) s e o =
      let r = invalidate env wrap s in unset s wrap r.0 r.1 e (invalidate-Ends wrap s) o

  -- `invalidateStatement` keeps the invariant, however it ends.
  pub invalidate_statement-Keeps : Keeps IsOwned (invalidate_statement env)
  unfolding invalidate_statement
  invalidate_statement-Keeps = record { at = λ s o. unset_stmt s.conn.stmt s refl o }

  pub IsOwned-IsQueryFrame : IsQueryFrame env IsOwned
  IsOwned-IsQueryFrame = record {
    frame = IsOwned-IsFrame;
    by_conn = λ s c e o.
        SameOwners-IsOwned {s = s}
          (record { stmt_kept = e; wraps_kept = refl; private_kept = refl; fresh_kept = refl }) o;
    by_fresh = λ s o. record {
      below = λ p. let h = o.below p in omega arith;
      distinct = o.distinct;
      registered = o.registered;
      stmt_valid = o.stmt_valid;
      stmt_below = λ p. let h = o.stmt_below p in omega arith;
    };
    by_invalidate = invalidate_statement-Keeps;
  }
