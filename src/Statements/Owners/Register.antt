-- ===== src/Statements/Owners/Register.antt =====
-- `module_wrap` and `close` of src/dbmodulewrap.h keep the invariant.
use module_sybase.Base.{
  ℕ, suc, ◌<◌, ◌==◌, Option, none, some, true, false, ◌≡◌, ◌⊎◌, refl, arith, ◌∙◌, sym, ap,
  if◌then◌else◌, ==_iff, Bool-cases, inl, inr, subst,
}
use module_sybase.Effect.{State, Connection, Outcome, ok, thrown, fault, follow}
use module_sybase.Effect.Fuelled.{F, fuelled, lifted, ret, ◌>>=◌}
use module_sybase.Effect.Keeps.{Keeps}
use module_sybase.Connection.Handles.{invalidate, with_registered, set_conn, register_statement}
use module_sybase.Connection.Library.{Env}
use module_sybase.Statements.Owners.{IsOwned}
use module_sybase.Statements.Owners.Invalidate.{Invalidated, Ends, invalidate-Ends}
use module_sybase.Statements.Wrap.{made_wrap, module_wrap, new_wrap}

module _ (env : Env) where
  open env use {build, ct, lib, qore}
  open ct use {World}

  -- A wrap that has been made and registered for `sql`, with all others invalid.
  made-IsOwned :
      (s t : State World) (sql : ℕ)
      → t.private_data ≡ (λ a. if a == sql then some s.fresh else s.private_data a)
      → t.fresh ≡ suc s.fresh
      → t.conn.stmt ≡ some s.fresh
      → (t.wraps s.fresh).m.valid ≡ true
      → ((other v : ℕ) → s.private_data other ≡ some v → (t.wraps v).m.valid ≡ false)
      → IsOwned s
      → IsOwned t
  made-IsOwned s t sql p f st v all o = record {
    below = λ {sql = a} {wrap = w} e. rw f (elim (owner a w e) [
      | inl (_, k) ↦ ground arith
      | inr k ↦ let h = o.below k in omega arith
    ]);
    distinct = λ {sql = a} {other = b} {wrap = w} e g. elim (owner a w e) [
      | inl (k, l) ↦ elim (owner b w g) [
        | inl (m, _) ↦ k ∙ sym m
        | inr m ↦ let h = o.below m in absurd (ground (arith, l))
      ]
      | inr k ↦ elim (owner b w g) [
        | inl (_, m) ↦ let h = o.below k in absurd (ground (arith, m))
        | inr m ↦ o.distinct k m
      ]
    ];
    registered = λ {sql = a} {wrap = w} e h. elim (owner a w e) [
      | inl (_, k) ↦ st ∙ ap some (sym k)
      | inr k ↦ absurd (ground (arith, h, all a w k))
    ];
    stmt_valid = λ {wrap = w} e. ground (arith, st, v, e);
    stmt_below = λ {wrap = w} e. rw f (ground (arith, st, e));
  }
    where
      owner :
          (a w : ℕ)
          → t.private_data a ≡ some w
          → ((a ≡ sql) × (w ≡ s.fresh)) ⊎ (s.private_data a ≡ some w)
      owner a w e = elim (Bool-cases (a == sql)) [
        | inl k ↦ inl ((==_iff a sql).0 k, ground (arith, rw (p, k) at e))
        | inr k ↦ inr (rw (p, k) at e)
      ]

  -- The state with a new wrap for `sql`, before it is registered.
  abbrev with_wrap : ℕ → State World → State World
  with_wrap sql s = record s {
    fresh = suc s.fresh;
    wraps = λ a. if a == s.fresh then new_wrap else s.wraps a;
    private_data = λ a. if a == sql then some s.fresh else s.private_data a;
  }

  abbrev registered_as : ℕ → Connection → Connection
  registered_as n c = record c { stmt = some n }

  same_wrap :
      (s : State World) (sql v : ℕ)
      → v < s.fresh
      → ((with_wrap sql s).wraps v).m.valid ≡ (s.wraps v).m.valid
  same_wrap s sql v h = elim (Bool-cases (v == s.fresh)) [
    | inl k ↦ absurd (ground (arith, (==_iff v s.fresh).0 k))
    | inr k ↦ rw k refl
  ]

  none_registered :
      (s : State World) (sql : ℕ)
      → s.conn.stmt ≡ none
      → IsOwned s
      → IsOwned (record (with_wrap sql s) { conn = registered_as s.fresh s.conn })
  none_registered s sql e o =
      made-IsOwned s (record (with_wrap sql s) { conn = registered_as s.fresh s.conn }) sql refl
        refl refl (rw ((==_iff s.fresh s.fresh).1 refl) refl)
        (λ other v p. elim (Bool-cases (s.wraps v).m.valid) [
          | inl h ↦ absurd (ground (arith, e, o.registered p h))
          | inr h ↦ same_wrap s sql v (o.below p) ∙ h
        ])
        o

  old_registered :
      (s t : State World) (sql old : ℕ)
      → s.conn.stmt ≡ some old
      → Invalidated env (with_wrap sql s) old t
      → IsOwned s
      → IsOwned (record t { conn = registered_as s.fresh t.conn })
  old_registered s t sql old e i o =
      made-IsOwned s (record t { conn = registered_as s.fresh t.conn }) sql i.private_kept
        i.fresh_kept refl
        (i.others s.fresh (λ k. let h = o.stmt_below e in ground (arith, k))
          ∙ rw ((==_iff s.fresh s.fresh).1 refl) refl)
        (λ other v p. elim (Bool-cases (v == old)) [
          | inl k ↦ rw ((==_iff v old).0 k) i.gone
          | inr k ↦ elim (Bool-cases (s.wraps v).m.valid) [
            | inl h ↦ absurd (ground (arith, e, o.registered p h, (==_iff v old).1))
            | inr h ↦
                i.others v (λ q. ground (arith, (==_iff v old).1 q))
                ∙ (same_wrap s sql v (o.below p) ∙ h)
          ]
        ])
        o

  -- Where `m` returns, the invariant holds.
  pub record Returns {A : Type 0} (m : F World A) : Type 0 where
    pub at : (s t : State World) (a : A) → IsOwned s → m s ≡ (ok (some a), t) → IsOwned t

  pub Returns-Keeps : {A : Type 0} (m : F World A) → Keeps IsOwned m → Returns m
  Returns-Keeps m k = record { at = λ s t a o e. subst (λ r. IsOwned r.1) e (k.at s o) }

  pub Returns-bind :
      {A B : Type 0} (m : F World A) (f : A → F World B)
      → Returns m
      → ((a : A) → Returns (f a))
      → Returns (m >>= f)
  Returns-bind {A} {B} m f rm rf = record {
    at = λ s t b o e. after (m s).0 (m s).1 (λ a k. rm.at s _ a o k) t b e;
  }
    where
      after :
          (r : Outcome (Option A)) (u : State World)
          → ((a : A)
              → ◌≡◌ {A = Outcome (Option A) × State World} (r, u) (ok (some a), u)
              → IsOwned u)
          → (t : State World) (b : B) → fuelled r f u ≡ (ok (some b), t)
          → IsOwned t
      after (ok none) u h t b e = absurd (ground arith)
      after (ok (some a)) u h t b e = (rf a).at u t b (h a refl) e
      after (thrown x) u h t b e = absurd (ground arith)
      after fault u h t b e = absurd (ground arith)

  registered_old :
      (s : State World) (sql old w : ℕ) (o : Outcome (Unit {0})) (u t : State World)
      → s.conn.stmt ≡ some old
      → Ends env (with_wrap sql s) old (o, u)
      → IsOwned s
      → (let r = follow o (λ _. set_conn (registered_as s.fresh)) u in
          fuelled (lifted r.0) (λ _. ret s.fresh) r.1)
        ≡ (ok (some w), t)
      → IsOwned t
  registered_old s sql old w (ok x) u t e (inl (n, k)) own h = absurd (n refl)
  registered_old s sql old w (ok x) u t e (inr (k, i)) own h =
      subst (λ r. IsOwned r.1) h (old_registered s u sql old e i own)
  registered_old s sql old w (thrown x) u t e k own h = absurd (ground arith)
  registered_old s sql old w fault u t e k own h = absurd (ground arith)

  registered_stmt :
      (stmt : Option ℕ) (s : State World) (sql w : ℕ) (t : State World)
      → s.conn.stmt ≡ stmt
      → IsOwned s
      → (let q = with_registered env stmt (with_wrap sql s) in
          let r = follow q.0 (λ _. set_conn (registered_as s.fresh)) q.1 in
          fuelled (lifted r.0) (λ _. ret s.fresh) r.1)
        ≡ (ok (some w), t)
      → IsOwned t
  unfolding with_registered
  registered_stmt none s sql w t e own h = subst (λ r. IsOwned r.1) h (none_registered s sql e own)
  registered_stmt (some old) s sql w t e own h =
      let r = invalidate env old (with_wrap sql s) in
      registered_old s sql old w r.0 r.1 t e (invalidate-Ends env old (with_wrap sql s)) own h

  made_wrap-Returns : (sql : ℕ) (p : Option ℕ) → Returns (made_wrap env sql p)
  unfolding made_wrap register_statement
  made_wrap-Returns sql (some wrap) = record { at = λ s t a o e. subst (λ r. IsOwned r.1) e o }
  made_wrap-Returns sql none = record {
    at = λ s t w o e. registered_stmt s.conn.stmt s sql w t refl o e;
  }

  pub module_wrap-Returns : (sql : ℕ) → Returns (module_wrap env sql)
  unfolding module_wrap
  module_wrap-Returns sql = record { at = λ s. (made_wrap-Returns sql (s.private_data sql)).at s }
