-- ===== src/Connection/Execute/Guards.antt =====
-- The command of `direct_execute` is dropped however the block is left, and cancelled before that if
-- it is left by an error.
use module_sybase.Base.{
  ℕ, zero, suc, ℤ, Bytes, Option, none, some, true, false, ◌≡◌, ◌≢◌, ◌⊎◌, Bool-cases, inl, inr,
  refl, arith, ap, is_nil,
}
use module_sybase.Build.{Exception}
use module_sybase.Ct.{CtLib, is_succeed}
use module_sybase.Effect.{State, Outcome, ok, thrown, fault}
use module_sybase.Messages.{is_severe, purge_clients, purge_servers, purge_messages}
use module_sybase.Connection.Execute.{
  left, dropped, cancelled, send_and_drain, guarded_block, direct_execute,
}

module _ (ct : CtLib) where
  purge_clients-ne-thrown :
      (conn : Option ℕ) (n i : ℕ) (rc : ℤ) (s : State ct.World) (e : Exception)
      → (purge_clients ct conn n i rc s).0 ≢ thrown e
  unfolding purge_clients
  purge_clients-ne-thrown conn zero i rc s e = ground arith
  purge_clients-ne-thrown conn (suc n) i rc s e =
      let r = ct.client_get conn i s.world in
      elim (Bool-cases (is_succeed r.0.0)) [
        | inr k ↦ rw k (λ z. cc)
        | inl k ↦ elim (Bool-cases (is_severe r.0.1.severity)) [
          | inl l ↦ rw (k, l) (purge_clients-ne-thrown conn n (suc i) _ _ e)
          | inr l ↦ rw (k, l) (purge_clients-ne-thrown conn n (suc i) _ _ e)
        ]
      ]

  purge_servers-ne-thrown :
      (conn : Option ℕ) (n i : ℕ) (rc : ℤ) (s : State ct.World) (e : Exception)
      → (purge_servers ct conn n i rc s).0 ≢ thrown e
  unfolding purge_servers
  purge_servers-ne-thrown conn zero i rc s e = ground arith
  purge_servers-ne-thrown conn (suc n) i rc s e =
      let r = ct.server_get conn i s.world in
      elim (Bool-cases (is_succeed r.0.0)) [
        | inr k ↦ rw k (λ z. cc)
        | inl k ↦ elim (Bool-cases (is_severe r.0.1.severity)) [
          | inl l ↦ rw (k, l) (purge_servers-ne-thrown conn n (suc i) _ _ e)
          | inr l ↦ rw (k, l) (purge_servers-ne-thrown conn n (suc i) _ _ e)
        ]
      ]

  purge_messages-ne-thrown :
      (s : State ct.World) (e : Exception) → (purge_messages ct s).0 ≢ thrown e
  unfolding purge_messages
  purge_messages-ne-thrown s e = grind (arith, purge_clients-ne-thrown, purge_servers-ne-thrown)

  -- How the block ends: by an error, with the command cancelled; with a result, after the messages
  -- have been purged; or by a failed assertion.
  abbrev pub Left :
      ℕ → Option ℕ → Bytes → State ct.World → Outcome (Option ℤ) × State ct.World → Type 0
  Left fuel cmd sql_text s o =
      ((e : Exception) × (v : State ct.World) × (send_and_drain ct fuel cmd sql_text s
          ≡ (thrown e, v))
        × (o ≡ (thrown e, dropped ct cmd (cancelled ct cmd v))))
      ⊎ (((u : Option (Unit {0})) × (rc : Option ℤ) × (v : State ct.World) × (send_and_drain ct fuel
                cmd sql_text s
              ≡ (ok u, v))
            × (o ≡ (ok rc, dropped ct cmd (purge_messages ct v).1)))
          ⊎ (o.0 ≡ fault))

  guarded_block-Left :
      (fuel : ℕ) (cmd : Option ℕ) (sql_text : Bytes) (s : State ct.World)
      → Left fuel cmd sql_text s (left (dropped ct cmd) (guarded_block ct fuel cmd sql_text s))
  unfolding guarded_block
  guarded_block-Left fuel cmd sql_text s = by_block (send_and_drain ct fuel cmd sql_text s) refl
    where
      by_purge :
          (u : Option (Unit {0})) (v : State ct.World) (o : Outcome ℤ × State ct.World)
          → send_and_drain ct fuel cmd sql_text s ≡ (ok u, v)
          → purge_messages ct v ≡ o
          → Left fuel cmd sql_text s (left (dropped ct cmd) (guarded_block ct fuel cmd sql_text s))
      by_purge u v (ok rc, w) k p =
          inr (inl (u, elim u [ none ↦ none | some x ↦ some rc ], v, k, rw (k, p) refl))
      by_purge u v (thrown e, w) k p = absurd (purge_messages-ne-thrown v e (ap (λ o. o.0) p))
      by_purge u v (fault, w) k p = inr (inr (rw (k, p) refl))

      by_block :
          (o : Outcome (Option (Unit {0})) × State ct.World)
          → send_and_drain ct fuel cmd sql_text s ≡ o
          → Left fuel cmd sql_text s (left (dropped ct cmd) (guarded_block ct fuel cmd sql_text s))
      by_block (thrown e, v) k = inl (e, v, k, rw k refl)
      by_block (fault, v) k = inr (inr (rw k refl))
      by_block (ok u, v) k = by_purge u v (purge_messages ct v) k refl

  -- With a command that could be had, `direct_execute` drops it in the end: after an error, once it
  -- has been cancelled, or with a result, once all messages have been purged, unless an assertion
  -- fails.
  pub direct_execute-Left :
      (fuel : ℕ) (sql_text : Bytes) (s : State ct.World)
      → is_nil sql_text ≡ false
      → is_succeed (ct.ct_cmd_alloc s.conn.m_connection s.world).0.0 ≡ true
      → let r = ct.ct_cmd_alloc s.conn.m_connection s.world in
        Left fuel r.0.1 sql_text (record s { world = r.1 }) (direct_execute ct fuel sql_text s)
  unfolding direct_execute
  direct_execute-Left fuel sql_text s n a =
      let r = ct.ct_cmd_alloc s.conn.m_connection s.world in
      rw (n, a) (guarded_block-Left fuel r.0.1 sql_text (record s { world = r.1 }))
