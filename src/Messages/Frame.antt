-- ===== src/Messages/Frame.antt =====
-- The functions for messages change nothing but the library's state and the exceptions, and
-- `do_exception` never returns, whatever the library does.
use module_sybase.Base.{
  ℕ, zero, suc, ℤ, Bytes, Option, ◌≡◌, ◌≢◌, refl, arith, ◌∙◌, Bool, false, ◌++◌, text,
}
use module_sybase.Ct.{CtLib}
use module_sybase.Effect.{State, ok}
use module_sybase.Messages.{
  check_clients, check_servers, do_check_exception, do_exception, purge_clients, purge_servers,
  purge_messages,
}

-- The connection, the commands and the statements are as they were.
pub record Kept {W : Type 0} (s t : State W) : Type 0 where
  pub conn_kept : t.conn ≡ s.conn
  pub commands_kept : t.commands ≡ s.commands
  pub wraps_kept : t.wraps ≡ s.wraps
  pub fresh_kept : t.fresh ≡ s.fresh

pub Kept-refl : {W : Type 0} (s : State W) → Kept s s
Kept-refl s = record {
  conn_kept = refl;
  commands_kept = refl;
  wraps_kept = refl;
  fresh_kept = refl;
}

pub Kept-trans : {W : Type 0} {s t u : State W} → Kept s t → Kept t u → Kept s u
Kept-trans h k = record {
  conn_kept = k.conn_kept ∙ h.conn_kept;
  commands_kept = k.commands_kept ∙ h.commands_kept;
  wraps_kept = k.wraps_kept ∙ h.wraps_kept;
  fresh_kept = k.fresh_kept ∙ h.fresh_kept;
}

module _ (ct : CtLib) where
  check_clients-Kept :
      (conn : Option ℕ) (n i : ℕ) (t : Bytes) (count : ℕ) (s : State ct.World)
      → Kept s (check_clients ct conn n i t count s).1
  unfolding check_clients
  check_clients-Kept conn zero i t count s = Kept-refl s
  check_clients-Kept conn (suc n) i t count s =
      let r = ct.client_get conn i s.world in
      let k = check_clients-Kept conn n (suc i) _ _ (record s { world = r.1 }) in
      record {
        conn_kept = k.conn_kept;
        commands_kept = k.commands_kept;
        wraps_kept = k.wraps_kept;
        fresh_kept = k.fresh_kept;
      }

  check_servers-Kept :
      (conn : Option ℕ) (n i : ℕ) (t : Bytes) (count : ℕ) (b : Bool) (s : State ct.World)
      → Kept s (check_servers ct conn n i t count b s).1
  unfolding check_servers
  check_servers-Kept conn zero i t count b s = Kept-refl s
  check_servers-Kept conn (suc n) i t count b s =
      let r = ct.server_get conn i s.world in
      let k = check_servers-Kept conn n (suc i) _ _ _ (record s { world = r.1 }) in
      record {
        conn_kept = k.conn_kept;
        commands_kept = k.commands_kept;
        wraps_kept = k.wraps_kept;
        fresh_kept = k.fresh_kept;
      }

  purge_clients-Kept :
      (conn : Option ℕ) (n i : ℕ) (rc : ℤ) (s : State ct.World)
      → Kept s (purge_clients ct conn n i rc s).1
  unfolding purge_clients
  purge_clients-Kept conn zero i rc s = Kept-refl s
  purge_clients-Kept conn (suc n) i rc s = grind (arith, purge_clients-Kept conn n)

  purge_servers-Kept :
      (conn : Option ℕ) (n i : ℕ) (rc : ℤ) (s : State ct.World)
      → Kept s (purge_servers ct conn n i rc s).1
  unfolding purge_servers
  purge_servers-Kept conn zero i rc s = Kept-refl s
  purge_servers-Kept conn (suc n) i rc s = grind (arith, purge_servers-Kept conn n)

  pub purge_messages-Kept : (s : State ct.World) → Kept s (purge_messages ct s).1
  unfolding purge_messages
  purge_messages-Kept s = grind (arith, purge_clients-Kept, purge_servers-Kept)

  pub do_check_exception-Kept :
      (check : Bool) (e t : Bytes) (s : State ct.World)
      → Kept s (do_check_exception ct check e t s).1
  unfolding do_check_exception
  do_check_exception-Kept check e t s = grind (arith, check_clients-Kept, check_servers-Kept)

  pub do_exception-Kept : (e t : Bytes) (s : State ct.World) → Kept s (do_exception ct e t s).1
  unfolding do_exception
  do_exception-Kept e t s = do_check_exception-Kept false e (t ++ text ": ") s

  -- `do_exception` does not return to its caller.
  pub do_exception-ne-ok : (e t : Bytes) (s : State ct.World) → (do_exception ct e t s).0 ≢ ok tt
  unfolding do_exception do_check_exception
  do_exception-ne-ok e t s = ground arith
