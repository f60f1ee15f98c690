-- ===== src/Messages/Keeps.antt =====
-- What the functions for messages keep.
use module_sybase.Base.{ℕ, zero, suc, ℤ, Bytes, Option, Bool, false}
use module_sybase.Ct.{CtLib}
use module_sybase.Effect.{State}
use module_sybase.Effect.Keeps.{Keeps, IsFrame, keeps, Keeps-pure}
use module_sybase.Messages.{
  discard_messages, purge_clients, purge_servers, purge_messages, check_clients, check_servers,
  do_check_exception, do_exception,
}

module _ (ct : CtLib) {P : State ct.World → Type 0} (frame : IsFrame P) where
  pub discard_messages-Keeps : Keeps P (discard_messages ct)
  unfolding discard_messages
  discard_messages-Keeps = search (keeps, frame)

  purge_clients-Keeps :
      (conn : Option ℕ) (n i : ℕ) (rc : ℤ) → Keeps P (purge_clients ct conn n i rc)
  unfolding purge_clients
  purge_clients-Keeps conn zero i rc = Keeps-pure rc
  purge_clients-Keeps conn (suc n) i rc = search (keeps, frame, purge_clients-Keeps conn n)

  purge_servers-Keeps :
      (conn : Option ℕ) (n i : ℕ) (rc : ℤ) → Keeps P (purge_servers ct conn n i rc)
  unfolding purge_servers
  purge_servers-Keeps conn zero i rc = Keeps-pure rc
  purge_servers-Keeps conn (suc n) i rc = search (keeps, frame, purge_servers-Keeps conn n)

  pub purge_messages-Keeps : Keeps P (purge_messages ct)
  unfolding purge_messages
  purge_messages-Keeps = search (keeps, frame, purge_clients-Keeps, purge_servers-Keeps) depth 20

  check_clients-Keeps :
      (conn : Option ℕ) (n i : ℕ) (t : Bytes) (count : ℕ)
      → Keeps P (check_clients ct conn n i t count)
  unfolding check_clients
  check_clients-Keeps conn zero i t count = Keeps-pure _
  check_clients-Keeps conn (suc n) i t count = search (keeps, frame, check_clients-Keeps conn n)

  check_servers-Keeps :
      (conn : Option ℕ) (n i : ℕ) (t : Bytes) (count : ℕ) (fnd : Bool)
      → Keeps P (check_servers ct conn n i t count fnd)
  unfolding check_servers
  check_servers-Keeps conn zero i t count fnd = Keeps-pure _
  check_servers-Keeps conn (suc n) i t count fnd = search (keeps, frame, check_servers-Keeps conn n)

  pub do_check_exception-Keeps :
      (check : Bool) (err estr : Bytes) → Keeps P (do_check_exception ct check err estr)
  unfolding do_check_exception
  do_check_exception-Keeps check err estr =
      search (keeps, frame, check_clients-Keeps, check_servers-Keeps) depth 20

  pub do_exception-Keeps : (err t : Bytes) → Keeps P (do_exception ct err t)
  unfolding do_exception
  do_exception-Keeps err t = do_check_exception-Keeps false err _
