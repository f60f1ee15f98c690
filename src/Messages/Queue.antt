-- ===== src/Messages/Queue.antt =====
-- What the driver relies on of `ct_diag`: it hands out the messages of the connection by their
-- numbers, from 1 on, and clears them.
use module_sybase.Base.{
  ℕ, suc, ◌+◌, Option, some, List, [], ◌∷◌, length, get_elem?, ◌≡◌, refl, arith,
}
use native.Mathlib.Nat.{add-zero}
use module_sybase.Ct.{CtLib, RetCode, succeed, ClientMsg, ServerMsg}

pub record Diag (ct : CtLib) (conn : Option ℕ) : Type 0 where
  pub clients : ct.World → List ClientMsg
  pub servers : ct.World → List ServerMsg
  pub cleared : ct.World → ct.World
  pub client_status_is :
      (w : ct.World) → ct.client_status conn w ≡ ((succeed, length (clients w)), w)
  pub client_get_is :
      (w : ct.World) (i : ℕ) (m : ClientMsg)
      → get_elem? (clients w) i ≡ some m
      → ct.client_get conn (suc i) w ≡ ((succeed, m), w)
  pub server_status_is :
      (w : ct.World) → ct.server_status conn w ≡ ((succeed, length (servers w)), w)
  pub server_get_is :
      (w : ct.World) (i : ℕ) (m : ServerMsg)
      → get_elem? (servers w) i ≡ some m
      → ct.server_get conn (suc i) w ≡ ((succeed, m), w)
  pub diag_clear_is : (w : ct.World) → ct.diag_clear conn w ≡ (succeed, cleared w)
  pub no_clients : (w : ct.World) → clients (cleared w) ≡ []
  pub no_servers : (w : ct.World) → servers (cleared w) ≡ []

-- `get` hands out the elements of `l` from number `i` on.
abbrev pub Serves : {A W : Type 0} → (ℕ → W → (RetCode × A) × W) → W → ℕ → List A → Type 0
Serves get w i [] = Unit
Serves get w i (m ∷ l) = (get i w ≡ ((succeed, m), w)) × Serves get w (suc i) l

pub Serves-elems :
    {A W : Type 0} (get : ℕ → W → (RetCode × A) × W) (w : W) (i : ℕ) (l : List A)
    → ((j : ℕ) (m : A) → get_elem? l j ≡ some m → get (i + j) w ≡ ((succeed, m), w))
    → Serves get w i l
Serves-elems get w i [] h = tt
Serves-elems get w i (m ∷ l) h = (
  rw (add-zero i) at (h 0 m refl),
  Serves-elems get w (suc i) l λ j n e. rw (shift i j) at (h (suc j) n e),
)
  where
    shift : (i j : ℕ) → i + suc j ≡ suc i + j
    shift i j = omega arith

module _ {ct : CtLib} {conn : Option ℕ} (d : Diag ct conn) (w : ct.World) where
  one_more : (j : ℕ) → suc j ≡ 1 + j
  one_more j = omega arith

  pub Serves-clients : Serves (ct.client_get conn) w 1 (d.clients w)
  Serves-clients =
      Serves-elems (ct.client_get conn) w 1 (d.clients w)
        λ j m e. rw one_more at (d.client_get_is w j m e)

  pub Serves-servers : Serves (ct.server_get conn) w 1 (d.servers w)
  Serves-servers =
      Serves-elems (ct.server_get conn) w 1 (d.servers w)
        λ j m e. rw one_more at (d.server_get_is w j m e)
