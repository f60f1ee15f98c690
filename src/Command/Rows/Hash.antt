-- ===== src/Command/Rows/Hash.antt =====
-- A row as a hash, and the empty lists of a hash of columns.
use module_sybase.Base.{
  ℕ, suc, Bytes, Option, none, some, List, [], ◌∷◌, map, ◌≡◌, refl, arith, ap, ◌∙◌, sym, is_nil,
  subst,
}
use mathlib.Core.Path.{fun_ext}
use module_sybase.Build.{Build}
use module_sybase.Ct.{CtLib, Datafmt, Cell}
use module_sybase.Effect.{State, Connection, ok}
use module_sybase.Value.{Value, list, nil, Fields, end}
use module_sybase.Value.Keys.{append, IsDistinct}
use module_sybase.Command.Names.{assign_column, column_name, and_then}
use module_sybase.Command.Names.Assign.{AreColumns, assign_columns, assign_columns-AreColumns}
use module_sybase.Command.Convert.{decoded, value_of, get_value}
use module_sybase.Command.Rows.{setup_columns, output_buffers_to_hash}

empty_list : Datafmt → Datafmt × Value
empty_list d = (d, list nil)

setup_columns-assign :
    (ph : Option (List Bytes)) (ds : List Datafmt) (i : ℕ) (h : Fields)
    → setup_columns ph ds i h ≡ assign_columns ph (map empty_list ds) i h
unfolding setup_columns assign_columns empty_list
setup_columns-assign ph [] i h = refl
setup_columns-assign ph (d ∷ ds) i h =
    ap (and_then (assign_column h (column_name ph d i) (list nil)))
      (fun_ext (setup_columns-assign ph ds (suc i)))

-- From an empty hash, each column gets an empty list, under distinct names and in the order of the
-- columns; a name is the column's own or has a number behind it.
pub setup_columns-AreColumns :
    (ph : Option (List Bytes)) (ds : List Datafmt)
    → (g : Fields) × (setup_columns ph ds 0 end ≡ some g)
      × IsDistinct g
      × AreColumns ph 0 (map (λ d. (d, list nil)) ds) g
unfolding empty_list append
setup_columns-AreColumns ph ds =
    let (g, e, d, are) = assign_columns-AreColumns ph (map empty_list ds) 0 end tt in
    (g, setup_columns-assign ph ds 0 end ∙ e, d, are)

-- The buffers hold these values.
abbrev pub Decodes : Build → Connection → List Datafmt → List Cell → List Value → Type 0
Decodes build conn [] cells [] = Unit
Decodes build conn (d ∷ ds) (c ∷ cells) (v ∷ vs) =
    (value_of build conn d c ≡ decoded v) × Decodes build conn ds cells vs
Decodes build conn _ _ _ = ⊥

unfoldable pub columns_of : List Datafmt → List Value → List (Datafmt × Value)
columns_of [] vs = []
columns_of (d ∷ ds) [] = []
columns_of (d ∷ ds) (v ∷ vs) = (d, v) ∷ columns_of ds vs

pub get_value_decoded :
    (build : Build) (ct : CtLib) (d : Datafmt) (c : Cell) (v : Value) (s : State ct.World)
    → value_of build s.conn d c ≡ decoded v
    → get_value build ct d c s ≡ (ok v, s)
unfolding get_value
get_value_decoded build ct d c v s e = rw e refl

module _ (build : Build) (ct : CtLib) (this : ℕ) where
  output_buffers_to_hash-assign :
      (ph : Option (List Bytes)) (ds : List Datafmt) (cells : List Cell) (vs : List Value) (i : ℕ)
      (h g : Fields) (s : State ct.World)
      → s.sink ≡ []
      → Decodes build s.conn ds cells vs
      → assign_columns ph (columns_of ds vs) i h ≡ some g
      → output_buffers_to_hash build ct this ph ds cells i h s ≡ (ok (some g), s)
  unfolding output_buffers_to_hash assign_columns columns_of
  output_buffers_to_hash-assign ph [] cells [] i h g s n d e = ap (λ o. (ok o, s)) e
  output_buffers_to_hash-assign ph [] cells (v ∷ vs) i h g s n d e = absurd d
  output_buffers_to_hash-assign ph (c ∷ ds) [] vs i h g s n d e = absurd d
  output_buffers_to_hash-assign ph (c ∷ ds) (x ∷ cells) [] i h g s n d e = absurd d
  output_buffers_to_hash-assign ph (c ∷ ds) (x ∷ cells) (v ∷ vs) i h g s n d e =
      step (assign_column h (column_name ph c i) v) refl
        (λ f. output_buffers_to_hash-assign ph ds cells vs (suc i) f g s n d.1)
    where
      step :
          (o : Option Fields)
          → assign_column h (column_name ph c i) v ≡ o
          → ((f : Fields)
              → assign_columns ph (columns_of ds vs) (suc i) f ≡ some g
              → output_buffers_to_hash build ct this ph ds cells (suc i) f s ≡ (ok (some g), s))
          → output_buffers_to_hash build ct this ph (c ∷ ds) (x ∷ cells) i h s ≡ (ok (some g), s)
      step none k rest = absurd (ground (arith, k, e))
      step (some f) k rest =
          rw (get_value_decoded build ct c x v s d.0, ap is_nil n, k) (rest f (rw k at e))

  -- A row whose buffers can be read is a hash with the columns' values.
  pub output_buffers_to_hash-AreColumns :
      (ph : Option (List Bytes)) (conn : Connection) (ds : List Datafmt) (cells : List Cell)
      (vs : List Value)
      → Decodes build conn ds cells vs
      → (g : Fields) × ((s : State ct.World)
          → s.conn ≡ conn
          → s.sink ≡ []
          → output_buffers_to_hash build ct this ph ds cells 0 end s ≡ (ok (some g), s))
        × IsDistinct g
        × AreColumns ph 0 (columns_of ds vs) g
  unfolding append
  output_buffers_to_hash-AreColumns ph conn ds cells vs d =
      let (g, e, distinct, are) = assign_columns-AreColumns ph (columns_of ds vs) 0 end tt in
      (
        g,
        λ s c n.
            output_buffers_to_hash-assign ph ds cells vs 0 end g s n
              (subst (λ z. Decodes build z ds cells vs) (sym c) d) e,
        distinct,
        are,
      )
