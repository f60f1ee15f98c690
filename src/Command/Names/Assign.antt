-- ===== src/Command/Names/Assign.antt =====
-- What the naming of columns gives, in `setupColumns` and in `output_buffers_to_hash`: one field for
-- each column, in the order of the columns, under distinct names.
use module_sybase.Base.{ℕ, suc, Bytes, Option, some, List, [], ◌∷◌, ◌≡◌, ◌⊎◌, refl, ap, sym, subst}
use module_sybase.Ct.{Datafmt}
use module_sybase.Value.{Value, Fields, end, field}
use module_sybase.Value.Keys.{
  append, append_assoc, append-end, set_key_new, IsDistinct, set_key-IsDistinct,
}
use module_sybase.Command.Names.{candidate, column_name, assign_column, and_then}
use module_sybase.Command.Names.Free.{free_name_total}

-- The key is the name, or the name with a number behind it.
abbrev pub IsNameFor : Bytes → Bytes → Type 0
IsNameFor k n = (k ≡ n) ⊎ ((i : ℕ) × (k ≡ candidate n i))

-- The fields are those of the columns from number `i` on, with these values.
abbrev pub AreColumns : Option (List Bytes) → ℕ → List (Datafmt × Value) → Fields → Type 0
AreColumns ph i [] end = Unit
AreColumns ph i ((d, v) ∷ cs) (field k w h) =
    IsNameFor k (column_name ph d i) × (w ≡ v) × AreColumns ph (suc i) cs h
AreColumns ph i _ _ = ⊥

-- The assignments of the columns from number `i` on to a hash.
unfoldable pub assign_columns :
    Option (List Bytes) → List (Datafmt × Value) → ℕ → Fields → Option Fields
assign_columns ph [] i h = some h
assign_columns ph ((d, v) ∷ cs) i h =
    and_then (assign_column h (column_name ph d i) v) (assign_columns ph cs (suc i))

append_field :
    (h : Fields) (k : Bytes) (v : Value) (g : Fields)
    → append (append h (field k v end)) g ≡ append h (field k v g)
unfolding append
append_field h k v g = append_assoc h (field k v end) g

pub assign_column_total :
    (h : Fields) (n : Bytes) (v : Value)
    → IsDistinct h
    → (k : Bytes) × (assign_column h n v ≡ some (append h (field k v end)))
      × IsDistinct (append h (field k v end))
      × IsNameFor k n
unfolding assign_column
assign_column_total h n v d =
    let (k, found, free, name) = free_name_total h n in
    let new = set_key_new h k v free in
    (k, rw (found, new) refl, subst IsDistinct new (set_key-IsDistinct h k v d), name)

-- Every column gets a field of its own, whatever the names are, and none replaces another.
pub assign_columns-AreColumns :
    (ph : Option (List Bytes)) (cs : List (Datafmt × Value)) (i : ℕ) (h : Fields)
    → IsDistinct h
    → (g : Fields) × (assign_columns ph cs i h ≡ some (append h g))
      × IsDistinct (append h g)
      × AreColumns ph i cs g
unfolding assign_columns
assign_columns-AreColumns ph [] i h d =
    (end, ap some (sym (append-end h)), subst IsDistinct (sym (append-end h)) d, tt)
assign_columns-AreColumns ph ((c, v) ∷ cs) i h d =
    let (k, e, d', name) = assign_column_total h (column_name ph c i) v d in
    let (g, e', d'', are) = assign_columns-AreColumns ph cs (suc i) (append h (field k v end)) d' in
    let same = append_field h k v g in
    (field k v g, rw (e, e', same) refl, subst IsDistinct same d'', (name, refl, are))
