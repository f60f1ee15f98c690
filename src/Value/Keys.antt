-- ===== src/Value/Keys.antt =====
-- Hashes with distinct keys: a key that is new goes to the end, and keys stay distinct.
use module_sybase.Base.{
  true, false, ◌||◌, ◌∷◌, ◌++◌, Bytes, eq_text, ◌≡◌, refl, arith, ap, ◌∙◌, Bool-cases, inl, inr,
  eq_text_refl, eq_text→eq,
}
use module_sybase.Value.{Value, Fields, end, field, keys, has_key, set_key}

-- A hash with more fields behind its own.
unfoldable pub append : Fields → Fields → Fields
append end g = g
append (field k v h) g = field k v (append h g)

pub append-end : (h : Fields) → append h end ≡ h
unfolding append
append-end end = refl
append-end (field k v h) = ap (field k v) (append-end h)

pub set_key_new :
    (h : Fields) (k : Bytes) (v : Value)
    → has_key h k ≡ false
    → set_key h k v ≡ append h (field k v end)
unfolding set_key has_key append
set_key_new end k v e = refl
set_key_new (field j w h) k v e = ground (arith, set_key_new h k v)

pub append_assoc : (f g h : Fields) → append (append f g) h ≡ append f (append g h)
unfolding append
append_assoc end g h = refl
append_assoc (field k v f) g h = ap (field k v) (append_assoc f g h)

pub has_key-append :
    (f g : Fields) (k : Bytes) → has_key (append f g) k ≡ (has_key f k || has_key g k)
unfolding append has_key
has_key-append end g k = refl
has_key-append (field j v f) g k = ground (arith, has_key-append f g k)

pub keys-append : (f g : Fields) → keys (append f g) ≡ keys f ++ keys g
unfolding append keys
keys-append end g = refl
keys-append (field j v f) g = ap (◌∷◌ j) (keys-append f g)

-- No two fields have the same key.
abbrev pub IsDistinct : Fields → Type 0
IsDistinct end = Unit
IsDistinct (field k v h) = (has_key h k ≡ false) × IsDistinct h

eq_text_comm : (a b : Bytes) → eq_text a b ≡ eq_text b a
eq_text_comm a b = elim (Bool-cases (eq_text a b)) [
  | inl e ↦ rw (eq_text→eq a b e)
  | inr e ↦ elim (Bool-cases (eq_text b a)) [ inl k ↦ absurd (differ k e) | inr k ↦ e ∙ rw k ]
]
  where
    differ : eq_text b a ≡ true → eq_text a b ≡ false → ⊥
    differ k e = cc (e, ap (eq_text a) (eq_text→eq b a k), eq_text_refl a)

pub has_key-set_key :
    (h : Fields) (k j : Bytes) (v : Value)
    → has_key (set_key h k v) j ≡ (eq_text k j || has_key h j)
unfolding has_key set_key
has_key-set_key end k j v = refl
has_key-set_key (field i w h) k j v = ground (arith, has_key-set_key h k j v, eq_text→eq i k)

-- Assignments keep the keys of a hash distinct.
pub set_key-IsDistinct :
    (h : Fields) (k : Bytes) (v : Value) → IsDistinct h → IsDistinct (set_key h k v)
unfolding has_key set_key
set_key-IsDistinct end k v d = (refl, tt)
set_key-IsDistinct (field j w h) k v d =
    ground (arith, set_key-IsDistinct h k v d.1, has_key-set_key h k j v, eq_text_comm j k)
