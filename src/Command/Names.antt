-- ===== src/Command/Names.antt =====
-- The names of columns: `get_placeholder_at`, and the loops in `setupColumns` and
-- `output_buffers_to_hash` that find a name that is free in a hash.
pub mod Free
pub mod Assign
use module_sybase.Base.{
  ℕ, zero, suc, Bytes, Option, none, some, List, [], ◌∷◌, ◌++◌, if◌then◌else◌, get_elem?, map,
  is_nil, text, decimal, to_lower,
}
use module_sybase.Ct.{Datafmt}
use module_sybase.Value.{Value, Fields, end, field, has_key, set_key}

unfoldable pub name_or_number : Option Bytes → ℕ → Bytes
name_or_number none i = decimal i
name_or_number (some []) i = decimal i
name_or_number (some (c ∷ n)) i = c ∷ n

unfoldable pub get_placeholder_at : Option (List Bytes) → ℕ → Bytes
unfolding name_or_number
get_placeholder_at none i = decimal i
get_placeholder_at (some ph) i = name_or_number (get_elem? ph i) i

unfoldable pub column_name : Option (List Bytes) → Datafmt → ℕ → Bytes
unfolding get_placeholder_at
column_name ph d i = if is_nil d.name then get_placeholder_at ph i else map to_lower d.name

-- `%s_%d`
unfoldable pub candidate : Bytes → ℕ → Bytes
candidate name num = name ++ (b'_' ∷ decimal num)

-- The loop from `num` on, on fuel; `none` means that the fuel has run out.
unfoldable pub find_free : ℕ → Fields → Bytes → ℕ → Option Bytes
find_free zero h name num = none
find_free (suc f) h name num =
    let rest = find_free f h name (suc num) in
    if has_key h (candidate name num) then rest else some (candidate name num)

abbrev pub size : Fields → ℕ
size end = 0
size (field k v h) = suc (size h)

-- The key that a column gets. One round more than the hash has keys is fuel enough.
unfoldable pub free_name : Fields → Bytes → Option Bytes
free_name h name = if has_key h name then find_free (suc (size h)) h name 1 else some name

abbrev pub assign_at : Fields → Value → Option Bytes → Option Fields
assign_at h v none = none
assign_at h v (some k) = some (set_key h k v)

-- The assignment of a value to a column's free name, with what `hah.assign` does.
unfoldable pub assign_column : Fields → Bytes → Value → Option Fields
assign_column h name v = assign_at h v (free_name h name)

abbrev pub and_then : Option Fields → (Fields → Option Fields) → Option Fields
and_then none f = none
and_then (some g) f = f g
