-- ===== src/Value.antt =====
-- The values that the driver hands to Qore, the arguments that it takes, and the operations of Qore's lists and hashes that it
-- uses. A float is its bit pattern; a time zone and an encoding are the numbers of their pointers.
pub mod Keys
use module_sybase.Base.{
  ℕ, Bool, true, false, ◌||◌, List, [], ◌∷◌, Bytes, eq_text, ℤ, if◌then◌else◌, Option, none, some,
}
use module_sybase.Build.{Exception}
use module_sybase.Conversions.{DateTime, DateTimeNode}

mutual
  pub data Value : Type 0 where
    nothing null : Value
    int : ℤ → Value
    bool : Bool → Value
    float : ℕ → Value
    number : Bytes → Value
    string : Bytes → ℕ → Value
    binary : Bytes → Value
    date : DateTimeNode ℕ → Value
    list : Items → Value
    hash : Fields → Value

  pub data Items : Type 0 where
    nil : Items
    cons : Value → Items → Items

  pub data Fields : Type 0 where
    end : Fields
    field : Bytes → Value → Fields → Fields

-- An argument. A string is in the connection's encoding, or it cannot be converted to it, for which
-- Qore raises an exception; of a hash
-- there are its "type", if that is a string, its "value", if that is a date, and the name of that
-- value's type; other values have the name of their type.
pub data Arg : Type 0 where
  arg_null : Arg
  arg_string : Bytes → Arg
  arg_unconverted : Exception → Arg
  arg_number : Bytes → Arg
  arg_date : DateTime → Arg
  arg_int : ℤ → Arg
  arg_bool : Bool → Arg
  arg_float : ℕ → Arg
  arg_binary : Bytes → Arg
  arg_hash : Option Bytes → Option DateTime → Bytes → Arg
  arg_other : Bytes → Arg

-- `QoreListNode::push`
unfoldable pub push : Items → Value → Items
push nil v = cons v nil
push (cons w l) v = cons w (push l v)

-- The elements of a list, and the list of some elements.
unfoldable pub elements : Items → List Value
elements nil = []
elements (cons v l) = v ∷ elements l

unfoldable pub items_of : List Value → Items
items_of [] = nil
items_of (v ∷ l) = cons v (items_of l)

unfoldable pub keys : Fields → List Bytes
keys end = []
keys (field k v h) = k ∷ keys h

unfoldable pub has_key : Fields → Bytes → Bool
has_key end k = false
has_key (field j v h) k = eq_text j k || has_key h k

-- `setKeyValue`, and the assignment through a `HashAssignmentHelper`: a new key goes to the end.
unfoldable pub set_key : Fields → Bytes → Value → Fields
set_key end k v = field k v end
set_key (field j w h) k v = if eq_text j k then field j v h else field j w (set_key h k v)

unfoldable pub get_key : Fields → Bytes → Option Value
get_key end k = none
get_key (field j v h) k = if eq_text j k then some v else get_key h k

-- `(bool)value`: whether there is a value at all.
unfoldable pub is_value : Value → Bool
is_value nothing = false
is_value null = true
is_value _ = true
