-- ===== src/Command/Convert/Decimal.antt =====
-- A DECIMAL or NUMERIC column from its description to its value.
use module_sybase.Base.{
  ℕ, zero, suc, ◌^◌, ◌&&◌, ltb, leb, Bytes, [], ◌∷◌, ◌++◌, length, take, Bool, true, if◌then◌else◌,
  ◌≡◌, ◌⊎◌, inl, inr, refl, arith, ap, ◌∙◌, trim_trailing, pos,
}
use module_sybase.Build.{Build}
use module_sybase.Ct.{CsType, decimal_type, numeric_type, char_type, Datafmt, Cell}
use module_sybase.Effect.{Connection}
use module_sybase.Number.{num_optimal, read_digits, get_number}
use module_sybase.Number.Digits.{IsDigits}
use module_sybase.Number.Integers.{get_number_digits}
use module_sybase.Value.{Value, int, number}
use module_sybase.Command.Describe.{describe_column}
use module_sybase.Command.Convert.{
  Decoded, decoded, value_of, char_value, is_space, need_trim, text_value, convert, is_number,
}

-- `n` blanks
unfoldable pub spaces : ℕ → Bytes
spaces zero = []
spaces (suc n) = b' ' ∷ spaces n

trim-spaces : (n : ℕ) → trim_trailing is_space (spaces n) ≡ []
unfolding trim_trailing spaces
trim-spaces zero = refl
trim-spaces (suc n) = rw (trim-spaces n) refl

-- Trimming takes the padding off, and no digit.
trim-IsDigits : (s : Bytes) (n : ℕ) → IsDigits s → trim_trailing is_space (s ++ spaces n) ≡ s
unfolding trim_trailing
trim-IsDigits [] n h = trim-spaces n
trim-IsDigits (c ∷ []) n (h, k) = rw (trim-spaces n) (ground (arith, h))
trim-IsDigits (c ∷ d ∷ s) n (h, k) = rw (trim-IsDigits (d ∷ s) n k) refl

take-length : (s : Bytes) → take (length s) s ≡ s
take-length [] = refl
take-length (c ∷ s) = ap (◌∷◌ c) (take-length s)

-- A buffer that is full of this text.
abbrev pub text_cell : Bytes → Cell
text_cell s = record { indicator = pos 0; value = s; value_len = length s }

abbrev pub IsExact : CsType → Type 0
IsExact decimal_type = Unit
IsExact numeric_type = Unit
IsExact _ = ⊥

char_value_padded :
    (build : Build) (conn : Connection) (d : Datafmt) (s : Bytes) (k : ℕ)
    → IsDigits s
    → need_trim build d ≡ true
    → char_value build conn d (text_cell (s ++ spaces k)) ≡ decoded (text_value conn d s)
unfolding char_value
char_value_padded build conn d s k h n =
    rw (n, take-length (s ++ spaces k), trim-IsDigits s k h) (fits (length (s ++ spaces k)) _ _)
  where
    fits : (m : ℕ) (a b : Decoded) → (if leb m m then a else b) ≡ a
    fits m a b = ground arith

exact_text :
    (conn : Connection) (d : Datafmt) (s : Bytes)
    → conn.numeric_support ≡ num_optimal
    → is_number d ≡ true
    → text_value conn d s ≡ get_number num_optimal s
unfolding text_value
exact_text conn d s opt n = rw (n, opt) refl

-- The value of digits that are sent for an exact number.
abbrev pub exact_value : Bytes → Value
exact_value s =
    if ltb (length s) 20 && ltb (read_digits 0 s) (2 ^ 63)
    then int (pos (read_digits 0 s))
    else number s

exact_column :
    (build : Build) (conn : Connection) (d : Datafmt) (s : Bytes) (k : ℕ)
    → conn.numeric_support ≡ num_optimal
    → IsDigits s
    → d.datatype ≡ char_type
    → need_trim build d ≡ true
    → is_number d ≡ true
    → value_of build conn d (text_cell (s ++ spaces k)) ≡ decoded (exact_value s)
unfolding value_of convert
exact_column build conn d s k opt h t trim num =
    ap (convert build conn d (text_cell (s ++ spaces k))) t
    ∙ char_value_padded build conn d s k h trim
    ∙ ap decoded (exact_text conn d s opt num ∙ get_number_digits s h)

IsExact-cases : (t : CsType) → IsExact t → (t ≡ decimal_type) ⊎ (t ≡ numeric_type)
IsExact-cases decimal_type e = inl refl
IsExact-cases numeric_type e = inr refl
IsExact-cases _ e = absurd e

-- Under optimal numbers, the digits of an exact number without a sign and a point, padded with blanks,
-- become an integer where 64 bits can hold it and fewer than 20 digits are sent, and a number with these
-- digits otherwise.
pub value_of-exact :
    (build : Build) (conn : Connection) (multi : Bool) (d : Datafmt) (s : Bytes) (k : ℕ)
    → IsExact d.datatype
    → conn.numeric_support ≡ num_optimal
    → IsDigits s
    → value_of build conn (describe_column build multi d) (text_cell (s ++ spaces k))
      ≡ decoded (exact_value s)
unfolding describe_column is_number need_trim
value_of-exact build conn multi d s k ex opt h = elim (IsExact-cases d.datatype ex) [
  | inl e ↦
      exact_column build conn (describe_column build multi d) s k opt h (rw e refl) (rw e refl)
        (rw e refl)
  | inr e ↦
      exact_column build conn (describe_column build multi d) s k opt h (rw e refl) (rw e refl)
        (rw e refl)
]
