-- ===== src/Command/Convert/Integers.antt =====
-- The integers of a column: what the server sends in two's complement is read back.
use module_sybase.Base.{
  ℕ, zero, suc, ◌+◌, ◌-◌, ◌*◌, ◌/◌, ◌%◌, ◌^◌, ◌<◌, ◌≤◌, ℤ, pos, negsuc, pos_part, neg_part, eq_ℤ,
  Bytes, [], ◌∷◌, ◌++◌, Bool, true, false, ◌≡◌, refl, arith, ap, ◌∙◌,
}
use module_sybase.Build.{Build}
use module_sybase.Ct.{CsType, smallint_type, int_type, bigint_type, Datafmt, Cell}
use module_sybase.Effect.{Connection}
use module_sybase.Value.{int}
use module_sybase.Command.Describe.{by_type, describe_column}
use module_sybase.Command.Convert.{decoded, value_of, convert, read_le, signed}

-- The `n` bytes of a number, the lowest first.
unfoldable pub write_le : ℕ → ℕ → Bytes
write_le zero a = []
write_le (suc n) a = a % 256 ∷ write_le n (a / 256)

pub read_le-write_le : (n a : ℕ) (b : Bytes) → a < 256 ^ n → read_le n (write_le n a ++ b) ≡ a
unfolding read_le write_le
read_le-write_le zero a b h = omega (arith, h)
read_le-write_le (suc n) a b h =
    let lower : a / 256 < 256 ^ n = omega (arith, h) in
    omega (arith, read_le-write_le n (a / 256) b lower)

-- The bit pattern of a number in two's complement.
unfoldable pub pattern_of : ℕ → ℤ → ℕ
pattern_of w z = (pos_part z + (2 ^ w - neg_part z)) % 2 ^ w

-- The number has `w` bits.
abbrev pub IsInRange : ℕ → ℤ → Type 0
IsInRange w z = (pos_part z < 2 ^ (w - 1)) × (neg_part z ≤ 2 ^ (w - 1))

signed-pattern16 : (z : ℤ) → IsInRange 16 z → signed 16 (pattern_of 16 z) ≡ z
unfolding signed pattern_of
signed-pattern16 (pos n) h = ground (arith, h)
signed-pattern16 (negsuc n) h = ground (arith, h)

signed-pattern32 : (z : ℤ) → IsInRange 32 z → signed 32 (pattern_of 32 z) ≡ z
unfolding signed pattern_of
signed-pattern32 (pos n) h = ground (arith, h)
signed-pattern32 (negsuc n) h = ground (arith, h)

signed-pattern64 : (z : ℤ) → IsInRange 64 z → signed 64 (pattern_of 64 z) ≡ z
unfolding signed pattern_of
signed-pattern64 (pos n) h = ground (arith, h)
signed-pattern64 (negsuc n) h = ground (arith, h)

pattern-lt :
    (z : ℤ)
    → (pattern_of 16 z < 256 ^ 2) × (pattern_of 32 z < 256 ^ 4) × (pattern_of 64 z < 256 ^ 8)
unfolding pattern_of
pattern-lt z = (omega arith, omega arith, omega arith)

-- The bytes of a signed type, and whether the driver is compiled with it.
abbrev pub int_bytes : CsType → ℕ
int_bytes smallint_type = 2
int_bytes int_type = 4
int_bytes bigint_type = 8
int_bytes _ = 0

abbrev pub IsInt : Build → CsType → Type 0
IsInt build smallint_type = Unit
IsInt build int_type = Unit
IsInt build bigint_type = build.has_bigint ≡ true
IsInt build _ = ⊥

convert-int :
    (build : Build) (conn : Connection) (d : Datafmt) (c : Cell) (t : CsType) (z : ℤ) (rest : Bytes)
    → IsInt build t
    → IsInRange (8 * int_bytes t) z
    → c.value ≡ write_le (int_bytes t) (pattern_of (8 * int_bytes t) z) ++ rest
    → convert build conn d c t ≡ decoded (int z)
unfolding convert
convert-int build conn d c smallint_type z rest i h e =
    ap (λ n. decoded (int (signed 16 n)))
      (ap (read_le 2) e ∙ read_le-write_le 2 _ rest ((pattern-lt z).0))
    ∙ ap (λ n. decoded (int n)) (signed-pattern16 z h)
convert-int build conn d c int_type z rest i h e =
    ap (λ n. decoded (int (signed 32 n)))
      (ap (read_le 4) e ∙ read_le-write_le 4 _ rest ((pattern-lt z).1))
    ∙ ap (λ n. decoded (int n)) (signed-pattern32 z h)
convert-int build conn d c bigint_type z rest i h e = rw i (
    ap (λ n. decoded (int (signed 64 n)))
      (ap (read_le 8) e ∙ read_le-write_le 8 _ rest ((pattern-lt z).2))
    ∙ ap (λ n. decoded (int n)) (signed-pattern64 z h))
convert-int build conn d c _ z rest i h e = absurd i

by_type-int :
    (build : Build) (multi : Bool) (d : Datafmt) (t : CsType)
    → IsInt build t
    → (by_type build multi d t).datatype ≡ d.datatype
unfolding by_type
by_type-int build multi d smallint_type i = refl
by_type-int build multi d int_type i = refl
by_type-int build multi d bigint_type i = refl
by_type-int build multi d _ i = absurd i

describe-int :
    (build : Build) (multi : Bool) (d : Datafmt)
    → IsInt build d.datatype
    → (describe_column build multi d).datatype ≡ d.datatype
unfolding describe_column
describe-int build multi d i =
    by_type-int build multi (record d { count = 1; origin_datatype = d.datatype }) d.datatype i

-- A SMALLINT, INT or BIGINT column that is not NULL has the value that the server has sent in two's
-- complement, the lowest byte first.
pub value_of-int :
    (build : Build) (conn : Connection) (multi : Bool) (d : Datafmt) (c : Cell) (z : ℤ)
    (rest : Bytes)
    → IsInt build d.datatype
    → eq_ℤ c.indicator (negsuc 0) ≡ false
    → IsInRange (8 * int_bytes d.datatype) z
    → c.value ≡ write_le (int_bytes d.datatype) (pattern_of (8 * int_bytes d.datatype) z) ++ rest
    → value_of build conn (describe_column build multi d) c ≡ decoded (int z)
unfolding value_of
value_of-int build conn multi d c z rest i n h e = rw n (
    ap (convert build conn (describe_column build multi d) c) (describe-int build multi d i)
    ∙ convert-int build conn (describe_column build multi d) c d.datatype z rest i h e)
