-- ===== src/Command/Params/Expected.antt =====
-- A description of the parameters that `set_params` of src/command.cpp has to hand to the library, written
-- down for itself, and the proof that an argument is bound in this way.
use module_sybase.Base.{
  ℕ, zero, suc, ◌==◌, ◌+◌, ℤ, pos, negsuc, Bytes, Option, none, some, List, [], ◌∷◌, ◌++◌, true,
  false, if◌then◌else◌, length, text, decimal, ◌≡◌, inl, inr, refl, arith, ap, Bool-cases, ltb_ℤ,
  Bool,
}
use module_sybase.Build.{Build}
use module_sybase.Conversions.{DateTime, Encoded, encoded, refused, date_time_to_datetime}
use module_sybase.Ct.{
  Param, CsType, char_type, datetime_type, bigint_type, int_type, float_type, binary_type, Format,
  fmt_nullterm, fmt_unused,
}
use module_sybase.Effect.{Connection}
use module_sybase.Command.Arguments.{
  Arg, arg_null, arg_string, arg_unconverted, arg_number, arg_date, arg_int, arg_bool, arg_float,
  arg_binary, arg_hash, arg_other, QoreTm, date_text, int_param,
}
use module_sybase.Command.Convert.{get_tz}
use module_sybase.Command.Convert.Integers.{write_le, pattern_of}
use module_sybase.Command.Params.{bind, bind_arg, arg_at, datetime_bind}

-- A value of this type, in this format, with room for so many bytes.
unfoldable pub described : Bytes → CsType → Option Format → Option ℕ → Bytes → Option Param
described name t f max bytes = some (record {
  name = name;
  datatype = some t;
  format = f;
  maxlength = max;
  value = some bytes;
  is_null = false;
})

-- The parameter for an argument of each kind, if there is one: NULL, texts, numbers as texts, 64-bit
-- integers (32-bit integers and floats for a library without them), a Boolean as the number 0 or 1,
-- floats and binaries.
pub null_expected : Bool → Bytes → Option Param
null_expected true name = some (record {
  name = name;
  datatype = some char_type;
  format = some fmt_nullterm;
  maxlength = some 1;
  value = none;
  is_null = true;
})
null_expected false name = some (record {
  name = name;
  datatype = none;
  format = none;
  maxlength = none;
  value = none;
  is_null = true;
})

pub date_expected : Bytes → Encoded → Option Param
date_expected name (encoded d) =
    described name datetime_type none none
      (write_le 4 (pattern_of 32 d.dtdays) ++ write_le 4 (pattern_of 32 d.dttime))
date_expected name (refused e) = none

unfoldable pub int_expected : Build → Bytes → ℤ → Option Param
int_expected build name n =
    if build.has_bigint
    then described name bigint_type none none (write_le 8 (pattern_of 64 n))
    else if ltb_ℤ (pos 2147483647) n
    then described name float_type none none (write_le 8 (build.int_to_float n))
    else if ltb_ℤ n (negsuc 2147483646)
    then described name float_type none none (write_le 8 (build.int_to_float n))
    else described name int_type none none (write_le 4 (pattern_of 32 n))

some_inj : {a b : Param} → some a ≡ some b → a ≡ b
some_inj h = cc

module _ (build : Build) (get_info : ℕ → DateTime → QoreTm) (conn : Connection) where
  unfoldable pub arg_expected : Bytes → Arg → Option Param
  arg_expected name arg_null = null_expected build.freetds name
  arg_expected name (arg_string t) = described name char_type (some fmt_unused) (some (length t)) t
  arg_expected name (arg_unconverted e) = none
  arg_expected name (arg_number t) =
      described name char_type (some fmt_nullterm) (some (length t + 1)) t
  arg_expected name (arg_date d) =
      if conn.optimized_date_binds
      then (let t = date_text (get_info (get_tz build conn) d) in
          described name char_type (some fmt_unused) (some (length t)) t)
      else date_expected name (date_time_to_datetime build d)
  arg_expected name (arg_int n) = int_expected build name n
  arg_expected name (arg_bool true) =
      described name int_type none none (1 ∷ 0 ∷ 0 ∷ 0 ∷ 0 ∷ 0 ∷ 0 ∷ 0 ∷ [])
  arg_expected name (arg_bool false) =
      described name int_type none none (0 ∷ 0 ∷ 0 ∷ 0 ∷ 0 ∷ 0 ∷ 0 ∷ 0 ∷ [])
  arg_expected name (arg_float f) = described name float_type none none (write_le 8 f)
  arg_expected name (arg_binary b) = described name binary_type none (some (length b)) b
  arg_expected name (arg_hash t v n) = none
  arg_expected name (arg_other t) = none

  date_expected-bind :
      (name : Bytes) (e : Encoded) (p : Param)
      → date_expected name e ≡ some p
      → datetime_bind name e ≡ bind p
  unfolding date_expected described
  date_expected-bind name (encoded d) p h = ap bind (ground arith)
  date_expected-bind name (refused x) p h = absurd (ground arith)

  int_expected-bind :
      (name : Bytes) (n : ℤ) (p : Param)
      → int_expected build name n ≡ some p
      → bind (int_param build name n) ≡ bind p
  unfolding int_expected described int_param
  int_expected-bind name n p h = ap bind (ground arith)

  pub arg_expected-bind :
      (name : Bytes) (a : Arg) (p : Param)
      → arg_expected name a ≡ some p
      → bind_arg build get_info conn name a ≡ bind p
  unfolding arg_expected described null_expected bind_arg write_le
  arg_expected-bind name arg_null p h = elim (Bool-cases build.freetds) [
    | inl k ↦ rw k (ap bind (ground (arith, rw k at h)))
    | inr k ↦ rw k (ap bind (ground (arith, rw k at h)))
  ]
  arg_expected-bind name (arg_string t) p h = ap bind (ground arith)
  arg_expected-bind name (arg_unconverted e) p h = absurd (ground arith)
  arg_expected-bind name (arg_number t) p h = ap bind (ground arith)
  arg_expected-bind name (arg_date d) p h = elim (Bool-cases conn.optimized_date_binds) [
    | inl k ↦ rw k (ap bind (ground (arith, rw k at h)))
    | inr k ↦ rw k (date_expected-bind name (date_time_to_datetime build d) p (rw k at h))
  ]
  arg_expected-bind name (arg_int n) p h = int_expected-bind name n p h
  arg_expected-bind name (arg_bool true) p h = ap bind (some_inj h)
  arg_expected-bind name (arg_bool false) p h = ap bind (some_inj h)
  arg_expected-bind name (arg_float f) p h = ap bind (ground arith)
  arg_expected-bind name (arg_binary b) p h = ap bind (ground arith)
  arg_expected-bind name (arg_hash t v n) p h = absurd (ground arith)
  arg_expected-bind name (arg_other t) p h = absurd (ground arith)

-- The argument number `i`, where NULL stands for what is missing.
unfoldable pub nth : List Arg → ℕ → Arg
nth [] i = arg_null
nth (a ∷ l) zero = a
nth (a ∷ l) (suc i) = nth l i

unfoldable pub argument : Option (List Arg) → ℕ → Arg
argument none i = arg_null
argument (some l) i = nth l i

arg_at-nth : (l : List Arg) (i : ℕ) → arg_at (some l) i ≡ nth l i
unfolding arg_at nth
arg_at-nth [] i = refl
arg_at-nth (a ∷ l) zero = refl
arg_at-nth (a ∷ l) (suc i) = arg_at-nth l i

pub arg_at-argument : (args : Option (List Arg)) (i : ℕ) → arg_at args i ≡ argument args i
unfolding argument
arg_at-argument none i = unfold arg_at in refl
arg_at-argument (some l) i = arg_at-nth l i

unfoldable pub joined : Option Param → Option (List Param) → Option (List Param)
joined none r = none
joined (some p) none = none
joined (some p) (some ps) = some (p ∷ ps)

pub joined-cases :
    (o : Option Param) (r : Option (List Param)) (ps : List Param)
    → joined o r ≡ some ps
    → (p : Param) × (qs : List Param) × (ps ≡ p ∷ qs) × (o ≡ some p) × (r ≡ some qs)
unfolding joined
joined-cases none r ps e = absurd (ground arith)
joined-cases (some p) none ps e = absurd (ground arith)
joined-cases (some p) (some qs) ps e = (p, qs, ground arith, refl, refl)

module _ (build : Build) (get_info : ℕ → DateTime → QoreTm) (conn : Connection) where
  -- The parameters for what stands in a query from number `i` on: one for each `%v`, named after its
  -- number among all `%v`, `%d` and `%s`, from 1 on.
  unfoldable pub expected : List ℕ → Option (List Arg) → ℕ → Option (List Param)
  expected [] args i = some []
  expected (k ∷ ks) args i =
      let rest = expected ks args (suc i) in
      if k == b'd'
      then rest
      else joined
          (arg_expected build get_info conn (text "@par" ++ decimal (suc i)) (argument args i)) rest
