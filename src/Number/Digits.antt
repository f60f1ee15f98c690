-- ===== src/Number/Digits.antt =====
-- Runs of digits: the number that they stand for, its bounds, and the order of such texts.
use module_sybase.Base.{
  ℕ, zero, suc, ◌+◌, ◌-◌, ◌*◌, ◌^◌, ◌<◌, ◌≤◌, ◌≡◌, refl, ◌∷◌, ◌++◌, true, [], ltb, leb, length,
  Bytes, is_digit, All, arith, Bool-cases, inl, inr, ap, ◌∙◌, sym, digits, decimal, digit, ◌/◌, ◌%◌,
}
use native.Mathlib.Nat.{pow-suc}
use module_sybase.Number.{read_digits, le_text}

abbrev pub IsDigits : Bytes → Type 0
IsDigits = All (λ c. is_digit c ≡ true)

pub read_digits-lt :
    (n m : ℕ) (a b : Bytes)
    → IsDigits a
    → IsDigits b
    → length a ≡ length b
    → n < m
    → read_digits n a < read_digits m b
unfolding read_digits
read_digits-lt n m [] [] h k e l = l
read_digits-lt n m [] (y ∷ b) h k e l = absurd (omega arith)
read_digits-lt n m (x ∷ a) [] h k e l = absurd (omega arith)
read_digits-lt n m (x ∷ a) (y ∷ b) h k e l =
    ground (arith, read_digits-lt (n * 10 + (x - b'0')) (m * 10 + (y - b'0')) a b)

-- Texts of digits that are equally long are in order where their numbers are.
pub le_text-read_digits :
    (n : ℕ) (a b : Bytes)
    → IsDigits a
    → IsDigits b
    → length a ≡ length b
    → le_text a b ≡ leb (read_digits n a) (read_digits n b)
unfolding le_text read_digits
le_text-read_digits n [] [] h k e = ground arith
le_text-read_digits n [] (y ∷ b) h k e = absurd (omega arith)
le_text-read_digits n (x ∷ a) [] h k e = absurd (omega arith)
le_text-read_digits n (x ∷ a) (y ∷ b) h k e = ground (
  arith,
  le_text-read_digits (n * 10 + (x - b'0')) a b,
  read_digits-lt (n * 10 + (x - b'0')) (n * 10 + (y - b'0')) a b,
  read_digits-lt (n * 10 + (y - b'0')) (n * 10 + (x - b'0')) b a,
)

pow_pos : (k : ℕ) → 0 < 10 ^ k
pow_pos zero = omega arith
pow_pos (suc k) = rw pow-suc (omega (arith, pow_pos k))

nine_times : (d p : ℕ) → d ≤ 9 → d * p ≤ 9 * p
nine_times d p h = grind arith

pub read_digits-bound :
    (k n : ℕ) (s : Bytes) → IsDigits s → length s ≤ k → read_digits n s + 1 ≤ (n + 1) * 10 ^ k
unfolding read_digits
read_digits-bound k n [] h l = grind (arith, pow_pos k)
read_digits-bound zero n (c ∷ s) h l = absurd (omega arith)
read_digits-bound (suc k) n (c ∷ s) h l =
    let rest = read_digits-bound k (n * 10 + (c - b'0')) s h.1 (omega arith) in
    let le = nine_times (c - b'0') (10 ^ k) (ground arith) in rw (pow-suc, h.0) (omega arith)

-- Zeros behind a run of digits multiply its number.
abbrev pub zeros : ℕ → Bytes
zeros zero = []
zeros (suc k) = b'0' ∷ zeros k

pub read_digits-append :
    (n : ℕ) (s t : Bytes) → IsDigits s → read_digits n (s ++ t) ≡ read_digits (read_digits n s) t
unfolding read_digits
read_digits-append n [] t h = refl
read_digits-append n (c ∷ s) t h = ground (arith, read_digits-append (n * 10 + (c - b'0')) s t)

pub read_digits-zeros : (n k : ℕ) → read_digits n (zeros k) ≡ n * 10 ^ k
unfolding read_digits
read_digits-zeros n zero = omega arith
read_digits-zeros n (suc k) = rw pow-suc (omega (arith, read_digits-zeros (n * 10 + 0) k))

read_digits-digits :
    (f n : ℕ) (out : Bytes) → n ≤ f → read_digits 0 (digits f n out) ≡ read_digits n out
unfolding read_digits digits
read_digits-digits zero n out h = ground arith
read_digits-digits (suc f) n out h = elim (Bool-cases (ltb n 10)) [
  | inl e ↦ ground arith
  | inr e ↦
      rw e (read_digits-digits f (n / 10) (digit (n % 10) ∷ out) (ground arith) ∙ ground arith)
]

-- A number that is printed is read back.
pub read_digits-decimal : (n : ℕ) → read_digits 0 (decimal n) ≡ n
unfolding decimal read_digits
read_digits-decimal n = read_digits-digits n n [] (omega arith)

pub decimal-injective : (n m : ℕ) → decimal n ≡ decimal m → n ≡ m
decimal-injective n m e = sym (read_digits-decimal n) ∙ ap (read_digits 0) e ∙ read_digits-decimal m
