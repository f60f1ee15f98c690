-- ===== src/Command/Names/Free.antt =====
-- A free name is found: the candidates differ, and there are more of them than keys.
use module_sybase.Base.{
  ℕ, zero, suc, ◌≤◌, ◌<◌, Bytes, none, some, [], ◌∷◌, ◌++◌, true, false, if◌then◌else◌, ◌≡◌, ◌⊎◌,
  refl, arith, ◌∙◌, Bool-cases, inl, inr, eq_text, eq_text→eq, decimal, Option-cases,
}
use module_sybase.Number.Digits.{decimal-injective}
use module_sybase.Value.{Fields, end, field, has_key}
use module_sybase.Command.Names.{candidate, find_free, free_name, size}

append-cancel : (a b c : Bytes) → a ++ b ≡ a ++ c → b ≡ c
append-cancel [] b c e = e
append-cancel (x ∷ a) b c e = append-cancel a b c (cc)

candidate-injective : (n : Bytes) (i j : ℕ) → eq_text (candidate n i) (candidate n j) ≡ true → i ≡ j
unfolding candidate
candidate-injective n i j e =
    decimal-injective i j
      (tail_eq (append-cancel n (b'_' ∷ decimal i) (b'_' ∷ decimal j) (eq_text→eq _ _ e)))
  where
    tail_eq : {a b : Bytes} → b'_' ∷ a ≡ b'_' ∷ b → a ≡ b
    tail_eq k = cc

-- A hash without the first field that has the key.
erase : Fields → Bytes → Fields
erase end k = end
erase (field j v h) k = if eq_text j k then h else field j v (erase h k)

size-erase : (h : Fields) (k : Bytes) → has_key h k ≡ true → size h ≡ suc (size (erase h k))
unfolding erase has_key
size-erase end k e = cc
size-erase (field j v h) k e = ground (arith, size-erase h k)

has_key-erase :
    (h : Fields) (k j : Bytes) → eq_text k j ≡ false → has_key (erase h k) j ≡ has_key h j
unfolding erase has_key
has_key-erase end k j e = refl
has_key-erase (field i v h) k j e = ground (arith, has_key-erase h k j, eq_text→eq i k)

find_free-erase :
    (f : ℕ) (h : Fields) (n : Bytes) (i num : ℕ)
    → i < num
    → find_free f (erase h (candidate n i)) n num ≡ find_free f h n num
unfolding find_free
find_free-erase zero h n i num l = refl
find_free-erase (suc f) h n i num l =
    let other = has_key-erase h (candidate n i) (candidate n num) differ in
    ground (arith, other, find_free-erase f h n i (suc num))
  where
    differ : eq_text (candidate n i) (candidate n num) ≡ false
    differ = elim (Bool-cases (eq_text (candidate n i) (candidate n num))) [
      | inl e ↦ absurd (omega (arith, candidate-injective n i num e, l))
      | inr e ↦ e
    ]

-- The loop runs out of fuel only where the hash has as many keys as there was fuel.
find_free-size :
    (f : ℕ) (h : Fields) (n : Bytes) (num : ℕ) → find_free f h n num ≡ none → f ≤ size h
unfolding find_free
find_free-size zero h n num e = omega arith
find_free-size (suc f) h n num e = elim (Bool-cases (has_key h (candidate n num))) [
  | inl k ↦
      let rest =
        find_free-size f (erase h (candidate n num)) n (suc num)
          (find_free-erase f h n num (suc num) (omega arith) ∙ (rw k at e)) in
      omega (arith, rest, size-erase h (candidate n num) k)
  | inr k ↦ absurd (ground arith)
]

-- A key that the loop gives is a candidate, and is free.
find_free_sound :
    (f : ℕ) (h : Fields) (n : Bytes) (num : ℕ) (k : Bytes)
    → find_free f h n num ≡ some k
    → (has_key h k ≡ false) × (i : ℕ) × (k ≡ candidate n i)
unfolding find_free
find_free_sound zero h n num k e = absurd (ground arith)
find_free_sound (suc f) h n num k e = elim (Bool-cases (has_key h (candidate n num))) [
  | inl b ↦ find_free_sound f h n (suc num) k (rw b at e)
  | inr b ↦ let same : k ≡ candidate n num = ground arith in (rw (same, b) refl, num, same)
]

-- For every hash and name the search gives a name that the hash does not have, which is the name
-- itself or the name with a number behind it.
pub free_name_total :
    (h : Fields) (n : Bytes)
    → (k : Bytes) × (free_name h n ≡ some k)
      × (has_key h k ≡ false)
      × ((k ≡ n) ⊎ ((i : ℕ) × (k ≡ candidate n i)))
unfolding free_name
free_name_total h n = elim (Bool-cases (has_key h n)) [
  | inr b ↦ (n, rw b refl, b, inl refl)
  | inl b ↦ elim (Option-cases (find_free (suc (size h)) h n 1)) [
    | inl e ↦ absurd (omega (arith, find_free-size (suc (size h)) h n 1 e))
    | inr (k, e) ↦
        let (free, i, same) = find_free_sound (suc (size h)) h n 1 k e in
        (k, rw (b, e) refl, free, inr (i, same))
  ]
]
