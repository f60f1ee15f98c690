-- ===== src/Number/Trim.antt =====
-- Trimming drops zeros behind the point and nothing else.
use module_sybase.Base.{
  ℕ, suc, ◌*◌, ◌^◌, ◌≡◌, refl, ◌∷◌, ◌++◌, Bool, true, false, [], ◌==◌, if◌then◌else◌, Bytes, All,
  All-append, arith, Bool-cases, inl, inr, ap, ◌∙◌, trim_trailing, trim_cons, is_nil, sym,
  append_assoc,
}
use module_sybase.Number.{read_digits, trim_zeros, drop_point, has_point}
use module_sybase.Number.Digits.{IsDigits, zeros, read_digits-append, read_digits-zeros}

abbrev pub is_zero : ℕ → Bool
is_zero c = c == b'0'

trim_cons-keeps : (c : ℕ) (t : Bytes) → is_zero c ≡ false → trim_cons is_zero c t ≡ c ∷ t
trim_cons-keeps c [] h = rw h
trim_cons-keeps c (d ∷ t) h = refl

trim_cons_cons : (c d : ℕ) (t : Bytes) → trim_cons is_zero c (d ∷ t) ≡ c ∷ d ∷ t
trim_cons_cons c d t = refl

-- A text is trimmed only behind a byte that is no zero.
trim_trailing-append :
    (a t : Bytes) (c : ℕ)
    → is_zero c ≡ false
    → trim_trailing is_zero (a ++ (c ∷ t)) ≡ a ++ (c ∷ trim_trailing is_zero t)
unfolding trim_trailing
trim_trailing-append [] t c h = trim_cons-keeps c (trim_trailing is_zero t) h
trim_trailing-append (x ∷ []) t c h = rw (trim_trailing-append [] t c h)
trim_trailing-append (x ∷ y ∷ a) t c h = rw (trim_trailing-append (y ∷ a) t c h)

-- What is trimmed off is a run of zeros.
abbrev Zeros : Bytes → Type 0
Zeros t = (k : ℕ) × (t ≡ trim_trailing is_zero t ++ zeros k)

trim_trailing-Zeros : (t : Bytes) → Zeros t
unfolding trim_trailing
trim_trailing-Zeros [] = (0, refl)
trim_trailing-Zeros (c ∷ t) = consed (trim_trailing is_zero t) (trim_trailing-Zeros t)
  where
    consed :
        (u : Bytes)
        → (k : ℕ) × (t ≡ u ++ zeros k)
        → (k : ℕ) × (c ∷ t ≡ trim_cons is_zero c u ++ zeros k)
    consed [] (k, e) = elim (Bool-cases (is_zero c)) [
      | inl z ↦ (suc k, rw z (ground arith))
      | inr z ↦ (k, rw z (ap (◌∷◌ c) e))
    ]
    consed (d ∷ u) (k, e) = (k, ap (◌∷◌ c) e)

-- Trimming again changes nothing: no zero is left at the end.
trim_trailing_idem :
    (t : Bytes) → trim_trailing is_zero (trim_trailing is_zero t) ≡ trim_trailing is_zero t
unfolding trim_trailing
trim_trailing_idem [] = refl
trim_trailing_idem (c ∷ t) = consed (trim_trailing is_zero t) (trim_trailing_idem t)
  where
    consed :
        (u : Bytes)
        → trim_trailing is_zero u ≡ u
        → trim_trailing is_zero (trim_cons is_zero c u) ≡ trim_cons is_zero c u
    consed [] e = ground arith
    consed (d ∷ u) e = rw e

abbrev NoPoint : Bytes → Type 0
NoPoint = All (λ c. (c == b'.') ≡ false)

drop_point-NoPoint : (t : Bytes) → NoPoint t → drop_point t ≡ t
unfolding drop_point
drop_point-NoPoint [] h = refl
drop_point-NoPoint (c ∷ []) h = rw h.0
drop_point-NoPoint (c ∷ d ∷ t) h = ap (◌∷◌ c) (drop_point-NoPoint (d ∷ t) h.1)

drop_point-append :
    (a t : Bytes)
    → NoPoint t
    → drop_point (a ++ (b'.' ∷ t)) ≡ (if is_nil t then a else a ++ (b'.' ∷ t))
unfolding drop_point
drop_point-append [] [] h = refl
drop_point-append [] (c ∷ t) h = ap (◌∷◌ b'.') (drop_point-NoPoint (c ∷ t) h)
drop_point-append (x ∷ []) t h = rw (drop_point-append [] t h) (ground arith)
drop_point-append (x ∷ y ∷ a) t h = rw (drop_point-append (y ∷ a) t h) (ground arith)

trim_trailing-NoPoint : (t : Bytes) → IsDigits t → NoPoint (trim_trailing is_zero t)
unfolding trim_trailing
trim_trailing-NoPoint [] h = tt
trim_trailing-NoPoint (c ∷ t) h = consed (trim_trailing is_zero t) (trim_trailing-NoPoint t h.1)
  where
    consed : (u : Bytes) → NoPoint u → NoPoint (trim_cons is_zero c u)
    consed [] w = ground (arith, h.0)
    consed (d ∷ u) w = (ground (arith, h.0), w)

trim_trailing-IsDigits : (t : Bytes) → IsDigits t → IsDigits (trim_trailing is_zero t)
unfolding trim_trailing
trim_trailing-IsDigits [] h = tt
trim_trailing-IsDigits (c ∷ t) h = consed (trim_trailing is_zero t) (trim_trailing-IsDigits t h.1)
  where
    consed : (u : Bytes) → IsDigits u → IsDigits (trim_cons is_zero c u)
    consed [] w = ground (arith, h.0)
    consed (d ∷ u) w = (h.0, w)

has_point-append : (a t : Bytes) → has_point (a ++ (b'.' ∷ t)) ≡ true
has_point-append [] t = refl
has_point-append (c ∷ a) t = ground (arith, has_point-append a t)

-- A decimal text keeps its whole part and loses zeros at the end of its fraction, all of them; the
-- point goes with the last digit of the fraction. So the digits that are left stand for the same
-- number, at the smaller scale.
pub trim_zeros_exact :
    (whole fraction : Bytes)
    → IsDigits whole
    → IsDigits fraction
    → (k : ℕ) × (kept : Bytes) × (trim_zeros (whole ++ (b'.' ∷ fraction))
        ≡ (if is_nil kept then whole else whole ++ (b'.' ∷ kept)))
      × (fraction ≡ kept ++ zeros k)
      × (trim_trailing is_zero kept ≡ kept)
      × (read_digits 0 (whole ++ fraction) ≡ read_digits 0 (whole ++ kept) * 10 ^ k)
unfolding trim_zeros
trim_zeros_exact whole fraction w f =
    let kept = trim_trailing is_zero fraction in
    let (k, splits) = trim_trailing-Zeros fraction in
    let digits_kept = trim_trailing-IsDigits fraction f in
    (
      k,
      kept,
      rw (has_point-append whole fraction, trim_trailing-append whole fraction b'.' refl)
          (drop_point-append whole kept (trim_trailing-NoPoint fraction f)),
      splits,
      trim_trailing_idem fraction,
      ap (λ t. read_digits 0 (whole ++ t)) splits
          ∙ ap (read_digits 0) (sym (append_assoc whole kept (zeros k)))
          ∙ read_digits-append 0 (whole ++ kept) (zeros k) (All-append _ whole kept w digits_kept)
          ∙ read_digits-zeros (read_digits 0 (whole ++ kept)) k,
    )
