-- ===== src/Tests/Values.antt =====
-- Numbers and results: the theorems at concrete values.
use module_sybase.Base.{
  ℕ, ◌*◌, ◌^◌, ◌≡◌, refl, Bytes, [], ◌∷◌, ◌++◌, if◌then◌else◌, ◌==◌, is_nil, trim_trailing,
}
use module_sybase.Value.{number}
use module_sybase.Number.{num_optimal, get_number, read_digits, trim_zeros}
use module_sybase.Number.Digits.{zeros}
use module_sybase.Number.Trim.{trim_zeros_exact}
use module_sybase.Number.Integers.{get_number_negative}

abbrev nineteen : Bytes
nineteen =
    b'1' ∷ b'0' ∷ b'0' ∷ b'0' ∷ b'0' ∷ b'0' ∷ b'0' ∷ b'0' ∷ b'0' ∷ b'0' ∷ b'0' ∷ b'0' ∷ b'0' ∷ b'0'
    ∷ b'0' ∷ b'0' ∷ b'0' ∷ b'0' ∷ b'0' ∷ []

get_number_negative_example : get_number num_optimal (b'-' ∷ nineteen) ≡ number (b'-' ∷ nineteen)
unfolding read_digits
get_number_negative_example =
    get_number_negative nineteen
      (
        refl,
        (
          refl,
          (
            refl,
            (
              refl,
              (
                refl,
                (
                  refl,
                  (
                    refl,
                    (
                      refl,
                      (
                        refl,
                        (
                          refl,
                          (
                            refl,
                            (refl, (refl, (refl, (refl, (refl, (refl, (refl, (refl, tt)))))))),
                          ),
                        ),
                      ),
                    ),
                  ),
                ),
              ),
            ),
          ),
        ),
      )
      refl

trim_zeros_exact_example :
    (k : ℕ) × (kept : Bytes) × (trim_zeros (b'1' ∷ b'.' ∷ b'5' ∷ b'0' ∷ [])
      ≡ (if is_nil kept then b'1' ∷ [] else b'1' ∷ b'.' ∷ kept))
    × (b'5' ∷ b'0' ∷ [] ≡ kept ++ zeros k)
    × (trim_trailing (λ c. c == b'0') kept ≡ kept)
    × (read_digits 0 (b'1' ∷ b'5' ∷ b'0' ∷ []) ≡ read_digits 0 (b'1' ∷ kept) * 10 ^ k)
trim_zeros_exact_example =
    trim_zeros_exact (b'1' ∷ []) (b'5' ∷ b'0' ∷ []) (refl, tt) (refl, (refl, tt))
