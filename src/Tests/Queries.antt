-- ===== src/Tests/Queries.antt =====
-- Query texts: the theorems at concrete texts.
use module_sybase.Base.{ℕ, ◌≡◌, ◌≢◌, inl, inr, refl, arith, none, some, List, [], ◌∷◌, text}
use module_sybase.Query.{Query, Dbi, overrun, out_of_fuel, init}
use module_sybase.Query.Spec.{Piece, plain, quoted, value, name, raw}
use module_sybase.Query.Complete.{init_terminates}
use module_sybase.Query.Overrun.{init-overrun}

abbrev dbi : Dbi ℕ
dbi = record { concat_numeric = λ v. text "1"; concat_string = λ v. some (text "x") }

-- `a=%v,:n'%'`
abbrev pieces : List Piece
pieces =
    plain b'a'
    ∷ plain b'='
    ∷ value
    ∷ plain b','
    ∷ name (b'n' ∷ [])
    ∷ quoted b'\'' (raw b'%' ∷ [])
    ∷ []

init_terminates_example : init dbi none (text "select %v where x = :y") ≢ out_of_fuel
init_terminates_example = init_terminates dbi none (text "select %v where x = :y")

abbrev copied : Query
copied = record { m_cmd = b'a' ∷ b'=' ∷ []; param_list = []; placeholders = [] }

-- `a'b`
init-overrun_example : init dbi none (b'a' ∷ b'\'' ∷ b'b' ∷ []) ≡ overrun
init-overrun_example =
    init-overrun dbi none (plain b'a' ∷ []) b'\'' (raw b'b' ∷ []) [] (λ v e. cc)
      ((omega arith, omega arith, omega arith, omega arith, omega arith), tt) (inr refl)
      ((omega arith, omega arith), tt) (inl refl)
