-- ===== src/Statements/Fetch/Counted.antt =====
-- The rows that `fetch_rows` of src/statement.h takes, and the count that its loop keeps.
use module_sybase.Base.{
  ℕ, zero, suc, ℤ, pos, negsuc, ltb_ℤ, ◌-ℤ◌, Option, none, some, List, [], ◌∷◌, ◌++◌, map, take,
  Bool, true, false, ◌&&◌, ◌≡◌, refl, arith, ap, ◌∙◌, if◌then◌else◌, sym,
}
use module_sybase.Value.{hash, Items, Fields, push, items_of}
use module_sybase.Command.Rows.Loop.{push-items_of, map-append}

-- The rows of the list that are taken: all of them if the number asked for is not positive, and one
-- more than are still to be counted down otherwise.
pub counted : Bool → ℤ → List Fields → List Fields
counted false n gs = gs
counted true (pos n) gs = take (suc n) gs
counted true (negsuc n) gs = []

-- The row that has been fetched.
pub at_hand : Option Fields → List Fields
at_hand none = []
at_hand (some g) = g ∷ []

-- As many rows as are asked for, or all.
pub further : ℤ → List Fields → List Fields
further (pos zero) gs = gs
further (pos (suc n)) gs = take (suc n) gs
further (negsuc n) gs = gs

abbrev pub items : List Fields → Items
items gs = items_of (map hash gs)

pub push-items : (l : List Fields) (g : Fields) → push (items l) (hash g) ≡ items (l ++ g ∷ [])
push-items l g = push-items_of (map hash l) (hash g) ∙ ap items_of (sym (map-append l (g ∷ [])))

pub counted_stop :
    (b : Bool) (n : ℤ) (gs : List Fields) → (b && ltb_ℤ n (pos 0)) ≡ true → counted b n gs ≡ []
unfolding counted
counted_stop false n gs e = absurd (ground (arith, e))
counted_stop true (pos n) gs e = absurd (ground (arith, e))
counted_stop true (negsuc n) gs e = refl

less_one : (n : ℕ) → pos (suc n) -ℤ pos 1 ≡ pos n
unfolding ◌-ℤ◌
less_one n = ground arith

pub counted_more :
    (b : Bool) (n : ℤ) (g : Fields) (gs : List Fields)
    → (b && ltb_ℤ n (pos 0)) ≡ false
    → counted b n (g ∷ gs) ≡ g ∷ counted b (if b then n -ℤ pos 1 else n) gs
unfolding counted ◌-ℤ◌
counted_more false n g gs e = refl
counted_more true (pos zero) g gs e = refl
counted_more true (pos (suc n)) g gs e = ap (λ m. g ∷ counted true m gs) (sym (less_one n))
counted_more true (negsuc n) g gs e = absurd (ground (arith, e))

-- No row is left.
pub counted_nil : (b : Bool) (n : ℤ) → counted b n [] ≡ []
unfolding counted
counted_nil false n = refl
counted_nil true (pos n) = refl
counted_nil true (negsuc n) = refl

positive : (n : ℕ) → ltb_ℤ (pos 0) (pos (suc n)) ≡ true
positive n = ground arith

negative : (n : ℕ) → ltb_ℤ (pos 0) (negsuc n) ≡ false
negative n = ground arith

-- What the loop takes from its start on.
pub counted-at_hand :
    (r : ℤ) (g : Fields) (gs : List Fields)
    → counted (ltb_ℤ (pos 0) r) r (g ∷ gs) ≡ at_hand (some g) ++ further r gs
unfolding counted at_hand further
counted-at_hand (pos zero) g gs = refl
counted-at_hand (pos (suc n)) g gs = rw (positive n) refl
counted-at_hand (negsuc n) g gs = rw (negative n) refl

pub counted-further :
    (r : ℤ) (gs : List Fields)
    → counted (ltb_ℤ (pos 0) r) (if ltb_ℤ (pos 0) r then r -ℤ pos 1 else r) gs
      ≡ at_hand none ++ further r gs
unfolding counted at_hand further
counted-further (pos zero) gs = refl
counted-further (pos (suc n)) gs = rw (positive n) (ap (λ m. counted true m gs) (less_one n))
counted-further (negsuc n) gs = rw (negative n) refl

pub start_goes : (r : ℤ) → (ltb_ℤ (pos 0) r && ltb_ℤ r (pos 0)) ≡ false
start_goes (pos zero) = refl
start_goes (pos (suc n)) = ground arith
start_goes (negsuc n) = ground arith
