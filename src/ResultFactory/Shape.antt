-- ===== src/ResultFactory/Shape.antt =====
-- The shape of the value that `res` puts together.
use module_sybase.Base.{
  ℕ, zero, suc, ◌++◌, ◌+◌, ◌≤◌, true, false, ◌||◌, ◌≡◌, refl, ap, ◌∙◌, List, [], ◌∷◌, text, decimal,
  eq_text, eq_text→eq, arith, Bool-cases, inl, inr, sym, get_elem?, eq_text_refl,
}
use native.Mathlib.Nat.{add-zero, zero-add}
use module_sybase.Value.{set_key, nothing, Value, hash, Fields, end, field, get_key, has_key}
use module_sybase.Value.Keys.{append, append-end, set_key_new, append_assoc, has_key-append}
use module_sybase.Number.Digits.{decimal-injective}
use module_sybase.ResultFactory.{ResultFactory, combine, res, keygen, to_hash, release_smart}

keygen-injective : (i j : ℕ) → eq_text (keygen i) (keygen j) ≡ true → i ≡ j
unfolding keygen text
keygen-injective i j e =
    decimal-injective i j (eq_text→eq (decimal i) (decimal j) (unfold eq_text in ground arith))

-- The values under the keys query0, query1 and so on.
unfoldable pub numbered : ℕ → List Value → Fields
numbered i [] = end
numbered i (v ∷ l) = field (keygen i) v (numbered (suc i) l)

-- The hash has no key from number `i` on.
abbrev Below : Fields → ℕ → Type 0
Below h i = (j : ℕ) → i ≤ j → has_key h (keygen j) ≡ false

to_hash-numbered :
    (h : Fields) (i : ℕ) (l : List Value) → Below h i → to_hash h i l ≡ append h (numbered i l)
unfolding to_hash numbered append
to_hash-numbered h i [] b = sym (append-end h)
to_hash-numbered h i (v ∷ l) b =
    let h' = append h (field (keygen i) v end) in
    let b' : Below h' (suc i) = λ j k.
      has_key-append h (field (keygen i) v end) (keygen j)
      ∙ rw (b j (omega arith)) (unfold has_key in new_key j k) in
    rw (set_key_new h (keygen i) v (b i (omega arith))) (
      to_hash-numbered h' (suc i) l b'
      ∙ append_assoc h (field (keygen i) v end) (numbered (suc i) l))
  where
    new_key : (j : ℕ) → suc i ≤ j → (eq_text (keygen i) (keygen j) || false) ≡ false
    new_key j k = elim (Bool-cases (eq_text (keygen i) (keygen j))) [
      | inl e ↦ absurd (omega (arith, keygen-injective i j e))
      | inr e ↦ rw e
    ]

get_key-numbered :
    (i j : ℕ) (l : List Value) → get_key (numbered i l) (keygen (i + j)) ≡ get_elem? l j
unfolding numbered get_key
get_key-numbered i j [] = refl
get_key-numbered i zero (v ∷ l) = rw add-zero (rw eq_text_refl)
get_key-numbered i (suc j) (v ∷ l) = elim (Bool-cases (eq_text (keygen i) (keygen (i + suc j)))) [
  | inl e ↦ absurd (omega (arith, keygen-injective i (i + suc j) e))
  | inr e ↦ rw e (rw (shift i j) (get_key-numbered (suc i) j l))
]
  where
    shift : (i j : ℕ) → i + suc j ≡ suc i + j
    shift i j = omega arith

-- Two or more results are returned in a hash: the result number `j` is found under the key query`j`,
-- and no other key of that form is there.
pub release_smart-get_key :
    (v w : Value) (l : List Value)
    → (h : Fields) × (release_smart (v ∷ w ∷ l) ≡ hash h)
      × ((j : ℕ) → get_key h (keygen j) ≡ get_elem? (v ∷ w ∷ l) j)
unfolding release_smart
release_smart-get_key v w l =
    let r = v ∷ w ∷ l in
    (
      numbered 0 r,
      ap hash (to_hash-numbered end 0 r (unfold has_key in λ j k. refl) ∙ (unfold append in refl)),
      λ j.
          ap (λ (k : ℕ). get_key (numbered 0 r) (keygen k)) (sym (zero-add j))
          ∙ get_key-numbered 0 j r,
    )

-- The values of a list in a hash, under the keys query0, query1 and so on.
pub keyed : ℕ → List Value → Fields
keyed i [] = end
keyed i (v ∷ l) = field (text "query" ++ decimal i) v (keyed (suc i) l)

-- No value is nothing, one stands for itself, and more are a hash.
pub collected : List Value → Value
collected [] = nothing
collected (v ∷ []) = v
collected (v ∷ w ∷ l) = hash (keyed 0 (v ∷ w ∷ l))

-- Output parameters alone or other results alone, or both in a hash.
pub assembled : List Value → List Value → Value
assembled [] rs = collected rs
assembled (p ∷ ps) [] = collected (p ∷ ps)
assembled (p ∷ ps) (r ∷ rs) =
    hash
      (field (text "query") (collected (r ∷ rs)) (field (text "params") (collected (p ∷ ps)) end))

numbered-keyed : (i : ℕ) (l : List Value) → numbered i l ≡ keyed i l
unfolding numbered keyed keygen
numbered-keyed i [] = refl
numbered-keyed i (v ∷ l) = ap (field (text "query" ++ decimal i) v) (numbered-keyed (suc i) l)

release_smart-collected : (l : List Value) → release_smart l ≡ collected l
unfolding release_smart collected
release_smart-collected [] = refl
release_smart-collected (v ∷ []) = refl
release_smart-collected (v ∷ w ∷ l) = ap hash (
    to_hash-numbered end 0 (v ∷ w ∷ l) (unfold has_key in λ j k. refl)
    ∙ (unfold append in numbered-keyed 0 (v ∷ w ∷ l)))

query_and_params :
    (r p : Value)
    → set_key (set_key end (text "query") r) (text "params") p
      ≡ field (text "query") r (field (text "params") p end)
unfolding set_key text eq_text
query_and_params r p = refl

pub res-assembled : (rf : ResultFactory) → res rf ≡ assembled rf.params rf.reslist
unfolding res combine assembled
res-assembled rf = by_lists rf.params rf.reslist
  where
    by_lists : (ps rs : List Value) → combine ps rs ≡ assembled ps rs
    by_lists [] rs = release_smart-collected rs
    by_lists (p ∷ ps) [] = release_smart-collected (p ∷ ps)
    by_lists (p ∷ ps) (r ∷ rs) =
        ap hash (query_and_params (release_smart (r ∷ rs)) (release_smart (p ∷ ps)))
        ∙ rw (release_smart-collected (r ∷ rs), release_smart-collected (p ∷ ps)) refl
