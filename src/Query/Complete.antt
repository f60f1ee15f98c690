-- ===== src/Query/Complete.antt =====
-- The scanner always ends, and accepts nothing but texts that consist of pieces.
use module_sybase.Base.{
  ℕ, zero, suc, ◌<◌, ◌≤◌, true, false, Option, none, some, List, [], ◌∷◌, ◌++◌, ◌≡◌, ◌≢◌, ◌⊎◌, inl,
  inr, refl, arith, length, length-append, Bytes, ◌==◌, Bool-cases, Option-cases, ◌∙◌, append_assoc,
  ap, sym, is_nil, ==_iff,
}
use module_sybase.Query.{
  Query, Dbi, Outcome, done, out_of_fuel, Round, stop, go, argument, round, scan, init, new_query,
  skip_quoted, name_of, string_round, quoted_round, percent_round, name_round,
}
use module_sybase.Query.Pieces.{
  skip_quoted-Skipped, name_of-IsName, after_name-Breaks, name_of-after_name, Skipped,
}
use module_sybase.Query.Spec.{
  Piece, plain, quoted, value, numeric, string, name, print_body, print_piece, print, IsPiece,
  IsText, IsEnd,
}
use module_sybase.Query.Translate.{scan_step, scan_stop}

name_of-cases :
    (s : Bytes) → (is_nil (name_of s) ≡ true) ⊎ ((name_of s ≢ []) × (is_nil (name_of s) ≡ false))
name_of-cases s = go_on (name_of s)
  where
    go_on : (n : Bytes) → (is_nil n ≡ true) ⊎ ((n ≢ []) × (is_nil n ≡ false))
    go_on [] = inl refl
    go_on (c ∷ n) = inr (ground arith, refl)

-- A round that goes on has read one piece of the text.
record Reads (c : ℕ) (s s' : Bytes) : Type 0 where
  piece : Piece
  is_piece : IsPiece piece s'
  splits : c ∷ s ≡ print_piece piece ++ s'

-- How a round ends, for a byte `c`.
abbrev Ends : ℕ → Bytes → Round → Type 0
Ends c s (stop r) = r ≢ out_of_fuel × ((q : Query) → r ≢ done q)
Ends c s (go q s') = Reads c s s'

quoted_round-Ends :
    (q : Query) (k : ℕ) (s : Bytes)
    → (k ≡ b'"') ⊎ (k ≡ b'\'')
    → Ends k s (quoted_round q k (skip_quoted k false s))
unfolding quoted_round
quoted_round-Ends q k s e = elim (Option-cases (skip_quoted k false s)) [
  | inl h ↦ rw h (cc, λ _. cc)
  | inr ((p, rest), h) ↦ rw h (
      let w : Skipped k s p rest = skip_quoted-Skipped k s h in
      record {
        piece = quoted k w.body;
        is_piece = (e, w.is_body);
        splits = ap (◌∷◌ k) (w.splits ∙ sym (append_assoc (print_body w.body) (k ∷ []) rest));
      })
]

string_round-Ends :
    (q : Query) (s : Bytes) (t : Option Bytes) → Ends b'%' (b's' ∷ s) (string_round q s t)
unfolding string_round
string_round-Ends q s none = (cc, λ _. cc)
string_round-Ends q s (some t) = record { piece = string; is_piece = tt; splits = refl }

-- A text that has been read to its end is a list of pieces.
pub record Parsed (s : Bytes) : Type 0 where
  pub pieces : List Piece
  pub rest : Bytes
  pub is_text : IsText pieces rest
  pub is_end : IsEnd rest
  pub splits : s ≡ print pieces rest

print_piece-pos : (p : Piece) → 0 < length (print_piece p)
print_piece-pos (plain c) = omega arith
print_piece-pos _ = omega arith

Reads-shorter : (c : ℕ) (s s' : Bytes) → Reads c s s' → length s' ≤ length s
Reads-shorter c s s' r =
    omega
      (arith, ap length r.splits, length-append (print_piece r.piece) s', print_piece-pos r.piece)

module _ {V : Type 0} (dbi : Dbi V) (args : Option (List V)) where
  percent_round-Ends : (q : Query) (s : Bytes) → Ends b'%' s (percent_round dbi args q s)
  unfolding percent_round
  percent_round-Ends q [] = (cc, λ _. cc)
  percent_round-Ends q (c ∷ s) = elim (Bool-cases (c == b'v')) [
    | inl e ↦ rw ((==_iff c b'v').0 e) (record { piece = value; is_piece = tt; splits = refl })
    | inr e ↦ elim (Bool-cases (c == b'd')) [
      | inl k ↦ rw ((==_iff c b'd').0 k) (record { piece = numeric; is_piece = tt; splits = refl })
      | inr k ↦ elim (Bool-cases (c == b's')) [
        | inl l ↦
            rw ((==_iff c b's').0 l)
              (string_round-Ends q s (dbi.concat_string (argument dbi args q)))
        | inr l ↦ rw (e, k, l) (cc, λ _. cc)
      ]
    ]
  ]

  name_round-Ends : (q : Query) (s : Bytes) → Ends b':' s (name_round dbi args q s)
  unfolding name_round
  name_round-Ends q s = elim (name_of-cases s) [
    | inl e ↦ rw e (cc, λ _. cc)
    | inr (h, e) ↦ rw e (record {
      piece = name (name_of s);
      is_piece = (h, name_of-IsName s, after_name-Breaks s);
      splits = ap (◌∷◌ b':') (sym (name_of-after_name s));
    })
  ]

  round-Ends : (q : Query) (c : ℕ) (s : Bytes) → c ≢ 0 → Ends c s (round dbi args q c s)
  unfolding round
  round-Ends q c s h = elim (Bool-cases (c == b'"')) [
    | inl e ↦ rw ((==_iff c b'"').0 e) (quoted_round-Ends q b'"' s (inl refl))
    | inr e ↦ elim (Bool-cases (c == b'\'')) [
      | inl k ↦ rw ((==_iff c b'\'').0 k) (quoted_round-Ends q b'\'' s (inr refl))
      | inr k ↦ elim (Bool-cases (c == b'%')) [
        | inl l ↦ rw ((==_iff c b'%').0 l) (percent_round-Ends q s)
        | inr l ↦ elim (Bool-cases (c == b':')) [
          | inl m ↦ rw ((==_iff c b':').0 m) (name_round-Ends q s)
          | inr m ↦
              rw (e, k, l, m) (record { piece = plain c; is_piece = ground arith; splits = refl })
        ]
      ]
    ]
  ]

  -- A round of the loop ends it with an error, or passes over a piece and goes on.
  abbrev Rounds : ℕ → Query → ℕ → Bytes → Type 0
  Rounds f q c s =
      ((r : Outcome) × (r ≢ out_of_fuel)
        × ((q' : Query) → r ≢ done q')
        × (scan dbi args (suc f) q (c ∷ s) ≡ r))
      ⊎ ((q' : Query) × (s' : Bytes) × Reads c s s'
          × (scan dbi args (suc f) q (c ∷ s) ≡ scan dbi args f q' s'))

  scan-Rounds : (f : ℕ) (q : Query) (c : ℕ) (s : Bytes) → c ≢ 0 → Rounds f q c s
  scan-Rounds f q c s h = go_on (round dbi args q c s) refl (round-Ends q c s h)
    where
      go_on : (r : Round) → round dbi args q c s ≡ r → Ends c s r → Rounds f q c s
      go_on (stop r) e w = inl (r, w.0, w.1, scan_stop dbi args f q c s h e)
      go_on (go q₁ s') e w = inr (q₁, s', w, scan_step dbi args f q c s h e)

  scan-ne-out_of_fuel :
      (f : ℕ) (q : Query) (s : Bytes) → length s < f → scan dbi args f q s ≢ out_of_fuel
  scan-ne-out_of_fuel zero q s h = absurd (omega arith)
  scan-ne-out_of_fuel (suc f) q [] h = unfold scan in cc
  scan-ne-out_of_fuel (suc f) q (c ∷ s) h = elim (Bool-cases (c == 0)) [
    | inl e ↦ unfold scan in ground arith
    | inr e ↦ elim (scan-Rounds f q c s (ground arith)) [
      | inl (r, k, _, l) ↦ λ m. k (sym l ∙ m)
      | inr (q₁, s', r, l) ↦
          λ m. scan-ne-out_of_fuel f q₁ s' (omega (arith, Reads-shorter c s s' r)) (sym l ∙ m)
    ]
  ]

  -- The scanner ends on every text, within the rounds that `init` gives it.
  pub init_terminates : (s : Bytes) → init dbi args s ≢ out_of_fuel
  unfolding init
  init_terminates s = scan-ne-out_of_fuel (suc (length s)) new_query s (omega arith)
