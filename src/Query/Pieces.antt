-- ===== src/Query/Pieces.antt =====
-- What the scanner's inner loops do with the bytes of one piece.
use module_sybase.Base.{
  ℕ, Bool, false, Option, none, some, List, [], ◌∷◌, ◌++◌, ◌≡◌, ◌≢◌, inl, inr, refl, arith, Bytes,
  ◌==◌, Bool-cases, ==_iff, ap, sym,
}
use module_sybase.Query.{skip_quoted, after_byte, name_of, after_name}
use module_sybase.Query.Spec.{QuotedByte, raw, escaped, print_body, IsBody, IsName, Breaks}

pub skip_quoted-body :
    (q : ℕ) (b : List QuotedByte) (s : Bytes)
    → q ≢ b'\\'
    → IsBody q b
    → skip_quoted q false (print_body b ++ (q ∷ s)) ≡ some (print_body b ++ q ∷ [], s)
unfolding skip_quoted
skip_quoted-body q [] s h w = ground arith
skip_quoted-body q (raw c ∷ b) s h w = ground (arith, skip_quoted-body q b s h)
skip_quoted-body q (escaped c ∷ b) s h w = ground (arith, skip_quoted-body q b s h)

pub name_of-append : (n s : Bytes) → IsName n → Breaks s → name_of (n ++ s) ≡ n
unfolding name_of
name_of-append [] [] h b = refl
name_of-append [] (c ∷ s) h b = ground arith
name_of-append (c ∷ n) s h b = ground (arith, name_of-append n s)

pub after_name-append : (n s : Bytes) → IsName n → Breaks s → after_name (n ++ s) ≡ s
unfolding after_name
after_name-append [] [] h b = refl
after_name-append [] (c ∷ s) h b = ground arith
after_name-append (c ∷ n) s h b = ground (arith, after_name-append n s)

-- The converses: what the loops take off a text is a piece of it.
pub name_of-IsName : (s : Bytes) → IsName (name_of s)
unfolding name_of
name_of-IsName [] = tt
name_of-IsName (c ∷ s) = ground (arith, name_of-IsName s)

pub after_name-Breaks : (s : Bytes) → Breaks (after_name s)
unfolding after_name
after_name-Breaks [] = tt
after_name-Breaks (c ∷ s) = ground (arith, after_name-Breaks s)

pub name_of-after_name : (s : Bytes) → name_of s ++ after_name s ≡ s
unfolding name_of after_name
name_of-after_name [] = refl
name_of-after_name (c ∷ s) = ground (arith, name_of-after_name s)

-- What a run over a quoted string has passed over, as bytes of that string.
pub record Skipped (q : ℕ) (s p rest : Bytes) : Type 0 where
  pub body : List QuotedByte
  pub is_body : IsBody q body
  pub passes : p ≡ print_body body ++ q ∷ []
  pub splits : s ≡ print_body body ++ (q ∷ rest)

after_byte-eq-some :
    (c : ℕ) (r : Option (Bytes × Bytes)) {p rest : Bytes}
    → after_byte c r ≡ some (p, rest)
    → (p' : Bytes) × (r ≡ some (p', rest)) × (p ≡ c ∷ p')
after_byte-eq-some c none h = cc
after_byte-eq-some c (some (p', r)) h = (p', ground arith, ground arith)

module _ {q : ℕ} {s p rest : Bytes} where
  Skipped-raw : (c : ℕ) → c ≢ b'\\' → c ≢ q → Skipped q s p rest → Skipped q (c ∷ s) (c ∷ p) rest
  Skipped-raw c h k w = record {
    body = raw c ∷ w.body;
    is_body = ((h, k), w.is_body);
    passes = ap (◌∷◌ c) w.passes;
    splits = ap (◌∷◌ c) w.splits;
  }

  Skipped-escaped : (d : ℕ) → Skipped q s p rest → Skipped q (b'\\' ∷ d ∷ s) (b'\\' ∷ d ∷ p) rest
  Skipped-escaped d w = record {
    body = escaped d ∷ w.body;
    is_body = w.is_body;
    passes = ap (λ l. b'\\' ∷ d ∷ l) w.passes;
    splits = ap (λ l. b'\\' ∷ d ∷ l) w.splits;
  }

Skipped-close : (q : ℕ) (s p rest : Bytes) → p ≡ q ∷ [] → rest ≡ s → Skipped q (q ∷ s) p rest
Skipped-close q s p rest e k = record {
  body = [];
  is_body = tt;
  passes = e;
  splits = ap (◌∷◌ q) (sym k);
}

skip_quoted-nil : (q : ℕ) (e : Bool) {x : Bytes × Bytes} → skip_quoted q e [] ≢ some x
unfolding skip_quoted
skip_quoted-nil q e h = cc

-- Whatever the loop passes over is the rest of a quoted string.
pub skip_quoted-Skipped :
    (q : ℕ) (s : Bytes) {p rest : Bytes}
    → skip_quoted q false s ≡ some (p, rest)
    → Skipped q s p rest
unfolding skip_quoted
skip_quoted-Skipped q [] h = cc
skip_quoted-Skipped q (c ∷ []) {p} {rest} h = elim (Bool-cases (c == b'\\')) [
  | inl e ↦ absurd (ground arith)
  | inr e ↦ elim (Bool-cases (c == q)) [
    | inl k ↦ rw ((==_iff c q).0 k) (Skipped-close q [] p rest (ground arith) (ground arith))
    | inr k ↦ absurd (ground arith)
  ]
]
skip_quoted-Skipped q (c ∷ d ∷ s) {p} {rest} h = elim (Bool-cases (c == b'\\')) [
  | inl e ↦
      let (p₁, h₁, e₁) = after_byte-eq-some c _ (rw e at h) in
      let (p₂, h₂, e₂) = after_byte-eq-some d _ h₁ in
      rw (e₁, e₂, (==_iff c b'\\').0 e) (Skipped-escaped d (skip_quoted-Skipped q s h₂))
  | inr e ↦ elim (Bool-cases (c == q)) [
    | inl k ↦ rw ((==_iff c q).0 k) (Skipped-close q (d ∷ s) p rest (ground arith) (ground arith))
    | inr k ↦
        let (p₁, h₁, e₁) = after_byte-eq-some c _ (rw (e, k) at h) in
        rw e₁ (Skipped-raw c (ground arith) (ground arith) (skip_quoted-Skipped q (d ∷ s) h₁))
  ]
]
