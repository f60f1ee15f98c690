-- ===== src/Query/Translate.antt =====
-- The scanner implements the specification: a text that consists of pieces is translated piece
-- by piece.
use module_sybase.Base.{
  ℕ, zero, suc, ◌<◌, Option, none, some, List, [], ◌∷◌, ◌++◌, ◌≡◌, ◌≢◌, ◌⊎◌, inl, inr, refl, arith,
  append-nil, length, length-append, Bytes, Option-cases, ◌∙◌, append_assoc, ap,
}
use module_sybase.Query.{
  Query, Dbi, Outcome, done, string_failed, stop, go, passed, param, placeholder, par_name,
  argument, round, scan,
}
use module_sybase.Query.Pieces.{skip_quoted-body, name_of-append, after_name-append}
use module_sybase.Query.Extend.{
  translate-end, translate-plain, translate-quoted, translate-value, translate-numeric,
  translate-string, translate-string_failed, translate-name,
}
use module_sybase.Query.Spec.{
  QuotedByte, Piece, plain, quoted, value, numeric, string, name, print_body, print_piece, print,
  IsPlain, IsBody, IsName, Breaks, IsPiece, IsText, IsEnd, translate,
}

module _ {V : Type 0} (dbi : Dbi V) (args : Option (List V)) where
  pub scan_step :
      (f : ℕ) (q : Query) (c : ℕ) (s : Bytes) {q' : Query} {s' : Bytes}
      → c ≢ 0
      → round dbi args q c s ≡ go q' s'
      → scan dbi args (suc f) q (c ∷ s) ≡ scan dbi args f q' s'
  unfolding scan
  scan_step f q c s h r = ground arith

  pub scan_stop :
      (f : ℕ) (q : Query) (c : ℕ) (s : Bytes) {r : Outcome}
      → c ≢ 0
      → round dbi args q c s ≡ stop r
      → scan dbi args (suc f) q (c ∷ s) ≡ r
  unfolding scan
  scan_stop f q c s h r = ground arith

  round-plain :
      (q : Query) (c : ℕ) (s : Bytes) → IsPlain c → round dbi args q c s ≡ go (passed q (c ∷ [])) s
  unfolding round
  round-plain q c s h = ground arith

  round-quoted :
      (q : Query) (k : ℕ) (b : List QuotedByte) (s : Bytes)
      → (k ≡ b'"') ⊎ (k ≡ b'\'')
      → IsBody k b
      → round dbi args q k (print_body b ++ (k ∷ s))
        ≡ go (passed q (k ∷ (print_body b ++ k ∷ []))) s
  unfolding round
  round-quoted q k b s (inl e) w = rw e (rw (skip_quoted-body b'"' b s (omega arith) (rw e at w)))
  round-quoted q k b s (inr e) w = rw e (rw (skip_quoted-body b'\'' b s (omega arith) (rw e at w)))

  round-name :
      (q : Query) (n s : Bytes)
      → n ≢ []
      → IsName n
      → Breaks s
      → round dbi args q b':' (n ++ s) ≡ go (placeholder q n) s
  unfolding round
  round-name q [] s h w k = absurd (h refl)
  round-name q (c ∷ n) s h w k = rw (name_of-append (c ∷ n) s w k, after_name-append (c ∷ n) s w k)

  round-value :
      (q : Query) (s : Bytes) → round dbi args q b'%' (b'v' ∷ s) ≡ go (param q b'v' (par_name q)) s
  unfolding round
  round-value q s = refl

  round-numeric :
      (q : Query) (s : Bytes)
      → round dbi args q b'%' (b'd' ∷ s)
        ≡ go (param q b'd' (dbi.concat_numeric (argument dbi args q))) s
  unfolding round
  round-numeric q s = refl

  round-string :
      (q : Query) (s : Bytes) {t : Bytes}
      → dbi.concat_string (argument dbi args q) ≡ some t
      → round dbi args q b'%' (b's' ∷ s) ≡ go (param q b'd' t) s
  unfolding round
  round-string q s k = rw k

  pub round-string_failed :
      (q : Query) (s : Bytes)
      → dbi.concat_string (argument dbi args q) ≡ none
      → round dbi args q b'%' (b's' ∷ s) ≡ stop string_failed
  unfolding round
  round-string_failed q s k = rw k

  pub scan-end :
      (f : ℕ) (q : Query) (rest : Bytes)
      → IsEnd rest
      → scan dbi args (suc f) q rest ≡ done (passed q rest)
  unfolding scan
  scan-end f q [] h = ground (arith, append-nil q.m_cmd)
  scan-end f q (c ∷ s) h = ground arith

  -- The loop passes over a piece, whatever stands behind it, and goes on from the query that the
  -- piece leads to.
  pub scan_piece :
      (f : ℕ) (q : Query) (p : Piece) (rest : Bytes)
      → IsPiece p rest
      → ((v : Option V) → dbi.concat_string v ≢ none)
      → (q' : Query) × (length rest < length (print_piece p ++ rest))
        × (scan dbi args (suc f) q (print_piece p ++ rest) ≡ scan dbi args f q' rest)
  scan_piece f q (plain c) rest w t =
      (passed q (c ∷ []), omega arith, scan_step f q c rest w.0 (round-plain q c rest w))
  scan_piece f q (quoted k b) rest w t = (
    passed q (k ∷ (print_body b ++ k ∷ [])),
    omega (arith, length-append (print_body b ++ k ∷ []) rest),
    ap (λ l. scan dbi args (suc f) q (k ∷ l)) (append_assoc (print_body b) (k ∷ []) rest)
        ∙ scan_step f q k _ (ground arith) (round-quoted q k b rest w.0 w.1),
  )
  scan_piece f q value rest w t = (
    param q b'v' (par_name q),
    omega arith,
    scan_step f q b'%' _ (omega arith) (round-value q rest),
  )
  scan_piece f q numeric rest w t = (
    param q b'd' (dbi.concat_numeric (argument dbi args q)),
    omega arith,
    scan_step f q b'%' _ (omega arith) (round-numeric q rest),
  )
  scan_piece f q string rest w t = elim (Option-cases (dbi.concat_string (argument dbi args q))) [
    | inl k ↦ absurd (t (argument dbi args q) k)
    | inr (l, k) ↦
        (param q b'd' l, omega arith, scan_step f q b'%' _ (omega arith) (round-string q rest k))
  ]
  scan_piece f q (name n) rest w t = (
    placeholder q n,
    omega (arith, length-append n rest),
    scan_step f q b':' _ (omega arith) (round-name q n rest w.0 w.1 w.2),
  )

  -- With fuel above its length, a text is scanned as its pieces say.
  pub scan-translate :
      (f : ℕ) (q : Query) (ps : List Piece) (rest : Bytes)
      → length (print ps rest) < f
      → IsText ps rest
      → IsEnd rest
      → scan dbi args f q (print ps rest) ≡ translate dbi args q ps rest
  scan-translate zero q ps rest h w e = absurd (omega arith)
  scan-translate (suc f) q [] rest h w e = scan-end f q rest e ∙ translate-end dbi args q rest
  scan-translate (suc f) q (plain c ∷ ps) rest h w e =
      scan_step f q c (print ps rest) w.0.0 (round-plain q c _ w.0)
      ∙ scan-translate f _ ps rest (omega arith) w.1 e
      ∙ translate-plain dbi args q c ps rest
  scan-translate (suc f) q (quoted k b ∷ ps) rest h w e =
      ap (λ l. scan dbi args (suc f) q (k ∷ l))
        (append_assoc (print_body b) (k ∷ []) (print ps rest))
      ∙ scan_step f q k _ (ground arith) (round-quoted q k b _ w.0.0 w.0.1)
      ∙ scan-translate f _ ps rest
          (omega (arith, length-append (print_body b ++ k ∷ []) (print ps rest))) w.1 e
      ∙ translate-quoted dbi args q k b ps rest
  scan-translate (suc f) q (value ∷ ps) rest h w e =
      scan_step f q b'%' _ (omega arith) (round-value q _)
      ∙ scan-translate f _ ps rest (omega arith) w.1 e
      ∙ translate-value dbi args q ps rest
  scan-translate (suc f) q (numeric ∷ ps) rest h w e =
      scan_step f q b'%' _ (omega arith) (round-numeric q _)
      ∙ scan-translate f _ ps rest (omega arith) w.1 e
      ∙ translate-numeric dbi args q ps rest
  scan-translate (suc f) q (string ∷ ps) rest h w e =
      elim (Option-cases (dbi.concat_string (argument dbi args q))) [
        | inl k ↦
            scan_stop f q b'%' _ (omega arith) (round-string_failed q _ k)
            ∙ translate-string_failed dbi args q ps rest k
        | inr (t, k) ↦
            scan_step f q b'%' _ (omega arith) (round-string q _ k)
            ∙ scan-translate f _ ps rest (omega arith) w.1 e
            ∙ translate-string dbi args q t ps rest k
      ]
  scan-translate (suc f) q (name n ∷ ps) rest h w e =
      scan_step f q b':' _ (omega arith) (round-name q n _ w.0.0 w.0.1 w.0.2)
      ∙ scan-translate f _ ps rest (omega (arith, length-append n (print ps rest))) w.1 e
      ∙ translate-name dbi args q n ps rest
