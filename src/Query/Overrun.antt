-- ===== src/Query/Overrun.antt =====
-- A quoted string that is not closed: the scanner's inner loop does not look for the terminator.
use module_sybase.Base.{
  ℕ, zero, suc, ◌<◌, false, Option, none, List, [], ◌∷◌, ◌++◌, ◌≡◌, ◌≢◌, ◌⊎◌, inl, inr, arith,
  length, Bytes, ◌∙◌,
}
use module_sybase.Query.{Query, Dbi, overrun, stop, round, scan, init, new_query, skip_quoted}
use module_sybase.Query.Spec.{QuotedByte, raw, escaped, Piece, print_body, print, IsBody, IsText}
use module_sybase.Query.Translate.{scan_stop, scan_piece}

-- What may stand behind the last whole byte of an unclosed string.
abbrev pub Dangles : Bytes → Type 0
Dangles s = (s ≡ []) ⊎ (s ≡ b'\\' ∷ [])

skip_quoted-open :
    (q : ℕ) (b : List QuotedByte) (s : Bytes)
    → q ≢ b'\\'
    → IsBody q b
    → Dangles s
    → skip_quoted q false (print_body b ++ s) ≡ none
unfolding skip_quoted
skip_quoted-open q [] s h w (inl e) = rw e
skip_quoted-open q [] s h w (inr e) = rw e
skip_quoted-open q (raw c ∷ b) s h w d = ground (arith, skip_quoted-open q b s h)
skip_quoted-open q (escaped c ∷ b) s h w d = ground (arith, skip_quoted-open q b s h)

module _ {V : Type 0} (dbi : Dbi V) (args : Option (List V)) where
  round-open :
      (q : Query) (k : ℕ) (b : List QuotedByte) (s : Bytes)
      → (k ≡ b'"') ⊎ (k ≡ b'\'')
      → IsBody k b
      → Dangles s
      → round dbi args q k (print_body b ++ s) ≡ stop overrun
  unfolding round
  round-open q k b s (inl e) w d = rw e (rw (skip_quoted-open b'"' b s (omega arith) (rw e at w) d))
  round-open q k b s (inr e) w d =
      rw e (rw (skip_quoted-open b'\'' b s (omega arith) (rw e at w) d))

  scan-open :
      (f : ℕ) (q : Query) (ps : List Piece) (k : ℕ) (b : List QuotedByte) (s : Bytes)
      → length (print ps (k ∷ (print_body b ++ s))) < f
      → ((v : Option V) → dbi.concat_string v ≢ none)
      → IsText ps (k ∷ (print_body b ++ s))
      → (k ≡ b'"') ⊎ (k ≡ b'\'')
      → IsBody k b
      → Dangles s
      → scan dbi args f q (print ps (k ∷ (print_body b ++ s))) ≡ overrun
  scan-open zero q ps k b s h t w e i d = absurd (omega arith)
  scan-open (suc f) q [] k b s h t w e i d =
      scan_stop dbi args f q k _ (ground arith) (round-open q k b s e i d)
  scan-open (suc f) q (p ∷ ps) k b s h t w e i d =
      let (q', l, m) = scan_piece dbi args f q p (print ps (k ∷ (print_body b ++ s))) w.0 t in
      m ∙ scan-open f q' ps k b s (omega arith) t w.1 e i d

  -- A query text that consists of pieces up to a quoted string that is not closed makes the scanner
  -- read on behind the end of the text, if there is a text for each `%s`.
  pub init-overrun :
      (ps : List Piece) (k : ℕ) (b : List QuotedByte) (s : Bytes)
      → ((v : Option V) → dbi.concat_string v ≢ none)
      → IsText ps (k ∷ (print_body b ++ s))
      → (k ≡ b'"') ⊎ (k ≡ b'\'')
      → IsBody k b
      → Dangles s
      → init dbi args (print ps (k ∷ (print_body b ++ s))) ≡ overrun
  unfolding init
  init-overrun ps k b s t w e i d =
      scan-open (suc (length (print ps (k ∷ (print_body b ++ s))))) new_query ps k b s (omega arith)
        t w e i d
