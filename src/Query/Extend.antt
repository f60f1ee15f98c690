-- ===== src/Query/Extend.antt =====
-- How a translation grows by a piece: the text, the parameters and the placeholders of a query.
use module_sybase.Base.{
  ℕ, suc, Option, none, some, List, [], ◌∷◌, ◌++◌, ◌≡◌, refl, arith, append-nil, length,
  length-append, Bytes, ◌∙◌, append_assoc, ap, sym, text,
}
use module_sybase.Query.{
  Query, Dbi, done, string_failed, passed, param, placeholder, par_name, argument,
}
use module_sybase.Query.Spec.{
  QuotedByte, Piece, plain, quoted, value, numeric, string, name, print_body, translate, extend,
  behind, behind_text, sent, kinds, names,
}

module _ {V : Type 0} (dbi : Dbi V) (args : Option (List V)) where
  extend-passed :
      (q : Query) (t : Bytes) (o : Option Bytes) (ks : List ℕ) (ns : List Bytes)
      → extend q (behind t o) ks ns ≡ extend (passed q t) o ks ns
  unfolding extend
  extend-passed q t none ks ns = refl
  extend-passed q t (some l) ks ns = rw (append_assoc q.m_cmd t l) refl

  extend-param :
      (q : Query) (k : ℕ) (t : Bytes) (o : Option Bytes) (ks : List ℕ) (ns : List Bytes)
      → extend q (behind t o) (k ∷ ks) ns ≡ extend (param q k t) o ks ns
  unfolding extend
  extend-param q k t none ks ns = refl
  extend-param q k t (some l) ks ns =
      rw (append_assoc q.m_cmd t l, append_assoc q.param_list (k ∷ []) ks) refl

  extend-placeholder :
      (q : Query) (n : Bytes) (o : Option Bytes) (ks : List ℕ) (ns : List Bytes)
      → extend q (behind (b'@' ∷ n) o) ks (n ∷ ns) ≡ extend (placeholder q n) o ks ns
  unfolding extend
  extend-placeholder q n none ks ns = refl
  extend-placeholder q n (some l) ks ns =
      rw (append_assoc q.m_cmd (b'@' ∷ n) l, append_assoc q.placeholders (n ∷ []) ns) refl

  -- A parameter is one more.
  counted :
      (q : Query) (k : ℕ) (t : Bytes) → length (param q k t).param_list ≡ suc (length q.param_list)
  counted q k t = omega (arith, length-append q.param_list (k ∷ []))

  translate-param :
      (q : Query) (k : ℕ) (t : Bytes) (ps : List Piece) (rest : Bytes)
      → extend q
          (behind t (sent dbi args (suc (length q.param_list)) ps rest))
          (k ∷ kinds ps)
          (names ps)
        ≡ translate dbi args (param q k t) ps rest
  unfolding translate
  translate-param q k t ps rest =
      extend-param q k t (sent dbi args (suc (length q.param_list)) ps rest) (kinds ps) (names ps)
      ∙ ap (λ n. extend (param q k t) (sent dbi args n ps rest) (kinds ps) (names ps))
          (sym (counted q k t))

  pub translate-end :
      (q : Query) (rest : Bytes) → done (passed q rest) ≡ translate dbi args q [] rest
  unfolding translate extend
  translate-end q rest = rw (append-nil q.param_list, append-nil q.placeholders) refl

  pub translate-plain :
      (q : Query) (c : ℕ) (ps : List Piece) (rest : Bytes)
      → translate dbi args (passed q (c ∷ [])) ps rest ≡ translate dbi args q (plain c ∷ ps) rest
  unfolding translate
  translate-plain q c ps rest = sym (extend-passed q (c ∷ []) _ _ _)

  pub translate-quoted :
      (q : Query) (k : ℕ) (b : List QuotedByte) (ps : List Piece) (rest : Bytes)
      → translate dbi args (passed q (k ∷ (print_body b ++ k ∷ []))) ps rest
        ≡ translate dbi args q (quoted k b ∷ ps) rest
  unfolding translate
  translate-quoted q k b ps rest = sym (extend-passed q (k ∷ (print_body b ++ k ∷ [])) _ _ _)

  pub translate-value :
      (q : Query) (ps : List Piece) (rest : Bytes)
      → translate dbi args (param q b'v' (par_name q)) ps rest
        ≡ translate dbi args q (value ∷ ps) rest
  unfolding translate par_name text
  translate-value q ps rest = sym (translate-param q b'v' (par_name q) ps rest)

  pub translate-numeric :
      (q : Query) (ps : List Piece) (rest : Bytes)
      → translate dbi args (param q b'd' (dbi.concat_numeric (argument dbi args q))) ps rest
        ≡ translate dbi args q (numeric ∷ ps) rest
  unfolding translate argument
  translate-numeric q ps rest =
      sym (translate-param q b'd' (dbi.concat_numeric (argument dbi args q)) ps rest)

  pub translate-string :
      (q : Query) (t : Bytes) (ps : List Piece) (rest : Bytes)
      → dbi.concat_string (argument dbi args q) ≡ some t
      → translate dbi args (param q b'd' t) ps rest ≡ translate dbi args q (string ∷ ps) rest
  unfolding translate argument
  translate-string q t ps rest e =
      sym (translate-param q b'd' t ps rest)
      ∙ ap
          (λ o.
            extend q (behind_text o (sent dbi args (suc (length q.param_list)) ps rest))
              (b'd' ∷ kinds ps) (names ps))
          (sym e)

  pub translate-string_failed :
      (q : Query) (ps : List Piece) (rest : Bytes)
      → dbi.concat_string (argument dbi args q) ≡ none
      → string_failed ≡ translate dbi args q (string ∷ ps) rest
  unfolding translate argument extend
  translate-string_failed q ps rest e =
      ap
        (λ o.
          extend q (behind_text o (sent dbi args (suc (length q.param_list)) ps rest))
            (b'd' ∷ kinds ps) (names ps))
        (sym e)

  pub translate-name :
      (q : Query) (n : Bytes) (ps : List Piece) (rest : Bytes)
      → translate dbi args (placeholder q n) ps rest ≡ translate dbi args q (name n ∷ ps) rest
  unfolding translate
  translate-name q n ps rest = sym (extend-placeholder q n _ _ _)
