-- ===== src/Query/Spec.antt =====
-- What a query text is made of, independent of the scanner: pieces with their spelling, and the
-- text, the parameters and the placeholders that they stand for.
use module_sybase.Base.{
  ℕ, suc, Option, none, some, List, [], ◌∷◌, ◌++◌, ◌≡◌, ◌≢◌, ◌⊎◌, All, Bytes, Bool, true, false,
  ◌||◌, ◌==◌, is_alnum, decimal, length, get_elem?,
}
use module_sybase.Query.{Query, Dbi, Outcome, done, string_failed}

-- A byte of a quoted string, or a backslash with the byte that it protects.
pub data QuotedByte : Type 0 where
  raw : ℕ → QuotedByte
  escaped : ℕ → QuotedByte

pub data Piece : Type 0 where
  plain : ℕ → Piece
  quoted : ℕ → List QuotedByte → Piece
  value numeric string : Piece
  name : Bytes → Piece

abbrev pub print_body : List QuotedByte → Bytes
print_body [] = []
print_body (raw c ∷ b) = c ∷ print_body b
print_body (escaped c ∷ b) = b'\\' ∷ c ∷ print_body b

abbrev pub print_piece : Piece → Bytes
print_piece (plain c) = c ∷ []
print_piece (quoted q b) = q ∷ (print_body b ++ q ∷ [])
print_piece value = b'%' ∷ b'v' ∷ []
print_piece numeric = b'%' ∷ b'd' ∷ []
print_piece string = b'%' ∷ b's' ∷ []
print_piece (name n) = b':' ∷ n

-- The spelling of a list of pieces, with a text behind it.
abbrev pub print : List Piece → Bytes → Bytes
print [] rest = rest
print (p ∷ ps) rest = print_piece p ++ print ps rest

abbrev pub IsPlain : ℕ → Type 0
IsPlain c = (c ≢ 0) × (c ≢ b'"') × (c ≢ b'\'') × (c ≢ b'%') × (c ≢ b':')

abbrev pub IsBody : ℕ → List QuotedByte → Type 0
IsBody q [] = Unit
IsBody q (raw c ∷ b) = ((c ≢ b'\\') × (c ≢ q)) × IsBody q b
IsBody q (escaped c ∷ b) = IsBody q b

-- A letter, a digit or an underscore.
abbrev pub names_on : ℕ → Bool
names_on c = is_alnum c || c == b'_'

abbrev pub IsName : Bytes → Type 0
IsName = All (λ c. names_on c ≡ true)

-- The text does not go on with a byte of a name.
abbrev pub Breaks : Bytes → Type 0
Breaks [] = Unit
Breaks (c ∷ s) = names_on c ≡ false

abbrev pub IsPiece : Piece → Bytes → Type 0
IsPiece (plain c) rest = IsPlain c
IsPiece (quoted q b) rest = ((q ≡ b'"') ⊎ (q ≡ b'\'')) × IsBody q b
IsPiece (name n) rest = (n ≢ []) × IsName n × Breaks rest
IsPiece _ rest = Unit

-- The pieces of a text, read from the left: a name is as long as it can be.
abbrev pub IsText : List Piece → Bytes → Type 0
IsText [] rest = Unit
IsText (p ∷ ps) rest = IsPiece p (print ps rest) × IsText ps rest

-- The text ends here, or at a NUL byte.
abbrev pub IsEnd : Bytes → Type 0
IsEnd [] = Unit
IsEnd (c ∷ s) = c ≡ 0

-- The parameters, by their kind, and the placeholders of a text.
abbrev pub kinds : List Piece → List ℕ
kinds [] = []
kinds (value ∷ ps) = b'v' ∷ kinds ps
kinds (numeric ∷ ps) = b'd' ∷ kinds ps
kinds (string ∷ ps) = b'd' ∷ kinds ps
kinds (plain c ∷ ps) = kinds ps
kinds (quoted k b ∷ ps) = kinds ps
kinds (name m ∷ ps) = kinds ps

abbrev pub names : List Piece → List Bytes
names [] = []
names (name m ∷ ps) = m ∷ names ps
names (plain c ∷ ps) = names ps
names (quoted k b ∷ ps) = names ps
names (value ∷ ps) = names ps
names (numeric ∷ ps) = names ps
names (string ∷ ps) = names ps

abbrev pub behind : Bytes → Option Bytes → Option Bytes
behind t none = none
behind t (some l) = some (t ++ l)

abbrev pub behind_text : Option Bytes → Option Bytes → Option Bytes
behind_text none o = none
behind_text (some t) o = behind t o

module _ {V : Type 0} (dbi : Dbi V) (args : Option (List V)) where
  -- The argument number `n`, from 0 on.
  abbrev pub nth : ℕ → Option V
  nth n = elim args [ none ↦ none | some l ↦ get_elem? l n ]

  -- The text for the server, with `n` parameters before; `none` where there is no text for a `%s`.
  abbrev pub sent : ℕ → List Piece → Bytes → Option Bytes
  sent n [] rest = some rest
  sent n (plain c ∷ ps) rest = behind (c ∷ []) (sent n ps rest)
  sent n (quoted k b ∷ ps) rest = behind (k ∷ (print_body b ++ k ∷ [])) (sent n ps rest)
  sent n (value ∷ ps) rest =
      behind (b'@' ∷ b'p' ∷ b'a' ∷ b'r' ∷ decimal (suc n)) (sent (suc n) ps rest)
  sent n (numeric ∷ ps) rest = behind (dbi.concat_numeric (nth n)) (sent (suc n) ps rest)
  sent n (string ∷ ps) rest = behind_text (dbi.concat_string (nth n)) (sent (suc n) ps rest)
  sent n (name m ∷ ps) rest = behind (b'@' ∷ m) (sent n ps rest)

-- A query that goes on with this text, these parameters and these placeholders.
unfoldable pub extend : Query → Option Bytes → List ℕ → List Bytes → Outcome
extend q none ks ns = string_failed
extend q (some t) ks ns = done (record {
  m_cmd = q.m_cmd ++ t;
  param_list = q.param_list ++ ks;
  placeholders = q.placeholders ++ ns;
})

module _ {V : Type 0} (dbi : Dbi V) (args : Option (List V)) where
  -- The query that the pieces stand for, behind the query so far.
  unfoldable pub translate : Query → List Piece → Bytes → Outcome
  unfolding extend
  translate q ps rest = extend q (sent dbi args (length q.param_list) ps rest) (kinds ps) (names ps)
