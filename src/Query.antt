-- ===== src/Query.antt =====
-- src/sybase_query.h and src/sybase_query.cpp: the scanner that turns a query text with `%v`, `%d`,
-- `%s` and `:name` into the text that the server is sent, with its parameters and placeholders.
-- The texts that `%d` and `%s` insert come from the DBI library, which is a parameter.
pub mod Spec
pub mod Pieces
pub mod Extend
pub mod Translate
pub mod Complete
pub mod Overrun
use module_sybase.Base.{
  ℕ, zero, suc, ◌+◌, Bool, true, false, ◌&&◌, ◌||◌, Option, none, some, List, [], ◌∷◌, ◌++◌, ◌==◌,
  if◌then◌else◌, length, get_elem?, is_nil, Bytes, text, decimal, is_alnum,
}

-- `struct sybase_query`.
pub record Query : Type 0 where
  pub m_cmd : Bytes
  pub param_list : List ℕ
  pub placeholders : List Bytes

-- `sybase_query()`.
abbrev pub new_query : Query
new_query = record { m_cmd = []; param_list = []; placeholders = [] }

-- What `%d` and `%s` call: `DBI_concat_numeric`, and `DBI_concat_string`, which may raise. The
-- argument is `none` where no argument list is given or it has no such entry. The texts hold no NUL
-- byte.
pub record Dbi (V : Type 0) : Type 0 where
  pub concat_numeric : Option V → Bytes
  pub concat_string : Option V → Option Bytes

-- How `init` ends. `overrun`: the scanner has read past the terminator of the text.
pub data Outcome : Type 0 where
  done : Query → Outcome
  bad_percent : Outcome
  missing_name : Outcome
  string_failed : Outcome
  overrun : Outcome
  out_of_fuel : Outcome

abbrev pub after_byte : ℕ → Option (Bytes × Bytes) → Option (Bytes × Bytes)
after_byte c none = none
after_byte c (some (p, s)) = some (c ∷ p, s)

-- The loop over a string quoted by `q`, from behind the opening quote: the bytes that it passes
-- over, and the unread rest. The flag: the byte before was a backslash. `none`: the loop has met
-- the terminator, which ends it no more than any other byte does, and runs on behind the text.
pub skip_quoted : ℕ → Bool → Bytes → Option (Bytes × Bytes)
skip_quoted q escaped [] = none
skip_quoted q true (c ∷ s) = after_byte c (skip_quoted q false s)
skip_quoted q false (c ∷ s) =
    let escape = after_byte c (skip_quoted q true s) in
    let further = after_byte c (skip_quoted q false s) in
    if c == b'\\' then escape else if c == q then some (c ∷ [], s) else further

abbrev pub is_name_byte : ℕ → Bool
is_name_byte c = is_alnum c || c == b'_'

-- `while (isalnum(*s) || *s == '_') ++s;`: the name, and the unread rest.
pub name_of : Bytes → Bytes
name_of [] = []
name_of (c ∷ s) = if is_name_byte c then c ∷ name_of s else []

pub after_name : Bytes → Bytes
after_name [] = []
after_name (c ∷ s) = if is_name_byte c then after_name s else c ∷ s

-- One round of the loop of `init` ends the scan, or goes on with the unread rest. The text in
-- `m_cmd` is the part that has been passed over.
pub data Round : Type 0 where
  stop : Outcome → Round
  go : Query → Bytes → Round

abbrev pub passed : Query → Bytes → Query
passed q s = record q { m_cmd = q.m_cmd ++ s }

-- A parameter of kind `k` that is replaced by the text `t`.
abbrev pub param : Query → ℕ → Bytes → Query
param q k t = record q { m_cmd = q.m_cmd ++ t; param_list = q.param_list ++ k ∷ [] }

abbrev pub placeholder : Query → Bytes → Query
placeholder q n = record q { m_cmd = q.m_cmd ++ b'@' ∷ n; placeholders = q.placeholders ++ n ∷ [] }

-- `@par%u`, with the number that the new parameter has.
unfoldable pub par_name : Query → Bytes
par_name q = text "@par" ++ decimal (suc (length q.param_list))

pub quoted_round : Query → ℕ → Option (Bytes × Bytes) → Round
quoted_round q c none = stop overrun
quoted_round q c (some (p, s)) = go (passed q (c ∷ p)) s

pub string_round : Query → Bytes → Option Bytes → Round
string_round q s none = stop string_failed
string_round q s (some t) = go (param q b'd' t) s

module _ {V : Type 0} (dbi : Dbi V) (args : Option (List V)) where
  -- `args ? args->retrieveEntry(param_list.size()) : QoreValue()`
  unfoldable pub argument : Query → Option V
  argument q = elim args [ none ↦ none | some l ↦ get_elem? l (length q.param_list) ]

  pub percent_round : Query → Bytes → Round
  percent_round q [] = stop bad_percent
  percent_round q (c ∷ s) =
      if c == b'v'
      then go (param q b'v' (par_name q)) s
      else if c == b'd'
      then go (param q b'd' (dbi.concat_numeric (argument q))) s
      else if c == b's'
      then string_round q s (dbi.concat_string (argument q))
      else stop bad_percent

  pub name_round : Query → Bytes → Round
  name_round q s =
      if is_nil (name_of s)
      then stop missing_name
      else go (placeholder q (name_of s)) (after_name s)

  -- The round at the byte `c`, which is not the terminator.
  pub round : Query → ℕ → Bytes → Round
  unfolding quoted_round string_round percent_round name_round
  round q c s =
      if c == b'"'
      then quoted_round q c (skip_quoted b'"' false s)
      else if c == b'\''
      then quoted_round q c (skip_quoted b'\'' false s)
      else if c == b'%'
      then percent_round q s
      else if c == b':'
      then name_round q s
      else go (passed q (c ∷ [])) s

  -- `while (*s)`, on fuel.
  pub scan : ℕ → Query → Bytes → Outcome
  scan zero q s = out_of_fuel
  scan (suc f) q [] = done q
  scan (suc f) q (c ∷ s) = elim (c == 0) [
    | true ↦ done (passed q (c ∷ s))
    | false ↦ elim (round q c s) [ stop r ↦ r | go q' s' ↦ scan f q' s' ]
  ]

  -- `init(cmd_text, args, xsink)`. Each round passes over a byte of the text, so its length is
  -- fuel enough.
  unfoldable pub init : Bytes → Outcome
  unfolding scan round
  init cmd_text = scan (suc (length cmd_text)) new_query cmd_text

-- `init(cmd_text)`, for a raw query.
pub init_raw : Bytes → Query
init_raw cmd_text = record new_query { m_cmd = cmd_text }
