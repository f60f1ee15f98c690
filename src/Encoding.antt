-- ===== src/Encoding.antt =====
-- src/encoding_helpers.cpp: the server's names for encodings. Qore's encodings are data, the ones that
-- the tables name and others; `QEM.findCreate` is a parameter.
use module_sybase.Base.{
  ℕ, Bytes, Option, none, some, List, [], ◌∷◌, if◌then◌else◌, text, eq_text, ◌≡◌, refl, arith,
  subst,
}

pub data QoreEncoding : Type 0 where
  utf8 iso_8859_1 iso_8859_2 iso_8859_5 iso_8859_6 iso_8859_7 iso_8859_8 iso_8859_9 iso_8859_15 :
      QoreEncoding
  usascii koi8_r : QoreEncoding
  other_encoding : ℕ → QoreEncoding

-- What `init_encoding_maps` puts into `encoding_map`.
abbrev pub encoding_map : List (Bytes × QoreEncoding)
encoding_map =
    (text "utf8", utf8)
    ∷ (text "iso_1", iso_8859_1)
    ∷ (text "iso88592", iso_8859_2)
    ∷ (text "iso88595", iso_8859_5)
    ∷ (text "iso88596", iso_8859_6)
    ∷ (text "iso88597", iso_8859_7)
    ∷ (text "iso88598", iso_8859_8)
    ∷ (text "iso88599", iso_8859_9)
    ∷ (text "iso15", iso_8859_15)
    ∷ (text "ascii8", usascii)
    ∷ (text "koi8", koi8_r)
    ∷ []

unfoldable pub find_name : List (Bytes × QoreEncoding) → Bytes → Option QoreEncoding
find_name [] name = none
find_name ((n, e) ∷ l) name = if eq_text n name then some e else find_name l name

-- `name_to_QoreEncoding`
abbrev found_or_created : (Bytes → QoreEncoding) → Bytes → Option QoreEncoding → QoreEncoding
found_or_created find_create name none = find_create name
found_or_created find_create name (some e) = e

unfoldable pub name_to_qore_encoding : (Bytes → QoreEncoding) → Bytes → QoreEncoding
unfolding find_name
name_to_qore_encoding find_create name =
    found_or_created find_create name (find_name encoding_map name)

-- `QoreEncoding_to_SybaseName`, over `encoding_rmap`.
unfoldable pub qore_encoding_to_sybase_name : QoreEncoding → Option Bytes
qore_encoding_to_sybase_name utf8 = some (text "utf8")
qore_encoding_to_sybase_name iso_8859_1 = some (text "iso_1")
qore_encoding_to_sybase_name iso_8859_2 = some (text "iso88592")
qore_encoding_to_sybase_name iso_8859_5 = some (text "iso88595")
qore_encoding_to_sybase_name iso_8859_6 = some (text "iso88596")
qore_encoding_to_sybase_name iso_8859_7 = some (text "iso88597")
qore_encoding_to_sybase_name iso_8859_8 = some (text "iso88598")
qore_encoding_to_sybase_name iso_8859_9 = some (text "iso88599")
qore_encoding_to_sybase_name iso_8859_15 = some (text "iso15")
qore_encoding_to_sybase_name usascii = some (text "ascii8")
qore_encoding_to_sybase_name koi8_r = some (text "koi8")
qore_encoding_to_sybase_name (other_encoding n) = none

module _ (find_create : Bytes → QoreEncoding) where
  by_name :
      (n name : Bytes) (e : QoreEncoding)
      → some n ≡ some name
      → name_to_qore_encoding find_create n ≡ e
      → name_to_qore_encoding find_create name ≡ e
  by_name n name e h k = subst (λ m. name_to_qore_encoding find_create m ≡ e) (unwrap h) k
    where
      unwrap : {a b : Bytes} → some a ≡ some b → a ≡ b
      unwrap l = cc

  -- An encoding that has a name is found again by that name, whatever encodings can be created.
  pub name_to_qore_encoding-sybase_name :
      (e : QoreEncoding) (name : Bytes)
      → qore_encoding_to_sybase_name e ≡ some name
      → name_to_qore_encoding find_create name ≡ e
  unfolding name_to_qore_encoding qore_encoding_to_sybase_name find_name text eq_text
  name_to_qore_encoding-sybase_name utf8 name h = by_name (text "utf8") name utf8 h refl
  name_to_qore_encoding-sybase_name iso_8859_1 name h =
      by_name (text "iso_1") name iso_8859_1 h refl
  name_to_qore_encoding-sybase_name iso_8859_2 name h =
      by_name (text "iso88592") name iso_8859_2 h refl
  name_to_qore_encoding-sybase_name iso_8859_5 name h =
      by_name (text "iso88595") name iso_8859_5 h refl
  name_to_qore_encoding-sybase_name iso_8859_6 name h =
      by_name (text "iso88596") name iso_8859_6 h refl
  name_to_qore_encoding-sybase_name iso_8859_7 name h =
      by_name (text "iso88597") name iso_8859_7 h refl
  name_to_qore_encoding-sybase_name iso_8859_8 name h =
      by_name (text "iso88598") name iso_8859_8 h refl
  name_to_qore_encoding-sybase_name iso_8859_9 name h =
      by_name (text "iso88599") name iso_8859_9 h refl
  name_to_qore_encoding-sybase_name iso_8859_15 name h =
      by_name (text "iso15") name iso_8859_15 h refl
  name_to_qore_encoding-sybase_name usascii name h = by_name (text "ascii8") name usascii h refl
  name_to_qore_encoding-sybase_name koi8_r name h = by_name (text "koi8") name koi8_r h refl
  name_to_qore_encoding-sybase_name (other_encoding n) name h = absurd (ground arith)
