-- ===== src/Connection/Options.antt =====
-- `setOption`, `getOption` of src/connection.cpp. The names of the options that all drivers have, and
-- the search for a time zone, are Qore's.
use module_sybase.Base.{
  ℕ, Bytes, Option, none, some, map, Bool, true, false, if◌then◌else◌, text, to_lower, eq_text, ◌≡◌,
  refl,
}
use module_sybase.Build.{Build}
use module_sybase.Effect.{Connection}
use module_sybase.Number.{NumericSupport, num_optimal, num_string, num_numeric}
use module_sybase.Value.{Value, bool, string}
use module_sybase.Command.Convert.{get_tz}

-- DBI_OPT_NUMBER_OPT, DBI_OPT_NUMBER_STRING, DBI_OPT_NUMBER_NUMERIC and DBI_OPT_TIMEZONE,
-- `find_create_timezone`, which may raise, `tz_get_region_name`, and the default encoding of texts.
pub record QoreOptions : Type 0 where
  pub number_opt : Bytes
  pub number_string : Bytes
  pub number_numeric : Bytes
  pub timezone : Bytes
  pub find_create_timezone : Bytes → Option ℕ
  pub region_name : ℕ → Bytes
  pub default_encoding : ℕ

abbrev pub optimized_date_binds_option : Bytes
optimized_date_binds_option = text "optimized-date-binds"

-- `!strcasecmp(opt, name)`
unfoldable pub same_option : Bytes → Bytes → Bool
same_option opt name = eq_text (map to_lower opt) (map to_lower name)

-- The connection with the option set, a zone that is not there, or a failed assertion.
pub data SetOption : Type 0 where
  option_set : Connection → SetOption
  zone_missing : SetOption
  no_option : SetOption

abbrev pub with_zone : Connection → Option ℕ → SetOption
with_zone conn none = zone_missing
with_zone conn (some tz) = option_set (record conn { server_tz = some tz })

-- `setOption`; `val` is the text of the value, which is used for a time zone only.
unfoldable pub set_option : QoreOptions → Connection → Bytes → Bytes → SetOption
unfolding same_option
set_option q conn opt val =
    if same_option opt q.number_opt
    then option_set (record conn { numeric_support = num_optimal })
    else if same_option opt q.number_string
    then option_set (record conn { numeric_support = num_string })
    else if same_option opt q.number_numeric
    then option_set (record conn { numeric_support = num_numeric })
    else if same_option opt q.timezone
    then with_zone conn (q.find_create_timezone val)
    else if same_option opt optimized_date_binds_option
    then option_set (record conn { optimized_date_binds = true })
    else no_option

abbrev pub is_support : NumericSupport → NumericSupport → Bool
is_support num_optimal num_optimal = true
is_support num_string num_string = true
is_support num_numeric num_numeric = true
is_support _ _ = false

-- `getOption`: none is a failed assertion.
unfoldable pub get_option : QoreOptions → Build → Connection → Bytes → Option Value
unfolding same_option
get_option q build conn opt =
    if same_option opt q.number_opt
    then some (bool (is_support conn.numeric_support num_optimal))
    else if same_option opt q.number_string
    then some (bool (is_support conn.numeric_support num_string))
    else if same_option opt q.number_numeric
    then some (bool (is_support conn.numeric_support num_numeric))
    else if same_option opt q.timezone
    then some (string (q.region_name (get_tz build conn)) q.default_encoding)
    else if same_option opt optimized_date_binds_option
    then some (bool conn.optimized_date_binds)
    else none

-- The name of the option for a number format.
abbrev pub option_of : QoreOptions → NumericSupport → Bytes
option_of q num_optimal = q.number_opt
option_of q num_string = q.number_string
option_of q num_numeric = q.number_numeric

-- The three names differ.
abbrev pub HasDistinctNumbers : QoreOptions → Type 0
HasDistinctNumbers q =
    (m n : NumericSupport) → same_option (option_of q m) (option_of q n) ≡ is_support m n

-- Setting one of the three number formats, whose names differ, sets it and unsets the other two, as
-- `getOption` tells, and changes nothing else of the connection.
pub set_option-get_option :
    (q : QoreOptions) (build : Build) (conn : Connection) (m n : NumericSupport) (val : Bytes)
    → HasDistinctNumbers q
    → (set_option q conn (option_of q m) val ≡ option_set (record conn { numeric_support = m }))
      × (get_option q build (record conn { numeric_support = m }) (option_of q n)
          ≡ some (bool (is_support m n)))
unfolding set_option get_option
set_option-get_option q build conn m n val d = (sets m, gets n)
  where
    sets :
        (m : NumericSupport)
        → set_option q conn (option_of q m) val ≡ option_set (record conn { numeric_support = m })
    sets num_optimal = rw (d num_optimal num_optimal) refl
    sets num_string = rw (d num_string num_optimal, d num_string num_string) refl
    sets num_numeric =
        rw (d num_numeric num_optimal, d num_numeric num_string, d num_numeric num_numeric) refl

    gets :
        (n : NumericSupport)
        → get_option q build (record conn { numeric_support = m }) (option_of q n)
          ≡ some (bool (is_support m n))
    gets num_optimal = rw (d num_optimal num_optimal) refl
    gets num_string = rw (d num_string num_optimal, d num_string num_string) refl
    gets num_numeric =
        rw (d num_numeric num_optimal, d num_numeric num_string, d num_numeric num_numeric) refl
