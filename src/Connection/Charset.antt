-- ===== src/Connection/Charset.antt =====
-- The end of `init` of src/connection.cpp, where the encoding of the connection is found out by two
-- queries to the server.
use module_sybase.Base.{
  ℕ, ℤ, Bytes, Option, none, some, [], ◌∷◌, ◌++◌, map, Bool, true, false, ◌&&◌, ◌||◌, ◌==◌,
  if◌then◌else◌, text, is_digit, to_lower,
}
use module_sybase.Effect.{fault, gets, when, has_exception}
use module_sybase.Effect.Fuelled.{F, ◌>>=◌, ◌>>◌, lift, ret, caught}
use module_sybase.Messages.{purge_messages}
use module_sybase.Encoding.{utf8}
use module_sybase.Value.{Value, nothing, string, hash, get_key, arg_string}
use module_sybase.Connection.Handles.{set_conn, clear_exceptions}
use module_sybase.Connection.Library.{Env}
use module_sybase.Connection.Output.{exec_row}

-- `str->find(pattern) >= 0`
abbrev pub starts_with : Bytes → Bytes → Bool
starts_with [] t = true
starts_with (x ∷ p) [] = false
starts_with (x ∷ p) (y ∷ t) = x == y && starts_with p t

unfoldable pub contains : Bytes → Bytes → Bool
contains p [] = starts_with p []
contains p (y ∷ t) = starts_with p (y ∷ t) || contains p t

unfoldable pub is_adaptive : Value → Bool
unfolding contains
is_adaptive (string t enc) = contains (text "Adaptive Server") t
is_adaptive v = false

abbrev pub starts_with_digit : Bytes → Bool
starts_with_digit [] = false
starts_with_digit (c ∷ t) = is_digit c

module _ (env : Env) where
  open env use {ct, lib, qore}
  open ct use {World}

  unfoldable pub set_enc : ℕ → F World (Unit {0})
  set_enc enc =
      lift (set_conn (λ c. record c { enc = enc; is_multi_byte = qore.is_multi_byte enc }))

  module _ (reinit : F World ℤ) (fuel : ℕ) where
    -- The encoding of a code page. What is neither a string nor missing is not checked for.
    unfoldable pub use_code_page : Option Value → F World (Unit {0})
    unfolding set_enc
    use_code_page none = ret tt
    use_code_page (some nothing) = ret tt
    use_code_page (some (string cp enc)) =
        if starts_with_digit cp
        then set_enc (qore.number_of (qore.find_create (text "WINDOWS-" ++ cp)))
        else ret tt
    use_code_page (some v) = λ s. (fault, s)

    unfoldable pub code_page_of : Value → F World (Unit {0})
    unfolding use_code_page
    code_page_of (hash h) = use_code_page (get_key h (text "cp"))
    code_page_of v = ret tt

    unfoldable pub ask_code_page : Bytes → F World (Unit {0})
    unfolding exec_row code_page_of
    ask_code_page coll = do
      v ←
          exec_row env reinit fuel (qore.number_of qore.qcs_default)
            (text "select cast(collationproperty(%v, 'CodePage') as varchar) as 'cp'")
            (some (arg_string coll ∷ []))
      stop ← lift has_exception
      if stop then (do _ ← lift (purge_messages ct); lift clear_exceptions) else code_page_of v

    -- The encoding of a collation, which has to be a string.
    unfoldable pub use_collation : Option Value → F World (Unit {0})
    unfolding ask_code_page set_enc
    use_collation (some (string coll enc)) =
        if contains (text "utf8") (map to_lower coll)
        then set_enc (qore.number_of utf8)
        else caught (ask_code_page coll) (λ e. ret tt)
    use_collation v = λ s. (fault, s)

    unfoldable pub collation_of : Value → F World (Unit {0})
    unfolding use_collation
    collation_of (hash h) = use_collation (get_key h (text "coll"))
    collation_of v = ret tt

    -- What is done with the server's version where there is no exception.
    unfoldable pub use_version : Value → F World (Unit {0})
    unfolding collation_of is_adaptive exec_row
    use_version v = do
      lift (when (is_adaptive v) (set_conn (λ c. record c { is_sybase = true })))
      sybase ← lift (gets (λ s. s.conn.is_sybase))
      if sybase then ret tt else (do
        coll ←
            exec_row env reinit fuel (qore.number_of qore.qcs_default)
              (text "select convert(varchar, serverproperty('collation')) as 'coll'") none
        collation_of coll)
