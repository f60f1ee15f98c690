-- ===== src/Connection/Context.antt =====
-- `class context` of src/connection.h: a context of the library. Its variable is not initialised and
-- not reset, so that the constructor's result is what it holds then.
pub mod Keeps
use module_sybase.Base.{ℕ, ◌-◌, Option, not, if◌then◌else◌, text, format_int, ◌++◌, take, length}
use module_sybase.Ct.{is_succeed}
use module_sybase.Effect.{M, ◌>>=◌, ◌>>◌, pure, call, raise, require, when}
use module_sybase.Value.{Value, nothing, string}
use module_sybase.Command.Results.{is_some}
use module_sybase.Connection.Library.{Env}

module _ (env : Env) where
  open env use {ct, lib, qore}
  open ct use {World}

  -- `del`
  unfoldable pub del : Option ℕ → M World (Unit {0})
  del m_context = do
    ret ← call (lib.ct_exit m_context)
    when (not (is_succeed ret))
        (do ret' ← call (lib.ct_exit_force m_context); require (is_succeed ret'))
    ret'' ← call (lib.cs_ctx_drop m_context)
    require (is_succeed ret'')

  -- `context(xsink)`
  unfoldable pub new_context : M World (Option ℕ)
  unfolding del
  new_context = do
    (ret, m_context) ← call lib.cs_ctx_alloc
    if not (is_succeed ret)
        then (do
          raise (text "TDS-CT-LIB-CANNOT-ALLOCATE-ERROR")
              (text "cs_ctx_alloc() failed with error " ++ format_int (ct.ret_number ret))
          pure m_context)
        else (do
          ret' ← call (lib.ct_init m_context)
          when (not (is_succeed ret')) (do
            del m_context
            raise (text "TDS-CT-LIB-INIT-FAILED")
                (text "ct_init() failed with error " ++ format_int (ct.ret_number ret')))
          pure m_context)

  -- `~context()`
  unfoldable pub delete_context : Option ℕ → M World (Unit {0})
  unfolding del
  delete_context m_context = when (is_some m_context) (del m_context)

  -- `get_client_version`; the text that is written ends with its terminator.
  unfoldable pub get_client_version : Option ℕ → M World Value
  get_client_version m_context = do
    (ret, buf) ← call (lib.ct_config_version m_context)
    if not (is_succeed ret)
        then (do
          raise (text "TDS-GET-CLIENT-VERSION-ERROR")
              (text "ct_config(CS_VER_STRING) failed with error " ++ format_int (ct.ret_number ret))
          pure nothing)
        else pure (string (take (length buf - 1) buf) (qore.number_of qore.qcs_default))
