-- ===== src/Connection/Context/Keeps.antt =====
-- What the methods of `context` of src/connection.h keep.
use module_sybase.Base.{ℕ, Option}
use module_sybase.Effect.{State}
use module_sybase.Effect.Keeps.{Keeps, IsFrame, keeps}
use module_sybase.Connection.Context.{del, new_context, delete_context, get_client_version}
use module_sybase.Connection.Library.{Env}

module _ (env : Env) {P : State env.ct.World → Type 0} (frame : IsFrame P) where
  del-Keeps : (c : Option ℕ) → Keeps P (del env c)
  unfolding del
  del-Keeps c = search (keeps, frame) depth 20

  pub new_context-Keeps : Keeps P (new_context env)
  unfolding new_context
  new_context-Keeps = search (keeps, frame, del-Keeps) depth 20

  pub delete_context-Keeps : (c : Option ℕ) → Keeps P (delete_context env c)
  unfolding delete_context
  delete_context-Keeps c = search (keeps, del-Keeps) depth 20

  pub get_client_version-Keeps : (c : Option ℕ) → Keeps P (get_client_version env c)
  unfolding get_client_version
  get_client_version-Keeps c = search (keeps, frame) depth 20
