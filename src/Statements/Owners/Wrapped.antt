-- ===== src/Statements/Owners/Wrapped.antt =====
-- The methods of `DBModuleWrap`, which go through the wrap of an `SQLStatement`, keep the invariant.
use module_sybase.Base.{
  ℕ, pos, negsuc, Bytes, Option, none, some, List, true, false, ◌≡◌, refl, is_nil, Bool-cases, inl,
  inr,
}
use module_sybase.Build.{Exception}
use module_sybase.Effect.{State, ModuleWrap}
use module_sybase.Effect.Fuelled.{F, ret, lift, caught, ◌>>=◌, ◌>>◌}
use module_sybase.Effect.FuelledKeeps.{fkeeps, FKeeps-ret, FKeeps-bind, FKeeps-caught}
use module_sybase.Effect.Keeps.{Keeps, keeps}
use module_sybase.Value.{Arg}
use module_sybase.Connection.Handles.{get_wrap}
use module_sybase.Connection.Library.{Env, Converted, converted, not_converted}
use module_sybase.Statements.Owners.{IsOwned, IsOwned-IsFrame, rewrapped-IsOwned}
use module_sybase.Statements.Owners.Methods.{exec-Keeps}
use module_sybase.Statements.Owners.Register.{
  Returns, Returns-Keeps, Returns-bind, module_wrap-Returns,
}
use module_sybase.Statements.Methods
use module_sybase.Statements.Wrap.{
  raise_error, run, module_wrap, made_wrap, prepare, prepare_raw, prepare_with, encode_sql, bind,
  close, change_wrap,
}
use module_sybase.Statements.Wrap

module _ (env : Env) where
  open env use {build, ct, lib, qore}
  open ct use {World}

  pub raise_error-Keeps : (e : Exception) → Keeps {W = World} IsOwned (raise_error e)
  unfolding raise_error
  raise_error-Keeps e = search (fkeeps, keeps, IsOwned-IsFrame) depth 20

  -- A method of an `SQLStatement` that has a wrap.
  wrapped :
      {A : Type 0} (method : ℕ → F World A) (h : Exception → F World A) (sql wrap : ℕ)
      (s : State World)
      → s.private_data sql ≡ some wrap
      → caught (module_wrap env sql >>= method) h s ≡ caught (method wrap) h s
  unfolding module_wrap made_wrap
  wrapped method h sql wrap s e = rw e refl

  wrapped_at :
      {A : Type 0} (a : A) (method : ℕ → F World A) (sql wrap : ℕ) (s : State World)
      → s.private_data sql ≡ some wrap
      → Keeps IsOwned (method wrap)
      → IsOwned s
      → IsOwned (caught (module_wrap env sql >>= method) (λ e. do raise_error e; ret a) s).1
  wrapped_at a method sql wrap s e k o =
      rw (wrapped method (λ x. do raise_error x; ret a) sql wrap s e) (
        (FKeeps-caught _ _ k (λ x. FKeeps-bind _ _ (raise_error-Keeps x) λ u. FKeeps-ret a)).at s o)

  pub run_at :
      {A : Type 0} (a : A) (method : ℕ → F World A) (sql wrap : ℕ) (s : State World)
      → s.private_data sql ≡ some wrap
      → Keeps IsOwned (method wrap)
      → IsOwned s
      → IsOwned (run env a method sql s).1
  unfolding run
  run_at a method sql wrap s e k o = elim (Bool-cases (is_nil s.sink)) [
    | inr n ↦ rw n o
    | inl n ↦ rw n (wrapped_at a method sql wrap s e k o)
  ]

  pub exec_at :
      (fuel sql wrap : ℕ) (s : State World)
      → s.private_data sql ≡ some wrap
      → IsOwned s
      → IsOwned (Wrap.exec env fuel sql s).1
  unfolding Wrap.exec
  exec_at fuel sql wrap s e o =
      wrapped_at (negsuc 0)
        (λ wrap. do w ← lift (get_wrap wrap); Methods.exec env fuel wrap w.query w.params w.raw) sql
        wrap s e (record { at = λ t p. (exec-Keeps env fuel wrap _ _ _).at t p }) o

  change_wrap-Keeps :
      (wrap : ℕ) (f : ModuleWrap → ModuleWrap)
      → ((w : ModuleWrap) → (f w).m.valid ≡ w.m.valid)
      → Keeps IsOwned (change_wrap env wrap f)
  change_wrap-Keeps wrap f e = record {
    at = λ s o. rewrapped-IsOwned s wrap (f (s.wraps wrap)) (e (s.wraps wrap)) o;
  }

  encode_sql-Keeps : (c : Converted) → Keeps IsOwned (encode_sql env c)
  unfolding encode_sql
  encode_sql-Keeps (converted t) = FKeeps-ret _
  encode_sql-Keeps (not_converted e) = search (fkeeps, keeps, IsOwned-IsFrame) depth 20

  prepare_with-Returns :
      (sql enc : ℕ) (str : Bytes) (args : Option (List Arg))
      → Returns env (prepare_with env sql enc str args)
  unfolding prepare_with
  prepare_with-Returns sql enc str args = Returns-bind env _ _ (module_wrap-Returns env sql) λ wrap.
      Returns-Keeps env _ (record {
        at = λ s o.
            (FKeeps-bind _ _
                (encode_sql-Keeps (qore.convert_encoding enc (qore.qore_encoding s.world) str))
                λ query.
                  FKeeps-bind _ _
                    (change_wrap-Keeps wrap (λ w. record w { query = query; params = args })
                      (λ w. refl))
                    λ u. FKeeps-ret (pos 0)).at
              s o;
      })

  pub prepare-Returns :
      (sql enc : ℕ) (str : Bytes) (args : Option (List Arg))
      → Returns env (prepare env sql enc str args)
  unfolding prepare
  prepare-Returns sql enc str args = Returns-bind env _ _ (module_wrap-Returns env sql) λ wrap.
      Returns-bind env _ _
        (Returns-Keeps env _ (change_wrap-Keeps wrap (λ w. record w { raw = false }) (λ w. refl)))
        λ u. prepare_with-Returns sql enc str args

  pub prepare_raw-Returns : (sql enc : ℕ) (str : Bytes) → Returns env (prepare_raw env sql enc str)
  unfolding prepare_raw
  prepare_raw-Returns sql enc str = Returns-bind env _ _ (module_wrap-Returns env sql) λ wrap.
      Returns-bind env _ _
        (Returns-Keeps env _ (change_wrap-Keeps wrap (λ w. record w { raw = true }) (λ w. refl)))
        λ u. prepare_with-Returns sql enc str none

  pub bind-Returns : (sql : ℕ) (l : List Arg) → Returns env (bind env sql l)
  unfolding bind
  bind-Returns sql l = Returns-bind env _ _ (module_wrap-Returns env sql) λ wrap.
      Returns-bind env _ _
        (Returns-Keeps env _
          (change_wrap-Keeps wrap (λ w. record w { params = some l }) (λ w. refl)))
        λ u. Returns-Keeps env _ (FKeeps-ret (pos 0))
