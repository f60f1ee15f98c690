-- ===== src/Driver/Opened.antt =====
-- `sybase_open` of src/sybase.cpp: its result against the exceptions that it leaves.
use module_sybase.Base.{
  ℕ, ℤ, pos, negsuc, Bytes, Option, none, some, Bool, true, false, ◌⊎◌, inl, inr, ◌≡◌, refl,
  Bool-cases, is_nil, if◌then◌else◌, ◌==◌,
}
use module_sybase.Build.{Exception}
use module_sybase.Effect.{State, Outcome, ok, thrown, fault, has_exception}
use module_sybase.Effect.Fuelled.{
  F, fuelled, handled, caught, rethrow, lifted, ret, lift, ◌>>=◌, ◌>>◌,
}
use module_sybase.Effect.Keeps.{Keeps, keeps, Keeps-bind, Keeps-gets}
use module_sybase.Connection.Context.{new_context}
use module_sybase.Connection.Context.Keeps.{delete_context-Keeps}
use module_sybase.Connection.Handles.{set_conn, close_handle, destruct, delete_connection}
use module_sybase.Connection.Keeps.{IsQueryFrame, after_destructor-Keeps}
use module_sybase.Connection.Library.{Env}
use module_sybase.Connection.Login.{init}
use module_sybase.Connection.Lost.{
  HasException, HasException-IsFrame, HasException-IsQueryFrame, is_nil-append,
}
use module_sybase.Encoding.{qore_encoding_to_sybase_name}
use module_sybase.Driver.{callback}
use module_sybase.Driver.Open.{
  new_connection, named, refuse, choose_encoding, open_connection, check_address, open_named,
  sybase_open,
}
use module_sybase.Statements.Wrap.{raise_error}

-- Where there is a result, it is 0 without an exception, and -1 with one.
pub Agrees : {W : Type 0} → Outcome (Option ℤ) × State W → Type 0
Agrees (ok (some rc), t) =
    ((rc ≡ pos 0) × (is_nil t.sink ≡ true)) ⊎ ((rc ≡ negsuc 0) × HasException t)
Agrees (ok none, t) = Unit
Agrees (thrown e, t) = Unit
Agrees (fault, t) = Unit

module _ {W : Type 0} where
  fuelled-Agrees :
      {A : Type 0} (o : Outcome (Option A)) (f : A → F W ℤ) (s : State W)
      → ((a : A) (t : State W) → Agrees (f a t))
      → Agrees (fuelled o f s)
  unfolding Agrees
  fuelled-Agrees (ok (some a)) f s h = h a s
  fuelled-Agrees (ok none) f s h = tt
  fuelled-Agrees (thrown e) f s h = tt
  fuelled-Agrees fault f s h = tt

  handled-Agrees :
      (h : Exception → F W ℤ) (r : Outcome (Option ℤ) × State W)
      → ((e : Exception) (t : State W) → Agrees (h e t))
      → Agrees r
      → Agrees (handled h r)
  unfolding Agrees
  handled-Agrees h (ok (some a), s) k a' = a'
  handled-Agrees h (ok none, s) k a' = tt
  handled-Agrees h (thrown e, s) k a' = k e s
  handled-Agrees h (fault, s) k a' = tt

  -- `if (*xsink)`
  stop-Agrees :
      (a b : F W ℤ) (t : State W)
      → (HasException t → Agrees (a t))
      → (is_nil t.sink ≡ true → Agrees (b t))
      → Agrees ((lift has_exception >>= λ stop. if stop then a else b) t)
  stop-Agrees a b t ka kb = elim (Bool-cases (is_nil t.sink)) [
    | inl n ↦ rw n (kb n)
    | inr n ↦ rw n (ka n)
  ]

module _ (env : Env) where
  open env use {build, ct, lib, qore}
  open ct use {World}

  exceptions : IsQueryFrame env HasException
  exceptions = HasException-IsQueryFrame env

  close_handle-Keeps : (c : Option ℕ) → Keeps HasException (close_handle env c)
  unfolding close_handle
  close_handle-Keeps c = search (keeps, HasException-IsFrame) depth 20

  destruct-Keeps : Keeps HasException (destruct env)
  unfolding destruct
  destruct-Keeps =
      Keeps-bind _ _ exceptions.by_invalidate λ u. search (keeps, close_handle-Keeps) depth 20

  delete_connection-Keeps : Keeps HasException (delete_connection env)
  unfolding delete_connection
  delete_connection-Keeps = record {
    at = λ s h. after_destructor-Keeps env exceptions (ok tt) _ (
        (Keeps-bind _ _ destruct-Keeps λ u.
            Keeps-bind _ _ (Keeps-gets _) λ c. delete_context-Keeps env HasException-IsFrame c).at
          s h);
  }

  deleted :
      (s : State World)
      → HasException s
      → Agrees ((lift (delete_connection env) >>= λ _. ret (negsuc 0)) s)
  unfolding Agrees
  deleted s h =
      after (delete_connection env s).0 (delete_connection env s).1 (delete_connection-Keeps.at s h)
    where
      after :
          (o : Outcome (Unit {0})) (t : State World)
          → HasException t
          → Agrees (fuelled (lifted o) (λ _. ret (negsuc 0)) t)
      after (ok u) t k = inr (refl, k)
      after (thrown e) t k = tt
      after fault t k = tt

  refuse-Agrees : (err desc : Bytes) (s : State World) → Agrees (refuse env err desc s)
  refuse-Agrees err desc s = deleted _ (is_nil-append s.sink _)

  open_connection-Agrees : (fuel : ℕ) (s : State World) → Agrees (open_connection env fuel s)
  unfolding open_connection Agrees
  open_connection-Agrees fuel s =
      let r = caught (init env fuel) (λ e. lift (delete_connection env) >>= λ _. rethrow e) s in
      fuelled-Agrees r.0 _ r.1 λ a t.
        stop-Agrees (lift (delete_connection env) >>= λ _. ret (negsuc 0)) (ret (pos 0)) t
          (deleted t) (λ n. inl (refl, n))

  check_address-Agrees :
      (fuel : ℕ) (h : Option Bytes) (port : ℕ) (s : State World)
      → Agrees (check_address env fuel h port s)
  unfolding check_address
  check_address-Agrees fuel none port s = elim (Bool-cases (port == 0)) [
    | inl e ↦ rw e (open_connection-Agrees fuel s)
    | inr e ↦ rw e (refuse-Agrees _ _ s)
  ]
  check_address-Agrees fuel (some h) port s = elim (Bool-cases (port == 0)) [
    | inl e ↦ rw e (refuse-Agrees _ _ s)
    | inr e ↦ rw e (open_connection-Agrees fuel s)
  ]

  named-Agrees :
      (o : Option Bytes) (m : F World ℤ) (f : Bytes → F World ℤ) (s : State World)
      → Agrees (m s)
      → ((t : Bytes) → Agrees (f t s))
      → Agrees (named o m f s)
  named-Agrees none m f s a k = a
  named-Agrees (some t) m f s a k = k t

  -- What `open_named` does when the encoding is chosen.
  abbrev opened : ℕ → Bool → F World ℤ
  opened fuel failed = if failed then ret (negsuc 0) else (do
    m_context ← lift (new_context env)
    lift (set_conn (λ c. new_connection m_context))
    stop ← lift has_exception
    if stop
        then (do lift (delete_connection env); ret (negsuc 0))
        else check_address env fuel qore.host_name qore.port)

  rest-Agrees : (fuel : ℕ) (s : State World) → Agrees (opened fuel false s)
  rest-Agrees fuel s =
      let r = lift (new_context env) s in
      fuelled-Agrees r.0 _ r.1 λ m t.
        let u = record t { conn = new_connection m } in
        stop-Agrees (lift (delete_connection env) >>= λ _. ret (negsuc 0))
          (check_address env fuel qore.host_name qore.port) u (deleted u)
          (λ n. check_address-Agrees fuel qore.host_name qore.port u)

  named_then-Agrees :
      (o : Option Bytes) (m : F World Bool) (f : Bytes → F World Bool) (g : Bool → F World ℤ)
      (s : State World)
      → Agrees ((m >>= g) s)
      → ((t : Bytes) → Agrees ((f t >>= g) s))
      → Agrees ((named o m f >>= g) s)
  named_then-Agrees none m f g s a k = a
  named_then-Agrees (some t) m f g s a k = k t

  chosen-Agrees :
      (fuel : ℕ) (name : Option Bytes) (s : State World)
      → Agrees ((choose_encoding env name >>= opened fuel) s)
  unfolding choose_encoding Agrees
  chosen-Agrees fuel (some name) s = rest-Agrees fuel _
  chosen-Agrees fuel none s =
      named_then-Agrees (qore_encoding_to_sybase_name qore.qcs_default) _ _ (opened fuel) s
        (inr (refl, is_nil-append s.sink _)) (λ t. rest-Agrees fuel _)

  open_named-Agrees : (fuel : ℕ) (s : State World) → Agrees (open_named env fuel s)
  unfolding open_named
  open_named-Agrees fuel s = chosen-Agrees fuel (qore.db_encoding s.world) s

  raised-Agrees :
      (e : Exception) (t : State World) → Agrees ((raise_error e >>= λ _. ret (negsuc 0)) t)
  unfolding raise_error Agrees
  raised-Agrees e t = elim (Bool-cases (is_nil t.sink)) [
    | inl n ↦ rw n (inr (refl, is_nil-append t.sink e))
    | inr n ↦ rw n (inr (refl, n))
  ]

  -- Where `sybase_open` returns, it returns 0 if there is no exception then, and -1 if there is one,
  -- whatever the library, the server and the state are.
  pub sybase_open-Agrees : (fuel : ℕ) (s : State World) → Agrees (sybase_open env fuel s)
  unfolding sybase_open callback Agrees
  sybase_open-Agrees fuel s = handled-Agrees _ _ raised-Agrees (
      named-Agrees qore.username _ _ s (inr (refl, is_nil-append s.sink _)) λ u.
        named-Agrees qore.db_name _ _ s (inr (refl, is_nil-append s.sink _))
          λ d. open_named-Agrees fuel s)
