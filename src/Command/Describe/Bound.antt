-- ===== src/Command/Describe/Bound.antt =====
-- After `retr_colinfo` every column is described and has a buffer that is large enough.
use module_sybase.Base.{
  ℕ, zero, suc, ◌<◌, ◌≤◌, ◌==◌, ltb_ℤ, pos, List, [], ◌∷◌, length, true, false, if◌then◌else◌, ◌≡◌,
  refl, arith, ap, ◌∙◌, sym, is_nil, Bool-cases, inl, inr, ==_iff, subst,
}
use module_sybase.Build.{Build}
use module_sybase.Ct.{CtLib, Datafmt, Cell, is_succeed}
use module_sybase.Effect.{State, Command, Columns, Outcome, ok, thrown, fault, M, follow}
use module_sybase.Command.Results.Errors.{after_exception}
use module_sybase.Command.Describe.{
  buffer_size, zeros, output_value_buffer, get_column_count, get_row_description,
  setup_output_buffers, bind_columns, describe_columns, retr_colinfo,
}

-- The buffers have room for the columns' values, in their order: each has at least 8 bytes, and one
-- byte more than the longest value of its column.
abbrev pub Fit : List Datafmt → List Cell → Type 0
Fit [] [] = Unit
Fit (d ∷ ds) (c ∷ cs) = ((8 ≤ length c.value) × (d.maxlength < length c.value)) × Fit ds cs
Fit _ _ = ⊥

abbrev pub IsBound : Command → Type 0
IsBound c =
    (c.colinfo.dirty ≡ false)
    × (is_nil c.colinfo.datafmt ≡ false)
    × Fit c.colinfo.datafmt c.out_buffers

buffer_size_bounds : (n : ℕ) → (8 ≤ buffer_size n) × (n < buffer_size n)
unfolding buffer_size
buffer_size_bounds n = (ground arith, ground arith)

length-zeros : (n : ℕ) → length (zeros n) ≡ n
unfolding zeros
length-zeros zero = refl
length-zeros (suc n) = omega (arith, length-zeros n)

-- What has returned has returned from its first part.
follow-ok :
    {W A B : Type 0} (o : Outcome A × State W) (f : A → M W B) {b : B} {s' : State W}
    → follow o.0 f o.1 ≡ (ok b, s')
    → (a : A) × (t : State W) × (o ≡ (ok a, t)) × (f a t ≡ (ok b, s'))
follow-ok (ok a, t) f e = (a, t, refl, e)
follow-ok (thrown x, t) f e = absurd (ground arith)
follow-ok (fault, t) f e = absurd (ground arith)

module _ (build : Build) (ct : CtLib) (this : ℕ) where
  get_column_count_pos :
      (s s' : State ct.World) (n : ℕ) → get_column_count build ct this s ≡ (ok n, s') → 0 < n
  unfolding get_column_count
  get_column_count_pos s s' n e =
      let r = ct.ct_res_info_numdata (s.commands this).m_cmd s.world in
      elim (Bool-cases (is_succeed r.0.0)) [
        | inr k ↦ absurd (after_exception ct _ _ _ _ _ (rw k at e))
        | inl k ↦ elim (Bool-cases (ltb_ℤ (pos 0) r.0.1)) [
          | inr l ↦ absurd (after_exception ct _ _ _ _ _ (rw (k, l) at e))
          | inl l ↦ ground (arith, k, l, rw (k, l) at e)
        ]
      ]

  get_row_description-length :
      (total n i : ℕ) (s s' : State ct.World) (ds : List Datafmt)
      → get_row_description build ct this total n i s ≡ (ok ds, s')
      → length ds ≡ n
  unfolding get_row_description
  get_row_description-length total zero i s s' ds e = ground arith
  get_row_description-length total (suc n) i s s' ds e =
      let r = ct.ct_describe (s.commands this).m_cmd (suc i) s.world in
      elim (Bool-cases (is_succeed r.0.0)) [
        | inr k ↦ absurd (after_exception ct _ _ _ _ _ (rw k at e))
        | inl k ↦
            let (rest, t, h, e') =
              follow-ok
                (get_row_description build ct this total n (suc i) (record s { world = r.1 })) _
                (rw k at e) in
            ground (arith, get_row_description-length total n (suc i) _ t rest h, e')
      ]

  setup_output_buffers-Fit :
      (ds : List Datafmt) (i : ℕ) (s s' : State ct.World) (cs : List Cell)
      → setup_output_buffers build ct this ds i s ≡ (ok cs, s')
      → Fit ds cs
  unfolding setup_output_buffers
  setup_output_buffers-Fit [] i s s' [] e = tt
  setup_output_buffers-Fit [] i s s' (c ∷ cs) e = absurd (ground arith)
  setup_output_buffers-Fit (d ∷ ds) i s s' cs e =
      let r = ct.ct_bind (s.commands this).m_cmd (suc i) d s.world in
      elim (Bool-cases (is_succeed r.0)) [
        | inr k ↦ absurd (after_exception ct _ _ _ _ _ (rw k at e))
        | inl k ↦
            let (rest, t, h, e') =
              follow-ok (setup_output_buffers build ct this ds (suc i) (record s { world = r.1 })) _
                (rw k at e) in
            let fit = setup_output_buffers-Fit ds (suc i) _ t rest h in
            let here : output_value_buffer d.maxlength ∷ rest ≡ cs = ground arith in
            subst (Fit (d ∷ ds)) here (size_of d.maxlength, fit)
      ]
    where
      length_of : (n : ℕ) → length (output_value_buffer n).value ≡ buffer_size n
      length_of n = unfold output_value_buffer in length-zeros (buffer_size n)

      size_of :
          (n : ℕ)
          → (8 ≤ length (output_value_buffer n).value) × (n < length (output_value_buffer n).value)
      size_of n = rw (length_of n) (buffer_size_bounds n)

  bind_columns-Fit :
      (ds : List Datafmt) (s s' : State ct.World)
      → bind_columns build ct this ds s ≡ (ok false, s')
      → ((s'.commands this).colinfo ≡ record { dirty = false; datafmt = ds })
        × Fit ds (s'.commands this).out_buffers
  unfolding bind_columns
  bind_columns-Fit ds s s' e =
      let t = record s {
        commands = λ a.
            if a == this
            then record (s.commands this) {
              colinfo = record { dirty = true; datafmt = ds };
              out_buffers = [];
            }
            else s.commands a;
      } in
      let (cs, u, k, e') = follow-ok (setup_output_buffers build ct this ds 0 t) _ e in
      let info : (s'.commands this).colinfo ≡ record { dirty = false; datafmt = ds } =
        ground (arith, e', same_address) in
      let buffers : cs ≡ (s'.commands this).out_buffers = ground (arith, e', same_address) in
      (info, subst (Fit ds) buffers (setup_output_buffers-Fit ds 0 t u cs k))
    where
      same_address : (this == this) ≡ true
      same_address = (==_iff this this).1 refl

  describe_columns-IsBound :
      (n : ℕ) (s s' : State ct.World)
      → 0 < n
      → describe_columns build ct this n s ≡ (ok false, s')
      → IsBound (s'.commands this)
  unfolding describe_columns
  describe_columns-IsBound n s s' l e =
      let t = record s {
        commands = λ a.
            if a == this
            then record (s.commands this) { colinfo = record { dirty = true; datafmt = [] } }
            else s.commands a;
      } in
      let (ds, u, k, e') = follow-ok (get_row_description build ct this n n 0 t) _ e in
      let (info, fit) = bind_columns-Fit ds u s' e' in
      let long = get_row_description-length n n 0 t u ds k in
      (
        ap (λ (c : Columns). c.dirty) info,
        ap (λ (c : Columns). is_nil c.datafmt) info ∙ some_columns ds (omega (arith, l, long)),
        subst (λ (c : Columns). Fit c.datafmt (s'.commands this).out_buffers) (sym info) fit,
      )
    where
      some_columns : (l : List Datafmt) → 0 < length l → is_nil l ≡ false
      some_columns [] h = absurd (omega (arith, h))
      some_columns (x ∷ l) h = refl

  -- Where `retr_colinfo` succeeds, whatever the library does, the columns are marked as described,
  -- there is at least one, and each has a buffer of at least 8 bytes, and of one byte more than its
  -- longest value.
  pub retr_colinfo-IsBound :
      (s s' : State ct.World)
      → retr_colinfo build ct this s ≡ (ok false, s')
      → IsBound (s'.commands this)
  unfolding retr_colinfo
  retr_colinfo-IsBound s s' e =
      let (n, t, k, e') = follow-ok (get_column_count build ct this s) _ e in
      elim (Bool-cases (is_nil t.sink)) [
        | inr h ↦ absurd (ground (arith, rw h at e'))
        | inl h ↦ describe_columns-IsBound n t s' (get_column_count_pos s t n k) (rw h at e')
      ]
