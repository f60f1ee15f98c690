-- ===== src/Command/Rows/SelectColumns.antt =====
-- `read_cols` on the rows that a server sends.
use module_sybase.Base.{
  ℕ, zero, suc, ◌<◌, pos, negsuc, eq_ℤ, ◌-ℤ◌, Bytes, Option, some, List, [], ◌∷◌, ◌++◌, length,
  Bool, true, false, not, ◌||◌, if◌then◌else◌, ◌≡◌, refl, arith, ap, ◌∙◌, sym, is_nil, append-nil,
  append_assoc, subst,
}
use module_sybase.Build.{Build}
use module_sybase.Ct.{CtLib, Datafmt, Cell, succeed}
use module_sybase.Effect.{State, ok}
use module_sybase.Value.{Value, Fields, end, field, hash}
use module_sybase.Value.Keys.{IsDistinct}
use module_sybase.Command.Names.Assign.{AreColumns}
use module_sybase.Command.Rows.{
  append_buffers_to_list, setup_columns, is_empty, read_cols_loop, read_cols,
}
use module_sybase.Command.Rows.Hash.{setup_columns-AreColumns}
use module_sybase.Command.Rows.Loop.{
  Fetches, Read, fetched_row, same_address, fetch_more, fetch_end,
}
use module_sybase.Command.Rows.Select.{IsReady, RowsDecode, ensure_colinfo_ready}
use module_sybase.Command.Rows.Transposed.{columns, columns-nil, append_buffers-AreColumns}

-- The hash of columns for these rows.
abbrev pub IsTransposed : Option (List Bytes) → List Datafmt → List (List Value) → Fields → Type 0
IsTransposed ph ds vals h = AreColumns ph 0 (columns ds vals) h × IsDistinct h

module _ (build : Build) (ct : CtLib) (this : ℕ) (ph : Option (List Bytes)) where
  below :
      (n : ℕ) → (negsuc n -ℤ pos 1 ≡ negsuc (suc n)) × (eq_ℤ (negsuc n -ℤ pos 1) (pos 0) ≡ false)
  unfolding ◌-ℤ◌
  below n = (ground arith, ground arith)

  -- A row that is fetched, where the lists are there or are made now.
  read_cols_loop_row :
      (x : List Cell) (g h k : Fields) (fuel n : ℕ) (s : State ct.World) (u : ct.World)
      → s.sink ≡ []
      → ct.ct_fetch (s.commands this).m_cmd s.world ≡ ((succeed, pos 1, x), u)
      → (if is_empty g then setup_columns ph (s.commands this).colinfo.datafmt 0 g else some g)
        ≡ some h
      → ((t : State ct.World)
          → t.conn ≡ s.conn
          → t.sink ≡ []
          → append_buffers_to_list build ct this (s.commands this).colinfo.datafmt x h t
            ≡ (ok (some k), t))
      → read_cols_loop build ct this (suc fuel) ph (negsuc n) g s
        ≡ read_cols_loop build ct this fuel ph (negsuc (suc n)) k (fetched_row build ct this s u x)
  unfolding read_cols_loop
  read_cols_loop_row x g h k fuel n s u e f starts makes =
      let t = fetched_row build ct this s u x in
      let formats : (t.commands this).colinfo.datafmt ≡ (s.commands this).colinfo.datafmt =
        rw (same_address build ct this) refl in
      let buffers : (t.commands this).out_buffers ≡ x = rw (same_address build ct this) refl in
      let begun =
        ap (λ a. if is_empty g then setup_columns ph a 0 g else some g) formats ∙ starts in
      let row =
        ap (λ b. append_buffers_to_list build ct this (t.commands this).colinfo.datafmt b h t)
          buffers
        ∙ ap (λ a. append_buffers_to_list build ct this a x h t) formats
        ∙ makes t refl e in
      rw (fetch_more build ct this s x u f, begun, row, (below n).1, (below n).0) refl

  has_lists :
      (ds : List Datafmt) (vals : List (List Value)) (g : Fields)
      → is_nil ds ≡ false
      → AreColumns ph 0 (columns ds vals) g
      → is_empty g ≡ false
  unfolding columns
  has_lists [] vals g n a = cc
  has_lists (d ∷ ds) vals end n a = absurd a
  has_lists (d ∷ ds) vals (field k v g) n a = refl

  read_cols_loop-Read :
      (ds : List Datafmt) (rows : List (List Cell)) (vals acc : List (List Value)) (g : Fields)
      (fuel n : ℕ) (s : State ct.World) (w : ct.World)
      → s.sink ≡ []
      → is_nil ds ≡ false
      → (s.commands this).colinfo.datafmt ≡ ds
      → Fetches build ct this (s.commands this).m_cmd s.world rows w
      → RowsDecode build s.conn ds rows vals
      → length rows < fuel
      → AreColumns ph 0 (columns ds acc) g
      → IsDistinct g
      → (h : Fields) × Read build ct this
          (read_cols_loop build ct this fuel ph (negsuc n) g s)
          (hash h)
          w
        × AreColumns ph 0 (columns ds (acc ++ vals)) h
        × IsDistinct h
  unfolding read_cols_loop
  read_cols_loop-Read ds rows vals acc g zero n s w e b c f d l a k = absurd (omega arith)
  read_cols_loop-Read ds [] [] acc g (suc fuel) n s w e b c (m, cells, f) d l a k = (
    g,
    rw (fetch_end build ct this s m cells w f, same_address build ct this) (refl, refl, e, refl),
    subst (λ v. AreColumns ph 0 (columns ds v) g) (sym (append-nil acc)) a,
    k,
  )
  read_cols_loop-Read ds [] (vs ∷ vals) acc g (suc fuel) n s w e b c f d l a k = absurd d
  read_cols_loop-Read ds (x ∷ rows) [] acc g (suc fuel) n s w e b c f d l a k = absurd d
  read_cols_loop-Read ds (x ∷ rows) (vs ∷ vals) acc g (suc fuel) n s w e b c (u, f, fs) (d, more) l
        a k =
      let t = fetched_row build ct this s u x in
      let (h, makes, are, same) =
        append_buffers-AreColumns build ct this ph s.conn ds x vs acc 0 g a d in
      let full = has_lists ds acc g b a in
      let (r, reads, all, distinct) =
        read_cols_loop-Read ds rows vals (acc ++ vs ∷ []) h fuel (suc n) t w e b
          (rw (same_address build ct this) c) (rw (same_address build ct this) fs) more
          (omega (arith, l)) are (same.keeps_distinct k) in
      let step = read_cols_loop_row x g g h fuel n s u e f (rw full refl) (rw c makes) in
      (
        r,
        rw step reads,
        subst (λ v. AreColumns ph 0 (columns ds v) r) (append_assoc acc (vs ∷ []) vals) all,
        distinct,
      )

  -- With no exception, columns that are bound, rows that can be read and fuel for one round more
  -- than there are rows, a select of columns gives a hash with a list for each column, under distinct
  -- names, which holds the column's values in the order of the rows. Where there is no row and no
  -- description is asked for, this is left open.
  pub read_cols-Read :
      (rows : List (List Cell)) (vals : List (List Value)) (fuel : ℕ) (cols : Bool)
      (s : State ct.World) (w : ct.World)
      → s.sink ≡ []
      → IsReady (s.commands this).colinfo
      → Fetches build ct this (s.commands this).m_cmd s.world rows w
      → RowsDecode build s.conn (s.commands this).colinfo.datafmt rows vals
      → length rows < fuel
      → (cols || not (is_nil rows)) ≡ true
      → (h : Fields) × Read build ct this
          (read_cols build ct this fuel ph (negsuc 0) cols s)
          (hash h)
          w
        × IsTransposed ph (s.commands this).colinfo.datafmt vals h
  unfolding read_cols
  read_cols-Read rows vals fuel true s w e ready f d l b =
      let ds = (s.commands this).colinfo.datafmt in
      let (g, starts, distinct, are) = setup_columns-AreColumns ph ds in
      let (h, reads, named', distinct') =
        read_cols_loop-Read ds rows vals [] g fuel 0 s w e ready.1 refl f d l
          (subst (λ c. AreColumns ph 0 c g) (sym (columns-nil ds)) are) distinct in
      (
        h,
        rw (ensure_colinfo_ready build ct this s ready, ap is_nil e, starts) reads,
        (named', distinct'),
      )
  read_cols-Read [] vals fuel false s w e ready f d l b = absurd (ground arith)
  read_cols-Read (x ∷ rows) [] fuel false s w e ready f d l b = absurd d
  read_cols-Read (x ∷ rows) (vs ∷ vals) zero false s w e ready f d l b = absurd (omega arith)
  read_cols-Read (x ∷ rows) (vs ∷ vals) (suc fuel) false s w e ready (u, f, fs) (d, more) l b =
      let ds = (s.commands this).colinfo.datafmt in
      let t = fetched_row build ct this s u x in
      let (g, starts, distinct, are) = setup_columns-AreColumns ph ds in
      let (k, makes, named, same) =
        append_buffers-AreColumns build ct this ph s.conn ds x vs [] 0 g
          (subst (λ c. AreColumns ph 0 c g) (sym (columns-nil ds)) are) d in
      let (h, reads, named', distinct') =
        read_cols_loop-Read ds rows vals (vs ∷ []) k fuel 1 t w e ready.1
          (rw (same_address build ct this) refl) (rw (same_address build ct this) fs) more
          (omega (arith, l)) named (same.keeps_distinct distinct) in
      let step = read_cols_loop_row x end g k fuel 0 s u e f starts makes in
      (
        h,
        rw (ensure_colinfo_ready build ct this s ready, ap is_nil e, step) reads,
        (named', distinct'),
      )
