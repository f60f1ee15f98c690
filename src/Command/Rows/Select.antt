-- ===== src/Command/Rows/Select.antt =====
-- What `read_rows` returns for the rows that a server sends, for a select of rows and of one row.
use module_sybase.Base.{
  ℕ, suc, ◌<◌, Bytes, Option, some, List, [], ◌∷◌, ◌++◌, length, true, false, ◌≡◌, refl, ap, sym,
  is_nil, subst,
}
use module_sybase.Build.{Build}
use module_sybase.Ct.{CtLib, Datafmt, Cell}
use module_sybase.Effect.{State, Connection, Columns, ok}
use module_sybase.Value.{Value, nothing, Fields, end}
use module_sybase.Value.Keys.{IsDistinct}
use module_sybase.Command.Names.Assign.{AreColumns}
use module_sybase.Command.Describe.{ensure_colinfo}
use module_sybase.Command.Rows.{output_buffers_to_hash, read_rows}
use module_sybase.Command.Rows.Hash.{Decodes, columns_of, output_buffers_to_hash-AreColumns}
use module_sybase.Command.Rows.Loop.{
  rows_value, fetched_row, same_address, Fetches, AreHashes, Read, read_rows_loop-Read,
  read_rows_loop_row, too_many,
}

-- The columns have been described and bound.
abbrev pub IsReady : Columns → Type 0
IsReady c = (c.dirty ≡ false) × (is_nil c.datafmt ≡ false)

-- The buffers of each row hold its values.
abbrev pub RowsDecode :
    Build → Connection → List Datafmt → List (List Cell) → List (List Value) → Type 0
RowsDecode build conn ds [] [] = Unit
RowsDecode build conn ds (cells ∷ rows) (vs ∷ vals) =
    Decodes build conn ds cells vs × RowsDecode build conn ds rows vals
RowsDecode build conn ds _ _ = ⊥

-- Each hash has a field for each column, with its row's value, under distinct names.
abbrev pub RowsAre : Option (List Bytes) → List Datafmt → List (List Value) → List Fields → Type 0
RowsAre ph ds [] [] = Unit
RowsAre ph ds (vs ∷ vals) (g ∷ gs) =
    (IsDistinct g × AreColumns ph 0 (columns_of ds vs) g) × RowsAre ph ds vals gs
RowsAre ph ds _ _ = ⊥

module _ (build : Build) (ct : CtLib) (this : ℕ) where
  pub ensure_colinfo_ready :
      (s : State ct.World)
      → IsReady (s.commands this).colinfo
      → ensure_colinfo build ct this s ≡ (ok false, s)
  unfolding ensure_colinfo
  ensure_colinfo_ready s h = rw (h.0, h.1) refl

  hashes :
      (ph : Option (List Bytes)) (conn : Connection) (ds : List Datafmt) (rows : List (List Cell))
      (vals : List (List Value))
      → RowsDecode build conn ds rows vals
      → (gs : List Fields) × AreHashes build ct this ph conn ds rows gs × RowsAre ph ds vals gs
  hashes ph conn ds [] [] d = ([], tt, tt)
  hashes ph conn ds [] (vs ∷ vals) d = absurd d
  hashes ph conn ds (x ∷ rows) [] d = absurd d
  hashes ph conn ds (x ∷ rows) (vs ∷ vals) (d, more) =
      let (g, makes, distinct, named) =
        output_buffers_to_hash-AreColumns build ct this ph conn ds x vs d in
      let (gs, are, all) = hashes ph conn ds rows vals more in
      (g ∷ gs, (makes, are), ((distinct, named), all))

  -- With no exception, columns that are bound, rows that can be read and fuel for one round more
  -- than there are rows, a select gives all of them: its value is nothing, a hash or a list of
  -- hashes, one for each row, in their order, with a field for each column. No exception is raised
  -- and the command is ready for further results.
  pub read_rows-Read :
      (ph : Option (List Bytes)) (rows : List (List Cell)) (vals : List (List Value)) (fuel : ℕ)
      (s : State ct.World) (w : ct.World)
      → s.sink ≡ []
      → IsReady (s.commands this).colinfo
      → Fetches build ct this (s.commands this).m_cmd s.world rows w
      → RowsDecode build s.conn (s.commands this).colinfo.datafmt rows vals
      → length rows < fuel
      → (gs : List Fields) × Read build ct this
          (read_rows build ct this fuel ph false s)
          (rows_value gs)
          w
        × RowsAre ph (s.commands this).colinfo.datafmt vals gs
  unfolding read_rows rows_value
  read_rows-Read ph rows vals fuel s w n ready f d l =
      let ds = (s.commands this).colinfo.datafmt in
      let (gs, are, all) = hashes ph s.conn ds rows vals d in
      (
        gs,
        rw (ensure_colinfo_ready s ready)
            (read_rows_loop-Read build ct this ph ds rows gs [] fuel s w n refl f are l),
        all,
      )

  -- A select of a single row fails as soon as it has fetched a second row: it returns nothing and
  -- raises DBI-SELECT-ROW-ERROR. The columns are bound and the first two rows can be read.
  pub read_rows_single :
      (ph : Option (List Bytes)) (x y : List Cell) (rows : List (List Cell)) (vs us : List Value)
      (fuel : ℕ) (s : State ct.World) (w : ct.World)
      → s.sink ≡ []
      → IsReady (s.commands this).colinfo
      → Fetches build ct this (s.commands this).m_cmd s.world (x ∷ y ∷ rows) w
      → Decodes build s.conn (s.commands this).colinfo.datafmt x vs
      → Decodes build s.conn (s.commands this).colinfo.datafmt y us
      → let r = read_rows build ct this (suc (suc fuel)) ph true s in
        (r.0 ≡ ok (some nothing)) × (r.1.sink ≡ too_many ∷ [])
  unfolding read_rows rows_value
  read_rows_single ph x y rows vs us fuel s w n ready (u, f, (u', f', fs)) d e =
      let ds = (s.commands this).colinfo.datafmt in
      let t = fetched_row build ct this s u x in
      let (g, makes, _, _) = output_buffers_to_hash-AreColumns build ct this ph s.conn ds x vs d in
      let (h, makes', _, _) = output_buffers_to_hash-AreColumns build ct this ph s.conn ds y us e in
      let same : (t.commands this).colinfo.datafmt ≡ ds = rw (same_address build ct this) refl in
      let first = read_rows_loop_row build ct this ph x g [] (suc fuel) true s u n f makes in
      let second =
        read_rows_loop_row build ct this ph y h (g ∷ []) fuel true t u' n
          (rw (same_address build ct this) f')
          (subst
            (λ a.
              (z : State ct.World)
              → z.conn ≡ s.conn
              → z.sink ≡ []
              → output_buffers_to_hash build ct this ph a y 0 end z ≡ (ok (some h), z))
            (sym same) makes') in
      rw (ensure_colinfo_ready s ready, first, second) (refl, ap (λ l. l ++ too_many ∷ []) n)
