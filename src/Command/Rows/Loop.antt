-- ===== src/Command/Rows/Loop.antt =====
-- `read_rows`: nothing, one hash or a list of hashes, one for each row that the library fetches.
use module_sybase.Base.{
  ℕ, zero, suc, ◌<◌, ◌==◌, ℤ, pos, Bytes, Option, some, List, [], ◌∷◌, ◌++◌, map, length, Bool,
  true, false, ◌&&◌, if◌then◌else◌, ◌≡◌, refl, arith, ap, ◌∙◌, sym, is_nil, text, append-nil,
  append_assoc, ==_iff,
}
use module_sybase.Build.{Build, Exception, exception}
use module_sybase.Ct.{CtLib, Datafmt, Cell, succeed, end_data}
use module_sybase.Effect.{State, Connection, Command, Outcome, ok, res_none}
use module_sybase.Value.{Value, nothing, list, hash, cons, Fields, end, push, items_of}
use module_sybase.Command.Rows.{
  fetch_row_into_buffers, output_buffers_to_hash, add_row, is_second, read_rows_loop,
}

-- The value of some rows.
unfoldable pub rows_value : List Fields → Value
unfolding items_of
rows_value [] = nothing
rows_value (g ∷ []) = hash g
rows_value (g ∷ h ∷ gs) = list (items_of (map hash (g ∷ h ∷ gs)))

pub push-items_of : (l : List Value) (v : Value) → push (items_of l) v ≡ items_of (l ++ v ∷ [])
unfolding push items_of
push-items_of [] v = refl
push-items_of (w ∷ l) v = ap (cons w) (push-items_of l v)

pub map-append : (l m : List Fields) → map hash (l ++ m) ≡ map hash l ++ map hash m
map-append [] m = refl
map-append (g ∷ l) m = ap (◌∷◌ (hash g)) (map-append l m)

pub add_row-rows_value :
    (gs : List Fields) (g : Fields) → add_row (rows_value gs) (hash g) ≡ rows_value (gs ++ g ∷ [])
unfolding add_row rows_value push items_of
add_row-rows_value [] g = refl
add_row-rows_value (h ∷ []) g = refl
add_row-rows_value (h ∷ k ∷ gs) g = ap list (
    ap (λ l. cons (hash h) (cons (hash k) l))
      (push-items_of (map hash gs) (hash g) ∙ ap items_of (sym (map-append gs (g ∷ [])))))

pub is_second-rows_value : (gs : List Fields) → is_second (rows_value gs) ≡ (length gs == 1)
unfolding rows_value
is_second-rows_value [] = refl
is_second-rows_value (g ∷ []) = refl
is_second-rows_value (g ∷ h ∷ gs) = ground arith

if_apply :
    {A B : Type 0} (b : Bool) (f g : A → B) (a : A)
    → (if b then f else g) a ≡ (if b then f a else g a)
if_apply true f g a = refl
if_apply false f g a = refl

abbrev pub too_many : Exception
too_many =
    exception (text "DBI-SELECT-ROW-ERROR")
      (text "SQL passed to selectRow() returned more than 1 row")

module _ (build : Build) (ct : CtLib) (this : ℕ) where
  -- What the driver relies on of `ct_fetch`: it gives the rows one by one, and CS_END_DATA then.
  abbrev pub Fetches : Option ℕ → ct.World → List (List Cell) → ct.World → Type 0
  Fetches cmd w [] w' =
      (n : ℤ) × (cells : List Cell) × (ct.ct_fetch cmd w ≡ ((end_data, n, cells), w'))
  Fetches cmd w (cells ∷ rows) w' =
      (u : ct.World) × (ct.ct_fetch cmd w ≡ ((succeed, pos 1, cells), u)) × Fetches cmd u rows w'

  -- The rows are these hashes, for `output_buffers_to_hash`.
  abbrev pub AreHashes :
      Option (List Bytes) → Connection → List Datafmt → List (List Cell) → List Fields → Type 0
  AreHashes ph conn ds [] [] = Unit
  AreHashes ph conn ds (cells ∷ rows) (g ∷ gs) =
      ((s : State ct.World)
        → s.conn ≡ conn
        → s.sink ≡ []
        → output_buffers_to_hash build ct this ph ds cells 0 end s ≡ (ok (some g), s))
      × AreHashes ph conn ds rows gs
  AreHashes ph conn ds _ _ = ⊥

  abbrev pub with_command : Command → State ct.World → State ct.World
  with_command c s = record s { commands = λ a. if a == this then c else s.commands a }

  pub same_address : (this == this) ≡ true
  same_address = (==_iff this this).1 refl

  -- The state with a row in the buffers, and at the end of the rows.
  abbrev pub fetched_row : State ct.World → ct.World → List Cell → State ct.World
  fetched_row s u cells =
      with_command (record (s.commands this) { out_buffers = cells }) (record s { world = u })

  pub fetch_more :
      (s : State ct.World) (cells : List Cell) (u : ct.World)
      → ct.ct_fetch (s.commands this).m_cmd s.world ≡ ((succeed, pos 1, cells), u)
      → fetch_row_into_buffers build ct this s ≡ (ok true, fetched_row s u cells)
  unfolding fetch_row_into_buffers
  fetch_more s cells u e = rw e refl

  pub fetch_end :
      (s : State ct.World) (n : ℤ) (cells : List Cell) (u : ct.World)
      → ct.ct_fetch (s.commands this).m_cmd s.world ≡ ((end_data, n, cells), u)
      → fetch_row_into_buffers build ct this s ≡ (
        ok false,
        with_command
            (record (s.commands this) { out_buffers = cells; last_res = res_none })
            (fetched_row s u cells),
      )
  unfolding fetch_row_into_buffers
  fetch_end s n cells u e = rw (e, same_address) refl

  -- The loop has ended with this value, with all rows fetched and no exception.
  abbrev pub Read : Outcome (Option Value) × State ct.World → Value → ct.World → Type 0
  Read r v w =
      (r.0 ≡ ok (some v))
      × (r.1.world ≡ w)
      × (r.1.sink ≡ [])
      × ((r.1.commands this).last_res ≡ res_none)

  -- A row that is fetched: it is added to the value, or is one row too many.
  pub read_rows_loop_row :
      (ph : Option (List Bytes)) (x : List Cell) (g : Fields) (acc : List Fields) (fuel : ℕ)
      (single_row : Bool) (s : State ct.World) (u : ct.World)
      → s.sink ≡ []
      → ct.ct_fetch (s.commands this).m_cmd s.world ≡ ((succeed, pos 1, x), u)
      → ((t : State ct.World)
          → t.conn ≡ s.conn
          → t.sink ≡ []
          → output_buffers_to_hash build ct this ph (s.commands this).colinfo.datafmt x 0 end t
            ≡ (ok (some g), t))
      → read_rows_loop build ct this (suc fuel) ph single_row (rows_value acc) s ≡ (
          if single_row && length acc == 1
          then (ok (some nothing), record (fetched_row s u x) { sink = s.sink ++ too_many ∷ [] })
          else read_rows_loop build ct this fuel ph single_row
              (rows_value (acc ++ g ∷ []))
              (fetched_row s u x))
  unfolding read_rows_loop
  read_rows_loop_row ph x g acc fuel single_row s u n f here =
      let t = fetched_row s u x in
      let formats : (t.commands this).colinfo.datafmt ≡ (s.commands this).colinfo.datafmt =
        rw same_address refl in
      let buffers : (t.commands this).out_buffers ≡ x = rw same_address refl in
      let row =
        ap
          (λ b. output_buffers_to_hash build ct this ph (t.commands this).colinfo.datafmt b 0 end t)
          buffers
        ∙ ap (λ a. output_buffers_to_hash build ct this ph a x 0 end t) formats
        ∙ here t refl n in
      rw (fetch_more s x u f, row, ap is_nil n, add_row-rows_value acc g, is_second-rows_value acc)
        (if_apply (single_row && length acc == 1) _ _ t)

  pub read_rows_loop-Read :
      (ph : Option (List Bytes)) (ds : List Datafmt) (rows : List (List Cell))
      (gs acc : List Fields) (fuel : ℕ) (s : State ct.World) (w : ct.World)
      → s.sink ≡ []
      → (s.commands this).colinfo.datafmt ≡ ds
      → Fetches (s.commands this).m_cmd s.world rows w
      → AreHashes ph s.conn ds rows gs
      → length rows < fuel
      → Read
          (read_rows_loop build ct this fuel ph false (rows_value acc) s)
          (rows_value (acc ++ gs))
          w
  unfolding read_rows_loop
  read_rows_loop-Read ph ds rows gs acc zero s w n d f h l = absurd (omega arith)
  read_rows_loop-Read ph ds [] [] acc (suc fuel) s w n d (k, cells, f) h l =
      rw (fetch_end s k cells w f, append-nil acc, same_address) (refl, refl, n, refl)
  read_rows_loop-Read ph ds [] (g ∷ gs) acc (suc fuel) s w n d f h l = absurd h
  read_rows_loop-Read ph ds (x ∷ rows) [] acc (suc fuel) s w n d f h l = absurd h
  read_rows_loop-Read ph ds (x ∷ rows) (g ∷ gs) acc (suc fuel) s w n d (u, f, fs) (here, h) l =
      let t = fetched_row s u x in
      let rest =
        read_rows_loop-Read ph ds rows gs (acc ++ g ∷ []) fuel t w n (rw same_address d)
          (rw same_address fs) h (omega (arith, l)) in
      rw (read_rows_loop_row ph x g acc fuel false s u n f (rw d here))
        (rw (append_assoc acc (g ∷ []) gs) at rest)
