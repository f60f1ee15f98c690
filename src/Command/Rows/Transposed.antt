-- ===== src/Command/Rows/Transposed.antt =====
-- `read_cols`: a hash of lists, one for each column, with the column's values in the order of the rows.
use module_sybase.Base.{
  ℕ, suc, Bytes, Option, some, List, [], ◌∷◌, ◌++◌, map, ◌||◌, ◌≡◌, refl, ap, ◌∙◌, sym, is_nil,
  subst, eq_text,
}
use module_sybase.Build.{Build}
use module_sybase.Ct.{CtLib, Datafmt, Cell}
use module_sybase.Effect.{State, Connection, ok}
use module_sybase.Value.{Value, list, nil, Fields, end, field, push, items_of, has_key}
use module_sybase.Value.Keys.{IsDistinct}
use module_sybase.Command.Names.Assign.{AreColumns}
use module_sybase.Command.Rows.{append_buffers_to_list}
use module_sybase.Command.Rows.Hash.{Decodes, get_value_decoded}
use module_sybase.Command.Rows.Loop.{push-items_of}

-- The first values of some rows, and the rows without them.
unfoldable pub firsts : List (List Value) → List Value
firsts [] = []
firsts ([] ∷ vals) = firsts vals
firsts ((v ∷ vs) ∷ vals) = v ∷ firsts vals

unfoldable pub rests : List (List Value) → List (List Value)
rests [] = []
rests ([] ∷ vals) = [] ∷ rests vals
rests ((v ∷ vs) ∷ vals) = vs ∷ rests vals

-- Each column with the list of its values in some rows.
unfoldable pub columns : List Datafmt → List (List Value) → List (Datafmt × Value)
unfolding items_of
columns [] vals = []
columns (d ∷ ds) vals = (d, list (items_of (firsts vals))) ∷ columns ds (rests vals)

firsts-append :
    (l : List (List Value)) (v : Value) (vs : List Value)
    → firsts (l ++ (v ∷ vs) ∷ []) ≡ firsts l ++ v ∷ []
unfolding firsts
firsts-append [] v vs = refl
firsts-append ([] ∷ l) v vs = firsts-append l v vs
firsts-append ((w ∷ ws) ∷ l) v vs = ap (◌∷◌ w) (firsts-append l v vs)

rests-append :
    (l : List (List Value)) (v : Value) (vs : List Value)
    → rests (l ++ (v ∷ vs) ∷ []) ≡ rests l ++ vs ∷ []
unfolding rests
rests-append [] v vs = refl
rests-append ([] ∷ l) v vs = ap (◌∷◌ []) (rests-append l v vs)
rests-append ((w ∷ ws) ∷ l) v vs = ap (◌∷◌ ws) (rests-append l v vs)

pub columns-nil : (ds : List Datafmt) → columns ds [] ≡ map (λ d. (d, list nil)) ds
unfolding columns firsts rests
columns-nil [] = refl
columns-nil (d ∷ ds) = ap (◌∷◌ (d, list nil)) (columns-nil ds)

-- The hashes have the same keys, and the second one's are distinct if the first one's are.
pub record SameKeys (g h : Fields) : Type 0 where
  pub same_keys : (j : Bytes) → has_key h j ≡ has_key g j
  pub keeps_distinct : IsDistinct g → IsDistinct h

SameKeys-field :
    (k : Bytes) (v w : Value) (g h : Fields) → SameKeys g h → SameKeys (field k v g) (field k w h)
unfolding has_key
SameKeys-field k v w g h s = record {
  same_keys = λ j. ap (λ b. eq_text k j || b) (s.same_keys j);
  keeps_distinct = λ d. (s.same_keys k ∙ d.0, s.keeps_distinct d.1);
}

module _ (build : Build) (ct : CtLib) (this : ℕ) (ph : Option (List Bytes)) where
  -- With a row more in the buffers, each list gets its column's value.
  pub append_buffers-AreColumns :
      (conn : Connection) (ds : List Datafmt) (cells : List Cell) (vs : List Value)
      (vals : List (List Value)) (i : ℕ) (g : Fields)
      → AreColumns ph i (columns ds vals) g
      → Decodes build conn ds cells vs
      → (h : Fields) × ((s : State ct.World)
          → s.conn ≡ conn
          → s.sink ≡ []
          → append_buffers_to_list build ct this ds cells g s ≡ (ok (some h), s))
        × AreColumns ph i (columns ds (vals ++ vs ∷ [])) h
        × SameKeys g h
  unfolding append_buffers_to_list columns
  append_buffers-AreColumns conn [] cells vs vals i end a d =
      (end, (λ s c n. refl), tt, record { same_keys = λ j. refl; keeps_distinct = λ x. x })
  append_buffers-AreColumns conn [] cells vs vals i (field k w g) a d = absurd a
  append_buffers-AreColumns conn (c ∷ ds) cells vs vals i end a d = absurd a
  append_buffers-AreColumns conn (c ∷ ds) [] vs vals i (field k w g) a d = absurd d
  append_buffers-AreColumns conn (c ∷ ds) (x ∷ cells) [] vals i (field k w g) a d = absurd d
  append_buffers-AreColumns conn (c ∷ ds) (x ∷ cells) (v ∷ vs) vals i (field k w g) (name, e, a)
        (d, more) =
      let (h, makes, are, same) =
        append_buffers-AreColumns conn ds cells vs (rests vals) (suc i) g a more in
      let l = push (items_of (firsts vals)) v in
      (
        field k (list l) h,
        (λ s c' n.
            subst
              (λ z.
                append_buffers_to_list build ct this (c ∷ ds) (x ∷ cells) (field k z g) s
                ≡ (ok (some (field k (list l) h)), s))
              (sym e)
              (rw (get_value_decoded build ct c x v s (rw c' d), ap is_nil n, makes s c' n) refl)),
        (
          name,
          ap list (push-items_of (firsts vals) v ∙ ap items_of (sym (firsts-append vals v vs))),
          subst (λ r. AreColumns ph (suc i) (columns ds r) h) (sym (rests-append vals v vs)) are,
        ),
        SameKeys-field k w (list l) g h same,
      )
