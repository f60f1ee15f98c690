-- ===== src/Command/Keeps/Rows.antt =====
-- What the methods for rows keep.
use module_sybase.Base.{ℕ, zero, suc, ℤ, Bytes, Option, none, some, Bool, List, [], ◌∷◌}
use module_sybase.Build.{Build}
use module_sybase.Ct.{
  CtLib, RetCode, succeed, fail, end_results, end_data, row_fail, other_code, Datafmt, Cell,
}
use module_sybase.Effect.{State, M}
use module_sybase.Effect.Keeps.{Keeps, IsFrame, keeps, Keeps-pure}
use module_sybase.Messages.Keeps.{do_exception-Keeps}
use module_sybase.Value.{Value, Fields, field, list}
use module_sybase.Command.Convert.{
  Decoded, decoded, unknown_type, out_of_bounds, get_value, deliver, value_of,
}
use module_sybase.Command.Keeps.{ensure_colinfo-Keeps}
use module_sybase.Command.Rows.{
  given, stuck, fetched, fetch_row_into_buffers, output_buffers_to_hash, append_buffers_to_list,
  read_cols_loop, read_cols, fetch_row, read_rows_loop, read_rows, read_rows_as,
}

module _ (build : Build) (ct : CtLib) {P : State ct.World → Type 0} (frame : IsFrame P)
    (this : ℕ) where
  Keeps-stuck : {A : Type 0} → Keeps P (stuck build ct this {A = A})
  Keeps-stuck = record { at = λ s h. h }

  Keeps-given :
      {A B : Type 0} (o : Option A) (m : M ct.World B) (f : A → M ct.World B)
      → Keeps P m
      → ((a : A) → Keeps P (f a))
      → Keeps P (given build ct this o m f)
  Keeps-given none m f km kf = km
  Keeps-given (some a) m f km kf = kf a

  deliver-Keeps : (t : _) (d : Decoded) → Keeps P (deliver build ct t d)
  deliver-Keeps t (decoded v) = Keeps-pure v
  deliver-Keeps t unknown_type = search (keeps, frame)
  deliver-Keeps t out_of_bounds = record { at = λ s h. h }

  get_value-Keeps : (d : Datafmt) (c : Cell) → Keeps P (get_value build ct d c)
  unfolding get_value
  get_value-Keeps d c = record {
    at = λ s h. (deliver-Keeps d.datatype (value_of build s.conn d c)).at s h;
  }

  fetched-Keeps : (r : RetCode) (n : ℤ) → Keeps P (fetched build ct this r n)
  unfolding fetched
  fetched-Keeps succeed n = search (keeps, frame, do_exception-Keeps) depth 20
  fetched-Keeps end_data n = search (keeps, frame) depth 20
  fetched-Keeps row_fail n = search (keeps, frame, do_exception-Keeps) depth 20
  fetched-Keeps fail n = search (keeps, frame, do_exception-Keeps) depth 20
  fetched-Keeps end_results n = search (keeps, frame, do_exception-Keeps) depth 20
  fetched-Keeps (other_code k) n = search (keeps, frame, do_exception-Keeps) depth 20

  fetch_row_into_buffers-Keeps : Keeps P (fetch_row_into_buffers build ct this)
  unfolding fetch_row_into_buffers
  fetch_row_into_buffers-Keeps = search (keeps, frame, fetched-Keeps) depth 20

  output_buffers_to_hash-Keeps :
      (ph : Option (List Bytes)) (ds : List Datafmt) (cells : List Cell) (i : ℕ) (h : Fields)
      → Keeps P (output_buffers_to_hash build ct this ph ds cells i h)
  unfolding output_buffers_to_hash
  output_buffers_to_hash-Keeps ph [] cells i h = Keeps-pure _
  output_buffers_to_hash-Keeps ph (d ∷ ds) [] i h = Keeps-stuck
  output_buffers_to_hash-Keeps ph (d ∷ ds) (c ∷ cells) i h =
      search
        (keeps, Keeps-given, Keeps-stuck, get_value-Keeps, output_buffers_to_hash-Keeps ph ds cells)
        depth 20

  append_buffers_to_list-Keeps :
      (ds : List Datafmt) (cells : List Cell) (h : Fields)
      → Keeps P (append_buffers_to_list build ct this ds cells h)
  unfolding append_buffers_to_list
  append_buffers_to_list-Keeps [] cells h = Keeps-pure _
  append_buffers_to_list-Keeps (d ∷ ds) (c ∷ cells) (field k (list l) h) =
      search (keeps, Keeps-given, get_value-Keeps, append_buffers_to_list-Keeps ds cells) depth 20
  append_buffers_to_list-Keeps (d ∷ ds) cells h = Keeps-stuck

  read_cols_loop-Keeps :
      (fuel : ℕ) (ph : Option (List Bytes)) (cnt : ℤ) (h : Fields)
      → Keeps P (read_cols_loop build ct this fuel ph cnt h)
  unfolding read_cols_loop
  read_cols_loop-Keeps zero ph cnt h = Keeps-pure _
  read_cols_loop-Keeps (suc fuel) ph cnt h =
      search
        (
          keeps,
          Keeps-given,
          Keeps-stuck,
          fetch_row_into_buffers-Keeps,
          append_buffers_to_list-Keeps,
          read_cols_loop-Keeps fuel,
        )
        depth 20

  pub read_cols-Keeps :
      (fuel : ℕ) (ph : Option (List Bytes)) (cnt : ℤ) (cols : Bool)
      → Keeps P (read_cols build ct this fuel ph cnt cols)
  unfolding read_cols
  read_cols-Keeps fuel ph cnt cols =
      search (keeps, frame, Keeps-given, Keeps-stuck, ensure_colinfo-Keeps, read_cols_loop-Keeps)
        depth 20

  pub fetch_row-Keeps : (ph : Option (List Bytes)) → Keeps P (fetch_row build ct this ph)
  unfolding fetch_row
  fetch_row-Keeps ph =
      search
        (
          keeps, frame, Keeps-given, ensure_colinfo-Keeps, fetch_row_into_buffers-Keeps,
          output_buffers_to_hash-Keeps,
        )
        depth 20

  read_rows_loop-Keeps :
      (fuel : ℕ) (ph : Option (List Bytes)) (single_row : Bool) (rv : Value)
      → Keeps P (read_rows_loop build ct this fuel ph single_row rv)
  unfolding read_rows_loop
  read_rows_loop-Keeps zero ph single_row rv = Keeps-pure _
  read_rows_loop-Keeps (suc fuel) ph single_row rv =
      search
        (
          keeps,
          frame,
          Keeps-given,
          fetch_row_into_buffers-Keeps,
          output_buffers_to_hash-Keeps,
          read_rows_loop-Keeps fuel,
        )
        depth 20

  pub read_rows-Keeps :
      (fuel : ℕ) (ph : Option (List Bytes)) (single_row : Bool)
      → Keeps P (read_rows build ct this fuel ph single_row)
  unfolding read_rows
  read_rows-Keeps fuel ph single_row =
      search (keeps, ensure_colinfo-Keeps, read_rows_loop-Keeps) depth 20

  pub read_rows_as-Keeps :
      (fuel : ℕ) (ph : Option (List Bytes)) (as_list cols single_row : Bool)
      → Keeps P (read_rows_as build ct this fuel ph as_list cols single_row)
  unfolding read_rows_as
  read_rows_as-Keeps fuel ph as_list cols single_row =
      search (keeps, ensure_colinfo-Keeps, read_cols-Keeps, read_rows-Keeps) depth 20
