-- ===== src/Command/Params.antt =====
-- `set_params` and `bind_query` of src/command.cpp: the arguments of a query as parameters of the
-- library. What Qore makes of an argument is part of the argument, and its calendar is a parameter.
pub mod Bound
pub mod Expected
use module_sybase.Base.{
  ℕ, zero, suc, ◌+◌, ◌-◌, ℤ, pos, negsuc, ltb_ℤ, Bytes, Option, none, some, List, [], ◌∷◌, ◌++◌,
  Bool, true, false, not, ◌&&◌, ◌||◌, ◌==◌, if◌then◌else◌, get_elem?, length, text, decimal,
  format_int, eq_text,
}
use module_sybase.Build.{Build, Exception}
use module_sybase.Conversions.{
  DateTime, Encoded, encoded, refused, CsDatetime, date_time_to_datetime,
}
use module_sybase.Ct.{
  CtLib, is_succeed, CsType, char_type, datetime_type, bigint_type, int_type, float_type,
  binary_type, Format, fmt_nullterm, fmt_unused, Param,
}
use module_sybase.Effect.{
  State, Connection, Outcome, ok, thrown, fault, M, ◌>>=◌, ◌>>◌, pure, throw, gets, call, skip,
  raise, when, get_command, set_command,
}
use module_sybase.Messages.{do_exception}
use module_sybase.Query.{Query}
use module_sybase.Command.Arguments.{
  Arg, arg_null, arg_string, arg_unconverted, arg_number, arg_date, arg_int, arg_bool, arg_float,
  arg_binary, arg_hash, arg_other, QoreTm, date_text, param_of, text_param, null_param, int_param,
}
use module_sybase.Command.Convert.{get_tz}
use module_sybase.Command.Convert.Integers.{write_le, pattern_of}
use module_sybase.Command.Sending.{initiate_language_command}

-- What becomes of an argument: a parameter, a parameter after which no other is bound, an error by
-- `do_exception`, or an error that is thrown where an exception has been raised.
pub data Bind : Type 0 where
  bind : Param → Bind
  bind_last : Param → Bind
  bind_error : Bytes → Bind
  bind_thrown : Exception → Bytes → Bind

abbrev datetime_bytes : CsDatetime → Bytes
datetime_bytes d = write_le 4 (pattern_of 32 d.dtdays) ++ write_le 4 (pattern_of 32 d.dttime)

abbrev pub datetime_bind : Bytes → Encoded → Bind
datetime_bind name (encoded d) = bind (param_of name datetime_type none none (datetime_bytes d))
datetime_bind name (refused e) = bind_thrown e (text "can't convert date")

module _ (build : Build) (get_info : ℕ → DateTime → QoreTm) (conn : Connection) where
  abbrev pub date_param : Bytes → DateTime → Param
  date_param name d =
      let t = date_text (get_info (get_tz build conn) d) in text_param name fmt_unused (length t) t

  -- The case NT_HASH, and the default that it may fall through to.
  unfoldable pub hash_bind : Bytes → Option Bytes → Option DateTime → Bytes → Bind
  hash_bind name none v n = bind_error (text "do not know how to bind values of type 'hash'")
  hash_bind name (some t) (some d) n =
      if eq_text t (text "date")
      then bind_last (date_param name d)
      else bind_error (text "unknown explicit bind type '" ++ t ++ text "'")
  hash_bind name (some t) none n =
      if eq_text t (text "date")
      then bind_error (
          text "expecting type 'date' for bind type '"
          ++ t
          ++ text "'; got type '"
          ++ n
          ++ text "' instead")
      else bind_error (text "unknown explicit bind type '" ++ t ++ text "'")

  -- The switch over the argument's type.
  unfoldable pub bind_arg : Bytes → Arg → Bind
  unfolding int_param hash_bind
  bind_arg name arg_null = bind (null_param build name)
  bind_arg name (arg_unconverted e) = bind_thrown e (text "encoding")
  bind_arg name (arg_string t) = bind (text_param name fmt_unused (length t) t)
  bind_arg name (arg_number t) = bind (text_param name fmt_nullterm (suc (length t)) t)
  bind_arg name (arg_date d) =
      if conn.optimized_date_binds
      then bind (date_param name d)
      else datetime_bind name (date_time_to_datetime build d)
  bind_arg name (arg_int n) = bind (int_param build name n)
  bind_arg name (arg_bool b) =
      bind (param_of name int_type none none (write_le 8 (if b then 1 else 0)))
  bind_arg name (arg_float f) = bind (param_of name float_type none none (write_le 8 f))
  bind_arg name (arg_binary b) = bind (param_of name binary_type none (some (length b)) b)
  bind_arg name (arg_hash t v n) = hash_bind name t v n
  bind_arg name (arg_other t) =
      bind_error (text "do not know how to bind values of type '" ++ t ++ text "'")

-- `args ? args->retrieveEntry(i) : QoreValue()`
abbrev or_null : Option Arg → Arg
or_null none = arg_null
or_null (some a) = a

unfoldable pub arg_at : Option (List Arg) → ℕ → Arg
arg_at none i = arg_null
arg_at (some l) i = or_null (get_elem? l i)

-- `@par%d`, with `i + 1`
unfoldable pub param_name : ℕ → Bytes
param_name i = text "@par" ++ decimal (suc i)

module _ (build : Build) (ct : CtLib) (get_info : ℕ → DateTime → QoreTm) (this : ℕ) where
  open ct use {World}

  -- The text of the error where `ct_param` fails.
  abbrev failure_text : Param → ℕ → ℤ → Bytes
  failure_text p i err =
      if p.is_null
      then text "ct_param() for 'null' failed for parameter "
        ++ decimal i
        ++ text " with error "
        ++ format_int err
      else text "ct_param() for binary parameter " ++ decimal i ++ text " failed with error"

  -- What a bind does; the result is whether the loop goes on.
  unfoldable pub bind_param : ℕ → Bind → M World Bool
  bind_param i (bind p) = do
    c ← get_command this
    err ← call (ct.ct_param c.m_cmd p)
    when (not (is_succeed err))
        (do_exception ct (text "TDS-EXEC-ERROR") (failure_text p i (ct.ret_number err)))
    pure true
  bind_param i (bind_last p) = do c ← get_command this; _ ← call (ct.ct_param c.m_cmd p); pure false
  bind_param i (bind_error t) = do do_exception ct (text "TDS-BIND-ERROR") t; pure false
  bind_param i (bind_thrown e t) = do raise e.err e.desc; throw (text "TDS-EXEC-ERROR") t

  -- The loop of `set_params`, for the parameters from number `i` on.
  unfoldable pub set_params : List ℕ → Option (List Arg) → ℕ → M World (Unit {0})
  unfolding bind_param bind_arg arg_at param_name
  set_params [] args i = skip
  set_params (k ∷ ks) args i = if k == b'd' then set_params ks args (suc i) else (do
    conn ← gets (λ s. s.conn)
    more ← bind_param i (bind_arg build get_info conn (param_name i) (arg_at args i))
    if more then set_params ks args (suc i) else skip)

  -- `bind_query`
  unfoldable pub bind_query : Query → Option (List Arg) → M World (Unit {0})
  unfolding set_params
  bind_query q args = do
    c ← get_command this
    set_command this (record c { query = some q })
    initiate_language_command ct this q.m_cmd
    elim args [ none ↦ skip | some l ↦ set_params q.param_list (some l) 0 ]
