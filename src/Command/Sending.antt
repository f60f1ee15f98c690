-- ===== src/Command/Sending.antt =====
-- The life of a command of the library: the constructor, `initiate_language_command`, `send`, and
-- `clear`, which the destructor calls.
use module_sybase.Base.{
  ◌==◌, ◌∷◌, ℕ, negsuc, Bytes, Option, none, some, [], Bool, true, false, not, ◌||◌, if◌then◌else◌,
  is_nil, text, format_int, ◌++◌, ◌≡◌, ◌⊎◌, refl, arith, Bool-cases, inl, inr, ==_iff,
}
use module_sybase.Ct.{CtLib, is_succeed}
use module_sybase.Effect.{
  ResType, res_none, res_end, res_canceled, Command, State, ok, M, ◌>>=◌, ◌>>◌, throw, raise, gets,
  call, skip, require, when, get_command, set_command,
}
use module_sybase.Messages.{do_exception}

-- A command that has no handle yet.
abbrev pub no_command : Command
no_command = record {
  query = none;
  m_cmd = none;
  rowcount = negsuc 0;
  last_res = res_none;
  colinfo = record { dirty = true; datafmt = [] };
  out_buffers = [];
}

abbrev pub is_null {ℓ} : {A : Type ℓ} → Option A → Bool
is_null none = true
is_null (some a) = false

-- These commands have nothing left to cancel.
abbrev pub is_finished : ResType → Bool
is_finished res_canceled = true
is_finished res_end = true
is_finished _ = false

-- A text as C reads it: up to a NUL byte.
c_str : Bytes → Bytes
c_str [] = []
c_str (b ∷ t) = let rest = c_str t in if b == 0 then [] else b ∷ rest

module _ (ct : CtLib) (this : ℕ) where
  open ct use {World}

  -- `command(conn, xsink)`: no error is thrown where the handle cannot be had.
  unfoldable pub construct : M World (Unit {0})
  construct = do
    conn ← gets (λ s. s.conn.m_connection)
    (err, cmd) ← call (ct.ct_cmd_alloc conn)
    set_command this (record no_command { m_cmd = cmd })
    when (not (is_succeed err)) (
        raise (text "TDS-EXEC-EXCEPTION")
          (text "Sybase call ct_cmd_alloc() failed with error " ++ format_int (ct.ret_number err)))

  -- `initiate_language_command`, with CS_NULLTERM for the length of the text
  unfoldable pub initiate_language_command : Bytes → M World (Unit {0})
  unfolding c_str
  initiate_language_command cmd_text = do
    require (not (is_nil (c_str cmd_text)))
    c ← get_command this
    err ← call (ct.ct_command c.m_cmd (c_str cmd_text))
    when (not (is_succeed err)) (
        do_exception ct (text "TDS-EXEC-ERROR") (
          text "ct_command(CS_LANG_CMD, '"
          ++ c_str cmd_text
          ++ text "') failed with error "
          ++ format_int (ct.ret_number err)))

  -- `send`
  unfoldable pub send : M World (Unit {0})
  send = do
    c ← get_command this
    err ← call (ct.ct_send c.m_cmd)
    when (not (is_succeed err)) (do_exception ct (text "TDS-EXEC-ERROR") (text "ct_send() failed"))

  -- The end of `clear`.
  unfoldable pub drop_command : M World (Unit {0})
  drop_command = do
    c ← get_command this
    _ ← call (ct.ct_cmd_drop c.m_cmd)
    set_command this (record c { m_cmd = none })

  -- The part of `clear` that cancels.
  unfoldable pub cancel_unfinished : M World (Unit {0})
  cancel_unfinished = do
    c ← get_command this
    ret ← call (ct.ct_cancel c.m_cmd)
    when (not (is_succeed ret)) (throw (text "TDS-EXEC-EXCEPTION") (text "ct_cancel failed"))

  -- `clear`; `aborted` is whether the datasource has lost its connection.
  unfoldable pub clear : Bool → M World (Unit {0})
  unfolding drop_command cancel_unfinished
  clear aborted = do
    c ← get_command this
    if is_null c.m_cmd
        then skip
        else (do when (not (is_finished c.last_res || aborted)) cancel_unfinished; drop_command)

  clear-null :
      (aborted : Bool) (s : State World)
      → is_null (s.commands this).m_cmd ≡ true
      → clear aborted s ≡ (ok tt, s)
  unfolding clear
  clear-null aborted s e = rw e refl

  drop_command-null :
      (s s' : State World) → drop_command s ≡ (ok tt, s') → is_null (s'.commands this).m_cmd ≡ true
  unfolding drop_command
  drop_command-null s s' e = ground (arith, e, (==_iff this this).1 refl)

  -- Once `clear` has returned, the command has no handle, so that nothing is cancelled or dropped
  -- twice: to clear it again, with the connection lost or not, changes nothing.
  pub clear_idempotent :
      (aborted again : Bool) (s s' : State World)
      → clear aborted s ≡ (ok tt, s')
      → ((s'.commands this).m_cmd ≡ none) × (clear again s' ≡ (ok tt, s'))
  unfolding clear
  clear_idempotent aborted again s s' e =
      let gone = cleared (Bool-cases (is_null (s.commands this).m_cmd)) in
      (none_of _ gone, clear-null again s' gone)
    where
      none_of : (o : Option ℕ) → is_null o ≡ true → o ≡ none
      none_of none h = refl
      none_of (some a) h = absurd (ground arith)

      cancels : Bool
      cancels = not (is_finished (s.commands this).last_res || aborted)

      cleared :
          (is_null (s.commands this).m_cmd ≡ true) ⊎ (is_null (s.commands this).m_cmd ≡ false)
          → is_null (s'.commands this).m_cmd ≡ true
      cleared (inl k) = ground (arith, k, rw k at e)
      cleared (inr k) = elim (Bool-cases cancels) [
        | inr l ↦ drop_command-null s s' (rw (k, l) at e)
        | inl l ↦
            let r = ct.ct_cancel (s.commands this).m_cmd s.world in
            elim (Bool-cases (is_succeed r.0)) [
              | inl m ↦ drop_command-null (record s { world = r.1 }) s' (rw (k, l, m) at e)
              | inr m ↦ absurd (ground (arith, rw (k, l, m) at e))
            ]
      ]
