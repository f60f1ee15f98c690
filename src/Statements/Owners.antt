-- ===== src/Statements/Owners.antt =====
-- Which statement the connection knows: the invariant of the registrations.
pub mod Invalidate
pub mod Register
pub mod Close
pub mod Methods
pub mod Wrapped
pub mod Queries
pub mod Options
use module_sybase.Base.{
  ℕ, zero, suc, ◌<◌, ◌==◌, Option, none, some, Bool, true, false, ◌≡◌, refl, arith, ◌∙◌, sym,
  if◌then◌else◌, ==_iff, Bool-cases, inl, inr,
}
use module_sybase.Effect.{State, Connection, ModuleWrap, Statement, Outcome, ok, thrown, fault, M}
use module_sybase.Effect.Keeps.{Keeps, IsFrame, keeps}
use module_sybase.Command.Keeps.{cancel_disconnect-Keeps}
use module_sybase.Connection.Handles.{invalidate, invalidate_statement, with_registered, safe_get}
use module_sybase.Connection.Keeps.{IsQueryFrame}
use module_sybase.Connection.Library.{Env}

-- Each wrap belongs to one `SQLStatement`; a valid one of these is the one that is registered, and
-- the one that is registered is valid, so that it can be invalidated. Wraps are below `fresh`.
pub record IsOwned {W : Type 0} (s : State W) : Type 0 where
  pub below : {sql wrap : ℕ} → s.private_data sql ≡ some wrap → wrap < s.fresh
  pub distinct :
      {sql other wrap : ℕ}
      → s.private_data sql ≡ some wrap
      → s.private_data other ≡ some wrap
      → sql ≡ other
  pub registered :
      {sql wrap : ℕ}
      → s.private_data sql ≡ some wrap
      → (s.wraps wrap).m.valid ≡ true
      → s.conn.stmt ≡ some wrap
  pub stmt_valid : {wrap : ℕ} → s.conn.stmt ≡ some wrap → (s.wraps wrap).m.valid ≡ true
  pub stmt_below : {wrap : ℕ} → s.conn.stmt ≡ some wrap → wrap < s.fresh

module _ {W : Type 0} where
  -- The parts that the invariant is about are the same.
  pub record SameOwners (s t : State W) : Type 0 where
    pub stmt_kept : t.conn.stmt ≡ s.conn.stmt
    pub wraps_kept : t.wraps ≡ s.wraps
    pub private_kept : t.private_data ≡ s.private_data
    pub fresh_kept : t.fresh ≡ s.fresh

  pub SameOwners-IsOwned : {s t : State W} → SameOwners s t → IsOwned s → IsOwned t
  SameOwners-IsOwned k o = record {
    below = λ e. rw k.fresh_kept (o.below (rw k.private_kept at e));
    distinct = λ e f. o.distinct (rw k.private_kept at e) (rw k.private_kept at f);
    registered =
        λ e v. rw k.stmt_kept (o.registered (rw k.private_kept at e) (rw k.wraps_kept at v));
    stmt_valid = λ e. rw k.wraps_kept (o.stmt_valid (rw k.stmt_kept at e));
    stmt_below = λ e. rw k.fresh_kept (o.stmt_below (rw k.stmt_kept at e));
  }

  pub SameOwners-refl : (s : State W) → SameOwners s s
  SameOwners-refl s = record {
    stmt_kept = refl;
    wraps_kept = refl;
    private_kept = refl;
    fresh_kept = refl;
  }

  pub SameOwners-IsFrame : (s : State W) → IsFrame (SameOwners s)
  SameOwners-IsFrame s = record {
    by_world = λ t w k. record {
      stmt_kept = k.stmt_kept;
      wraps_kept = k.wraps_kept;
      private_kept = k.private_kept;
      fresh_kept = k.fresh_kept;
    };
    by_raise = λ t e k. record {
      stmt_kept = k.stmt_kept;
      wraps_kept = k.wraps_kept;
      private_kept = k.private_kept;
      fresh_kept = k.fresh_kept;
    };
    by_commands = λ t c k. record {
      stmt_kept = k.stmt_kept;
      wraps_kept = k.wraps_kept;
      private_kept = k.private_kept;
      fresh_kept = k.fresh_kept;
    };
  }

  pub IsOwned-IsFrame : IsFrame {W = W} IsOwned
  IsOwned-IsFrame = record {
    by_world = λ s w o. record {
      below = o.below;
      distinct = o.distinct;
      registered = o.registered;
      stmt_valid = o.stmt_valid;
      stmt_below = o.stmt_below;
    };
    by_raise = λ s e o. record {
      below = o.below;
      distinct = o.distinct;
      registered = o.registered;
      stmt_valid = o.stmt_valid;
      stmt_below = o.stmt_below;
    };
    by_commands = λ s c o. record {
      below = o.below;
      distinct = o.distinct;
      registered = o.registered;
      stmt_valid = o.stmt_valid;
      stmt_below = o.stmt_below;
    };
  }

  -- A change of a wrap that does not make it valid or invalid.
  pub rewrapped-IsOwned :
      (s : State W) (wrap : ℕ) (w : ModuleWrap)
      → w.m.valid ≡ (s.wraps wrap).m.valid
      → IsOwned s
      → IsOwned (record s { wraps = λ a. if a == wrap then w else s.wraps a })
  rewrapped-IsOwned s wrap w e o = record {
    below = o.below;
    distinct = o.distinct;
    registered = λ {wrap = v} p k. o.registered p (rw (same v) at k);
    stmt_valid = λ {wrap = v} k. rw (same v) (o.stmt_valid k);
    stmt_below = o.stmt_below;
  }
    where
      same : (v : ℕ) → (if v == wrap then w else s.wraps v).m.valid ≡ (s.wraps v).m.valid
      same v = ground (arith, (==_iff v wrap).0)
