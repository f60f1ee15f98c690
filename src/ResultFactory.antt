-- ===== src/ResultFactory.antt =====
-- src/resultfactory.h and `RefHolderVector` of src/utils.h: how the results of a command's
-- statements are put together into one value. Reference counts are left out: a value that is pushed
-- and the copy in `last` are the same value.
pub mod Collect
pub mod Shape
use module_sybase.Base.{
  ℕ, zero, suc, ◌++◌, Bool, true, false, List, [], ◌∷◌, Bytes, text, decimal, ℤ, pos, if◌then◌else◌,
  leb, neg_part, ltb_ℤ,
}
use module_sybase.Value.{Value, nothing, int, hash, Fields, end, field, set_key, is_value}

-- `keygen`
unfoldable pub keygen : ℕ → Bytes
keygen i = text "query" ++ decimal i

-- `RefHolderVector::release_to_hash`, from the key number `i` on, into the hash so far.
unfoldable pub to_hash : Fields → ℕ → List Value → Fields
to_hash h i [] = h
to_hash h i (v ∷ l) = to_hash (set_key h (keygen i) v) (suc i) l

-- `RefHolderVector::release_smart`
unfoldable pub release_smart : List Value → Value
release_smart [] = nothing
release_smart (v ∷ []) = v
release_smart (v ∷ w ∷ l) = hash (to_hash end 0 (v ∷ w ∷ l))

pub data LastType : Type 0 where
  last_none last_param last_query : LastType

pub record ResultFactory : Type 0 where
  pub params : List Value
  pub reslist : List Value
  pub last : Value
  pub lasttype : LastType

-- `ResultFactory(xsink)`
abbrev pub new_factory : ResultFactory
new_factory = record { params = []; reslist = []; last = nothing; lasttype = last_none }

unfoldable pub add_params : ResultFactory → Value → ResultFactory
add_params rf v = record rf { lasttype = last_param; params = rf.params ++ v ∷ []; last = v }

unfoldable pub add : ResultFactory → Value → ResultFactory
add rf v = record rf { lasttype = last_query; reslist = rf.reslist ++ v ∷ []; last = v }

-- `done(rowcount)`
unfoldable pub done : ResultFactory → ℤ → ResultFactory
done rf rowcount =
    if ltb_ℤ (pos 0) rowcount
    then if is_value rf.last
      then record rf { last = nothing }
      else record rf { reslist = rf.reslist ++ int rowcount ∷ [] }
    else record rf { last = nothing }

-- The value for both lists; an empty `params` or `reslist` leaves its level out.
pub combine : List Value → List Value → Value
combine [] r = release_smart r
combine (p ∷ ps) [] = release_smart (p ∷ ps)
combine (p ∷ ps) (r ∷ rs) = hash (
    set_key (set_key end (text "query") (release_smart (r ∷ rs))) (text "params")
      (release_smart (p ∷ ps)))

unfoldable pub res : ResultFactory → Value
unfolding combine
res rf = combine rf.params rf.reslist
