-- ===== src/Command/Params/Bound.antt =====
-- Which parameters `set_params` of src/command.cpp hands to the library, against a description of each
-- parameter that is written down for itself.
use module_sybase.Base.{ℕ, Option, List, [], ◌∷◌, ◌≡◌}
use module_sybase.Build.{Build}
use module_sybase.Conversions.{DateTime}
use module_sybase.Ct.{CtLib, succeed, Param}
use module_sybase.Command.Arguments.{QoreTm}

module _ (build : Build) (ct : CtLib) (get_info : ℕ → DateTime → QoreTm) (this : ℕ) where
  -- The library takes these parameters one by one.
  abbrev pub Takes : Option ℕ → ct.World → List Param → ct.World → Type 0
  Takes cmd w [] w' = w' ≡ w
  Takes cmd w (p ∷ ps) w' =
      (u : ct.World) × (ct.ct_param cmd p w ≡ (succeed, u)) × Takes cmd u ps w'
