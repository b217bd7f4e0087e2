-- ===== src/KObj/Release.antt =====
-- The last reference to an object: its memory and its place in the tree, and its parent's count.
use k_os.Prelude.{ℕ, Option, none, some, List, [], ◌∷◌, if◌then◌else◌}
use k_os.KObj.{KObjOperations, Call, destroy}

-- The call of an object's destroy operation, if it has one.
abbrev pub destroy_calls : Option KObjOperations → ℕ → List Call
destroy_calls none at = []
destroy_calls (some ops) at = if ops.has_destroy then destroy at ∷ [] else []
