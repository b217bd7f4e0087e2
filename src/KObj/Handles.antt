-- ===== src/KObj/Handles.antt =====
-- Kernel/Source/KObj/KObj.c: the table of the handles of the current task, which is not NULL.
use k_os.Prelude.{
  ℕ, suc, bit_and, Bool, true, false, not, ◌||◌, Option, none, some, List, [], ◌∷◌, ◌++◌, leb, ◌==◌,
  if◌then◌else◌, get_or, set,
}
use k_os.Prelude.Ints.{ℤ, pos, negsuc}
use k_os.KObj.{Namespace, KObjOperations, Call, close, kobj_unref}

pub record KObjHandle : Type 0 where
  pub valid : Bool
  pub object : ℕ
  pub access : ℕ

abbrev pub no_handle : KObjHandle
no_handle = record { valid = false; object = 0; access = 0 }

-- The object, where the access covers what is asked for, else 0.
abbrev pub granted : KObjHandle → ℕ → ℕ
granted h required =
    if not h.valid || h.object == 0
    then 0
    else if not (bit_and h.access required == required)
    then 0
    else h.object

-- KOBJ_HANDLE_MAX is 64.
unfoldable pub handle_get : List KObjHandle → ℕ → ℕ → ℕ
handle_get t handle required =
    if leb 64 handle then 0 else granted (get_or t handle no_handle) required

abbrev pub behind : KObjHandle → Option (ℕ × List KObjHandle) → Option (ℕ × List KObjHandle)
behind h none = none
behind h (some (i, t)) = some (suc i, h ∷ t)

-- The loop of KObjHandleInstall: the handle and the table.
unfoldable pub install_loop : List KObjHandle → KObjHandle → Option (ℕ × List KObjHandle)
install_loop [] new = none
install_loop (h ∷ hs) new = elim h.valid [
  | false ↦ some (0, new ∷ hs)
  | true ↦ behind h (install_loop hs new)
]

abbrev pub installed : List KObjHandle → Option (ℕ × List KObjHandle) → List KObjHandle × ℤ
installed t none = (t, negsuc 0)
installed t (some (i, u)) = (u, pos i)

unfoldable pub handle_install : List KObjHandle → ℕ → ℕ → List KObjHandle × ℤ
handle_install t object access =
    if object == 0
    then (t, negsuc 0)
    else installed t (install_loop t (record { valid = true; object = object; access = access }))

-- What KObjHandleClose leaves.
pub record Closed : Type 0 where
  pub handles : List KObjHandle
  pub namespace : Namespace
  pub calls : List Call
  pub result : ℤ

abbrev pub closes : Option KObjOperations → Bool
closes none = false
closes (some ops) = ops.has_close

unfoldable pub handle_close : List KObjHandle → Namespace → ℕ → Closed
handle_close t s handle =
    let h = get_or t handle no_handle in
    let emptied = set t handle no_handle in
    let released = kobj_unref s h.object in
    if leb 64 handle
    then record { handles = t; namespace = s; calls = []; result = negsuc 0 }
    else if not h.valid
    then record { handles = t; namespace = s; calls = []; result = negsuc 0 }
    else if not (h.object == 0)
    then record {
      handles = emptied;
      namespace = released.0;
      calls = (if closes (s.objects h.object).ops then close h.object ∷ [] else []) ++ released.1;
      result = pos 0;
    }
    else record { handles = emptied; namespace = s; calls = []; result = pos 0 }
