-- ===== src/Fs/FdTable.antt =====
-- Kernel/Source/Fs/FdTable.c: the table of a task's file descriptors.
--
-- The functions take the table and give the new one. `T` is never NULL: the callers pass the address
-- of a field of a task. A file or an object is its address, 0 for NULLPTR; the calls that the code
-- makes on it (VfsClose, KObjUnref, KObjRef), which have no effect on the table, are listed in order.
pub mod Slots
pub mod Close
pub mod Stdio
mod Tests
use k_os.Prelude.{
  ℕ, ◌+◌, ◌-◌, ◌%◌, ◌^◌, Bool, true, false, not, Option, none, some, List, [], ◌∷◌, ◌++◌, ltb, leb,
  ◌==◌, if◌then◌else◌, get_or, set, replicate,
}
use k_os.Prelude.Loops.{Flow, next, ret, Outcome, fell, returned, for_loop}

pub data FdKind : Type 0 where
  free : FdKind
  vfs : FdKind
  kobj : FdKind

-- `target` is the union of File and Obj.
pub record FdEntry : Type 0 where
  pub kind : FdKind
  pub flags : ℕ
  pub target : ℕ
  pub offset : ℕ
  pub ref_count : ℕ

pub record FdTable : Type 0 where
  pub entries : List FdEntry
  pub count : ℕ

-- A call on the target of an entry.
pub data Call : Type 0 where
  vfs_close : ℕ → Call
  kobj_unref : ℕ → Call
  kobj_ref : ℕ → Call

-- What a function that answers a descriptor returns: it, or the error number that it negates.
pub data FdResult : Type 0 where
  fd : ℕ → FdResult
  error : ℕ → FdResult

abbrev pub einval : ℕ
einval = 22

abbrev pub emfile : ℕ
emfile = 24

abbrev pub fd_max : ℕ
fd_max = 256

abbrev pub fd_first_user : ℕ
fd_first_user = 3

abbrev pub zeroed : FdEntry
zeroed = record { kind = free; flags = 0; target = 0; offset = 0; ref_count = 0 }

abbrev pub entry_at : FdTable → ℕ → FdEntry
entry_at t i = get_or t.entries i zeroed

abbrev pub is_free : FdKind → Bool
is_free free = true
is_free vfs = false
is_free kobj = false

unfoldable pub table_init : FdTable
table_init = record { entries = replicate fd_max zeroed; count = 0 }

-- The call on the target, if there is one, and whether the pointer is then reset.
abbrev pub entry_calls : FdEntry → List Call
entry_calls e = elim e.kind [
  | free ↦ []
  | vfs ↦ if not (e.target == 0) then vfs_close e.target ∷ [] else []
  | kobj ↦ if not (e.target == 0) then kobj_unref e.target ∷ [] else []
]

-- The pointer is NULLPTR after the call, and was before where there is none.
unfoldable pub entry_close : FdEntry → FdEntry × List Call
entry_close e =
    if is_free e.kind
    then (e, [])
    else (record { kind = free; flags = 0; target = 0; offset = 0; ref_count = 0 }, entry_calls e)

-- The body of the loop of FdTableCloseAll.
unfoldable pub close_step : ℕ → FdTable × List Call → Flow (FdTable × List Call) (Unit {0})
close_step i (t, calls) =
    if not (is_free (entry_at t i).kind)
    then next (
      record t { entries = set t.entries i (entry_close (entry_at t i)).0 },
      calls ++ (entry_close (entry_at t i)).1,
    )
    else next (t, calls)

-- `T->Count = 0`, after the loop.
abbrev pub reset_count : Outcome (FdTable × List Call) (Unit {0}) → FdTable → FdTable × List Call
reset_count (fell (t, calls)) t₀ = (record t { count = 0 }, calls)
reset_count (returned _) t₀ = (t₀, [])

unfoldable pub table_close_all : FdTable → FdTable × List Call
table_close_all t = reset_count (for_loop fd_max 0 close_step (t, [])) t

-- The body of the loop of FdAllocFrom, which changes nothing before it returns.
unfoldable pub alloc_step : FdTable → ℕ → Unit {0} → Flow (Unit {0}) ℕ
alloc_step t i _ = if is_free (entry_at t i).kind then ret i else next tt

abbrev pub alloc_result : FdTable → Outcome (Unit {0}) ℕ → FdTable × FdResult
alloc_result t (fell _) = (t, error emfile)
alloc_result t (returned i) = (record t { count = (t.count + 1) % 2 ^ 32 }, fd i)

unfoldable pub alloc_from : FdTable → ℕ → FdTable × FdResult
alloc_from t min_fd =
    if leb fd_max min_fd
    then (t, error emfile)
    else alloc_result t (for_loop (fd_max - min_fd) min_fd (alloc_step t) tt)

unfoldable pub alloc : FdTable → FdTable × FdResult
alloc t = alloc_from t fd_first_user

unfoldable pub fd_free : FdTable → ℕ → FdTable × List Call
fd_free t i = if leb fd_max i then (t, []) else if is_free (entry_at t i).kind then (t, []) else (
  record {
    entries = set t.entries i (entry_close (entry_at t i)).0;
    count = if ltb 0 t.count then t.count - 1 else t.count;
  },
  (entry_close (entry_at t i)).1,
)

unfoldable pub fd_get : FdTable → ℕ → Option FdEntry
fd_get t i =
    if leb fd_max i then none else if is_free (entry_at t i).kind then none else some (entry_at t i)

-- What FdInstallVfs and FdInstallKObj write to the entry they were given.
abbrev pub install_at : FdKind → ℕ → ℕ → FdTable × FdResult → FdTable × FdResult
install_at kind target flags (t, error e) = (t, error e)
install_at kind target flags (t, fd i) = (
  record t {
    entries =
        set t.entries i
          (record { kind = kind; flags = flags; target = target; offset = 0; ref_count = 1 });
  },
  fd i,
)

unfoldable pub install_vfs : FdTable → ℕ → ℕ → FdTable × FdResult
install_vfs t file flags =
    if file == 0 then (t, error einval) else install_at vfs file flags (alloc t)

unfoldable pub install_kobj : FdTable → ℕ → ℕ → FdTable × FdResult
install_kobj t obj flags =
    if obj == 0 then (t, error einval) else install_at kobj obj flags (alloc t)

abbrev is_vfs : FdKind → Bool
is_vfs vfs = true
is_vfs free = false
is_vfs kobj = false

abbrev is_kobj : FdKind → Bool
is_kobj kobj = true
is_kobj free = false
is_kobj vfs = false

abbrev target_if : (FdKind → Bool) → Option FdEntry → ℕ
target_if test none = 0
target_if test (some e) = if test e.kind then e.target else 0

unfoldable pub get_vfs : FdTable → ℕ → ℕ
get_vfs t i = target_if is_vfs (fd_get t i)

unfoldable pub get_kobj : FdTable → ℕ → ℕ
get_kobj t i = target_if is_kobj (fd_get t i)

-- One standard stream: Offset keeps its value, and Count too.
abbrev pub setup_stream : ℕ → ℕ → ℕ → FdTable × List Call → FdTable × List Call
setup_stream i obj flags (t, calls) =
    if not (obj == 0)
    then (
      record t {
        entries = set t.entries i (record {
          kind = kobj;
          flags = flags;
          target = obj;
          offset = (entry_at t i).offset;
          ref_count = 1;
        });
      },
      calls ++ (kobj_ref obj ∷ []),
    )
    else (t, calls)

-- O_RDONLY is 0 and O_WRONLY is 1.
unfoldable pub setup_stdio : FdTable → ℕ → ℕ → ℕ → FdTable × List Call
setup_stdio t input output err =
    setup_stream 2 err 1 (setup_stream 1 output 1 (setup_stream 0 input 0 (t, [])))
