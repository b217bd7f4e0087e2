-- ===== src/KObj.antt =====
-- Kernel/Source/KObj/KObj.c: the tree of kernel objects, its reference counts and the handles of a task.
--
-- An object is its address, 0 for NULLPTR; `objects` gives what stands there. The list of children is the
-- list of their addresses in link order. A name is the list of its characters. The address that
-- MemoryAllocate answers is an argument. Calls of an object's operations and of MemoryFree are listed in
-- order. GObjLock makes a call one step.
pub mod Objects
pub mod Release
pub mod Walk
pub mod Paths
pub mod Handles
pub mod Table
mod Tests
use k_os.Prelude.{
  ℕ, zero, suc, ◌+◌, ◌-◌, ◌%◌, ◌^◌, Bool, true, false, not, ◌&&◌, ◌||◌, Option, none, some, List,
  [], ◌∷◌, ◌++◌, map, ltb, leb, ◌==◌, if◌then◌else◌, length,
}
use k_os.Prelude.Ints.{ℤ, pos, negsuc}
use k_os.Strings.Text.{head, str_len, str_cmp, str_case_cmp}

pub data KObjType : Type 0 where
  unknown directory stdio buffer event : KObjType

-- Which of the pointers that this file calls are set.
pub record KObjOperations : Type 0 where
  pub has_close : Bool
  pub has_destroy : Bool

pub record KObj : Type 0 where
  pub name : List ℕ
  pub full_path : List ℕ
  pub kind : KObjType
  pub access : ℕ
  pub ops : Option KObjOperations
  pub private : ℕ
  pub ref_count : ℕ
  pub parent : ℕ
  pub children : List ℕ
  pub child_count : ℕ

-- GObjRoot and the memory of the objects.
pub record Namespace : Type 0 where
  pub root : ℕ
  pub objects : ℕ → KObj

pub data Call : Type 0 where
  close destroy memory_free : ℕ → Call

abbrev pub write : ℕ → KObj → Namespace → Namespace
write p o s = record s { objects = λ x. if x == p then o else s.objects x }

abbrev pub root_object : KObj
root_object = record {
  name = b'\\' ∷ [];
  full_path = b'\\' ∷ [];
  kind = directory;
  access = 1;
  ops = none;
  private = 0;
  ref_count = 1;
  parent = 0;
  children = [];
  child_count = 0;
}

-- KObjInit with the address of the root, 0 where the allocation fails.
unfoldable pub kobj_init : ℕ → Namespace → Namespace
kobj_init at s =
    if at == 0 then record s { root = 0 } else write at root_object (record s { root = at })

unfoldable pub kobj_ref : Namespace → ℕ → Namespace
kobj_ref s p =
    let o = s.objects p in
    if p == 0 then s else write p (record o { ref_count = (o.ref_count + 1) % 2 ^ 32 }) s

-- ListDel of the node of the address.
unfoldable pub unlinked : List ℕ → ℕ → List ℕ
unlinked [] p = []
unlinked (x ∷ xs) p = let rest = unlinked xs p in if x == p then xs else x ∷ rest

-- What KObjUnref writes to a parent that is not NULL.
unfoldable pub unlink : ℕ → KObj → KObj
unlink p o = record o {
  children = unlinked o.children p;
  child_count = if ltb 0 o.child_count then o.child_count - 1 else o.child_count;
}

abbrev pub destroys : Option KObjOperations → Bool
destroys none = false
destroys (some ops) = ops.has_destroy

abbrev pub release_calls : ℕ → KObj → List Call
release_calls p o =
    (if destroys o.ops then destroy p ∷ [] else [])
    ++ (if not (o.private == 0) then memory_free o.private ∷ [] else [])
    ++ (memory_free p ∷ [])

-- The variable Parent is NULLPTR at the last line whether or not the object has a parent, so that the
-- call of KObjUnref there is never made.
unfoldable pub kobj_unref : Namespace → ℕ → Namespace × List Call
kobj_unref s p =
    let o = s.objects p in
    let less = write p (record o { ref_count = (o.ref_count + 2 ^ 32 - 1) % 2 ^ 32 }) s in
    if p == 0 || p == s.root then (s, []) else if not (o.ref_count == 1) then (less, []) else (
      if not (o.parent == 0) then write o.parent (unlink p (less.objects o.parent)) less else less,
      release_calls p o,
    )

-- The loop of KObjBuildPath up to the root, of at most 16 objects, the outermost last.
unfoldable pub ancestors : ℕ → Namespace → ℕ → List ℕ
ancestors zero s p = []
ancestors (suc depth) s p =
    let rest = ancestors depth s (s.objects p).parent in
    if not (p == 0) && not (p == s.root) then p ∷ rest else []

-- The loop that writes the names, outermost first, behind what is written.
unfoldable pub append_names : List ℕ → List (List ℕ) → List ℕ
append_names out [] = out
append_names out (n ∷ ns) =
    let longer = out ++ n ++ (if ltb 0 (length ns) then b'\\' ∷ [] else []) in
    let rest = append_names longer ns in if leb 256 (length out + str_len n + 2) then out else rest

unfoldable pub reverse_onto : List ℕ → List ℕ → List ℕ
reverse_onto done [] = done
reverse_onto done (x ∷ xs) = reverse_onto (x ∷ done) xs

unfoldable pub build_path : Namespace → ℕ → List ℕ
build_path s p =
    append_names (b'\\' ∷ []) (map (λ q. (s.objects q).name) (reverse_onto [] (ancestors 16 s p)))

abbrev pub is_zero : ℤ → Bool
is_zero (pos n) = n == 0
is_zero (negsuc n) = false

-- StrnCpy of at most `n` characters behind which there are zeros.
unfoldable pub bounded : ℕ → List ℕ → List ℕ
bounded zero s = []
bounded (suc n) [] = []
bounded (suc n) (c ∷ s) = let rest = bounded n s in if c == 0 then [] else c ∷ rest

-- KObjFindChildLocked on the addresses that are left, and the duplicate check of KObjCreate.
unfoldable pub find_in : Namespace → List ℕ → List ℕ → ℕ
find_in s [] name = 0
find_in s (c ∷ cs) name =
    let rest = find_in s cs name in
    if is_zero (str_case_cmp (s.objects c).name name) then c else rest

unfoldable pub find_child : Namespace → ℕ → List ℕ → ℕ
find_child s parent name = find_in s (s.objects parent).children name

unfoldable pub has_child : Namespace → List ℕ → List ℕ → Bool
has_child s [] name = false
has_child s (c ∷ cs) name =
    let rest = has_child s cs name in
    if is_zero (str_case_cmp (s.objects c).name name) then true else rest

abbrev pub is_directory : KObjType → Bool
is_directory directory = true
is_directory _ = false

abbrev pub new_object : ℕ → List ℕ → KObjType → Option KObjOperations → ℕ → KObj
new_object parent name kind ops private = record {
  name = bounded 127 name;
  full_path = [];
  kind = kind;
  access = 3;
  ops = ops;
  private = private;
  ref_count = 1;
  parent = parent;
  children = [];
  child_count = 0;
}

abbrev pub with_child : ℕ → KObj → KObj
with_child at o = record o {
  children = o.children ++ (at ∷ []);
  child_count = (o.child_count + 1) % 2 ^ 32;
}

-- What KObjCreate does with the memory that it has been given.
unfoldable pub linked : Namespace → ℕ → ℕ → KObj → Namespace
linked s at parent o =
    let placed = write at o s in
    let listed = write parent (with_child at (placed.objects parent)) placed in
    let held = kobj_ref listed parent in
    write at (record (held.objects at) { full_path = build_path held at }) held

-- With the address that MemoryAllocate answers.
unfoldable pub kobj_create :
    ℕ → Namespace → ℕ → List ℕ → KObjType → Option KObjOperations → ℕ → Namespace × ℕ
kobj_create at s parent name kind ops private =
    let created = linked s at parent (new_object parent name kind ops private) in
    if parent == 0 || head name == 0
    then (s, 0)
    else if not (is_directory (s.objects parent).kind)
    then (s, 0)
    else if has_child s (s.objects parent).children name
    then (s, 0)
    else if at == 0
    then (s, 0)
    else (created, at)
