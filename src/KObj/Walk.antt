-- ===== src/KObj/Walk.antt =====
-- Kernel/Source/KObj/KObj.c: objects by their path, and the children of a directory one after the other.
use k_os.Prelude.{
  ℕ, suc, ◌+◌, ◌%◌, ◌^◌, Bool, not, ◌||◌, Option, none, some, List, [], ◌∷◌, ◌++◌, ◌==◌,
  if◌then◌else◌,
}
use k_os.Strings.Text.{head, str_len, str_cmp}
use k_os.KObj.{KObjType, Namespace, kobj_ref, is_zero, bounded, find_child, is_directory}

abbrev pub is_separator : ℕ → Bool
is_separator c = c == b'\\' || c == b'/'

abbrev pub with_token : List ℕ → List (List ℕ) → List (List ℕ)
with_token [] rest = rest
with_token (c ∷ token) rest = (c ∷ token) ∷ rest

-- The tokens that the calls of StrTokR give one after the other, behind the characters of one that has
-- begun. Runs of separators are skipped.
unfoldable pub split : List ℕ → List ℕ → List (List ℕ)
split token [] = with_token token []
split token (c ∷ s) =
    let rest = split (if is_separator c then [] else token ++ (c ∷ [])) s in
    if is_separator c then with_token token rest else rest

-- One round of the loop of KObjFindByPathRelative, 0 for NULLPTR.
unfoldable pub step : Namespace → ℕ → List ℕ → ℕ
step s cur token =
    let parent = (s.objects cur).parent in
    if is_zero (str_cmp token (b'.' ∷ []))
    then cur
    else if is_zero (str_cmp token (b'.' ∷ b'.' ∷ []))
    then (if not (parent == 0) then parent else cur)
    else find_child s cur token

unfoldable pub walk : Namespace → ℕ → List (List ℕ) → ℕ
walk s cur [] = cur
walk s cur (token ∷ tokens) =
    let rest = walk s (step s cur token) tokens in if step s cur token == 0 then 0 else rest

-- `Path` is not NULL.
unfoldable pub find_by_path_relative : Namespace → ℕ → List ℕ → Namespace × ℕ
find_by_path_relative s base path =
    let buf = bounded 255 path in
    let from = if base == 0 then s.root else base in
    let start = if is_separator (head buf) then s.root else from in
    let found = walk s start (split [] buf) in
    (if not (found == 0) then kobj_ref s found else s, found)

unfoldable pub find_by_path : Namespace → List ℕ → Namespace × ℕ
find_by_path s path = find_by_path_relative s s.root path

-- What KObjReadDir stores.
pub record DirEntry : Type 0 where
  pub name : List ℕ
  pub name_len : ℕ
  pub kind : KObjType
  pub next : ℕ

-- The loop over the children, from index `i` on.
unfoldable pub read_loop : Namespace → List ℕ → ℕ → ℕ → Option DirEntry
read_loop s [] i at = none
read_loop s (c ∷ cs) i at =
    let rest = read_loop s cs (suc i) at in
    let name = bounded 127 (s.objects c).name in
    if i == at
    then some (record {
      name = name;
      name_len = str_len name % 2 ^ 32;
      kind = (s.objects c).kind;
      next = (at + 1) % 2 ^ 64;
    })
    else rest

-- `none` for -1; the other pointers are not NULL.
unfoldable pub read_dir : Namespace → ℕ → ℕ → Option DirEntry
read_dir s dir at =
    if dir == 0
    then none
    else if not (is_directory (s.objects dir).kind)
    then none
    else read_loop s (s.objects dir).children 0 at
