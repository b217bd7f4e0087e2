-- ===== src/KObj/Tests.antt =====
-- A namespace with its root, a device under it, and a table with one handle.
use k_os.Prelude.{
  ℕ, ◌<◌, ◌≡◌, refl, ◌⊎◌, true, false, none, some, List, [], ◌∷◌, ◌++◌, arith, ◌==◌, if◌then◌else◌,
  get_or, replicate, All,
}
use k_os.Prelude.Ints.{pos, negsuc}
use k_os.Strings.Text.{str_cmp, str_case_cmp, str_case_fold, str_len}
use k_os.KObj.{
  find_in, bounded, directory, stdio, Namespace, root_object, kobj_init, find_child, kobj_create,
}
use k_os.KObj.Objects.{CanCreate, SomeHas, IsName, find_child-kobj_create}
use k_os.KObj.Walk.{find_by_path, find_by_path_relative, walk, step, split, read_dir, read_loop}
use k_os.KObj.Paths.{IsRelative, find_by_path_relative-append}
use k_os.KObj.Handles.{KObjHandle, no_handle, handle_get, handle_install}
use k_os.KObj.Table.{grants, handle_install_lem}

abbrev start : Namespace
start = record { root = 0x1000; objects = λ x. root_object }

start-kobj_init : (kobj_init 0x1000 start).root ≡ 0x1000
unfolding kobj_init
start-kobj_init = refl

abbrev com_name : List ℕ
com_name = b'C' ∷ b'o' ∷ b'm' ∷ []

start-CanCreate : CanCreate 0x2000 start 0x1000
start-CanCreate = record {
  some_object = λ e. omega arith;
  some_parent = λ e. omega arith;
  no_root = λ e. omega arith;
  apart = λ e. omega arith;
  fresh = tt;
  is_dir = refl;
}

com_name-IsName : IsName com_name
com_name-IsName = record {
  text = (λ e. omega arith, (λ e. omega arith, (λ e. omega arith, tt)));
  some_name = λ e. omega arith;
  fits = omega arith;
}

kobj_create_example :
    (SomeHas start [] com_name
      × (kobj_create 0x2000 start 0x1000 com_name stdio none 0 ≡ (start, 0)))
    ⊎ (Unit {0}
        × ((kobj_create 0x2000 start 0x1000 com_name stdio none 0).1 ≡ 0x2000)
        × (((kobj_create 0x2000 start 0x1000 com_name stdio none 0).0.objects 0x1000).children
            ≡ 0x2000 ∷ [])
        × (find_child (kobj_create 0x2000 start 0x1000 com_name stdio none 0).0 0x1000 com_name
            ≡ 0x2000)
        × (kobj_create 0x3000
              (kobj_create 0x2000 start 0x1000 com_name stdio none 0).0
              0x1000
              com_name
              stdio
              none
              0
            ≡ ((kobj_create 0x2000 start 0x1000 com_name stdio none 0).0, 0)))
kobj_create_example =
    find_child-kobj_create 0x2000 0x3000 start 0x1000 com_name stdio none 0 start-CanCreate
      com_name-IsName

abbrev handles : List KObjHandle
handles = (record { valid = true; object = 0x2000; access = 3 }) ∷ replicate 63 no_handle

handle_install_example :
    (All (λ h. h.valid ≡ true) handles × (handle_install handles 0x3000 1 ≡ (handles, negsuc 0)))
    ⊎ ((i : ℕ) × (i < 64)
        × ((handle_install handles 0x3000 1).1 ≡ pos i)
        × ((get_or handles i no_handle).valid ≡ false)
        × ((j : ℕ) → j < i → (get_or handles j no_handle).valid ≡ true)
        × (handle_get (handle_install handles 0x3000 1).0 i 1 ≡ grants 0x3000 1 1)
        × ((0 ≡ i) ⊎ (handle_get (handle_install handles 0x3000 1).0 0 1 ≡ handle_get handles 0 1)))
handle_install_example = handle_install_lem handles 0x3000 1 0 1 refl (λ e. omega arith)

-- A directory under the root with the object in it.
abbrev two_deep : Namespace
two_deep = record {
  root = 0x1000;
  objects = λ x.
      if x == 0x1000
      then record root_object { children = 0x2000 ∷ [] }
      else if x == 0x2000
      then record root_object {
        name = b'D' ∷ b'e' ∷ b'v' ∷ [];
        parent = 0x1000;
        children = 0x3000 ∷ [];
      }
      else record root_object { name = com_name; parent = 0x2000; kind = stdio };
}

abbrev dev_name : List ℕ
dev_name = b'd' ∷ b'E' ∷ b'v' ∷ []

dev_name-IsRelative : IsRelative dev_name
dev_name-IsRelative = record {
  text = (λ e. omega arith, (λ e. omega arith, (λ e. omega arith, tt)));
  some_path = λ e. omega arith;
  below = refl;
}

com_name-IsRelative : IsRelative com_name
com_name-IsRelative = record {
  text = com_name-IsName.text;
  some_path = λ e. omega arith;
  below = refl;
}

find_by_path_example :
    (find_by_path_relative two_deep 0x1000 (dev_name ++ (b'\\' ∷ com_name))).1 ≡ (
      if (find_by_path_relative two_deep 0x1000 dev_name).1 == 0
      then 0
      else (find_by_path_relative two_deep
          (find_by_path_relative two_deep 0x1000 dev_name).1
          com_name).1)
find_by_path_example =
    find_by_path_relative-append two_deep 0x1000 dev_name com_name (λ e. omega arith)
      dev_name-IsRelative com_name-IsRelative (omega arith)

deep_object : (find_by_path two_deep (b'\\' ∷ dev_name ++ (b'/' ∷ com_name))).1 ≡ 0x3000
unfolding find_by_path find_by_path_relative walk step split find_child find_in bounded str_cmp
    str_case_cmp str_case_fold
deep_object = refl

first_entry :
    read_dir two_deep 0x1000 0
    ≡ some (record { name = b'D' ∷ b'e' ∷ b'v' ∷ []; name_len = 3; kind = directory; next = 1 })
unfolding read_dir read_loop bounded str_len
first_entry = refl
