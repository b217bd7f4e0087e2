-- ===== src/Fs/FdTable/Stdio.antt =====
-- FdSetupStdio fills the first three descriptors and leaves Count as it was.
use k_os.Prelude.{ℕ, ◌≡◌, refl, ◌≢◌, [], ◌∷◌, ne→==}
use k_os.Prelude.Counting.{count_below}
use k_os.Fs.FdTable.{kobj_ref, table_init, setup_stdio, get_kobj, fd_get}
use k_os.Fs.FdTable.Slots.{in_use}

-- FdSetupStdio of three objects on a new table makes them the descriptors 0, 1 and 2 and takes a
-- reference to each, but Count stays 0: it is not the number of open entries, as its comment says.
pub setup_stdio-uncounted :
    (input output err : ℕ)
    → input ≢ 0
    → output ≢ 0
    → err ≢ 0
    → ((setup_stdio table_init input output err).1
        ≡ kobj_ref input ∷ kobj_ref output ∷ kobj_ref err ∷ [])
      × (get_kobj (setup_stdio table_init input output err).0 0 ≡ input)
      × (get_kobj (setup_stdio table_init input output err).0 1 ≡ output)
      × (get_kobj (setup_stdio table_init input output err).0 2 ≡ err)
      × ((setup_stdio table_init input output err).0.count ≡ 0)
      × (count_below 256 (in_use (setup_stdio table_init input output err).0) ≡ 3)
unfolding setup_stdio table_init get_kobj fd_get count_below
setup_stdio-uncounted input output err i o e =
    rw (ne→== input 0 i, ne→== output 0 o, ne→== err 0 e) (refl, refl, refl, refl, refl, refl)
