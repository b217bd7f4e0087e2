-- ===== src/Fs/FdTable/Tests.antt =====
-- The table of a task that has opened files.
use k_os.Prelude.{ℕ, ◌≡◌, refl, ◌⊎◌, [], ◌∷◌, arith, set, replicate}
use k_os.Prelude.Counting.{count_below}
use k_os.Prelude.Loops.{for_loop}
use k_os.Fs.FdTable.{
  vfs, FdEntry, FdTable, fd, error, emfile, vfs_close, alloc_step, alloc_from, alloc, install_vfs,
  fd_free, get_vfs, get_kobj, setup_stdio, table_close_all, close_step, entry_close, zeroed,
}
use k_os.Fs.FdTable.Slots.{IsCounted, AllUsed, Installed, install_vfs_lem}
use k_os.Fs.FdTable.Close.{AllClosed, table_close_all_lem}

abbrev file_entry : FdEntry
file_entry = record { kind = vfs; flags = 2; target = 0x5000; offset = 10; ref_count = 1 }

-- Descriptor 3 is open, and counted.
abbrev one_file : FdTable
one_file = record { entries = set (replicate 256 zeroed) 3 file_entry; count = 1 }

one_file-IsCounted : IsCounted one_file
unfolding count_below
one_file-IsCounted = record { size = refl; counted = refl }

next_fd : (install_vfs one_file 0x6000 0).1 ≡ fd 4
unfolding install_vfs alloc alloc_from alloc_step for_loop
next_fd = refl

closed_once : (table_close_all one_file).1 ≡ vfs_close 0x5000 ∷ []
unfolding table_close_all close_step entry_close for_loop
closed_once = refl

-- The count of FdFree on a standard stream: the file is open, but Count says that nothing is.
undercounts : (fd_free (setup_stdio one_file 0x7000 0x7100 0x7200).0 0).0.count ≡ 0
unfolding fd_free setup_stdio entry_close
undercounts = refl

install_vfs_example :
    ((i : ℕ) × Installed one_file vfs 0x6000 0 i (install_vfs one_file 0x6000 0).0
      × ((install_vfs one_file 0x6000 0).1 ≡ fd i)
      × (get_vfs (install_vfs one_file 0x6000 0).0 i ≡ 0x6000)
      × (get_kobj (install_vfs one_file 0x6000 0).0 i ≡ 0))
    ⊎ (AllUsed one_file 3 256 × (install_vfs one_file 0x6000 0 ≡ (one_file, error emfile)))
install_vfs_example = install_vfs_lem one_file 0x6000 0 refl (λ e. omega arith)

table_close_all_example :
    AllClosed one_file (table_close_all one_file).0 (table_close_all one_file).1
table_close_all_example = table_close_all_lem one_file refl
