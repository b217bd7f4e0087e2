-- ===== src/Mem/LowMem/Tests.antt =====
-- The low memory allocator at a memory map of a machine.
use k_os.Prelude.{
  ◌+◌, ◌-◌, ◌*◌, ◌/◌, ◌^◌, ◌<◌, ◌≡◌, refl, ◌⊎◌, true, false, some, List, [], ◌∷◌, arith,
}
use k_os.Prelude.Words.{align_mask}
use k_os.Mem.LowMem.{
  MemmapEntry, LowMemState, find_region, entry_fits, init, allocate, refused, rounded,
}
use k_os.Mem.LowMem.Bump.{IsValid, Bumps, allocate_lem}

abbrev memmap : List MemmapEntry
memmap =
    record { base = 0x1000; length = 0x9e000; kind = 0 }
    ∷ record { base = 0x9f000; length = 0x61000; kind = 1 }
    ∷ record { base = 0x100000; length = 0x7ee0000; kind = 0 }
    ∷ []

abbrev unset : LowMemState
unset = record {
  initialized = false;
  phys_base = 0;
  virt_base = 0;
  total_pages = 0;
  used_pages = 0;
}

abbrev ready : LowMemState
ready = record {
  initialized = true;
  phys_base = 0x10000;
  virt_base = 0xffff800000010000;
  total_pages = 64;
  used_pages = 16;
}

first_region : find_region memmap ≡ 0x10000
unfolding find_region entry_fits align_mask
first_region = refl

after_init : (init (some memmap) 0xffff800000000000 unset).0 ≡ (record ready { used_pages = 0 })
unfolding init find_region entry_fits align_mask
after_init = refl

-- Usable memory from address 0 on is picked, and then taken for a failure.
zero_region : find_region (record { base = 0; length = 0x9f000; kind = 0 } ∷ memmap) ≡ 0
unfolding find_region entry_fits align_mask
zero_region = refl

-- 16 and 2^32 - 16 pages wrap around to none: the count of used pages goes back to 0.
rewinds : (allocate ready (2 ^ 32 - 16)).state.used_pages ≡ 0
unfolding allocate rounded align_mask
rewinds = refl

ready-IsValid : IsValid ready
ready-IsValid = record {
  ready = refl;
  total = refl;
  used = omega arith;
  grain = refl;
  virt = omega arith;
  virt_pos = omega arith;
  phys_low = omega arith;
  phys_aligned = refl;
}

allocate_example :
    Bumps ready 3 (allocate ready 3)
    ⊎ ((64 < 16 + (3 + 15) / 16 * 16) × (allocate ready 3 ≡ refused ready))
allocate_example = allocate_lem ready ready-IsValid 3 (omega arith) (omega arith)
