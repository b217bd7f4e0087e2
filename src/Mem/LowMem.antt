-- ===== src/Mem/LowMem.antt =====
-- Kernel/Source/Mem/LowMem.c: a bump allocator for legacy DMA, 256 KiB that end below 16 MiB.
--
-- The static GLowMem is a state that the functions take and return; the spin lock makes the update
-- of one call a step. What the boot loader reports is an argument: the memory map, `none` where it is
-- missing, and the offset of the direct map. The bytes of the region are not modelled: `cleared` is
-- the address and length that MemSet is called with. Messages are left out.
pub mod Bump
mod Tests
use k_os.Prelude.{
  ℕ, ◌+◌, ◌-◌, ◌*◌, ◌/◌, ◌%◌, ◌^◌, Bool, true, false, not, ◌||◌, Option, none, some, List, [], ◌∷◌,
  ltb, leb, ◌==◌, if◌then◌else◌, length,
}
use k_os.Prelude.Words.{align_mask}

pub record MemmapEntry : Type 0 where
  pub base : ℕ
  pub length : ℕ
  pub kind : ℕ

pub record LowMemState : Type 0 where
  pub initialized : Bool
  pub phys_base : ℕ
  pub virt_base : ℕ
  pub total_pages : ℕ
  pub used_pages : ℕ

abbrev pub lowmem_max_addr : ℕ
lowmem_max_addr = 0x1000000

abbrev pub lowmem_size : ℕ
lowmem_size = 256 * 1024

-- LOWMEM_SIZE / LOWMEM_PAGE_SIZE
abbrev pub lowmem_pages : ℕ
lowmem_pages = lowmem_size / 4096

-- LIMINE_MEMMAP_USABLE of limine.h
abbrev usable : ℕ
usable = 0

-- The end of an entry, cut at LOWMEM_MAX_ADDR, and its start, rounded up to LOWMEM_ALIGN.
abbrev pub entry_end : MemmapEntry → ℕ
entry_end e =
    let end = (e.base + e.length) % 2 ^ 64 in
    if ltb lowmem_max_addr end then lowmem_max_addr else end

abbrev pub entry_start : MemmapEntry → ℕ
entry_start e = align_mask 16 ((e.base + 0x10000 - 1) % 2 ^ 64)

-- The guards of the loop of LowMemFindRegion.
unfoldable pub entry_fits : MemmapEntry → Bool
entry_fits e =
    if not (e.kind == usable)
    then false
    else if leb (entry_end e) e.base
    then false
    else not (ltb (entry_end e) ((entry_start e + lowmem_pages * 4096) % 2 ^ 64))

unfoldable pub find_region : List MemmapEntry → ℕ
find_region [] = 0
find_region (e ∷ es) = let rest = find_region es in if entry_fits e then entry_start e else rest

-- The new state, and what MemSet clears.
abbrev pub Init : Type 0
Init = LowMemState × Option (ℕ × ℕ)

unfoldable pub init : Option (List MemmapEntry) → ℕ → LowMemState → Init
init none hhdm s = (s, none)
init (some entries) hhdm s =
    let phys = find_region entries in
    if s.initialized
    then (s, none)
    else if phys == 0
    then (s, none)
    else if hhdm == 0
    then (s, none)
    else (
      record {
        initialized = true;
        phys_base = phys;
        virt_base = (phys + hhdm) % 2 ^ 64;
        total_pages = lowmem_pages;
        used_pages = 0;
      },
      some ((phys + hhdm) % 2 ^ 64, lowmem_size),
    )

pub record Grant : Type 0 where
  pub state : LowMemState
  pub addr : ℕ
  pub cleared : Option (ℕ × ℕ)

abbrev pub refused : LowMemState → Grant
refused s = record { state = s; addr = 0; cleared = none }

-- LOWMEM_ALIGN_PAGES is a number of 64 bits, so that only the result is cut to UINT32.
unfoldable pub rounded : ℕ → ℕ
rounded count = align_mask 4 (count + 16 - 1) % 2 ^ 32

unfoldable pub allocate : LowMemState → ℕ → Grant
allocate s count =
    if not s.initialized
    then refused s
    else if count == 0
    then refused s
    else if ltb s.total_pages ((s.used_pages + rounded count) % 2 ^ 32)
    then refused s
    else record {
      state = record s { used_pages = (s.used_pages + rounded count) % 2 ^ 32 };
      addr = (s.virt_base + s.used_pages * 4096) % 2 ^ 64;
      cleared = some ((s.virt_base + s.used_pages * 4096) % 2 ^ 64, rounded count * 4096);
    }

-- LowMemFree gives nothing back.
unfoldable pub free : LowMemState → ℕ → ℕ → LowMemState
free s addr count = s

unfoldable pub phys : LowMemState → ℕ → ℕ
phys s virt =
    let end = (s.virt_base + s.total_pages * 4096) % 2 ^ 64 in
    if not s.initialized || virt == 0
    then 0
    else if ltb virt s.virt_base || leb end virt
    then 0
    else (s.phys_base + (virt - s.virt_base)) % 2 ^ 64

unfoldable pub free_pages : LowMemState → ℕ
free_pages s = if not s.initialized then 0 else (s.total_pages + 2 ^ 32 - s.used_pages) % 2 ^ 32

unfoldable pub phys_base : LowMemState → ℕ
phys_base s = if s.initialized then s.phys_base else 0
