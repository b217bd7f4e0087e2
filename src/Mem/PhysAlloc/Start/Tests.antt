-- ===== src/Mem/PhysAlloc/Start/Tests.antt =====
-- A machine of sixteen usable pages at 1 MiB, with the kernel behind them.
use k_os.Prelude.{◌≡◌, refl, some, List, [], ◌∷◌, length}
use k_os.Prelude.Words.{page_mask}
use k_os.Mem.Bitmap.{clear_at, set_at, bit_at}
use k_os.Mem.LowMem.{MemmapEntry}
use k_os.Mem.PhysAlloc.{PhysAlloc, mark_page}
use k_os.Mem.PhysAlloc.Start.{
  Boot, extent, find_bitmap_loop, bitmap_address, each_page, free_at, free_entries, reserve_at,
  fill_map, init_from, phys_init,
}

abbrev two_entries : List MemmapEntry
two_entries =
    (record { base = 0x100000; length = 0x10000; kind = 0 })
    ∷ (record { base = 0xf0000; length = 0x1000; kind = 1 })
    ∷ []

abbrev machine : Boot
machine = record {
  entries = some two_entries;
  hhdm = 0xffff800000000000;
  kernel_start = 0x10f000;
  kernel_end = 0x110000;
}

abbrev blank_allocator : PhysAlloc
blank_allocator = record {
  bitmap_ptr = 0;
  bitmap = [];
  base_addr = 0;
  total_pages = 0;
  used_pages = 0;
}

-- The bitmap takes the first page, the kernel the last.
first_map : phys_init machine blank_allocator ≡ record {
  bitmap_ptr = 0xffff800000100000;
  bitmap = 0x01 ∷ 0x80 ∷ [];
  base_addr = 0x100000;
  total_pages = 16;
  used_pages = 2;
}
unfolding phys_init init_from extent bitmap_address find_bitmap_loop fill_map free_entries each_page
    free_at reserve_at mark_page page_mask clear_at set_at bit_at k_os.Prelude.Bits.set_bit
    k_os.Prelude.Bits.clear_bit k_os.Prelude.Bits.test_bit
first_map = refl
