-- ===== src/Mem/PhysAlloc/Start/Map.antt =====
-- PhysAllocInit: the pages that are free when it is done.
use k_os.Prelude.{
  ℕ, zero, suc, ◌+◌, ◌*◌, ◌/◌, ◌%◌, ◌^◌, ◌≤◌, ◌<◌, ◌≡◌, refl, sym, Bool, true, false, not, ◌&&◌,
  ◌||◌, List, [], ◌∷◌, arith, get_or, replicate, length-replicate, All, All-replicate,
}
use k_os.Prelude.Counting.{count_below}
use k_os.Prelude.Words.{page_mask, page_mask_lem}
use k_os.Mem.Bitmap.{bit_at-full}
use k_os.Mem.LowMem.{MemmapEntry}
use k_os.Mem.PhysAlloc.{PhysAlloc, page_used, bitmap_bytes}
use k_os.Mem.PhysAlloc.Pages.{IsValid}
use k_os.Mem.PhysAlloc.Start.{Boot, page_up, in_area, bitmap_end, full_map, fill_map}
use k_os.Mem.PhysAlloc.Start.Loops.{addr_of, Sets, Sets-same}
use k_os.Mem.PhysAlloc.Start.Fills.{
  in_entries, Apart, IsMap, page_mask-aligned, reserve_pages-Sets, free_entries-Sets,
}
use k_os.Mem.PhysAlloc.Start.Area.{IsEntry, IsInside, IsInside-bounds}

get_or-replicate_lt : (n i a d : ℕ) → i < n → get_or (replicate n a) i d ≡ a
get_or-replicate_lt zero i a d h = absurd (omega arith)
get_or-replicate_lt (suc n) zero a d h = refl
get_or-replicate_lt (suc n) (suc i) a d h = get_or-replicate_lt n i a d (omega arith)

count_below_all : (n : ℕ) (f : ℕ → Bool) → ((i : ℕ) → i < n → f i ≡ true) → count_below n f ≡ n
unfolding count_below
count_below_all zero f h = refl
count_below_all (suc n) f h = ground (arith, h n, count_below_all n f (λ i p. h i (omega arith)))

-- The allocator before the loops: an area of whole pages, each of them used.
module _ (boot : Boot) (addr : ℕ) (q : PhysAlloc) (small : q.total_pages + 8 ≤ 2 ^ 32)
    (aligned : q.base_addr % 4096 ≡ 0) (no_wrap : q.base_addr + q.total_pages * 4096 < 2 ^ 64) where
  all_used : (j : ℕ) → j < q.total_pages → page_used (full_map boot addr q) j ≡ true
  all_used j lt =
      bit_at-full (replicate (bitmap_bytes q) 0xff) j
        (get_or-replicate_lt (bitmap_bytes q) (j / 8) 0xff 0 (omega arith))

  full_map-IsValid : IsValid (full_map boot addr q)
  full_map-IsValid = record {
    small = small;
    room = omega (arith, length-replicate {A = ℕ} (bitmap_bytes q) 0xff);
    bytes = All-replicate _ (bitmap_bytes q) 0xff (omega arith);
    aligned = aligned;
    no_wrap = no_wrap;
    counted = sym (count_below_all q.total_pages (page_used (full_map boot addr q)) all_used);
  }

  full_map-Sets : Sets (full_map boot addr q) (λ _. true) (full_map boot addr q)
  full_map-Sets = record {
    valid = full_map-IsValid;
    frame = record { same_ptr = refl; same_base = refl; same_total = refl; same_length = refl };
    pages = all_used;
  }

entries-IsMap : (es : List MemmapEntry) → All IsEntry es → IsMap es
entries-IsMap [] v = tt
entries-IsMap (e ∷ es) v = (omega (arith, v.0.small), entries-IsMap es v.1)

-- The three ways to say that a page is of the bitmap.
module _ (addr size a : ℕ) (here : a % 4096 ≡ 0) (aligned : addr % 4096 ≡ 0)
    (fits : addr + size < 2 ^ 52) where
  skipped_area : in_area (addr, bitmap_end addr size) a ≡ in_area (addr, addr + size) a
  skipped_area = ground (arith, here, aligned, fits)

  reserved_area :
      in_area (page_mask addr, page_up ((addr + size) % 2 ^ 64)) a ≡ in_area (addr, addr + size) a
  reserved_area =
      let start : page_mask addr ≡ addr = omega (arith, page_mask_lem addr (omega arith)) in
      let round = page_mask_lem (((addr + size) % 2 ^ 64 + 4095) % 2 ^ 64) (omega arith) in
      rw start (ground (arith, here, aligned, fits, round))

same_pages :
    (e l k s r b : Bool)
    → s ≡ b
    → r ≡ b
    → ((((true && not (e && not s)) || l) || k) || r) ≡ not (e && not l && not k && not b)
same_pages e l k s r b x y = rw (x, y) (go e l k b)
  where
    go :
        (e l k b : Bool)
        → ((((true && not (e && not b)) || l) || k) || b) ≡ not (e && not l && not k && not b)
    go true true true true = refl
    go true true true false = refl
    go true true false true = refl
    go true true false false = refl
    go true false true true = refl
    go true false true false = refl
    go true false false true = refl
    go true false false false = refl
    go false l k b = refl

-- The addresses of the pages that PhysAllocInit leaves free: those of usable entries that are not below
-- 1 MiB, not of the kernel and not of the bitmap.
abbrev pub is_left_free : Boot → List MemmapEntry → ℕ → ℕ → ℕ → Bool
is_left_free boot es addr size a =
    in_entries a es
    && not (in_area (0, 0x100000) a)
    && not (in_area (page_mask boot.kernel_start, page_up boot.kernel_end) a)
    && not (in_area (addr, addr + size) a)

module _ (boot : Boot) (es : List MemmapEntry) (highest addr : ℕ) (q : PhysAlloc)
    (small : q.total_pages + 8 ≤ 2 ^ 32) (aligned : q.base_addr % 4096 ≡ 0)
    (no_wrap : q.base_addr + q.total_pages * 4096 < 2 ^ 64)
    (top : highest ≡ q.base_addr + q.total_pages * 4096) (entries : All IsEntry es)
    (apart : Apart es) (inside : IsInside addr (bitmap_bytes q) es)
    (kernel : (boot.kernel_start < 2 ^ 64) × (boot.kernel_end < 2 ^ 64)) where
  pub fill_map_lem :
      Sets
        (full_map boot addr q)
        (λ j. not (is_left_free boot es addr (bitmap_bytes q) (addr_of (full_map boot addr q) j)))
        (fill_map boot es highest addr q)
  unfolding fill_map
  fill_map_lem =
      let full = full_map boot addr q in
      let v = full_map-IsValid boot addr q small aligned no_wrap in
      let bounds = IsInside-bounds addr (bitmap_bytes q) es entries inside in
      let area : ℕ × ℕ = (addr, bitmap_end addr (bitmap_bytes q)) in
      let ks = page_mask-aligned boot.kernel_start kernel.0 in
      let ke = page_mask-aligned ((boot.kernel_end + 4095) % 2 ^ 64) (omega arith) in
      let bs = page_mask-aligned addr (omega (arith, bounds)) in
      let be =
        page_mask-aligned (((addr + bitmap_bytes q) % 2 ^ 64 + 4095) % 2 ^ 64) (omega arith) in
      let freed =
        free_entries-Sets full v area highest top es (λ _. true) full (entries-IsMap es entries)
          apart (λ j _ _. refl) (full_map-Sets boot addr q small aligned no_wrap) in
      let low =
        reserve_pages-Sets full v 0 0x100000 refl refl (omega arith) (omega arith) _ _ freed in
      let held = reserve_pages-Sets full v _ _ ks.0 ke.0 ks.1 ke.1 _ _ low in
      let done = reserve_pages-Sets full v _ _ bs.0 be.0 bs.1 be.1 _ _ held in
      Sets-same full _ _ _ done (λ j lt.
        (let a = addr_of full j in
          let here : a % 4096 ≡ 0 = omega (arith, aligned) in
          sym (
            same_pages (in_entries a es) (in_area (0, 0x100000) a)
              (in_area (page_mask boot.kernel_start, page_up boot.kernel_end) a) _ _ _
              (skipped_area addr (bitmap_bytes q) a here bounds.0 bounds.1)
              (reserved_area addr (bitmap_bytes q) a here bounds.0 bounds.1))))
