-- ===== src/Mem/PhysAlloc/Ops/Range.antt =====
-- The allocations of ranges: the first run that fits is taken, or there is none and nothing changes.
use k_os.Prelude.{
  ℕ, ◌+◌, ◌-◌, ◌*◌, ◌/◌, ◌%◌, ◌^◌, ◌≤◌, ◌<◌, ◌≡◌, ◌≢◌, ◌⊎◌, inl, inr, refl, ap, Bool, true, false,
  arith, ◌==◌, if◌then◌else◌, ==→eq, ne→==, Option, some, bit_and,
}
use native.Mathlib.Nat.{add-mod, add-zero, mod-mod}
use k_os.Prelude.Loops.{Outcome, fell, returned, Post, for_loop}
use k_os.Mem.PhysAlloc.{PhysAlloc, page_used, page_addr, no_page, mark_range_locked, bitmap_bytes}
use k_os.Mem.PhysAlloc.Pages.{IsValid, Marks, mark_range_lem}
use k_os.Mem.PhysAlloc.Search.{
  find_continuous_pages_locked, find_continuous_pages_below_locked, find_aligned_byte, no_run,
  AlignedRun,
}
use k_os.Mem.PhysAlloc.Search.Runs.{FirstRun, NoRun}
use k_os.Mem.PhysAlloc.Search.Steps.{Found}
use k_os.Mem.PhysAlloc.Search.First.{
  any_page, pages_below, find_continuous_pages-Found, find_below-Found,
}
use k_os.Mem.PhysAlloc.Search.Aligned.{is_aligned, find_aligned-Post}
use k_os.Mem.PhysAlloc.Ops.{
  Grant, refused, phys_to_virt, allocate_range_locked, allocate_page_below_locked,
  allocate_range_below_locked, allocate_aligned_range, aligned_grant,
}

-- The first run of `count` free pages below `last` from an `ok` page is taken, and no other page.
pub record TakesRun (p : PhysAlloc) (ok : ℕ → Bool) (count last r : ℕ) (q : PhysAlloc)
    : Type 0 where
  pub run : FirstRun (page_used p) ok count last r
  pub marks : Marks p r count true q

-- The grant is that run: `addr` and the cleared range are functions of its physical address.
abbrev pub Grants : PhysAlloc → (ℕ → Bool) → ℕ → ℕ → (ℕ → ℕ) → (ℕ → Option (ℕ × ℕ)) → Grant → Type 0
Grants p ok count last addr_of cleared_of g =
    (r : ℕ) × TakesRun p ok count last r g.alloc
    × (g.addr ≡ addr_of (p.base_addr + r * 4096))
    × (g.cleared ≡ cleared_of (p.base_addr + r * 4096))

-- There is no such run, the answer is NULLPTR and nothing changes.
abbrev pub Refuses : PhysAlloc → (ℕ → Bool) → ℕ → ℕ → Grant → Type 0
Refuses p ok count last g = NoRun (page_used p) ok count last × (g ≡ refused p)

abbrev pub Allocates :
    PhysAlloc → (ℕ → Bool) → ℕ → ℕ → (ℕ → ℕ) → (ℕ → Option (ℕ × ℕ)) → Grant → Type 0
Allocates p ok count last addr_of cleared_of g =
    Grants p ok count last addr_of cleared_of g ⊎ Refuses p ok count last g

module _ (p : PhysAlloc) (v : IsValid p) (ok : ℕ → Bool) (count last : ℕ)
    (le : last ≤ p.total_pages) where
  -- What the functions do with the run that a search found.
  abbrev granted : (ℕ → ℕ) → (ℕ → Option (ℕ × ℕ)) → ℕ → Grant
  granted addr_of cleared_of start = record {
    alloc = mark_range_locked p start count true;
    addr = addr_of (page_addr p start);
    cleared = cleared_of (page_addr p start);
  }

  grant_run :
      (addr_of : ℕ → ℕ) (cleared_of : ℕ → Option (ℕ × ℕ)) (start : ℕ)
      → FirstRun (page_used p) ok count last start
      → Grants p ok count last addr_of cleared_of (granted addr_of cleared_of start)
  grant_run addr_of cleared_of start run =
      let here : page_addr p start ≡ p.base_addr + start * 4096 =
        omega (arith, v.no_wrap, run.fits) in
      (
        start,
        record {
          run = run;
          marks = mark_range_lem p start count true v (omega (arith, v.small, run.fits));
        },
        ap addr_of here,
        ap cleared_of here,
      )

  grant-Found :
      (addr_of : ℕ → ℕ) (cleared_of : ℕ → Option (ℕ × ℕ)) (start : ℕ)
      → Found (page_used p) ok count last start
      → Allocates p ok count last addr_of cleared_of
          (if start == no_page then refused p else granted addr_of cleared_of start)
  grant-Found addr_of cleared_of start (inl run) =
      rw (ne→== start no_page (omega (arith, v.small, run.fits)))
        (inl (grant_run addr_of cleared_of start run))
  grant-Found addr_of cleared_of start (inr (e, none_there)) = rw e (inr (none_there, refl))

module _ (hhdm : ℕ) (p : PhysAlloc) (v : IsValid p) where
  -- PhysAllocAllocateRangeLocked: the first run of `count` pages, its virtual address, and a MemSet
  -- of `count * 4096` bytes cut to 32 bits.
  pub allocate_range_lem :
      (count : ℕ)
      → 0 < count
      → Allocates p any_page count p.total_pages
          (phys_to_virt hhdm)
          (λ phys. some (phys_to_virt hhdm phys, count * 4096 % 2 ^ 32))
          (allocate_range_locked hhdm p count)
  unfolding allocate_range_locked
  allocate_range_lem count pos = rw (ne→== count 0 (omega arith)) (
      grant-Found p v any_page count p.total_pages (omega arith) (phys_to_virt hhdm)
        (λ phys. some (phys_to_virt hhdm phys, count * 4096 % 2 ^ 32))
        (find_continuous_pages_locked p count) (find_continuous_pages-Found p count v pos))

  -- PhysAllocAllocatePageBelowLocked: the first page below the limit, its physical address.
  pub allocate_page_below_lem :
      (limit : ℕ)
      → limit < 2 ^ 64
      → p.bitmap_ptr ≢ 0
      → Allocates p any_page 1
          (pages_below p limit)
          (λ phys. phys)
          (λ phys. some (phys_to_virt hhdm phys, 4096))
          (allocate_page_below_locked hhdm p limit)
  unfolding allocate_page_below_locked
  allocate_page_below_lem limit small mapped = rw (ne→== p.bitmap_ptr 0 mapped) (
      grant-Found p v any_page 1 (pages_below p limit) (omega arith) (λ phys. phys)
        (λ phys. some (phys_to_virt hhdm phys, 4096)) (find_continuous_pages_below_locked p 1 limit)
        (find_below-Found p 1 limit v (omega arith) small))

  -- PhysAllocAllocateRangeBelowLocked
  pub allocate_range_below_lem :
      (count limit : ℕ)
      → 0 < count
      → limit < 2 ^ 64
      → Allocates p any_page count
          (pages_below p limit)
          (phys_to_virt hhdm)
          (λ phys. some (phys_to_virt hhdm phys, count * 4096 % 2 ^ 64))
          (allocate_range_below_locked hhdm p count limit)
  unfolding allocate_range_below_locked
  allocate_range_below_lem count limit pos small = rw (ne→== count 0 (omega arith)) (
      grant-Found p v any_page count (pages_below p limit) (omega arith) (phys_to_virt hhdm)
        (λ phys. some (phys_to_virt hhdm phys, count * 4096 % 2 ^ 64))
        (find_continuous_pages_below_locked p count limit)
        (find_below-Found p count limit v pos small))

  pub allocate_aligned_range_lem :
      (count alignment : ℕ)
      → 0 < count
      → 0 < alignment
      → bit_and alignment (alignment - 1) ≡ 0
      → Allocates p
          (is_aligned alignment)
          count
          p.total_pages
          (phys_to_virt hhdm)
          (λ phys. some (phys_to_virt hhdm phys, count * 4096 % 2 ^ 32))
          (allocate_aligned_range hhdm p count alignment)
  unfolding allocate_aligned_range aligned_grant
  allocate_aligned_range_lem count alignment pos apos power =
      rw (ne→== count 0 (omega arith), ne→== alignment 0 (omega arith), power)
        (finish
          (for_loop (bitmap_bytes p) 0 (find_aligned_byte p count alignment)
            (record { run = no_run; in_aligned = false }))
          (find_aligned-Post p count alignment v pos))
    where
      finish :
          (o : Outcome AlignedRun ℕ)
          → Post
              (λ _. NoRun (page_used p) (is_aligned alignment) count p.total_pages)
              (FirstRun (page_used p) (is_aligned alignment) count p.total_pages)
              o
          → Allocates p
              (is_aligned alignment)
              count
              p.total_pages
              (phys_to_virt hhdm)
              (λ phys. some (phys_to_virt hhdm phys, count * 4096 % 2 ^ 32))
              (aligned_grant hhdm p count o)
      finish (fell a) none_there = inr (none_there, refl)
      finish (returned start) run = inl (
          grant_run p v (is_aligned alignment) count p.total_pages (omega arith) (phys_to_virt hhdm)
            (λ phys. some (phys_to_virt hhdm phys, count * 4096 % 2 ^ 32)) start run)

  add-aligned : (x r a : ℕ) → r % a ≡ 0 → (x + r) % a ≡ x % a
  add-aligned x r a e = rw (add-mod, e, add-zero, mod-mod)

  -- The alignment of PhysAllocAllocateAlignedRange is that of the page's number, counted from
  -- BaseAddr: where BaseAddr itself is not aligned, no grant starts at an aligned physical address.
  pub allocate_aligned_range_misaligned :
      (count alignment : ℕ)
      → 0 < count
      → 0 < alignment
      → bit_and alignment (alignment - 1) ≡ 0
      → p.base_addr / 4096 % alignment ≢ 0
      → ((phys : ℕ) × ((allocate_aligned_range hhdm p count alignment).addr
            ≡ phys_to_virt hhdm phys)
          × (phys / 4096 % alignment ≢ 0))
        ⊎ (allocate_aligned_range hhdm p count alignment ≡ refused p)
  allocate_aligned_range_misaligned count alignment pos apos power off =
      elim (allocate_aligned_range_lem count alignment pos apos power) [
        | inl (r, taken, addr, _) ↦
            let number : (p.base_addr + r * 4096) / 4096 ≡ p.base_addr / 4096 + r = omega arith in
            let on = ==→eq _ _ taken.run.accepted in
            inl (
              p.base_addr + r * 4096,
              addr,
              rw (number, add-aligned (p.base_addr / 4096) r alignment on) off,
            )
        | inr (_, nothing) ↦ inr nothing
      ]
