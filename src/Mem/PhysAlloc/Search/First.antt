-- ===== src/Mem/PhysAlloc/Search/First.antt =====
-- The searches of PhysAlloc.c find the first run, or there is none.
use k_os.Prelude.{
  ℕ, suc, ◌+◌, ◌-◌, ◌*◌, ◌/◌, ◌^◌, ◌≤◌, ◌<◌, ◌≡◌, inl, inr, refl, Bool, true, ◌||◌, arith, ltb, leb,
  ◌==◌, Bool-cases, ==→eq, leb→le, leb→lt, min,
}
use k_os.Prelude.Loops.{FlowPost}
use k_os.Mem.PhysAlloc.{PhysAlloc, page_used}
use k_os.Mem.PhysAlloc.Pages.{IsValid}
use k_os.Mem.PhysAlloc.Search.{
  Run, page_idx, find_bit, find_byte, find_continuous_pages_locked, find_below_bit, find_below_byte,
  find_continuous_pages_below_locked, max_page_idx,
}
use k_os.Mem.PhysAlloc.Search.Steps.{Found, At, scan_bit, past_end, Before-NoRun, search_Found}

abbrev pub any_page : ℕ → Bool
any_page q = true

module _ (p : PhysAlloc) (count : ℕ) (v : IsValid p) where
  abbrev Before : ℕ → ℕ → Run → Type 0
  Before last = At (page_used p) any_page count last

  find_bit-Before :
      (b bit : ℕ) (r : Run)
      → bit < 8
      → b * 8 < p.total_pages
      → Before p.total_pages (b * 8 + bit) r
      → FlowPost
          (Before p.total_pages (b * 8 + suc bit))
          (Before p.total_pages (suc b * 8))
          (Found (page_used p) any_page count p.total_pages)
          (find_bit p count b bit r)
  unfolding find_bit
  find_bit-Before b bit r h lt s = elim (Bool-cases (leb p.total_pages (page_idx b bit))) [
    | inl out ↦
        let e = leb→le _ _ out in
        rw out (
          past_end p any_page count p.total_pages v (omega arith) (b * 8 + bit) (suc b * 8) r
            (omega (arith, v.small)) (omega (arith, v.small)) s)
    | inr fits ↦
        let e = leb→lt _ _ fits in
        rw fits (
          scan_bit p any_page count p.total_pages v (omega arith) b bit r
            (Before p.total_pages (suc b * 8)) h (omega (arith, v.small)) (λ _. refl) s)
  ]

  -- PhysAllocFindContinuousPagesLocked returns the first page of the first run of `count` free pages,
  -- and (UINT32)-1 exactly where the bitmap has no such run.
  pub find_continuous_pages-Found :
      0 < count
      → Found (page_used p) any_page count p.total_pages (find_continuous_pages_locked p count)
  unfolding find_continuous_pages_locked find_byte
  find_continuous_pages-Found pos = elim (Bool-cases (count == 0 || ltb p.total_pages count)) [
    | inl none ↦ rw none (inr (refl, λ q o fits. absurd (ground arith)))
    | inr some ↦ rw some (
        search_Found p any_page count p.total_pages v (omega arith) (find_bit p count)
          find_bit-Before pos)
  ]

  -- A search below a limit returns from inside at the first page past it.
  module _ (max_page : ℕ) (le : max_page ≤ p.total_pages) where
    find_below_bit-Before :
        (b bit : ℕ) (r : Run)
        → bit < 8
        → b * 8 < p.total_pages
        → Before max_page (b * 8 + bit) r
        → FlowPost
            (Before max_page (b * 8 + suc bit))
            (Before max_page (suc b * 8))
            (Found (page_used p) any_page count max_page)
            (find_below_bit p count max_page b bit r)
    unfolding find_below_bit
    find_below_bit-Before b bit r h lt s =
        let idx : page_idx b bit ≡ b * 8 + bit = omega (arith, v.small) in
        let none = λ (past : max_page ≤ b * 8 + bit).
          Before-NoRun p any_page count max_page v le (b * 8 + bit) r past s in
        elim (Bool-cases (leb p.total_pages (page_idx b bit))) [
          | inl out ↦ rw out (inr (refl, none (omega (arith, leb→le _ _ out))))
          | inr fits ↦ rw fits (elim (Bool-cases (leb max_page (page_idx b bit))) [
            | inl past ↦ rw past (inr (refl, none (omega (arith, leb→le _ _ past))))
            | inr under ↦ rw under (
                scan_bit p any_page count max_page v le b bit r (Before max_page (suc b * 8)) h
                  (omega (arith, leb→lt _ _ under)) (λ _. refl) s)
          ])
        ]

-- How many pages lie below a limit as a whole.
abbrev pub pages_below : PhysAlloc → ℕ → ℕ
pages_below p limit = min ((limit - p.base_addr) / 4096) p.total_pages

max_page_idx-pages_below :
    (p : PhysAlloc) (limit : ℕ)
    → IsValid p
    → limit < 2 ^ 64
    → p.base_addr < limit
    → max_page_idx p limit ≡ pages_below p limit
max_page_idx-pages_below p limit v small above = ground (arith, v.no_wrap, v.small)

-- PhysAllocFindContinuousPagesBelowLocked returns the first run of `count` free pages below the
-- limit, and (UINT32)-1 exactly where there is none.
pub find_below-Found :
    (p : PhysAlloc) (count limit : ℕ)
    → IsValid p
    → 0 < count
    → limit < 2 ^ 64
    → Found
        (page_used p)
        any_page
        count
        (pages_below p limit)
        (find_continuous_pages_below_locked p count limit)
unfolding find_continuous_pages_below_locked find_below_byte
find_below-Found p count limit v pos small =
    elim (Bool-cases (count == 0 || ltb p.total_pages count)) [
      | inl none ↦ rw none (inr (refl, λ q o fits. absurd (ground arith)))
      | inr some ↦ rw some (elim (Bool-cases (leb limit p.base_addr)) [
        | inl under ↦
            rw under (inr (refl, λ q o fits. absurd (let e = leb→le _ _ under in omega arith)))
        | inr above ↦ rw above (elim (Bool-cases (max_page_idx p limit == 0)) [
          | inl empty ↦ rw empty (
              inr (
                refl,
                λ q o fits. absurd (
                    let e = ==→eq _ _ empty in
                    let m = max_page_idx-pages_below p limit v small (leb→lt _ _ above) in
                    omega arith),
              ))
          | inr room ↦
              rw (room, max_page_idx-pages_below p limit v small (leb→lt _ _ above))
                (search_Found p any_page count (pages_below p limit) v (omega arith)
                  (find_below_bit p count (pages_below p limit))
                  (find_below_bit-Before p count v (pages_below p limit) (omega arith)) pos)
        ])
      ])
    ]
