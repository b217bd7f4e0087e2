-- ===== src/Mem/PhysAlloc/Aligned/Carve.antt =====
-- The aligned part of the run is taken, and no other page.
use k_os.Prelude.{
  ℕ, zero, suc, ◌+◌, ◌-◌, ◌*◌, ◌/◌, ◌%◌, ◌^◌, ◌≤◌, ◌<◌, bit_and, ◌≡◌, refl, sym, ap, subst, ◌∙◌,
  ◌⊎◌, inl, inr, Bool, true, false, arith, ltb, if◌then◌else◌, ltb→le, le→ltb, ne→==, Bool-cases,
}
use k_os.Prelude.Words.{align_mask, align_mask_lem, bit_and_power}
use native.Mathlib.Nat.{pow-suc, mul_assoc, div-add-mod, pow-le-pow_right, mul-mod_right}
use native.Mathlib.Decide.{ℕ_discrete}
use k_os.Mem.PhysAlloc.{PhysAlloc, page_used, page_addr, no_page, add_32, mark_range_locked}
use k_os.Mem.PhysAlloc.Pages.{IsValid, SameFrame, Marks, in_range, mark_range_lem, Marks-refl}
use k_os.Mem.PhysAlloc.Search.{find_continuous_pages_below_locked}
use k_os.Mem.PhysAlloc.Search.Runs.{FirstRun, NoRun, FreeRun}
use k_os.Mem.PhysAlloc.Search.First.{any_page, pages_below, find_below-Found}
use k_os.Mem.PhysAlloc.Ops.{Grant, refused}
use k_os.Mem.PhysAlloc.Aligned.{
  aligned_up, head_pages, tail_pages, carve, carved_grant, align_pages,
  allocate_aligned_below_locked,
}

-- One page through the three calls.
carved_page :
    (start request head pages tail j : ℕ) (before one two three : Bool)
    → request ≡ head + pages + tail
    → (start ≤ j → j < start + request → before ≡ false)
    → one ≡ (if in_range start request j then true else before)
    → two ≡ (if in_range start head j then false else one)
    → three ≡ (if in_range (start + head + pages) tail j then false else two)
    → three ≡ (if in_range (start + head) pages j then true else before)
carved_page start request head pages tail j before one two three parts free e f g = ground arith

round_down : (x a : ℕ) → 0 < a → (x - x % a) % a ≡ 0
round_down x a pos = grind arith

module _ (p : PhysAlloc) (v : IsValid p) where
  -- Marking nothing, and a range of no pages.
  cleared_part :
      (q : PhysAlloc) (start n : ℕ)
      → IsValid q
      → start + n ≤ q.total_pages
      → Marks q start n false (if ltb 0 n then mark_range_locked q start n false else q)
  cleared_part q start n w le = elim (Bool-cases (ltb 0 n)) [
    | inl y ↦ rw y (mark_range_lem q start n false w (omega (arith, w.small)))
    | inr no_pages ↦
        let none_left : n ≡ 0 = let le' = ltb→le _ _ no_pages in omega arith in
        rw no_pages
          (subst (λ k. Marks q start k false q) (sym none_left) (Marks-refl q start false w))
  ]

  SameFrame-trans : (q r : PhysAlloc) → SameFrame p q → SameFrame q r → SameFrame p r
  SameFrame-trans q r f g = record {
    same_ptr = g.same_ptr ∙ f.same_ptr;
    same_base = g.same_base ∙ f.same_base;
    same_total = g.same_total ∙ f.same_total;
    same_length = g.same_length ∙ f.same_length;
  }

  carve-Marks :
      (start request head pages tail : ℕ)
      → FreeRun (page_used p) start request
      → start + request ≤ p.total_pages
      → request ≡ head + pages + tail
      → Marks p (start + head) pages true (carve p start request head pages tail)
  unfolding carve
  carve-Marks start request head pages tail free fits parts =
      let q1 = mark_range_locked p start request true in
      let m1 = mark_range_lem p start request true v (omega (arith, v.small)) in
      let q2 = if ltb 0 head then mark_range_locked q1 start head false else q1 in
      let m2 = cleared_part q1 start head m1.valid (omega (arith, m1.frame.same_total)) in
      let behind : add_32 (add_32 start head) pages ≡ start + head + pages =
        omega (arith, v.small) in
      let m3 =
        cleared_part q2 (start + head + pages) tail m2.valid
          (omega (arith, m1.frame.same_total, m2.frame.same_total)) in
      let total = m2.frame.same_total ∙ m1.frame.same_total in
      rw behind (record {
        valid = m3.valid;
        frame = SameFrame-trans _ _ (SameFrame-trans _ _ m1.frame m2.frame) m3.frame;
        pages = λ j lt.
            let in_q1 : j < q1.total_pages = omega (arith, m1.frame.same_total) in
            let in_q2 : j < q2.total_pages = omega (arith, total) in
            let was_free = free j in
            carved_page start request head pages tail j _ _ _ _ parts was_free (m1.pages j lt)
              (m2.pages j in_q1) (m3.pages j in_q2);
      })

pages_of_power : (k : ℕ) → 12 ≤ k → 2 ^ k % 4096 ≡ 0
pages_of_power zero le = absurd (omega arith)
pages_of_power (suc k) le = elim (ℕ_discrete k 11) [
  | yes e ↦ rw e refl
  | no ne ↦ omega (arith, pow-suc 2 k, pages_of_power k (omega arith))
]

power_small : (k : ℕ) → k < 44 → (0 < 2 ^ k) × (2 ^ k ≤ 2 ^ 43)
power_small k lt =
    let two : 0 < 2 = omega arith in
    let low : 0 ≤ k = omega arith in
    let high : k ≤ 43 = omega arith in
    let one : 2 ^ 0 ≤ 2 ^ k = pow-le-pow_right two low in (omega arith, pow-le-pow_right two high)

masked : (k x : ℕ) → align_mask k x + x % 2 ^ k ≡ x → bit_and x (2 ^ 64 - 2 ^ k) ≡ x - x % 2 ^ k
unfolding align_mask
masked k x h = omega arith

round_down_paged : (x a : ℕ) → 0 < a → a % 4096 ≡ 0 → (x - x % a) % 4096 ≡ 0
round_down_paged x a pos paged =
    let parts : a * (x / a) + x % a ≡ x = div-add-mod x a in
    let pages : a ≡ 4096 * (a / 4096) = omega arith in
    let product : a * (x / a) ≡ 4096 * (a / 4096 * (x / a)) =
      ap (λ b. b * (x / a)) pages ∙ mul_assoc 4096 (a / 4096) (x / a) in
    let down : x - x % a ≡ 4096 * (a / 4096 * (x / a)) = omega arith in
    rw down (mul-mod_right 4096 (a / 4096 * (x / a)))

-- The physical address that is aligned, from a page's on.
record Rounded (align phys up : ℕ) : Type 0 where
  above : phys ≤ up
  near : up + 4096 ≤ phys + align
  whole : up % align ≡ 0
  paged : up % 4096 ≡ 0

aligned_up-Rounded :
    (k phys : ℕ)
    → 12 ≤ k
    → k < 44
    → phys % 4096 ≡ 0
    → phys + 2 ^ k < 2 ^ 64
    → Rounded (2 ^ k) phys (aligned_up (2 ^ k) phys)
aligned_up-Rounded k phys le lt paged fits =
    let (some_align, _) = power_small k lt in
    let multiple = pages_of_power k le in
    let x = phys + 2 ^ k - 1 in
    let whole : (phys + 2 ^ k - 1) % 2 ^ 64 ≡ x = omega arith in
    let mask = align_mask_lem k x (omega arith) (omega arith) in
    let up : bit_and x (2 ^ 64 - 2 ^ k) ≡ x - x % 2 ^ k = masked k x mask in
    let rest : x % 2 ^ k < 2 ^ k = grind arith in
    let up_paged = round_down_paged x (2 ^ k) some_align multiple in
    rw (whole, up)
      (record {
        above = omega arith;
        near = omega (arith, multiple);
        whole = round_down x (2 ^ k) some_align;
        paged = up_paged;
      })

-- `pages` free pages below `last` are taken, and no other page; they start at an aligned address, the
-- answer.
pub record Takes (p : PhysAlloc) (pages align last : ℕ) (g : Grant) : Type 0 where
  pub first : ℕ
  pub fits : first + pages ≤ last
  pub free : FreeRun (page_used p) first pages
  pub marks : Marks p first pages true g.alloc
  pub answer : g.addr ≡ p.base_addr + first * 4096
  pub aligned : g.addr % align ≡ 0

module _ (hhdm : ℕ) (p : PhysAlloc) (v : IsValid p) (pages k last : ℕ) (le : 12 ≤ k) (lt : k < 44)
    (some_pages : 0 < pages) (small : pages + 2 ^ k / 4096 ≤ 2 ^ 32)
    (inside : last ≤ p.total_pages) where
  abbrev request : ℕ
  request = pages + 2 ^ k / 4096 - 1

  carved-Takes :
      (start : ℕ)
      → FirstRun (page_used p) any_page request last start
      → Takes p pages (2 ^ k) last (carved_grant hhdm p pages (2 ^ k) request start)
  unfolding carved_grant
  carved-Takes start run =
      let phys = p.base_addr + start * 4096 in
      let fits = run.fits in
      let (some_align, bound) = power_small k lt in
      let multiple = pages_of_power k le in
      let here : page_addr p start ≡ phys = omega (arith, v.no_wrap) in
      let room : phys + request * 4096 < 2 ^ 64 = omega (arith, v.no_wrap) in
      let u = aligned_up-Rounded k phys le lt (omega (arith, v.aligned)) (omega arith) in
      let up = aligned_up (2 ^ k) phys in
      let head = (up - phys) / 4096 in
      let near = u.near in
      let above = u.above in
      let paged = u.paged in
      let back : phys + head * 4096 ≡ up = omega (arith, v.aligned) in
      let few : head + pages ≤ request = omega arith in
      let guard : ltb ((phys + request * 4096) % 2 ^ 64) ((up + pages * 4096) % 2 ^ 64) ≡ false =
        le→ltb _ _ (omega arith) in
      let head_eq : head_pages up phys ≡ head = omega (arith, v.small) in
      let tail_eq : tail_pages request head pages ≡ request - head - pages = omega arith in
      rw (here, guard, head_eq, tail_eq)
        (record {
          first = start + head;
          fits = omega arith;
          free = λ j a b. run.free j (omega arith) (omega arith);
          marks =
              carve-Marks p v start request head pages (request - head - pages) run.free
                (omega arith) (omega arith);
          answer = omega arith;
          aligned = u.whole;
        })

-- PhysAllocAllocateAlignedBelow of an alignment of 2^k bytes takes pages that lie below the limit and start
-- at an aligned physical address, and no other page; or there is no free run below the limit that is longer
-- by the alignment less one page, and it answers 0 and changes nothing.
pub allocate_aligned_below_lem :
    (hhdm : ℕ) (p : PhysAlloc) (pages k limit : ℕ)
    → IsValid p
    → 12 ≤ k
    → k < 44
    → 0 < pages
    → pages + 2 ^ k / 4096 ≤ 2 ^ 32
    → limit < 2 ^ 64
    → Takes p pages
        (2 ^ k)
        (pages_below p limit)
        (allocate_aligned_below_locked hhdm p pages (2 ^ k) limit)
      ⊎ (NoRun (page_used p) any_page (pages + 2 ^ k / 4096 - 1) (pages_below p limit)
          × (allocate_aligned_below_locked hhdm p pages (2 ^ k) limit ≡ refused p))
unfolding allocate_aligned_below_locked
allocate_aligned_below_lem hhdm p pages k limit v le lt some_pages small below =
    let (some_align, bound) = power_small k lt in
    let multiple = pages_of_power k le in
    let large : ltb (2 ^ k) 4096 ≡ false = le→ltb _ _ (omega arith) in
    let power = bit_and_power k in
    let count = pages + 2 ^ k / 4096 - 1 in
    let count_eq : (pages + align_pages (2 ^ k) + (2 ^ 32 - 1)) % 2 ^ 32 ≡ count = omega arith in
    let found = find_below-Found p count limit v (omega arith) below in
    rw (large, power, count_eq)
      (elim found [
        | inl run ↦
            let known =
              ne→== (find_continuous_pages_below_locked p count limit) no_page
                (let fits = run.fits in omega (arith, v.small)) in
            rw known (
              inl (
                carved-Takes hhdm p v pages k (pages_below p limit) le lt some_pages small
                  (omega arith) _ run))
        | inr (e, none_there) ↦ rw e (inr (none_there, refl))
      ])
