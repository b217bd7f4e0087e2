-- ===== src/Mem/PhysAlloc/Ops/Page.antt =====
-- PhysAllocAllocatePageLocked takes the first free page, and fails only where there is none.
use k_os.Prelude.{
  ℕ, suc, ◌+◌, ◌*◌, ◌/◌, ◌≤◌, ◌<◌, ◌≡◌, ◌≢◌, ◌⊎◌, inl, inr, refl, sym, ap, ◌∙◌, true, false, arith,
  ltb, ◌==◌, Bool-cases, ==→eq, ltb→lt, ltb→le, lt→ltb, ne→==, subst, length,
}
use native.Mathlib.Decide.{dec_lt}
use k_os.Prelude.Bits.{test_bit, set_bit, set_bit-zero, test_bit-empty}
use k_os.Prelude.Counting.{count_below_same}
use k_os.Prelude.Loops.{
  Outcome, fell, returned, FlowPost, Post, for_loop, for_loop_rule, resume-Post,
}
use k_os.Mem.Bitmap.{
  bit_at, set_at, set_at-byte, bit_at-byte, bit_at-full, bit_at-set_at, set_at-IsBytes,
  length-set_at,
}
use k_os.Mem.PhysAlloc.{PhysAlloc, byte_at, bitmap_bytes, page_used, page_addr, mark_page, add_32}
use k_os.Mem.PhysAlloc.Pages.{IsValid, Marks, Marks-step, Marks-none, Marks-refl}
use k_os.Mem.PhysAlloc.Search.{page_idx}
use k_os.Mem.PhysAlloc.Ops.{
  Grant, take_bit, take_in_byte, take_byte, grant_of, allocate_page_locked,
}

-- The page `i` is the first free one, and the grant is that page.
pub record Taken (p : PhysAlloc) (i : ℕ) (g : Grant) : Type 0 where
  pub inside : i < p.total_pages
  pub was_free : page_used p i ≡ false
  pub first : (j : ℕ) → j < i → page_used p j ≡ true
  pub addr : g.addr ≡ p.base_addr + i * 4096
  pub marks : Marks p i 1 true g.alloc

abbrev pub TakesFirst : PhysAlloc → Grant → Type 0
TakesFirst p g = (i : ℕ) × Taken p i g

-- Every page is used; no page changes.
abbrev pub Full : PhysAlloc → PhysAlloc → Type 0
Full p q = ((j : ℕ) → j < p.total_pages → page_used p j ≡ true) × Marks p 0 0 true q

module _ (p : PhysAlloc) where
  -- The pages below `k` are used; bits behind the last page may have been set.
  record Passed (k : ℕ) (q : PhysAlloc) : Type 0 where
    unchanged : Marks p 0 0 true q
    all_used : (j : ℕ) → j < k → j < p.total_pages → page_used p j ≡ true

  module _ (q : PhysAlloc) (m : Marks p 0 0 true q) where
    same_page : (j : ℕ) → j < p.total_pages → page_used q j ≡ page_used p j
    same_page j h = ground (arith, m.pages j h)

    -- The write of a free page, as a mark.
    taken :
        (i : ℕ) (g : Grant)
        → i < p.total_pages
        → page_used q i ≡ false
        → ((j : ℕ) → j < i → j < p.total_pages → page_used p j ≡ true)
        → g.addr ≡ page_addr q i
        → g.alloc ≡ record q { bitmap = set_at q.bitmap i; used_pages = add_32 q.used_pages 1 }
        → TakesFirst p g
    unfolding mark_page
    taken i g lt free before at_page e = (
      i,
      record {
        inside = lt;
        was_free = sym (same_page i lt) ∙ free;
        first = λ j h. before j h (omega arith);
        addr = omega (arith, at_page, m.frame.same_base, m.valid.no_wrap, m.frame.same_total);
        marks =
            let marked : mark_page q i true ≡ g.alloc = rw (free, e) in
            subst (Marks p i 1 true) marked (
              Marks-step p i 0 true q (Marks-none p 0 i true true q m) i (omega arith)
                (omega (arith, m.frame.same_total)));
      },
    )

    -- A bit behind the last page belongs to no page.
    spare :
        (i : ℕ)
        → p.total_pages ≤ i
        → i < 8 * length q.bitmap
        → Marks p 0 0 true (record q { bitmap = set_at q.bitmap i })
    spare i past room = record {
      valid = record {
        small = m.valid.small;
        room = omega (arith, m.valid.room, length-set_at q.bitmap i);
        bytes = set_at-IsBytes q.bitmap m.valid.bytes i;
        aligned = m.valid.aligned;
        no_wrap = m.valid.no_wrap;
        counted =
            m.valid.counted
            ∙ sym (
                count_below_same q.total_pages (bit_at q.bitmap) (bit_at (set_at q.bitmap i))
                  (λ j h. other j (omega (arith, m.frame.same_total))));
      };
      frame = record {
        same_ptr = m.frame.same_ptr;
        same_base = m.frame.same_base;
        same_total = m.frame.same_total;
        same_length = length-set_at q.bitmap i ∙ m.frame.same_length;
      };
      pages = λ j h. other j (omega arith) ∙ m.pages j h;
    }
      where
        other : (j : ℕ) → j < i → bit_at (set_at q.bitmap i) j ≡ bit_at q.bitmap j
        other j h = rw (bit_at-set_at q.bitmap m.valid.bytes i j room, ne→== i j (λ e. omega arith))

  module _ (b : ℕ) (in_map : b * 8 < p.total_pages) where
    take_bit-Passed :
        (bit : ℕ) (q : PhysAlloc) (Q : PhysAlloc → Type 0)
        → bit < 8
        → Passed (b * 8 + bit) q
        → FlowPost (Passed (b * 8 + suc bit)) Q (TakesFirst p) (take_bit b bit q)
    unfolding take_bit
    take_bit-Passed bit q Q h s =
        let m = s.unchanged in
        let here : page_idx b bit ≡ b * 8 + bit =
          omega (arith, m.valid.small, m.frame.same_total) in
        let at_bit = bit_at-byte q.bitmap b bit h in
        elim (Bool-cases (test_bit (byte_at q b) bit)) [
          | inl on ↦ rw on (record {
            unchanged = m;
            all_used = λ j lt inside. elim (dec_lt j (b * 8 + bit)) [
              | yes before ↦ s.all_used j before inside
              | no after ↦
                  let same : j ≡ b * 8 + bit = omega arith in
                  sym (same_page q m j inside) ∙ ap (bit_at q.bitmap) same ∙ at_bit ∙ on
            ];
          })
          | inr off ↦ rw off (elim (Bool-cases (ltb (page_idx b bit) q.total_pages)) [
            | inl lt ↦ rw lt (
                taken q m (b * 8 + bit) _ (omega (arith, ltb→lt _ _ lt, m.frame.same_total))
                  (at_bit ∙ off) (λ j before inside. s.all_used j before inside)
                  (ap (page_addr q) here) (rw (set_at-byte q.bitmap b bit h)))
            | inr past ↦
                let out = ltb→le _ _ past in
                rw past (record {
                  unchanged = rw (← set_at-byte q.bitmap b bit h) (
                      spare q m (b * 8 + bit) (omega (arith, m.frame.same_total))
                        (omega (arith, m.valid.room, m.frame.same_total)));
                  all_used =
                      λ j before inside. s.all_used j (omega (arith, m.frame.same_total)) inside;
                })
          ])
        ]

    take_in_byte-Passed :
        (q : PhysAlloc) (Q : PhysAlloc → Type 0)
        → Passed (b * 8) q
        → FlowPost (Passed (suc b * 8)) Q (TakesFirst p) (take_in_byte b q)
    unfolding take_in_byte
    take_in_byte-Passed q Q s = elim (Bool-cases (byte_at q b == 0xff)) [
      | inl full ↦
          let m = s.unchanged in
          rw full (record {
            unchanged = m;
            all_used = λ j lt inside. elim (dec_lt j (b * 8)) [
              | yes before ↦ s.all_used j before inside
              | no after ↦
                  let same : j / 8 ≡ b = omega arith in
                  sym (same_page q m j inside) ∙ bit_at-full q.bitmap j (rw same (==→eq _ _ full))
            ];
          })
      | inr other ↦ rw other (
          resume-Post (Passed (suc b * 8)) Q (TakesFirst p) (for_loop 8 0 (take_bit b) q) (
            for_loop_rule (λ bit. Passed (b * 8 + bit)) (Passed (suc b * 8)) (TakesFirst p)
              (take_bit b) 8 (λ bit r lt t. take_bit-Passed bit r (Passed (suc b * 8)) lt t)
              (λ r t. subst (λ k. Passed k r) (omega arith) t) 8 0 q (omega arith)
              (subst (λ k. Passed k q) (omega arith) s)))
    ]

    take_byte-Passed :
        (q : PhysAlloc) (Q : PhysAlloc → Type 0)
        → Passed (b * 8) q
        → FlowPost (Passed (suc b * 8)) Q (TakesFirst p) (take_byte b q)
    unfolding take_byte
    take_byte-Passed q Q s = elim (Bool-cases (byte_at q b == 0)) [
      | inl empty ↦
          let m = s.unchanged in
          let here : page_idx b 0 ≡ b * 8 + 0 = omega (arith, m.valid.small, m.frame.same_total) in
          let inside : ltb (page_idx b 0) q.total_pages ≡ true =
            lt→ltb _ _ (omega (arith, m.valid.small, m.frame.same_total)) in
          let zero_byte = ==→eq _ _ empty in
          let at_bit = bit_at-byte q.bitmap b 0 (omega arith) in
          let one : set_bit (byte_at q b) 0 ≡ 1 = rw zero_byte set_bit-zero in
          rw (empty, inside)
            (taken q m (b * 8 + 0) _ (omega arith)
              (at_bit ∙ rw zero_byte (test_bit-empty 0 (omega arith)))
              (λ j before lt. s.all_used j (omega arith) lt) (ap (page_addr q) here)
              (rw (set_at-byte q.bitmap b 0 (omega arith), one)))
      | inr other ↦ rw other (take_in_byte-Passed q Q s)
    ]

-- PhysAllocAllocatePageLocked: the first free page is taken and nothing else changes, or every page
-- is used, the answer is NULLPTR and no page changes.
pub allocate_page_lem :
    (p : PhysAlloc)
    → IsValid p
    → p.bitmap_ptr ≢ 0
    → TakesFirst p (allocate_page_locked p)
      ⊎ (((allocate_page_locked p).addr ≡ 0) × Full p (allocate_page_locked p).alloc)
unfolding allocate_page_locked
allocate_page_lem p v mapped = rw (ne→== p.bitmap_ptr 0 mapped) (
    finish (for_loop (bitmap_bytes p) 0 take_byte p) (
      for_loop_rule (λ b. Passed p (b * 8)) (Passed p (bitmap_bytes p * 8)) (TakesFirst p) take_byte
        (bitmap_bytes p)
        (λ b q h s.
          take_byte-Passed p b (omega (arith, v.small)) q (Passed p (bitmap_bytes p * 8)) s)
        (λ q s. s) (bitmap_bytes p) 0 p (omega arith)
        (record { unchanged = Marks-refl p 0 true v; all_used = λ j h. absurd (omega arith) })))
  where
    finish :
        (o : Outcome PhysAlloc Grant)
        → Post (Passed p (bitmap_bytes p * 8)) (TakesFirst p) o
        → TakesFirst p (grant_of o) ⊎ (((grant_of o).addr ≡ 0) × Full p (grant_of o).alloc)
    finish (fell q) s = inr (refl, ((λ j h. s.all_used j (omega (arith, v.small)) h), s.unchanged))
    finish (returned g) t = inl t
