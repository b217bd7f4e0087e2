-- ===== src/Mem/PhysAlloc/Search/Aligned.antt =====
-- The search of PhysAllocAllocateAlignedRange finds the first run that starts at an aligned page.
use k_os.Prelude.{
  ℕ, suc, ◌+◌, ◌*◌, ◌%◌, ◌^◌, ◌<◌, ◌≡◌, inl, inr, refl, Bool, true, false, not, ◌&&◌, arith, leb,
  ◌==◌, Bool-cases, leb→le, leb→lt, subst,
}
use k_os.Prelude.Loops.{Flow, next, break, ret, FlowPost, Post, Post-mono, for_loop}
use k_os.Mem.Bitmap.{bit_at-byte}
use k_os.Mem.PhysAlloc.{PhysAlloc, byte_at, bitmap_bytes, page_used}
use k_os.Mem.PhysAlloc.Pages.{IsValid}
use k_os.Mem.PhysAlloc.Search.{
  Run, no_run, AlignedRun, scan_page, scan_aligned_page, page_idx, find_aligned_bit,
  find_aligned_byte,
}
use k_os.Mem.PhysAlloc.Search.Runs.{
  FirstRun, NoRun, Scanned, Scanned-start, Scanned-skip, scan_page-Scanned,
}
use k_os.Mem.PhysAlloc.Search.Steps.{At, skip_byte, past_end, Before-NoRun, bytes_Post}

-- Page numbers that are multiples of the alignment.
abbrev pub is_aligned : ℕ → ℕ → Bool
is_aligned alignment page = page % alignment == 0

-- The flag says that a run is going on.
abbrev with_flag : Run → AlignedRun
with_flag r = record { run = r; in_aligned = not (r.continuous == 0) }

abbrev flow_with_flag : Flow Run ℕ → Flow AlignedRun ℕ
flow_with_flag (next r) = next (with_flag r)
flow_with_flag (break r) = break (with_flag r)
flow_with_flag (ret page) = ret page

-- With that flag a page is skipped, or scanned as in the other searches.
scan_aligned_page-skip :
    (count alignment page : ℕ) (used : Bool) (r : Run)
    → r.continuous ≡ 0
    → is_aligned alignment page ≡ false
    → scan_aligned_page count alignment page used (with_flag r) ≡ next (with_flag r)
unfolding scan_aligned_page
scan_aligned_page-skip count alignment page used r e off = ground arith

scan_aligned_page-scan :
    (count alignment page : ℕ) (used : Bool) (r : Run)
    → r.continuous + 1 < 2 ^ 32
    → (r.continuous ≡ 0 → is_aligned alignment page ≡ true)
    → scan_aligned_page count alignment page used (with_flag r)
      ≡ flow_with_flag (scan_page count page used r)
unfolding scan_aligned_page scan_page
scan_aligned_page-scan count alignment page used r small on = ground arith

FlowPost-flag :
    (P Q : Run → Type 0) (P' Q' : AlignedRun → Type 0) (T : ℕ → Type 0) (f : Flow Run ℕ)
    → ((r : Run) → P r → P' (with_flag r))
    → ((r : Run) → Q r → Q' (with_flag r))
    → FlowPost P Q T f
    → FlowPost P' Q' T (flow_with_flag f)
FlowPost-flag P Q P' Q' T (next r) p q h = p r h
FlowPost-flag P Q P' Q' T (break r) p q h = q r h
FlowPost-flag P Q P' Q' T (ret page) p q h = h

module _ (p : PhysAlloc) (count alignment : ℕ) (v : IsValid p) where
  abbrev ok : ℕ → Bool
  ok = is_aligned alignment

  abbrev Answer : ℕ → Type 0
  Answer = FirstRun (page_used p) ok count p.total_pages

  abbrev Before : ℕ → AlignedRun → Type 0
  Before k a = (r : Run) × (a ≡ with_flag r) × At (page_used p) ok count p.total_pages k r

  -- A page inside the bitmap.
  scan_aligned-Before :
      (page : ℕ) (r : Run) (Q : AlignedRun → Type 0)
      → page < p.total_pages
      → Scanned (page_used p) ok count p.total_pages page r
      → FlowPost
          (Before (suc page))
          Q
          Answer
          (scan_aligned_page count alignment page (page_used p page) (with_flag r))
  scan_aligned-Before page r Q h s = elim (Bool-cases ((r.continuous == 0) && not (ok page))) [
    | inl skip ↦
        let outside : r.continuous ≡ 0 = ground arith in
        let off : ok page ≡ false = ground arith in
        rw (scan_aligned_page-skip count alignment page (page_used p page) r outside off) (
          r,
          refl,
          (
            suc page,
            omega arith,
            Scanned-skip (page_used p) ok count p.total_pages page r outside off s,
          ),
        )
    | inr scan ↦
        let on = λ (e : r.continuous ≡ 0). let o : ok page ≡ true = ground arith in o in
        rw
          (scan_aligned_page-scan count alignment page (page_used p page) r
            (omega (arith, s.behind, v.small)) on)
          (FlowPost-flag (Scanned (page_used p) ok count p.total_pages (suc page)) (λ _. ⊥)
            (Before (suc page)) Q Answer (scan_page count page (page_used p page) r)
            (λ r' t. (r', refl, (suc page, omega arith, t))) (λ r' t. absurd t)
            (scan_page-Scanned (page_used p) ok count p.total_pages page r s h
              (omega (arith, v.small)) on (λ _. ⊥)))
  ]

  find_aligned_bit-Before :
      (b bit : ℕ) (a : AlignedRun)
      → bit < 8
      → b * 8 < p.total_pages
      → Before (b * 8 + bit) a
      → FlowPost
          (Before (b * 8 + suc bit))
          (Before (suc b * 8))
          Answer
          (find_aligned_bit p count alignment b bit a)
  unfolding find_aligned_bit
  find_aligned_bit-Before b bit a h lt (r, e, t) =
      let idx : page_idx b bit ≡ b * 8 + bit = omega (arith, v.small) in
      elim (Bool-cases (leb p.total_pages (page_idx b bit))) [
        | inl out ↦
            let past = leb→le _ _ out in
            rw out (
              r,
              e,
              past_end p ok count p.total_pages v (omega arith) (b * 8 + bit) (suc b * 8) r
                  (omega arith) (omega arith) t,
            )
        | inr fits ↦
            let here : t.0 ≡ b * 8 + bit = omega (arith, leb→lt _ _ fits, t.1) in
            let inside : b * 8 + bit < p.total_pages = omega (arith, leb→lt _ _ fits) in
            let scanned =
              scan_aligned-Before (b * 8 + bit) r (Before (suc b * 8)) inside
                (subst (λ k. Scanned (page_used p) ok count p.total_pages k r) here t.2) in
            rw (fits, e, idx, ← bit_at-byte p.bitmap b bit h)
              (subst
                (λ k. FlowPost (Before k) (Before (suc b * 8)) Answer (
                  scan_aligned_page count alignment (b * 8 + bit) (page_used p (b * 8 + bit))
                    (with_flag r)))
                (omega arith) scanned)
      ]

  abbrev reset : AlignedRun → AlignedRun
  reset a = record {
    run = record { continuous = 0; start_page = a.run.start_page };
    in_aligned = false;
  }

  -- The first run of `count` free pages from an aligned page, or none exists.
  pub find_aligned-Post :
      0 < count
      → Post
          (λ _. NoRun (page_used p) ok count p.total_pages)
          Answer
          (for_loop
            (bitmap_bytes p)
            0
            (find_aligned_byte p count alignment)
            (record { run = no_run; in_aligned = false }))
  unfolding find_aligned_byte
  find_aligned-Post pos =
      Post-mono (Before (bitmap_bytes p * 8)) (λ _. NoRun (page_used p) ok count p.total_pages)
        Answer Answer
        (for_loop (bitmap_bytes p) 0 (find_aligned_byte p count alignment)
          (record { run = no_run; in_aligned = false }))
        (λ a t.
          Before-NoRun p ok count p.total_pages v (omega arith) (bitmap_bytes p * 8) t.0
            (omega (arith, v.small)) t.2)
        (λ _ t. t)
        (bytes_Post p v Before Answer reset (find_aligned_bit p count alignment) skip
          find_aligned_bit-Before (record { run = no_run; in_aligned = false })
          (
            no_run,
            refl,
            (0, omega arith, Scanned-start (page_used p) ok count p.total_pages pos no_run refl),
          ))
    where
      skip :
          (b : ℕ) (a : AlignedRun)
          → byte_at p b ≡ 0xff
          → Before (b * 8) a
          → Before (suc b * 8) (reset a)
      skip b a full (r, e, t) = (
        record r { continuous = 0 },
        rw e,
        skip_byte p ok count p.total_pages v (omega arith) b r (record r { continuous = 0 }) full
            refl t,
      )
