-- ===== src/Mem/PageCache/Overwrites.antt =====
-- Kernel/Source/Mem/PageCache.c: a range of bytes of a disk that is overwritten, chunk by chunk.
use k_os.Prelude.{
  ℕ, ◌+◌, ◌-◌, ◌*◌, ◌/◌, ◌%◌, ◌≤◌, ◌≡◌, refl, sym, ap, ◌∙◌, inl, inr, Bool, true, false, ◌&&◌,
  arith, ltb, leb, ◌==◌, if◌then◌else◌, ltb→lt, leb→le, ==→eq, ==_refl, true≢false, Bool-cases,
  in_branch,
}
use k_os.Mem.PageCache.{Page, PCache, Machine, page_size, same_key, spp, drop_ref}
use k_os.Mem.PageCache.Transfer.{copied}
use k_os.Mem.PageCache.Keys.{same_key→eq, same_key_refl}
use k_os.Mem.PageCache.State.{inside, IsDisk, IsHealthy, Allocates, IsTable, logical}
use k_os.Mem.PageCache.Disk.{page_lba_eq, spp_pos}
use k_os.Mem.PageCache.Held.{IsHeld}
use k_os.Mem.PageCache.Front.{replaced-logical, front-logical}
use k_os.Mem.PageCache.Stores.{put_bytes, marked_page, put-IsReplaced}

both : (a b : Bool) → (a && b) ≡ true → (a ≡ true) × (b ≡ true)
both a b h = ground arith

pub range_empty : (s : Bool) (base i : ℕ) → (s && inside base 0 i) ≡ false
range_empty true base i = ground arith
range_empty false base i = refl

range_before :
    (s : Bool) (base at n i : ℕ)
    → (s && inside (base + at) n i) ≡ false
    → (s && inside base at i) ≡ (s && inside base (at + n) i)
range_before true base at n i h = ground arith
range_before false base at n i h = refl

chunk_page :
    (cur n i : ℕ)
    → cur % page_size + n ≤ page_size
    → inside cur n i ≡ true
    → cur / page_size ≡ i / page_size
chunk_page cur n i fits h =
    let (from, to) = both (leb cur i) (ltb i (cur + n)) h in
    let le = leb→le cur i from in let lt = ltb→lt i (cur + n) to in omega (arith, fits, le, lt)

-- The bytes of the page, by the byte of the disk.
chunk_bytes :
    (cur n i : ℕ) (src bytes : ℕ → ℕ)
    → cur / page_size ≡ i / page_size
    → copied (cur % page_size) n src bytes (i % page_size)
      ≡ (if inside cur n i then src (i - cur) else bytes (i % page_size))
chunk_bytes cur n i src bytes page = elim (Bool-cases (inside cur n i)) [
  | inl y ↦
      let (from, to) = both (leb cur i) (ltb i (cur + n)) y in
      let le = leb→le cur i from in
      let off : i % page_size - cur % page_size ≡ i - cur = omega (arith, page, le) in
      let here : inside (cur % page_size) n (i % page_size) ≡ true = ground (arith, page) in
      rw (y, here, off) refl
  | inr away ↦
      let there : inside (cur % page_size) n (i % page_size) ≡ false = ground (arith, page) in
      rw (away, there) refl
]

module _ {W : Type 0} (m : Machine W) (contents : W → ℕ → ℕ → ℕ) (capacity : ℕ → ℕ)
    (healthy : IsHealthy m contents capacity) (allocates : Allocates m contents capacity) (d : ℕ)
    (disk : IsDisk m contents capacity d) where
  -- The n bytes at byte `from` of the disk are those of `src`, and the others are as they were.
  unfoldable pub Overwritten : PCache → W → PCache → W → ℕ → ℕ → (ℕ → ℕ) → Type 0
  Overwritten c w c' w' from n src =
      (e i : ℕ)
      → IsDisk m contents capacity e
      → logical m contents capacity c' w' e i ≡ (
          if (d == e) && inside from n i
          then src (i - from)
          else logical m contents capacity c w e i)

  -- A chunk of a page is one of its disk.
  pub put_Overwritten :
      (c : PCache) (w : W) (p : Page) (cur n : ℕ) (src : ℕ → ℕ)
      → IsTable m contents capacity c w
      → IsHeld m contents capacity c p
      → p.disk ≡ d
      → p.lba ≡ cur / page_size * spp m d
      → cur % page_size + n ≤ page_size
      → Overwritten c w (put_bytes c p (cur % page_size) n src) w cur n src
  unfolding Overwritten
  put_Overwritten c w p cur n src t held a b fits e i is_disk =
      let off = cur % page_size in
      let q = drop_ref (marked_page m contents capacity c w p off n src t held) in
      let seen =
        replaced-logical m contents capacity c (put_bytes c p off n src) p q w e i
          (put-IsReplaced m contents capacity c w p off n src t held) in
      seen ∙ (elim (Bool-cases (same_key p.disk p.lba e (i / page_size * spp m e))) [
        | inl y ↦
            let (x, z) = same_key→eq p.disk p.lba e (i / page_size * spp m e) y in
            let same_disk : d ≡ e = sym a ∙ x in
            let numbers : cur / page_size * spp m e ≡ i / page_size * spp m e =
              ap (λ k. cur / page_size * spp m k) (sym same_disk) ∙ sym b ∙ z in
            let page : cur / page_size ≡ i / page_size =
              page_lba_eq (cur / page_size) (i / page_size) (spp m e)
                (spp_pos m contents capacity e is_disk) numbers in
            let before = front-logical m contents capacity c p held.others w e i held.front y in
            rw (y, before) (rw (sym same_disk, ==_refl d) (chunk_bytes cur n i src p.bytes page))
        | inr away ↦ rw away (
            in_branch (λ x. logical m contents capacity c w e i ≡ x) ((d == e) && inside cur n i)
              (src (i - cur)) (logical m contents capacity c w e i)
              (λ y. absurd (
                let (same, within) = both (d == e) (inside cur n i) y in
                let same_disk = ==→eq d e same in
                let page = chunk_page cur n i fits within in
                let there : same_key p.disk p.lba e (i / page_size * spp m e) ≡ true =
                  rw (a, b, same_disk, page) (same_key_refl e (i / page_size * spp m e)) in
                true≢false (sym there ∙ away)))
              (λ n. refl))
      ])

  -- A chunk behind what has been page_written.
  pub Overwritten_more :
      (c0 : PCache) (w0 : W) (c : PCache) (w : W) (c' : PCache) (w' : W) (base at n : ℕ)
      (buf : ℕ → ℕ)
      → Overwritten c0 w0 c w base at buf
      → Overwritten c w c' w' (base + at) n (λ i. buf (at + i))
      → Overwritten c0 w0 c' w' base (at + n) buf
  unfolding Overwritten
  Overwritten_more c0 w0 c w c' w' base at n buf old new e i is_disk =
      new e i is_disk
      ∙ in_branch
          (λ x. x ≡ (
            if (d == e) && inside base (at + n) i
            then buf (i - base)
            else logical m contents capacity c0 w0 e i))
          ((d == e) && inside (base + at) n i) _ _
          (λ y.
            let (same, within) = both (d == e) (inside (base + at) n i) y in
            let (from, to) = both (leb (base + at) i) (ltb i (base + at + n)) within in
            let le = leb→le (base + at) i from in
            let off : at + (i - (base + at)) ≡ i - base = omega (arith, le) in
            let wider : inside base (at + n) i ≡ true = ground arith in rw (off, same, wider) refl)
          (λ away.
            old e i is_disk
            ∙ ap (λ b. if b then buf (i - base) else logical m contents capacity c0 w0 e i)
                (range_before (d == e) base at n i away))
