-- ===== src/Mem/PageCache/Disk.antt =====
-- Kernel/Source/Mem/PageCache.c: where a page stands on its disk, and the write of a whole page.
use k_os.Prelude.{
  ℕ, zero, suc, ◌+◌, ◌-◌, ◌*◌, ◌/◌, ◌%◌, ◌<◌, ◌≡◌, refl, sym, ap, ap₂, subst, ◌∙◌, inl, inr, true,
  false, ◌&&◌, arith, ◌==◌, if◌then◌else◌, ==→eq, ne→==, ==_refl, Bool-cases, in_branch,
}
use k_os.Mem.PageCache.{Page, Machine, is_success, page_size, same_key, spp, write_direct}
use k_os.Prelude.Ints.{ℤ}
use native.Mathlib.Decide.{ℕ_discrete}
use native.Mathlib.Nat.{mul_assoc}
use k_os.Mem.PageCache.Keys.{same_key→eq, same_key_refl}
use k_os.Mem.PageCache.State.{inside, IsDisk, IsHealthy, IsGood}

-- Page k of s sectors begins at byte k * 4096, where s sectors of z bytes fill a page.
pub page_start_eq : (k s z : ℕ) → s * z ≡ page_size → k * s * z ≡ k * page_size
page_start_eq k s z e = mul_assoc k s z ∙ ap (λ x. k * x) e

pub page_lba_eq : (k j s : ℕ) → 0 < s → k * s ≡ j * s → k ≡ j
page_lba_eq k j s pos e = grind arith

factor_pos : (s z : ℕ) → s * z ≡ page_size → 0 < s
factor_pos zero z e = absurd (omega arith)
factor_pos (suc s) z e = omega arith

-- A byte lies in the sectors of page k exactly if the page of the byte is k.
pub in_page :
    (k s z i : ℕ) → s * z ≡ page_size → inside (k * s * z) (s * z) i ≡ (k * s == i / page_size * s)
in_page k s z i e = elim (ℕ_discrete k (i / page_size)) [
  | yes here ↦
      let r : k * s ≡ i / page_size * s = ap (λ x. x * s) here in
      rw (page_start_eq k s z e, e, r, ==_refl) (ground arith)
  | no away ↦
      let ne =
        ne→== (k * s) (i / page_size * s) (λ q. away (page_lba_eq k _ s (factor_pos s z e) q)) in
      rw (page_start_eq k s z e, e, ne) (ground arith)
]

module _ {W : Type 0} (m : Machine W) (contents : W → ℕ → ℕ → ℕ) (capacity : ℕ → ℕ) where
  pub spp_pos : (d : ℕ) → IsDisk m contents capacity d → 0 < spp m d
  spp_pos d disk = factor_pos (spp m d) (m.sector_size d) disk.whole

  -- The byte of a page at offset i.
  pub page_byte :
      (w : W) (p : Page) (i : ℕ)
      → IsGood m contents capacity w p
      → i < page_size
      → (p.lba * m.sector_size p.disk + i) / page_size * spp m p.disk ≡ p.lba
  page_byte w p i g lt =
      let k = p.lba / spp m p.disk in
      let start : p.lba * m.sector_size p.disk ≡ k * page_size =
        ap (λ x. x * m.sector_size p.disk) g.aligned
        ∙ page_start_eq k (spp m p.disk) (m.sector_size p.disk) g.disk.whole in
      let at : (p.lba * m.sector_size p.disk + i) / page_size ≡ k = omega (arith, start) in
      ap (λ x. x * spp m p.disk) at ∙ sym g.aligned

  in_good_page :
      (w : W) (p : Page) (i : ℕ)
      → IsGood m contents capacity w p
      → inside (p.lba * m.sector_size p.disk) (p.sector_count * m.sector_size p.disk) i
        ≡ (p.lba == i / page_size * spp m p.disk)
  in_good_page w p i g =
      let k = p.lba / spp m p.disk in
      let sectors : p.sector_count * m.sector_size p.disk ≡ spp m p.disk * m.sector_size p.disk =
        ap (λ x. x * m.sector_size p.disk) g.count in
      rw sectors (
        subst
          (λ x.
            inside (x * m.sector_size p.disk) (spp m p.disk * m.sector_size p.disk) i
            ≡ (x == i / page_size * spp m p.disk))
          (sym g.aligned) (in_page k (spp m p.disk) (m.sector_size p.disk) i g.disk.whole))

  offset_in_page :
      (w : W) (p : Page) (i : ℕ)
      → IsGood m contents capacity w p
      → p.lba ≡ i / page_size * spp m p.disk
      → i - p.lba * m.sector_size p.disk ≡ i % page_size
  offset_in_page w p i g e =
      let start : p.lba * m.sector_size p.disk ≡ i / page_size * page_size =
        ap (λ x. x * m.sector_size p.disk) e
        ∙ page_start_eq (i / page_size) (spp m p.disk) (m.sector_size p.disk) g.disk.whole in
      rw start (omega arith)

  -- A page that is not dirty shows what its disk has.
  pub clean_bytes :
      (w : W) (p : Page) (d i : ℕ)
      → IsGood m contents capacity w p
      → p.dirty ≡ false
      → contents w d i ≡ (
          if same_key p.disk p.lba d (i / page_size * spp m d)
          then p.bytes (i % page_size)
          else contents w d i)
  clean_bytes w p d i g off =
      in_branch (λ x. contents w d i ≡ x) (same_key p.disk p.lba d (i / page_size * spp m d))
        (p.bytes (i % page_size)) (contents w d i)
        (λ y.
          let (a, b) = same_key→eq p.disk p.lba d (i / page_size * spp m d) y in
          let here : p.lba ≡ i / page_size * spp m p.disk = rw a b in
          let start : p.lba * m.sector_size p.disk ≡ i / page_size * page_size =
            ap (λ x. x * m.sector_size p.disk) here
            ∙ page_start_eq (i / page_size) (spp m p.disk) (m.sector_size p.disk) g.disk.whole in
          let whole : p.lba * m.sector_size p.disk + i % page_size ≡ i = omega (arith, start) in
          sym (g.clean off (i % page_size) (omega arith) ∙ ap₂ (contents w) a whole))
        (λ n. refl)

  module _ (healthy : IsHealthy m contents capacity) (w : W) (p : Page) where
    abbrev pub stored : W × ℤ
    stored = write_direct m w p.disk p.lba p.sector_count p.bytes

    direct : IsGood m contents capacity w p → stored ≡ m.write w p.disk p.lba p.sector_count p.bytes
    unfolding write_direct
    direct g = rw (g.disk.present, g.disk.writes) refl

    pub stored_code : IsGood m contents capacity w p → is_success stored.1 ≡ true
    stored_code g = rw (direct g) (
        healthy.write_code w p.disk p.lba p.sector_count p.bytes g.disk
          (omega (arith, g.count, g.fits)))

    -- The page is on its disk then, and the rest is as it was.
    pub stored_bytes :
        (d i : ℕ)
        → IsGood m contents capacity w p
        → contents stored.0 d i ≡ (
            if same_key p.disk p.lba d (i / page_size * spp m d)
            then p.bytes (i % page_size)
            else contents w d i)
    stored_bytes d i g = rw (direct g) (
        healthy.write_stores w p.disk p.lba p.sector_count p.bytes d i g.disk
          (omega (arith, g.count, g.fits))
        ∙ cases (ℕ_discrete p.disk d))
      where
        cases :
            Dec (p.disk ≡ d)
            → (if (p.disk == d)
                  && inside (p.lba * m.sector_size p.disk) (p.sector_count * m.sector_size p.disk) i
                then p.bytes (i - p.lba * m.sector_size p.disk)
                else contents w d i)
              ≡ (if same_key p.disk p.lba d (i / page_size * spp m d)
                  then p.bytes (i % page_size)
                  else contents w d i)
        cases (no ne) = rw (ne→== p.disk d ne) refl
        cases (yes e) = elim (Bool-cases (p.lba == i / page_size * spp m p.disk)) [
          | inl y ↦
              let off = offset_in_page w p i g (==→eq p.lba _ y) in
              rw (sym e, ==_refl p.disk, in_good_page w p i g, y, off) refl
          | inr n ↦ rw (sym e, ==_refl p.disk, in_good_page w p i g, n) refl
        ]

    pub stored_other-IsGood :
        (q : Page)
        → IsGood m contents capacity w p
        → IsGood m contents capacity w q
        → same_key p.disk p.lba q.disk q.lba ≡ false
        → IsGood m contents capacity stored.0 q
    stored_other-IsGood q g h ne = record {
      disk = h.disk;
      aligned = h.aligned;
      count = h.count;
      fits = h.fits;
      clean = λ off i lt.
          let at = page_byte w q i h lt in
          let past : same_key p.disk p.lba q.disk
                ((q.lba * m.sector_size q.disk + i) / page_size * spp m q.disk)
              ≡ false =
            rw at ne in
          h.clean off i lt
          ∙ sym (stored_bytes q.disk (q.lba * m.sector_size q.disk + i) g ∙ rw past refl);
    }

    -- The page itself, once it is not dirty any more.
    pub stored_self-IsGood :
        (q : Page)
        → IsGood m contents capacity w p
        → same_key q.disk q.lba p.disk p.lba ≡ true
        → q.sector_count ≡ p.sector_count
        → q.bytes ≡ p.bytes
        → IsGood m contents capacity stored.0 q
    stored_self-IsGood q g same sectors bytes =
        let (a, b) = same_key→eq q.disk q.lba p.disk p.lba same in
        record {
          disk = subst (λ d. IsDisk m contents capacity d) (sym a) g.disk;
          aligned = rw (a, b) g.aligned;
          count = rw (a, sectors) g.count;
          fits = rw (a, b) g.fits;
          clean = λ off i lt.
              let at = page_byte w p i g lt in
              let here : same_key p.disk p.lba p.disk
                    ((p.lba * m.sector_size p.disk + i) / page_size * spp m p.disk)
                  ≡ true =
                rw at (same_key_refl p.disk p.lba) in
              let k = p.lba / spp m p.disk in
              let start : p.lba * m.sector_size p.disk ≡ k * page_size =
                ap (λ x. x * m.sector_size p.disk) g.aligned
                ∙ page_start_eq k (spp m p.disk) (m.sector_size p.disk) g.disk.whole in
              let off : (p.lba * m.sector_size p.disk + i) % page_size ≡ i = omega (arith, start) in
              rw (a, b, bytes)
                (sym
                  (stored_bytes p.disk (p.lba * m.sector_size p.disk + i) g ∙ rw (here, off) refl));
        }
