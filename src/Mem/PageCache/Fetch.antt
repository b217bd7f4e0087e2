-- ===== src/Mem/PageCache/Fetch.antt =====
-- Kernel/Source/Mem/PageCache.c: PCacheGetPage.
use k_os.Prelude.{
  ℕ, ◌+◌, ◌*◌, ◌/◌, ◌%◌, ◌^◌, ◌≤◌, ◌<◌, ◌≡◌, refl, sym, subst, ◌∙◌, inl, inr, not, Option, none,
  some, arith, if◌then◌else◌, Option-cases, in_branch,
}
use k_os.Mem.PageCache.{
  Page, PCache, Machine, find_page, read_direct, spp, new_page, insert, ensure_room, load_page,
  load_missing, get_page,
}
use k_os.Mem.PageCache.Keys.{find_page-key}
use k_os.Mem.PageCache.State.{
  IsDisk, SameDisks, IsHealthy, IsCache, logical, SameView, SameDisks-SameView,
}
use k_os.Mem.PageCache.Ensure.{HasRoom, ensure_room_lem}
use k_os.Mem.PageCache.Held.{
  Fetched, touch_page_lem, insert_lem, false_of_not, IsCache-same, Fetched-from,
}

module _ {W : Type 0} (m : Machine W) (contents : W → ℕ → ℕ → ℕ) (capacity : ℕ → ℕ) where
  -- A page of the disk: its first sector.
  pub record IsPage (d l : ℕ) : Type 0 where
    pub disk : IsDisk m contents capacity d
    pub aligned : l ≡ l / spp m d * spp m d
    pub fits : l + spp m d ≤ capacity d

  Fetched-key :
      (c : PCache) (w : W) (r : PCache × W × Option Page) (d l d' l' : ℕ)
      → d ≡ d'
      → l ≡ l'
      → Fetched m contents capacity c w d l r
      → Fetched m contents capacity c w d' l' r
  Fetched-key c w r d l d' l' a b h =
      subst (λ x. Fetched m contents capacity c w x l' r) a
        (subst (λ x. Fetched m contents capacity c w d x r) b h)

  module _ (healthy : IsHealthy m contents capacity) where
    pub read_direct_disk :
        (w : W) (d l n : ℕ) (buf : ℕ → ℕ)
        → IsDisk m contents capacity d
        → read_direct m w d l n buf ≡ m.read w d l n buf
    unfolding read_direct
    read_direct_disk w d l n buf disk = rw (disk.present, disk.reads) refl

    load_page_eq :
        (c : PCache) (w : W) (d l : ℕ)
        → IsPage d l
        → let w1 = (m.memory_allocate w).0 in
          let r = m.read w1 d l (spp m d) (λ _. 0) in
          load_page m c w d l ≡ (
            if not (m.memory_allocate w).1
            then (c, w1, none)
            else insert m c r.0 (new_page m r.0 d l r.2))
    unfolding load_page
    load_page_eq c w d l page =
        let w1 = (m.memory_allocate w).0 in
        rw
          (
            load_page,
            read_direct_disk w1 d l (spp m d) (λ _. 0) page.disk,
            healthy.read_code w1 d l (spp m d) (λ _. 0) page.disk page.fits,
          )
          refl

    load_page_lem :
        (c : PCache) (w : W) (d l : ℕ)
        → IsPage d l
        → IsCache m contents capacity c w
        → c.page_count < c.max_pages
        → find_page c.lru d l ≡ none
        → Fetched m contents capacity c w d l (load_page m c w d l)
    unfolding SameDisks Fetched
    load_page_lem c w d l page h room absent =
        let w1 = (m.memory_allocate w).0 in
        let allocated = healthy.allocate_keeps w in
        let w2 = (m.read w1 d l (spp m d) (λ _. 0)).0 in
        let read = healthy.read_keeps w1 d l (spp m d) (λ _. 0) in
        let both : SameDisks m contents capacity w w2 = λ e i. read e i ∙ allocated e i in
        subst (Fetched m contents capacity c w d l) (sym (load_page_eq c w d l page)) (
          in_branch (Fetched m contents capacity c w d l) (not (m.memory_allocate w).1) _ _
            (λ failed. (
              IsCache-same m contents capacity c c w w1 refl refl refl refl refl refl allocated h,
              SameDisks-SameView m contents capacity c w w1 allocated,
              w,
              false_of_not m contents capacity (m.memory_allocate w).1 failed,
            ))
            (λ allocated_page.
              (Fetched-from m contents capacity c c w w2 d l _
                (SameDisks-SameView m contents capacity c w w2 both)
                (insert_lem m contents capacity c w2
                  (new_page m w2 d l (m.read w1 d l (spp m d) (λ _. 0)).2)
                  (IsCache-same m contents capacity c c w w2 refl refl refl refl refl refl both h)
                  room
                  (record {
                    disk = page.disk;
                    aligned = page.aligned;
                    count = refl;
                    fits = page.fits;
                    clean = λ off i lt.
                        healthy.read_bytes w1 d l (spp m d) (λ _. 0) i page.disk page.fits
                          (omega (arith, page.disk.whole, lt))
                        ∙ sym (read d (l * m.sector_size d + i));
                  })
                  refl refl refl absent))))

    same_disks : (w : W) → SameDisks m contents capacity w w
    unfolding SameDisks
    same_disks w d i = refl

    view_of_miss :
        (c : PCache) (w : W) (misses : ℕ) (c' : PCache) (w' : W)
        → SameView m contents capacity (record c { miss_count = misses }) w c' w'
        → SameView m contents capacity c w c' w'
    unfolding SameView logical
    view_of_miss c w misses c' w' h = h

    load_missing_lem :
        (c : PCache) (w : W) (d l : ℕ)
        → IsPage d l
        → IsCache m contents capacity c w
        → find_page c.lru d l ≡ none
        → Fetched m contents capacity c w d l (load_missing m c w d l)
    unfolding load_missing HasRoom
    load_missing_lem c w d l page h absent =
        let c0 = record c { miss_count = (c.miss_count + 1) % 2 ^ 64 } in
        let (code, cached, view, room, kept) = ensure_room_lem m contents capacity healthy c0 w (
          IsCache-same m contents capacity c c0 w w refl refl refl refl refl refl (same_disks w)
            h) in
        let r = ensure_room m c0 w in
        rw code (
          Fetched-from m contents capacity c r.0 w r.1 d l _ (view_of_miss c w _ r.0 r.1 view)
            (load_page_lem r.0 r.1 d l page cached room (kept d l absent)))

    pub get_page_lem :
        (c : PCache) (w : W) (d l : ℕ)
        → IsPage d l
        → IsCache m contents capacity c w
        → Fetched m contents capacity c w d l (get_page m c w d l)
    unfolding get_page
    get_page_lem c w d l page h = elim (Option-cases (find_page c.lru d l)) [
      | inl absent ↦
          rw (get_page, page.disk.present, absent) (load_missing_lem c w d l page h absent)
      | inr (p, found) ↦
          let (a, b) = find_page-key c.lru d l p found in
          let fetched = touch_page_lem m contents capacity c w p ((c.hit_count + 1) % 2 ^ 64) h (
            subst (λ x. find_page c.lru p.disk x ≡ some p) (sym b)
              (subst (λ x. find_page c.lru x l ≡ some p) (sym a) found)) in
          rw (get_page, page.disk.present, found) (Fetched-key c w _ p.disk p.lba d l a b fetched)
    ]
