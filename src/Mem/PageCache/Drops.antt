-- ===== src/Mem/PageCache/Drops.antt =====
-- Kernel/Source/Mem/PageCache.c: PCacheInvalidate, which drops pages without writing them.
use k_os.Prelude.{
  ℕ, zero, suc, ◌+◌, ◌*◌, ◌/◌, ◌%◌, ◌^◌, ◌≤◌, ◌<◌, ◌≡◌, refl, sym, ap, subst, ◌∙◌, inl, inr, Bool,
  true, false, not, ◌&&◌, ◌||◌, Option, none, some, arith, ltb, leb, ◌==◌, if◌then◌else◌, ltb→lt,
  ltb→le, le→ltb, ne→==, ==_refl, true≢false, Bool-cases, Option-cases, in_branch,
}
use native.Mathlib.Decide.{ℕ_discrete}
use native.Mathlib.Nat.{add-mul, mul-le-mul_right, le-mul_of_pos_right, lt-div-mul-add}
use k_os.Mem.PageCache.{
  Page, PCache, Machine, page_size, same_key, find_page, list_unlink, take_out, spp,
}
use k_os.Mem.PageCache.Control.{discard, invalidate_at, invalidate_loop, pcache_invalidate}
use k_os.Mem.PageCache.Keys.{
  at_same_key, find_page-key, find_page-list_unlink_ne, find_page-list_unlink_self,
}
use k_os.Mem.PageCache.Victim.{IsIdle, All-list_unlink, All-find_page}
use k_os.Mem.PageCache.Table.{Pages, list_unlink-Pages}
use k_os.Mem.PageCache.State.{
  IsDisk, SameDisks, IsHealthy, IsGood, IsCache, byte_of, byte_of_same, logical, SameDisks-IsGood,
  IsTable-same,
}
use k_os.Mem.PageCache.Disk.{spp_pos}
use k_os.Mem.PageCache.Room.{take_out-IsTable}

-- Whether sector `k` is the first one of a page from `cur` on, in front of `end`.
abbrev pub from_to : ℕ → ℕ → ℕ → ℕ → ℕ → Bool
from_to d cur end e k = (d == e) && (leb cur k && ltb k end)

none_behind : (d cur end e k : ℕ) → end ≤ cur → from_to d cur end e k ≡ false
none_behind d cur end e k le = empty (d == e) cur end k le
  where
    empty : (s : Bool) (cur end k : ℕ) → end ≤ cur → (s && (leb cur k && ltb k end)) ≡ false
    empty true cur end k le = ground arith
    empty false cur end k le = refl

-- The pages from page j on are that page and those from the next one on.
first_of :
    (j q s end : ℕ)
    → 0 < s
    → j * s < end
    → (leb (j * s) (q * s) && ltb (q * s) end)
      ≡ ((leb ((j + 1) * s) (q * s) && ltb (q * s) end) || (j * s == q * s))
first_of j q s end pos more = elim (Bool-cases (ltb q j)) [
  | inl y ↦
      let lt = ltb→lt q j y in
      let le : q + 1 ≤ j = omega (arith, lt) in
      let scaled = mul-le-mul_right s le in
      let one = add-mul q 1 s in let two = add-mul j 1 s in ground arith
  | inr n ↦ elim (ℕ_discrete j q) [
    | yes here ↦
        let same : j * s ≡ q * s = ap (λ x. x * s) here in let two = add-mul j 1 s in ground arith
    | no away ↦
        let ge = ltb→le q j n in
        let le : j + 1 ≤ q = omega (arith, ge, away) in
        let scaled = mul-le-mul_right s le in let two = add-mul j 1 s in ground arith
  ]
]

either_if :
    (a b : Bool) (x y : ℕ) → (if a then x else (if b then x else y)) ≡ (if a || b then x else y)
either_if a b x y = ground arith

module _ {W : Type 0} (m : Machine W) (contents : W → ℕ → ℕ → ℕ) (capacity : ℕ → ℕ)
    (healthy : IsHealthy m contents capacity) where
  -- The bytes whose page is dropped show what the disk has, the others what they did.
  unfoldable pub Dropped : PCache → W → PCache × W → (ℕ → ℕ → Bool) → Type 0
  Dropped c w (c', w') gone =
      IsCache m contents capacity c' w'
      × ((e i : ℕ) → contents w' e i ≡ contents w e i)
      × ((e i : ℕ)
          → logical m contents capacity c' w' e i ≡ (
              if gone e (i / page_size * spp m e)
              then contents w e i
              else logical m contents capacity c w e i))

  discard_lem :
      (c : PCache) (w : W) (p : Page)
      → IsCache m contents capacity c w
      → find_page c.lru p.disk p.lba ≡ some p
      → Dropped c w (discard m c w p) (same_key p.disk p.lba)
  unfolding Dropped discard take_out logical byte_of Pages SameDisks
  discard_lem c w p h found =
      let (z, f) = All-find_page IsIdle c.lru p.disk p.lba p h.idle found in
      let freed = healthy.free_keeps w in
      let left =
        list_unlink-Pages c.lru (IsGood m contents capacity w) p.disk p.lba h.table.unique
          h.table.good in
      let out =
        take_out-IsTable m contents capacity c w (m.memory_free w) p 0 h.table found (λ d l q e.
          SameDisks-IsGood m contents capacity w (m.memory_free w) q freed (left d l q e)) in
      rw z (
        record {
          table =
              IsTable-same m contents capacity _ _ (m.memory_free w) refl refl refl refl refl refl
                out;
          idle = All-list_unlink IsIdle c.lru p.disk p.lba h.idle;
        },
        freed,
        λ e i.
            let l = i / page_size * spp m e in
            elim (Bool-cases (same_key p.disk p.lba e l)) [
              | inl y ↦
                  let gone =
                    at_same_key (λ x n. find_page (list_unlink c.lru p.disk p.lba) x n ≡ none)
                      p.disk p.lba e l y
                      (find_page-list_unlink_self p.disk p.lba c.lru h.table.unique) in
                  rw (gone, y) (freed e i)
              | inr n ↦
                  rw (find_page-list_unlink_ne p.disk p.lba c.lru e l n, n)
                    (byte_of_same m contents capacity (find_page c.lru e l) w (m.memory_free w) e i
                      (freed e i))
            ],
      )

  invalidate_at_lem :
      (c : PCache) (w : W) (d l : ℕ)
      → IsCache m contents capacity c w
      → Dropped c w (invalidate_at m c w d l) (same_key d l)
  unfolding invalidate_at Dropped logical byte_of
  invalidate_at_lem c w d l h = elim (Option-cases (find_page c.lru d l)) [
    | inl absent ↦
        rw (invalidate_at, absent)
          (
            h,
            (λ e i. refl),
            λ e i.
                in_branch (λ x. logical m contents capacity c w e i ≡ x)
                  (same_key d l e (i / page_size * spp m e)) _ _
                  (λ y.
                    let none_there =
                      at_same_key (λ x n. find_page c.lru x n ≡ none) d l e _ y absent in
                    rw none_there refl)
                  (λ n. refl),
          )
    | inr (p, found) ↦
        let (a, b) = find_page-key c.lru d l p found in
        rw (invalidate_at, found)
          (subst (λ x. Dropped c w (discard m c w p) (same_key x l)) a
            (subst (λ x. Dropped c w (discard m c w p) (same_key p.disk x)) b
              (discard_lem c w p h (
                subst (λ x. find_page c.lru p.disk x ≡ some p) (sym b)
                  (subst (λ x. find_page c.lru x l ≡ some p) (sym a) found)))))
  ]

  next_pages :
      (d e j q end : ℕ)
      → 0 < spp m d
      → j * spp m d < end
      → from_to d (j * spp m d) end e (q * spp m e) ≡ (
          from_to d ((j + 1) * spp m d) end e (q * spp m e)
          || same_key d (j * spp m d) e (q * spp m e))
  next_pages d e j q end pos more = elim (ℕ_discrete d e) [
    | yes same ↦
        subst
          (λ x. from_to d (j * spp m d) end x (q * spp m x) ≡ (
            from_to d ((j + 1) * spp m d) end x (q * spp m x)
            || same_key d (j * spp m d) x (q * spp m x)))
          same (rw (==_refl d) (first_of j q (spp m d) end pos more))
    | no ne ↦ rw (ne→== d e ne) refl
  ]

  -- The loop ends, and its pages are dropped.
  Invalidated : PCache → W → Option (PCache × W) → (ℕ → ℕ → Bool) → Type 0
  Invalidated c w o gone = (r : PCache × W) × (o ≡ some r) × Dropped c w r gone

  loop_ends :
      (d j end : ℕ) (c : PCache) (w : W)
      → IsCache m contents capacity c w
      → end ≤ j * spp m d
      → Dropped c w (c, w) (from_to d (j * spp m d) end)
  unfolding Dropped
  loop_ends d j end c w h over = (
    h,
    (λ e i. refl),
    λ e i. rw (none_behind d (j * spp m d) end e (i / page_size * spp m e) over) refl,
  )

  invalidate_loop_lem :
      (rounds : ℕ) (d j end : ℕ) (c : PCache) (w : W)
      → IsDisk m contents capacity d
      → IsCache m contents capacity c w
      → end ≤ (j + rounds) * spp m d
      → end + spp m d < 2 ^ 64
      → Invalidated c w
          (invalidate_loop m rounds d (j * spp m d) end c w)
          (from_to d (j * spp m d) end)
  unfolding invalidate_loop Dropped Invalidated
  invalidate_loop_lem zero d j end c w disk h enough small =
      let over : end ≤ j * spp m d = subst (λ x. end ≤ x * spp m d) (omega arith) enough in
      ((c, w), rw (le→ltb (j * spp m d) end over) refl, loop_ends d j end c w h over)
  invalidate_loop_lem (suc rounds) d j end c w disk h enough small =
      let (h1, same1, seen1) = invalidate_at_lem c w d (j * spp m d) h in
      let at = invalidate_at m c w d (j * spp m d) in
      let (r, ended, dropped) =
        invalidate_loop_lem rounds d (j + 1) end at.0 at.1 disk h1
          (subst (λ x. end ≤ x * spp m d) (omega arith) enough) small in
      let (h2, same2, seen2) = dropped in
      elim (Bool-cases (ltb (j * spp m d) end)) [
        | inr n ↦ ((c, w), rw n refl, loop_ends d j end c w h (ltb→le _ _ n))
        | inl y ↦
            let lt = ltb→lt _ _ y in
            let next : (j * spp m d + spp m d) % 2 ^ 64 ≡ (j + 1) * spp m d =
              omega (arith, add-mul j 1 (spp m d), lt) in
            (
              r,
              rw (y, next) ended,
              (
                h2,
                (λ e i. same2 e i ∙ same1 e i),
                λ e i.
                    seen2 e i
                    ∙ rw (seen1 e i, same1 e i)
                        (either_if _ _ (contents w e i) (logical m contents capacity c w e i)
                          ∙ ap
                              (λ b.
                                if b then contents w e i else logical m contents capacity c w e i)
                              (sym (
                                next_pages d e j (i / page_size) end
                                  (spp_pos m contents capacity d disk) lt))),
              ),
            )
      ]

  -- PCacheInvalidate, where the end of the sectors is more than a page below 2^64, ends and drops each page of
  -- the disk from that of the first sector on which begins in front of the end, so that its bytes show what
  -- the disk has; all other bytes are to be seen as before, no disk is changed, and the cache stays
  -- well-formed with no page referenced, as it is at the start. The sectors of the disk fill pages.
  pub pcache_invalidate_lem :
      (c : PCache) (w : W) (d l n : ℕ)
      → IsDisk m contents capacity d
      → IsCache m contents capacity c w
      → l + n + spp m d < 2 ^ 64
      → (r : PCache × W) × (pcache_invalidate m c w d l n ≡ some r)
        × Dropped c w r (from_to d (l / spp m d * spp m d) (l + n))
  unfolding pcache_invalidate Invalidated
  pcache_invalidate_lem c w d l n disk h small =
      let j = l / spp m d in
      let pos = spp_pos m contents capacity d disk in
      let s = spp m d in
      let start = lt-div-mul-add {a = l} pos in
      let sectors = le-mul_of_pos_right n pos in
      let enough : l + n ≤ (j + (n + 1)) * s =
        omega (arith, add-mul j (n + 1) s, add-mul n 1 s, start, sectors) in
      let whole : (l + n) % 2 ^ 64 ≡ l + n = omega arith in
      let run = invalidate_loop_lem (n + 1) d j (l + n) c w disk h enough small in
      in_branch (λ o. (r : PCache × W) × (o ≡ some r) × Dropped c w r (from_to d (j * s) (l + n)))
        ((d == 0) || not c.initialized) _ _
        (λ y. absurd (true≢false (sym y ∙ rw (disk.present, h.table.on) refl))) (λ _. rw whole run)
