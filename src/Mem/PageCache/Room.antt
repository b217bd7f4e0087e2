-- ===== src/Mem/PageCache/Room.antt =====
-- Kernel/Source/Mem/PageCache.c: eviction, and the loop of PCacheEnsureRoom.
use k_os.Prelude.{
  ℕ, ◌+◌, ◌*◌, ◌/◌, ◌%◌, ◌≡◌, refl, ◌∙◌, inl, inr, none, some, arith, if◌then◌else◌, Bool-cases,
  in_branch,
}
use k_os.Mem.PageCache.{
  Page, PCache, Machine, page_size, same_key, find_page, list_unlink, undirty, take_out, evict, spp,
}
use k_os.Mem.PageCache.Keys.{
  at_same_key, IsUnique, find_page-key, list_unlink-IsUnique, length-list_unlink,
  find_page-list_unlink_ne, find_page-list_unlink_self,
}
use k_os.Mem.PageCache.Dirty.{
  count_dirty, count_dirty-le, AreListed, listed-undirty_ne, listed-undirty_self,
  undirty-IsDistinct, count_dirty-list_unlink,
}
use k_os.Mem.PageCache.Table.{Pages, list_unlink-Pages, list_unlink-AreListed, list_unlink_apart}
use k_os.Mem.PageCache.State.{
  SameDisks, IsHealthy, IsGood, IsTable, byte_of, logical, SameView, SameDisks-IsGood, byte_of_same,
}
use k_os.Mem.PageCache.Disk.{stored, stored_bytes, clean_bytes, stored_other-IsGood}

module _ {W : Type 0} (m : Machine W) (contents : W → ℕ → ℕ → ℕ) (capacity : ℕ → ℕ) where
  taken_listed :
      (c : PCache) (w : W) (v : Page)
      → IsTable m contents capacity c w
      → find_page c.lru v.disk v.lba ≡ some v
      → AreListed (take_out c v).lru (take_out c v).dirty_list
  unfolding take_out AreListed
  taken_listed c w v t found = elim (Bool-cases v.dirty) [
    | inl y ↦ rw y (
        list_unlink-AreListed c.lru v.disk v.lba c.dirty_list (undirty c.dirty_list v.disk v.lba)
          t.unique t.are_listed (listed-undirty_self v.disk v.lba c.dirty_list t.distinct)
          (λ d' l' ne. listed-undirty_ne v.disk v.lba c.dirty_list d' l' ne))
    | inr n ↦ rw n (
        list_unlink-AreListed c.lru v.disk v.lba c.dirty_list c.dirty_list t.unique t.are_listed
          (t.are_listed v.disk v.lba ∙ rw found n) (λ d' l' ne. refl))
  ]

  -- Whatever the world is then, if the pages that are left hold what is stored in it.
  pub take_out-IsTable :
      (c : PCache) (w w' : W) (v : Page) (n : ℕ)
      → IsTable m contents capacity c w
      → find_page c.lru v.disk v.lba ≡ some v
      → Pages (IsGood m contents capacity w') (list_unlink c.lru v.disk v.lba)
      → IsTable m contents capacity (record (take_out c v) { writeback_count = n }) w'
  unfolding take_out
  take_out-IsTable c w w' v n t found good =
      let shorter = length-list_unlink v.disk v.lba c.lru v found in
      let fewer = count_dirty-list_unlink v.disk v.lba c.lru v found in
      let few = count_dirty-le c.lru in
      record {
        unique = list_unlink-IsUnique v.disk v.lba c.lru t.unique;
        good = good;
        counted = omega (arith, t.counted, t.bounded, t.limit, shorter);
        bounded = omega (arith, t.counted, t.bounded, t.limit, shorter);
        positive = t.positive;
        limit = t.limit;
        are_listed = taken_listed c w v t found;
        distinct = elim (Bool-cases v.dirty) [
          | inl y ↦ rw y (undirty-IsDistinct v.disk v.lba c.dirty_list t.distinct)
          | inr off ↦ rw off t.distinct
        ];
        on = t.on;
        dirty_counted = elim (Bool-cases v.dirty) [
          | inl y ↦ rw y (
              let one : count_dirty c.lru ≡ 1 + count_dirty (list_unlink c.lru v.disk v.lba) =
                rw y at fewer in
              omega (arith, t.dirty_counted, t.counted, t.bounded, t.limit, one, few))
          | inr off ↦ rw off (
              let none_less : count_dirty c.lru ≡ 0 + count_dirty (list_unlink c.lru v.disk v.lba) =
                rw off at fewer in
              omega (arith, t.dirty_counted, none_less))
        ];
      }

  -- A page whose bytes are stored can be taken out unseen.
  list_unlink_SameView :
      (c c' : PCache) (w w' : W) (v : Page)
      → IsUnique c.lru
      → find_page c.lru v.disk v.lba ≡ some v
      → c'.lru ≡ list_unlink c.lru v.disk v.lba
      → ((d i : ℕ)
          → contents w' d i ≡ (
              if same_key v.disk v.lba d (i / page_size * spp m d)
              then v.bytes (i % page_size)
              else contents w d i))
      → SameView m contents capacity c w c' w'
  unfolding SameView logical byte_of
  list_unlink_SameView c c' w w' v u found gone bytes d i disk =
      let l = i / page_size * spp m d in
      elim (Bool-cases (same_key v.disk v.lba d l)) [
        | inl y ↦
            let before =
              at_same_key (λ e n. find_page c.lru e n ≡ some v) v.disk v.lba d l y found in
            let after =
              at_same_key (λ e n. find_page (list_unlink c.lru v.disk v.lba) e n ≡ none) v.disk
                v.lba d l y (find_page-list_unlink_self v.disk v.lba c.lru u) in
            rw (gone, before, after) (bytes d i ∙ rw y refl)
        | inr n ↦
            rw (gone, find_page-list_unlink_ne v.disk v.lba c.lru d l n)
              (byte_of_same m contents capacity (find_page c.lru d l) w w' d i
                (bytes d i ∙ rw n refl))
      ]

  -- What an eviction of `v` comes to.
  unfoldable pub Evicted : PCache → W → Page → PCache × W → Type 0
  Evicted c w v s =
      IsTable m contents capacity s.0 s.1
      × SameView m contents capacity c w s.0 s.1
      × (s.0.lru ≡ list_unlink c.lru v.disk v.lba)
      × (s.0.max_pages ≡ c.max_pages)

  evicted :
      (c : PCache) (w w' : W) (v : Page) (n : ℕ)
      → IsTable m contents capacity c w
      → find_page c.lru v.disk v.lba ≡ some v
      → Pages (IsGood m contents capacity w') (list_unlink c.lru v.disk v.lba)
      → ((d i : ℕ)
          → contents w' d i ≡ (
              if same_key v.disk v.lba d (i / page_size * spp m d)
              then v.bytes (i % page_size)
              else contents w d i))
      → Evicted c w v (record (take_out c v) { writeback_count = n }, w')
  unfolding Evicted take_out
  evicted c w w' v n t found good bytes = (
    take_out-IsTable c w w' v n t found good,
    list_unlink_SameView c _ w w' v t.unique found refl bytes,
    refl,
    refl,
  )

  module _ (healthy : IsHealthy m contents capacity) where
    pub evict_lem :
        (c : PCache) (w : W) (v : Page)
        → IsTable m contents capacity c w
        → find_page c.lru v.disk v.lba ≡ some v
        → Evicted c w v (evict m c w v)
    unfolding evict Pages SameDisks
    evict_lem c w v t found =
        let g = t.good v.disk v.lba v found in
        let left =
          list_unlink-Pages c.lru (IsGood m contents capacity w) v.disk v.lba t.unique t.good in
        in_branch (Evicted c w v) v.dirty _ _
          (λ y.
            let freed = healthy.free_keeps (stored m contents capacity healthy w v).0 in
            evicted c w _ v _ t found
              (λ d l q e.
                let apart = list_unlink_apart c.lru v.disk v.lba d l q t.unique e in
                let (a, b) = find_page-key (list_unlink c.lru v.disk v.lba) d l q e in
                SameDisks-IsGood m contents capacity _ _ q freed (
                  stored_other-IsGood m contents capacity healthy w v q g (left d l q e)
                    (rw (a, b) apart)))
              (λ d i. freed d i ∙ stored_bytes m contents capacity healthy w v d i g))
          (λ off.
            let freed = healthy.free_keeps w in
            evicted c w _ v (take_out c v).writeback_count t found
              (λ d l q e. SameDisks-IsGood m contents capacity _ _ q freed (left d l q e))
              (λ d i. freed d i ∙ clean_bytes m contents capacity w v d i g off))
