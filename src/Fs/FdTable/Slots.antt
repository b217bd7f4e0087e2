-- ===== src/Fs/FdTable/Slots.antt =====
-- Descriptors are given out and looked up: the lowest free one is taken, and what is installed is
-- found again.
use k_os.Prelude.{
  ℕ, suc, ◌+◌, ◌-◌, ◌%◌, ◌^◌, ◌≤◌, ◌<◌, ◌≡◌, refl, ap, ◌≢◌, ◌⊎◌, inl, inr, Bool, true, false, not,
  some, arith, leb, leb→le, leb→lt, lt→leb, ne→==, Bool-cases, length, set, get_or-set_self,
  get_or-set_ne,
}
use native.Mathlib.Decide.{ℕ_discrete}
use k_os.Prelude.Counting.{count_below, count_below_more}
use k_os.Prelude.Loops.{Outcome, fell, returned, Post, for_loop, for_loop_rule}
use k_os.Fs.FdTable.{
  FdKind, vfs, kobj, FdEntry, FdTable, FdResult, fd, error, emfile, entry_at, is_free, zeroed,
  alloc_step, alloc_result, alloc_from, alloc, fd_get, get_vfs, get_kobj, install_at, install_vfs,
  install_kobj,
}

abbrev pub in_use : FdTable → ℕ → Bool
in_use t i = not (is_free (entry_at t i).kind)

-- The table has its 256 entries, and Count is the number of those that are not free.
pub record IsCounted (t : FdTable) : Type 0 where
  pub size : length t.entries ≡ 256
  pub counted : t.count ≡ count_below 256 (in_use t)

-- Every descriptor from `lo` up to below `hi` is in use.
abbrev pub AllUsed : FdTable → ℕ → ℕ → Type 0
AllUsed t lo hi = (j : ℕ) → lo ≤ j → j < hi → in_use t j ≡ true

-- `i` is the lowest free descriptor from `lo` on.
pub record Lowest (t : FdTable) (lo i : ℕ) : Type 0 where
  pub above : lo ≤ i
  pub below : i < 256
  pub is_free : in_use t i ≡ false
  pub first : AllUsed t lo i

AllUsed-suc : (t : FdTable) (lo i : ℕ) → AllUsed t lo i → in_use t i ≡ true → AllUsed t lo (suc i)
AllUsed-suc t lo i all here j le lt = elim (ℕ_discrete j i) [
  | yes e ↦ rw e here
  | no ne ↦ all j le (omega arith)
]

search_lem :
    (t : FdTable) (lo : ℕ)
    → lo ≤ 256
    → Post (λ _. AllUsed t lo 256) (Lowest t lo) (for_loop (256 - lo) lo (alloc_step t) tt)
unfolding alloc_step
search_lem t lo le =
    for_loop_rule (λ i _. (lo ≤ i) × AllUsed t lo i) (λ _. AllUsed t lo 256) (Lowest t lo)
      (alloc_step t) 256
      (λ i s lt (ge, all). elim (Bool-cases (is_free (entry_at t i).kind)) [
        | inl y ↦ rw y (record { above = ge; below = lt; is_free = rw y refl; first = all })
        | inr n ↦ rw n (omega (arith, ge), AllUsed-suc t lo i all (rw n refl))
      ])
      (λ s (ge, all). all) (256 - lo) lo tt (omega arith)
      (omega arith, λ j p q. absurd (omega arith))

-- What FdAllocFrom promises: the lowest free descriptor, and one more in Count; or there is none.
abbrev pub Allocated : FdTable → ℕ → FdTable × FdResult → Type 0
Allocated t lo r =
    ((i : ℕ) × Lowest t lo i × (r ≡ (record t { count = (t.count + 1) % 2 ^ 32 }, fd i)))
    ⊎ (AllUsed t lo 256 × (r ≡ (t, error emfile)))

-- FdAllocFrom answers the lowest free descriptor from MinFd on and counts it, or every descriptor
-- from MinFd up to 255 is in use and it answers -EMFILE and changes nothing.
pub alloc_from_lem : (t : FdTable) (lo : ℕ) → Allocated t lo (alloc_from t lo)
unfolding alloc_from
alloc_from_lem t lo = elim (Bool-cases (leb 256 lo)) [
  | inl y ↦ let ge = leb→le _ _ y in rw y (inr ((λ j p q. absurd (omega (arith, ge))), refl))
  | inr n ↦ rw n (
      finish (for_loop (256 - lo) lo (alloc_step t) tt)
        (search_lem t lo (let lt = leb→lt _ _ n in omega arith)))
]
  where
    finish :
        (o : Outcome (Unit {0}) ℕ)
        → Post (λ _. AllUsed t lo 256) (Lowest t lo) o
        → Allocated t lo (alloc_result t o)
    finish (fell _) all = inr (all, refl)
    finish (returned i) low = inl (i, low, refl)

-- A free entry becomes one in use.
fill-in_use :
    (t : FdTable) (i : ℕ) (e : FdEntry)
    → length t.entries ≡ 256
    → i < 256
    → in_use t i ≡ false
    → is_free e.kind ≡ false
    → count_below 256
        (in_use (record { entries = set t.entries i e; count = (t.count + 1) % 2 ^ 32 }))
      ≡ count_below 256 (in_use t) + 1
fill-in_use t i e size lt was now =
    let here = get_or-set_self t.entries i e zeroed (omega (arith, size)) in
    let more =
      count_below_more 256 i (in_use t)
        (in_use (record { entries = set t.entries i e; count = (t.count + 1) % 2 ^ 32 })) lt was
        (rw (here, now) refl)
        (λ j p ne. ap (λ x. not (is_free x.kind)) (get_or-set_ne t.entries i j e zeroed ne)) in
    omega (arith, more)

-- The lowest free descriptor from 3 on holds the target now, no other entry changes, and one more is open.
pub record Installed (t : FdTable) (kind : FdKind) (target flags i : ℕ) (u : FdTable) : Type 0 where
  pub lowest : Lowest t 3 i
  pub open_entries : count_below 256 (in_use u) ≡ count_below 256 (in_use t) + 1
  pub count : u.count ≡ (t.count + 1) % 2 ^ 32
  pub found :
      fd_get u i
      ≡ some (record { kind = kind; flags = flags; target = target; offset = 0; ref_count = 1 })
  pub others : (j : ℕ) → i ≢ j → entry_at u j ≡ entry_at t j

abbrev pub Installs : FdTable → FdKind → ℕ → ℕ → FdTable × FdResult → Type 0
Installs t kind target flags r =
    ((i : ℕ) × Installed t kind target flags i r.0 × (r.1 ≡ fd i))
    ⊎ (AllUsed t 3 256 × (r ≡ (t, error emfile)))

module _ (t : FdTable) (size : length t.entries ≡ 256) (kind : FdKind)
    (open_kind : is_free kind ≡ false) (target flags : ℕ) where
  install_at-Installs :
      (r : FdTable × FdResult)
      → Allocated t 3 r
      → Installs t kind target flags (install_at kind target flags r)
  unfolding fd_get
  install_at-Installs r (inl (i, low, e)) =
      let entry : FdEntry = record {
        kind = kind;
        flags = flags;
        target = target;
        offset = 0;
        ref_count = 1;
      } in
      let here = get_or-set_self t.entries i entry zeroed (omega (arith, size, low.below)) in
      let inside : leb 256 i ≡ false = lt→leb' i low.below in
      rw e (
        inl (
          i,
          record {
            lowest = low;
            open_entries = fill-in_use t i entry size low.below low.is_free open_kind;
            count = refl;
            found = rw (inside, here, open_kind) refl;
            others = λ j ne. get_or-set_ne t.entries i j entry zeroed ne;
          },
          refl,
        ))
    where
      lt→leb' : (i : ℕ) → i < 256 → leb 256 i ≡ false
      lt→leb' i h = lt→leb 256 i h
  install_at-Installs r (inr (all, e)) = rw e (inr (all, refl))

-- FdInstallVfs of a file, not NULLPTR, in a table of 256 entries, whether or not Count is the number of those
-- that are open, puts it at the lowest free descriptor from 3 on, where FdGetVfs finds it and FdGetKObj does
-- not; no other entry changes, one more is open, and Count is one more modulo 2^32. Where there is no free
-- descriptor from 3 on it answers -EMFILE and changes nothing.
pub install_vfs_lem :
    (t : FdTable) (file flags : ℕ)
    → length t.entries ≡ 256
    → file ≢ 0
    → ((i : ℕ) × Installed t vfs file flags i (install_vfs t file flags).0
        × ((install_vfs t file flags).1 ≡ fd i)
        × (get_vfs (install_vfs t file flags).0 i ≡ file)
        × (get_kobj (install_vfs t file flags).0 i ≡ 0))
      ⊎ (AllUsed t 3 256 × (install_vfs t file flags ≡ (t, error emfile)))
unfolding install_vfs alloc get_vfs get_kobj
install_vfs_lem t file flags size ne =
    rw (ne→== file 0 ne)
      (elim (install_at-Installs t size vfs refl file flags (alloc_from t 3) (alloc_from_lem t 3)) [
        | inl (i, done, e) ↦ inl (i, done, e, rw done.found refl, rw done.found refl)
        | inr full ↦ inr full
      ])

-- FdInstallKObj of an object puts it at the lowest free descriptor from 3 on, where FdGetKObj finds it
-- and FdGetVfs does not; no other entry changes and Count stays the number of open entries. Where there
-- is no free descriptor it answers -EMFILE and changes nothing.
pub install_kobj_lem :
    (t : FdTable) (obj flags : ℕ)
    → length t.entries ≡ 256
    → obj ≢ 0
    → ((i : ℕ) × Installed t kobj obj flags i (install_kobj t obj flags).0
        × ((install_kobj t obj flags).1 ≡ fd i)
        × (get_kobj (install_kobj t obj flags).0 i ≡ obj)
        × (get_vfs (install_kobj t obj flags).0 i ≡ 0))
      ⊎ (AllUsed t 3 256 × (install_kobj t obj flags ≡ (t, error emfile)))
unfolding install_kobj alloc get_vfs get_kobj
install_kobj_lem t obj flags size ne =
    rw (ne→== obj 0 ne)
      (elim (install_at-Installs t size kobj refl obj flags (alloc_from t 3) (alloc_from_lem t 3)) [
        | inl (i, done, e) ↦ inl (i, done, e, rw done.found refl, rw done.found refl)
        | inr full ↦ inr full
      ])
