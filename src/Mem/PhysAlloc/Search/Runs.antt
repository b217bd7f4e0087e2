-- ===== src/Mem/PhysAlloc/Search/Runs.antt =====
-- Runs of free pages, and what the loops of the searches know when they have seen the pages below a
-- point. A run may be required to start at a page that `ok` accepts (an aligned one).
use k_os.Prelude.{
  ℕ, suc, ◌+◌, ◌^◌, ◌≤◌, ◌<◌, ◌≡◌, ◌⊎◌, ◌≢◌, inl, inr, refl, Bool, true, false, arith, ◌==◌,
  if◌then◌else◌, Bool-cases, ==→eq, ==→ne,
}
use native.Mathlib.Decide.{dec_lt}
use k_os.Prelude.Loops.{FlowPost}
use k_os.Mem.PhysAlloc.{add_32}
use k_os.Mem.PhysAlloc.Search.{Run, scan_page}

-- `n` pages from `q` on are free.
abbrev pub FreeRun : (ℕ → Bool) → ℕ → ℕ → Type 0
FreeRun f q n = (k : ℕ) → q ≤ k → k < q + n → f k ≡ false

-- The first free run of `count` pages, all of them below `last`, from a page that `ok` accepts.
pub record FirstRun (f ok : ℕ → Bool) (count last r : ℕ) : Type 0 where
  pub fits : r + count ≤ last
  pub accepted : ok r ≡ true
  pub free : FreeRun f r count
  pub first : (q : ℕ) → ok q ≡ true → q < r → ¬ FreeRun f q count

-- No such run exists.
abbrev pub NoRun : (ℕ → Bool) → (ℕ → Bool) → ℕ → ℕ → Type 0
NoRun f ok count last = (q : ℕ) → ok q ≡ true → q + count ≤ last → ¬ FreeRun f q count

-- The pages below `at` have been seen, and the last `continuous` of them are free.
pub record Scanned (f ok : ℕ → Bool) (count last at : ℕ) (r : Run) : Type 0 where
  pub short : r.continuous < count
  pub behind : r.continuous ≤ at
  pub free : (k : ℕ) → at ≤ k + r.continuous → k < at → f k ≡ false
  pub begins : (r.continuous ≡ 0) ⊎ ((r.start_page + r.continuous ≡ at) × (ok r.start_page ≡ true))
  pub none_yet :
      (q : ℕ) → ok q ≡ true → q + r.continuous < at → q + count ≤ last → ¬ FreeRun f q count

module _ (f ok : ℕ → Bool) (count last : ℕ) where
  abbrev Seen : ℕ → Run → Type 0
  Seen = Scanned f ok count last

  pub Scanned-start : 0 < count → (r : Run) → r.continuous ≡ 0 → Scanned f ok count last 0 r
  Scanned-start pos r e = record {
    short = omega arith;
    behind = omega arith;
    free = λ k h h'. elim h' [ ];
    begins = inl e;
    none_yet = λ q o h. elim h [ ];
  }

  -- When all pages are seen, a search that has not returned has passed no run.
  pub Scanned-NoRun : (r : Run) → Scanned f ok count last last r → NoRun f ok count last
  Scanned-NoRun r s q o h = s.none_yet q o (omega (arith, s.short)) h

  -- Pages that are used end every run.
  pub Scanned-used :
      (at at' : ℕ) (r r' : Run)
      → at < at'
      → ((k : ℕ) → at ≤ k → k < at' → f k ≡ true)
      → r'.continuous ≡ 0
      → Scanned f ok count last at r
      → Scanned f ok count last at' r'
  Scanned-used at at' r r' lt used e s = record {
    short = omega (arith, s.short);
    behind = omega arith;
    free = λ k h h'. absurd (omega arith);
    begins = inl e;
    none_yet = λ q o h fits run. elim (dec_lt (q + r.continuous) at) [
      | yes before ↦ s.none_yet q o before fits run
      | no after ↦ elim (dec_lt q at) [
        | yes across ↦
            let a = run at (omega arith) (omega (arith, s.short)) in
            let b = used at (omega arith) lt in cc
        | no inside ↦
            let a = run q (omega arith) (omega (arith, s.short)) in
            let b = used q (omega arith) (omega arith) in cc
      ]
    ];
  }

  -- Past the last page a run may be dropped: it was too short.
  pub Scanned-past :
      (r r' : Run)
      → r'.continuous ≡ 0
      → Scanned f ok count last last r
      → Scanned f ok count last last r'
  Scanned-past r r' e s = record {
    short = omega (arith, s.short);
    behind = omega arith;
    free = λ k h h'. absurd (omega arith);
    begins = inl e;
    none_yet = λ q o h fits run. s.none_yet q o (omega (arith, s.short)) fits run;
  }

  module _ (page : ℕ) (r : Run) (s : Scanned f ok count last page r) where
    abbrev run_start : ℕ
    run_start = if r.continuous == 0 then page else r.start_page

    run_start_lem :
        (r.continuous ≡ 0 → ok page ≡ true)
        → (run_start + r.continuous ≡ page) × (ok run_start ≡ true)
    run_start_lem o = ground (arith, s.begins, o)

    module _ (e : f page ≡ false) where
      longer_free : (k : ℕ) → page ≤ k + r.continuous → k < suc page → f k ≡ false
      longer_free k h h' = elim (dec_lt k page) [
        | yes lt ↦ s.free k h lt
        | no ge ↦ let same : k ≡ page = omega arith in rw same e
      ]

      found :
          (start : ℕ)
          → page < last
          → start + r.continuous ≡ page
          → ok start ≡ true
          → r.continuous + 1 ≡ count
          → FirstRun f ok count last start
      found start h at_start o full = record {
        fits = omega arith;
        accepted = o;
        free = λ k lo hi. longer_free k (omega arith) (omega arith);
        first = λ q oq lt. s.none_yet q oq (omega arith) (omega arith);
      }

      extended :
          (r' : Run)
          → r'.continuous ≡ r.continuous + 1
          → r'.start_page + r.continuous ≡ page
          → ok r'.start_page ≡ true
          → r.continuous + 1 ≢ count
          → Scanned f ok count last (suc page) r'
      extended r' c b o ne = record {
        short = omega (arith, s.short);
        behind = omega (arith, s.behind);
        free = λ k h h'. longer_free k (omega arith) h';
        begins = inr (omega arith, o);
        none_yet = λ q oq h fits. s.none_yet q oq (omega arith) fits;
      }

    -- One page, which is free or not.
    pub scan_page-Scanned :
        page < last
        → last < 2 ^ 32
        → (r.continuous ≡ 0 → ok page ≡ true)
        → (Q : Run → Type 0)
        → FlowPost
            (Scanned f ok count last (suc page))
            Q
            (FirstRun f ok count last)
            (scan_page count page (f page) r)
    unfolding scan_page
    scan_page-Scanned h small o Q = elim (Bool-cases (f page)) [
      | inl used ↦ rw used (
          Scanned-used page (suc page) r (record r { continuous = 0 }) (omega arith)
            (λ k a b. let same : k ≡ page = omega arith in rw same used) refl s)
      | inr free ↦
          let start = run_start_lem o in
          let longer : add_32 r.continuous 1 ≡ r.continuous + 1 = omega (arith, s.behind) in
          rw free (elim (Bool-cases (add_32 r.continuous 1 == count)) [
            | inl full ↦
                rw full
                  (found free run_start h start.0 start.1 (omega (arith, ==→eq _ _ full, longer)))
            | inr more ↦ rw more (
                extended free
                  (record { continuous = add_32 r.continuous 1; start_page = run_start }) longer
                  start.0 start.1 (omega (arith, ==→ne _ _ more, longer)))
          ])
    ]

  -- A page that no run may start at is passed over outside a run.
  pub Scanned-skip :
      (page : ℕ) (r : Run)
      → r.continuous ≡ 0
      → ok page ≡ false
      → Scanned f ok count last page r
      → Scanned f ok count last (suc page) r
  Scanned-skip page r e off s = record {
    short = s.short;
    behind = omega arith;
    free = λ k h h'. absurd (omega arith);
    begins = inl e;
    none_yet = λ q o h fits run. elim (dec_lt q page) [
      | yes lt ↦ s.none_yet q o (omega arith) fits run
      | no ge ↦ let same : q ≡ page = omega arith in let o' : ok page ≡ true = rw same at o in cc
    ];
  }
