-- ===== src/Mem/PhysAlloc/Search/Steps.antt =====
-- One step, one byte and the whole of a search through the bitmap.
use k_os.Prelude.{
  ℕ, suc, ◌+◌, ◌*◌, ◌/◌, ◌≤◌, ◌<◌, ◌≡◌, ◌⊎◌, inl, inr, refl, Bool, true, arith, ◌==◌, if◌then◌else◌,
  Bool-cases, ==→eq, min, subst,
}
use native.Mathlib.Decide.{dec_lt}
use k_os.Prelude.Bits.{test_bit}
use k_os.Prelude.Loops.{
  Flow, next, Outcome, fell, returned, FlowPost, Post, for_loop, for_loop_rule, FlowPost-mono,
  resume, resume-Post,
}
use k_os.Mem.Bitmap.{bit_at-byte, bit_at-full}
use k_os.Mem.PhysAlloc.{PhysAlloc, byte_at, bitmap_bytes, page_used, no_page}
use k_os.Mem.PhysAlloc.Pages.{IsValid}
use k_os.Mem.PhysAlloc.Search.{Run, no_run, scan_page, page_idx, answer}
use k_os.Mem.PhysAlloc.Search.Runs.{
  FirstRun, NoRun, Scanned, Scanned-start, Scanned-NoRun, Scanned-used, Scanned-past,
  scan_page-Scanned,
}

-- What a search promises: the first run, or the mark for failure where there is none.
abbrev pub Found : (ℕ → Bool) → (ℕ → Bool) → ℕ → ℕ → ℕ → Type 0
Found f ok count last r = FirstRun f ok count last r ⊎ ((r ≡ no_page) × NoRun f ok count last)

-- A state before the page `k`, if there is one below `last`.
abbrev pub At : (ℕ → Bool) → (ℕ → Bool) → ℕ → ℕ → ℕ → Run → Type 0
At f ok count last k r = (at : ℕ) × (at ≡ min k last) × Scanned f ok count last at r

-- The body of the outer loop of a search: a byte of used pages resets the state.
abbrev pub byte_body :
    {S : Type 0} → PhysAlloc → (S → S) → (ℕ → ℕ → S → Flow S ℕ) → ℕ → S → Flow S ℕ
byte_body p reset bits b s =
    if byte_at p b == 0xff then next (reset s) else resume (for_loop 8 0 (bits b) s)

-- The two loops of a search, over any state.
module _ {S : Type 0} (p : PhysAlloc) (v : IsValid p) (Before : ℕ → S → Type 0) (T : ℕ → Type 0)
    (reset : S → S) (bits : ℕ → ℕ → S → Flow S ℕ)
    (skip : (b : ℕ) (s : S) → byte_at p b ≡ 0xff → Before (b * 8) s → Before (suc b * 8) (reset s))
    (keep : (b bit : ℕ) (s : S)
      → bit < 8
      → b * 8 < p.total_pages
      → Before (b * 8 + bit) s
      → FlowPost (Before (b * 8 + suc bit)) (Before (suc b * 8)) T (bits b bit s)) where
  abbrev body : ℕ → S → Flow S ℕ
  body = byte_body p reset bits

  byte_body-Before :
      (b : ℕ) (s : S) (Q : S → Type 0)
      → b < bitmap_bytes p
      → Before (b * 8) s
      → FlowPost (Before (suc b * 8)) Q T (body b s)
  byte_body-Before b s Q h t = elim (Bool-cases (byte_at p b == 0xff)) [
    | inl full ↦ rw full (skip b s (==→eq _ _ full) t)
    | inr other ↦ rw other (
        resume-Post (Before (suc b * 8)) Q T (for_loop 8 0 (bits b) s) (
          for_loop_rule (λ bit. Before (b * 8 + bit)) (Before (suc b * 8)) T (bits b) 8
            (λ bit s' lt t'. keep b bit s' lt (omega (arith, v.small)) t')
            (λ s' t'. subst (λ k. Before k s') (omega arith) t') 8 0 s (omega arith)
            (subst (λ k. Before k s) (omega arith) t)))
  ]

  pub bytes_Post :
      (s : S)
      → Before 0 s
      → Post (Before (bitmap_bytes p * 8)) T (for_loop (bitmap_bytes p) 0 body s)
  bytes_Post s t =
      for_loop_rule (λ b. Before (b * 8)) (Before (bitmap_bytes p * 8)) T body (bitmap_bytes p)
        (λ b s' h t'. byte_body-Before b s' (Before (bitmap_bytes p * 8)) h t') (λ s' t'. t')
        (bitmap_bytes p) 0 s (omega arith) t

module _ (p : PhysAlloc) (ok : ℕ → Bool) (count last : ℕ) (v : IsValid p)
    (le : last ≤ p.total_pages) where
  abbrev used : ℕ → Bool
  used = page_used p

  abbrev Before : ℕ → Run → Type 0
  Before = At used ok count last

  -- A byte of used pages is skipped.
  pub skip_byte :
      (b : ℕ) (r r' : Run)
      → byte_at p b ≡ 0xff
      → r'.continuous ≡ 0
      → Before (b * 8) r
      → Before (suc b * 8) r'
  skip_byte b r r' full e (at, here, s) = elim (dec_lt (b * 8) last) [
    | yes lt ↦ (
      min (suc b * 8) last,
      refl,
      Scanned-used used ok count last at (min (suc b * 8) last) r r' (omega arith)
          (λ k lo hi. let same : k / 8 ≡ b = omega arith in bit_at-full p.bitmap k (rw same full)) e
          s,
    )
    | no ge ↦ (
      last,
      omega arith,
      Scanned-past used ok count last r r' e
          (let end : at ≡ last = omega arith in subst (λ k. Scanned used ok count last k r) end s),
    )
  ]

  -- A page below the end is scanned.
  pub scan_bit :
      (b bit : ℕ) (r : Run) (Q : Run → Type 0)
      → bit < 8
      → b * 8 + bit < last
      → (r.continuous ≡ 0 → ok (b * 8 + bit) ≡ true)
      → Before (b * 8 + bit) r
      → FlowPost
          (Before (b * 8 + suc bit))
          Q
          (Found used ok count last)
          (scan_page count (page_idx b bit) (test_bit (byte_at p b) bit) r)
  scan_bit b bit r Q h lt o (at, here, s) =
      let idx : page_idx b bit ≡ b * 8 + bit = omega (arith, v.small) in
      let same : at ≡ b * 8 + bit = omega arith in
      let s' = subst (λ k. Scanned used ok count last k r) same s in
      rw (idx, ← bit_at-byte p.bitmap b bit h)
        (FlowPost-mono (Scanned used ok count last (suc (b * 8 + bit))) (Before (b * 8 + suc bit)) Q
          (FirstRun used ok count last) (Found used ok count last) _
          (λ r' t. (suc (b * 8 + bit), omega arith, t)) (λ r' t. inl t)
          (scan_page-Scanned used ok count last (b * 8 + bit) r s' lt (omega (arith, v.small)) o Q))

  -- From a page at or past the end on nothing is scanned.
  pub past_end : (k k' : ℕ) (r : Run) → last ≤ k → last ≤ k' → Before k r → Before k' r
  past_end k k' r h h' (at, here, s) = (at, omega arith, s)

  pub Before-NoRun : (k : ℕ) (r : Run) → last ≤ k → Before k r → NoRun used ok count last
  Before-NoRun k r h (at, here, s) =
      let end : at ≡ last = omega arith in
      Scanned-NoRun used ok count last r (subst (λ k. Scanned used ok count last k r) end s)

  -- The answer of a loop over all bytes.
  pub answer-Found :
      (k : ℕ) (o : Outcome Run ℕ)
      → last ≤ k
      → Post (Before k) (Found used ok count last) o
      → Found used ok count last (answer o)
  answer-Found k (fell r) h b = inr (refl, Before-NoRun k r h b)
  answer-Found k (returned r) h f = f

  pub search_Found :
      (bits : ℕ → ℕ → Run → Flow Run ℕ)
      → ((b bit : ℕ) (r : Run)
          → bit < 8
          → b * 8 < p.total_pages
          → Before (b * 8 + bit) r
          → FlowPost
              (Before (b * 8 + suc bit))
              (Before (suc b * 8))
              (Found used ok count last)
              (bits b bit r))
      → 0 < count
      → Found used ok count last (
          answer (
            for_loop
              (bitmap_bytes p)
              0
              (byte_body p (λ r. record r { continuous = 0 }) bits)
              no_run))
  search_Found bits keep pos =
      answer-Found (bitmap_bytes p * 8)
        (for_loop (bitmap_bytes p) 0 (byte_body p (λ r. record r { continuous = 0 }) bits) no_run)
        (omega (arith, v.small))
        (bytes_Post p v Before (Found used ok count last) (λ r. record r { continuous = 0 }) bits
          (λ b r full t. skip_byte b r (record r { continuous = 0 }) full refl t) keep no_run
          (0, omega arith, Scanned-start used ok count last pos no_run refl))
