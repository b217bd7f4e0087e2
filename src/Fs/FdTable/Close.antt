-- ===== src/Fs/FdTable/Close.antt =====
-- Descriptors are closed: each target is released once, and Count stays the number of open entries.
use k_os.Prelude.{
  ℕ, zero, suc, ◌≤◌, ◌<◌, ◌≡◌, refl, sym, ap, ◌∙◌, ◌≢◌, ◌⊎◌, inl, inr, true, false, not, none, List,
  [], ◌∷◌, ◌++◌, arith, if◌then◌else◌, lt→leb, ne→==, Bool-cases, length, get_or, set, length-set,
  get_or-set_self, get_or-set_ne,
}
use mathlib.Core.List.{append-nil}
use native.Mathlib.Decide.{ℕ_discrete}
use k_os.Prelude.Counting.{count_below_none, count_below_more}
use k_os.Prelude.Loops.{FlowPost, Outcome, fell, returned, Post, for_loop, for_loop_rule}
use k_os.Fs.FdTable.{
  FdKind, free, vfs, kobj, vfs_close, kobj_unref, FdEntry, FdTable, Call, entry_at, is_free, zeroed,
  entry_calls, entry_close, close_step, reset_count, table_close_all, fd_free, fd_get,
}
use k_os.Fs.FdTable.Slots.{in_use, IsCounted}

-- The entry is free now, no other entry changes, and Count counts.
pub record Freed (t : FdTable) (i : ℕ) (u : FdTable) : Type 0 where
  pub counted : IsCounted u
  pub gone : fd_get u i ≡ none
  pub others : (j : ℕ) → i ≢ j → entry_at u j ≡ entry_at t j

closed-is_free : (e : FdEntry) → is_free e.kind ≡ false → is_free (entry_close e).0.kind ≡ true
unfolding entry_close
closed-is_free e open_kind = rw open_kind refl

-- FdFree of an open descriptor releases its target, once, and frees the entry; no other entry changes
-- and Count stays the number of open entries.
pub fd_free_lem :
    (t : FdTable) (i : ℕ)
    → IsCounted t
    → i < 256
    → in_use t i ≡ true
    → Freed t i (fd_free t i).0 × ((fd_free t i).1 ≡ entry_calls (entry_at t i))
unfolding fd_free fd_get entry_close
fd_free_lem t i v lt open_entry =
    let inside = lt→leb 256 i lt in
    let kind : is_free (entry_at t i).kind ≡ false = ground arith in
    let here = get_or-set_self t.entries i zeroed zeroed (omega (arith, v.size)) in
    rw (inside, kind)
      (
        record {
          counted = record {
            size = length-set t.entries i zeroed ∙ v.size;
            counted =
                let less =
                  count_below_more 256 i
                    (λ j. not (is_free (get_or (set t.entries i zeroed) j zeroed).kind)) (in_use t)
                    lt (rw here refl) open_entry
                    (λ j p ne.
                      ap (λ x. not (is_free x.kind))
                        (sym (get_or-set_ne t.entries i j zeroed zeroed ne))) in
                ground (arith, less, v.counted);
          };
          gone = rw (inside, here) refl;
          others = λ j ne. get_or-set_ne t.entries i j zeroed zeroed ne;
        },
        refl,
      )

entry_close-calls : (e : FdEntry) → is_free e.kind ≡ false → (entry_close e).1 ≡ entry_calls e
unfolding entry_close
entry_close-calls e open_kind = rw open_kind refl

-- The calls for the open entries below `i`, in order.
unfoldable pub calls_below : FdTable → ℕ → List Call
calls_below t zero = []
calls_below t (suc i) = calls_below t i ++ (if in_use t i then entry_calls (entry_at t i) else [])

-- What the loop has done before it reaches entry `i`.
record ClosedBelow (t : FdTable) (i : ℕ) (s : FdTable × List Call) : Type 0 where
  size : length s.0.entries ≡ 256
  done : (j : ℕ) → j < i → in_use s.0 j ≡ false
  rest : (j : ℕ) → i ≤ j → entry_at s.0 j ≡ entry_at t j
  calls : s.1 ≡ calls_below t i

module _ (t : FdTable) (i : ℕ) (s : FdTable × List Call) (lt : i < 256)
    (c : ClosedBelow t i s) where
  skip-ClosedBelow : is_free (entry_at s.0 i).kind ≡ true → ClosedBelow t (suc i) s
  unfolding calls_below
  skip-ClosedBelow y =
      let same : is_free (entry_at t i).kind ≡ true = rw⁻¹ (c.rest i (omega arith)) y in
      record {
        size = c.size;
        done = λ j p. elim (ℕ_discrete j i) [
          | yes e ↦ rw (e, y) refl
          | no ne ↦ c.done j (omega arith)
        ];
        rest = λ j p. c.rest j (omega arith);
        calls = rw (same, append-nil) c.calls;
      }

  shut-ClosedBelow :
      is_free (entry_at s.0 i).kind ≡ false
      → ClosedBelow t (suc i) (
        record s.0 { entries = set s.0.entries i (entry_close (entry_at s.0 i)).0 },
        s.1 ++ (entry_close (entry_at s.0 i)).1,
      )
  unfolding calls_below
  shut-ClosedBelow n =
      let same = c.rest i (omega arith) in
      let kind : is_free (entry_at t i).kind ≡ false = rw⁻¹ same n in
      let e = (entry_close (entry_at s.0 i)).0 in
      let here = get_or-set_self s.0.entries i e zeroed (omega (arith, c.size)) in
      record {
        size = length-set s.0.entries i e ∙ c.size;
        done = λ j p. elim (ℕ_discrete j i) [
          | yes q ↦ rw (q, here, closed-is_free (entry_at s.0 i) n) refl
          | no ne ↦
              rw (get_or-set_ne s.0.entries i j e zeroed (λ q. ne (sym q))) (c.done j (omega arith))
        ];
        rest = λ j p. get_or-set_ne s.0.entries i j e zeroed (omega arith) ∙ c.rest j (omega arith);
        calls = rw (same, kind, c.calls, entry_close-calls (entry_at t i) kind) refl;
      }

close_step-ClosedBelow :
    (t : FdTable) (i : ℕ) (s : FdTable × List Call)
    → i < 256
    → ClosedBelow t i s
    → FlowPost (ClosedBelow t (suc i)) (ClosedBelow t 256) (λ (_ : Unit {0}). ⊥) (close_step i s)
unfolding close_step
close_step-ClosedBelow t i s lt c = elim (Bool-cases (is_free (entry_at s.0 i).kind)) [
  | inl y ↦ rw y (skip-ClosedBelow t i s lt c y)
  | inr n ↦ rw n (shut-ClosedBelow t i s lt c n)
]

-- The calls that release the targets: VfsClose for a file, KObjUnref for a kernel object, none for a
-- NULLPTR or a free entry.
abbrev pub Releases : FdEntry → List Call → Type 0
Releases e calls =
    (e.kind ≡ vfs × e.target ≢ 0 × (calls ≡ vfs_close e.target ∷ []))
    ⊎ ((e.kind ≡ kobj × e.target ≢ 0 × (calls ≡ kobj_unref e.target ∷ []))
        ⊎ ((e.kind ≡ free ⊎ (e.target ≡ 0)) × (calls ≡ [])))

-- The calls are those of the entries below `i`, one after the other.
unfoldable pub ReleasesBelow : FdTable → ℕ → List Call → Type 0
ReleasesBelow t zero calls = calls ≡ []
ReleasesBelow t (suc i) calls =
    (before : List Call) × (last : List Call) × ReleasesBelow t i before
    × Releases (entry_at t i) last
    × (calls ≡ before ++ last)

entry-Releases : (e : FdEntry) → Releases e (if not (is_free e.kind) then entry_calls e else [])
entry-Releases e = by_kind e.kind e.target
  where
    by_kind :
        (k : FdKind) (p : ℕ)
        → let x : FdEntry = record e { kind = k; target = p } in
          Releases x (if not (is_free k) then entry_calls x else [])
    by_kind free p = inr (inr (inl refl, refl))
    by_kind vfs p = elim (ℕ_discrete p 0) [
      | yes z ↦ inr (inr (inr z, rw z refl))
      | no n ↦ inl (refl, n, rw (ne→== p 0 n) refl)
    ]
    by_kind kobj p = elim (ℕ_discrete p 0) [
      | yes z ↦ inr (inr (inr z, rw z refl))
      | no n ↦ inr (inl (refl, n, rw (ne→== p 0 n) refl))
    ]

calls_below-ReleasesBelow : (t : FdTable) (i : ℕ) → ReleasesBelow t i (calls_below t i)
unfolding calls_below ReleasesBelow
calls_below-ReleasesBelow t zero = refl
calls_below-ReleasesBelow t (suc i) =
    (_, _, calls_below-ReleasesBelow t i, entry-Releases (entry_at t i), refl)

-- Nothing is open any more, and the targets are released.
pub record AllClosed (t : FdTable) (u : FdTable) (calls : List Call) : Type 0 where
  pub counted : IsCounted u
  pub closed : (j : ℕ) → j < 256 → in_use u j ≡ false
  pub released : ReleasesBelow t 256 calls

-- FdTableCloseAll, where the table has its 256 entries: every entry is free afterwards, Count is 0, and
-- the calls are, in the order of the descriptors, VfsClose of each file and KObjUnref of each kernel object
-- that an entry holds, once each, and no other.
pub table_close_all_lem :
    (t : FdTable) → length t.entries ≡ 256 → AllClosed t (table_close_all t).0 (table_close_all t).1
unfolding table_close_all calls_below
table_close_all_lem t size = finish (for_loop 256 0 close_step (t, [])) (
    for_loop_rule (ClosedBelow t) (ClosedBelow t 256) (λ _. ⊥) close_step 256
      (close_step-ClosedBelow t) (λ s c. c) 256 0 (t, []) (omega arith)
      (record {
        size = size;
        done = λ j p. absurd (omega arith);
        rest = λ j p. refl;
        calls = refl;
      }))
  where
    finish :
        (o : Outcome (FdTable × List Call) (Unit {0}))
        → Post (ClosedBelow t 256) (λ _. ⊥) o
        → AllClosed t (reset_count o t).0 (reset_count o t).1
    finish (fell (u, calls)) c = record {
      counted = record { size = c.size; counted = sym (count_below_none 256 (in_use u) c.done) };
      closed = c.done;
      released = rw c.calls (calls_below-ReleasesBelow t 256);
    }
    finish (returned _) no_return = absurd no_return
