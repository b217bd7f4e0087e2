-- ===== src/Mem/PhysAlloc/Start/Extent.antt =====
-- PhysAllocInit: the area that the loop over the memory map finds.
use k_os.Prelude.{
  ℕ, ◌+◌, ◌-◌, ◌%◌, ◌^◌, ◌≤◌, ◌≡◌, refl, sym, subst, ◌∙◌, ◌⊎◌, inl, inr, true, List, [], ◌∷◌, arith,
  ltb, ◌==◌, if◌then◌else◌, ==→eq, ne→==, either-branch, All,
}
use native.Mathlib.Decide.{ℕ_discrete}
use k_os.Mem.LowMem.{MemmapEntry}
use k_os.Mem.PhysAlloc.Start.{is_usable_entry, region_end, extent, whole_pages}
use k_os.Mem.PhysAlloc.Start.Area.{IsEntry, IsInside}

-- LowestAddr and HighestAddr.
abbrev pub area_of : List MemmapEntry → ℕ × ℕ
area_of es = whole_pages (extent (2 ^ 64 - 1, 0) es)

-- An entry of usable memory with the property.
abbrev pub SomeUsable : (MemmapEntry → Type 0) → List MemmapEntry → Type 0
SomeUsable P [] = ⊥
SomeUsable P (e ∷ es) = ((e.kind ≡ 0) × P e) ⊎ SomeUsable P es

-- The area from `low` to `high` is the least that has all usable memory.
pub record IsExtent (low high : ℕ) (es : List MemmapEntry) : Type 0 where
  pub above : All (λ e. e.kind ≡ 0 → low ≤ e.base) es
  pub below : All (λ e. e.kind ≡ 0 → e.base + e.length ≤ high) es
  pub first : SomeUsable (λ e. e.base ≡ low) es
  pub last : SomeUsable (λ e. e.base + e.length ≡ high) es

pub SomeUsable-All :
    (P Q R : MemmapEntry → Type 0) (es : List MemmapEntry)
    → All (λ e. e.kind ≡ 0 → Q e) es
    → All IsEntry es
    → ((e : MemmapEntry) → e.kind ≡ 0 → IsEntry e → P e → Q e → R e)
    → SomeUsable P es
    → SomeUsable R es
SomeUsable-All P Q R [] q v f s = absurd s
SomeUsable-All P Q R (e ∷ es) q v f (inl (k, p)) = inl (k, f e k v.0 p (q.0 k))
SomeUsable-All P Q R (e ∷ es) q v f (inr s) = inr (SomeUsable-All P Q R es q.1 v.1 f s)

-- What holds of every usable entry alike holds.
pub SomeUsable-holds :
    (C : Type 0) (P : MemmapEntry → Type 0) (es : List MemmapEntry)
    → All IsEntry es
    → ((e : MemmapEntry) → e.kind ≡ 0 → IsEntry e → P e → C)
    → SomeUsable P es
    → C
SomeUsable-holds C P [] v f s = absurd s
SomeUsable-holds C P (e ∷ es) v f (inl (k, p)) = f e k v.0 p
SomeUsable-holds C P (e ∷ es) v f (inr s) = SomeUsable-holds C P es v.1 f s

pub IsInside-SomeUsable :
    (addr needed : ℕ) (es : List MemmapEntry)
    → IsInside addr needed es
    → SomeUsable (λ e. e.base ≤ addr) es
IsInside-SomeUsable addr needed [] h = absurd h
IsInside-SomeUsable addr needed (e ∷ es) (inl (y, _, le, _)) = inl (==→eq _ _ y, le)
IsInside-SomeUsable addr needed (e ∷ es) (inr h) = inr (IsInside-SomeUsable addr needed es h)

-- The loop with what it has found before.
pub record Widened (x y : ℕ × ℕ) (es : List MemmapEntry) : Type 0 where
  pub down : y.0 ≤ x.0
  pub up : x.1 ≤ y.1
  pub above : All (λ e. e.kind ≡ 0 → y.0 ≤ e.base) es
  pub below : All (λ e. e.kind ≡ 0 → e.base + e.length ≤ y.1) es
  pub first : (y.0 ≡ x.0) ⊎ SomeUsable (λ e. e.base ≡ y.0) es
  pub last : (y.1 ≡ x.1) ⊎ SomeUsable (λ e. e.base + e.length ≡ y.1) es

abbrev widen : ℕ × ℕ → MemmapEntry → ℕ × ℕ
widen x e =
    (if ltb e.base x.0 then e.base else x.0, if ltb x.1 (region_end e) then region_end e else x.1)

widen_lem :
    (x : ℕ × ℕ) (e : MemmapEntry)
    → IsEntry e
    → (((widen x e).0 ≤ x.0) × ((widen x e).0 ≤ e.base))
      × ((x.1 ≤ (widen x e).1) × (e.base + e.length ≤ (widen x e).1))
      × (((widen x e).0 ≡ x.0) ⊎ (e.base ≡ (widen x e).0))
      × (((widen x e).1 ≡ x.1) ⊎ (e.base + e.length ≡ (widen x e).1))
widen_lem x e v =
    let small = v.small in
    let whole : region_end e ≡ e.base + e.length = omega arith in
    (
      ground arith,
      rw whole (ground arith),
      either-branch (λ n. (n ≡ x.0) ⊎ (e.base ≡ n)) (ltb e.base x.0) _ _ (inr refl) (inl refl),
      either-branch (λ n. (n ≡ x.1) ⊎ (e.base + e.length ≡ n)) (ltb x.1 (region_end e)) _ _
          (inr (sym whole)) (inl refl),
    )

==_of : (n : ℕ) → n ≡ 0 → (n == 0) ≡ true
==_of n e = rw e refl

extent-Widened : (es : List MemmapEntry) (x : ℕ × ℕ) → All IsEntry es → Widened x (extent x es) es
unfolding extent
extent-Widened [] x v = record {
  down = omega arith;
  up = omega arith;
  above = tt;
  below = tt;
  first = inl refl;
  last = inl refl;
}
extent-Widened (e ∷ es) x v = elim (ℕ_discrete e.kind 0) [
  | no other ↦
      let w = extent-Widened es x v.1 in
      rw (ne→== e.kind 0 other) (record {
        down = w.down;
        up = w.up;
        above = (λ k. absurd (other k), w.above);
        below = (λ k. absurd (other k), w.below);
        first = elim w.first [ inl s ↦ inl s | inr s ↦ inr (inr s) ];
        last = elim w.last [ inl s ↦ inl s | inr s ↦ inr (inr s) ];
      })
  | yes usable ↦
      let w = extent-Widened es (widen x e) v.1 in
      let ((l0, l1), (h0, h1), low, high) = widen_lem x e v.0 in
      let down = w.down in
      let up = w.up in
      let counts : is_usable_entry e ≡ true = ==_of e.kind usable in
      rw counts (record {
        down = omega arith;
        up = omega arith;
        above = (λ k. omega arith, w.above);
        below = (λ k. omega arith, w.below);
        first = elim w.first [
          | inr s ↦ inr (inr s)
          | inl s ↦ elim low [ inl q ↦ inl (s ∙ q) | inr q ↦ inr (inl (usable, q ∙ sym s)) ]
        ];
        last = elim w.last [
          | inr s ↦ inr (inr s)
          | inl s ↦ elim high [ inl q ↦ inl (s ∙ q) | inr q ↦ inr (inl (usable, q ∙ sym s)) ]
        ];
      })
]

-- Where there is usable memory, the loop finds the area, and it is one of whole pages.
extent-IsExtent :
    (es : List MemmapEntry)
    → All IsEntry es
    → SomeUsable (λ e. Unit {0}) es
    → IsExtent (extent (2 ^ 64 - 1, 0) es).0 (extent (2 ^ 64 - 1, 0) es).1 es
extent-IsExtent es v some_usable =
    let x = extent (2 ^ 64 - 1, 0) es in
    let w = extent-Widened es (2 ^ 64 - 1, 0) v in
    record {
      above = w.above;
      below = w.below;
      first = elim w.first [
        | inr s ↦ s
        | inl top ↦
            let one =
              SomeUsable-All (λ e. Unit {0}) (λ e. x.0 ≤ e.base) (λ e. x.0 ≤ e.base) es w.above v
                (λ e k i _ le. le) some_usable in
            SomeUsable-holds (SomeUsable (λ e. e.base ≡ x.0) es) (λ e. x.0 ≤ e.base) es v
              (λ e k i le. let small = i.small in absurd (omega arith)) one
      ];
      last = elim w.last [
        | inr s ↦ s
        | inl zero_high ↦
            SomeUsable-All (λ e. Unit {0}) (λ e. e.base + e.length ≤ x.1)
              (λ e. e.base + e.length ≡ x.1) es w.below v (λ e k i _ le. omega arith) some_usable
      ];
    }

pub whole_pages-IsExtent :
    (es : List MemmapEntry)
    → All IsEntry es
    → SomeUsable (λ e. Unit {0}) es
    → IsExtent (area_of es).0 (area_of es).1 es
whole_pages-IsExtent es v some_usable =
    let x = extent (2 ^ 64 - 1, 0) es in
    let found = extent-IsExtent es v some_usable in
    let low : x.0 % 4096 ≡ 0 =
      SomeUsable-holds (x.0 % 4096 ≡ 0) (λ e. e.base ≡ x.0) es v
        (λ e k i here. rw⁻¹ here (i.base (==_of e.kind k))) found.first in
    let high : x.1 % 4096 ≡ 0 =
      SomeUsable-holds (x.1 % 4096 ≡ 0) (λ e. e.base + e.length ≡ x.1) es v
        (λ e k i here.
          let b = i.base (==_of e.kind k) in
          let l = i.length (==_of e.kind k) in rw⁻¹ here (omega arith))
        found.last in
    rw (low, high) found

pub same_area :
    {a b c d : ℕ} {es : List MemmapEntry} → IsExtent a b es → a ≡ c → b ≡ d → IsExtent c d es
same_area {a} {b} {c} {d} {es} e p q =
    subst (λ x. IsExtent x d es) p (subst (λ x. IsExtent a x es) q e)

pub any_entry : (es : List MemmapEntry) → All (λ e. e.kind ≡ 0 → Unit {0}) es
any_entry [] = tt
any_entry (e ∷ es) = (λ _. tt, any_entry es)
