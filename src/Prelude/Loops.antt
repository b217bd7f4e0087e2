-- ===== src/Prelude/Loops.antt =====
-- C's counted loop, `for (i = a; i < a + n; i++)`, whose body may break or return.
use Prim.Native.Nat.{ℕ, zero, suc, ◌+◌, ◌<◌}
use mathlib.Core.Path.{◌≡◌, subst}
use native.Mathlib.Omega.{arith}

-- What the body does at the end of a round.
pub data Flow {ℓ κ} (S : Type ℓ) (R : Type κ) : Type (ℓ ⊔ κ) where
  next : S → Flow S R
  break : S → Flow S R
  ret : R → Flow S R

-- How the loop ends: it falls through, or the function returns from inside.
pub data Outcome {ℓ κ} (S : Type ℓ) (R : Type κ) : Type (ℓ ⊔ κ) where
  fell : S → Outcome S R
  returned : R → Outcome S R

module _ {ℓ κ} {S : Type ℓ} {R : Type κ} where
  unfoldable pub for_loop : ℕ → ℕ → (ℕ → S → Flow S R) → S → Outcome S R
  for_loop zero i body s = fell s
  for_loop (suc n) i body s = elim (body i s) [
    | next s' ↦ for_loop n (suc i) body s'
    | break s' ↦ fell s'
    | ret r ↦ returned r
  ]

  -- A statement about each way to end a round, and about each way to end the loop.
  abbrev pub FlowPost {μ} : (S → Type μ) → (S → Type μ) → (R → Type μ) → Flow S R → Type μ
  FlowPost P Q T (next s) = P s
  FlowPost P Q T (break s) = Q s
  FlowPost P Q T (ret r) = T r

  abbrev pub Post {μ} : (S → Type μ) → (R → Type μ) → Outcome S R → Type μ
  Post Q T (fell s) = Q s
  Post Q T (returned r) = T r

  -- The invariant rule.
  pub for_loop_rule {μ} :
      (P : ℕ → S → Type μ) (Q : S → Type μ) (T : R → Type μ) (body : ℕ → S → Flow S R) (last : ℕ)
      → ((i : ℕ) (s : S) → i < last → P i s → FlowPost (P (suc i)) Q T (body i s))
      → ((s : S) → P last s → Q s)
      → (n i : ℕ) (s : S) → i + n ≡ last
      → P i s
      → Post Q T (for_loop n i body s)
  unfolding for_loop
  for_loop_rule P Q T body last keep end zero i s e p = end s (subst (λ k. P k s) (omega arith) p)
  for_loop_rule P Q T body last keep end (suc n) i s e p =
      go (body i s) (keep i s (omega arith) p)
        (λ s'. for_loop_rule P Q T body last keep end n (suc i) s' (omega arith))
    where
      go :
          (f : Flow S R)
          → FlowPost (P (suc i)) Q T f
          → ((s' : S) → P (suc i) s' → Post Q T (for_loop n (suc i) body s'))
          → Post Q T (elim f [
            | next s' ↦ for_loop n (suc i) body s'
            | break s' ↦ fell s'
            | ret r ↦ returned r
          ])
      go (next s') h rest = rest s' h
      go (break s') h rest = h
      go (ret r) h rest = h

  -- A weaker statement about each end of a round.
  pub FlowPost-mono {μ} :
      (P P' Q : S → Type μ) (T T' : R → Type μ) (f : Flow S R)
      → ((s : S) → P s → P' s)
      → ((r : R) → T r → T' r)
      → FlowPost P Q T f
      → FlowPost P' Q T' f
  FlowPost-mono P P' Q T T' (next s) p t h = p s h
  FlowPost-mono P P' Q T T' (break s) p t h = h
  FlowPost-mono P P' Q T T' (ret r) p t h = t r h

  -- A loop inside a loop: the outer one goes on, or the function has returned.
  abbrev pub resume : Outcome S R → Flow S R
  resume (fell s) = next s
  resume (returned r) = ret r

  pub resume-Post {μ} :
      (P Q : S → Type μ) (T : R → Type μ) (o : Outcome S R) → Post P T o → FlowPost P Q T (resume o)
  resume-Post P Q T (fell s) h = h
  resume-Post P Q T (returned r) h = h

  pub Post-mono {μ} :
      (Q Q' : S → Type μ) (T T' : R → Type μ) (o : Outcome S R)
      → ((s : S) → Q s → Q' s)
      → ((r : R) → T r → T' r)
      → Post Q T o
      → Post Q' T' o
  Post-mono Q Q' T T' (fell s) q t h = q s h
  Post-mono Q Q' T T' (returned r) q t h = t r h
