-- ===== src/Time/Subscribers/Counts.antt =====
-- The count of subscribers, and taking off what was put on.
use k_os.Prelude.{
  ℕ, suc, ◌+◌, ◌-◌, ◌%◌, ◌^◌, ◌≡◌, refl, sym, ap, ◌∙◌, ◌≢◌, inl, inr, true, false, not, ◌||◌, List,
  [], ◌∷◌, ◌++◌, arith, ◌==◌, ne→==, ==_refl, true≢false, Bool-cases, either-branch, length,
  length-append,
}
use k_os.Time.Subscribers.{
  TimerSubscriber, Subscribers, Status, success, Callback, gather, reset, is_subscribed, subscribe,
  list_del, unsubscribe, tick_list, list_empty, tick,
}

-- GSubscriberCount is the length of the list, as far as 32 bits go.
abbrev pub IsCounted : Subscribers → Type 0
IsCounted s = s.count ≡ length s.list % 2 ^ 32

length-list_del :
    (xs : List TimerSubscriber) (p : ℕ)
    → is_subscribed xs p ≡ true
    → length (list_del xs p) + 1 ≡ length xs
unfolding is_subscribed list_del
length-list_del [] p h = absurd (ground arith)
length-list_del (x ∷ xs) p h = ground (arith, length-list_del xs p)

tick_list-count :
    (xs : List TimerSubscriber) (count : ℕ) (calls : List Callback) (n : ℕ)
    → count ≡ (n + length xs) % 2 ^ 32
    → (tick_list xs count calls).count ≡ (n + length (tick_list xs count calls).kept) % 2 ^ 32
unfolding tick_list
tick_list-count [] count calls n e = e
tick_list-count (x ∷ xs) count calls n e = elim (Bool-cases x.active) [
  | inl y ↦
      let ih = tick_list-count xs count (gather calls x) (suc n) (omega arith) in
      rw y (omega (arith, ih))
  | inr no_more ↦
      rw no_more (tick_list-count xs ((count + 2 ^ 32 - 1) % 2 ^ 32) calls n (omega arith))
]

-- TimerSubscribe, TimerUnsubscribe and TimerSubscriberTick, whatever they are given, keep the count equal to
-- the length of the list modulo 2^32.
pub IsCounted-kept :
    (s : Subscribers) (x : TimerSubscriber) (p : ℕ)
    → IsCounted s
    → IsCounted (subscribe s x).0 × IsCounted (unsubscribe s p).0 × IsCounted (tick s).0
unfolding subscribe unsubscribe tick
IsCounted-kept s x p v = (
  either-branch (λ (r : Subscribers × Status). IsCounted r.0) (x.ptr == 0 || x.callback == 0) _ _ v
      (either-branch (λ (r : Subscribers × Status). IsCounted r.0) (not s.initialized) _ _ v
        (either-branch (λ (r : Subscribers × Status). IsCounted r.0) (is_subscribed s.list x.ptr) _
          _ v (omega (arith, length-append s.list (reset x ∷ []))))),
  either-branch (λ (r : Subscribers × Status). IsCounted r.0) (p == 0) _ _ v
      (either-branch (λ (r : Subscribers × Status). IsCounted r.0) (not s.initialized) _ _ v
        (elim (Bool-cases (is_subscribed s.list p)) [
          | inl y ↦ rw y (omega (arith, length-list_del s.list p y))
          | inr n ↦ rw n v
        ])),
  either-branch (λ (r : Subscribers × List Callback). IsCounted r.0) (not s.initialized) _ _ v
      (either-branch (λ (r : Subscribers × List Callback). IsCounted r.0) (list_empty s.list) _ _ v
        (omega (arith, tick_list-count s.list s.count [] 0 (omega arith)))),
)

is_subscribed-last :
    (xs : List TimerSubscriber) (r : TimerSubscriber) → is_subscribed (xs ++ (r ∷ [])) r.ptr ≡ true
unfolding is_subscribed
is_subscribed-last [] r = rw (==_refl r.ptr) refl
is_subscribed-last (x ∷ xs) r = ground (arith, is_subscribed-last xs r)

list_del-last :
    (xs : List TimerSubscriber) (r : TimerSubscriber)
    → is_subscribed xs r.ptr ≡ false
    → list_del (xs ++ (r ∷ [])) r.ptr ≡ xs
unfolding is_subscribed list_del
list_del-last [] r h = rw (==_refl r.ptr) refl
list_del-last (x ∷ xs) r h = elim (Bool-cases (x.ptr == r.ptr)) [
  | inl y ↦ absurd (true≢false (sym (simp y refl) ∙ h))
  | inr n ↦ rw n (ap (◌∷◌ x) (list_del-last xs r (rw n at h)))
]

-- TimerUnsubscribe of an object that TimerSubscribe has just put on the list restores the list and the
-- count, and both report success.
pub unsubscribe-subscribe :
    (s : Subscribers) (x : TimerSubscriber)
    → IsCounted s
    → s.initialized ≡ true
    → x.ptr ≢ 0
    → x.callback ≢ 0
    → is_subscribed s.list x.ptr ≡ false
    → ((subscribe s x).1 ≡ success) × (unsubscribe (subscribe s x).0 x.ptr ≡ (s, success))
unfolding subscribe unsubscribe
unsubscribe-subscribe s x v ready np nc absent =
    let started : not s.initialized ≡ false = rw ready refl in
    let some_ptr = ne→== x.ptr 0 np in
    let some_callback = ne→== x.callback 0 nc in
    let back : ((s.count + 1) % 2 ^ 32 + 2 ^ 32 - 1) % 2 ^ 32 ≡ s.count = omega arith in
    (
      simp (some_ptr, some_callback, started, absent) refl,
      simp (some_ptr, some_callback, started, absent)
          (simp
            (
              some_ptr,
              started,
              is_subscribed-last s.list (reset x),
              list_del-last s.list (reset x) absent,
              back,
            )
            refl),
    )
