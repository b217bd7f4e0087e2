-- ===== src/Time/Subscribers/Periods.antt =====
-- Every running subscriber is called again and again.
use k_os.Prelude.{
  ℕ, zero, suc, ◌+◌, ◌-◌, ◌≤◌, ◌<◌, ◌≡◌, refl, sym, ap, subst, ◌∙◌, ◌⊎◌, inl, inr, true, false,
  List, [], ◌∷◌, map, arith, lt→leb, le→leb, either-branch, length, All,
}
use k_os.Time.Subscribers.{TimerSubscriber, Subscribers, next_count, is_due, advance, tick}
use k_os.Time.Subscribers.Rounds.{IsRunning, due_calls, All-advance, tick_run}

-- `x` is one of the list.
abbrev pub Has : {A : Type 0} → A → List A → Type 0
Has x [] = ⊥
Has x (y ∷ ys) = (x ≡ y) ⊎ Has x ys

-- The state after a number of ticks.
unfoldable pub after : ℕ → Subscribers → Subscribers
after zero s = s
after (suc n) s = after n (tick s).0

-- What the ticks rely on.
pub record IsRunningAll (s : Subscribers) : Type 0 where
  pub ready : s.initialized ≡ true
  pub running : All IsRunning s.list
  pub room : length s.list ≤ 64

length-map :
    (f : TimerSubscriber → TimerSubscriber) (xs : List TimerSubscriber)
    → length (map f xs) ≡ length xs
length-map f [] = refl
length-map f (x ∷ xs) = ap suc (length-map f xs)

tick-IsRunningAll : (s : Subscribers) → IsRunningAll s → IsRunningAll (tick s).0
tick-IsRunningAll s v = rw (tick_run s v.ready v.running v.room) (record {
  ready = v.ready;
  running = All-advance s.list v.running;
  room = omega (arith, length-map advance s.list, v.room);
})

Has-advance :
    (x : TimerSubscriber) (xs : List TimerSubscriber) → Has x xs → Has (advance x) (map advance xs)
Has-advance x [] h = h
Has-advance x (y ∷ ys) (inl e) = inl (ap advance e)
Has-advance x (y ∷ ys) (inr h) = inr (Has-advance x ys h)

Has-due :
    (x : TimerSubscriber) (xs : List TimerSubscriber)
    → Has x xs
    → is_due x ≡ true
    → Has (x.callback, x.user_data) (due_calls xs)
unfolding due_calls
Has-due x [] h due = absurd h
Has-due x (y ∷ ys) (inl e) due =
    let here : is_due y ≡ true = ap is_due (sym e) ∙ due in
    rw here (inl (ap (λ z. (z.callback, z.user_data)) e))
Has-due x (y ∷ ys) (inr h) due =
    either-branch (Has (x.callback, x.user_data)) (is_due y)
      ((y.callback, y.user_data) ∷ due_calls ys) (due_calls ys) (inr (Has-due x ys h due))
      (Has-due x ys h due)

called_after :
    (n : ℕ) (s : Subscribers) (x : TimerSubscriber)
    → IsRunningAll s
    → Has x s.list
    → IsRunning x
    → x.counter + n + 1 ≡ x.interval
    → IsRunningAll (after n s) × Has (x.callback, x.user_data) (tick (after n s)).1
unfolding after
called_after zero s x v h r e =
    let due : is_due x ≡ true = le→leb x.interval (next_count x) (omega (arith, r.small)) in
    (v, rw (tick_run s v.ready v.running v.room) (Has-due x s.list h due))
called_after (suc n) s x v h r e =
    let small = r.small in
    let wait : is_due x ≡ false = lt→leb x.interval (next_count x) (omega arith) in
    let count : (advance x).counter ≡ x.counter + 1 = simp wait (omega arith) in
    let moved : Has (advance x) (tick s).0.list =
      rw (tick_run s v.ready v.running v.room) (Has-advance x s.list h) in
    called_after n (tick s).0 (advance x) (tick-IsRunningAll s v) moved
      (record {
        is_active = r.is_active;
        has_callback = r.has_callback;
        below = omega (arith, count);
        small = small;
      })
      (omega (arith, count))

Has-All :
    (x : TimerSubscriber) (xs : List TimerSubscriber) → Has x xs → All IsRunning xs → IsRunning x
Has-All x [] h all = absurd h
Has-All x (y ∷ ys) (inl e) all = subst IsRunning (sym e) all.0
Has-All x (y ∷ ys) (inr h) all = Has-All x ys h all.1

-- Every one of at most 64 running subscribers is called within its interval: fewer ticks than the interval
-- come before the one that runs its callback, and all subscribers are still running then.
pub called_within :
    (s : Subscribers) (x : TimerSubscriber)
    → IsRunningAll s
    → Has x s.list
    → (n : ℕ) × (n < x.interval)
      × IsRunningAll (after n s)
      × Has (x.callback, x.user_data) (tick (after n s)).1
called_within s x v h =
    let r = Has-All x s.list h v.running in
    let n = x.interval - 1 - x.counter in
    let (still, called) = called_after n s x v h r (omega (arith, r.below)) in
    (n, omega (arith, r.below), still, called)
