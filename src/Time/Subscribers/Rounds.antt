-- ===== src/Time/Subscribers/Rounds.antt =====
-- One tick, where the subscribers are active and fit the local array.
use k_os.Prelude.{
  ℕ, ◌+◌, ◌%◌, ◌^◌, ◌≤◌, ◌<◌, ◌≡◌, refl, ◌∙◌, ◌≢◌, inl, inr, true, false, not, List, [], ◌∷◌, ◌++◌,
  map, arith, leb, if◌then◌else◌, lt→ltb, ne→==, Bool-cases, length, length-append, All,
}
use mathlib.Core.List.{append_assoc, append-nil}
use k_os.Time.Subscribers.{
  TimerSubscriber, Subscribers, Callback, is_due, advance, tick_list, run_callbacks, tick,
}

-- The subscriber is active, has a callback, and its counter is below its interval.
pub record IsRunning (x : TimerSubscriber) : Type 0 where
  pub is_active : x.active ≡ true
  pub has_callback : x.callback ≢ 0
  pub below : x.counter < x.interval
  pub small : x.interval < 2 ^ 32

-- The callbacks of the subscribers that are due, in order.
unfoldable pub due_calls : List TimerSubscriber → List Callback
due_calls [] = []
due_calls (x ∷ xs) =
    let rest = due_calls xs in if is_due x then (x.callback, x.user_data) ∷ rest else rest

pub All-advance : (xs : List TimerSubscriber) → All IsRunning xs → All IsRunning (map advance xs)
All-advance [] h = tt
All-advance (x ∷ xs) h = (
  record {
    is_active = h.0.is_active;
    has_callback = h.0.has_callback;
    below = let v = h.0 in ground (arith, v.below, v.small);
    small = h.0.small;
  },
  All-advance xs h.1,
)

tick_list_lem :
    (xs : List TimerSubscriber) (count : ℕ) (calls : List Callback)
    → All IsRunning xs
    → length calls + length xs ≤ 64
    → tick_list xs count calls
      ≡ (record { kept = map advance xs; count = count; calls = calls ++ due_calls xs })
unfolding tick_list due_calls
tick_list_lem [] count calls h room = rw append-nil refl
tick_list_lem (x ∷ xs) count calls h room =
    let v = h.0 in
    elim (Bool-cases (is_due x)) [
      | inl y ↦
          let fits = lt→ltb (length calls) 64 (omega arith) in
          let grown = length-append calls ((x.callback, x.user_data) ∷ []) in
          let ih =
            tick_list_lem xs count (calls ++ ((x.callback, x.user_data) ∷ [])) h.1
              (omega (arith, grown)) in
          simp (v.is_active, y, fits, ih, append_assoc) refl
      | inr n ↦
          let ih = tick_list_lem xs count calls h.1 (omega arith) in simp (v.is_active, n, ih) refl
    ]

run_callbacks-due :
    (xs : List TimerSubscriber) → All IsRunning xs → run_callbacks (due_calls xs) ≡ due_calls xs
unfolding run_callbacks due_calls
run_callbacks-due [] h = refl
run_callbacks-due (x ∷ xs) h =
    let v = h.0 in
    let ih = run_callbacks-due xs h.1 in
    elim (Bool-cases (is_due x)) [
      | inl y ↦ simp (y, ne→== x.callback 0 v.has_callback, ih) refl
      | inr n ↦ simp (n, ih) refl
    ]

pub tick_run :
    (s : Subscribers)
    → s.initialized ≡ true
    → All IsRunning s.list
    → length s.list ≤ 64
    → tick s ≡ (record s { list = map advance s.list }, due_calls s.list)
unfolding tick due_calls
tick_run s ready running room = go s.list running room
  where
    started : not s.initialized ≡ false
    started = rw ready refl

    go :
        (xs : List TimerSubscriber)
        → All IsRunning xs
        → length xs ≤ 64
        → tick (record s { list = xs }) ≡ (record s { list = map advance xs }, due_calls xs)
    go [] h le = rw started refl
    go (x ∷ xs) h le =
        simp
          (started, tick_list_lem (x ∷ xs) s.count [] h (omega arith), run_callbacks-due (x ∷ xs) h)
          refl

-- The counter counts the tick, or starts again where that completes the interval; nothing else of the
-- subscriber changes.
abbrev pub counted : TimerSubscriber → TimerSubscriber
counted x = record x { counter = if leb x.interval (x.counter + 1) then 0 else x.counter + 1 }

-- The callbacks of those whose interval the tick completes, in order.
abbrev pub completed_calls : List TimerSubscriber → List Callback
completed_calls [] = []
completed_calls (x ∷ xs) =
    let rest = completed_calls xs in
    if leb x.interval (x.counter + 1) then (x.callback, x.user_data) ∷ rest else rest

counts_on : (x : TimerSubscriber) → IsRunning x → (x.counter + 1) % 2 ^ 32 ≡ x.counter + 1
counts_on x v = let lt = v.below in let small = v.small in omega arith

map-counted : (xs : List TimerSubscriber) → All IsRunning xs → map advance xs ≡ map counted xs
map-counted [] h = refl
map-counted (x ∷ xs) h = rw (counts_on x h.0, map-counted xs h.1) refl

due-completed : (xs : List TimerSubscriber) → All IsRunning xs → due_calls xs ≡ completed_calls xs
unfolding due_calls
due-completed [] h = refl
due-completed (x ∷ xs) h = rw (counts_on x h.0, due-completed xs h.1) refl

-- TimerSubscriberTick of at most 64 subscribers that are active, have a callback and a counter below their
-- interval, once the list is initialized: it runs the callbacks of those whose interval is over with this
-- tick, once each and in the order of the list; their counters are 0 then, the others' one higher; nothing
-- else of a subscriber changes, and none is taken off the list.
pub tick_lem :
    (s : Subscribers)
    → s.initialized ≡ true
    → All IsRunning s.list
    → length s.list ≤ 64
    → tick s ≡ (record s { list = map counted s.list }, completed_calls s.list)
tick_lem s ready running room =
    tick_run s ready running room
    ∙ rw (map-counted s.list running, due-completed s.list running) refl
