-- ===== src/Time/Subscribers.antt =====
-- Kernel/Source/Time/TimerSubscriber.c: callbacks that are run every so many timer ticks.
--
-- A subscriber is the object with its address, `ptr`; the list of nodes is the list of the subscribers in
-- link order. The lock makes one call a step. TimerSubscriberTick gathers the callbacks under the lock and
-- runs them after it: what it gathers is its result, in order, and a callback's own calls of this file
-- are further steps. RETURN also stores the code in LastCode, which is left out.
pub mod Rounds
pub mod Counts
pub mod Periods
mod Tests
use k_os.Prelude.{
  ℕ, ◌+◌, ◌-◌, ◌%◌, ◌^◌, Bool, true, false, not, ◌||◌, List, [], ◌∷◌, ◌++◌, ltb, leb, ◌==◌,
  if◌then◌else◌, length,
}

pub record TimerSubscriber : Type 0 where
  pub ptr : ℕ
  pub callback : ℕ
  pub user_data : ℕ
  pub interval : ℕ
  pub counter : ℕ
  pub active : Bool

pub record Subscribers : Type 0 where
  pub list : List TimerSubscriber
  pub count : ℕ
  pub initialized : Bool

pub data Status : Type 0 where
  success no_object already_exists not_found : Status

unfoldable pub subscriber_init : Subscribers → Subscribers
subscriber_init s = if s.initialized then s else record { list = []; count = 0; initialized = true }

unfoldable pub is_subscribed : List TimerSubscriber → ℕ → Bool
is_subscribed [] p = false
is_subscribed (x ∷ xs) p = let rest = is_subscribed xs p in if x.ptr == p then true else rest

-- What TimerSubscribe writes to the object.
abbrev pub reset : TimerSubscriber → TimerSubscriber
reset x = record x {
  counter = 0;
  active = true;
  interval = if x.interval == 0 then 1 else x.interval;
}

unfoldable pub subscribe : Subscribers → TimerSubscriber → Subscribers × Status
subscribe s x =
    if x.ptr == 0 || x.callback == 0
    then (s, no_object)
    else if not s.initialized
    then (s, no_object)
    else if is_subscribed s.list x.ptr
    then (s, already_exists)
    else (record s { list = s.list ++ (reset x ∷ []); count = (s.count + 1) % 2 ^ 32 }, success)

-- ListDel of the node with the address.
unfoldable pub list_del : List TimerSubscriber → ℕ → List TimerSubscriber
list_del [] p = []
list_del (x ∷ xs) p = let rest = list_del xs p in if x.ptr == p then xs else x ∷ rest

-- The object itself, which is off the list then, is marked as not active.
unfoldable pub unsubscribe : Subscribers → ℕ → Subscribers × Status
unsubscribe s p =
    if p == 0
    then (s, no_object)
    else if not s.initialized
    then (s, no_object)
    else if is_subscribed s.list p
    then (record s { list = list_del s.list p; count = (s.count + 2 ^ 32 - 1) % 2 ^ 32 }, success)
    else (s, not_found)

-- A callback and its argument.
abbrev pub Callback : Type 0
Callback = ℕ × ℕ

abbrev pub tsr_max : ℕ
tsr_max = 64

abbrev pub next_count : TimerSubscriber → ℕ
next_count x = (x.counter + 1) % 2 ^ 32

abbrev pub is_due : TimerSubscriber → Bool
is_due x = leb x.interval (next_count x)

abbrev pub advance : TimerSubscriber → TimerSubscriber
advance x = record x { counter = if is_due x then 0 else next_count x }

abbrev pub gather : List Callback → TimerSubscriber → List Callback
gather calls x =
    if is_due x
    then (if ltb (length calls) tsr_max then calls ++ ((x.callback, x.user_data) ∷ []) else calls)
    else calls

-- What the loop of TimerSubscriberTick leaves: the list, the count, the callbacks.
pub record Round : Type 0 where
  pub kept : List TimerSubscriber
  pub count : ℕ
  pub calls : List Callback

unfoldable pub tick_list : List TimerSubscriber → ℕ → List Callback → Round
tick_list [] count calls = record { kept = []; count = count; calls = calls }
tick_list (x ∷ xs) count calls = elim x.active [
  | false ↦ tick_list xs ((count + 2 ^ 32 - 1) % 2 ^ 32) calls
  | true ↦
      let rest = tick_list xs count (gather calls x) in record rest { kept = advance x ∷ rest.kept }
]

-- The last loop: the callbacks that are not NULLPTR are run.
unfoldable pub run_callbacks : List Callback → List Callback
run_callbacks [] = []
run_callbacks (c ∷ cs) = let rest = run_callbacks cs in if not (c.0 == 0) then c ∷ rest else rest

abbrev pub list_empty : List TimerSubscriber → Bool
list_empty [] = true
list_empty (_ ∷ _) = false

unfoldable pub tick : Subscribers → Subscribers × List Callback
tick s =
    let round = tick_list s.list s.count [] in
    if not s.initialized
    then (s, [])
    else if list_empty s.list
    then (s, [])
    else (record s { list = round.kept; count = round.count }, run_callbacks round.calls)

unfoldable pub get_count : Subscribers → ℕ
get_count s = s.count
