-- ===== src/Time/Subscribers/Tests.antt =====
-- The network's subscriber, once every 100 ticks, beside one that is called at every tick.
use k_os.Prelude.{ℕ, ◌<◌, ◌≡◌, refl, inl, true, [], ◌∷◌, map, arith}
use k_os.Time.Subscribers.{TimerSubscriber, Subscribers, tick, tick_list, run_callbacks}
use k_os.Time.Subscribers.Rounds.{IsRunning, counted, completed_calls, tick_lem}
use k_os.Time.Subscribers.Periods.{Has, after, IsRunningAll, called_within}

abbrev net_tick : TimerSubscriber
net_tick = record {
  ptr = 0x100;
  callback = 0x9000;
  user_data = 0;
  interval = 100;
  counter = 98;
  active = true;
}

abbrev every_tick : TimerSubscriber
every_tick = record {
  ptr = 0x200;
  callback = 0x9100;
  user_data = 5;
  interval = 1;
  counter = 0;
  active = true;
}

abbrev two : Subscribers
two = record { list = net_tick ∷ every_tick ∷ []; count = 2; initialized = true }

first_tick : (tick two).1 ≡ (0x9100, 5) ∷ []
unfolding tick tick_list run_callbacks
first_tick = refl

second_tick : (tick (tick two).0).1 ≡ (0x9000, 0) ∷ (0x9100, 5) ∷ []
unfolding tick tick_list run_callbacks
second_tick = refl

net_tick-IsRunning : IsRunning net_tick
net_tick-IsRunning = record {
  is_active = refl;
  has_callback = λ e. omega arith;
  below = omega arith;
  small = omega arith;
}

every_tick-IsRunning : IsRunning every_tick
every_tick-IsRunning = record {
  is_active = refl;
  has_callback = λ e. omega arith;
  below = omega arith;
  small = omega arith;
}

two-IsRunningAll : IsRunningAll two
two-IsRunningAll = record {
  ready = refl;
  running = (net_tick-IsRunning, (every_tick-IsRunning, tt));
  room = omega arith;
}

tick_example : tick two ≡ (record two { list = map counted two.list }, completed_calls two.list)
tick_example = tick_lem two refl (net_tick-IsRunning, (every_tick-IsRunning, tt)) (omega arith)

called_within_example :
    (n : ℕ) × (n < 100) × IsRunningAll (after n two) × Has (0x9000, 0) (tick (after n two)).1
called_within_example = called_within two net_tick two-IsRunningAll (inl refl)

abbrev third : TimerSubscriber
third = record every_tick { ptr = 0x300; interval = 0 }
