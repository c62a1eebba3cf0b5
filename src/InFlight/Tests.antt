-- ===== src/InFlight/Tests.antt =====
-- A run of two calls, and the theorems at it.
use ntex_mqtt.Base.{ℕ, ◌≤◌, ◌≡◌, refl, true, [], ◌∷◌, length, ◌⊎◌, arith}
use ntex_mqtt.InFlight.{
  wake, new, inc, dec, available, InFlightService, counted_size, call, finish, Reach, here, next,
}
use ntex_mqtt.InFlight.Limits.{dec_wakes, sum, older, Reach-limits, Reach-drained}

-- One call at a time, and 100 bytes.
abbrev start : InFlightService
start = record { count = new 1 100; guards = [] }

abbrev busy : InFlightService
busy = record {
  count = inc (new 1 100) (counted_size (new 1 100) 500);
  guards = counted_size (new 1 100) 500 ∷ [];
}

abbrev drained : InFlightService
drained = record { count = (dec busy.count 500).0; guards = [] }

to_busy : Reach start busy
unfolding new available
to_busy = next here (call start 500 (omega arith) refl)

to_drained : Reach start drained
unfolding new counted_size
to_drained = next to_busy (finish busy [] [] 500 refl)

dec_wakes_example : (dec busy.count 500).1 ≡ wake
unfolding new inc dec available counted_size
dec_wakes_example = dec_wakes busy.count 500 (omega arith) refl refl

Reach-limits_example :
    (busy.count.cur_cap ≡ 1)
    × (length busy.guards ≤ 1)
    × (busy.count.cur_size ≡ sum busy.guards)
    × (◌≡◌ {A = ℕ} 100 0 ⊎ (older busy.guards ≤ 100))
Reach-limits_example = Reach-limits 1 100 (omega arith) (omega arith) to_busy

Reach-drained_example : (available drained.count).0 ≡ true
Reach-drained_example = Reach-drained 1 100 (omega arith) (omega arith) to_drained refl
