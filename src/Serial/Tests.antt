-- ===== src/Serial/Tests.antt =====
-- A sleeping node that hears a beacon.
use old_radio.Base.{ℕ, ◌+◌, ◌≤◌, ◌<◌, ◌≡◌, refl, [], arith}
use old_radio.Base.Run.{ok, abort}
use old_radio.Loc.{Rand, loc_zero}
use old_radio.Neigh.{Neigh}
use old_radio.Node.{asleep, beacon_period}
use old_radio.Node.Handlers.{wake}
use old_radio.Event.{vtime_inf}
use old_radio.Serial.{Serial, serial_calls}
use old_radio.Serial.Wakes.{serial_calls-wake}

abbrev sleeper : Serial
sleeper = record {
  node = record {
    id = 4;
    status = asleep;
    neigh_table = [];
    virtloc = loc_zero;
    flood_timeout = 0;
    wake_time = 0;
  };
  timer_at = vtime_inf;
  aired = [];
}

abbrev steady : Rand
steady seed = (seed, seed)

abbrev half_and : ℕ → ℕ
half_and r = 500000 + r

abbrev root_beacon : Neigh
root_beacon = record { id = 0; stratum = 0; loc = loc_zero }

serial_calls-wake_example :
    (half_and 7 ≤ beacon_period
      → serial_calls (wake steady 3 half_and sleeper.node 1000 root_beacon 7).calls sleeper ≡ abort)
    × (beacon_period < half_and 7
        → serial_calls (wake steady 3 half_and sleeper.node 1000 root_beacon 7).calls sleeper
          ≡ ok (record sleeper { timer_at = 1000 + beacon_period }))
serial_calls-wake_example =
    serial_calls-wake steady 3 half_and sleeper 1000 7 root_beacon refl (omega arith) (omega arith)
