-- ===== src/Serial/Wakes.antt =====
-- radio2/src/serial.c: the one timer, and the two that a node asks for when it wakes.
use old_radio.Base.{ℕ, ◌+◌, ◌*◌, ◌≤◌, ◌<◌, ◌≡◌, true, false, ltb, arith, lt→ltb}
use old_radio.Base.Run.{ok, abort}
use old_radio.Loc.{Rand}
use old_radio.Neigh.{Neigh}
use old_radio.Node.{later, beacon_period}
use old_radio.Node.Handlers.{wake, node_set_status}
use old_radio.Event.{vtime_inf}
use old_radio.Serial.{Serial, serial_callback, serial_calls}

module _ (rand : Rand) (dims : ℕ) (jitter : ℕ → ℕ) (s : Serial) (vtime seed : ℕ) (sender : Neigh)
    (idle : s.timer_at ≡ vtime_inf) (early : vtime + 2 * beacon_period < vtime_inf)
    (short : jitter (rand seed).0 < 2 * beacon_period) where
  -- Of a sleeping node without a timer, which a beacon wakes, the calls abort the program when the random
  -- delay of the first timer is at most NODE_BEACON_PERIOD, since the second timer, a period later, then
  -- does not come before the first. Otherwise the timer is a period later.
  pub serial_calls-wake :
      (jitter (rand seed).0 ≤ beacon_period
        → serial_calls (wake rand dims jitter s.node vtime sender seed).calls s ≡ abort)
      × (beacon_period < jitter (rand seed).0
          → serial_calls (wake rand dims jitter s.node vtime sender seed).calls s
            ≡ ok (record s { timer_at = vtime + beacon_period }))
  unfolding serial_calls serial_callback wake node_set_status
  serial_calls-wake =
      let first : later vtime (jitter (rand seed).0) ≡ vtime + jitter (rand seed).0 = omega arith in
      let second : later vtime beacon_period ≡ vtime + beacon_period = omega arith in
      let fits : ltb (later vtime (jitter (rand seed).0)) s.timer_at ≡ true =
        lt→ltb _ _ (omega (arith, idle)) in
      (
        λ soon.
            let clash : ltb (later vtime beacon_period) (later vtime (jitter (rand seed).0))
                ≡ false =
              ground (arith, first, second) in
            rw (fits, clash),
        λ late.
            let room : ltb (later vtime beacon_period) (later vtime (jitter (rand seed).0)) ≡ true =
              lt→ltb _ _ (omega (arith, first, second)) in
            rw (fits, room, second),
      )
