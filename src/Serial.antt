-- ===== src/Serial.antt =====
-- radio2/src/serial.c: a node on a real radio. Its callback has one timer, and sends packets at once; what
-- it sent is `aired`. How the fields of a packet lie in its bytes is a parameter of main's loop. A script
-- has for each round of a loop what the port does, and what the clock says, in it and behind it.
pub mod Wakes
mod Tests
use old_radio.Base.{
  ℕ, List, [], ◌∷◌, ◌++◌, Option, none, some, Bool, true, false, ltb, leb, ◌==◌, ◌&&◌,
  if◌then◌else◌,
}
use old_radio.Base.Run.{Run, ok, abort, ◌>>=◌, ◌>>◌, assert}
use old_radio.Loc.{Rand}
use old_radio.Virtloc.{Floats}
use old_radio.Node.{Node, Message, PacketData, Call, timer, send, Out}
use old_radio.Node.Handlers.{node_receive, node_timer}
use old_radio.Packet.{Packet, Heap, deref, packet_free}
use old_radio.Radio.{Round, radio_wait, radio_recv}
use old_radio.Event.{vtime_inf}

-- The globals Node and Timer.
pub record Serial : Type 0 where
  pub node : Node
  pub timer_at : ℕ
  pub aired : List Message

unfoldable pub serial_callback : Call → Serial → Run Serial
serial_callback (send vtime message) s = ok (record s { aired = s.aired ++ message ∷ [] })
serial_callback (timer vtime) s =
    assert (ltb vtime s.timer_at) >> ok (record s { timer_at = vtime })

-- The calls of a handler, in order.
unfoldable pub serial_calls : List Call → Serial → Run Serial
unfolding serial_callback
serial_calls [] s = ok s
serial_calls (c ∷ calls) s = serial_callback c s >>= serial_calls calls

-- Timer before main's loop: the node with id 0 starts at once.
unfoldable pub first_timer : Node → ℕ → ℕ
first_timer node vtime = if node.id == 0 then vtime else vtime_inf

-- A round in which main listens: the clock when a packet has come, and behind the round.
pub record Turn : Type 0 where
  pub waits : List Round
  pub receives : List Round
  pub now : ℕ
  pub after : ℕ

-- The variables of main, with the line, the heap, and rand's state.
pub record Live : Type 0 where
  pub serial : Serial
  pub vtime : ℕ
  pub line : List ℕ
  pub packets : Heap
  pub seed : ℕ

module _ (rand : Rand) (dims : ℕ) (jitter : ℕ → ℕ) where
  -- A packet that radio_recv returned, with rand's state.
  unfoldable pub serial_receive : ℕ → Message → PacketData → ℕ → Serial → Run (Serial × ℕ)
  unfolding serial_calls
  serial_receive vtime message reply seed s =
      node_receive rand dims jitter s.node vtime message reply seed >>= λ o.
      serial_calls o.calls (record s { node = o.node }) >>= λ after. ok (after, o.seed)

  -- The timer: Timer is set to VTIME_INF before node_timer runs.
  unfoldable pub serial_timer : Floats → ℕ → ℕ → Serial → Run (Serial × ℕ)
  unfolding serial_calls
  serial_timer floats vtime seed s =
      let o = node_timer rand dims jitter floats s.node vtime seed in
      serial_calls o.calls (record { node = o.node; timer_at = vtime_inf; aired = s.aired })
      >>= λ after. ok (after, o.seed)

  module _ (read : Packet → Message × PacketData) (packet_buffer : List ℕ) (eschaton : ℕ) where
    -- What radio_recv returned: a packet, or NULL.
    unfoldable pub serial_packet : ℕ → Option ℕ → Live → Run Live
    unfolding serial_receive
    serial_packet now none live = ok live
    serial_packet now (some p) live = do
      packet ← deref live.packets p
      let (message, reply) = read packet
      (after, seed) ← serial_receive now message reply live.seed live.serial
      packets ← packet_free p live.packets
      ok (record live { serial = after; packets = packets; seed = seed })

    unfoldable pub serial_turn : ℕ → Turn → Live → Run Live
    unfolding serial_packet
    serial_turn timeout t live = radio_wait timeout t.waits live.line >>= λ (found, line).
        let received : Run Live =
          radio_recv packet_buffer timeout t.receives line live.packets >>= λ (p, packets, left).
          serial_packet t.now p (record live { line = left; packets = packets }) in
        if found then received else ok (record live { line = line })

    -- The loop that listens until the timer runs out, up to the end of the script.
    unfoldable pub serial_listen : List Turn → Live → Run Live
    unfolding serial_turn
    serial_listen [] live = ok live
    serial_listen (t ∷ turns) live =
        let at = live.serial.timer_at in
        let timeout = if ltb at eschaton then at else eschaton in
        let round = serial_turn timeout t live >>= λ heard.
        serial_listen turns (record heard { vtime = t.after }) in
        if ltb live.vtime at && ltb live.vtime eschaton then round else ok live

    -- main's loop, with the rounds of listening and the clock behind each of its own.
    unfoldable pub serial_loop : Floats → List (List Turn × ℕ) → Live → Run Live
    unfolding serial_listen serial_timer
    serial_loop floats [] live = ok live
    serial_loop floats ((turns, after) ∷ rounds) live =
        let round : Run Live = do
          heard ← serial_listen turns live
          let fired : Run (Serial × ℕ) = serial_timer floats heard.vtime heard.seed heard.serial
          let kept : Run (Serial × ℕ) = ok (heard.serial, heard.seed)
          (serial, seed) ← if leb heard.serial.timer_at heard.vtime then fired else kept
          serial_loop floats rounds (record heard { serial = serial; seed = seed; vtime = after })
        in if ltb live.vtime eschaton then round else ok live
