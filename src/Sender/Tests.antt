-- ===== src/Sender/Tests.antt =====
-- Two packets are queued, and the first is on its way.
use old_radio.Base.{ℕ, ◌≡◌, refl, List, [], ◌∷◌, ◌++◌, Option, none, some, arith}
use old_radio.Base.Run.{ok}
use old_radio.Sender.{Link, queue_send_packet, sender_pop}
use old_radio.Sender.Chain.{Held, packets}
use old_radio.Sender.Fifo.{Holds}
use old_radio.Sender.Threads.{World, at_start, queued, popped, Reached, starts, steps, in_flight}
use old_radio.Sender.Refines.{
  Use, put, ask, take_out, nothing, number, packet, uses, uses_list, uses_refine,
}
use old_radio.Sender.Delivery.{Reached-order}

abbrev link_of : List ℕ → Option ℕ → Link
link_of bytes next = record { bytes = bytes; next = next }

abbrev one : World
one = record {
  queue = record { store = some (link_of (7 ∷ 8 ∷ []) none) ∷ []; head = some 0; tail = some 0 };
  busy = none;
  asked = (7 ∷ 8 ∷ []) ∷ [];
  sent = [];
}

abbrev two : World
two = record {
  queue = record {
    store = some (link_of (7 ∷ 8 ∷ []) (some 1)) ∷ some (link_of (9 ∷ []) none) ∷ [];
    head = some 0;
    tail = some 1;
  };
  busy = none;
  asked = (7 ∷ 8 ∷ []) ∷ (9 ∷ []) ∷ [];
  sent = [];
}

abbrev flying : World
flying = record {
  queue = record {
    store = some (link_of (7 ∷ 8 ∷ []) (some 1)) ∷ some (link_of (9 ∷ []) none) ∷ [];
    head = some 1;
    tail = some 1;
  };
  busy = some (0, link_of (7 ∷ 8 ∷ []) (some 1));
  asked = (7 ∷ 8 ∷ []) ∷ (9 ∷ []) ∷ [];
  sent = [];
}

flying-Reached : Reached flying
unfolding queue_send_packet sender_pop
flying-Reached =
    steps two flying
      (steps one two (steps at_start one starts (queued (7 ∷ 8 ∷ []) 2 one.queue refl))
        (queued (9 ∷ 5 ∷ []) 1 two.queue refl))
      (popped 0 (link_of (7 ∷ 8 ∷ []) (some 1)) flying.queue refl refl refl)

Reached-order_example :
    (waiting : List Held) × Holds flying.queue waiting
    × (flying.asked ≡ flying.sent ++ (in_flight flying.busy ++ packets waiting))
Reached-order_example = Reached-order flying flying-Reached

abbrev some_uses : List Use
some_uses =
    put (7 ∷ 8 ∷ []) 2 ∷ put (9 ∷ 5 ∷ []) 1 ∷ ask ∷ take_out ∷ take_out ∷ take_out ∷ ask ∷ []

uses_refine_example :
    uses some_uses (record { store = []; head = none; tail = none }) ≡ ok (uses_list some_uses [])
uses_refine_example = uses_refine some_uses (omega arith)

uses_test :
    uses_list some_uses []
    ≡ nothing
      ∷ nothing
      ∷ number 2
      ∷ packet (some (7 ∷ 8 ∷ []))
      ∷ packet (some (9 ∷ []))
      ∷ packet none
      ∷ number 0
      ∷ []
unfolding uses_list
uses_test = refl
