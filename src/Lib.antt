-- ===== src/Lib.antt =====
-- Two generations of a radio for mesh networks: packets that nodes exchange over a serial radio, or in
-- a simulator.
--
-- The parts of radio2/src, from the wire up:
--   Crc (radio2/src/crc.c): the 16-bit checksum that ends every packet;
--   Symbols (radio2/src/symbols.c and symbols.i): bytes to symbols of seven bits each, and back;
--   Packet (radio2/src/packet.c): packets in the C heap, shared by counting references;
--   Radio (radio2/src/radio.c): frames, on top of the three: radio_send seals and encodes a packet,
--     radio_wait and radio_recv find a frame on the line, decode it and check it;
--   Loc (radio2/src/loc.c): locations and their distances;
--   Neigh (radio2/src/neigh.c): the table of a node's neighbours, and the iterations over it;
--   Virtloc (radio2/src/virtloc.c): the search for a node's virtual location;
--   Node (radio2/src/node.c): the node: its states, beacons, routing, and the handlers of packets and
--     timers, in Node/Handlers;
--   Event (radio2/src/queue.c): the simulator's queue of events;
--   Topo (radio2/src/topo.c): the table of the links that the simulated network has;
--   Sim (radio2/src/sim.c): the simulator's medium and its test of routes;
--   Serial (radio2/src/serial.c): a node on a real radio, with its one timer;
--   Stats (radio2/src/topostats.c): the program that counts the beacons it hears.
-- The first radio, radio/serial:
--   Sender (radio/serial/queue.c): the send queue that threads share, with their steps in any order;
--   Checksum (radio/serial/crc.c): the checksum, which is that of radio2;
--   Codec (radio/serial/symbols.c): bytes to symbols of six or of seven bits, and back;
--   Sendrecv (radio/serial/sendrecv.c): frames on the port, with the codec as a parameter;
--   Beacon (radio/serial/beacon.c): the neighbours that a node hears, its own beacons, their bytes, and
--     the search for its location;
--   Programs (radio/serial/virtloc.c, tvirtloc.c, topofind.c, spy.c): the program that listens and says
--     beacons, in one loop, and as two threads with two mutexes; the one that says its identifier;
--     the ones that say a text (chatter.c, tchatter.c); the one that shows what is on the air; and the one
--     that matches packets (recv_packets.c).
-- Base holds what they share: the outcome of a call (Run: a value, a failed assert, an access out of
-- bounds or another undefined step), lists as arrays, machine words and their bits.
--
-- Each function of the code is a function of the same name. Buffers are lists of bytes; static buffers
-- are arguments. The port is a script: a list of what each `write`, or each `poll` with the time before
-- it, brings; a loop that waits for the port is a recursion on the script. The other loops are recursions
-- on the length that is left, or on fuel that the theorems show to be enough.
--
-- Fuel: _queue_heapify has one more than the events, queue_insert one more than the slot it starts at,
-- node_route_mfr two more than maxstrat, since each round lowers the strata allowed, and the search of
-- topo_insert the size of the table. The loop of topo_iter_next has its fuel as an argument.
--
-- rand() is a parameter, a function of its state; what the code computes with float and double is too
-- (Virtloc.Floats, and `jitter` in Node/Handlers). That `<=` orders the doubles and that a `float` step goes
-- no farther than it should are the named hypotheses IsOrder and IsStep. A packet comes to a node with its
-- length and the fields that its bytes hold. Calls of Node_callback are a handler's result.
--
-- Not modelled: opening and closing of devices, printing, the loop of main in radio2/src/sim.c, and
-- the programs of the first radio that only report.
pub mod Base
pub mod Crc
pub mod Symbols
pub mod Packet
pub mod Radio
pub mod Event
pub mod Loc
pub mod Neigh
pub mod Virtloc
pub mod Node
pub mod Topo
pub mod Sim
pub mod Sender
pub mod Serial
pub mod Sendrecv
pub mod Beacon
pub mod Checksum
pub mod Programs
pub mod Stats
pub mod Codec
