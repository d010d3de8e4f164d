-- ===== src/Packet/Tests.antt =====
-- The theorems on a heap with one packet, cloned and freed as in radio2/src/packet_test.c.
use mathlib.Core.Path.{subst}
use mathlib.Core.Option.{some-injective}
use old_radio.Base.{zero, suc, ◌≡◌, refl, arith, none, some, [], ◌∷◌}
use old_radio.Base.Run.{ok, abort, fault}
use old_radio.Packet.{Packet, Heap, cell, packet_new, packet_free}
use old_radio.Packet.Valid.{IsValid, IsLive, Elsewhere}
use old_radio.Packet.Count.{clone, free, calls, references, calls-references}

abbrev hello : Packet
hello = record { size = 3; refcount = 1; bytes = 72 ∷ 105 ∷ 33 ∷ [] }

abbrev one_packet : Heap
one_packet = some hello ∷ []

packet_new_test : packet_new 3 (72 ∷ 105 ∷ 33 ∷ []) [] ≡ ok (0, one_packet)
unfolding packet_new
packet_new_test = refl

packet_new-empty : packet_new 0 (72 ∷ []) [] ≡ abort
unfolding packet_new
packet_new-empty = refl

double_free : calls 0 (free ∷ free ∷ []) one_packet ≡ fault
unfolding calls packet_free
double_free = refl

hello-IsLive : IsLive hello
hello-IsLive = omega arith

one_packet-IsValid : IsValid one_packet
one_packet-IsValid zero k e = subst IsLive (some-injective _ _ e) hello-IsLive
one_packet-IsValid (suc p) k e = cc

calls-references_example :
    (h' : Heap) × (calls 0 (clone ∷ clone ∷ free ∷ free ∷ free ∷ []) one_packet ≡ ok h')
    × (cell h' 0 ≡ none)
    × Elsewhere 0 one_packet h'
    × IsValid h'
unfolding references
calls-references_example =
    calls-references (clone ∷ clone ∷ free ∷ free ∷ free ∷ []) 0 0 hello one_packet
      one_packet-IsValid refl refl
