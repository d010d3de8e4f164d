-- ===== src/Stats/Tests.antt =====
-- Three packets, two of them from the same sender.
use old_radio.Base.{
  ℕ, ◌+◌, ◌≤◌, ◌≡◌, refl, List, [], ◌∷◌, All, length, get_or, replicate, arith, zero, suc, ◌<◌, ◌^◌,
  ◌==◌, if◌then◌else◌,
}
use old_radio.Base.Run.{ok, fault}
use old_radio.Packet.{Packet}
use old_radio.Stats.{maxid, count_beacon}
use old_radio.Stats.Counts.{
  IsSent, sender_of, count_all, sent_by, count_all-sent_by, count_beacon-negative,
}

abbrev packet_from : ℕ → ℕ → Packet
packet_from low high = record { size = 5; refcount = 1; bytes = low ∷ high ∷ 0 ∷ 0 ∷ 9 ∷ [] }

abbrev three : List Packet
three = packet_from 7 0 ∷ packet_from 3 1 ∷ packet_from 7 0 ∷ []

three-IsSent : All IsSent three
unfolding old_radio.Symbols.Digits.value
three-IsSent = (
  record { size = omega arith; id = omega arith },
  (
    record { size = omega arith; id = omega arith },
    (record { size = omega arith; id = omega arith }, tt),
  ),
)

abbrev zeros : List ℕ
zeros = replicate 256 0

zeros-zero : (n i : ℕ) → get_or {A = ℕ} (replicate n 0) i 0 ≡ 0
zeros-zero zero i = refl
zeros-zero (suc n) zero = refl
zeros-zero (suc n) (suc i) = zeros-zero n i

one_at_most : (a i : ℕ) → (if a == i then 1 else 0) ≤ 1
one_at_most a i = ground arith

three-fits : (i : ℕ) → i ≤ maxid → get_or zeros i 0 + sent_by i three < 2 ^ 31
unfolding sent_by
three-fits i small = omega (
  arith,
  zeros-zero 256 i,
  one_at_most (sender_of (packet_from 7 0)) i,
  one_at_most (sender_of (packet_from 3 1)) i,
)

count_all-sent_by_example :
    (out : List ℕ) × (count_all three zeros ≡ ok out)
    × (length out ≡ 256)
    × ((i : ℕ) → i ≤ maxid → get_or out i 0 ≡ get_or zeros i 0 + sent_by i three)
count_all-sent_by_example = count_all-sent_by zeros three refl three-IsSent three-fits

three_test : (sent_by 7 three ≡ 2) × (sent_by 3 three ≡ 0) × (sent_by 259 three ≡ 1)
unfolding sent_by old_radio.Symbols.Digits.value
three_test = (refl, refl, refl)

-- The id -2 writes in front of the counters.
negative_test :
    count_beacon (record { size = 4; refcount = 1; bytes = 254 ∷ 255 ∷ 255 ∷ 255 ∷ [] }) zeros
    ≡ fault
negative_test =
    count_beacon-negative _ zeros (omega arith)
      (unfold old_radio.Symbols.Digits.value in omega arith)
