-- ===== src/Beacon/Tests.antt =====
-- A node of the first radio that hears another.
use old_radio.Base.{ℕ, All, ◌+◌, ◌⊎◌, ◌<◌, ◌≤◌, ◌≡◌, refl, List, [], ◌∷◌, true, length, arith}
use old_radio.Base.Run.{ok}
use old_radio.Base.Int.{pos, negsuc, ◌+ℤ◌, ◌-ℤ◌, ◌*ℤ◌}
use old_radio.Loc.{Loc, Rand, loc_zero}
use old_radio.Beacon.{Neighbour, Heard, maxneighbours, beacon_recv, expire_loop}
use old_radio.Beacon.Recalc.{calc_energy, beacon_recalc}
use old_radio.Beacon.Descent.{fresh_energy, Descent, beacon_recalc-best}
use old_radio.Beacon.Own.{beacon_recv-own}

abbrev ourselves : Neighbour
ourselves = record { active = true; id = 4; stratum = 0; vloc = loc_zero; stamp = 0 }

abbrev heard_as : ℕ → ℕ → Heard
heard_as id stratum = record { id = id; stratum = stratum; vloc = loc_zero }

beacon_recv-own_example :
    (rest' : List Neighbour) × (beacon_recv 4 100
        (heard_as 9 0 ∷ heard_as 4 1 ∷ heard_as 6 1 ∷ [])
        (ourselves ∷ [])
      ≡ ok (ourselves ∷ rest'))
    × (length (ourselves ∷ rest') ≤ maxneighbours)
beacon_recv-own_example =
    beacon_recv-own 4 100 (heard_as 9 0) (heard_as 4 1 ∷ heard_as 6 1 ∷ []) ourselves [] refl refl
      (omega arith)

-- One neighbour has expired, the other is near.
abbrev expired : Neighbour
expired = record { active = true; id = 6; stratum = 2; vloc = loc_zero; stamp = 30 }

abbrev near : Neighbour
near = record {
  active = true;
  id = 9;
  stratum = 1;
  vloc = record { x = pos 5; y = negsuc 3; z = pos 0 };
  stamp = 90;
}

abbrev count_up : Rand
count_up s = (s, s + 1)

beacon_recalc-best_example :
    (vloc : Loc) × (found : Loc) × (next : ℕ) × (ws : List Loc) × (beacon_recalc
        (λ d e. e)
        count_up
        100
        (ourselves ∷ expired ∷ near ∷ [])
        0
      ≡ (record ourselves { vloc = vloc } ∷ expire_loop 100 (expired ∷ near ∷ []), next))
    × Descent count_up
        (fresh_energy (λ d e. e) 100 (expired ∷ near ∷ []))
        ws
        ourselves.vloc
        0
        found
        next
    × (length ws ≡ 100)
    × (fresh_energy (λ d e. e) 100 (expired ∷ near ∷ []) vloc
        ≤ fresh_energy (λ d e. e) 100 (expired ∷ near ∷ []) ourselves.vloc)
    × All
        (λ w.
          fresh_energy (λ d e. e) 100 (expired ∷ near ∷ []) vloc
          ≤ fresh_energy (λ d e. e) 100 (expired ∷ near ∷ []) w)
        ws
    × ((vloc ≡ ourselves.vloc)
        ⊎ ((vloc ≡ found)
            × (fresh_energy (λ d e. e) 100 (expired ∷ near ∷ []) found
                < fresh_energy (λ d e. e) 100 (expired ∷ near ∷ []) ourselves.vloc)))
beacon_recalc-best_example =
    beacon_recalc-best (λ d e. e) count_up 100 ourselves (expired ∷ near ∷ []) 0

calc_energy_test : calc_energy (λ d e. e) loc_zero (expire_loop 100 (expired ∷ near ∷ [])) 0 ≡ 41
unfolding calc_energy expire_loop ◌-ℤ◌ ◌+ℤ◌ ◌*ℤ◌ loc_zero
calc_energy_test = refl
