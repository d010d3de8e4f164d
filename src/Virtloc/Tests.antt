-- ===== src/Virtloc/Tests.antt =====
-- The search with energies that are natural numbers.
use old_radio.Base.{ℕ, ◌+◌, ◌*◌, ◌/◌, ◌%◌, ◌≡◌, ◌≤◌, ◌<◌, true, false, [], ◌∷◌, leb, ◌==◌, arith}
use old_radio.Base.Int.{pos}
use old_radio.Loc.{Loc, Rand, loc_dist2}
use old_radio.Neigh.{NeighTable}
use old_radio.Virtloc.{Floats, energy, virtloc_recalc}
use old_radio.Virtloc.Moves.{IsStep, stepped, moved-none, moved_squares}
use old_radio.Virtloc.Search.{IsOrder, virtloc_recalc-at_most}

abbrev whole : Floats
whole = record {
  Double = ℕ;
  nought = 0;
  add = λ a b. a + b;
  attract = λ d. d;
  repel = λ d. 8000000 / (d + 1);
  is_zero = λ a. a == 0;
  at_most = leb;
  step = λ limit2 dist2 a d. a;
}

whole-IsOrder : IsOrder whole
whole-IsOrder = record { reflexive = λ a. ground arith; transitive = λ a b c h k. ground arith }

-- A step that stays where it is moves no coordinate too far.
whole-IsStep : IsStep whole
whole-IsStep = record {
  short = λ limit2 dist2 a d small_a small_d far. rw (moved-none a) (omega arith);
}

abbrev die : Rand
die seed = (seed, (seed * 5 + 3) % 16)

abbrev here : Loc
here = record { x = pos 3; y = pos 0; z = pos 0 }

abbrev there : NeighTable
there =
    record {
      neigh = record { id = 1; stratum = 1; loc = record { x = pos 0; y = pos 4; z = pos 0 } };
      expiry = 100;
    }
    ∷ []

virtloc_recalc-at_most_example :
    (whole.is_zero (energy whole here there) ≡ true
      → virtloc_recalc whole die 3 here there 1 ≡ (here, 1))
    × (whole.is_zero (energy whole here there) ≡ false
        → (target : Loc) × (next : ℕ) × (whole.at_most
              (energy whole target there)
              (energy whole here there)
            ≡ true)
          × (loc_dist2 here target ≤ 10000
              → virtloc_recalc whole die 3 here there 1 ≡ (target, next))
          × (10000 < loc_dist2 here target
              → virtloc_recalc whole die 3 here there 1 ≡ (stepped whole here target, next)))
    × (moved_squares here (virtloc_recalc whole die 3 here there 1).0 ≤ 10000)
virtloc_recalc-at_most_example =
    virtloc_recalc-at_most whole whole-IsOrder die 3 there here 1 whole-IsStep
      (record { x = omega arith; y = omega arith; z = omega arith })
