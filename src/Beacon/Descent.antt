-- ===== src/Beacon/Descent.antt =====
-- radio/serial/beacon.c: beacon_recalc settles at the best of the locations that it tries.
use native.Mathlib.Nat.{le_refl, le_trans}
use old_radio.Base.{
  ℕ, zero, suc, ◌+◌, ◌≤◌, ◌<◌, ◌≡◌, ◌⊎◌, inl, inr, refl, ap, List, [], ◌∷◌, false, ◌&&◌, not, All,
  arith, ltb, leb, leb→le, ltb→lt, length, Bool-cases, if◌then◌else◌,
}
use old_radio.Loc.{Loc, Rand}
use old_radio.Beacon.{Neighbour, beacon_timeout, expire_loop}
use old_radio.Beacon.Recalc.{nudge, calc_energy, settle, beacon_recalc}

-- The neighbours that are active and whose time has not run out.
abbrev pub fresh : ℕ → List Neighbour → List Neighbour
fresh now [] = []
fresh now (n ∷ ns) =
    if n.active && not (ltb (n.stamp + beacon_timeout) now) then n ∷ fresh now ns else fresh now ns

-- A search from a location, with rand's state, by the candidates that it tries: each is near the location so
-- far, which it replaces unless its energy is higher.
pub data Descent (rand : Rand) (energy : Loc → ℕ) : List Loc → Loc → ℕ → Loc → ℕ → Type 0 where
  rests : {v : Loc} {seed : ℕ} → Descent rand energy [] v seed v seed
  accepts :
      {ws : List Loc} {v u : Loc} {seed last : ℕ}
      → energy (nudge rand v seed).0 ≤ energy v
      → Descent rand energy ws (nudge rand v seed).0 (nudge rand v seed).1 u last
      → Descent rand energy ((nudge rand v seed).0 ∷ ws) v seed u last
  refuses :
      {ws : List Loc} {v u : Loc} {seed last : ℕ}
      → energy v < energy (nudge rand v seed).0
      → Descent rand energy ws v (nudge rand v seed).1 u last
      → Descent rand energy ((nudge rand v seed).0 ∷ ws) v seed u last

-- The end of a search is no higher than its start and than all that it has tried.
Descent-least :
    {rand : Rand} {energy : Loc → ℕ} {ws : List Loc} {v u : Loc} {seed last : ℕ}
    → Descent rand energy ws v seed u last
    → (energy u ≤ energy v) × All (λ w. energy u ≤ energy w) ws
Descent-least rests = (le_refl _, tt)
Descent-least (accepts lower d) =
    let (below, all) = Descent-least d in (le_trans below lower, (below, all))
Descent-least (refuses higher d) = let (below, all) = Descent-least d in (below, (omega arith, all))

not_lower : (a b : ℕ) → ltb a b ≡ false → b ≤ a
not_lower a b h = ground arith

higher_test : (a b : ℕ) → leb a b ≡ false → b < a
higher_test a b h = ground arith

module _ (repel : ℕ → ℕ → ℕ) where
  -- Only the fresh neighbours have a part in the energy.
  calc_energy-fresh :
      (now : ℕ) (v : Loc) (ns : List Neighbour) (ener : ℕ)
      → calc_energy repel v (expire_loop now ns) ener ≡ calc_energy repel v (fresh now ns) ener
  unfolding calc_energy expire_loop
  calc_energy-fresh now v [] ener = refl
  calc_energy-fresh now v (n ∷ ns) ener = elim (Bool-cases (ltb (n.stamp + beacon_timeout) now)) [
    | inl out ↦ elim (Bool-cases n.active) [
      | inl on ↦ rw (out, on) (calc_energy-fresh now v ns _)
      | inr off ↦ rw (out, off) (calc_energy-fresh now v ns _)
    ]
    | inr in_time ↦ elim (Bool-cases n.active) [
      | inl on ↦ rw (in_time, on) (calc_energy-fresh now v ns _)
      | inr off ↦ rw (in_time, off) (calc_energy-fresh now v ns _)
    ]
  ]

  -- The energy that the fresh neighbours give a location.
  abbrev pub fresh_energy : ℕ → List Neighbour → Loc → ℕ
  fresh_energy now others v = calc_energy repel v (fresh now others) 0

  settle-Descent :
      (rand : Rand) (energy : Loc → ℕ) (ns : List Neighbour)
      → ((w : Loc) → calc_energy repel w ns 0 ≡ energy w)
      → (rounds : ℕ) (v : Loc) (seed : ℕ)
      → (ws : List Loc) × (length ws ≡ rounds)
        × Descent rand energy ws v seed
            (settle repel rand ns rounds v seed).0
            (settle repel rand ns rounds v seed).1
  unfolding settle
  settle-Descent rand energy ns same zero v seed = ([], refl, rests)
  settle-Descent rand energy ns same (suc rounds) v seed =
      let r = nudge rand v seed in
      elim (Bool-cases (leb (calc_energy repel r.0 ns 0) (calc_energy repel v ns 0))) [
        | inl better ↦
            let (ws, count, d) = settle-Descent rand energy ns same rounds r.0 r.1 in
            let lower : energy r.0 ≤ energy v =
              omega (arith, leb→le _ _ better, same r.0, same v) in
            (r.0 ∷ ws, ap suc count, rw (settle, better) (accepts lower d))
        | inr worse ↦
            let (ws, count, d) = settle-Descent rand energy ns same rounds v r.1 in
            let higher : energy v < energy r.0 =
              omega (arith, higher_test _ _ worse, same r.0, same v) in
            (r.0 ∷ ws, ap suc count, rw (settle, worse) (refuses higher d))
      ]

  All-at_most :
      (energy : Loc → ℕ) (a b : ℕ) (ws : List Loc)
      → a ≤ b
      → All (λ w. b ≤ energy w) ws
      → All (λ w. a ≤ energy w) ws
  All-at_most energy a b [] h all = tt
  All-at_most energy a b (w ∷ ws) h all = (le_trans h all.0, All-at_most energy a b ws h all.1)

  -- beacon_recalc expires neighbours as expire_loop does, and keeps the own entry but for its location. It
  -- tries 100 candidates, each found by rand() next to the location so far, which it replaces unless its
  -- energy among the neighbours that are active and have not expired is higher. The entry's location has at
  -- most the energy of the old one and of every candidate; it is the old one, or the end of the search, with a
  -- lower energy.
  pub beacon_recalc-best :
      (rand : Rand) (now : ℕ) (me : Neighbour) (others : List Neighbour) (seed : ℕ)
      → (vloc : Loc) × (found : Loc) × (next : ℕ) × (ws : List Loc) × (beacon_recalc repel rand now
            (me ∷ others)
            seed
          ≡ (record me { vloc = vloc } ∷ expire_loop now others, next))
        × Descent rand (fresh_energy now others) ws me.vloc seed found next
        × (length ws ≡ 100)
        × (fresh_energy now others vloc ≤ fresh_energy now others me.vloc)
        × All (λ w. fresh_energy now others vloc ≤ fresh_energy now others w) ws
        × ((vloc ≡ me.vloc)
            ⊎ ((vloc ≡ found) × (fresh_energy now others found < fresh_energy now others me.vloc)))
  unfolding beacon_recalc
  beacon_recalc-best rand now me others seed =
      let ns = expire_loop now others in
      let energy = fresh_energy now others in
      let same : (w : Loc) → calc_energy repel w ns 0 ≡ energy w =
        λ w. calc_energy-fresh now w others 0 in
      let r = settle repel rand ns 100 me.vloc seed in
      let (ws, count, d) = settle-Descent rand energy ns same 100 me.vloc seed in
      let (below, all) = Descent-least d in
      elim (Bool-cases (ltb (calc_energy repel r.0 ns 0) (calc_energy repel me.vloc ns 0))) [
        | inl lower ↦
            let less : energy r.0 < energy me.vloc =
              omega (arith, ltb→lt _ _ lower, same r.0, same me.vloc) in
            (r.0, r.0, r.1, ws, rw lower, d, count, below, all, inr (refl, less))
        | inr level ↦
            let best : energy me.vloc ≤ energy r.0 =
              omega (arith, not_lower _ _ level, same r.0, same me.vloc) in
            (
              me.vloc,
              r.0,
              r.1,
              ws,
              rw level,
              d,
              count,
              le_refl _,
              All-at_most energy (energy me.vloc) (energy r.0) ws best all,
              inl refl,
            )
      ]
