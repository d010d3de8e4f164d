-- ===== src/Topo/Probe.antt =====
-- radio2/src/topo.c: the search of topo_insert ends, and changes one slot.
use old_radio.Base.{
  ℕ, zero, suc, ◌+◌, ◌-◌, ◌%◌, ◌<◌, ◌≡◌, ◌≢◌, refl, sym, ap, ◌∙◌, inl, inr, Bool, true, false, List,
  ltb, length, set, get_or, length-set, get_or-set_same, get_or-set_other, get_elem?-eq-get_or,
  arith, Bool-cases, ℕ_discrete,
}
use old_radio.Base.Run.{Run, ok, or_fault, load, assert, ◌>>=◌, ◌>>◌}
use old_radio.Topo.{
  topo_tablesize, topo_maxentries, TopoEntry, Topo, first_slot, is_free, same_link, probe,
  stored_at, topo_insert,
}

module _ (Prob : Type 0) (impossible : Prob) where
  abbrev pub entry_at : List (TopoEntry Prob impossible) → ℕ → TopoEntry Prob impossible
  entry_at table i = get_or table i (record { src = 0; dst = 0; prob = impossible })

  -- A slot that the search may end at.
  abbrev pub Fits : List (TopoEntry Prob impossible) → TopoEntry Prob impossible → ℕ → Bool → Type 0
  Fits table entry n true = same_link Prob impossible (entry_at table n) entry ≡ true
  Fits table entry n false = is_free Prob impossible (entry_at table n) ≡ true

  probe-Fits :
      (fuel : ℕ) (table : List (TopoEntry Prob impossible)) (entry : TopoEntry Prob impossible)
      (n d : ℕ)
      → length table ≡ topo_tablesize
      → n < topo_tablesize
      → is_free Prob impossible (entry_at table ((n + d) % topo_tablesize)) ≡ true
      → d < fuel
      → (k : ℕ) × (b : Bool) × (probe Prob impossible fuel table entry n ≡ ok (k, b))
        × (k < topo_tablesize)
        × Fits table entry k b
  unfolding probe
  probe-Fits zero table entry n d size inside free enough = absurd (omega arith)
  probe-Fits (suc fuel) table entry n d size inside free enough =
      let read : load table n ≡ ok (entry_at table n) =
        ap or_fault (get_elem?-eq-get_or table n _ (omega arith)) in
      elim (Bool-cases (is_free Prob impossible (entry_at table n))) [
        | inl here ↦ (n, false, rw (probe, read, here), inside, here)
        | inr taken ↦ elim (Bool-cases (same_link Prob impossible (entry_at table n) entry)) [
          | inl same ↦ (n, true, rw (probe, read, taken, same), inside, same)
          | inr other ↦ elim (ℕ_discrete d 0) [
            | yes none_left ↦
                let at_n : (n + d) % topo_tablesize ≡ n = omega arith in
                let bad : is_free Prob impossible (entry_at table n) ≡ true =
                  ap (λ (i : ℕ). is_free Prob impossible (entry_at table i)) (sym at_n) ∙ free in
                absurd (ground (arith, bad, taken))
            | no more ↦
                let same_slot : ((n + 1) % topo_tablesize + (d - 1)) % topo_tablesize
                    ≡ (n + d) % topo_tablesize =
                  omega arith in
                let (k, b, found, in_k, fits) =
                  probe-Fits fuel table entry ((n + 1) % topo_tablesize) (d - 1) size (omega arith)
                    (ap (λ (i : ℕ). is_free Prob impossible (entry_at table i)) same_slot ∙ free)
                    (omega arith) in
                (k, b, rw (probe, read, taken, other) found, in_k, fits)
          ]
        ]
      ]

  stored-table :
      (topo : Topo Prob impossible) (entry : TopoEntry Prob impossible) (k : ℕ) (b : Bool)
      → (stored_at Prob impossible topo entry (k, b)).table ≡ set topo.table k entry
  stored-table topo entry k true = refl
  stored-table topo entry k false = refl

  -- Below TOPO_MAXENTRIES, and as long as some slot is free, topo_insert returns: the entry stands in a
  -- slot that was free, or that held the same link, and all other slots are unchanged.
  pub topo_insert-Fits :
      (topo : Topo Prob impossible) (entry : TopoEntry Prob impossible) (j : ℕ)
      → length topo.table ≡ topo_tablesize
      → topo.entries < topo_maxentries
      → j < topo_tablesize
      → is_free Prob impossible (entry_at topo.table j) ≡ true
      → (k : ℕ) × (b : Bool) × (out : Topo Prob impossible) × (topo_insert Prob impossible topo
            entry
          ≡ ok out)
        × Fits topo.table entry k b
        × (entry_at out.table k ≡ entry)
        × ((i : ℕ) → k ≢ i → entry_at out.table i ≡ entry_at topo.table i)
        × (length out.table ≡ topo_tablesize)
  unfolding topo_insert
  topo_insert-Fits topo entry j size low in_j free =
      let first = first_slot Prob impossible entry.src in
      let d = (j + topo_tablesize - first) % topo_tablesize in
      let there : (first + d) % topo_tablesize ≡ j = omega arith in
      let test : ltb topo.entries topo_maxentries ≡ true = ground arith in
      let (k, b, found, in_k, fits) =
        probe-Fits topo_tablesize topo.table entry first d size (omega arith)
          (ap (λ (i : ℕ). is_free Prob impossible (entry_at topo.table i)) there ∙ free)
          (omega arith) in
      let stored = stored_at Prob impossible topo entry (k, b) in
      let written = stored-table topo entry k b in
      let search : Run (ℕ × Bool) → Run (Topo Prob impossible) =
        λ r. r >>= λ at. ok (stored_at Prob impossible topo entry at) in
      (
        k,
        b,
        stored,
        ap
              (λ (c : Bool).
                assert c >> search (probe Prob impossible topo_tablesize topo.table entry first))
              test
            ∙ ap search found,
        fits,
        ap (λ (t : List (TopoEntry Prob impossible)). entry_at t k) written
            ∙ get_or-set_same topo.table k entry _ (omega arith),
        λ i ne.
            ap (λ (t : List (TopoEntry Prob impossible)). entry_at t i) written
            ∙ get_or-set_other topo.table k i entry _ ne,
        ap length written ∙ length-set topo.table k entry ∙ size,
      )
