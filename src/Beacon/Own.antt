-- ===== src/Beacon/Own.antt =====
-- radio/serial/beacon.c: a packet leaves the node's own entry alone.
use mathlib.Core.Option.{some-injective}
use old_radio.Base.{
  ℕ, suc, ◌+◌, ◌≤◌, ◌<◌, ◌≡◌, ◌≢◌, refl, sym, ap, ◌∙◌, inl, inr, List, [], ◌∷◌, ◌++◌, none, some,
  true, false, ltb, leb, ◌==◌, if◌then◌else◌, length, length-append, arith, Bool-cases,
  Option-cases, ℕ_discrete, not, ◌||◌,
}
use old_radio.Base.Run.{ok}
use old_radio.Beacon.{
  Neighbour, Heard, maxneighbours, entry_for, behind_first, merge_known, merged_or, merge_loop,
  beacon_recv, lists_us, strat_inf, one_further,
}

length-merge_known :
    (stamp : ℕ) (b : Heard) (ns out : List Neighbour)
    → merge_known stamp b ns ≡ some out
    → length out ≡ length ns
unfolding merge_known
length-merge_known stamp b [] out e = ground (arith, e)
length-merge_known stamp b (n ∷ ns) out e = elim (ℕ_discrete n.id b.id) [
  | yes same ↦
      let test : (n.id == b.id) ≡ true = ground arith in
      let hit : some (
            (if not n.active || leb (one_further b.stratum) n.stratum then entry_for stamp b else n)
            ∷ ns)
          ≡ some out =
        rw test at e in
      sym (ap length (some-injective _ _ hit))
  | no other ↦
      let test : (n.id == b.id) ≡ false = ground arith in
      let miss : behind_first n (merge_known stamp b ns) ≡ some out = rw test at e in
      elim (Option-cases (merge_known stamp b ns)) [
        | inl gone ↦
            let bad : none ≡ some out = sym (ap (behind_first n) gone) ∙ miss in ground (arith, bad)
        | inr (rest, found) ↦
            let whole : some (n ∷ rest) ≡ some out = sym (ap (behind_first n) found) ∙ miss in
            sym (ap length (some-injective _ _ whole))
            ∙ ap suc (length-merge_known stamp b ns rest found)
      ]
]

-- One beacon of another node.
merge-own :
    (stamp : ℕ) (b : Heard) (own : Neighbour) (rest : List Neighbour)
    → own.id ≢ b.id
    → length (own ∷ rest) < maxneighbours
    → (rest' : List Neighbour) × (merged_or stamp b (own ∷ rest) (merge_known stamp b (own ∷ rest))
        ≡ ok (own ∷ rest'))
      × (length rest' ≤ suc (length rest))
unfolding merge_known
merge-own stamp b own rest ne room =
    let test : (own.id == b.id) ≡ false = ground arith in
    let space : ltb (length (own ∷ rest)) maxneighbours ≡ true = ground arith in
    elim (Option-cases (merge_known stamp b rest)) [
      | inl gone ↦ (
        rest ++ entry_for stamp b ∷ [],
        rw (test, gone, space),
        omega (arith, length-append rest (entry_for stamp b ∷ [])),
      )
      | inr (known, found) ↦
          (known, rw (test, found), omega (arith, length-merge_known stamp b rest known found))
    ]

merge_loop-own :
    (identifier stamp : ℕ) (bs : List Heard) (own : Neighbour) (rest : List Neighbour)
    → own.id ≡ identifier
    → length (own ∷ rest) + length bs ≤ maxneighbours
    → (rest' : List Neighbour) × (merge_loop identifier stamp bs (own ∷ rest) ≡ ok (own ∷ rest'))
      × (length rest' ≤ length rest + length bs)
unfolding merge_loop
merge_loop-own identifier stamp [] own rest is_own room = (rest, refl, omega arith)
merge_loop-own identifier stamp (b ∷ bs) own rest is_own room =
    elim (Bool-cases (b.id == identifier)) [
      | inl ours ↦
          let (rest', merged, size) =
            merge_loop-own identifier stamp bs own rest is_own (omega arith) in
          (rest', rw (merge_loop, ours) merged, omega arith)
      | inr other ↦
          let ne : own.id ≢ b.id = λ e. ground (arith, other, is_own, e) in
          let (next, once, bigger) = merge-own stamp b own rest ne (omega arith) in
          let (rest', merged, size) =
            merge_loop-own identifier stamp bs own next is_own (omega arith) in
          (rest', rw (merge_loop, other, once) merged, omega arith)
    ]

-- On a table whose first entry is the node's own, with room for what a packet lists, beacon_recv of a
-- packet whose sender has stratum 0 returns, and leaves the own entry as it is; the table does not pass
-- MAXNEIGH entries.
pub beacon_recv-own :
    (identifier stamp : ℕ) (sender : Heard) (bs : List Heard) (own : Neighbour)
    (rest : List Neighbour)
    → sender.stratum ≡ 0
    → own.id ≡ identifier
    → length (own ∷ rest) + length (sender ∷ bs) ≤ maxneighbours
    → (rest' : List Neighbour) × (beacon_recv identifier stamp (sender ∷ bs) (own ∷ rest)
        ≡ ok (own ∷ rest'))
      × (length (own ∷ rest') ≤ maxneighbours)
unfolding beacon_recv
beacon_recv-own identifier stamp sender bs own rest first is_own room =
    let test : (sender.stratum == 0) ≡ true = ground arith in
    elim (Bool-cases (sender.id == identifier)) [
      | inl ours ↦ (rest, rw (test, ours), omega arith)
      | inr other ↦ elim (Bool-cases (lists_us identifier bs)) [
        | inl listed ↦
            let (rest', merged, size) =
              merge_loop-own identifier stamp (sender ∷ bs) own rest is_own room in
            let start : beacon_recv identifier stamp (sender ∷ bs) (own ∷ rest)
                ≡ merge_loop identifier stamp (sender ∷ bs) (own ∷ rest) =
              rw (test, other, listed) in
            (rest', start ∙ merged, omega arith)
        | inr unlisted ↦
            let cut : List Heard = record sender { stratum = strat_inf } ∷ [] in
            let (rest', merged, size) =
              merge_loop-own identifier stamp cut own rest is_own (omega arith) in
            let start : beacon_recv identifier stamp (sender ∷ bs) (own ∷ rest)
                ≡ merge_loop identifier stamp cut (own ∷ rest) =
              rw (test, other, unlisted) in
            (rest', start ∙ merged, omega arith)
      ]
    ]
