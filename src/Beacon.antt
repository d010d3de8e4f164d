-- ===== src/Beacon.antt =====
-- radio/serial/beacon.c and beacon.h: the neighbours of a node of the first radio. The table is the list
-- of the entries up to `Nneigh`; entry 0 is the node itself. `rand` is a parameter, as in Loc; `stamp` is
-- what time() returns.
pub mod Own
pub mod Recalc
mod Descent
pub mod Wire
pub mod Prepared
mod Tests
use old_radio.Base.{
  ℕ, zero, suc, ◌+◌, ◌-◌, ◌*◌, ◌%◌, List, [], ◌∷◌, ◌++◌, Option, none, some, Bool, true, false,
  ◌&&◌, ◌||◌, not, ltb, leb, ◌==◌, if◌then◌else◌, length, drop,
}
use old_radio.Base.Run.{Run, ok, ◌>>=◌, ◌>>◌, assert, load}
use old_radio.Base.Int.{ℤ, pos, ◌-ℤ◌}
use old_radio.Loc.{Loc, Rand}

-- `neighbour_t`; `active` is its state.
pub record Neighbour : Type 0 where
  pub active : Bool
  pub id : ℕ
  pub stratum : ℕ
  pub vloc : Loc
  pub stamp : ℕ

-- `beacon_t`, of 15 bytes.
pub record Heard : Type 0 where
  pub id : ℕ
  pub stratum : ℕ
  pub vloc : Loc

abbrev pub maxneighbours : ℕ
maxneighbours = 20

abbrev pub maxstrat : ℕ
maxstrat = 5

abbrev pub strat_inf : ℕ
strat_inf = 255

abbrev pub beacon_timeout : ℕ
beacon_timeout = 60

abbrev pub heard_size : ℕ
heard_size = 15

unfoldable pub beacon_init : Rand → ℕ → ℕ → List Neighbour × ℕ
beacon_init rand identifier seed =
    let (rx, after_x) = rand seed in
    let (ry, after_y) = rand after_x in
    let (rz, after_z) = rand after_y in
    let vloc : Loc = record {
      x = pos (rx % 11) -ℤ pos 5;
      y = pos (ry % 11) -ℤ pos 5;
      z = pos (rz % 11) -ℤ pos 5;
    } in
    (record { active = true; id = identifier; stratum = 0; vloc = vloc; stamp = 0 } ∷ [], after_z)

-- The loop that looks for this node in the rest of a packet.
unfoldable pub lists_us : ℕ → List Heard → Bool
lists_us identifier [] = false
lists_us identifier (b ∷ bs) =
    ((b.id == identifier) && ((b.stratum == 1) || (b.stratum == strat_inf)))
    || lists_us identifier bs

abbrev pub one_further : ℕ → ℕ
one_further stratum = if ltb stratum strat_inf then stratum + 1 else stratum

abbrev pub entry_for : ℕ → Heard → Neighbour
entry_for stamp b = record {
  active = true;
  id = b.id;
  stratum = one_further b.stratum;
  vloc = b.vloc;
  stamp = stamp;
}

abbrev pub behind_first : Neighbour → Option (List Neighbour) → Option (List Neighbour)
behind_first n none = none
behind_first n (some ns) = some (n ∷ ns)

-- The search for the entry of an id, and what becomes of the table where there is one.
unfoldable pub merge_known : ℕ → Heard → List Neighbour → Option (List Neighbour)
merge_known stamp b [] = none
merge_known stamp b (n ∷ ns) =
    let rest = merge_known stamp b ns in
    let takes = not n.active || leb (one_further b.stratum) n.stratum in
    if n.id == b.id
    then some ((if takes then entry_for stamp b else n) ∷ ns)
    else behind_first n rest

abbrev pub merged_or : ℕ → Heard → List Neighbour → Option (List Neighbour) → Run (List Neighbour)
merged_or stamp b table (some known) = ok known
merged_or stamp b table none =
    assert (ltb (length table) maxneighbours) >> ok (table ++ entry_for stamp b ∷ [])

-- The loop of beacon_recv over the beacons of the packet.
unfoldable pub merge_loop : ℕ → ℕ → List Heard → List Neighbour → Run (List Neighbour)
unfolding merge_known
merge_loop identifier stamp [] table = ok table
merge_loop identifier stamp (b ∷ bs) table =
    (if b.id == identifier then ok table else merged_or stamp b table (merge_known stamp b table))
    >>= λ next. merge_loop identifier stamp bs next

unfoldable pub beacon_recv : ℕ → ℕ → List Heard → List Neighbour → Run (List Neighbour)
unfolding lists_us merge_loop
beacon_recv identifier stamp packet table = load packet 0 >>= λ sender.
    assert (sender.stratum == 0)
    >> (if sender.id == identifier
        then ok table
        else (if lists_us identifier (drop 1 packet)
            then merge_loop identifier stamp packet table
            else merge_loop identifier stamp (record sender { stratum = strat_inf } ∷ []) table))

-- The loop of beacon_prepare over the entries, with `j` beacons written. The stratum is that of entry
-- `j`, as the code has it.
unfoldable pub prepare_loop : List Neighbour → ℕ → List Neighbour → ℕ → Run (List Heard)
prepare_loop table size [] j = ok []
prepare_loop table size (n ∷ ns) j =
    let skipped = not n.active || (leb maxstrat n.stratum && not (n.stratum == strat_inf)) in
    let skip = prepare_loop table size ns j in
    let write : Run (List Heard) = load table j >>= λ at_j.
    prepare_loop table size ns (j + 1) >>= λ rest.
    ok (record { id = n.id; stratum = at_j.stratum; vloc = n.vloc } ∷ rest) in
    if ltb (j * heard_size) size then (if skipped then skip else write) else ok []

unfoldable pub beacon_prepare : ℕ → List Neighbour → Run (List Heard)
unfolding prepare_loop
beacon_prepare size table = prepare_loop table size table 0

-- The first loop of beacon_recalc, over the entries behind the first.
unfoldable pub expire_loop : ℕ → List Neighbour → List Neighbour
expire_loop now [] = []
expire_loop now (n ∷ ns) =
    (if ltb (n.stamp + beacon_timeout) now then record n { active = false } else n)
    ∷ expire_loop now ns
