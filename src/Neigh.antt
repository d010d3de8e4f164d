-- ===== src/Neigh.antt =====
-- radio2/src/neigh.c and neigh.h: a node's table of neighbours. The table is the list of its entries up
-- to `nneigh`: what lies behind is never read. An entry whose expiry is 0 is skipped by the iterations.
pub mod Table
pub mod Live
mod Tests
use old_radio.Base.{
  ℕ, zero, suc, ◌+◌, ◌*◌, ◌%◌, ◌^◌, List, [], ◌∷◌, ◌++◌, Option, none, some, Bool, ◌&&◌, ◌||◌, ltb,
  leb, ◌==◌, if◌then◌else◌, length, drop,
}
use mathlib.Core.List.{map}
use old_radio.Base.Run.{Run, ok, ◌>>◌, assert}
use old_radio.Loc.{Loc}

pub record Neigh : Type 0 where
  pub id : ℕ
  pub stratum : ℕ
  pub loc : Loc

pub record NeighEntry : Type 0 where
  pub neigh : Neigh
  pub expiry : ℕ

abbrev pub NeighTable : Type 0
NeighTable = List NeighEntry

abbrev pub neigh_max : ℕ
neigh_max = 50

abbrev pub neigh_id_invalid : ℕ
neigh_id_invalid = 0xffff

abbrev pub neigh_stratum_inf : ℕ
neigh_stratum_inf = 10

abbrev pub neigh_expiry_timeout : ℕ
neigh_expiry_timeout = 30 * 1000000

unfoldable pub neigh_table_new : NeighTable
neigh_table_new = []

-- Whether a neighbour replaces an entry of its id.
unfoldable pub replaces : Neigh → Neigh → Bool
replaces neigh old =
    (neigh.stratum == neigh_stratum_inf && ltb 1 old.stratum) || leb neigh.stratum old.stratum

abbrev pub fresh : Neigh → ℕ → NeighEntry
fresh neigh vtime = record { neigh = neigh; expiry = (vtime + neigh_expiry_timeout) % 2 ^ 64 }

abbrev pub with_head : NeighEntry → Option NeighTable → Option NeighTable
with_head e none = none
with_head e (some es) = some (e ∷ es)

-- The loop of neigh_table_insert: the table that it returns with, if it finds the id.
unfoldable pub insert_known : NeighTable → Neigh → ℕ → Option NeighTable
unfolding replaces
insert_known [] neigh vtime = none
insert_known (e ∷ table) neigh vtime =
    let rest = insert_known table neigh vtime in
    if e.neigh.id == neigh.id
    then some ((if replaces neigh e.neigh then fresh neigh vtime else e) ∷ table)
    else with_head e rest

abbrev pub known_or : NeighTable → Neigh → ℕ → Option NeighTable → Run NeighTable
known_or table neigh vtime (some known) = ok known
known_or table neigh vtime none =
    assert (ltb (length table) neigh_max) >> ok (table ++ fresh neigh vtime ∷ [])

unfoldable pub neigh_table_insert : NeighTable → Neigh → ℕ → Run NeighTable
unfolding insert_known
neigh_table_insert table neigh vtime = known_or table neigh vtime (insert_known table neigh vtime)

unfoldable pub neigh_table_cull : NeighTable → ℕ → NeighTable
neigh_table_cull [] vtime = []
neigh_table_cull (e ∷ table) vtime =
    (if leb vtime e.expiry then record e { expiry = 0 } else e) ∷ neigh_table_cull table vtime

unfoldable pub neigh_table_foreach {ℓ} : {D : Type ℓ} → NeighTable → (Neigh → D → D) → D → D
neigh_table_foreach [] func d = d
neigh_table_foreach (e ∷ table) func d =
    neigh_table_foreach table func (if e.expiry == 0 then d else func e.neigh d)

pub record NeighIter : Type 0 where
  pub table : NeighTable
  pub index : ℕ

unfoldable pub neigh_iter_new : NeighTable → NeighIter
neigh_iter_new table = record { table = table; index = 0 }

-- The loop of neigh_iter_next over the entries from the index on: what it finds, and the next index.
unfoldable pub next_loop : NeighTable → ℕ → Option Neigh × ℕ
next_loop [] index = (none, index)
next_loop (e ∷ entries) index =
    let rest = next_loop entries (suc index) in
    if e.expiry == 0 then rest else (some e.neigh, suc index)

unfoldable pub neigh_iter_next : NeighIter → Option Neigh × NeighIter
unfolding next_loop
neigh_iter_next iter =
    let (found, index) = next_loop (drop iter.index iter.table) iter.index in
    (found, record iter { index = index })
