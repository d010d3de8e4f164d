-- ===== src/Neigh/Live.antt =====
-- radio2/src/neigh.c: what the iterations visit, and culling.
use old_radio.Base.{
  ℕ, zero, suc, ◌+◌, ◌<◌, ◌≡◌, refl, sym, ap, ◌∙◌, true, false, ◌&&◌, List, [], ◌∷◌, Option, none,
  some, ltb, ◌==◌, if◌then◌else◌, length, drop, arith, ℕ_discrete,
}
use old_radio.Neigh.{
  Neigh, NeighEntry, NeighTable, neigh_table_cull, neigh_table_foreach, NeighIter, neigh_iter_new,
  next_loop, neigh_iter_next,
}

-- The neighbours whose entries are in use, in the table's order.
abbrev pub live : NeighTable → List Neigh
live [] = []
live (e ∷ table) = if e.expiry == 0 then live table else e.neigh ∷ live table

abbrev pub fold_list {ℓ} : {D : Type ℓ} → (Neigh → D → D) → List Neigh → D → D
fold_list func [] d = d
fold_list func (n ∷ ns) d = fold_list func ns (func n d)

abbrev seen_by : (NeighIter → List Neigh) → Option Neigh → NeighIter → List Neigh
seen_by loop none iter = []
seen_by loop (some n) iter = n ∷ loop iter

-- The loop `while ((n = neigh_iter_next(iter)))`, with what it sees, on fuel.
unfoldable pub visited : ℕ → NeighIter → List Neigh
visited zero iter = []
visited (suc fuel) iter = let r = neigh_iter_next iter in seen_by (visited fuel) r.0 r.1

abbrev seen : ℕ → NeighTable → Option Neigh × ℕ → List Neigh
seen fuel table r = seen_by (visited fuel) r.0 (record { table = table; index = r.1 })

visited-suc :
    (fuel : ℕ) (table : NeighTable) (index : ℕ)
    → visited (suc fuel) (record { table = table; index = index })
      ≡ seen fuel table (next_loop (drop index table) index)
unfolding visited neigh_iter_next
visited-suc fuel table index = refl

drop-next :
    (table : NeighTable) (index : ℕ) (e : NeighEntry) (entries : NeighTable)
    → drop index table ≡ e ∷ entries
    → drop (suc index) table ≡ entries
drop-next table zero e entries h = ap (drop 1) h
drop-next [] (suc index) e entries h = ground (arith, h)
drop-next (x ∷ table) (suc index) e entries h = drop-next table index e entries h

visited-live_from :
    (entries : NeighTable) (fuel : ℕ) (table : NeighTable) (index : ℕ)
    → drop index table ≡ entries
    → length entries < fuel
    → visited fuel (record { table = table; index = index }) ≡ live entries
unfolding next_loop
visited-live_from entries zero table index h enough = absurd (omega arith)
visited-live_from [] (suc fuel) table index h enough =
    visited-suc fuel table index ∙ ap (λ (s : NeighTable). seen fuel table (next_loop s index)) h
visited-live_from (e ∷ entries) (suc fuel) table index h enough =
    let next = drop-next table index e entries h in
    let start =
      visited-suc fuel table index
      ∙ ap (λ (s : NeighTable). seen fuel table (next_loop s index)) h in
    elim (ℕ_discrete e.expiry 0) [
      | yes out ↦
          let test : (e.expiry == 0) ≡ true = ground arith in
          let same : seen fuel table (next_loop entries (suc index))
              ≡ visited (suc fuel) (record { table = table; index = suc index }) =
            sym (
              visited-suc fuel table (suc index)
              ∙ ap (λ (s : NeighTable). seen fuel table (next_loop s (suc index))) next) in
          start
          ∙ rw test
              (same ∙ visited-live_from entries (suc fuel) table (suc index) next (omega arith))
      | no in_use ↦
          let test : (e.expiry == 0) ≡ false = ground arith in
          start
          ∙ rw test (
              ap (◌∷◌ e.neigh)
                (visited-live_from entries fuel table (suc index) next (omega arith)))
    ]

foreach-live {ℓ} :
    {D : Type ℓ} (table : NeighTable) (func : Neigh → D → D) (d : D)
    → neigh_table_foreach table func d ≡ fold_list func (live table) d
unfolding neigh_table_foreach
foreach-live [] func d = refl
foreach-live (e ∷ table) func d = elim (ℕ_discrete e.expiry 0) [
  | yes out ↦
      let test : (e.expiry == 0) ≡ true = ground arith in rw test (foreach-live table func d)
  | no in_use ↦
      let test : (e.expiry == 0) ≡ false = ground arith in
      rw test (foreach-live table func (func e.neigh d))
]

-- The iterator yields the neighbours of the entries in use, each once and in the table's order, and
-- neigh_table_foreach calls its function on the same neighbours in the same order.
pub iterations-live {ℓ} :
    {D : Type ℓ} (table : NeighTable) (func : Neigh → D → D) (d : D)
    → (visited (length table + 1) (neigh_iter_new table) ≡ live table)
      × (neigh_table_foreach table func d ≡ fold_list func (live table) d)
unfolding neigh_iter_new
iterations-live table func d = (
  visited-live_from table (length table + 1) table 0 refl (omega arith),
  foreach-live table func d,
)

-- The neighbours whose expiry is before a time.
abbrev pub expired : NeighTable → ℕ → List Neigh
expired [] vtime = []
expired (e ∷ table) vtime =
    if ltb 0 e.expiry && ltb e.expiry vtime
    then e.neigh ∷ expired table vtime
    else expired table vtime

-- neigh_table_cull keeps exactly the entries that have expired, those of an expiry before the time, and
-- takes the others out of use.
pub cull-expired :
    (table : NeighTable) (vtime : ℕ) → live (neigh_table_cull table vtime) ≡ expired table vtime
unfolding neigh_table_cull
cull-expired [] vtime = refl
cull-expired (e ∷ table) vtime = ground (arith, cull-expired table vtime)
