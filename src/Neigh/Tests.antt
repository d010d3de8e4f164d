-- ===== src/Neigh/Tests.antt =====
-- Runs of the neighbour table on concrete entries.
use old_radio.Base.{ℕ, ◌+◌, ◌≤◌, ◌≡◌, refl, ◌≢◌, inl, [], ◌∷◌, some, length, arith}
use old_radio.Base.Run.{ok}
use old_radio.Loc.{loc_zero}
use old_radio.Neigh.{
  Neigh, NeighEntry, NeighTable, neigh_table_insert, neigh_table_cull, neigh_table_foreach,
  neigh_iter_new,
}
use old_radio.Neigh.Table.{lookup, IsTable, stored, neigh_table_insert_lem}
use old_radio.Neigh.Live.{live, visited, iterations-live, cull-expired}

abbrev neigh_at : ℕ → ℕ → Neigh
neigh_at id stratum = record { id = id; stratum = stratum; loc = loc_zero }

abbrev entry_of : ℕ → ℕ → ℕ → NeighEntry
entry_of id stratum expiry = record { neigh = neigh_at id stratum; expiry = expiry }

abbrev three : NeighTable
three = entry_of 7 1 500 ∷ entry_of 4 2 0 ∷ entry_of 9 2 100 ∷ []

three-IsTable : IsTable three
three-IsTable = record { short = omega arith; unique = (refl, (refl, (refl, tt))) }

neigh_table_insert_lem_example :
    (out : NeighTable) × (neigh_table_insert three (neigh_at 9 1) 1000 ≡ ok out)
    × IsTable out
    × (lookup 9 out ≡ some (stored (lookup 9 three) (neigh_at 9 1) 1000))
    × ((j : ℕ) → 9 ≢ j → lookup j out ≡ lookup j three)
    × (length out ≤ 4)
neigh_table_insert_lem_example =
    neigh_table_insert_lem three (neigh_at 9 1) 1000 three-IsTable (inl (omega arith))

abbrev add_id : Neigh → ℕ → ℕ
add_id n sum = n.id + sum

iterations-live_example :
    (visited 4 (neigh_iter_new three) ≡ neigh_at 7 1 ∷ neigh_at 9 2 ∷ [])
    × (neigh_table_foreach three add_id 0 ≡ 16)
iterations-live_example = iterations-live three add_id 0

cull-expired_example : live (neigh_table_cull three 200) ≡ neigh_at 9 2 ∷ []
cull-expired_example = cull-expired three 200
