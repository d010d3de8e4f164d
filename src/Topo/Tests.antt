-- ===== src/Topo/Tests.antt =====
-- The table of a network without links.
use old_radio.Base.{
  ℕ, zero, suc, ◌≡◌, ◌≢◌, refl, Bool, true, length, replicate, length-replicate, get_or, arith,
}
use old_radio.Base.Run.{ok}
use old_radio.Topo.{topo_tablesize, TopoEntry, Topo, topo_insert, is_free}
use old_radio.Topo.Probe.{entry_at, Fits, topo_insert-Fits}

abbrev link : TopoEntry ℕ 0
link = record { src = 3; dst = 5; prob = 1 }

abbrev no_link : TopoEntry ℕ 0
no_link = record { src = 0; dst = 0; prob = 0 }

abbrev empty : Topo ℕ 0
empty = record { table = replicate topo_tablesize no_link; entries = 0; max_id = 0 }

get_or-replicate : (n i : ℕ) → is_free ℕ 0 (get_or (replicate n no_link) i no_link) ≡ true
get_or-replicate zero i = refl
get_or-replicate (suc n) zero = refl
get_or-replicate (suc n) (suc i) = get_or-replicate n i

topo_insert-Fits_example :
    (k : ℕ) × (b : Bool) × (out : Topo ℕ 0) × (topo_insert ℕ 0 empty link ≡ ok out)
    × Fits ℕ 0 empty.table link k b
    × (entry_at ℕ 0 out.table k ≡ link)
    × ((i : ℕ) → k ≢ i → entry_at ℕ 0 out.table i ≡ entry_at ℕ 0 empty.table i)
    × (length out.table ≡ topo_tablesize)
topo_insert-Fits_example =
    topo_insert-Fits ℕ 0 empty link 7 (length-replicate topo_tablesize no_link) (omega arith)
      (omega arith) (get_or-replicate topo_tablesize 7)
