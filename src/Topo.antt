-- ===== src/Topo.antt =====
-- radio2/src/topo.c and topo.h: the links of the network, a table with open addressing by their source.
-- A slot whose two ends are equal counts as free; calloc makes all slots so. `Prob` is the type of the
-- links' probabilities. A search that meets no free slot does not end in the code; here its fuel is the
-- size of the table, after which it has seen every slot.
pub mod Probe
mod Tests
use old_radio.Base.{
  ℕ, zero, suc, ◌+◌, ◌*◌, ◌%◌, ◌^◌, List, [], ◌∷◌, Option, none, some, Bool, true, false, ◌&&◌, ltb,
  ◌==◌, if◌then◌else◌, set, replicate,
}
use old_radio.Base.Int.{ℤ, to_u64}
use old_radio.Base.Run.{Run, ok, out_of_fuel, ◌>>=◌, ◌>>◌, assert, load}

-- An `int` as a node_id_t, of 16 bits.
abbrev pub node_id : ℤ → ℕ
node_id n = to_u64 n % 2 ^ 16

abbrev pub topo_tablesize : ℕ
topo_tablesize = 30000

abbrev pub topo_tableoffs : ℕ
topo_tableoffs = 30

abbrev pub topo_maxentries : ℕ
topo_maxentries = 9000

module _ (Prob : Type 0) (impossible : Prob) where
  pub record TopoEntry : Type 0 where
    pub src : ℕ
    pub dst : ℕ
    pub prob : Prob

  pub record Topo : Type 0 where
    pub table : List TopoEntry
    pub entries : ℕ
    pub max_id : ℕ

  unfoldable pub topo_new : Topo
  topo_new = record {
    table = replicate topo_tablesize (record { src = 0; dst = 0; prob = impossible });
    entries = 0;
    max_id = 0;
  }

  abbrev pub first_slot : ℕ → ℕ
  first_slot src = topo_tableoffs * src % topo_tablesize

  abbrev pub is_free : TopoEntry → Bool
  is_free e = e.src == e.dst

  abbrev pub same_link : TopoEntry → TopoEntry → Bool
  same_link e f = (e.src == f.src) && (e.dst == f.dst)

  abbrev pub raised : ℕ → ℕ → ℕ
  raised id max_id = if ltb max_id id then id else max_id

  -- The loop of topo_insert: the slot for the entry, and whether it holds the same link.
  unfoldable pub probe : ℕ → List TopoEntry → TopoEntry → ℕ → Run (ℕ × Bool)
  probe zero table entry n = out_of_fuel
  probe (suc fuel) table entry n =
      let next = probe fuel table entry ((n + 1) % topo_tablesize) in
      load table n >>= λ e.
      if is_free e then ok (n, false) else (if same_link e entry then ok (n, true) else next)

  abbrev pub stored_at : Topo → TopoEntry → ℕ × Bool → Topo
  stored_at topo entry (n, true) = record topo { table = set topo.table n entry }
  stored_at topo entry (n, false) = record {
    table = set topo.table n entry;
    entries = topo.entries + 1;
    max_id = raised entry.dst (raised entry.src topo.max_id);
  }

  unfoldable pub topo_insert : Topo → TopoEntry → Run Topo
  unfolding probe
  topo_insert topo entry =
      assert (ltb topo.entries topo_maxentries)
      >> (probe topo_tablesize topo.table entry (first_slot entry.src) >>= λ at.
          ok (stored_at topo entry at))

  -- What sscanf found on the lines of a file: two of type `int`, which are cut to a node_id_t, and the
  -- probabilities, where `possible` means above zero.
  unfoldable pub topo_file_read : (Prob → Bool) → Topo → List (ℤ × ℤ × Prob × Prob) → Run Topo
  unfolding topo_insert
  topo_file_read possible topo [] = ok topo
  topo_file_read possible topo ((node1, node2, prob12, prob21) ∷ lines) =
      let id1 = node_id node1 in
      let id2 = node_id node2 in
      (if possible prob12
        then topo_insert topo (record { src = id1; dst = id2; prob = prob12 })
        else ok topo)
      >>= λ once.
          (if possible prob21
            then topo_insert once (record { src = id2; dst = id1; prob = prob21 })
            else ok once)
          >>= λ twice. topo_file_read possible twice lines

  pub record TopoIter : Type 0 where
    pub offs : ℕ
    pub src : ℕ

  unfoldable pub topo_iter_new : ℕ → TopoIter
  topo_iter_new src = record { offs = first_slot src; src = src }

  -- The loop of topo_iter_next.
  unfoldable pub topo_iter_next : ℕ → List TopoEntry → TopoIter → Run (Option TopoEntry × TopoIter)
  topo_iter_next zero table iter = out_of_fuel
  topo_iter_next (suc fuel) table iter =
      let moved : TopoIter = record iter { offs = (iter.offs + 1) % topo_tablesize } in
      let next = topo_iter_next fuel table moved in
      load table iter.offs >>= λ e.
      if is_free e
      then ok (none, iter)
      else (if e.src == iter.src then ok (some e, moved) else next)
