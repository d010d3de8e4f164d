-- ===== src/Neigh/Table.antt =====
-- radio2/src/neigh.c: insertion keeps at most one entry for each id, and at most NEIGH_MAX entries.
use mathlib.Core.Option.{some-injective}
use old_radio.Base.{
  ℕ, suc, ◌≤◌, ◌<◌, ◌≡◌, refl, sym, ap, ◌∙◌, ◌≢◌, ◌⊎◌, inl, inr, true, false, [], ◌∷◌, ◌++◌, Option,
  none, some, ltb, ◌==◌, if◌then◌else◌, length, length-append, arith, ℕ_discrete, Option-cases,
}
use old_radio.Base.Run.{ok, abort}
use old_radio.Neigh.{
  Neigh, NeighEntry, NeighTable, neigh_max, replaces, fresh, with_head, insert_known, known_or,
  neigh_table_insert,
}

-- The entry of an id.
abbrev pub lookup : ℕ → NeighTable → Option NeighEntry
lookup id [] = none
lookup id (e ∷ table) = if e.neigh.id == id then some e else lookup id table

abbrev pub Unique : NeighTable → Type 0
Unique [] = Unit
Unique (e ∷ table) = (lookup e.neigh.id table ≡ none) × Unique table

pub record IsTable (table : NeighTable) : Type 0 where
  pub short : length table ≤ neigh_max
  pub unique : Unique table

-- The entry of a neighbour's id after its insertion, given the one before.
abbrev pub stored : Option NeighEntry → Neigh → ℕ → NeighEntry
stored none neigh vtime = fresh neigh vtime
stored (some old) neigh vtime = if replaces neigh old.neigh then fresh neigh vtime else old

insert_known-none :
    (table : NeighTable) (neigh : Neigh) (vtime : ℕ)
    → lookup neigh.id table ≡ none
    → insert_known table neigh vtime ≡ none
unfolding insert_known
insert_known-none [] neigh vtime h = refl
insert_known-none (e ∷ table) neigh vtime h = ground (arith, h, insert_known-none table neigh vtime)

lookup_hit :
    (e : NeighEntry) (table : NeighTable) (j : ℕ) → e.neigh.id ≡ j → lookup j (e ∷ table) ≡ some e
lookup_hit e table j h = ground arith

lookup_miss :
    (e : NeighEntry) (table : NeighTable) (j : ℕ)
    → e.neigh.id ≢ j
    → lookup j (e ∷ table) ≡ lookup j table
lookup_miss e table j h = ground arith

stored-id :
    (e : NeighEntry) (neigh : Neigh) (vtime : ℕ)
    → e.neigh.id ≡ neigh.id
    → (stored (some e) neigh vtime).neigh.id ≡ neigh.id
stored-id e neigh vtime h = ground arith

insert_known_hit :
    (e : NeighEntry) (table : NeighTable) (neigh : Neigh) (vtime : ℕ)
    → e.neigh.id ≡ neigh.id
    → insert_known (e ∷ table) neigh vtime ≡ some (stored (some e) neigh vtime ∷ table)
unfolding insert_known
insert_known_hit e table neigh vtime h = ground arith

insert_known_miss :
    (e : NeighEntry) (table : NeighTable) (neigh : Neigh) (vtime : ℕ)
    → e.neigh.id ≢ neigh.id
    → insert_known (e ∷ table) neigh vtime ≡ with_head e (insert_known table neigh vtime)
unfolding insert_known
insert_known_miss e table neigh vtime h = ground arith

-- What the loop returns for an id that the table has.
record Replaced (table : NeighTable) (neigh : Neigh) (vtime : ℕ) (old : NeighEntry) : Type 0 where
  out : NeighTable
  returns : insert_known table neigh vtime ≡ some out
  at_id : lookup neigh.id out ≡ some (stored (some old) neigh vtime)
  elsewhere : (j : ℕ) → neigh.id ≢ j → lookup j out ≡ lookup j table
  size : length out ≡ length table
  keeps : Unique table → Unique out

insert_known-Replaced :
    (table : NeighTable) (neigh : Neigh) (vtime : ℕ) (old : NeighEntry)
    → lookup neigh.id table ≡ some old
    → Replaced table neigh vtime old
insert_known-Replaced [] neigh vtime old h = ground (arith, h)
insert_known-Replaced (e ∷ table) neigh vtime old h = elim (ℕ_discrete e.neigh.id neigh.id) [
  | yes same ↦
      let found : e ≡ old = some-injective _ _ (sym (lookup_hit e table neigh.id same) ∙ h) in
      let new = stored (some e) neigh vtime in
      let id : new.neigh.id ≡ neigh.id = stored-id e neigh vtime same in
      record {
        out = new ∷ table;
        returns = insert_known_hit e table neigh vtime same;
        at_id =
            lookup_hit new table neigh.id id
            ∙ ap (λ (o : NeighEntry). some (stored (some o) neigh vtime)) found;
        elsewhere = λ j ne.
            lookup_miss new table j (λ q. ne (sym id ∙ q))
            ∙ sym (lookup_miss e table j (λ q. ne (sym same ∙ q)));
        size = refl;
        keeps = λ u. (ap (λ (k : ℕ). lookup k table) (id ∙ sym same) ∙ u.0, u.1);
      }
  | no other ↦
      let rest =
        insert_known-Replaced table neigh vtime old
          (sym (lookup_miss e table neigh.id other) ∙ h) in
      record {
        out = e ∷ rest.out;
        returns = insert_known_miss e table neigh vtime other ∙ ap (with_head e) rest.returns;
        at_id = lookup_miss e rest.out neigh.id other ∙ rest.at_id;
        elsewhere = λ j ne. elim (ℕ_discrete e.neigh.id j) [
          | yes here ↦ lookup_hit e rest.out j here ∙ sym (lookup_hit e table j here)
          | no away ↦
              lookup_miss e rest.out j away ∙ rest.elsewhere j ne ∙ sym (lookup_miss e table j away)
        ];
        size = ap suc rest.size;
        keeps = λ u. (rest.elsewhere e.neigh.id (λ q. other (sym q)) ∙ u.0, rest.keeps u.1);
      }
]

lookup-append_new :
    (table : NeighTable) (e : NeighEntry)
    → lookup e.neigh.id table ≡ none
    → lookup e.neigh.id (table ++ e ∷ []) ≡ some e
lookup-append_new [] e h = ground arith
lookup-append_new (e' ∷ table) e h = ground (arith, h, lookup-append_new table e)

lookup-append_ne :
    (table : NeighTable) (e : NeighEntry) (j : ℕ)
    → e.neigh.id ≢ j
    → lookup j (table ++ e ∷ []) ≡ lookup j table
lookup-append_ne [] e j ne = let miss : (e.neigh.id == j) ≡ false = ground arith in rw miss
lookup-append_ne (e' ∷ table) e j ne = rw (lookup-append_ne table e j ne)

Unique-append :
    (table : NeighTable) (e : NeighEntry)
    → lookup e.neigh.id table ≡ none
    → Unique table
    → Unique (table ++ e ∷ [])
Unique-append [] e h u = (refl, tt)
Unique-append (e' ∷ table) e h u =
    let other : e.neigh.id ≢ e'.neigh.id = λ q. ground (arith, h, q) in
    let rest : lookup e.neigh.id table ≡ none = ground (arith, h) in
    (lookup-append_ne table e e'.neigh.id other ∙ u.0, Unique-append table e rest u.1)

-- On a table with at most one entry for each id, and room for another if the neighbour's id is new,
-- neigh_table_insert returns such a table. The id's entry is then the neighbour with a new expiry, unless
-- there was an entry that it does not replace, which stays; the entries of the other ids are
-- unchanged, and the table has at most one entry more.
pub neigh_table_insert_lem :
    (table : NeighTable) (neigh : Neigh) (vtime : ℕ)
    → IsTable table
    → (length table < neigh_max) ⊎ (lookup neigh.id table ≢ none)
    → (out : NeighTable) × (neigh_table_insert table neigh vtime ≡ ok out)
      × IsTable out
      × (lookup neigh.id out ≡ some (stored (lookup neigh.id table) neigh vtime))
      × ((j : ℕ) → neigh.id ≢ j → lookup j out ≡ lookup j table)
      × (length out ≤ suc (length table))
unfolding neigh_table_insert
neigh_table_insert_lem table neigh vtime valid room = elim (Option-cases (lookup neigh.id table)) [
  | inl absent ↦
      let e = fresh neigh vtime in
      let space : length table < neigh_max = elim room [ inl h ↦ h | inr h ↦ absurd (h absent) ] in
      let test : ltb (length table) neigh_max ≡ true = ground arith in
      (
        table ++ e ∷ [],
        ap (known_or table neigh vtime) (insert_known-none table neigh vtime absent)
            ∙ ground (arith, test),
        record {
          short = omega (arith, length-append table (e ∷ []));
          unique = Unique-append table e absent valid.unique;
        },
        lookup-append_new table e absent
            ∙ ap (λ (o : Option NeighEntry). some (stored o neigh vtime)) (sym absent),
        lookup-append_ne table e,
        omega (arith, length-append table (e ∷ [])),
      )
  | inr (old, found) ↦
      let r = insert_known-Replaced table neigh vtime old found in
      (
        r.out,
        ap (known_or table neigh vtime) r.returns,
        record { short = omega (arith, r.size, valid.short); unique = r.keeps valid.unique },
        r.at_id ∙ ap (λ (o : Option NeighEntry). some (stored o neigh vtime)) (sym found),
        r.elsewhere,
        omega (arith, r.size),
      )
]

-- A new id aborts the program when the table holds NEIGH_MAX entries, whether or not they have expired.
pub neigh_table_insert-full :
    (table : NeighTable) (neigh : Neigh) (vtime : ℕ)
    → neigh_max ≤ length table
    → lookup neigh.id table ≡ none
    → neigh_table_insert table neigh vtime ≡ abort
unfolding neigh_table_insert
neigh_table_insert-full table neigh vtime full absent =
    let test : ltb (length table) neigh_max ≡ false = ground arith in
    ap (known_or table neigh vtime) (insert_known-none table neigh vtime absent)
    ∙ ground (arith, test)
