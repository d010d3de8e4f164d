-- ===== src/Sender/Chain.antt =====
-- radio/serial/queue.c: the linked list and the packets that it stands for.
use old_radio.Base.{
  ℕ, zero, suc, ◌<◌, ◌≡◌, ◌≢◌, refl, sym, ap, ◌∙◌, List, [], ◌∷◌, ◌++◌, Option, none, some, length,
  set, get_or-set_same, get_or-set_other, get_or-append, All, All-append, map, arith,
}
use old_radio.Sender.{Link, Store, link_at}

-- An address and the packet that its link holds.
abbrev pub Held : Type 0
Held = ℕ × List ℕ

abbrev pub first_of : List Held → Option ℕ
first_of [] = none
first_of (c ∷ cs) = some c.0

abbrev pub last_of : Held → List Held → ℕ
last_of c [] = c.0
last_of c (c' ∷ cs) = last_of c' cs

abbrev pub packets : List Held → List (List ℕ)
packets cs = map (λ (c : Held). c.1) cs

abbrev pub Apart : ℕ → List Held → Type 0
Apart p cs = All (λ (c : Held). p ≢ c.0) cs

-- The links at the addresses, which all differ, hold the packets, each with the next one's address.
abbrev pub Chain : Store → List Held → Type 0
Chain store [] = Unit
Chain store (c ∷ cs) =
    (link_at store c.0 ≡ some (record { bytes = c.1; next = first_of cs }))
    × Apart c.0 cs
    × Chain store cs

pub link_at-lt : (store : Store) (p : ℕ) (k : Link) → link_at store p ≡ some k → p < length store
link_at-lt [] p k h = ground (arith, h)
link_at-lt (x ∷ store) zero k h = omega arith
link_at-lt (x ∷ store) (suc p) k h = omega (arith, link_at-lt store p k h)

pub Chain-set :
    (store : Store) (p : ℕ) (v : Option Link) (cs : List Held)
    → Apart p cs
    → Chain store cs
    → Chain (set store p v) cs
Chain-set store p v [] apart chain = tt
Chain-set store p v (c ∷ cs) apart chain = (
  get_or-set_other store p c.0 v none apart.0 ∙ chain.0,
  chain.1,
  Chain-set store p v cs apart.1 chain.2,
)

pub Chain-append :
    (store : Store) (x : Option Link) (cs : List Held) → Chain store cs → Chain (store ++ x ∷ []) cs
Chain-append store x [] chain = tt
Chain-append store x (c ∷ cs) chain = (
  get_or-append store (x ∷ []) c.0 none (link_at-lt store c.0 _ chain.0) ∙ chain.0,
  chain.1,
  Chain-append store x cs chain.2,
)

-- A new address is not that of any link.
pub Chain-Apart :
    (store : Store) (cs : List Held) → Chain store cs → All (λ (c : Held). c.0 ≢ length store) cs
Chain-Apart store [] chain = tt
Chain-Apart store (c ∷ cs) chain =
    let below = link_at-lt store c.0 _ chain.0 in
    (λ e. absurd (omega arith), Chain-Apart store cs chain.2)

pub last_of-All :
    (P : ℕ → Type 0) (c : Held) (cs : List Held)
    → All (λ (d : Held). P d.0) (c ∷ cs)
    → P (last_of c cs)
last_of-All P c [] all = all.0
last_of-All P c (c' ∷ cs) all = last_of-All P c' cs all.1

-- What the last link of a chain holds, and the chain after a link is hung behind it.
pub record Extended (store : Store) (n : ℕ) (d : List ℕ) (c : Held) (cs : List Held) : Type 0 where
  pub last : Link
  pub at_last : link_at store (last_of c cs) ≡ some last
  pub chain :
      Chain
        (set store (last_of c cs) (some (record last { next = some n })))
        ((c ∷ cs) ++ (n, d) ∷ [])

pub Chain-Extended :
    (store : Store) (n : ℕ) (d : List ℕ) (c : Held) (cs : List Held)
    → Chain store (c ∷ cs)
    → All (λ (c : Held). c.0 ≢ n) (c ∷ cs)
    → link_at store n ≡ some (record { bytes = d; next = none })
    → Extended store n d c cs
Chain-Extended store n d c [] chain apart at_n = record {
  last = record { bytes = c.1; next = none };
  at_last = chain.0;
  chain = (
    get_or-set_same store c.0 (some (record { bytes = c.1; next = some n })) none
        (link_at-lt store c.0 _ chain.0),
    (apart.0, tt),
    (
      get_or-set_other store c.0 n (some (record { bytes = c.1; next = some n })) none apart.0
          ∙ at_n,
      tt,
      tt,
    ),
  );
}
Chain-Extended store n d c (c' ∷ cs) chain apart at_n =
    let rest = Chain-Extended store n d c' cs chain.2 apart.1 at_n in
    let t = last_of c' cs in
    let t_ne : t ≢ c.0 = λ e. last_of-All (λ (q : ℕ). c.0 ≢ q) c' cs chain.1 (sym e) in
    record {
      last = rest.last;
      at_last = rest.at_last;
      chain = (
        get_or-set_other store t c.0 (some (record rest.last { next = some n })) none t_ne
            ∙ chain.0,
        All-append (λ (q : Held). c.0 ≢ q.0) (c' ∷ cs) ((n, d) ∷ []) chain.1 (apart.0, tt),
        rest.chain,
      );
    }

pub packets-append : (cs : List Held) (c : Held) → packets (cs ++ c ∷ []) ≡ packets cs ++ c.1 ∷ []
packets-append [] c = refl
packets-append (x ∷ cs) c = ap (◌∷◌ x.1) (packets-append cs c)
