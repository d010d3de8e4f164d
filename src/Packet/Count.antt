-- ===== src/Packet/Count.antt =====
-- radio2/src/packet.c: references counted over a run of calls, as packet_test.c exercises them.
use mathlib.Core.Option.{some-injective}
use old_radio.Base.{
  Bool, ℕ, ◌+◌, ◌-◌, ◌^◌, ◌<◌, ◌≡◌, refl, ◌∙◌, arith, Option, none, some, ◌==◌, true, false,
  if◌then◌else◌, List, [], ◌∷◌,
}
use old_radio.Base.Run.{Run, ok, ◌>>=◌}
use old_radio.Packet.{Packet, Heap, cell, packet_clone, packet_free}
use old_radio.Packet.Valid.{IsValid, Elsewhere, packet_clone_lem, packet_free_lem}

-- The calls on one packet that a holder of references makes.
pub data Call : Type 0 where
  clone free : Call

unfoldable pub call : ℕ → Call → Heap → Run Heap
call p clone h = packet_clone p h >>= λ (q, h'). ok h'
call p free h = packet_free p h

unfoldable pub calls : ℕ → List Call → Heap → Run Heap
unfolding call
calls p [] h = ok h
calls p (c ∷ cs) h = call p c h >>= calls p cs

-- The references left after calls that started with `n`: `none` if a call was made with none left,
-- or more than a size_t counts.
unfoldable pub references : ℕ → List Call → Option ℕ
references n [] = some n
references n (clone ∷ cs) =
    let rest = references (n + 1) cs in
    if n == 0 then none else if n + 1 == 2 ^ 64 then none else rest
references n (free ∷ cs) = let rest = references (n - 1) cs in if n == 0 then none else rest

-- The packet with `n` references, or the freed cell.
abbrev pub counted : Packet → ℕ → Option Packet
counted k n = if n == 0 then none else some (record k { refcount = n })

counted_more : (k : Packet) → (k.refcount == 0) ≡ false → some k ≡ counted k k.refcount
counted_more k e = if_no (k.refcount == 0) e
  where
    if_no : (b : Bool) → b ≡ false → some k ≡ (if b then none else some k)
    if_no true e = cc
    if_no false e = refl

module _ (p n : ℕ) (k : Packet) (h : Heap) (v : IsValid h) (b : n < 2 ^ 64) (pos : 0 < n)
    (e : cell h p ≡ counted k n) where
  live : cell h p ≡ some (record k { refcount = n })
  live = let more : (n == 0) ≡ false = ground arith in rw more at e

  clone-counted :
      n + 1 < 2 ^ 64
      → (h' : Heap) × (call p clone h ≡ ok h')
        × (cell h' p ≡ counted k (n + 1))
        × Elsewhere p h h'
        × IsValid h'
  unfolding call
  clone-counted small =
      let (h', made, now, others, v') =
        packet_clone_lem p (record k { refcount = n }) h v live small in
      let more : (n + 1 == 0) ≡ false = ground arith in (h', rw made, rw more now, others, v')

  free-counted :
      (h' : Heap) × (call p free h ≡ ok h')
      × (cell h' p ≡ counted k (n - 1))
      × Elsewhere p h h'
      × IsValid h'
  unfolding call
  free-counted =
      let (h', made, now, others, v') = packet_free_lem p (record k { refcount = n }) h v live in
      let last : (n == 1) ≡ (n - 1 == 0) = ground arith in (h', made, rw last at now, others, v')

calls-counted :
    (cs : List Call) (p n m : ℕ) (k : Packet) (h : Heap)
    → IsValid h
    → n < 2 ^ 64
    → cell h p ≡ counted k n
    → references n cs ≡ some m
    → (h' : Heap) × (calls p cs h ≡ ok h')
      × (cell h' p ≡ counted k m)
      × Elsewhere p h h'
      × IsValid h'
unfolding calls references
calls-counted [] p n m k h v b e r =
    let same : n ≡ m = some-injective _ _ r in (h, refl, rw (← same) e, (λ q ne. refl), v)
calls-counted (clone ∷ cs) p n m k h v b e r =
    let pos : 0 < n = ground arith in
    let small : n + 1 < 2 ^ 64 = ground arith in
    let rest : references (n + 1) cs ≡ some m = ground arith in
    let (h₁, first, now, others, v₁) = clone-counted p n k h v b pos e small in
    let (h₂, last, end, others', v₂) = calls-counted cs p (n + 1) m k h₁ v₁ small now rest in
    (h₂, rw first last, end, (λ q ne. others' q ne ∙ others q ne), v₂)
calls-counted (free ∷ cs) p n m k h v b e r =
    let pos : 0 < n = ground arith in
    let rest : references (n - 1) cs ≡ some m = ground arith in
    let (h₁, first, now, others, v₁) = free-counted p n k h v b pos e in
    let (h₂, last, end, others', v₂) =
      calls-counted cs p (n - 1) m k h₁ v₁ (omega arith) now rest in
    (h₂, rw first last, end, (λ q ne. others' q ne ∙ others q ne), v₂)

-- From a live packet of a valid heap, any run of packet_clone and packet_free in which no call comes
-- after the last reference is gone (and no count passes a size_t) succeeds. At its end the packet has
-- its references plus the clones less the frees, and is released exactly if there are none; no other
-- packet has changed.
pub calls-references :
    (cs : List Call) (p m : ℕ) (k : Packet) (h : Heap)
    → IsValid h
    → cell h p ≡ some k
    → references k.refcount cs ≡ some m
    → (h' : Heap) × (calls p cs h ≡ ok h')
      × (cell h' p ≡ (if m == 0 then none else some (record k { refcount = m })))
      × Elsewhere p h h'
      × IsValid h'
calls-references cs p m k h v e r =
    let l = v p k e in
    let more : (k.refcount == 0) ≡ false = ground arith in
    calls-counted cs p k.refcount m k h v (omega (arith, l.counted)) (e ∙ counted_more k more) r
