-- ===== src/Packet/Cells.antt =====
-- radio2/src/packet.c: the cells of the heap after a write and after an allocation.
use old_radio.Base.{
  ℕ, zero, suc, ◌≤◌, ◌<◌, ◌≡◌, ◌≢◌, refl, ap, arith, Option, none, some, [], ◌∷◌, ◌++◌, length, set,
  dec_lt, ◌∙◌, sym,
}
use old_radio.Packet.{Packet, Heap, cell}

pub cell-set_self : (h : Heap) (p : ℕ) (c : Option Packet) → p < length h → cell (set h p c) p ≡ c
cell-set_self [] p c k = absurd (omega arith)
cell-set_self (x ∷ h) zero c k = refl
cell-set_self (x ∷ h) (suc p) c k = cell-set_self h p c (omega arith)

pub cell-set_ne : (h : Heap) (p q : ℕ) (c : Option Packet) → p ≢ q → cell (set h p c) q ≡ cell h q
cell-set_ne [] p q c ne = refl
cell-set_ne (x ∷ h) zero zero c ne = absurd (ne refl)
cell-set_ne (x ∷ h) zero (suc q) c ne = refl
cell-set_ne (x ∷ h) (suc p) zero c ne = refl
cell-set_ne (x ∷ h) (suc p) (suc q) c ne = cell-set_ne h p q c (λ e. ne (ap suc e))

pub set-set : (h : Heap) (p : ℕ) (c d : Option Packet) → set (set h p c) p d ≡ set h p d
set-set [] p c d = refl
set-set (x ∷ h) zero c d = refl
set-set (x ∷ h) (suc p) c d = ap (◌∷◌ x) (set-set h p c d)

pub set-cell : (h : Heap) (p : ℕ) (c : Option Packet) → cell h p ≡ c → p < length h → set h p c ≡ h
set-cell [] p c e k = refl
set-cell (x ∷ h) zero c e k = ap (λ (y : Option Packet). y ∷ h) (cc)
set-cell (x ∷ h) (suc p) c e k = ap (◌∷◌ x) (set-cell h p c e (omega arith))

pub live-lt : (h : Heap) (p : ℕ) (k : Packet) → cell h p ≡ some k → p < length h
live-lt [] p k e = cc
live-lt (x ∷ h) zero k e = omega arith
live-lt (x ∷ h) (suc p) k e = omega (arith, live-lt h p k e)

pub cell-append_old :
    (h : Heap) (c : Option Packet) (p : ℕ) → p < length h → cell (h ++ c ∷ []) p ≡ cell h p
cell-append_old [] c p k = absurd (omega arith)
cell-append_old (x ∷ h) c zero k = refl
cell-append_old (x ∷ h) c (suc p) k = cell-append_old h c p (omega arith)

pub cell-append_new : (h : Heap) (c : Option Packet) → cell (h ++ c ∷ []) (length h) ≡ c
cell-append_new [] c = refl
cell-append_new (x ∷ h) c = cell-append_new h c

pub cell-fresh : (h : Heap) → cell h (length h) ≡ none
cell-fresh [] = refl
cell-fresh (x ∷ h) = cell-fresh h

pub cell-append_past :
    (h : Heap) (c : Option Packet) (p : ℕ) → length h < p → cell (h ++ c ∷ []) p ≡ none
cell-append_past [] c zero k = absurd (omega arith)
cell-append_past [] c (suc p) k = refl
cell-append_past (x ∷ h) c zero k = absurd (omega arith)
cell-append_past (x ∷ h) c (suc p) k = cell-append_past h c p (omega arith)

pub cell-past : (h : Heap) (p : ℕ) → length h ≤ p → cell h p ≡ none
cell-past [] p k = refl
cell-past (x ∷ h) zero k = absurd (omega arith)
cell-past (x ∷ h) (suc p) k = cell-past h p (omega arith)

pub cell-append_ne :
    (h : Heap) (c : Option Packet) (q : ℕ) → length h ≢ q → cell (h ++ c ∷ []) q ≡ cell h q
cell-append_ne h c q ne = elim (dec_lt q (length h)) [
  | yes old ↦ cell-append_old h c q old
  | no past ↦ cell-append_past h c q (omega arith) ∙ sym (cell-past h q (omega arith))
]
