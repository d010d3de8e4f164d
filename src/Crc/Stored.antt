-- ===== src/Crc/Stored.antt =====
-- radio2/src/crc.c: crc16_set and crc16_check on a buffer that is long enough.
use native.Mathlib.Nat.{le_refl}
use mathlib.Core.Path.{subst}
use old_radio.Base.{
  ℕ, zero, suc, ◌+◌, ◌-◌, ◌*◌, ◌/◌, ◌%◌, ◌^◌, ◌≤◌, ◌<◌, ◌≡◌, refl, sym, ap, ◌∙◌, arith, true, false,
  List, [], ◌∷◌, length, take, set, get_or, get_elem?, none, ltb, leb, ◌==◌, dec_lt, IsBytes,
  length-set, get_elem?-eq-get_or, if◌then◌else◌,
}
use old_radio.Base.Run.{ok, abort, fault}
use old_radio.Crc.{crc16_set, crc16_check}
use old_radio.Crc.Loop.{fold, crc16-fold, crc16-overrun, fold-lt}

pub take-set : (xs : List ℕ) (n i v : ℕ) → n ≤ i → take n (set xs i v) ≡ take n xs
take-set xs zero i v h = refl
take-set [] (suc n) i v h = refl
take-set (x ∷ xs) (suc n) zero v h = absurd (omega arith)
take-set (x ∷ xs) (suc n) (suc i) v h = ap (◌∷◌ x) (take-set xs n i v (omega arith))

pub get_or-set :
    (xs : List ℕ) (i j v : ℕ)
    → i < length xs
    → get_or (set xs i v) j 0 ≡ (if i == j then v else get_or xs j 0)
get_or-set [] i j v h = absurd (omega arith)
get_or-set (x ∷ xs) zero zero v h = refl
get_or-set (x ∷ xs) zero (suc j) v h = ground arith
get_or-set (x ∷ xs) (suc i) zero v h = ground arith
get_or-set (x ∷ xs) (suc i) (suc j) v h = ground (arith, get_or-set xs i j v)

get_elem?-overrun : (xs : List ℕ) (i : ℕ) → length xs ≤ i → get_elem? xs i ≡ none
get_elem?-overrun [] i h = refl
get_elem?-overrun (x ∷ xs) zero h = absurd (omega arith)
get_elem?-overrun (x ∷ xs) (suc i) h = get_elem?-overrun xs i (omega arith)

-- What the check compares, in a buffer of at least `nbyt` bytes.
unfoldable pub stored : List ℕ → ℕ → ℕ
stored bytes nbyt = get_or bytes (nbyt - 2) 0 + get_or bytes (nbyt - 1) 0 * 2 ^ 8

pub crc16_check-eq :
    (bytes : List ℕ) (nbyt : ℕ)
    → 2 ≤ nbyt
    → nbyt ≤ length bytes
    → crc16_check bytes nbyt
      ≡ ok (fold 0xffff (take (nbyt - 2) bytes) == stored bytes nbyt % 2 ^ 16)
unfolding crc16_check stored
crc16_check-eq bytes nbyt h k =
    let low = get_elem?-eq-get_or bytes (nbyt - 2) 0 (omega arith) in
    let high = get_elem?-eq-get_or bytes (nbyt - 1) 0 (omega arith) in
    let enough : ltb nbyt 2 ≡ false = ground arith in
    rw (enough, crc16-fold bytes (nbyt - 2) (omega arith), low, high)

-- The buffer that crc16_set leaves.
pub sealed_buffer : List ℕ → ℕ → List ℕ
sealed_buffer bytes nbyt =
    let crc = fold 0xffff (take (nbyt - 2) bytes) in
    set (set bytes (nbyt - 2) (crc % 2 ^ 8)) (nbyt - 1) (crc / 2 ^ 8)

pub crc16_set-eq :
    (bytes : List ℕ) (nbyt : ℕ)
    → 2 ≤ nbyt
    → nbyt ≤ length bytes
    → crc16_set bytes nbyt ≡ ok (sealed_buffer bytes nbyt)
unfolding crc16_set sealed_buffer
crc16_set-eq bytes nbyt h k =
    let crc = fold 0xffff (take (nbyt - 2) bytes) in
    let enough : leb 2 nbyt ≡ true = ground arith in
    let first : ltb (nbyt - 2) (length bytes) ≡ true = ground arith in
    let second : ltb (nbyt - 1) (length (set bytes (nbyt - 2) (crc % 2 ^ 8))) ≡ true =
      rw (length-set bytes (nbyt - 2) (crc % 2 ^ 8)) (ground arith) in
    rw (enough, crc16-fold bytes (nbyt - 2) (omega arith), first, second)

pub set-IsBytes : (bytes : List ℕ) (i v : ℕ) → IsBytes bytes → v < 256 → IsBytes (set bytes i v)
set-IsBytes [] i v h hv = tt
set-IsBytes (b ∷ bytes) zero v h hv = (hv, h.1)
set-IsBytes (b ∷ bytes) (suc i) v h hv = (h.0, set-IsBytes bytes i v h.1 hv)

sealed_buffer-IsBytes :
    (bytes : List ℕ) (nbyt : ℕ) → IsBytes bytes → IsBytes (sealed_buffer bytes nbyt)
unfolding sealed_buffer
sealed_buffer-IsBytes bytes nbyt h =
    let crc = fold 0xffff (take (nbyt - 2) bytes) in
    let low = set-IsBytes bytes (nbyt - 2) (crc % 2 ^ 8) h (omega arith) in
    set-IsBytes (set bytes (nbyt - 2) (crc % 2 ^ 8)) (nbyt - 1) (crc / 2 ^ 8) low
      (omega (arith, fold-lt 0xffff (take (nbyt - 2) bytes) (omega arith)))

-- crc16_set keeps the buffer one of bytes.
pub crc16_set-IsBytes :
    (bytes out : List ℕ) (nbyt : ℕ)
    → 2 ≤ nbyt
    → nbyt ≤ length bytes
    → IsBytes bytes
    → crc16_set bytes nbyt ≡ ok out
    → IsBytes out
crc16_set-IsBytes bytes out nbyt h k bs e =
    subst IsBytes (ok_inj (sym (crc16_set-eq bytes nbyt h k) ∙ e))
      (sealed_buffer-IsBytes bytes nbyt bs)
  where
    ok_inj : {x y : List ℕ} → ok x ≡ ok y → x ≡ y
    ok_inj p = cc

get_or-take : (n : ℕ) (xs : List ℕ) (i : ℕ) → i < n → get_or (take n xs) i 0 ≡ get_or xs i 0
get_or-take zero xs i h = absurd (omega arith)
get_or-take (suc n) [] i h = refl
get_or-take (suc n) (x ∷ xs) zero h = refl
get_or-take (suc n) (x ∷ xs) (suc i) h = get_or-take n xs i (omega arith)

pub take-take : (m n : ℕ) (xs : List ℕ) → m ≤ n → take m (take n xs) ≡ take m xs
take-take zero n xs h = refl
take-take (suc m) zero xs h = absurd (omega arith)
take-take (suc m) (suc n) [] h = refl
take-take (suc m) (suc n) (x ∷ xs) h = ap (◌∷◌ x) (take-take m n xs (omega arith))

-- crc16_check looks at the first `nbyt` bytes only.
pub crc16_check-take :
    (xs ys : List ℕ) (nbyt : ℕ)
    → 2 ≤ nbyt
    → nbyt ≤ length xs
    → nbyt ≤ length ys
    → take nbyt xs ≡ take nbyt ys
    → crc16_check xs nbyt ≡ crc16_check ys nbyt
unfolding stored
crc16_check-take xs ys nbyt h k l e =
    let part : take (nbyt - 2) xs ≡ take (nbyt - 2) ys =
      sym (take-take (nbyt - 2) nbyt xs (omega arith))
      ∙ ap (take (nbyt - 2)) e
      ∙ take-take (nbyt - 2) nbyt ys (omega arith) in
    let entry : (i : ℕ) → i < nbyt → get_or xs i 0 ≡ get_or ys i 0 = λ i p.
      sym (get_or-take nbyt xs i p)
      ∙ ap (λ (zs : List ℕ). get_or zs i 0) e
      ∙ get_or-take nbyt ys i p in
    crc16_check-eq xs nbyt h k
    ∙ rw (part, entry (nbyt - 2) (omega arith), entry (nbyt - 1) (omega arith)) refl
    ∙ sym (crc16_check-eq ys nbyt h l)

-- On a buffer of at least `nbyt` bytes, `nbyt` at least two, crc16_set returns. It changes nothing
-- before the last two of the `nbyt` bytes, keeps the buffer's length, and crc16_check accepts.
pub crc16_check-crc16_set :
    (bytes : List ℕ) (nbyt : ℕ)
    → 2 ≤ nbyt
    → nbyt ≤ length bytes
    → (out : List ℕ) × (crc16_set bytes nbyt ≡ ok out)
      × (take (nbyt - 2) out ≡ take (nbyt - 2) bytes)
      × (length out ≡ length bytes)
      × (crc16_check out nbyt ≡ ok true)
unfolding sealed_buffer stored
crc16_check-crc16_set bytes nbyt h k =
    let crc = fold 0xffff (take (nbyt - 2) bytes) in
    let once = set bytes (nbyt - 2) (crc % 2 ^ 8) in
    let size : length once ≡ length bytes = length-set bytes (nbyt - 2) (crc % 2 ^ 8) in
    let same : take (nbyt - 2) (sealed_buffer bytes nbyt) ≡ take (nbyt - 2) bytes =
      take-set once (nbyt - 2) (nbyt - 1) (crc / 2 ^ 8) (omega arith)
      ∙ take-set bytes (nbyt - 2) (nbyt - 2) (crc % 2 ^ 8) (le_refl _) in
    let long : length (sealed_buffer bytes nbyt) ≡ length bytes =
      length-set once (nbyt - 1) (crc / 2 ^ 8) ∙ size in
    (
      sealed_buffer bytes nbyt,
      crc16_set-eq bytes nbyt h k,
      same,
      long,
      crc16_check-eq (sealed_buffer bytes nbyt) nbyt h (omega arith)
          ∙ ap ok (
              rw same (
                ground (
                  arith,
                  size,
                  fold-lt 0xffff (take (nbyt - 2) bytes) (omega arith),
                  get_or-set once (nbyt - 1) (nbyt - 2) (crc / 2 ^ 8),
                  get_or-set once (nbyt - 1) (nbyt - 1) (crc / 2 ^ 8),
                  get_or-set bytes (nbyt - 2) (nbyt - 2) (crc % 2 ^ 8),
                ))),
    )

-- Fewer than two bytes: crc16_set aborts and crc16_check refuses, without reading the buffer.
pub crc16-short :
    (bytes : List ℕ) (nbyt : ℕ)
    → nbyt < 2
    → (crc16_set bytes nbyt ≡ abort) × (crc16_check bytes nbyt ≡ ok false)
unfolding crc16_set crc16_check
crc16-short bytes nbyt h = ground arith

-- A buffer shorter than the `nbyt` bytes that crc16_check is told of is read past its end.
pub crc16_check-overrun :
    (bytes : List ℕ) (nbyt : ℕ) → 2 ≤ nbyt → length bytes < nbyt → crc16_check bytes nbyt ≡ fault
unfolding crc16_check
crc16_check-overrun bytes nbyt h k =
    let enough : ltb nbyt 2 ≡ false = ground arith in
    elim (dec_lt (length bytes) (nbyt - 2)) [
      | yes far ↦ rw (enough, crc16-overrun bytes (nbyt - 2) far)
      | no near ↦
          rw
            (
              enough,
              crc16-fold bytes (nbyt - 2) (omega arith),
              get_elem?-overrun bytes (nbyt - 1) (omega arith),
            )
            (ground arith)
    ]
