-- ===== src/Base/Lists.antt =====
-- Lists measured and indexed by native numbers: the C arrays and buffers of the models.
use Prim.Native.Nat.{ℕ, zero, suc, ◌+◌, ◌-◌, ◌<◌, ◌≤◌, min}
use mathlib.Core.Path.{◌≡◌, refl, ap, sym, ◌∙◌}
use mathlib.Core.Logic.{◌≢◌, ◌⊎◌, inl, inr}
use mathlib.Core.List.{List, [], ◌∷◌, ◌++◌, map, foldr, Perm}
use mathlib.Core.List.Perm.{foldr-eq}
use mathlib.Core.Option.{Option, none, some}
use native.Mathlib.Nat.{ℕ_set}
use native.Mathlib.Omega.{arith}

module _ {ℓ} {A : Type ℓ} where
  abbrev pub length : List A → ℕ
  length [] = 0
  length (x ∷ xs) = suc (length xs)

  abbrev pub get_elem? : List A → ℕ → Option A
  get_elem? [] i = none
  get_elem? (x ∷ xs) zero = some x
  get_elem? (x ∷ xs) (suc i) = get_elem? xs i

  abbrev pub get_or : List A → ℕ → A → A
  get_or [] i d = d
  get_or (x ∷ xs) zero d = x
  get_or (x ∷ xs) (suc i) d = get_or xs i d

  -- A write out of bounds changes nothing; the models test the bound first.
  abbrev pub set : List A → ℕ → A → List A
  set [] i v = []
  set (x ∷ xs) zero v = v ∷ xs
  set (x ∷ xs) (suc i) v = x ∷ set xs i v

  abbrev pub take : ℕ → List A → List A
  take zero xs = []
  take (suc n) [] = []
  take (suc n) (x ∷ xs) = x ∷ take n xs

  abbrev pub drop : ℕ → List A → List A
  drop zero xs = xs
  drop (suc n) [] = []
  drop (suc n) (x ∷ xs) = drop n xs

  abbrev pub replicate : ℕ → A → List A
  replicate zero a = []
  replicate (suc n) a = a ∷ replicate n a

module _ {ℓ} {A : Type ℓ} where
  pub length-append : (xs ys : List A) → length (xs ++ ys) ≡ length xs + length ys
  length-append [] ys = omega arith
  length-append (x ∷ xs) ys = omega (arith, length-append xs ys)

  pub length-set : (xs : List A) (i : ℕ) (v : A) → length (set xs i v) ≡ length xs
  length-set [] i v = refl
  length-set (x ∷ xs) zero v = refl
  length-set (x ∷ xs) (suc i) v = ap suc (length-set xs i v)

  pub length-take : (n : ℕ) (xs : List A) → length (take n xs) ≡ min n (length xs)
  length-take zero xs = omega arith
  length-take (suc n) [] = omega arith
  length-take (suc n) (x ∷ xs) = omega (arith, length-take n xs)

  pub length-drop : (n : ℕ) (xs : List A) → length (drop n xs) ≡ length xs - n
  length-drop zero xs = omega arith
  length-drop (suc n) [] = omega arith
  length-drop (suc n) (x ∷ xs) = omega (arith, length-drop n xs)

  pub length-replicate : (n : ℕ) (a : A) → length (replicate n a) ≡ n
  length-replicate zero a = refl
  length-replicate (suc n) a = ap suc (length-replicate n a)

  pub length-map {κ} : {B : Type κ} (f : A → B) (xs : List A) → length (map f xs) ≡ length xs
  length-map f [] = refl
  length-map f (x ∷ xs) = ap suc (length-map f xs)

  pub take-append-drop : (n : ℕ) (xs : List A) → take n xs ++ drop n xs ≡ xs
  take-append-drop zero xs = refl
  take-append-drop (suc n) [] = refl
  take-append-drop (suc n) (x ∷ xs) = ap (◌∷◌ x) (take-append-drop n xs)

  pub take-append : (n : ℕ) (xs ys : List A) → n ≡ length xs → take n (xs ++ ys) ≡ xs
  take-append zero [] ys h = refl
  take-append zero (x ∷ xs) ys h = absurd (omega arith)
  take-append (suc n) [] ys h = absurd (omega arith)
  take-append (suc n) (x ∷ xs) ys h = ap (◌∷◌ x) (take-append n xs ys (omega arith))

  pub drop-append : (n : ℕ) (xs ys : List A) → n ≡ length xs → drop n (xs ++ ys) ≡ ys
  drop-append zero [] ys h = refl
  drop-append zero (x ∷ xs) ys h = absurd (omega arith)
  drop-append (suc n) [] ys h = absurd (omega arith)
  drop-append (suc n) (x ∷ xs) ys h = drop-append n xs ys (omega arith)

  pub take_all : (n : ℕ) (xs : List A) → n ≡ length xs → take n xs ≡ xs
  take_all zero [] h = refl
  take_all zero (x ∷ xs) h = absurd (omega arith)
  take_all (suc n) [] h = refl
  take_all (suc n) (x ∷ xs) h = ap (◌∷◌ x) (take_all n xs (omega arith))

  pub get_elem?-eq-get_or :
      (xs : List A) (i : ℕ) (d : A) → i < length xs → get_elem? xs i ≡ some (get_or xs i d)
  get_elem?-eq-get_or [] i d h = absurd (omega arith)
  get_elem?-eq-get_or (x ∷ xs) zero d h = refl
  get_elem?-eq-get_or (x ∷ xs) (suc i) d h = get_elem?-eq-get_or xs i d (omega arith)

  pub get_elem?-append :
      (xs ys : List A) (i : ℕ) → i < length xs → get_elem? (xs ++ ys) i ≡ get_elem? xs i
  get_elem?-append [] ys i h = absurd (omega arith)
  get_elem?-append (x ∷ xs) ys zero h = refl
  get_elem?-append (x ∷ xs) ys (suc i) h = get_elem?-append xs ys i (omega arith)

  length-foldr : (xs : List A) → foldr (λ (x : A) (n : ℕ). suc n) 0 xs ≡ length xs
  length-foldr [] = refl
  length-foldr (x ∷ xs) = ap suc (length-foldr xs)

  pub length-perm : {xs ys : List A} → Perm xs ys → length xs ≡ length ys
  length-perm {xs} {ys} p =
      sym (length-foldr xs)
      ∙ foldr-eq ℕ_set (λ (x : A) (n : ℕ). suc n) (λ x y n. refl) p 0
      ∙ length-foldr ys

pub get_or-set_same {ℓ} :
    {A : Type ℓ} (a : List A) (i : ℕ) (v d : A) → i < length a → get_or (set a i v) i d ≡ v
get_or-set_same [] i v d h = absurd (omega arith)
get_or-set_same (x ∷ a) zero v d h = refl
get_or-set_same (x ∷ a) (suc i) v d h = get_or-set_same a i v d (omega arith)

pub get_or-set_other {ℓ} :
    {A : Type ℓ} (a : List A) (i j : ℕ) (v d : A) → i ≢ j → get_or (set a i v) j d ≡ get_or a j d
get_or-set_other [] i j v d h = refl
get_or-set_other (x ∷ a) zero zero v d h = absurd (h refl)
get_or-set_other (x ∷ a) zero (suc j) v d h = refl
get_or-set_other (x ∷ a) (suc i) zero v d h = refl
get_or-set_other (x ∷ a) (suc i) (suc j) v d h = get_or-set_other a i j v d (λ e. h (ap suc e))

pub get_or-append {ℓ} :
    {A : Type ℓ} (a b : List A) (i : ℕ) (d : A) → i < length a → get_or (a ++ b) i d ≡ get_or a i d
get_or-append [] b i d h = absurd (omega arith)
get_or-append (x ∷ a) b zero d h = refl
get_or-append (x ∷ a) b (suc i) d h = get_or-append a b i d (omega arith)

pub get_or-append_last {ℓ} :
    {A : Type ℓ} (a : List A) (v d : A) → get_or (a ++ v ∷ []) (length a) d ≡ v
get_or-append_last [] v d = refl
get_or-append_last (x ∷ a) v d = get_or-append_last a v d

-- A predicate on every entry, which computes to tuples.
abbrev pub All {ℓ κ} : {A : Type ℓ} → (A → Type κ) → List A → Type κ
All P [] = Unit
All P (x ∷ xs) = P x × All P xs

pub All-append {ℓ κ} :
    {A : Type ℓ} (P : A → Type κ) (xs ys : List A) → All P xs → All P ys → All P (xs ++ ys)
All-append P [] ys h k = k
All-append P (x ∷ xs) ys h k = (h.0, All-append P xs ys h.1 k)

pub All-take {ℓ κ} :
    {A : Type ℓ} (P : A → Type κ) (n : ℕ) (xs : List A) → All P xs → All P (take n xs)
All-take P zero xs h = tt
All-take P (suc n) [] h = tt
All-take P (suc n) (x ∷ xs) h = (h.0, All-take P n xs h.1)

pub All-drop {ℓ κ} :
    {A : Type ℓ} (P : A → Type κ) (n : ℕ) (xs : List A) → All P xs → All P (drop n xs)
All-drop P zero xs h = h
All-drop P (suc n) [] h = tt
All-drop P (suc n) (x ∷ xs) h = All-drop P n xs h.1

abbrev pub IsByte : ℕ → Type 0
IsByte b = b < 256

abbrev pub IsBytes : List ℕ → Type 0
IsBytes bs = All IsByte bs

pub take-nil : (n : ℕ) → take {A = ℕ} n [] ≡ []
take-nil zero = refl
take-nil (suc n) = refl

pub take-split : (n m : ℕ) (xs : List ℕ) → m ≤ n → take n xs ≡ take m xs ++ take (n - m) (drop m xs)
take-split n zero xs h = let e : n - 0 ≡ n = omega arith in rw e
take-split zero (suc m) xs h = absurd (omega arith)
take-split (suc n) (suc m) [] h = sym (take-nil (suc n - suc m))
take-split (suc n) (suc m) (x ∷ xs) h =
    let e : suc n - suc m ≡ n - m = omega arith in
    rw e (ap (◌∷◌ x) (take-split n m xs (omega arith)))

-- A prefix of `xs ++ e ∷ ys` ends before the `e`, or holds it.
pub chunk_cases :
    (m : ℕ) (xs ys : List ℕ) (e : ℕ)
    → ((m ≤ length xs)
        × (take m (xs ++ e ∷ ys) ≡ take m xs)
        × (drop m (xs ++ e ∷ ys) ≡ drop m xs ++ e ∷ ys))
      ⊎ ((zs : List ℕ) × (take m (xs ++ e ∷ ys) ≡ xs ++ e ∷ zs))
chunk_cases zero xs ys e = inl (omega arith, refl, refl)
chunk_cases (suc m) [] ys e = inr (take m ys, refl)
chunk_cases (suc m) (x ∷ xs) ys e = elim (chunk_cases m xs ys e) [
  | inl (h, p, q) ↦ inl (omega arith, ap (◌∷◌ x) p, q)
  | inr (zs, p) ↦ inr (zs, ap (◌∷◌ x) p)
]
