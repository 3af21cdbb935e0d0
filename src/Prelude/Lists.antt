-- ===== src/Prelude/Lists.antt =====
-- Lists measured by native numbers, and predicates on lists by recursion.
use Prim.Native.Nat.{◌≤◌, ℕ, zero, suc, ◌+◌, ◌-◌}
use mathlib.Core.Path.{◌≡◌, refl, ap}
use mathlib.Core.Logic.{◌≢◌}
use mathlib.Core.List.{List, [], ◌∷◌, ◌++◌}
use mathlib.Core.Option.{Option, none, some}
use native.Mathlib.Omega.{arith}

module _ {ℓ} {A : Type ℓ} where
  abbrev pub length : List A → ℕ
  length [] = 0
  length (x ∷ xs) = suc (length xs)

  abbrev pub take : ℕ → List A → List A
  take zero xs = []
  take (suc n) [] = []
  take (suc n) (x ∷ xs) = x ∷ take n xs

  abbrev pub drop : ℕ → List A → List A
  drop zero xs = xs
  drop (suc n) [] = []
  drop (suc n) (x ∷ xs) = drop n xs

  abbrev pub replicate : ℕ → A → List A
  replicate zero a = []
  replicate (suc n) a = a ∷ replicate n a

  abbrev pub get_elem? : List A → ℕ → Option A
  get_elem? [] i = none
  get_elem? (x ∷ xs) zero = some x
  get_elem? (x ∷ xs) (suc i) = get_elem? xs i

  -- A write out of bounds changes nothing.
  abbrev pub set : List A → ℕ → A → List A
  set [] i v = []
  set (x ∷ xs) zero v = v ∷ xs
  set (x ∷ xs) (suc i) v = x ∷ set xs i v

  pub length-append : (xs ys : List A) → length (xs ++ ys) ≡ length xs + length ys
  length-append [] ys = omega arith
  length-append (x ∷ xs) ys = omega (arith, length-append xs ys)

  pub length-drop : (n : ℕ) (xs : List A) → length (drop n xs) ≡ length xs - n
  length-drop zero xs = omega arith
  length-drop (suc n) [] = omega arith
  length-drop (suc n) (x ∷ xs) = omega (arith, length-drop n xs)

  pub length-replicate : (n : ℕ) (a : A) → length (replicate n a) ≡ n
  length-replicate zero a = refl
  length-replicate (suc n) a = ap suc (length-replicate n a)

  pub take-all : (n : ℕ) (xs : List A) → length xs ≤ n → take n xs ≡ xs
  take-all zero [] h = refl
  take-all zero (x ∷ xs) h = absurd (omega arith)
  take-all (suc n) [] h = refl
  take-all (suc n) (x ∷ xs) h = ap (λ ys. x ∷ ys) (take-all n xs (omega arith))

  -- Writing behind a list's elements.
  pub set-append : (xs : List A) (a b : A) → set (xs ++ a ∷ []) (length xs) b ≡ xs ++ b ∷ []
  set-append [] a b = refl
  set-append (x ∷ xs) a b = ap (λ ys. x ∷ ys) (set-append xs a b)

  -- A predicate holds of every element.
  abbrev pub All {κ} : (A → Type κ) → List A → Type κ
  All P [] = Unit
  All P (x ∷ xs) = P x × All P xs

  pub All-append {κ} : (P : A → Type κ) (xs ys : List A) → All P xs → All P ys → All P (xs ++ ys)
  All-append P [] ys h k = k
  All-append P (x ∷ xs) ys h k = (h.0, All-append P xs ys h.1 k)

  pub All-append_left {κ} : (P : A → Type κ) (xs ys : List A) → All P (xs ++ ys) → All P xs
  All-append_left P [] ys h = tt
  All-append_left P (x ∷ xs) ys h = (h.0, All-append_left P xs ys h.1)

  pub All-append_right {κ} : (P : A → Type κ) (xs ys : List A) → All P (xs ++ ys) → All P ys
  All-append_right P [] ys h = h
  All-append_right P (x ∷ xs) ys h = All-append_right P xs ys h.1

  pub All-map {κ κ'} :
      (P : A → Type κ) (Q : A → Type κ') (xs : List A) → ((a : A) → P a → Q a) → All P xs → All Q xs
  All-map P Q [] f h = tt
  All-map P Q (x ∷ xs) f h = (f x h.0, All-map P Q xs f h.1)

-- No number stands twice.
abbrev pub Distinct : List ℕ → Type 0
Distinct [] = Unit
Distinct (p ∷ ps) = All (λ q. p ≢ q) ps × Distinct ps

-- No number of the first list stands in the second.
abbrev pub Apart : List ℕ → List ℕ → Type 0
Apart ps qs = All (λ p. All (λ q. p ≢ q) qs) ps

pub Distinct-append_left : (ps qs : List ℕ) → Distinct (ps ++ qs) → Distinct ps
Distinct-append_left [] qs d = tt
Distinct-append_left (p ∷ ps) qs d = (All-append_left _ ps qs d.0, Distinct-append_left ps qs d.1)

pub Distinct-append_right : (ps qs : List ℕ) → Distinct (ps ++ qs) → Distinct qs
Distinct-append_right [] qs d = d
Distinct-append_right (p ∷ ps) qs d = Distinct-append_right ps qs d.1

pub Distinct-Apart : (ps qs : List ℕ) → Distinct (ps ++ qs) → Apart ps qs
Distinct-Apart [] qs d = tt
Distinct-Apart (p ∷ ps) qs d = (All-append_right _ ps qs d.0, Distinct-Apart ps qs d.1)

pub Apart-head : (ps : List ℕ) (q : ℕ) (qs : List ℕ) → Apart ps (q ∷ qs) → All (λ p. p ≢ q) ps
Apart-head [] q qs a = tt
Apart-head (p ∷ ps) q qs a = (a.0.0, Apart-head ps q qs a.1)

-- What is apart from a list is apart from the end of it.
pub Apart-append_right : (ps qs rs : List ℕ) → Apart ps (qs ++ rs) → Apart ps rs
Apart-append_right [] qs rs a = tt
Apart-append_right (p ∷ ps) qs rs a =
    (All-append_right _ qs rs a.0, Apart-append_right ps qs rs a.1)

pub Apart-append_left : (ps qs rs : List ℕ) → Apart ps (qs ++ rs) → Apart ps qs
Apart-append_left [] qs rs a = tt
Apart-append_left (p ∷ ps) qs rs a = (All-append_left _ qs rs a.0, Apart-append_left ps qs rs a.1)
