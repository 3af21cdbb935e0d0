-- ===== src/Memory/Finishes.antt =====
-- What never runs out of fuel, wherever it starts, and what holds of the result when it returns.
use erlxsl.Prelude.{
  ◌≡◌, refl, Bool, true, false, if◌then◌else◌, Option, none, some, ◌==◌, Bool-cases, Option-cases,
  inl, inr,
}
use erlxsl.Types.{Ptr}
use erlxsl.Memory.{
  World, Block, Fault, Outcome, ok, fault, M, pure, throw, lift, defined, after_step, ◌>>=◌,
  driver_alloc, drv_free, load, store, out_of_fuel,
}

abbrev pub is_out_of_fuel : Fault → Bool
is_out_of_fuel out_of_fuel = true
is_out_of_fuel _ = false

-- The run did not end for want of fuel, and what it returned satisfies `P`.
abbrev pub Finished : {A : Type 0} → (A → Type 0) → Outcome (A × World) → Type 0
Finished P (ok (a, w)) = P a
Finished P (fault e) = is_out_of_fuel e ≡ false

pub record Finishes {A : Type 0} (P : A → Type 0) (m : M A) : Type 0 where
  pub at : (w : World) → Finished P (m w)

-- With nothing said of the result.
abbrev pub Ends : {A : Type 0} → M A → Type 0
Ends m = Finishes (λ a. Unit {0}) m

abbrev pub EndedWell : {A : Type 0} → Outcome A → Type 0
EndedWell (ok a) = Unit
EndedWell (fault e) = is_out_of_fuel e ≡ false

module _ {A : Type 0} where
  pub Finishes-pure : {P : A → Type 0} (a : A) → P a → Finishes P (pure a)
  Finishes-pure a p = record { at = λ w. p }

  pub Finishes-throw :
      {P : A → Type 0} (f : Fault) → is_out_of_fuel f ≡ false → Finishes P (throw f)
  Finishes-throw f e = record { at = λ w. e }

  pub Finishes-if :
      {P : A → Type 0} (b : Bool) (m n : M A)
      → Finishes P m
      → Finishes P n
      → Finishes P (if b then m else n)
  Finishes-if true m n km kn = km
  Finishes-if false m n km kn = kn

  pub Ends-defined : (o : Option A) → Ends (defined o)
  Ends-defined none = Finishes-throw _ refl
  Ends-defined (some a) = Finishes-pure a tt

  pub Ends-lift : (o : Outcome A) → EndedWell o → Ends (lift o)
  Ends-lift (ok a) h = Finishes-pure a tt
  Ends-lift (fault e) h = Finishes-throw e h

module _ {A B : Type 0} {P : A → Type 0} {Q : B → Type 0} (m : M A) (f : A → M B) where
  pub Finishes-bind : Finishes P m → ((a : A) → P a → Finishes Q (f a)) → Finishes Q (m >>= f)
  Finishes-bind km kf = record { at = λ w. after (m w) (km.at w) }
    where
      after : (o : Outcome (A × World)) → Finished P o → Finished Q (after_step o f)
      after (fault e) h = h
      after (ok (a, v)) h = (kf a h).at v

module _ {A B : Type 0} {Q : B → Type 0} (m : M A) (f : A → M B) where
  pub Finishes-after : Ends m → ((a : A) → Finishes Q (f a)) → Finishes Q (m >>= f)
  Finishes-after km kf = Finishes-bind m f km (λ a h. kf a)

pub Ends-driver_alloc : (b : Block) → Ends (driver_alloc b)
unfolding driver_alloc
Ends-driver_alloc b = record {
  at = λ w. elim (Bool-cases (w.grants w.next)) [ inl g ↦ rw g tt | inr g ↦ rw g tt ];
}

pub Ends-load : {A : Type 0} (view : Block → Option A) (p : Ptr) → Ends (load view p)
unfolding load
Ends-load view p = record {
  at = λ w. elim (Option-cases (w.cells p)) [
    | inl h ↦ rw h refl
    | inr (b, h) ↦ elim (Option-cases (view b)) [
      | inl v ↦ rw (h, v) refl
      | inr (a, v) ↦ rw (h, v) tt
    ]
  ];
}

pub Ends-store : (p : Ptr) (b : Block) → Ends (store p b)
unfolding store
Ends-store p b = record {
  at = λ w. elim (Option-cases (w.cells p)) [ inl h ↦ rw h refl | inr (old, h) ↦ rw h tt ];
}

pub Ends-drv_free : (p : Ptr) → Ends (drv_free p)
unfolding drv_free
Ends-drv_free p = record {
  at = λ w. elim (Bool-cases (p == 0)) [
    | inl z ↦ rw z tt
    | inr nz ↦ elim (Option-cases (w.cells p)) [
      | inl h ↦ rw (nz, h) refl
      | inr (b, h) ↦ rw (nz, h) tt
    ]
  ];
}

pub ruleset ends_rules = (
  Finishes-pure, Finishes-throw, Finishes-if, Finishes-after, Ends-defined, Ends-lift,
  Ends-driver_alloc, Ends-drv_free, Ends-load, Ends-store,
)
