-- ===== src/Memory/Keeps.antt =====
-- What every function of the driver keeps, whatever it is called with: one rule for each way to build
-- a function of the monad.
use erlxsl.Prelude.{
  ℕ, ◌+◌, ◌≤◌, ◌≡◌, refl, sym, subst, ap, ◌∙◌, length, length-append, Bool, true, false, List, [],
  ◌∷◌, ◌++◌, append-nil, append_assoc, Option, none, some, arith, if◌then◌else◌, ◌==◌, Bool-cases,
  inl, inr, Option-cases,
}
use erlxsl.Types.{Ptr}
use erlxsl.Memory.{
  World, Cells, Block, Fault, Event, Outcome, ok, fault, M, pure, throw, lift, after_step, ◌>>=◌,
  driver_alloc, drv_free, load, store, emit, defined,
}
use erlxsl.Memory.WellFormed.{
  WellFormed, granted-WellFormed, refused-WellFormed, stored-WellFormed, freed-WellFormed,
}

-- A later world: still well formed, no address is handed out again, the allocator's answers are the
-- same, and the emulator was asked for at most `k` more things.
pub record Grows (k : ℕ) (w w' : World) : Type 0 where
  pub wf : WellFormed w'
  pub order : w.next ≤ w'.next
  pub same_grants : w'.grants ≡ w.grants
  pub added : List Event
  pub few : length added ≤ k
  pub events : w'.events ≡ w.events ++ added

pub Grows-self : (w : World) → WellFormed w → {k : ℕ} → Grows k w w
Grows-self w wf = record {
  wf = wf;
  order = omega arith;
  same_grants = refl;
  added = [];
  few = omega arith;
  events = sym (append-nil w.events);
}

pub Grows-trans : {j k : ℕ} (u v w : World) → Grows j u v → Grows k v w → Grows (j + k) u w
Grows-trans u v w g h = record {
  wf = h.wf;
  order = omega (arith, g.order, h.order);
  same_grants = h.same_grants ∙ g.same_grants;
  added = g.added ++ h.added;
  few = omega (arith, g.few, h.few, length-append g.added h.added);
  events = h.events ∙ ap (λ es. es ++ h.added) g.events ∙ append_assoc u.events g.added h.added;
}

-- What holds of a run's end, unless it is a fault.
abbrev pub Holds : {A : Type 0} → (World → Type 0) → Outcome (A × World) → Type 0
Holds R (ok (a, w)) = R w
Holds R (fault e) = Unit

-- Whenever `m` returns, the world has grown, with at most `k` events.
pub record Keeps {A : Type 0} (k : ℕ) (m : M A) : Type 0 where
  pub at : (w : World) → WellFormed w → Holds (Grows k w) (m w)

abbrev pub Quiet : {A : Type 0} → M A → Type 0
Quiet m = Keeps 0 m

abbrev pub AsksOnce : {A : Type 0} → M A → Type 0
AsksOnce m = Keeps 1 m

pub Keeps-run :
    {A : Type 0} {k : ℕ} {m : M A}
    → Keeps k m
    → (w w' : World) (a : A) → WellFormed w
    → m w ≡ ok (a, w')
    → Grows k w w'
Keeps-run {k = k} h w w' a wf e = subst (Holds (Grows k w)) e (h.at w wf)

module _ {A : Type 0} where
  pub Keeps-pure : (k : ℕ) (a : A) → Keeps k (pure a)
  Keeps-pure k a = record { at = λ w wf. Grows-self w wf }

  pub Keeps-throw : (k : ℕ) (f : Fault) → Keeps {A = A} k (throw f)
  Keeps-throw k f = record { at = λ w wf. tt }

  pub Keeps-lift : (o : Outcome A) → Quiet (lift o)
  Keeps-lift (ok a) = Keeps-pure 0 a
  Keeps-lift (fault e) = Keeps-throw 0 e

  pub Keeps-defined : (o : Option A) → Quiet (defined o)
  Keeps-defined none = Keeps-throw 0 _
  Keeps-defined (some a) = Keeps-pure 0 a

  pub Keeps-if :
      (k : ℕ) (b : Bool) (m n : M A) → Keeps k m → Keeps k n → Keeps k (if b then m else n)
  Keeps-if k true m n km kn = km
  Keeps-if k false m n km kn = kn

module _ {A B : Type 0} (j k : ℕ) where
  Holds-after :
      (f : A → M B) (u : World) (o : Outcome (A × World))
      → Holds (Grows j u) o
      → ((a : A) → Keeps k (f a))
      → Holds (Grows (j + k) u) (after_step o f)
  Holds-after f u (fault e) h kf = tt
  Holds-after f u (ok (a, v)) g kf = widen (f a v) ((kf a).at v g.wf)
    where
      widen : (o : Outcome (B × World)) → Holds (Grows k v) o → Holds (Grows (j + k) u) o
      widen (fault e) h = tt
      widen (ok (b, x)) h = Grows-trans u v x g h

  pub Keeps-bind :
      (m : M A) (f : A → M B) → Keeps j m → ((a : A) → Keeps k (f a)) → Keeps (j + k) (m >>= f)
  Keeps-bind m f km kf = record { at = λ w wf. Holds-after f w (m w) (km.at w wf) kf }

-- A world with other cells, whose next address is no lower.
grown :
    (n : ℕ) (f : Cells) (w : World)
    → WellFormed (record w { next = n; cells = f })
    → w.next ≤ n
    → Grows 0 w (record w { next = n; cells = f })
grown n f w wf h = record {
  wf = wf;
  order = h;
  same_grants = refl;
  added = [];
  few = omega arith;
  events = sym (append-nil w.events);
}

pub Keeps-driver_alloc : (b : Block) → Quiet (driver_alloc b)
unfolding driver_alloc
Keeps-driver_alloc b = record {
  at = λ w wf. elim (Bool-cases (w.grants w.next)) [
    | inl g ↦ rw g (grown _ _ w (granted-WellFormed b w wf) (omega arith))
    | inr g ↦ rw g (grown _ _ w (refused-WellFormed w wf) (omega arith))
  ];
}

pub Keeps-drv_free : (p : Ptr) → Quiet (drv_free p)
unfolding drv_free
Keeps-drv_free p = record {
  at = λ w wf. elim (Bool-cases (p == 0)) [
    | inl z ↦ rw z (Grows-self w wf)
    | inr nz ↦ elim (Option-cases (w.cells p)) [
      | inl h ↦ rw (nz, h) tt
      | inr (b, h) ↦ rw (nz, h) (grown _ _ w (freed-WellFormed p w wf) (omega arith))
    ]
  ];
}

pub Keeps-load : {A : Type 0} (view : Block → Option A) (p : Ptr) → Quiet (load view p)
unfolding load
Keeps-load view p = record {
  at = λ w wf. elim (Option-cases (w.cells p)) [
    | inl h ↦ rw h tt
    | inr (b, h) ↦ elim (Option-cases (view b)) [
      | inl v ↦ rw (h, v) tt
      | inr (a, v) ↦ rw (h, v) (Grows-self w wf)
    ]
  ];
}

pub Keeps-store : (p : Ptr) (b : Block) → Quiet (store p b)
unfolding store
Keeps-store p b = record {
  at = λ w wf. elim (Option-cases (w.cells p)) [
    | inl h ↦ rw h tt
    | inr (old, h) ↦ rw h (grown _ _ w (stored-WellFormed p b old w wf h) (omega arith))
  ];
}

pub Keeps-emit : (e : Event) → AsksOnce (emit e)
Keeps-emit e = record {
  at = λ w wf. record {
    wf = record { null_free = wf.null_free; started = wf.started; fresh = wf.fresh };
    order = omega arith;
    same_grants = refl;
    added = e ∷ [];
    few = omega arith;
    events = refl;
  };
}

Grows-more : (w v : World) → Grows 0 w v → Grows 1 w v
Grows-more w v g = record {
  wf = g.wf;
  order = g.order;
  same_grants = g.same_grants;
  added = g.added;
  few = omega (arith, g.few);
  events = g.events;
}

-- Who asks for nothing asks at most once.
pub Quiet-AsksOnce : {A : Type 0} {m : M A} → Quiet m → AsksOnce m
Quiet-AsksOnce {A} {m} h = record { at = λ w wf. more w (m w) (h.at w wf) }
  where
    more : (w : World) (o : Outcome (A × World)) → Holds (Grows 0 w) o → Holds (Grows 1 w) o
    more w (fault e) g = tt
    more w (ok (a, v)) g = Grows-more w v g

-- The rules for functions that ask for nothing, and for those that ask once.
module _ {A B : Type 0} (m : M A) (f : A → M B) where
  pub Quiet-bind : Quiet m → ((a : A) → Quiet (f a)) → Quiet (m >>= f)
  Quiet-bind km kf = Keeps-bind 0 0 m f km kf

  pub AsksOnce-then : Quiet m → ((a : A) → AsksOnce (f a)) → AsksOnce (m >>= f)
  AsksOnce-then km kf = Keeps-bind 0 1 m f km kf

  pub AsksOnce-before : AsksOnce m → ((a : A) → Quiet (f a)) → AsksOnce (m >>= f)
  AsksOnce-before km kf = Keeps-bind 1 0 m f km kf

pub ruleset keeps_rules = (
  Keeps-pure, Keeps-throw, Keeps-if, Keeps-lift, Keeps-defined, Quiet-bind, Keeps-driver_alloc,
  Keeps-drv_free, Keeps-load, Keeps-store,
)

pub ruleset asks_rules = (keeps_rules, AsksOnce-then, AsksOnce-before, Keeps-emit)
