-- ===== src/Memory/Steps.antt =====
-- What one access to memory does, case by case.
use erlxsl.Prelude.{◌+◌, ◌≡◌, ◌≢◌, refl, Option, none, some, true, false, eqb_ne, ◌⊎◌, inl, inr}
use erlxsl.Types.{Ptr}
use erlxsl.Memory.{
  Block, World, Outcome, Fault, ok, fault, update, drv_free, driver_alloc, load, store,
  invalid_access, invalid_free,
}

pub drv_free-null : (w : World) → drv_free 0 w ≡ ok (tt, w)
unfolding drv_free
drv_free-null w = refl

pub drv_free-live :
    (p : Ptr) (w : World) (b : Block)
    → p ≢ 0
    → w.cells p ≡ some b
    → drv_free p w ≡ ok (tt, record w { cells = update w.cells p none })
unfolding drv_free
drv_free-live p w b nz e = rw (eqb_ne p 0 nz, e)

pub drv_free-freed :
    (p : Ptr) (w : World) → p ≢ 0 → w.cells p ≡ none → drv_free p w ≡ fault invalid_free
unfolding drv_free
drv_free-freed p w nz e = rw (eqb_ne p 0 nz, e)

pub driver_alloc-granted :
    (b : Block) (w : World)
    → w.grants w.next ≡ true
    → driver_alloc b w
      ≡ ok (w.next, record w { next = w.next + 1; cells = update w.cells w.next (some b) })
unfolding driver_alloc
driver_alloc-granted b w e = rw e

pub driver_alloc-refused :
    (b : Block) (w : World)
    → w.grants w.next ≡ false
    → driver_alloc b w ≡ ok (0, record w { next = w.next + 1 })
unfolding driver_alloc
driver_alloc-refused b w e = rw e

pub load-at :
    {A : Type 0} (view : Block → Option A) (p : Ptr) (w : World) (b : Block) (a : A)
    → w.cells p ≡ some b
    → view b ≡ some a
    → load view p w ≡ ok (a, w)
unfolding load
load-at view p w b a e v = rw (e, v)

pub load-freed :
    {A : Type 0} (view : Block → Option A) (p : Ptr) (w : World)
    → w.cells p ≡ none
    → load view p w ≡ fault invalid_access
unfolding load
load-freed view p w e = rw e

pub store-live :
    (p : Ptr) (b : Block) (w : World) (old : Block)
    → w.cells p ≡ some old
    → store p b w ≡ ok (tt, record w { cells = update w.cells p (some b) })
unfolding store
store-live p b w old e = rw e

pub Outcome-cases {ℓ} :
    {A : Type ℓ} (r : Outcome A) → ((e : Fault) × (r ≡ fault e)) ⊎ ((a : A) × (r ≡ ok a))
Outcome-cases (ok a) = inr (a, refl)
Outcome-cases (fault e) = inl (e, refl)
