-- ===== src/Driver/Allocation.antt =====
-- What `try_driver_alloc` does without memory.
use erlxsl.Prelude.{ℕ, ◌≡◌, refl, List, [], ◌∷◌, ◌++◌, true, false, All, Distinct, none, eqb_ne}
use erlxsl.Types.{Ptr}
use erlxsl.Memory.{World, ok, fault, missing_argument, raw_block, update, driver_failure}
use erlxsl.Memory.Steps.{drv_free-live, driver_alloc-granted, driver_alloc-refused}
use erlxsl.Memory.Blocks.{IsLive, IsLive-update, without}
use erlxsl.Memory.WellFormed.{WellFormed, granted, refused}
use erlxsl.Driver.{try_driver_alloc, free_arguments}

pub try_driver_alloc-granted :
    (port : ℕ) (behind : List Ptr) (w : World)
    → WellFormed w
    → w.grants w.next ≡ true
    → try_driver_alloc port behind w ≡ ok (w.next, granted raw_block w)
unfolding try_driver_alloc
try_driver_alloc-granted port behind w wf g =
    rw (driver_alloc-granted raw_block w g, eqb_ne w.next 0 wf.started)

-- The loop frees what it is given, up to a NULL.
free_arguments-ended :
    (ps more : List Ptr) (w : World)
    → All (IsLive w.cells) ps
    → Distinct ps
    → free_arguments (ps ++ 0 ∷ more) w ≡ ok (tt, without ps w)
unfolding free_arguments
free_arguments-ended [] more w h d = refl
free_arguments-ended (p ∷ ps) more w ((b, nz, e), hs) d =
    rw (eqb_ne p 0 nz, drv_free-live p w b nz e)
      (free_arguments-ended ps more (record w { cells = update w.cells p none })
        (IsLive-update w.cells p none ps d.0 hs) d.1)

-- Without a NULL it frees them all, and reads on.
free_arguments-endless :
    (ps : List Ptr) (w : World)
    → All (IsLive w.cells) ps
    → Distinct ps
    → free_arguments ps w ≡ fault missing_argument
unfolding free_arguments
free_arguments-endless [] w h d = refl
free_arguments-endless (p ∷ ps) w ((b, nz, e), hs) d =
    rw (eqb_ne p 0 nz, drv_free-live p w b nz e)
      (free_arguments-endless ps (record w { cells = update w.cells p none })
        (IsLive-update w.cells p none ps d.0 hs) d.1)

-- When memory is refused, and the arguments behind the first are allocated and distinct:
-- `try_driver_alloc` frees each of them, reports one failure and answers NULL, if a NULL ends the
-- arguments, whatever follows it; if none does, it reads an argument that was not passed.
pub try_driver_alloc-refused :
    (port : ℕ) (behind more : List Ptr) (w : World)
    → All (IsLive w.cells) behind
    → Distinct behind
    → w.grants w.next ≡ false
    → (try_driver_alloc port (behind ++ 0 ∷ more) w
        ≡ ok (
          0,
          record (without behind (refused w)) { events = w.events ++ driver_failure port ∷ [] },
        ))
      × (try_driver_alloc port behind w ≡ fault missing_argument)
unfolding try_driver_alloc
try_driver_alloc-refused port behind more w live distinct g = (
  rw (
    driver_alloc-refused raw_block w g,
    free_arguments-ended behind more (refused w) live distinct,
  ),
  rw (driver_alloc-refused raw_block w g, free_arguments-endless behind (refused w) live distinct),
)
