-- ===== src/Loader/Refused.antt =====
-- `init_provider` of c_src/erlxsl_internal.h without memory.
use erlxsl.Prelude.{◌+◌, ◌≡◌, ◌⊎◌, inl, inr, refl, none, false, arith, eqb_ne, Bool-cases}
use erlxsl.Types.{Ptr, out_of_memory}
use erlxsl.Memory.{World, ok, update, raw_block}
use erlxsl.Memory.Steps.{driver_alloc-granted, driver_alloc-refused, drv_free-live, drv_free-null}
use erlxsl.Memory.WellFormed.{WellFormed, granted, refused}
use erlxsl.Loader.{DynamicLinker, init_provider}

module _ (dl : DynamicLinker) (drv buff : Ptr) (w : World) (wf : WellFormed w) where
  -- The block at the next address of `v` is freed again.
  abbrev released : World → World
  released v = record (granted raw_block v) {
    cells = update (granted raw_block v).cells v.next none;
  }

  -- Whichever of the engine's table and the library's specification is refused, `init_provider`
  -- answers that there is no memory, and has freed the other: every block is as it was, and the
  -- emulator was asked for nothing. Memory is well formed.
  pub init_provider-refuses :
      (w.grants w.next ≡ false) ⊎ (w.grants (w.next + 1) ≡ false)
      → (w' : World) × (init_provider dl drv buff w ≡ ok (out_of_memory, w'))
        × ((q : Ptr) → w'.cells q ≡ w.cells q)
        × (w'.events ≡ w.events)
  unfolding init_provider
  init_provider-refuses h = elim (Bool-cases (w.grants w.next)) [
    | inl first ↦ elim h [
      | inl denied ↦ absurd (ground (arith, denied, first))
      | inr second ↦ (
        record (refused (granted raw_block w)) {
          cells = update (granted raw_block w).cells w.next none;
        },
        rw (
          driver_alloc-granted raw_block w first,
          driver_alloc-refused raw_block (granted raw_block w) second,
          eqb_ne w.next 0 wf.started,
          drv_free-live w.next (refused (granted raw_block w)) raw_block wf.started (ground arith),
          drv_free-null (record (refused (granted raw_block w)) {
            cells = update (granted raw_block w).cells w.next none;
          }),
        ),
        (λ q. ground (arith, wf.fresh q)),
        refl,
      )
    ]
    | inr denied ↦ elim (Bool-cases (w.grants (w.next + 1))) [
      | inl second ↦ (
        released (refused w),
        rw (
          driver_alloc-refused raw_block w denied,
          driver_alloc-granted raw_block (refused w) second,
          drv_free-null (granted raw_block (refused w)),
          drv_free-live (w.next + 1) (granted raw_block (refused w)) raw_block (omega arith)
              (ground arith),
        ),
        (λ q. ground (arith, wf.fresh q)),
        refl,
      )
      | inr neither ↦ (
        refused (refused w),
        rw (
          driver_alloc-refused raw_block w denied,
          driver_alloc-refused raw_block (refused w) neither,
          drv_free-null (refused (refused w)),
          drv_free-null (refused (refused w)),
        ),
        (λ q. refl),
        refl,
      )
    ]
  ]
