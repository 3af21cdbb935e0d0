-- ===== src/Loader/Name.antt =====
-- The copy of the library's name that `init_provider` makes.
use erlxsl.Prelude.{
  ℕ, ◌+◌, ◌<◌, ◌≡◌, refl, List, Option, none, some, arith, true, length, length-replicate,
  replicate, eqb_ne,
}
use erlxsl.Types.{Ptr, DriverHandle}
use erlxsl.Memory.{
  World, Block, fault, update, handle_block, loader_block, raw_block, chars_block, handle_of,
  buffer_overflow,
}
use erlxsl.Memory.Steps.{load-at, store-live, driver_alloc-granted}
use erlxsl.Memory.WellFormed.{WellFormed, allocated-lt, granted}
use erlxsl.CString.Laws.{IsText, StringAt, strlen-at, strcpy-overflows}
use erlxsl.Loader.{DynamicLinker, init_provider, no_loader}

module _ (dl : DynamicLinker) (drv buff : Ptr) (d : DriverHandle) (file : List ℕ)
    (rest : List (Option ℕ)) (w : World) (wf : WellFormed w)
    (drv_at : w.cells drv ≡ some (handle_block d)) (buff_at : StringAt w buff file rest)
    (is_text : IsText file) (grants : (n : ℕ) → w.grants n ≡ true) where
  drv_lt : drv < w.next
  drv_lt = allocated-lt w wf drv _ drv_at

  buff_lt : buff < w.next
  buff_lt = allocated-lt w wf buff _ buff_at

  abbrev name_block : Block
  name_block = chars_block (replicate (length file) none)

  abbrev allocated : World
  allocated = granted raw_block (granted raw_block w)

  abbrev with_loader : World
  with_loader = record allocated {
    cells =
        update allocated.cells drv (some (handle_block (record d { loader = some (w.next + 1) })));
  }

  abbrev with_name : World
  with_name = granted name_block with_loader

  abbrev named : World
  named = record with_name {
    cells =
        update with_name.cells (w.next + 1)
          (some (loader_block (record no_loader { name = some (w.next + 1 + 1) })));
  }

  -- The copy has no room for the terminator: with memory for everything, and the driver's handle and
  -- the name's text in a well-formed memory, `init_provider` writes past the end of the name that it
  -- allocated, whatever the dynamic linker does.
  pub init_provider-overflows : init_provider dl drv buff w ≡ fault buffer_overflow
  unfolding init_provider
  init_provider-overflows = rw (
    driver_alloc-granted raw_block w (grants _),
    driver_alloc-granted raw_block (granted raw_block w) (grants _),
    eqb_ne w.next 0 wf.started,
    eqb_ne (w.next + 1) 0 (omega arith),
    load-at handle_of drv allocated (handle_block d) d (ground (arith, drv_lt, drv_at)) refl,
    store-live drv (handle_block (record d { loader = some (w.next + 1) })) allocated
        (handle_block d) (ground (arith, drv_lt, drv_at)),
    strlen-at buff file rest with_loader (ground (arith, buff_lt, drv_at, buff_at)) is_text,
    driver_alloc-granted name_block with_loader (grants _),
    store-live (w.next + 1) (loader_block (record no_loader { name = some (w.next + 1 + 1) }))
        with_name raw_block (ground (arith, drv_lt)),
    strcpy-overflows (w.next + 1 + 1) buff file rest named (omega (arith, buff_lt))
        (ground (arith, buff_lt, drv_at, buff_at)) is_text (replicate (length file) none)
        (ground (arith, drv_lt))
        (omega (arith, length-replicate {A = Option ℕ} (length file) none)),
  )
