-- ===== src/Internal/Init.antt =====
-- What the functions that build a vector, a document or a command do, on every answer of the
-- allocator.
use erlxsl.Prelude.{
  ℕ, ◌+◌, ◌≡◌, Option, none, some, arith, ◌==◌, if◌then◌else◌, true, false, eqb_ne, List,
}
use erlxsl.Types.{
  Ptr, Int32, InputType, DataFormat, text, DriverIoVec, Command, internal_alloc, internal_realloc,
  internal_free,
}
use erlxsl.Memory.{World, update, ok, raw_block, iov_block, document_block, command_block}
use erlxsl.Memory.Steps.{driver_alloc-granted, driver_alloc-refused, store-live, drv_free-live}
use erlxsl.Memory.WellFormed.{
  WellFormed, update-update, granted, refused, granted-WellFormed, same_cells,
}
use erlxsl.Internal.{init_iov, init_doc, init_command, dirty_bit}

-- The vector that `init_iov` fills in.
abbrev pub fresh_iov : DataFormat → Int32 → Ptr → DriverIoVec
fresh_iov type size payload = record {
  dirty = dirty_bit payload;
  type = type;
  size = size;
  payload = payload;
}

eqb_self : (a : ℕ) → (a == a) ≡ true
eqb_self a = ground arith

pub init_iov-granted :
    (type : DataFormat) (size : Int32) (payload : Ptr) (w : World)
    → WellFormed w
    → w.grants w.next ≡ true
    → init_iov type size payload w
      ≡ ok (w.next, granted (iov_block (fresh_iov type size payload)) w)
unfolding init_iov
init_iov-granted type size payload w wf g = rw (
  driver_alloc-granted raw_block w g,
  eqb_ne w.next 0 wf.started,
  store-live w.next (iov_block (fresh_iov type size payload)) (granted raw_block w) raw_block
      (ground arith),
  update-update w.cells w.next,
)

pub init_iov-refused :
    (type : DataFormat) (size : Int32) (payload : Ptr) (w : World)
    → w.grants w.next ≡ false
    → init_iov type size payload w ≡ ok (0, refused w)
unfolding init_iov
init_iov-refused type size payload w g = rw (driver_alloc-refused raw_block w g)

module _ (type : InputType) (size : Int32) (payload : Ptr) (w : World) (wf : WellFormed w) where
  -- Both blocks of a document are granted.
  pub init_doc-granted :
      w.grants w.next ≡ true
      → w.grants (w.next + 1) ≡ true
      → init_doc type size payload w
        ≡ ok (
          w.next,
          granted
              (iov_block (fresh_iov text size payload))
              (granted (document_block (record { type = type; iov = w.next + 1 })) w),
        )
  unfolding init_doc
  init_doc-granted g g' =
      rw
        (
          driver_alloc-granted raw_block w g,
          eqb_ne w.next 0 wf.started,
          init_iov-granted text size payload (granted raw_block w)
              (granted-WellFormed raw_block w wf) g',
          eqb_ne (w.next + 1) 0 (omega arith),
          store-live w.next (document_block (record { type = type; iov = w.next + 1 }))
              (granted (iov_block (fresh_iov text size payload)) (granted raw_block w)) raw_block
              (ground arith),
        )
        (same_cells w.next w (w.next + 1 + 1) _ _ λ q. ground arith)

  -- The document is refused.
  pub init_doc-refused : w.grants w.next ≡ false → init_doc type size payload w ≡ ok (0, refused w)
  unfolding init_doc
  init_doc-refused g = rw (driver_alloc-refused raw_block w g)

  -- The vector is refused: the document goes back, and nothing is left behind.
  pub init_doc-refused_iov :
      w.grants w.next ≡ true
      → w.grants (w.next + 1) ≡ false
      → init_doc type size payload w ≡ ok (0, refused (refused w))
  unfolding init_doc
  init_doc-refused_iov g g' =
      rw
        (
          driver_alloc-granted raw_block w g,
          eqb_ne w.next 0 wf.started,
          init_iov-refused text size payload (granted raw_block w) g',
          store-live w.next (document_block (record { type = type; iov = 0 }))
              (refused (granted raw_block w)) raw_block (ground arith),
        )
        (rw
          (drv_free-live w.next
            (record w {
              next = w.next + 1 + 1;
              cells =
                  update (update w.cells w.next (some raw_block)) w.next
                    (some (document_block (record { type = type; iov = 0 })));
            })
            (document_block (record { type = type; iov = 0 })) wf.started (ground arith))
          (same_cells 0 w (w.next + 1 + 1) _ _ λ q. ground (arith, wf.fresh w.next)))

-- The command that `init_command` fills in.
abbrev pub fresh_command : Option (List ℕ) → Ptr → Ptr → Ptr → World → Command
fresh_command command context xsl_task iov w = record {
  command_string = command;
  command_data = if xsl_task == 0 then iov else xsl_task;
  result = w.next + 1;
  context = context;
  alloc = internal_alloc;
  resize = internal_realloc;
  release = internal_free;
  async_state = 0;
}

module _ (command : Option (List ℕ)) (context xsl_task iov : Ptr) (w : World)
    (wf : WellFormed w) where
  pub init_command-granted :
      w.grants w.next ≡ true
      → w.grants (w.next + 1) ≡ true
      → init_command command context xsl_task iov w
        ≡ ok (
          w.next,
          granted
              (iov_block (fresh_iov text 0 0))
              (granted (command_block (fresh_command command context xsl_task iov w)) w),
        )
  unfolding init_command
  init_command-granted g g' =
      rw
        (
          driver_alloc-granted raw_block w g,
          eqb_ne w.next 0 wf.started,
          init_iov-granted text 0 0 (granted raw_block w) (granted-WellFormed raw_block w wf) g',
          eqb_ne (w.next + 1) 0 (omega arith),
          store-live w.next (command_block (fresh_command command context xsl_task iov w))
              (granted (iov_block (fresh_iov text 0 0)) (granted raw_block w)) raw_block
              (ground arith),
        )
        (same_cells w.next w (w.next + 1 + 1) _ _ λ q. ground arith)

  pub init_command-refused :
      w.grants w.next ≡ false → init_command command context xsl_task iov w ≡ ok (0, refused w)
  unfolding init_command
  init_command-refused g = rw (driver_alloc-refused raw_block w g)

  -- The result's vector is refused: the command's block stays allocated.
  pub init_command-refused_iov :
      w.grants w.next ≡ true
      → w.grants (w.next + 1) ≡ false
      → init_command command context xsl_task iov w ≡ ok (0, refused (granted raw_block w))
  unfolding init_command
  init_command-refused_iov g g' = rw (
    driver_alloc-granted raw_block w g,
    eqb_ne w.next 0 wf.started,
    init_iov-refused text 0 0 (granted raw_block w) g',
  )

  -- When the command's block is granted and the vector for its result is refused, `init_command`
  -- answers NULL, and the block stays allocated with no pointer to it.
  pub init_command-leaks :
      w.grants w.next ≡ true
      → w.grants (w.next + 1) ≡ false
      → (init_command command context xsl_task iov w ≡ ok (0, refused (granted raw_block w)))
        × ((refused (granted raw_block w)).cells w.next ≡ some raw_block)
        × (w.cells w.next ≡ none)
  init_command-leaks g g' =
      (init_command-refused_iov g g', ground arith, ground (arith, wf.fresh w.next))
