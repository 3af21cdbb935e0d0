-- ===== src/Driver/Prepared.antt =====
-- `outputv` on a request that can be read, with memory for what it allocates before the command.
use erlxsl.Prelude.{
  ℕ, ◌+◌, ◌^◌, ◌<◌, ◌≡◌, refl, List, [], ◌∷◌, ◌++◌, none, some, arith, length, eqb_ne, true, ◌==◌,
  if◌then◌else◌,
}
use erlxsl.Types.{Ptr, InputSpec, PayloadSize, DriverHandle, DriverContext}
use erlxsl.Memory.{
  World, M, ok, update, ◌>>=◌, ◌>>◌, raw_block, chars_block, handle_block, context_block,
  async_block, emit, store, driver_failure, input_spec_block, payload_size_block, handle_of,
}
use erlxsl.Memory.Steps.{load-at, store-live, driver_alloc-granted}
use erlxsl.Memory.WellFormed.{WellFormed, granted, granted-WellFormed, stored-WellFormed}
use erlxsl.CString.Laws.{IsText, terminated}
use erlxsl.Internal.{transform_command, init_command, init_task, free_async_state}
use erlxsl.Request.{ErlIoVec, read_header, binary_at, input_source, xsl_source}
use erlxsl.Request.Copy.{copy_text-granted}
use erlxsl.Driver.{Emulator, outputv, submit}
use erlxsl.Driver.Allocation.{try_driver_alloc-granted}

-- A request whose header gives the lengths of two texts, which stand where the driver looks.
pub record Readable (em : Emulator) (ev : ErlIoVec) (spec : InputSpec) (xml xsl : List ℕ)
    : Type 0 where
  pub first : List ℕ
  pub index : ℕ
  pub xml_more : List ℕ
  pub xsl_more : List ℕ
  pub first_at : binary_at ev 1 ≡ ok first
  pub header :
      read_header em.endian first
      ≡ ok (spec, record { input_size = length xml; xsl_size = length xsl })
  pub xml_at : input_source ev first (length xml) ≡ ok (index, xml ++ xml_more)
  pub xsl_at : xsl_source ev index (length xsl) ≡ ok (xsl ++ xsl_more)
  pub xml_text : IsText xml
  pub xsl_text : IsText xsl
  pub xml_fits : length xml + 1 < 2 ^ 64
  pub xsl_fits : length xsl + 1 < 2 ^ 64

module _ (em : Emulator) (d : DriverHandle) (spec : InputSpec) (xml xsl : List ℕ) (w : World) where
  abbrev pub n : ℕ
  n = w.next

  abbrev pub two : World
  two = granted raw_block (granted raw_block w)

  abbrev pub spec_stored : World
  spec_stored = record two { cells = update two.cells n (some (input_spec_block spec)) }

  abbrev pub sizes : PayloadSize
  sizes = record { input_size = length xml; xsl_size = length xsl }

  -- The world with the header's two structs.
  abbrev pub headed : World
  headed =
      let v = granted raw_block (granted raw_block w) in
      record v {
        cells =
            update (update v.cells n (some (input_spec_block spec))) (n + 1)
              (some (payload_size_block sizes));
      }

  -- With the two copies of the texts, at n + 2 and n + 3.
  abbrev pub copied : World
  copied = granted (chars_block (terminated xsl)) (granted (chars_block (terminated xml)) headed)

  -- With the job, the context and the async handle, at n + 4 to n + 6.
  abbrev pub job : Ptr
  job = n + 1 + 1 + 1 + 1

  abbrev pub context : DriverContext
  context = record { port = d.port; caller_pid = em.driver_caller d.port }

  abbrev pub three : World
  three = granted raw_block (granted raw_block (granted raw_block copied))

  abbrev pub allocated : World
  allocated = record three { cells = update three.cells (job + 1) (some (context_block context)) }

  -- What `outputv` does with the command.
  abbrev pub with_result : Ptr → Ptr → M (Unit {0})
  with_result drv_data command = do
    store (job + 1 + 1)
        (async_block (record { state = none; driver = some drv_data; command = some command }))
    if command == 0
        then (do free_async_state 1 (job + 1 + 1); emit (driver_failure d.port))
        else (do
          state ← init_task job (n + 1) n (n + 1 + 1) (n + 1 + 1 + 1)
          submit d.port (job + 1 + 1) state)

module _ (em : Emulator) (drv_data : Ptr) (d : DriverHandle) (ev : ErlIoVec) (spec : InputSpec)
    (xml xsl : List ℕ) (w : World) (wf : WellFormed w)
    (drv_at : w.cells drv_data ≡ some (handle_block d)) (r : Readable em ev spec xml xsl)
    (early : (k : ℕ) → k < w.next + 7 → w.grants k ≡ true) where
  headed-WellFormed : WellFormed (headed em d spec xml xsl w)
  headed-WellFormed = record {
    null_free = ground (arith, wf.started, wf.null_free);
    started = omega arith;
    fresh = λ p h. ground (arith, wf.fresh p);
  }

  copied-WellFormed : WellFormed (copied em d spec xml xsl w)
  copied-WellFormed = granted-WellFormed _ _ (granted-WellFormed _ _ headed-WellFormed)

  three-WellFormed : WellFormed (three em d spec xml xsl w)
  three-WellFormed =
      granted-WellFormed _ _ (granted-WellFormed _ _ (granted-WellFormed _ _ copied-WellFormed))

  pub allocated-WellFormed : WellFormed (allocated em d spec xml xsl w)
  allocated-WellFormed =
      stored-WellFormed ((job em d spec xml xsl w) + 1)
        (context_block (context em d spec xml xsl w)) raw_block (three em d spec xml xsl w)
        three-WellFormed (ground arith)

  -- Up to the command, all goes well.
  pub outputv-allocated :
      outputv em drv_data ev w
      ≡ (init_command
              (some transform_command)
              ((job em d spec xml xsl w) + 1)
              (job em d spec xml xsl w)
              0
            >>= with_result em d spec xml xsl w drv_data)
          (allocated em d spec xml xsl w)
  unfolding outputv
  outputv-allocated = rw (
    load-at handle_of drv_data w (handle_block d) d drv_at refl,
    driver_alloc-granted raw_block w (early _ (omega arith)),
    eqb_ne w.next 0 wf.started,
    try_driver_alloc-granted d.port [] (granted raw_block w) (granted-WellFormed _ _ wf)
        (early _ (omega arith)),
    eqb_ne (w.next + 1) 0 (omega arith),
    r.first_at,
    r.header,
    store-live w.next (input_spec_block spec) (two em d spec xml xsl w) raw_block (ground arith),
    store-live (w.next + 1) (payload_size_block (sizes em d spec xml xsl w))
        (spec_stored em d spec xml xsl w) raw_block (ground arith),
    r.xml_at,
    copy_text-granted xml r.xml_more (headed em d spec xml xsl w) r.xml_text r.xml_fits
        (early _ (omega arith)),
    r.xsl_at,
    copy_text-granted xsl r.xsl_more
        (granted (chars_block (terminated xml)) (headed em d spec xml xsl w)) r.xsl_text r.xsl_fits
        (early _ (omega arith)),
    try_driver_alloc-granted d.port ((w.next + 1 + 1 + 1) ∷ (w.next + 1) ∷ w.next ∷ [])
        (copied em d spec xml xsl w) copied-WellFormed (early _ (omega arith)),
    eqb_ne (job em d spec xml xsl w) 0 (omega arith),
    try_driver_alloc-granted d.port
        ((w.next + 1 + 1 + 1) ∷ (w.next + 1) ∷ w.next ∷ (job em d spec xml xsl w) ∷ [])
        (granted raw_block (copied em d spec xml xsl w)) (granted-WellFormed _ _ copied-WellFormed)
        (early _ (omega arith)),
    eqb_ne ((job em d spec xml xsl w) + 1) 0 (omega arith),
    try_driver_alloc-granted d.port
        ((w.next + 1 + 1 + 1)
          ∷ (w.next + 1)
          ∷ w.next
          ∷ (job em d spec xml xsl w)
          ∷ ((job em d spec xml xsl w) + 1)
          ∷ [])
        (granted raw_block (granted raw_block (copied em d spec xml xsl w)))
        (granted-WellFormed _ _ (granted-WellFormed _ _ copied-WellFormed)) (early _ (omega arith)),
    eqb_ne ((job em d spec xml xsl w) + 1 + 1) 0 (omega arith),
    store-live ((job em d spec xml xsl w) + 1) (context_block (context em d spec xml xsl w))
        (three em d spec xml xsl w) raw_block (ground arith),
  )
