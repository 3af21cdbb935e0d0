-- ===== src/Driver/Ignored.antt =====
-- `outputv` on a request with an empty text.
use erlxsl.Prelude.{
  ℕ, ◌+◌, ◌<◌, ◌≡◌, ◌≢◌, ◌⊎◌, refl, ◌∙◌, List, [], ◌∷◌, some, none, arith, length, All, true,
}
use erlxsl.Types.{Ptr, DriverHandle, InputSpec, empty_buffer_error}
use erlxsl.Memory.{World, ok, handle_block, raw_block}
use erlxsl.Memory.WellFormed.{WellFormed}
use erlxsl.Internal.InitTask.{Wrong, no_text, cleared, init_task-rejects}
use erlxsl.Request.{ErlIoVec}
use erlxsl.Driver.{Emulator, outputv}
use erlxsl.Driver.Prepared.{Readable}
use erlxsl.Driver.Submit.{commanded, sizes, outputv-commands}

module _ (em : Emulator) (drv_data : Ptr) (d : DriverHandle) (ev : ErlIoVec) (spec : InputSpec)
    (xml xsl : List ℕ) (w : World) (wf : WellFormed w)
    (drv_at : w.cells drv_data ≡ some (handle_block d)) (r : Readable em ev spec xml xsl)
    (grants : (n : ℕ) → w.grants n ≡ true) where
  abbrev n : ℕ
  n = w.next

  abbrev built : World
  built = commanded em drv_data d ev spec xml xsl w wf drv_at r grants

  -- What is wrong with the task's arguments is an empty text.
  built-Wrong :
      (length xml ≡ 0) ⊎ (length xsl ≡ 0)
      → Wrong built
          (n + 1 + 1 + 1 + 1)
          (n + 1)
          n
          (n + 1 + 1)
          (n + 1 + 1 + 1)
          empty_buffer_error
          (cleared (n + 1 + 1 + 1 + 1) built)
  built-Wrong h =
      no_text {b = raw_block} (sizes em drv_data d ev spec xml xsl w wf drv_at r grants)
        (omega arith) (ground arith) (omega arith)
        (omega arith, wf.started, omega arith, omega arith) (ground arith) h

  -- With memory for everything, and the driver's handle in a well-formed memory, a request that can
  -- be read but whose input or stylesheet is empty is dropped: `outputv` returns, the emulator is
  -- asked for nothing, so that no process gets an answer, and none of the nine blocks that were
  -- allocated is freed.
  pub outputv-ignores :
      (length xml ≡ 0) ⊎ (length xsl ≡ 0)
      → (w' : World) × (outputv em drv_data ev w ≡ ok (tt, w'))
        × (w'.events ≡ w.events)
        × (w'.next ≡ n + 9)
        × All
            (λ q. w'.cells q ≢ none)
            (n ∷ (n + 1) ∷ (n + 2) ∷ (n + 3) ∷ (n + 4) ∷ (n + 5) ∷ (n + 6) ∷ (n + 7) ∷ (n + 8) ∷ [])
        × ((q : Ptr) → q < n → w'.cells q ≡ w.cells q)
  outputv-ignores h = (
    cleared (n + 1 + 1 + 1 + 1) built,
    outputv-commands em drv_data d ev spec xml xsl w wf drv_at r grants
        ∙ (rw
            (init_task-rejects built (n + 1 + 1 + 1 + 1) (n + 1) n (n + 1 + 1) (n + 1 + 1 + 1)
              empty_buffer_error (cleared (n + 1 + 1 + 1 + 1) built) (built-Wrong h))
            refl),
    refl,
    omega arith,
    (
      ground arith,
      (
        ground arith,
        (
          ground arith,
          (
            ground arith,
            (ground arith, (ground arith, (ground arith, (ground arith, (ground arith, tt))))),
          ),
        ),
      ),
    ),
    (λ q l. ground (arith, l)),
  )
