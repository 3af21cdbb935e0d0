-- ===== src/Driver/Refused.antt =====
-- `outputv` without memory for the command.
use erlxsl.Prelude.{
  ℕ, ◌+◌, ◌<◌, ◌≡◌, ◌≢◌, ◌⊎◌, inl, inr, refl, ap, subst, ◌∙◌, List, [], ◌∷◌, ◌++◌, some, none,
  arith, All, eqb_ne, true, false,
}
use erlxsl.Types.{Ptr, DriverHandle, InputSpec, AsyncState}
use erlxsl.Memory.{
  World, ok, update, handle_block, raw_block, async_block, async_of, driver_failure,
}
use erlxsl.Memory.Steps.{load-at, store-live, drv_free-live, driver_alloc-refused}
use erlxsl.Memory.WellFormed.{WellFormed, granted, refused}
use erlxsl.Internal.{init_command, transform_command, free_async_state, free_command}
use erlxsl.Internal.Init.{init_command-leaks}
use erlxsl.Request.{ErlIoVec}
use erlxsl.Driver.{Emulator, outputv}
use erlxsl.Driver.Prepared
use erlxsl.Driver.Prepared.{Readable, with_result}

init_command-refused :
    (context task iov : Ptr) (w : World)
    → w.grants w.next ≡ false
    → init_command (some transform_command) context task iov w ≡ ok (0, refused w)
unfolding init_command
init_command-refused context task iov w g = rw (driver_alloc-refused raw_block w g) refl

seven : (n : ℕ) → n + 7 ≡ n + 1 + 1 + 1 + 1 + 1 + 1 + 1
seven n = omega arith

eight : (n : ℕ) → n + 8 ≡ n + 1 + 1 + 1 + 1 + 1 + 1 + 1 + 1
eight n = omega arith

module _ (em : Emulator) (drv_data : Ptr) (d : DriverHandle) (ev : ErlIoVec) (spec : InputSpec)
    (xml xsl : List ℕ) (w : World) where
  abbrev n : ℕ
  n = w.next

  abbrev asd : Ptr
  asd = n + 1 + 1 + 1 + 1 + 1 + 1

  abbrev no_command : AsyncState
  no_command = record { state = none; driver = some drv_data; command = some 0 }

  -- The failure is reported, and the handle of the call is freed.
  abbrev reported : World → World
  reported v = record v {
    cells = update (update v.cells asd (some (async_block no_command))) asd none;
    events = v.events ++ driver_failure d.port ∷ [];
  }

  with_result-reports :
      (v : World)
      → v.cells asd ≡ some raw_block
      → with_result em d spec xml xsl w drv_data 0 v ≡ ok (tt, reported v)
  unfolding free_async_state free_command
  with_result-reports v at =
      let stored : World = record v {
        cells = update v.cells asd (some (async_block no_command));
      } in
      rw (
        store-live asd (async_block no_command) v raw_block at,
        eqb_ne asd 0 (omega arith),
        load-at async_of asd stored (async_block no_command) no_command (ground arith) refl,
        drv_free-live asd stored (async_block no_command) (omega arith) (ground arith),
      )

  module _ (wf : WellFormed w) (drv_at : w.cells drv_data ≡ some (handle_block d))
      (r : Readable em ev spec xml xsl) (early : (k : ℕ) → k < w.next + 7 → w.grants k ≡ true) where
    abbrev allocated : World
    allocated = Prepared.allocated em d spec xml xsl w

    -- What follows when no command was made, and its memory is as it was before.
    reports :
        (v : World)
        → init_command
            (some transform_command)
            (n + 1 + 1 + 1 + 1 + 1)
            (n + 1 + 1 + 1 + 1)
            0
            allocated
          ≡ ok (0, v)
        → v.events ≡ w.events
        → ((q : Ptr) → q < n + 7 → v.cells q ≡ allocated.cells q)
        → (w' : World) × (outputv em drv_data ev w ≡ ok (tt, w'))
          × (w'.events ≡ w.events ++ driver_failure d.port ∷ [])
          × (w'.cells (n + 6) ≡ none)
          × All (λ q. w'.cells q ≢ none) (n ∷ (n + 1) ∷ (n + 2) ∷ (n + 3) ∷ (n + 4) ∷ (n + 5) ∷ [])
          × ((q : Ptr) → q < n → w'.cells q ≡ w.cells q)
    reports v e events kept = (
      reported v,
      Prepared.outputv-allocated em drv_data d ev spec xml xsl w wf drv_at r early
          ∙ rw (e, with_result-reports v (kept asd (omega arith) ∙ ground arith)) refl,
      ap (λ es. es ++ driver_failure d.port ∷ []) events,
      ground arith,
      (
        ground (arith, kept n),
        (
          ground (arith, kept (n + 1)),
          (
            ground (arith, kept (n + 2)),
            (
              ground (arith, kept (n + 3)),
              (ground (arith, kept (n + 4)), (ground (arith, kept (n + 5)), tt)),
            ),
          ),
        ),
      ),
      λ q l. ground (arith, l, kept q (omega (arith, l))),
    )

    -- A request that can be read, in a well-formed memory with the driver's handle, with memory for
    -- what `outputv` allocates before the command, and none for the command or for its result: the
    -- emulator is told of the failure, and asked for nothing else. The handle of the asynchronous call
    -- is freed; the header's two structs, the copies of the two texts, the task and the context stay
    -- allocated. What was there before is unchanged.
    pub outputv-reports :
        (w.grants (n + 7) ≡ false) ⊎ ((w.grants (n + 7) ≡ true) × (w.grants (n + 8) ≡ false))
        → (w' : World) × (outputv em drv_data ev w ≡ ok (tt, w'))
          × (w'.events ≡ w.events ++ driver_failure d.port ∷ [])
          × (w'.cells (n + 6) ≡ none)
          × All (λ q. w'.cells q ≢ none) (n ∷ (n + 1) ∷ (n + 2) ∷ (n + 3) ∷ (n + 4) ∷ (n + 5) ∷ [])
          × ((q : Ptr) → q < n → w'.cells q ≡ w.cells q)
    outputv-reports (inl first) =
        reports (refused allocated)
          (init_command-refused _ _ 0 allocated (subst (λ k. w.grants k ≡ false) (seven n) first))
          refl (λ q l. refl)
    outputv-reports (inr (first, second)) =
        reports (refused (granted raw_block allocated))
          ((init_command-leaks (some transform_command) _ _ 0 allocated
            (Prepared.allocated-WellFormed em drv_data d ev spec xml xsl w wf drv_at r early)
            (subst (λ k. w.grants k ≡ true) (seven n) first)
            (subst (λ k. w.grants k ≡ false) (eight n) second)).0)
          refl (λ q l. ground (arith, l))
