-- ===== src/Lifecycle/Trace.antt =====
-- The callbacks in any order, as the emulator may call them.
use erlxsl.Prelude.{ℕ, zero, suc, ◌+◌, ◌≡◌, subst, List, arith}
use erlxsl.Types.{Ptr}
use erlxsl.Memory.{World, M, ok, ◌>>=◌, pure}
use erlxsl.Memory.WellFormed.{WellFormed}
use erlxsl.Memory.Keeps.{
  Grows, Grows-self, Grows-trans, AsksOnce, AsksOnce-then, Quiet-AsksOnce, Keeps-pure, Keeps-run,
  asks_rules,
}
use erlxsl.Request.{ErlIoVec}
use erlxsl.Ei.{Ei}
use erlxsl.Driver.{Emulator, Provider, start_driver, outputv, apply_transform, ready_async}
use erlxsl.Loader.{DynamicLinker, stop_driver}
use erlxsl.Call.{call}
use erlxsl.Lifecycle.Requests.{
  ProviderKeeps, start_driver-Keeps, outputv-Keeps, apply_transform-Keeps, ready_async-Keeps,
}
use erlxsl.Lifecycle.Setup.{LinkerKeeps, call-Keeps, stop_driver-Keeps}

n_more : (n : ℕ) → n + 1 ≡ suc n
n_more n = omega arith

-- The entries of `driver_entry`, and the function that runs on an asynchronous thread.
pub data Callback : Type 0 where
  start : ℕ → Callback
  stop : Ptr → Callback
  port_call : Ptr → ℕ → List ℕ → ℕ → Callback
  port_output : Ptr → ErlIoVec → Callback
  async_call : Ptr → Callback
  ready : Ptr → Ptr → Callback

module _ (em : Emulator) (ei : Ei) (dl : DynamicLinker) (provider : Provider) (fuel : ℕ) where
  unfoldable pub run_callback : Callback → M (Unit {0})
  run_callback (start port) = do d ← start_driver port; pure tt
  run_callback (stop drv_data) = stop_driver dl provider drv_data
  run_callback (port_call drv_data command buf rlen) = do
    bytes ← call ei dl provider fuel drv_data command buf rlen
    pure tt
  run_callback (port_output drv_data ev) = outputv em drv_data ev
  run_callback (async_call asd) = apply_transform provider asd
  run_callback (ready drv_data asd) = ready_async em provider fuel drv_data asd

  -- From one world to another by a number of callbacks, none of which met a fault.
  pub data Reach (w : World) : ℕ → World → Type 0 where
    here : Reach w zero w
    next :
        {n : ℕ} {v u : World} (c : Callback)
        → Reach w n v
        → run_callback c v ≡ ok (tt, u)
        → Reach w (suc n) u

  module _ (links : LinkerKeeps dl) (keeps : ProviderKeeps provider) where
    run_callback-Keeps : (c : Callback) → AsksOnce (run_callback c)
    unfolding run_callback
    run_callback-Keeps (start port) = search (asks_rules, start_driver-Keeps port) depth 24
    run_callback-Keeps (stop drv_data) =
        Quiet-AsksOnce (stop_driver-Keeps dl links provider keeps drv_data)
    run_callback-Keeps (port_call drv_data command buf rlen) =
        AsksOnce-then (call ei dl provider fuel drv_data command buf rlen) _
          (call-Keeps dl links provider keeps ei fuel drv_data command buf rlen)
          (λ bytes. Keeps-pure 1 tt)
    run_callback-Keeps (port_output drv_data ev) = outputv-Keeps em drv_data ev
    run_callback-Keeps (async_call asd) = Quiet-AsksOnce (apply_transform-Keeps provider keeps asd)
    run_callback-Keeps (ready drv_data asd) = ready_async-Keeps provider keeps em fuel drv_data asd

    -- Whatever callbacks the emulator makes, in whatever order and with whatever arguments, as long as
    -- none of them meets a fault and the functions of the provider and of the dynamic linker keep
    -- memory well formed and ask the emulator for nothing: memory stays well formed, no address is
    -- handed out again, the allocator's answers are the same, what was asked of the emulator stays as
    -- it was, and at most one more thing is asked for by each callback.
    pub Reach-Grows : {w : World} {n : ℕ} {v : World} → WellFormed w → Reach w n v → Grows n w v
    Reach-Grows wf here = Grows-self _ wf
    Reach-Grows {w} wf (next {n} {v} {u} c r e) =
        let g = Reach-Grows wf r in
        subst (λ k. Grows k w u) (n_more n)
          (Grows-trans w v u g (Keeps-run (run_callback-Keeps c) v u tt g.wf e))
