-- ===== src/Driver/Unsent.antt =====
-- `ready_async` without memory for the term.
use erlxsl.Prelude.{ℕ, ◌≡◌, refl, ◌+◌, List, ◌∷◌, [], ◌++◌, false}
use erlxsl.Types.{Ptr}
use erlxsl.Memory.{
  World, ok, raw_block, driver_failure, command_of, iov_of, context_of, handle_of, async_of,
}
use erlxsl.Memory.Steps.{load-at, driver_alloc-refused}
use erlxsl.Driver.{Emulator, Provider, ready_async, make_driver_term}
use erlxsl.Driver.Reply.{Answered}
use erlxsl.Driver.Returning.{is_out_of_memory_ne}

-- A text result for which there is no memory for a term is not sent: the failure is reported, the
-- provider's `after_transform` is not called, and the command, its handle, its documents and its
-- result all stay as they are.
pub ready_async-unsent :
    (em : Emulator) (provider : Provider) {w : World} {drv_data asd cmd buf : Ptr} {ps : List Ptr}
    {s : List ℕ} (r : Answered w drv_data asd cmd buf ps s) (fuel : ℕ)
    → w.grants w.next ≡ false
    → ready_async em provider fuel drv_data asd w
      ≡ ok (tt, record w { next = w.next + 1; events = w.events ++ driver_failure r.d.port ∷ [] })
unfolding ready_async make_driver_term
ready_async-unsent em provider {w} {drv_data} {asd} {cmd} r fuel grant = rw (
  load-at handle_of drv_data w _ r.d r.drv_at refl,
  r.engine_is,
  load-at async_of asd w _ r.a r.asd_at refl,
  r.state_is,
  r.command_is,
  load-at command_of cmd w _ r.c r.cmd_at refl,
  load-at context_of r.c.context w _ r.ctx r.context_at refl,
  is_out_of_memory_ne r.state r.has_memory,
  load-at iov_of r.c.result w _ r.v r.result_at refl,
  r.is_text,
  r.buffer_is,
  driver_alloc-refused raw_block w grant,
)
