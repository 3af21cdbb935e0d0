-- ===== src/Driver/Returning.antt =====
-- `ready_async` on a call that has returned, whatever its result's format is.
use erlxsl.Prelude.{
  ℕ, suc, ◌∙◌, ◌≤◌, ◌≡◌, ◌≢◌, refl, false, List, [], ◌∷◌, ◌++◌, some, arith, All, Distinct, length,
  eqb_ne, if◌then◌else◌,
}
use erlxsl.Types.{
  Ptr, EngineState, out_of_memory_error, engine_ok, Command, DriverIoVec, DriverContext,
  DriverHandle, AsyncState, XslEngine, TermWord,
}
use erlxsl.Memory.{
  World, ok, command_block, iov_block, context_block, handle_block, async_block, engine_block,
  term_block, driver_send_term, driver_failure, command_of, iov_of, context_of, handle_of, async_of,
  engine_of, term_of,
}
use erlxsl.Memory.Blocks.{IsLive, without, drop_cells-frame}
use erlxsl.Memory.Steps.{load-at}
use erlxsl.Memory.WellFormed.{WellFormed, allocated-lt, allocated-ne, granted}
use erlxsl.Internal.Owned.{CommandAt}
use erlxsl.Internal.Extends.{Extends, CommandAt-Extends, IsLive-Extends}
use erlxsl.Internal.FreeCommand.{free_async_state-Frees}
use erlxsl.Driver.{Emulator, Provider, ready_async, reply_term, is_ok, is_out_of_memory}

-- An asynchronous call that has returned: its handle at `asd` has the provider's state and a command
-- that owns the blocks `ps`.
pub record Returning (w : World) (drv_data asd cmd : Ptr) (ps : List Ptr) : Type 0 where
  pub d : DriverHandle
  pub engine : Ptr
  pub a : AsyncState
  pub state : EngineState
  pub c : Command
  pub ctx : DriverContext
  pub wf : WellFormed w
  pub drv_at : w.cells drv_data ≡ some (handle_block d)
  pub engine_is : d.engine ≡ some engine
  pub asd_at : w.cells asd ≡ some (async_block a)
  pub state_is : a.state ≡ some state
  pub command_is : a.command ≡ some cmd
  pub cmd_at : w.cells cmd ≡ some (command_block c)
  pub context_at : w.cells c.context ≡ some (context_block ctx)
  pub command_owns : CommandAt w.cells cmd ps
  pub live : All (IsLive w.cells) (ps ++ asd ∷ [])
  pub distinct : Distinct (ps ++ asd ∷ [])

-- The atom of a reply.
abbrev pub reply_tag : Emulator → EngineState → ℕ
reply_tag em state = if is_ok state then em.atom_result else em.atom_error

pub is_out_of_memory_ne : (e : EngineState) → e ≢ out_of_memory_error → is_out_of_memory e ≡ false
is_out_of_memory_ne engine_ok h = refl
is_out_of_memory_ne out_of_memory_error h = absurd (h refl)
is_out_of_memory_ne _ h = refl

module _ (em : Emulator) (provider : Provider) {w : World} {drv_data asd cmd : Ptr} {ps : List Ptr}
    (r : Returning w drv_data asd cmd ps) (fuel : ℕ) (enough : length ps ≤ fuel) where
  module _ (has_memory : r.state ≢ out_of_memory_error) {table : XslEngine} {after : ℕ}
      (engine_at : w.cells r.engine ≡ some (engine_block table))
      (after_is : table.after_transform ≡ some (suc after))
      (returns : (v : World) → (st : EngineState) × (provider.run (suc after) cmd v ≡ ok (st, v)))
      {v : DriverIoVec} (result_at : w.cells r.c.result ≡ some (iov_block v))
      (words : List TermWord)
      (termed_is : reply_term em r.d.port v.type v.payload (reply_tag em r.state) w
        ≡ ok (w.next, granted (term_block words) w)) where
    abbrev termed : World
    termed = granted (term_block words) w

    abbrev pub sent : World
    sent = record termed {
      events = w.events ++ driver_send_term r.ctx.caller_pid words termed.cells ∷ [];
    }

    pub sent-Extends : Extends w.cells sent.cells
    sent-Extends q b at = ground (arith, allocated-lt w r.wf q b at, at)

    ready_async-frees :
        ready_async em provider fuel drv_data asd w ≡ ok (tt, without (ps ++ asd ∷ []) sent)
    unfolding ready_async
    ready_async-frees =
        rw
          (
            load-at handle_of drv_data w _ r.d r.drv_at refl,
            r.engine_is,
            load-at async_of asd w _ r.a r.asd_at refl,
            r.state_is,
            r.command_is,
            load-at command_of cmd w _ r.c r.cmd_at refl,
            load-at context_of r.c.context w _ r.ctx r.context_at refl,
            is_out_of_memory_ne r.state has_memory,
            load-at iov_of r.c.result w _ v result_at refl,
            termed_is,
            eqb_ne w.next 0 r.wf.started,
            load-at term_of w.next termed (term_block words) words (ground arith) refl,
            load-at engine_of r.engine sent _ table (sent-Extends _ _ engine_at) refl,
            after_is,
            (returns sent).1,
          )
          (free_async_state-Frees fuel asd cmd r.a ps sent (allocated-ne w r.wf asd _ r.asd_at)
            (sent-Extends asd _ r.asd_at) r.command_is
            (CommandAt-Extends w.cells sent.cells sent-Extends cmd ps r.command_owns) enough
            (IsLive-Extends w.cells sent.cells sent-Extends (ps ++ asd ∷ []) r.live) r.distinct)

    below : (qs : List Ptr) → All (IsLive w.cells) qs → All (λ q. q ≢ w.next) qs
    below [] h = tt
    below (q ∷ qs) ((b, nz, at), hs) = (omega (arith, allocated-lt w r.wf q b at), below qs hs)

    -- One term goes to the calling process, with the words that the result's format asks for; then the
    -- command and its handle are freed, and the block of the words stays.
    pub ready_async-sends :
        (ready_async em provider fuel drv_data asd w ≡ ok (tt, without (ps ++ asd ∷ []) sent))
        × ((without (ps ++ asd ∷ []) sent).cells w.next ≡ some (term_block words))
    ready_async-sends = (
      ready_async-frees,
      drop_cells-frame (ps ++ asd ∷ []) sent.cells w.next (below (ps ++ asd ∷ []) r.live)
          ∙ ground arith,
    )

  -- A transform that had no memory is not answered: the command and its handle are freed, each of
  -- their blocks once, a failure is reported to the emulator, and nothing else changes.
  pub ready_async-out_of_memory :
      r.state ≡ out_of_memory_error
      → ready_async em provider fuel drv_data asd w
        ≡ ok (
          tt,
          record (without (ps ++ asd ∷ []) w) { events = w.events ++ driver_failure r.d.port ∷ [] },
        )
  unfolding ready_async
  ready_async-out_of_memory no_memory = rw (
    load-at handle_of drv_data w _ r.d r.drv_at refl,
    r.engine_is,
    load-at async_of asd w _ r.a r.asd_at refl,
    r.state_is,
    r.command_is,
    load-at command_of cmd w _ r.c r.cmd_at refl,
    load-at context_of r.c.context w _ r.ctx r.context_at refl,
    no_memory,
    free_async_state-Frees fuel asd cmd r.a ps w (allocated-ne w r.wf asd _ r.asd_at) r.asd_at
        r.command_is r.command_owns enough r.live r.distinct,
  )
