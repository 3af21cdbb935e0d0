-- ===== src/Driver/Reply.antt =====
-- `ready_async` on a command whose result is a text.
use erlxsl.Prelude.{
  ℕ, suc, ◌≤◌, ◌≡◌, ◌≢◌, true, List, [], ◌∷◌, ◌++◌, Option, some, arith, All, Distinct, length,
  eqb_ne,
}
use erlxsl.Types.{
  Ptr, EngineState, out_of_memory_error, text, Command, DriverIoVec, DriverContext, DriverHandle,
  AsyncState, XslEngine, TermWord, erl_drv_atom, erl_drv_port, erl_drv_buf2binary, erl_drv_tuple,
  value,
}
use erlxsl.Memory.{
  World, ok, command_block, iov_block, context_block, handle_block, async_block, engine_block,
  term_block, raw_block, driver_send_term, chars_block,
}
use erlxsl.Memory.Blocks.{IsLive, without}
use erlxsl.Memory.Steps.{store-live, driver_alloc-granted}
use erlxsl.Memory.WellFormed.{WellFormed, allocated-lt, granted, update-update}
use erlxsl.CString.Laws.{IsText, StringAt, strlen-at, terminated}
use erlxsl.Internal.Owned.{CommandAt}
use erlxsl.Internal.Extends.{Extends}
use erlxsl.Driver.{Emulator, Provider, ready_async, reply_term, make_driver_term}
use erlxsl.Driver.Returning.{Returning, reply_tag, ready_async-sends}

-- An asynchronous call that has returned: its handle at `asd` has the provider's state and a command
-- that owns the blocks `ps`, whose result is the text `s` at `buf`.
pub record Answered (w : World) (drv_data asd cmd buf : Ptr) (ps : List Ptr) (s : List ℕ)
    : Type 0 where
  pub d : DriverHandle
  pub engine : Ptr
  pub table : XslEngine
  pub after : ℕ
  pub a : AsyncState
  pub state : EngineState
  pub c : Command
  pub ctx : DriverContext
  pub v : DriverIoVec
  pub rest : List (Option ℕ)
  pub wf : WellFormed w
  pub drv_at : w.cells drv_data ≡ some (handle_block d)
  pub engine_is : d.engine ≡ some engine
  pub engine_at : w.cells engine ≡ some (engine_block table)
  pub after_is : table.after_transform ≡ some (suc after)
  pub asd_at : w.cells asd ≡ some (async_block a)
  pub state_is : a.state ≡ some state
  pub has_memory : state ≢ out_of_memory_error
  pub command_is : a.command ≡ some cmd
  pub cmd_at : w.cells cmd ≡ some (command_block c)
  pub context_at : w.cells c.context ≡ some (context_block ctx)
  pub result_at : w.cells c.result ≡ some (iov_block v)
  pub is_text : v.type ≡ text
  pub buffer_is : v.payload ≡ buf
  pub text_at : StringAt w buf s rest
  pub characters : IsText s
  pub command_owns : CommandAt w.cells cmd ps
  pub live : All (IsLive w.cells) (ps ++ asd ∷ [])
  pub distinct : Distinct (ps ++ asd ∷ [])

-- The words of the reply `{Tag, Port, Binary}`.
abbrev pub reply_words : ℕ → ℕ → Ptr → ℕ → List TermWord
reply_words tag port buf size =
    erl_drv_atom
    ∷ value tag
    ∷ erl_drv_port
    ∷ value port
    ∷ erl_drv_buf2binary
    ∷ value buf
    ∷ value size
    ∷ erl_drv_tuple
    ∷ value 3
    ∷ []

abbrev pub Answered-Returning :
    {w : World} {drv_data asd cmd buf : Ptr} {ps : List Ptr} {s : List ℕ}
    → Answered w drv_data asd cmd buf ps s
    → Returning w drv_data asd cmd ps
Answered-Returning r = record {
  d = r.d;
  engine = r.engine;
  a = r.a;
  state = r.state;
  c = r.c;
  ctx = r.ctx;
  wf = r.wf;
  drv_at = r.drv_at;
  engine_is = r.engine_is;
  asd_at = r.asd_at;
  state_is = r.state_is;
  command_is = r.command_is;
  cmd_at = r.cmd_at;
  context_at = r.context_at;
  command_owns = r.command_owns;
  live = r.live;
  distinct = r.distinct;
}

module _ (em : Emulator) (provider : Provider) {w : World} {drv_data asd cmd buf : Ptr}
    {ps : List Ptr} {s : List ℕ} (r : Answered w drv_data asd cmd buf ps s)
    (grant : w.grants w.next ≡ true)
    (returns : (v : World) → (st : EngineState) × (provider.run (suc r.after) cmd v ≡ ok (st, v)))
    (fuel : ℕ) (enough : length ps ≤ fuel) where
  abbrev pub words : List TermWord
  words = reply_words (reply_tag em r.state) (em.driver_mk_port r.d.port) buf (length s)

  abbrev pub termed : World
  termed = granted (term_block words) w

  abbrev pub sent : World
  sent = record termed {
    events = w.events ++ driver_send_term r.ctx.caller_pid words termed.cells ∷ [];
  }

  sent-Extends : Extends w.cells sent.cells
  sent-Extends q b at = ground (arith, allocated-lt w r.wf q b at, at)

  make_driver_term-text :
      make_driver_term em r.d.port buf (reply_tag em r.state) w ≡ ok (w.next, termed)
  unfolding make_driver_term
  make_driver_term-text = rw (
    driver_alloc-granted raw_block w grant,
    eqb_ne w.next 0 r.wf.started,
    strlen-at buf s r.rest (granted raw_block w)
        (ground (arith, allocated-lt w r.wf buf _ r.text_at, r.text_at)) r.characters,
    store-live w.next (term_block words) (granted raw_block w) raw_block (ground arith),
    update-update w.cells w.next (some raw_block) (some (term_block words)),
  )

  reply_term-text :
      reply_term em r.d.port r.v.type r.v.payload (reply_tag em r.state) w ≡ ok (w.next, termed)
  reply_term-text = rw (r.is_text, r.buffer_is) make_driver_term-text

  -- A text result is answered with one term, which goes to the calling process and has the atom of
  -- the provider's state, the port, and the buffer with the text's length; at that moment the buffer
  -- holds the text. Then the command and its handle are freed, each of their blocks once, and
  -- nothing else changes, but that the block of the term's words stays allocated. There is memory
  -- for the term, the state is not that of no memory, and the provider's `after_transform` returns
  -- and leaves memory as it is.
  pub ready_async_lem :
      (ready_async em provider fuel drv_data asd w ≡ ok (tt, without (ps ++ asd ∷ []) sent))
      × (termed.cells buf ≡ some (chars_block (terminated s ++ r.rest)))
      × ((without (ps ++ asd ∷ []) sent).cells w.next ≡ some (term_block words))
  ready_async_lem =
      let (e, leak) =
        ready_async-sends em provider (Answered-Returning r) fuel enough r.has_memory r.engine_at
          r.after_is returns r.result_at words reply_term-text in
      (e, sent-Extends buf _ r.text_at, leak)
