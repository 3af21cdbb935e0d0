-- ===== src/Driver/Formats.antt =====
-- `ready_async` on a result that is not a text: `make_driver_term_bin`, and the reply for a format
-- that the driver does not send.
use erlxsl.Prelude.{
  ℕ, suc, ◌≤◌, ◌≡◌, ◌≢◌, refl, true, List, [], ◌∷◌, ◌++◌, Option, some, arith, length, eqb_ne,
}
use erlxsl.Types.{
  Ptr, EngineState, out_of_memory_error, DriverIoVec, DataFormat, text, binary, term_data, object,
  opaque, XslEngine, TermWord, erl_drv_atom, erl_drv_port, erl_drv_binary, erl_drv_uint,
  erl_drv_tuple, value,
}
use erlxsl.Memory.{World, ok, iov_block, engine_block, term_block, raw_block, driver_send_term}
use erlxsl.Memory.Blocks.{without}
use erlxsl.Memory.{binary_block}
use erlxsl.Memory.Steps.{store-live, driver_alloc-granted}
use erlxsl.Memory.WellFormed.{allocated-lt, granted, update-update}
use erlxsl.CString.Laws.{IsText, StringAt, strlen-at}
use erlxsl.Driver.{Emulator, Provider, ready_async, reply_term, make_driver_term}
use erlxsl.Driver.Returning.{Returning, reply_tag, ready_async-sends}
use erlxsl.Driver.Reply.{reply_words}

-- The words of the reply to a binary result: its address, and its size as one more element.
abbrev pub binary_words : ℕ → ℕ → Ptr → ℕ → List TermWord
binary_words tag port payload size =
    erl_drv_atom
    ∷ value tag
    ∷ erl_drv_port
    ∷ value port
    ∷ erl_drv_binary
    ∷ value payload
    ∷ erl_drv_uint
    ∷ value size
    ∷ erl_drv_tuple
    ∷ value 3
    ∷ []

-- "Unsupported Response Type."
abbrev pub unsupported_text : List ℕ
unsupported_text =
    b'U' ∷ b'n' ∷ b's' ∷ b'u' ∷ b'p' ∷ b'p' ∷ b'o' ∷ b'r' ∷ b't' ∷ b'e' ∷ b'd' ∷ b' ' ∷ b'R' ∷ b'e'
    ∷ b's' ∷ b'p' ∷ b'o' ∷ b'n' ∷ b's' ∷ b'e' ∷ b' ' ∷ b'T' ∷ b'y' ∷ b'p' ∷ b'e' ∷ b'.' ∷ []

unsupported_text-IsText : IsText unsupported_text
unsupported_text-IsText = omega arith

module _ (em : Emulator) (provider : Provider) {w : World} {drv_data asd cmd : Ptr} {ps : List Ptr}
    (r : Returning w drv_data asd cmd ps) (fuel : ℕ) (enough : length ps ≤ fuel)
    (has_memory : r.state ≢ out_of_memory_error) {table : XslEngine} {after : ℕ}
    (engine_at : w.cells r.engine ≡ some (engine_block table))
    (after_is : table.after_transform ≡ some (suc after))
    (returns : (v : World) → (st : EngineState) × (provider.run (suc after) cmd v ≡ ok (st, v)))
    {v : DriverIoVec} (result_at : w.cells r.c.result ≡ some (iov_block v))
    (grant : w.grants w.next ≡ true) where
  -- The world after a term of these words was sent to the calling process.
  abbrev pub told : List TermWord → World
  told words = record (granted (term_block words) w) {
    events =
        w.events
        ++ driver_send_term r.ctx.caller_pid words (granted (term_block words) w).cells ∷ [];
  }

  module _ (size : ℕ) (binary_at : w.cells v.payload ≡ some (binary_block size)) where
    abbrev words_bin : List TermWord
    words_bin = binary_words (reply_tag em r.state) (em.driver_mk_port r.d.port) v.payload size

  module _ (more : List (Option ℕ))
      (text_at : StringAt w em.unsupported_response_type unsupported_text more) where
    abbrev words_unsupported : List TermWord
    words_unsupported =
        reply_words (reply_tag em r.state) (em.driver_mk_port r.d.port) em.unsupported_response_type
          (length unsupported_text)

    make_driver_term-unsupported :
        make_driver_term em r.d.port em.unsupported_response_type (reply_tag em r.state) w
        ≡ ok (w.next, granted (term_block words_unsupported) w)
    unfolding make_driver_term
    make_driver_term-unsupported = rw (
      driver_alloc-granted raw_block w grant,
      eqb_ne w.next 0 r.wf.started,
      strlen-at em.unsupported_response_type unsupported_text more (granted raw_block w)
          (ground (arith, allocated-lt w r.wf em.unsupported_response_type _ text_at, text_at))
          unsupported_text-IsText,
      store-live w.next (term_block words_unsupported) (granted raw_block w) raw_block
          (ground arith),
      update-update w.cells w.next (some raw_block) (some (term_block words_unsupported)),
    )

    reply_term-unsupported :
        (f : DataFormat)
        → f ≢ text
        → f ≢ binary
        → reply_term em r.d.port f v.payload (reply_tag em r.state) w
          ≡ ok (w.next, granted (term_block words_unsupported) w)
    reply_term-unsupported text n m = absurd (n refl)
    reply_term-unsupported binary n m = absurd (m refl)
    reply_term-unsupported term_data n m = make_driver_term-unsupported
    reply_term-unsupported object n m = make_driver_term-unsupported
    reply_term-unsupported opaque n m = make_driver_term-unsupported

    -- A result that is neither a text nor a binary is not sent: the calling process is sent the text
    -- "Unsupported Response Type." in its place, under the atom of the provider's state, also when that
    -- is success. Then the command and its handle are freed, each of their blocks once, and nothing
    -- else changes, but that the block of the term's words stays allocated. There is memory for the
    -- term, the state is not that of no memory, and the provider's `after_transform` returns and leaves
    -- memory as it is.
    pub ready_async-unsupported :
        v.type ≢ text
        → v.type ≢ binary
        → (ready_async em provider fuel drv_data asd w
            ≡ ok (tt, without (ps ++ asd ∷ []) (told words_unsupported)))
          × ((without (ps ++ asd ∷ []) (told words_unsupported)).cells w.next
              ≡ some (term_block words_unsupported))
    ready_async-unsupported n m =
        ready_async-sends em provider r fuel enough has_memory engine_at after_is returns result_at
          words_unsupported (reply_term-unsupported v.type n m)
