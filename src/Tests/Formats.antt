-- ===== src/Tests/Formats.antt =====
-- Replies to results of other formats, and to a transform without memory, on a small command.
use erlxsl.Prelude.{◌≡◌, refl, List, [], ◌∷◌, some, arith}
use erlxsl.Types.{
  EngineState, engine_ok, out_of_memory_error, DataFormat, text, binary, opaque, TermWord,
}
use erlxsl.Memory.{
  Block, binary_block, World, ok, update, command_block, iov_block, chars_block, async_block,
  term_block, driver_failure, driver_send_term,
}
use erlxsl.Memory.Blocks.{without}
use erlxsl.Memory.WellFormed.{WellFormed, granted}
use erlxsl.CString.Laws.{terminated}
use erlxsl.Internal.Owned.{another_command, null_iov, an_iov}
use erlxsl.Driver.{Emulator, ready_async}
use erlxsl.Driver.Returning.{Returning, ready_async-out_of_memory}
use erlxsl.Driver.Reply.{reply_words}
use erlxsl.Driver.Formats.{unsupported_text, ready_async-unsupported}
use erlxsl.Tests.{always, xml}
use erlxsl.Tests.Requests.{emulator}
use erlxsl.Tests.Replies.{
  command, result, context, driver_handle, async_handle, provider, answered, ok_ne,
}

-- The small command with a result of this format and with this state; the driver's text stands at 8.
-- A binary of four bytes, or the text.
abbrev payload_of : DataFormat → Block
payload_of binary = binary_block 4
payload_of _ = chars_block (terminated xml)

abbrev returned : DataFormat → EngineState → World
returned f st = record (answered always) {
  next = 9;
  cells =
      update
        (update
          (update (update (answered always).cells 2 (some (iov_block (record result { type = f }))))
            3 (some (payload_of f)))
          7 (some (async_block (record async_handle { state = some st }))))
        8 (some (chars_block (terminated unsupported_text)));
}

abbrev at_8 : Emulator
at_8 = record emulator { unsupported_response_type = 8 }

returned-WellFormed : (f : DataFormat) (st : EngineState) → WellFormed (returned f st)
returned-WellFormed f st = record {
  null_free = refl;
  started = omega arith;
  fresh = λ p h. ground arith;
}

abbrev returned_call :
    (f : DataFormat) (st : EngineState) → Returning (returned f st) 5 7 1 (3 ∷ 2 ∷ 1 ∷ [])
returned_call f st = record {
  d = driver_handle;
  engine = 6;
  a = record async_handle { state = some st };
  state = st;
  c = command;
  ctx = context;
  wf = returned-WellFormed f st;
  drv_at = refl;
  engine_is = refl;
  asd_at = refl;
  state_is = refl;
  command_is = refl;
  cmd_at = refl;
  context_at = refl;
  command_owns =
      another_command command [] (3 ∷ 2 ∷ []) (omega arith) refl refl (null_iov refl refl)
        (an_iov (record result { type = f }) (omega arith) refl refl) refl;
  live = (
    (payload_of f, omega arith, refl),
    (
      (iov_block (record result { type = f }), omega arith, refl),
      (
        (command_block command, omega arith, refl),
        ((async_block (record async_handle { state = some st }), omega arith, refl), tt),
      ),
    ),
  );
  distinct = omega arith;
}

-- A term of these words is sent to the calling process.
abbrev sent : DataFormat → List TermWord → World
sent f words = record (granted (term_block words) (returned f engine_ok)) {
  events = driver_send_term 77 words (granted (term_block words) (returned f engine_ok)).cells ∷ [];
}

ready_async-unsupported_example :
    (ready_async at_8 provider 3 5 7 (returned opaque engine_ok)
      ≡ ok (tt, without (3 ∷ 2 ∷ 1 ∷ 7 ∷ []) (sent opaque (reply_words 1 5 8 26))))
    × ((without (3 ∷ 2 ∷ 1 ∷ 7 ∷ []) (sent opaque (reply_words 1 5 8 26))).cells 9
        ≡ some (term_block (reply_words 1 5 8 26)))
ready_async-unsupported_example =
    ready_async-unsupported at_8 provider (returned_call opaque engine_ok) 3 (omega arith) ok_ne
      refl refl (λ v. (engine_ok, refl)) refl refl [] refl (ground arith) (ground arith)

ready_async-out_of_memory_example :
    ready_async emulator provider 3 5 7 (returned text out_of_memory_error)
    ≡ ok (
      tt,
      record (without (3 ∷ 2 ∷ 1 ∷ 7 ∷ []) (returned text out_of_memory_error)) {
        events = driver_failure 5 ∷ [];
      },
    )
ready_async-out_of_memory_example =
    ready_async-out_of_memory emulator provider (returned_call text out_of_memory_error) 3
      (omega arith) refl
