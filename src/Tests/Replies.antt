-- ===== src/Tests/Replies.antt =====
-- The answer to an asynchronous call, on a small command.
use erlxsl.Prelude.{ℕ, Bool, true, ◌≡◌, ◌≢◌, refl, [], ◌∷◌, none, some, arith}
use erlxsl.Types.{
  Command, DriverIoVec, DriverContext, DriverHandle, AsyncState, XslEngine, text, engine_ok,
  out_of_memory_error, internal_alloc, internal_realloc, internal_free,
}
use erlxsl.Memory.{
  World, ok, update, command_block, iov_block, chars_block, context_block, handle_block,
  engine_block, async_block, term_block, driver_failure, driver_send_term, pure,
}
use erlxsl.Memory.Blocks.{without}
use erlxsl.Memory.WellFormed.{WellFormed, granted}
use erlxsl.CString.Laws.{terminated}
use erlxsl.Internal.Owned.{another_command, null_iov, an_iov}
use erlxsl.Driver.{Provider, ready_async}
use erlxsl.Driver.Unsent.{ready_async-unsent}
use erlxsl.Driver.Reply.{Answered, ready_async_lem, reply_words}
use erlxsl.Tests.{nothing, always, up_to, xml}
use erlxsl.Tests.Requests.{emulator}

abbrev pub command : Command
command = record {
  command_string = none;
  command_data = 0;
  result = 2;
  context = 4;
  alloc = internal_alloc;
  resize = internal_realloc;
  release = internal_free;
  async_state = 0;
}

abbrev pub result : DriverIoVec
result = record { dirty = true; type = text; size = 5; payload = 3 }

abbrev pub context : DriverContext
context = record { port = 5; caller_pid = 77 }

abbrev pub driver_handle : DriverHandle
driver_handle = record { port = 5; logging_port = 0; engine = some 6; loader = some 0 }

abbrev pub engine : XslEngine
engine = record {
  command = some 0;
  transform = some 1;
  after_transform = some 2;
  shutdown = some 3;
  provider_data = none;
}

abbrev pub async_handle : AsyncState
async_handle = record { state = some engine_ok; driver = some 5; command = some 1 }

-- The engine's functions do nothing.
abbrev pub provider : Provider
provider = record { run = λ f cmd. pure engine_ok; run_shutdown = λ f. pure tt }

abbrev pub answered : (ℕ → Bool) → World
answered grants = record {
  next = 8;
  cells =
      update
        (update
          (update
            (update
              (update
                (update (update nothing 1 (some (command_block command))) 2
                  (some (iov_block result)))
                3 (some (chars_block (terminated xml))))
              4 (some (context_block context)))
            5 (some (handle_block driver_handle)))
          6 (some (engine_block engine)))
        7 (some (async_block async_handle));
  grants = grants;
  events = [];
}

answered-WellFormed : (grants : ℕ → Bool) → WellFormed (answered grants)
answered-WellFormed grants = record {
  null_free = refl;
  started = omega arith;
  fresh = λ p h. ground arith;
}

pub ok_ne : engine_ok ≢ out_of_memory_error
ok_ne = ground arith

abbrev answered_call : (grants : ℕ → Bool) → Answered (answered grants) 5 7 1 3 (3 ∷ 2 ∷ 1 ∷ []) xml
answered_call grants = record {
  d = driver_handle;
  engine = 6;
  table = engine;
  after = 1;
  a = async_handle;
  state = engine_ok;
  c = command;
  ctx = context;
  v = result;
  rest = [];
  wf = answered-WellFormed grants;
  drv_at = refl;
  engine_is = refl;
  engine_at = refl;
  after_is = refl;
  asd_at = refl;
  state_is = refl;
  has_memory = ok_ne;
  command_is = refl;
  cmd_at = refl;
  context_at = refl;
  result_at = refl;
  is_text = refl;
  buffer_is = refl;
  text_at = refl;
  characters = omega arith;
  command_owns =
      another_command command [] (3 ∷ 2 ∷ []) (omega arith) refl refl (null_iov refl refl)
        (an_iov result (omega arith) refl refl) refl;
  live = (
    (chars_block (terminated xml), omega arith, refl),
    (
      (iov_block result, omega arith, refl),
      (
        (command_block command, omega arith, refl),
        ((async_block async_handle, omega arith, refl), tt),
      ),
    ),
  );
  distinct = omega arith;
}

abbrev termed : World
termed = granted (term_block (reply_words 1 5 3 4)) (answered always)

abbrev sent : World
sent = record termed { events = driver_send_term 77 (reply_words 1 5 3 4) termed.cells ∷ [] }

ready_async_lem_example :
    (ready_async emulator provider 3 5 7 (answered always)
      ≡ ok (tt, without (3 ∷ 2 ∷ 1 ∷ 7 ∷ []) sent))
    × (termed.cells 3 ≡ some (chars_block (terminated xml)))
    × ((without (3 ∷ 2 ∷ 1 ∷ 7 ∷ []) sent).cells 8 ≡ some (term_block (reply_words 1 5 3 4)))
ready_async_lem_example =
    ready_async_lem emulator provider (answered_call always) refl (λ v. (engine_ok, refl)) 3
      (omega arith)

ready_async-unsent_example :
    ready_async emulator provider 3 5 7 (answered (up_to 8))
    ≡ ok (tt, record (answered (up_to 8)) { next = 9; events = driver_failure 5 ∷ [] })
ready_async-unsent_example = ready_async-unsent emulator provider (answered_call (up_to 8)) 3 refl
