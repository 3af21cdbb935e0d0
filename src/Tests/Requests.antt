-- ===== src/Tests/Requests.antt =====
-- A small request, from the Erlang side's header to the submitted command.
use erlxsl.Prelude.{ℕ, ◌≡◌, ◌<◌, refl, List, [], ◌∷◌, ◌++◌, none, some, arith}
use erlxsl.Types.{DriverHandle, Command}
use erlxsl.Memory.{
  World, ok, fault, update, handle_block, async_block, context_block, driver_async,
  missing_argument, driver_failure, chars_block, command_block,
}
use erlxsl.Memory.WellFormed.{WellFormed, refused}
use erlxsl.Memory.Blocks.{without}
use erlxsl.CString.Laws.{terminated}
use erlxsl.Request.{little, big, ErlIoVec, read_header, read_u64, input_source, xsl_source}
use erlxsl.Request.Header.{pack_header, read_header-pack_header}
use erlxsl.TestEngine.Documents.{TransformReady}
use erlxsl.Driver.{Emulator, outputv, try_driver_alloc}
use erlxsl.Driver.Allocation.{try_driver_alloc-refused}
use erlxsl.Driver.Submit.{InOrder, outputv_lem}
use erlxsl.Traffic.System.{calling}
use erlxsl.Tests.{request, always, up_to, xml, xsl, spec, nothing}

read_header-pack_header_example :
    read_header big (pack_header big 0 2 1 70000 4 ++ xml)
    ≡ ok (
      record { input_kind = 2; xsl_kind = 1; param_grp_arity = 0 },
      record { input_size = 70000; xsl_size = 4 },
    )
read_header-pack_header_example = read_header-pack_header big 0 2 1 70000 4 xml

try_driver_alloc-refused_example :
    (try_driver_alloc 9 (4 ∷ 5 ∷ 0 ∷ 3 ∷ []) (request (up_to 6))
      ≡ ok (
        0,
        record (without (4 ∷ 5 ∷ []) (refused (request (up_to 6)))) {
          events = driver_failure 9 ∷ [];
        },
      ))
    × (try_driver_alloc 9 (4 ∷ 5 ∷ []) (request (up_to 6)) ≡ fault missing_argument)
try_driver_alloc-refused_example =
    try_driver_alloc-refused 9 (4 ∷ 5 ∷ []) (3 ∷ []) (request (up_to 6))
      (
        (chars_block (terminated xml), omega arith, refl),
        ((chars_block (terminated xsl), omega arith, refl), tt),
      )
      (omega arith) refl

abbrev pub emulator : Emulator
emulator = record {
  endian = little;
  driver_caller = λ port. 77;
  driver_mk_port = λ port. port;
  atom_result = 1;
  atom_error = 2;
  unsupported_response_type = 0;
}

-- The header and the input in one binary, and the small stylesheet in the vector.
abbrev packed : List ℕ
packed = 0 ∷ 2 ∷ 2 ∷ 4 ∷ 0 ∷ 0 ∷ 0 ∷ 0 ∷ 0 ∷ 0 ∷ 0 ∷ 4 ∷ 0 ∷ 0 ∷ 0 ∷ 0 ∷ 0 ∷ 0 ∷ 0 ∷ xml

abbrev pub vector : ErlIoVec
vector = record { binv = none ∷ some packed ∷ []; iov = [] ∷ packed ∷ xsl ∷ [] }

-- The request in order, whichever process sends it.
pub vector-InOrder_for : (caller : ℕ) → InOrder (calling emulator caller) vector spec xml xsl
unfolding read_header read_u64 input_source xsl_source
vector-InOrder_for caller = record {
  readable = record {
    first = packed;
    index = 1;
    xml_more = [];
    xsl_more = [];
    first_at = refl;
    header = refl;
    xml_at = refl;
    xsl_at = refl;
    xml_text = omega arith;
    xsl_text = omega arith;
    xml_fits = omega arith;
    xsl_fits = omega arith;
  };
  has_xml = omega arith;
  has_xsl = omega arith;
}

pub vector-InOrder : InOrder emulator vector spec xml xsl
vector-InOrder = vector-InOrder_for 77

abbrev driver_handle : DriverHandle
driver_handle = record { port = 5; logging_port = 0; engine = none; loader = none }

abbrev driver_world : World
driver_world = record {
  next = 2;
  cells = update nothing 1 (some (handle_block driver_handle));
  grants = always;
  events = [];
}

driver_world-WellFormed : WellFormed driver_world
driver_world-WellFormed = record {
  null_free = refl;
  started = omega arith;
  fresh = λ p h. ground arith;
}

outputv_lem_example :
    (w' : World) × (outputv emulator 1 vector driver_world ≡ ok (tt, w'))
    × (w'.events ≡ driver_async 8 ∷ [])
    × (w'.cells 8 ≡ some (async_block (record { state = none; driver = some 1; command = some 9 })))
    × (w'.cells 7 ≡ some (context_block (record { port = 5; caller_pid = 77 })))
    × ((c : Command) × (w'.cells 9 ≡ some (command_block c)) × (c.context ≡ 7))
    × ((q : ℕ) → q < 2 → w'.cells q ≡ driver_world.cells q)
    × (w'.grants ≡ always)
    × TransformReady w' 9 10 6 11 13 12 14 4 5 xml xsl [] []
outputv_lem_example =
    outputv_lem emulator 1 driver_handle vector spec xml xsl driver_world driver_world-WellFormed
      refl vector-InOrder.readable (λ n. refl) (omega arith) (omega arith) (omega arith)
      (omega arith)
