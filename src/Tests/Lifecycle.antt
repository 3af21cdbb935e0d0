-- ===== src/Tests/Lifecycle.antt =====
-- Callbacks in sequence: the driver starts, and gets a small request.
use erlxsl.Prelude.{◌++◌, ℕ, ◌≢◌, ◌<◌, inl, inr, All, ◌≡◌, refl, List, [], ◌∷◌, some, none, arith}
use erlxsl.Types.{XslEngine, LoaderSpec, DriverHandle, engine_ok, unknown_command}
use erlxsl.Memory.{
  fault, ◌>>=◌, engine_block, loader_block, chars_block, driver_failure, indeterminate_value, World,
  ok, pure, update, raw_block, handle_block, driver_alloc, store,
}
use erlxsl.Memory.WellFormed.{WellFormed}
use erlxsl.Memory.Keeps.{Grows, keeps_rules}
use erlxsl.Driver.{Provider, start_driver, outputv}
use erlxsl.Driver.Prepared.{Readable}
use erlxsl.Driver.Submit.{outputv_lem}
use erlxsl.Driver.Ignored.{outputv-ignores}
use erlxsl.Loader.{DynamicLinker, stop_driver}
use erlxsl.Loader.Stop.{Configured, stop_driver-unconfigured, stop_driver_lem}
use erlxsl.Driver.Refused.{outputv-reports}
use erlxsl.CString.Laws.{terminated}
use erlxsl.Memory.Blocks.{without}
use erlxsl.Request.{ErlIoVec, read_header, read_u64, input_source, xsl_source}
use erlxsl.Call.{call, run_call, call_reply, error_atom, unknown_command_text}
use erlxsl.Call.Commands.{call-frees_unassigned}
use erlxsl.Lifecycle.Requests.{ProviderKeeps}
use erlxsl.Lifecycle.Setup.{LinkerKeeps}
use erlxsl.Lifecycle.Trace.{Reach, here, next, start, port_output, run_callback, Reach-Grows}
use erlxsl.Tests.{nothing, always, up_to, xml, xsl, spec}
use erlxsl.Tests.Requests.{emulator, vector, vector-InOrder}
use erlxsl.Tests.Decoding.{small_ei, pair}

abbrev linker : DynamicLinker
linker = record {
  dlopen = λ file. pure 1;
  dlsym = λ library name. pure 1;
  dlerror = pure 0;
  dlclose = λ library. pure tt;
  run_init = λ f engine. pure tt;
}

linker-LinkerKeeps : LinkerKeeps linker
linker-LinkerKeeps = record {
  dlopen = λ file. search keeps_rules;
  dlsym = λ library name. search keeps_rules;
  dlerror = search keeps_rules;
  dlclose = λ library. search keeps_rules;
  run_init = λ f engine. search keeps_rules;
}

abbrev provider : Provider
provider = record { run = λ f cmd. pure engine_ok; run_shutdown = λ f. pure tt }

provider-ProviderKeeps : ProviderKeeps provider
provider-ProviderKeeps = record {
  run = λ f cmd. search keeps_rules;
  run_shutdown = λ f. search keeps_rules;
}

abbrev empty_world : World
empty_world = record { next = 1; cells = nothing; grants = always; events = [] }

empty_world-WellFormed : WellFormed empty_world
empty_world-WellFormed = record { null_free = refl; started = omega arith; fresh = λ p h. refl }

abbrev handle : DriverHandle
handle = record { port = 5; logging_port = 0; engine = none; loader = none }

abbrev started : World
started = record {
  next = 2;
  cells = update (update nothing 1 (some raw_block)) 1 (some (handle_block handle));
  grants = always;
  events = [];
}

started-WellFormed : WellFormed started
started-WellFormed = record { null_free = refl; started = omega arith; fresh = λ p h. ground arith }

abbrev Steps : ℕ → World → Type 0
Steps = Reach emulator small_ei linker provider 9 empty_world

start-Reach : Steps 1 started
unfolding run_callback start_driver driver_alloc store
start-Reach = next (start 5) here refl

request-Reach : (w : World) × Steps 2 w
unfolding run_callback
request-Reach =
    let sent =
      outputv_lem emulator 1 handle vector spec xml xsl started started-WellFormed refl
        vector-InOrder.readable (λ n. refl) (omega arith) (omega arith) (omega arith)
        (omega arith) in
    (sent.0, next (port_output 1 vector) start-Reach sent.1)

Reach-Grows_example : Grows 2 empty_world request-Reach.0
Reach-Grows_example =
    Reach-Grows emulator small_ei linker provider 9 linker-LinkerKeeps provider-ProviderKeeps
      empty_world-WellFormed request-Reach.1

-- The answer to a command that the driver does not know.
abbrev refusal : List ℕ
refusal =
    small_ei.encode_tuple_header 2
    ++ (small_ei.encode_atom error_atom ++ small_ei.encode_string unknown_command_text)

call-frees_unassigned_example :
    call small_ei linker provider 10 1 5 pair 100 started ≡ fault indeterminate_value
unfolding run_call call_reply
call-frees_unassigned_example =
    call-frees_unassigned small_ei linker provider 10 1 5 pair 100 started started started
      (unknown_command, none) refusal (omega arith) refl refl (omega arith)

-- A header that says that there is no stylesheet.
abbrev header : List ℕ
header = 0 ∷ 2 ∷ 2 ∷ 4 ∷ 0 ∷ 0 ∷ 0 ∷ 0 ∷ 0 ∷ 0 ∷ 0 ∷ 0 ∷ 0 ∷ 0 ∷ 0 ∷ 0 ∷ 0 ∷ 0 ∷ 0 ∷ xml

abbrev no_stylesheet : ErlIoVec
no_stylesheet = record { binv = none ∷ some header ∷ []; iov = [] ∷ header ∷ [] ∷ [] }

no_stylesheet-Readable : Readable emulator no_stylesheet spec xml []
unfolding read_header read_u64 input_source xsl_source
no_stylesheet-Readable = record {
  first = header;
  index = 1;
  xml_more = [];
  xsl_more = [];
  first_at = refl;
  header = refl;
  xml_at = refl;
  xsl_at = refl;
  xml_text = omega arith;
  xsl_text = tt;
  xml_fits = omega arith;
  xsl_fits = omega arith;
}

outputv-ignores_example :
    (w : World) × (outputv emulator 1 no_stylesheet started ≡ ok (tt, w))
    × (w.events ≡ [])
    × (w.next ≡ 11)
    × All (λ q. w.cells q ≢ none) (2 ∷ 3 ∷ 4 ∷ 5 ∷ 6 ∷ 7 ∷ 8 ∷ 9 ∷ 10 ∷ [])
    × ((q : ℕ) → q < 2 → w.cells q ≡ started.cells q)
outputv-ignores_example =
    outputv-ignores emulator 1 handle no_stylesheet spec xml [] started started-WellFormed refl
      no_stylesheet-Readable (λ n. refl) (inr refl)

-- Memory for everything in front of the command.
abbrev short_of_memory : World
short_of_memory = record started { grants = up_to 9 }

short_of_memory-WellFormed : WellFormed short_of_memory
short_of_memory-WellFormed = record {
  null_free = refl;
  started = omega arith;
  fresh = λ p h. ground arith;
}

outputv-reports_example :
    (w : World) × (outputv emulator 1 vector short_of_memory ≡ ok (tt, w))
    × (w.events ≡ driver_failure 5 ∷ [])
    × (w.cells 8 ≡ none)
    × All (λ q. w.cells q ≢ none) (2 ∷ 3 ∷ 4 ∷ 5 ∷ 6 ∷ 7 ∷ [])
    × ((q : ℕ) → q < 2 → w.cells q ≡ short_of_memory.cells q)
outputv-reports_example =
    outputv-reports emulator 1 handle vector spec xml xsl short_of_memory short_of_memory-WellFormed
      refl vector-InOrder.readable (λ k h. ground (arith, h)) (inl refl)

stop_driver-unconfigured_example :
    (start_driver 5 >>= stop_driver linker provider) empty_world ≡ fault indeterminate_value
stop_driver-unconfigured_example =
    stop_driver-unconfigured linker provider 5 empty_world empty_world-WellFormed (omega arith) refl

-- A handle with an engine at 2 and a library's specification at 3, whose name is at 4.
abbrev table : XslEngine
table = record {
  command = some 0;
  transform = some 1;
  after_transform = some 2;
  shutdown = some 3;
  provider_data = none;
}

abbrev library : LoaderSpec
library = record { name = some 4; error_message = none; library = some 9; init_f = some 1 }

abbrev configured_handle : DriverHandle
configured_handle = record { port = 5; logging_port = 0; engine = some 2; loader = some 3 }

abbrev configured : World
configured = record {
  next = 5;
  cells =
      update
        (update
          (update (update nothing 1 (some (handle_block configured_handle))) 2
            (some (engine_block table)))
          3 (some (loader_block library)))
        4 (some (chars_block (terminated xml)));
  grants = always;
  events = [];
}

configured-Configured : Configured configured 1 2 3 4 9 2 xml []
configured-Configured = record {
  wf = record { null_free = refl; started = omega arith; fresh = λ p h. ground arith };
  d = configured_handle;
  table = table;
  l = library;
  drv_at = refl;
  engine_is = refl;
  engine_at = refl;
  shutdown_is = refl;
  loader_is = refl;
  loader_at = refl;
  name_is = refl;
  name_at = refl;
  is_text = omega arith;
  library_is = refl;
}

stop_driver_lem_example :
    (stop_driver linker provider 1 configured ≡ ok (tt, without (2 ∷ 3 ∷ 1 ∷ []) configured))
    × (World.cells (without (2 ∷ 3 ∷ 1 ∷ []) configured) 4 ≡ some (chars_block (terminated xml)))
stop_driver_lem_example = stop_driver_lem linker provider configured-Configured refl refl
