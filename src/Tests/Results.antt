-- ===== src/Tests/Results.antt =====
-- Result buffers and the test engine, on a small command.
use erlxsl.Prelude.{inr, ◌≡◌, refl, false, [], ◌++◌, Option, none, some, arith, replicate}
use erlxsl.Types.{
  out_of_memory, engine_ok, EngineState, Ptr, text, DriverIoVec, Command, internal_alloc,
  internal_realloc, internal_free, DriverHandle,
}
use erlxsl.Memory.{
  World, Outcome, Block, load, store, driver_alloc, drv_free, ok, fault, update, chars_block,
  iov_block, command_block, task_block, document_block, handle_block, buffer_overflow, ◌>>=◌, pure,
  Cells,
}
use erlxsl.Memory.WellFormed.{WellFormed}
use erlxsl.CString.Laws.{terminated}
use erlxsl.Internal.{init_command, transform_command}
use erlxsl.Internal.Init.{fresh_iov}
use erlxsl.Api.{get_task, get_doc_size, get_doc_buffer, get_buffer}
use erlxsl.CString.{strlen, strcpy, strcat, c_string, read_string, put_string, put_string_at}
use erlxsl.ResultBuffer.{
  clear_result_buffer, write_result_buffer, make_result_buffer, ensure_buffer, resize_result_buffer,
  driver_realloc,
}
use erlxsl.ResultBuffer.Write.{ResultAt, write_result_buffer-appends}
use erlxsl.ResultBuffer.Clear.{clear_result_buffer_lem}
use erlxsl.Loader.Refused.{init_provider-refuses}
use erlxsl.ResultBuffer.Full.{write_result_buffer-full}
use erlxsl.ResultBuffer.Overflow.{write_result_buffer-overflows}
use erlxsl.TestEngine.{default_handle_transform, lookup_command, shutdown_command}
use erlxsl.TestEngine.Documents.{TransformReady}
use erlxsl.TestEngine.Transform.{default_handle_transform_lem}
use erlxsl.Loader.{DynamicLinker, init_provider}
use erlxsl.Loader.Name.{init_provider-overflows}
use erlxsl.Tests.{request, request-WellFormed, always, up_to, xml, xsl, nothing}

abbrev command : Command
command = record {
  command_string = some transform_command;
  command_data = 3;
  result = 2;
  context = 0;
  alloc = internal_alloc;
  resize = internal_realloc;
  release = internal_free;
  async_state = 0;
}

abbrev clean_iov : DriverIoVec
clean_iov = record { dirty = false; type = text; size = 8; payload = 8 }

abbrev document_cells : Cells
document_cells =
    update
      (update
        (update
          (update
            (update
              (update (update nothing 1 (some (command_block command))) 2
                (some (iov_block clean_iov)))
              3
              (some (
                task_block
                  (record { input_doc = some 4; xslt_doc = some 6; parameters = some 0 }))))
            4 (some (document_block (record { type = 2; iov = 5 }))))
          5 (some (iov_block (fresh_iov text 4 9))))
        6 (some (document_block (record { type = 2; iov = 7 }))))
      7 (some (iov_block (fresh_iov text 4 10)))

-- A command whose result has eight bytes at 8; the documents' texts are at 9 and 10.
abbrev ready : World
ready = record {
  next = 11;
  cells =
      update
        (update (update document_cells 8 (some (chars_block (replicate 8 none)))) 9
          (some (chars_block (terminated xml))))
        10 (some (chars_block (terminated xsl)));
  grants = always;
  events = [];
}

ready-ResultAt : ResultAt ready 1 2 8 8 []
ready-ResultAt = record {
  c = command;
  v = clean_iov;
  bytes = replicate 8 none;
  cmd_nz = omega arith;
  buf_nz = omega arith;
  cmd_at = refl;
  result_is = refl;
  iov_at = refl;
  payload_is = refl;
  type_is = refl;
  size_is = refl;
  small = omega arith;
  bytes_at = refl;
  full = refl;
  content = refl;
}

write_result_buffer-appends_example :
    (w' : World) × (write_result_buffer 9 1 ready ≡ ok (8, w'))
    × ResultAt w' 1 2 8 8 xml
    × (w' ≡ record ready { cells = update (update ready.cells 2 (w'.cells 2)) 8 (w'.cells 8) })
write_result_buffer-appends_example =
    write_result_buffer-appends ready-ResultAt 9 xml [] (omega arith) (omega arith) refl
      (omega arith) (omega arith)

ready-WellFormed : WellFormed ready
ready-WellFormed = record { null_free = refl; started = omega arith; fresh = λ p h. ground arith }

-- The same command, whose result has three bytes.
abbrev narrow_iov : DriverIoVec
narrow_iov = record { dirty = false; type = text; size = 3; payload = 8 }

abbrev narrow : World
narrow = record ready {
  cells =
      update (update ready.cells 2 (some (iov_block narrow_iov))) 8
        (some (chars_block (replicate 3 none)));
}

narrow-WellFormed : WellFormed narrow
narrow-WellFormed = record { null_free = refl; started = omega arith; fresh = λ p h. ground arith }

narrow-ResultAt : ResultAt narrow 1 2 8 3 []
narrow-ResultAt = record {
  c = command;
  v = narrow_iov;
  bytes = replicate 3 none;
  cmd_nz = omega arith;
  buf_nz = omega arith;
  cmd_at = refl;
  result_is = refl;
  iov_at = refl;
  payload_is = refl;
  type_is = refl;
  size_is = refl;
  small = omega arith;
  bytes_at = refl;
  full = refl;
  content = refl;
}

write_result_buffer-full_example : write_result_buffer 9 1 narrow ≡ fault buffer_overflow
write_result_buffer-full_example =
    write_result_buffer-full narrow-WellFormed narrow-ResultAt 9 xml [] (omega arith) (omega arith)
      refl (omega arith) (omega arith) (omega arith) refl

-- The small command's result, cleared.
abbrev emptied : World
emptied = record ready {
  cells =
      update
        (update ready.cells 2
          (some (iov_block (record ready-ResultAt.v { dirty = false; payload = 0 }))))
        8 none;
}

clear_result_buffer_lem_example :
    (clear_result_buffer 1 ready ≡ ok (tt, emptied))
    × (clear_result_buffer 1 emptied ≡ ok (tt, emptied))
clear_result_buffer_lem_example = clear_result_buffer_lem ready-WellFormed ready-ResultAt

ready-TransformReady : TransformReady ready 1 2 3 4 6 5 7 9 10 xml xsl [] []
ready-TransformReady = record {
  wf = ready-WellFormed;
  c = command;
  v = clean_iov;
  tk = record { input_doc = some 4; xslt_doc = some 6; parameters = some 0 };
  cmd_at = refl;
  is_transform = refl;
  task_is = refl;
  result_is = refl;
  result_at = refl;
  clean = refl;
  task_at = refl;
  input_is = refl;
  xslt_is = refl;
  no_parameters = refl;
  input = record {
    d = record { type = 2; iov = 5 };
    v = fresh_iov text 4 9;
    doc_at = refl;
    iov_is = refl;
    iov_at = refl;
    is_text = refl;
    owned = refl;
    size_is = refl;
    buffer_is = refl;
    text_at = refl;
    characters = omega arith;
  };
  xslt = record {
    d = record { type = 2; iov = 7 };
    v = fresh_iov text 4 10;
    doc_at = refl;
    iov_is = refl;
    iov_at = refl;
    is_text = refl;
    owned = refl;
    size_is = refl;
    buffer_is = refl;
    text_at = refl;
    characters = omega arith;
  };
  apart = omega arith;
  input_iov_apart = omega arith;
  xslt_iov_apart = omega arith;
}

default_handle_transform_lem_example :
    (w' : World) × (default_handle_transform 1 ready ≡ ok (engine_ok, w'))
    × ResultAt w' 1 2 11 9 (xml ++ xsl)
    × (w' ≡ record ready {
      next = 12;
      cells = update (update ready.cells 2 (w'.cells 2)) 11 (w'.cells 11);
    })
default_handle_transform_lem_example =
    default_handle_transform_lem ready-TransformReady (omega arith) refl

write_result_buffer-overflows_example :
    (init_command (some transform_command) 0 1 0 >>= write_result_buffer 4) (request always)
    ≡ fault buffer_overflow
write_result_buffer-overflows_example =
    write_result_buffer-overflows (some transform_command) 0 1 0 (request always)
      (request-WellFormed always) 4 xml [] refl (omega arith) (omega arith) (omega arith)
      (λ n. refl)

-- A linker that finds every library, and an entry point that does nothing.
abbrev linker : DynamicLinker
linker = record {
  dlopen = λ file. pure 1;
  dlsym = λ library name. pure 1;
  dlerror = pure 0;
  dlclose = λ library. pure tt;
  run_init = λ f engine. pure tt;
}

abbrev handle : DriverHandle
handle = record { port = 1; logging_port = 0; engine = none; loader = none }

abbrev opened : World
opened = record (request always) {
  cells = update (request always).cells 1 (some (handle_block handle));
}

opened-WellFormed : WellFormed opened
opened-WellFormed = record { null_free = refl; started = omega arith; fresh = λ p h. ground arith }

init_provider-refuses_example :
    (w' : World) × (init_provider linker 1 4 (record opened { grants = up_to 7 })
      ≡ ok (out_of_memory, w'))
    × ((q : Ptr) → w'.cells q ≡ opened.cells q)
    × (w'.events ≡ [])
init_provider-refuses_example =
    init_provider-refuses linker 1 4 (record opened { grants = up_to 7 })
      (record { null_free = refl; started = omega arith; fresh = λ p h. ground arith }) (inr refl)

init_provider-overflows_example : init_provider linker 1 4 opened ≡ fault buffer_overflow
init_provider-overflows_example =
    init_provider-overflows linker 1 4 handle xml [] opened opened-WellFormed refl refl
      (omega arith) (λ n. refl)

lookup_shutdown : lookup_command shutdown_command ≡ 3
unfolding lookup_command
lookup_shutdown = refl

-- Both texts and the terminator are in the result's buffer.
bytes_at : Outcome (EngineState × World) → Ptr → Option Block
bytes_at (ok (s, w)) p = w.cells p
bytes_at (fault e) p = none

transform_run :
    bytes_at (default_handle_transform 1 ready) 11 ≡ some (chars_block (terminated (xml ++ xsl)))
unfolding bytes_at default_handle_transform get_task get_doc_size get_doc_buffer get_buffer
    make_result_buffer write_result_buffer ensure_buffer resize_result_buffer driver_realloc strlen
    strcpy strcat c_string read_string put_string put_string_at load store driver_alloc drv_free
transform_run = refl
