-- ===== src/Driver.antt =====
-- The callbacks of c_src/erlxsl.c for a transform request, with the terms of
-- c_src/erlxsl_driver.h and the thread function of c_src/erlxsl_internal.h. The emulator and the
-- provider's engine are parameters.
pub mod Allocation
pub mod Prepared
pub mod Submit
pub mod Ignored
pub mod Refused
pub mod Returning
pub mod Reply
pub mod Formats
pub mod Unsent
pub mod Submitted
pub mod Finished
pub mod Session
pub mod Contract
pub mod Roundtrip
use erlxsl.Prelude.{
  ℕ, zero, suc, ◌+◌, ◌-◌, ◌^◌, Bool, true, false, List, [], ◌∷◌, Option, none, some, ◌==◌,
  if◌then◌else◌,
}
use erlxsl.Types.{
  Ptr, DriverState, success, out_of_memory, EngineState, engine_ok, out_of_memory_error, DataFormat,
  text, binary, term_data, object, opaque, DriverHandle, TermWord, erl_drv_atom, erl_drv_port,
  erl_drv_buf2binary, erl_drv_binary, erl_drv_uint, erl_drv_tuple, value, XslEngine, AsyncState,
}
use erlxsl.Memory.{
  M, ◌>>=◌, ◌>>◌, pure, throw, lift, defined, emit, driver_alloc, drv_free, store, load_iov,
  load_command, load_async, load_handle, load_engine, load_context, load_loader, load_binary,
  raw_block, input_spec_block, payload_size_block, context_block, async_block, handle_block,
  term_block, driver_failure, driver_async, driver_send_term, missing_argument, null_call, World,
  ok, load_term,
}
use erlxsl.CString.{strlen, log_string}
use erlxsl.Internal.{init_command, init_task, free_async_state, transform_command}
use erlxsl.Request.{Endian, ErlIoVec, read_header, binary_at, copy_text, input_source, xsl_source}

-- What the callbacks ask of the emulator. `atom_result` and `atom_error` are the static atoms that
-- `start_driver` makes.
pub record Emulator : Type 0 where
  pub endian : Endian
  pub driver_caller : ℕ → ℕ
  pub driver_mk_port : ℕ → ℕ
  pub atom_result : ℕ
  pub atom_error : ℕ
  pub unsupported_response_type : Ptr

-- The provider's functions, by the number in the engine's table.
pub record Provider : Type 1 where
  pub run : ℕ → Ptr → M EngineState
  pub run_shutdown : ℕ → M (Unit {0})

-- A call through a function pointer that is NULL is a fault.
abbrev pub call_engine : Provider → Option ℕ → Ptr → M EngineState
call_engine provider none cmd = throw erlxsl.Memory.indeterminate_value
call_engine provider (some zero) cmd = throw null_call
call_engine provider (some (suc f)) cmd = provider.run (suc f) cmd

-- The loop of `try_driver_alloc`: free each argument up to the NULL that ends them. Reading past the
-- last argument that was passed is a fault.
unfoldable pub free_arguments : List Ptr → M (Unit {0})
free_arguments [] = throw missing_argument
free_arguments (p ∷ ps) = if p == 0 then pure tt else (drv_free p >> free_arguments ps)

-- `try_driver_alloc(port, size, pfree, ...)`, with the arguments behind `pfree`, where the loop begins.
-- `outputv`, its only caller, ends no list of arguments with NULL.
unfoldable pub try_driver_alloc : ℕ → List Ptr → M Ptr
try_driver_alloc port behind = do
  val ← driver_alloc raw_block
  if val == 0 then (do free_arguments behind; emit (driver_failure port); pure val) else pure val

-- `ERL_DRV_ERROR_GENERAL`: -1, as a pointer.
abbrev pub erl_drv_error_general : Ptr
erl_drv_error_general = 2 ^ 64 - 1

unfoldable pub start_driver : ℕ → M Ptr
start_driver port = if port == 0 then pure erl_drv_error_general else (do
  d ← driver_alloc raw_block
  if d == 0 then pure erl_drv_error_general else (do
    store d (handle_block (record { port = port; logging_port = 0; engine = none; loader = none }))
    pure d))

-- What `outputv` does with the state that `init_task` returns. Any state but these two is ignored.
abbrev pub submit : ℕ → Ptr → DriverState → M (Unit {0})
submit port asd out_of_memory = do free_async_state 1 asd; emit (driver_failure port)
submit port asd success = emit (driver_async asd)
submit port asd _ = pure tt

unfoldable pub outputv : Emulator → Ptr → ErlIoVec → M (Unit {0})
outputv em drv_data ev = do
  d ← load_handle drv_data
  let port = d.port
  hspec ← driver_alloc raw_block
  if hspec == 0 then emit (driver_failure port) else (do
    hsize ← try_driver_alloc port []
    if hsize == 0 then pure tt else (do
      first ← lift (binary_at ev 1)
      header ← lift (read_header em.endian first)
      let spec = header.0
      let sizes = header.1
      store hspec (input_spec_block spec)
      store hsize (payload_size_block sizes)
      source ← lift (input_source ev first sizes.input_size)
      xml ← copy_text sizes.input_size source.1
      xsl_bytes ← lift (xsl_source ev source.0 sizes.xsl_size)
      xsl ← copy_text sizes.xsl_size xsl_bytes
      job ← try_driver_alloc port (xsl ∷ hsize ∷ hspec ∷ [])
      if job == 0 then pure tt else (do
        ctx ← try_driver_alloc port (xsl ∷ hsize ∷ hspec ∷ job ∷ [])
        if ctx == 0 then pure tt else (do
          asd ← try_driver_alloc port (xsl ∷ hsize ∷ hspec ∷ job ∷ ctx ∷ [])
          if asd == 0 then pure tt else (do
            store ctx (context_block (record { port = port; caller_pid = em.driver_caller port }))
            command ← init_command (some transform_command) ctx job 0
            store asd (
                async_block
                  (record { state = none; driver = some drv_data; command = some command }))
            if command == 0
                then (do free_async_state 1 asd; emit (driver_failure port))
                else (do state ← init_task job hsize hspec xml xsl; submit port asd state))))))

unfoldable pub apply_transform : Provider → Ptr → M (Unit {0})
apply_transform provider asd = do
  s ← load_async asd
  drv ← defined s.driver
  d ← load_handle drv
  e ← defined d.engine
  engine ← load_engine e
  command ← defined s.command
  state ← call_engine provider engine.transform command
  s' ← load_async asd
  store asd (async_block (record s' { state = some state }))
  c ← load_command command
  result ← load_iov c.result
  log_string result.payload

unfoldable pub make_driver_term : Emulator → ℕ → Ptr → ℕ → M Ptr
make_driver_term em port payload tag = do
  term ← driver_alloc raw_block
  if term == 0 then pure 0 else (do
    n ← strlen payload
    store term (
        term_block (
          erl_drv_atom
          ∷ value tag
          ∷ erl_drv_port
          ∷ value (em.driver_mk_port port)
          ∷ erl_drv_buf2binary
          ∷ value payload
          ∷ value n
          ∷ erl_drv_tuple
          ∷ value 3
          ∷ []))
    pure term)

unfoldable pub make_driver_term_bin : Emulator → ℕ → Ptr → ℕ → M Ptr
make_driver_term_bin em port payload tag = do
  term ← driver_alloc raw_block
  if term == 0 then pure 0 else (do
    size ← load_binary payload
    store term (
        term_block (
          erl_drv_atom
          ∷ value tag
          ∷ erl_drv_port
          ∷ value (em.driver_mk_port port)
          ∷ erl_drv_binary
          ∷ value payload
          ∷ erl_drv_uint
          ∷ value size
          ∷ erl_drv_tuple
          ∷ value 3
          ∷ []))
    pure term)

-- The emulator copies what the term refers to when it is sent.
abbrev pub send_term : ℕ → List TermWord → M (Unit {0})
send_term pid words w = emit (driver_send_term pid words w.cells) w

abbrev pub is_ok : EngineState → Bool
is_ok engine_ok = true
is_ok _ = false

abbrev pub is_out_of_memory : EngineState → Bool
is_out_of_memory out_of_memory_error = true
is_out_of_memory _ = false

-- The term of a reply, by the format of the result.
abbrev pub reply_term : Emulator → ℕ → DataFormat → Ptr → ℕ → M Ptr
reply_term em port text payload tag = make_driver_term em port payload tag
reply_term em port binary payload tag = make_driver_term_bin em port payload tag
reply_term em port _ payload tag = make_driver_term em port em.unsupported_response_type tag

unfoldable pub ready_async : Emulator → Provider → ℕ → Ptr → Ptr → M (Unit {0})
ready_async em provider fuel drv_data asd = do
  d ← load_handle drv_data
  e ← defined d.engine
  s ← load_async asd
  state ← defined s.state
  command ← defined s.command
  c ← load_command command
  ctx ← load_context c.context
  let tag = if is_ok state then em.atom_result else em.atom_error
  if is_out_of_memory state
      then (do free_async_state fuel asd; emit (driver_failure d.port))
      else (do
        outv ← load_iov c.result
        term ← reply_term em d.port outv.type outv.payload tag
        if term == 0 then emit (driver_failure d.port) else (do
          words ← load_term term
          send_term ctx.caller_pid words
          engine ← load_engine e
          after ← call_engine provider engine.after_transform command
          free_async_state fuel asd))
