-- ===== src/Internal.antt =====
-- The functions of c_src/erlxsl_internal.h that build and free the driver's structures. The asserts
-- are compiled out, as NDEBUG is defined unless DEBUG is.
pub mod Owned
pub mod Extends
pub mod Init
pub mod InitTask
pub mod Cycle
pub mod Free
pub mod FreeCommand
use erlxsl.Prelude.{
  ℕ, zero, suc, ◌%◌, ◌^◌, Bool, true, false, ◌||◌, List, [], ◌∷◌, Option, none, some, ◌==◌,
  if◌then◌else◌, same_string,
}
use erlxsl.Types.{
  Ptr, Int32, InputType, PayloadSize, InputSpec, DriverState, bad_argument_error,
  empty_buffer_error, success, out_of_memory_error, as_driver_state, DataFormat, text, DriverIoVec,
  internal_alloc, internal_realloc, internal_free,
}
use erlxsl.Memory.{
  M, ◌>>=◌, ◌>>◌, pure, throw, defined, driver_alloc, drv_free, store, load_iov, load_document,
  load_parameter, load_task, load_command, load_async, load_payload_size, load_input_spec,
  raw_block, iov_block, document_block, task_block, command_block, out_of_fuel,
}

-- The conversion of a wider integer to `Int32`.
abbrev pub to_int32 : ℕ → Int32
to_int32 n = n % 2 ^ 32

-- "transform", the text of the command that carries a task.
abbrev pub transform_command : List ℕ
transform_command = b't' ∷ b'r' ∷ b'a' ∷ b'n' ∷ b's' ∷ b'f' ∷ b'o' ∷ b'r' ∷ b'm' ∷ []

-- Whether the payload goes into a fresh vector's dirty bit.
abbrev pub dirty_bit : Ptr → Bool
dirty_bit payload = if payload == 0 then false else true

unfoldable pub init_iov : DataFormat → Int32 → Ptr → M Ptr
init_iov type size payload = do
  iov ← driver_alloc raw_block
  if iov == 0 then pure 0 else (do
    store iov (
        iov_block
          (record { dirty = dirty_bit payload; type = type; size = size; payload = payload }))
    pure iov)

unfoldable pub init_doc : InputType → Int32 → Ptr → M Ptr
init_doc type size text_data = do
  doc ← driver_alloc raw_block
  if doc == 0 then pure 0 else (do
    iov ← init_iov text size text_data
    store doc (document_block (record { type = type; iov = iov }))
    if iov == 0 then (do drv_free doc; pure 0) else pure doc)

-- The payload goes with its vector if the dirty bit is set, whichever member of the union it is in.
abbrev pub free_payload : Bool → Ptr → M (Unit {0})
free_payload dirty payload = if dirty then drv_free payload else pure tt

unfoldable pub free_iov : Ptr → M (Unit {0})
free_iov iov =
    if iov == 0
    then pure tt
    else (do v ← load_iov iov; if v.dirty then drv_free v.payload else pure tt; drv_free iov)

-- The loop over the list, with fuel.
unfoldable pub free_parameters : ℕ → Ptr → M (Unit {0})
free_parameters zero current = if current == 0 then pure tt else throw out_of_fuel
free_parameters (suc fuel) current = if current == 0 then pure tt else (do
  n ← load_parameter current
  drv_free n.key
  drv_free n.value
  drv_free current
  free_parameters fuel n.next)

unfoldable pub free_document : Ptr → M (Unit {0})
free_document doc =
    if doc == 0 then pure tt else (do d ← load_document doc; free_iov d.iov; drv_free doc)

unfoldable pub free_task : ℕ → Ptr → M (Unit {0})
free_task fuel task = if task == 0 then pure tt else (do
  t ← load_task task
  parameters ← defined t.parameters
  free_parameters fuel parameters
  t ← load_task task
  input_doc ← defined t.input_doc
  free_document input_doc
  t ← load_task task
  xslt_doc ← defined t.xslt_doc
  free_document xslt_doc)

-- `s != NULL && strcmp("transform", s) == 0`.
abbrev pub is_transform : Option (List ℕ) → Bool
is_transform none = false
is_transform (some s) = same_string transform_command s

unfoldable pub free_command : ℕ → Ptr → M (Unit {0})
free_command fuel cmd = if cmd == 0 then pure tt else (do
  c ← load_command cmd
  if is_transform c.command_string then free_task fuel c.command_data else free_iov c.command_data
  c ← load_command cmd
  free_iov c.result
  drv_free cmd)

unfoldable pub free_async_state : ℕ → Ptr → M (Unit {0})
free_async_state fuel state = if state == 0 then pure tt else (do
  s ← load_async state
  command ← defined s.command
  free_command fuel command
  drv_free state)

unfoldable pub clear_task_fields : Ptr → M (Unit {0})
clear_task_fields t =
    store t (task_block (record { input_doc = some 0; xslt_doc = some 0; parameters = some 0 }))

-- The second half of `init_task`, once its arguments are checked.
unfoldable pub init_documents : Ptr → PayloadSize → InputSpec → Ptr → Ptr → M DriverState
init_documents task sizes spec xml xsl = do
  xmldoc ← init_doc spec.input_kind (to_int32 sizes.input_size) xml
  if xmldoc == 0
      then (do drv_free xml; drv_free xsl; pure (as_driver_state out_of_memory_error))
      else (do
        xsldoc ← init_doc spec.xsl_kind (to_int32 sizes.xsl_size) xsl
        if xsldoc == 0
            then (do
              free_document xmldoc
              drv_free xml
              drv_free xsl
              pure (as_driver_state out_of_memory_error))
            else (do
              store task (
                  task_block (record {
                    input_doc = some xmldoc;
                    xslt_doc = some xsldoc;
                    parameters = some 0;
                  }))
              pure success))

unfoldable pub init_task : Ptr → Ptr → Ptr → Ptr → Ptr → M DriverState
init_task task hsize hspec xml xsl = if task == 0 then pure bad_argument_error else (do
  clear_task_fields task
  if hsize == 0 || hspec == 0 || xml == 0 || xsl == 0 then pure bad_argument_error else (do
    sizes ← load_payload_size hsize
    if sizes.input_size == 0 || sizes.xsl_size == 0
        then pure empty_buffer_error
        else (do spec ← load_input_spec hspec; init_documents task sizes spec xml xsl)))

unfoldable pub init_command : Option (List ℕ) → Ptr → Ptr → Ptr → M Ptr
init_command command context xsl_task iov = do
  cmd ← driver_alloc raw_block
  if cmd == 0 then pure 0 else (do
    result ← init_iov text 0 0
    if result == 0 then pure 0 else (do
      store cmd (
          command_block (record {
            command_string = command;
            command_data = if xsl_task == 0 then iov else xsl_task;
            result = result;
            context = context;
            alloc = internal_alloc;
            resize = internal_realloc;
            release = internal_free;
            async_state = 0;
          }))
      pure cmd))
