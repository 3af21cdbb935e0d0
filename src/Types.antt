-- ===== src/Types.antt =====
-- The data types of c_src/erlxsl.h and c_src/erlxsl_internal.h. A pointer is an address, and 0 is
-- NULL. A field of type `Option` may be indeterminate (`none`): the code allocates the struct and
-- does not assign the field. The members of a union share one field, as they share its storage.
use erlxsl.Prelude.{ℕ, Bool, List, Option, ◌≡◌, refl}

abbrev pub Ptr : Type 0
Ptr = ℕ

-- The low 32 bits of an `Int32`.
abbrev pub Int32 : Type 0
Int32 = ℕ

pub data ItemType : Type 0 where
  string_item pid_item term_item : ItemType

pub data DriverState : Type 0 where
  success init_ok library_not_found entry_point_not_found init_failed out_of_memory : DriverState
  unknown_command unsupported_operation_error bad_argument_error : DriverState
  empty_buffer_error decode_error : DriverState

pub data EngineState : Type 0 where
  engine_ok engine_error xml_parse_error xsl_compile_error xsl_transform_error : EngineState
  out_of_memory_error : EngineState

-- The enumerators' numbers.
abbrev pub driver_state_code : DriverState → ℕ
driver_state_code success = 0
driver_state_code init_ok = 1
driver_state_code library_not_found = 2
driver_state_code entry_point_not_found = 3
driver_state_code init_failed = 4
driver_state_code out_of_memory = 5
driver_state_code unknown_command = 6
driver_state_code unsupported_operation_error = 7
driver_state_code bad_argument_error = 8
driver_state_code empty_buffer_error = 9
driver_state_code decode_error = 10

abbrev pub engine_state_code : EngineState → ℕ
engine_state_code engine_ok = 0
engine_state_code engine_error = 1
engine_state_code xml_parse_error = 2
engine_state_code xsl_compile_error = 3
engine_state_code xsl_transform_error = 4
engine_state_code out_of_memory_error = 5

-- An `EngineState` that is returned as a `DriverState` keeps its number.
abbrev pub as_driver_state : EngineState → DriverState
as_driver_state engine_ok = success
as_driver_state engine_error = init_ok
as_driver_state xml_parse_error = library_not_found
as_driver_state xsl_compile_error = entry_point_not_found
as_driver_state xsl_transform_error = init_failed
as_driver_state out_of_memory_error = out_of_memory

pub as_driver_state-code :
    (s : EngineState) → driver_state_code (as_driver_state s) ≡ engine_state_code s
as_driver_state-code engine_ok = refl
as_driver_state-code engine_error = refl
as_driver_state-code xml_parse_error = refl
as_driver_state-code xsl_compile_error = refl
as_driver_state-code xsl_transform_error = refl
as_driver_state-code out_of_memory_error = refl

-- `InputType`: the driver casts any byte of a request to it, so it is a number.
abbrev pub InputType : Type 0
InputType = ℕ

abbrev pub file_input : InputType
file_input = 1

abbrev pub buffer_input : InputType
buffer_input = 2

abbrev pub stream_input : InputType
stream_input = 3

pub data DataFormat : Type 0 where
  binary term_data object text opaque : DataFormat

pub record DriverIoVec : Type 0 where
  pub dirty : Bool
  pub type : DataFormat
  pub size : Int32
  pub payload : Ptr

pub record InputDocument : Type 0 where
  pub type : InputType
  pub iov : Ptr

pub record DriverContext : Type 0 where
  pub port : ℕ
  pub caller_pid : ℕ

pub record ParameterListNode : Type 0 where
  pub key : Ptr
  pub value : Ptr
  pub next : Ptr

pub record XslTask : Type 0 where
  pub input_doc : Option Ptr
  pub xslt_doc : Option Ptr
  pub parameters : Option Ptr

-- The function pointers that `init_command` stores.
pub data AllocFunction : Type 0 where
  internal_alloc : AllocFunction

pub data ReallocFunction : Type 0 where
  internal_realloc : ReallocFunction

pub data ReleaseFunction : Type 0 where
  internal_free : ReleaseFunction

-- `command_string` is the text that the pointer leads to, `none` for NULL: it is a string constant
-- or a caller's buffer, and the driver neither writes nor frees it. `command_data` is the union.
pub record Command : Type 0 where
  pub command_string : Option (List ℕ)
  pub command_data : Ptr
  pub result : Ptr
  pub context : Ptr
  pub alloc : AllocFunction
  pub resize : ReallocFunction
  pub release : ReleaseFunction
  pub async_state : Ptr

pub record InputSpec : Type 0 where
  pub input_kind : ℕ
  pub xsl_kind : ℕ
  pub param_grp_arity : ℕ

pub record PayloadSize : Type 0 where
  pub input_size : ℕ
  pub xsl_size : ℕ

pub record AsyncState : Type 0 where
  pub state : Option EngineState
  pub driver : Option Ptr
  pub command : Option Ptr

pub record LoaderSpec : Type 0 where
  pub name : Option Ptr
  pub error_message : Option Ptr
  pub library : Option Ptr
  pub init_f : Option ℕ

pub record DriverHandle : Type 0 where
  pub port : ℕ
  pub logging_port : ℕ
  pub engine : Option Ptr
  pub loader : Option Ptr

pub record CmdData : Type 0 where
  pub tag : Option Ptr
  pub type : Option ItemType
  pub payload : Option Ptr

-- An engine's table of functions, each named by a number that the provider gives it; `none` is
-- indeterminate and `some 0` is NULL.
pub record XslEngine : Type 0 where
  pub command : Option ℕ
  pub transform : Option ℕ
  pub after_transform : Option ℕ
  pub shutdown : Option ℕ
  pub provider_data : Option Ptr

-- The words of a term in the emulator's term format.
pub data TermWord : Type 0 where
  erl_drv_atom erl_drv_port erl_drv_buf2binary erl_drv_binary erl_drv_uint : TermWord
  erl_drv_tuple : TermWord
  value : ℕ → TermWord
