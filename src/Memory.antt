-- ===== src/Memory.antt =====
-- The memory that the driver's code works on: `driver_alloc` and `driver_free`
-- (c_src/erlxsl_driver.h), the blocks they hand out, and the monad of a function that reads and
-- writes them or meets a fault.
pub mod Steps
pub mod Blocks
pub mod WellFormed
pub mod Keeps
pub mod Answers
pub mod Gives
pub mod Finishes
use erlxsl.Prelude.{
  ℕ, ◌+◌, ◌≡◌, Bool, List, ◌++◌, [], ◌∷◌, Option, none, some, ◌==◌, if◌then◌else◌, replicate,
}
use erlxsl.Types.{
  Ptr, DriverIoVec, InputDocument, XslTask, ParameterListNode, Command, DriverContext, AsyncState,
  InputSpec, PayloadSize, LoaderSpec, DriverHandle, CmdData, TermWord, XslEngine,
}

-- A block of the heap. Of an `ErlDrvBinary` it has the size (`orig_size`). The bytes of a buffer that nothing has written are `none`.
pub data Block : Type 0 where
  raw_block : Block
  chars_block : List (Option ℕ) → Block
  iov_block : DriverIoVec → Block
  document_block : InputDocument → Block
  parameter_block : ParameterListNode → Block
  task_block : XslTask → Block
  command_block : Command → Block
  context_block : DriverContext → Block
  async_block : AsyncState → Block
  input_spec_block : InputSpec → Block
  payload_size_block : PayloadSize → Block
  loader_block : LoaderSpec → Block
  handle_block : DriverHandle → Block
  items_block : List CmdData → Block
  binary_block : ℕ → Block
  pointers_block : List (Option Ptr) → Block
  term_block : List TermWord → Block
  engine_block : XslEngine → Block

-- What C leaves undefined, and the end of a loop's fuel.
pub data Fault : Type 0 where
  invalid_access : Fault
  wrong_type : Fault
  invalid_free : Fault
  indeterminate_value : Fault
  buffer_overflow : Fault
  unterminated_string : Fault
  overlapping_copy : Fault
  out_of_fuel : Fault
  missing_argument : Fault
  null_call : Fault

abbrev pub Cells : Type 0
Cells = Ptr → Option Block

-- What the driver asks of the emulator. A term that is sent refers to buffers of the memory of that
-- moment.
pub data Event : Type 0 where
  driver_failure : ℕ → Event
  driver_async : Ptr → Event
  driver_send_term : ℕ → List TermWord → Cells → Event

-- `grants` says which requests for memory succeed; the n-th request gets the address n.
pub record World : Type 0 where
  pub next : ℕ
  pub cells : Cells
  pub grants : ℕ → Bool
  pub events : List Event

pub data Outcome {ℓ} (A : Type ℓ) : Type ℓ where
  ok : A → Outcome A
  fault : Fault → Outcome A

abbrev pub M : Type 0 → Type 0
M A = World → Outcome (A × World)

abbrev pub pure : {A : Type 0} → A → M A
pure a w = ok (a, w)

abbrev pub throw : {A : Type 0} → Fault → M A
throw e w = fault e

-- What follows a step that ended so: a fault ends the run.
abbrev pub after_step : {A B : Type 0} → Outcome (A × World) → (A → M B) → Outcome (B × World)
after_step (fault e) f = fault e
after_step (ok (a, w)) f = f a w

infixl 5 ◌>>=◌ ◌>>◌
abbrev pub ◌>>=◌ : {A B : Type 0} → M A → (A → M B) → M B
◌>>=◌ m f w = after_step (m w) f

abbrev pub ◌>>◌ : {B : Type 0} → M (Unit {0}) → M B → M B
m >> k = m >>= λ _. k

-- A computation that does not touch memory.
abbrev pub lift : {A : Type 0} → Outcome A → M A
lift (ok a) w = ok (a, w)
lift (fault e) w = fault e

abbrev pub update : Cells → Ptr → Option Block → Cells
update f p b q = if p == q then b else f q

-- `ALLOC(size)`: NULL when the request is refused.
unfoldable pub driver_alloc : Block → M Ptr
driver_alloc b w =
    if w.grants w.next
    then ok (w.next, record w { next = w.next + 1; cells = update w.cells w.next (some b) })
    else ok (0, record w { next = w.next + 1 })

abbrev pub alloc_chars : ℕ → M Ptr
alloc_chars n = driver_alloc (chars_block (replicate n none))

abbrev change_cell : Fault → Option Block → Ptr → Option Block → M (Unit {0})
change_cell e none p b w = fault e
change_cell e (some old) p b w = ok (tt, record w { cells = update w.cells p b })

-- `DRV_FREE(x)`: nothing for NULL, a fault for what is not allocated.
unfoldable pub drv_free : Ptr → M (Unit {0})
drv_free p w = if p == 0 then ok (tt, w) else change_cell invalid_free (w.cells p) p none w

abbrev viewed : {A : Type 0} → Option A → M A
viewed none w = fault wrong_type
viewed (some a) w = ok (a, w)

abbrev load_cell : {A : Type 0} → (Block → Option A) → Option Block → M A
load_cell view none w = fault invalid_access
load_cell view (some b) w = viewed (view b) w

-- A read through a pointer, at a view of the block. NULL is never allocated.
unfoldable pub load : {A : Type 0} → (Block → Option A) → Ptr → M A
load view p w = load_cell view (w.cells p) w

unfoldable pub store : Ptr → Block → M (Unit {0})
store p b w = change_cell invalid_access (w.cells p) p (some b) w

abbrev pub emit : Event → M (Unit {0})
emit e w = ok (tt, record w { events = w.events ++ e ∷ [] })

-- The value of a field, if it was assigned.
abbrev pub defined : {A : Type 0} → Option A → M A
defined none = throw indeterminate_value
defined (some a) = pure a

abbrev pub iov_of : Block → Option DriverIoVec
iov_of (iov_block v) = some v
iov_of _ = none

abbrev pub load_iov : Ptr → M DriverIoVec
load_iov = load iov_of

abbrev pub document_of : Block → Option InputDocument
document_of (document_block v) = some v
document_of _ = none

abbrev pub load_document : Ptr → M InputDocument
load_document = load document_of

abbrev pub parameter_of : Block → Option ParameterListNode
parameter_of (parameter_block v) = some v
parameter_of _ = none

abbrev pub load_parameter : Ptr → M ParameterListNode
load_parameter = load parameter_of

abbrev pub task_of : Block → Option XslTask
task_of (task_block v) = some v
task_of _ = none

abbrev pub load_task : Ptr → M XslTask
load_task = load task_of

abbrev pub command_of : Block → Option Command
command_of (command_block v) = some v
command_of _ = none

abbrev pub load_command : Ptr → M Command
load_command = load command_of

abbrev pub async_of : Block → Option AsyncState
async_of (async_block v) = some v
async_of _ = none

abbrev pub load_async : Ptr → M AsyncState
load_async = load async_of

abbrev pub chars_of : Block → Option (List (Option ℕ))
chars_of (chars_block v) = some v
chars_of _ = none

abbrev pub load_chars : Ptr → M (List (Option ℕ))
load_chars = load chars_of

abbrev pub payload_size_of : Block → Option PayloadSize
payload_size_of (payload_size_block v) = some v
payload_size_of _ = none

abbrev pub load_payload_size : Ptr → M PayloadSize
load_payload_size = load payload_size_of

abbrev pub input_spec_of : Block → Option InputSpec
input_spec_of (input_spec_block v) = some v
input_spec_of _ = none

abbrev pub load_input_spec : Ptr → M InputSpec
load_input_spec = load input_spec_of

abbrev pub loader_of : Block → Option LoaderSpec
loader_of (loader_block v) = some v
loader_of _ = none

abbrev pub load_loader : Ptr → M LoaderSpec
load_loader = load loader_of

abbrev pub handle_of : Block → Option DriverHandle
handle_of (handle_block v) = some v
handle_of _ = none

abbrev pub load_handle : Ptr → M DriverHandle
load_handle = load handle_of

abbrev pub items_of : Block → Option (List CmdData)
items_of (items_block v) = some v
items_of _ = none

abbrev pub load_items : Ptr → M (List CmdData)
load_items = load items_of

-- The pointers that an array of them holds; a block of another type holds none that are known.
abbrev pub pointers_of : Block → Option (List (Option Ptr))
pointers_of (pointers_block v) = some v
pointers_of _ = none

abbrev pub load_pointers : Ptr → M (List (Option Ptr))
load_pointers = load pointers_of

abbrev pub binary_of : Block → Option ℕ
binary_of (binary_block v) = some v
binary_of _ = none

abbrev pub load_binary : Ptr → M ℕ
load_binary = load binary_of

abbrev pub term_of : Block → Option (List TermWord)
term_of (term_block v) = some v
term_of _ = none

abbrev pub load_term : Ptr → M (List TermWord)
load_term = load term_of

abbrev pub engine_of : Block → Option XslEngine
engine_of (engine_block v) = some v
engine_of _ = none

abbrev pub load_engine : Ptr → M XslEngine
load_engine = load engine_of

abbrev pub context_of : Block → Option DriverContext
context_of (context_block v) = some v
context_of _ = none

abbrev pub load_context : Ptr → M DriverContext
load_context = load context_of
