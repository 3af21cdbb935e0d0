-- ===== src/Tests.antt =====
-- Small worlds on which the definitions are run and the theorems are applied.
mod Cycle
mod Results
mod Replies
mod Formats
mod Sessions
mod Traffic
mod Lifecycle
pub mod Decoding
pub mod Requests
use erlxsl.Prelude.{
  ℕ, ◌≤◌, ◌≡◌, ◌≢◌, refl, Bool, true, false, List, [], ◌∷◌, ◌++◌, Option, none, some, arith,
  if◌then◌else◌, ◌==◌, ltb,
}
use erlxsl.Types.{PayloadSize, InputSpec, buffer_input}
use erlxsl.Memory.{
  World, Cells, Block, update, raw_block, chars_block, payload_size_block, input_spec_block,
}
use erlxsl.Memory.WellFormed.{WellFormed}
use erlxsl.CString.Laws.{terminated}
use erlxsl.Internal.InitTask.{TaskRequest}

abbrev pub nothing : Cells
nothing p = none

abbrev pub always : ℕ → Bool
always n = true

-- The requests up to the n-th are granted.
abbrev pub up_to : ℕ → ℕ → Bool
up_to n k = if ltb k n then true else false

abbrev pub xml : List ℕ
xml = b'<' ∷ b'a' ∷ b'/' ∷ b'>' ∷ []

abbrev pub xsl : List ℕ
xsl = b'<' ∷ b'b' ∷ b'/' ∷ b'>' ∷ []

abbrev pub sizes : PayloadSize
sizes = record { input_size = 4; xsl_size = 4 }

abbrev pub spec : InputSpec
spec = record { input_kind = buffer_input; xsl_kind = buffer_input; param_grp_arity = 0 }

-- A task's block at 1, the sizes at 2, the kinds at 3, the documents' texts at 4 and 5.
abbrev pub request_cells : Cells
request_cells =
    update
      (update
        (update (update (update nothing 1 (some raw_block)) 2 (some (payload_size_block sizes))) 3
          (some (input_spec_block spec)))
        4 (some (chars_block (terminated xml))))
      5 (some (chars_block (terminated xsl)))

abbrev pub request : (ℕ → Bool) → World
request grants = record { next = 6; cells = request_cells; grants = grants; events = [] }

pub request-WellFormed : (grants : ℕ → Bool) → WellFormed (request grants)
request-WellFormed grants = record {
  null_free = refl;
  started = omega arith;
  fresh = λ p h. ground arith;
}

pub request-TaskRequest : (grants : ℕ → Bool) → TaskRequest (request grants) 1 2 3 4 5 sizes spec
request-TaskRequest grants = record {
  wf = request-WellFormed grants;
  task_at = refl;
  sizes_at = refl;
  spec_at = refl;
  xml_bytes = terminated xml;
  xml_at = refl;
  xsl_bytes = terminated xsl;
  xsl_at = refl;
  buffers_differ = omega arith;
  has_input = omega arith;
  has_xsl = omega arith;
}
