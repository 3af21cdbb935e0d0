-- ===== src/TestEngine.antt =====
-- The provider of inttest/c_src/test_engine.c, whose transform answers with the input document
-- followed by the stylesheet. Its asserts are compiled out with NDEBUG.
pub mod Documents
pub mod Transform
pub mod Commands
use erlxsl.Prelude.{
  ℕ, ◌+◌, ◌-◌, ◌%◌, ◌^◌, List, [], ◌∷◌, ◌++◌, Option, none, some, ◌==◌, if◌then◌else◌, same_string,
}
use erlxsl.Types.{Ptr, Int32, EngineState, engine_ok, out_of_memory_error}
use erlxsl.Memory.{M, ◌>>=◌, ◌>>◌, pure, defined, load_task}
use erlxsl.Internal.{transform_command}
use erlxsl.Api.{get_task, get_doc_size, get_doc_buffer, minus_one}
use erlxsl.ResultBuffer.{as_int32, make_result_buffer, write_result_buffer}

-- "after_transform" and "shutdown"
abbrev pub after_transform_command : List ℕ
after_transform_command = b'a' ∷ b'f' ∷ b't' ∷ b'e' ∷ b'r' ∷ b'_' ∷ transform_command

abbrev pub shutdown_command : List ℕ
shutdown_command = b's' ∷ b'h' ∷ b'u' ∷ b't' ∷ b'd' ∷ b'o' ∷ b'w' ∷ b'n' ∷ []

-- The table of command codes.
abbrev pub codes : List (List ℕ × Int32)
codes = (transform_command, 1) ∷ (after_transform_command, 2) ∷ (shutdown_command, 3) ∷ []

-- The loop over the table; -1 for a command that is not in it.
unfoldable pub lookup_in : List (List ℕ × Int32) → List ℕ → Int32
lookup_in [] cmd = minus_one
lookup_in ((name, code) ∷ table) cmd = if same_string name cmd then code else lookup_in table cmd

unfoldable pub lookup_command : List ℕ → Int32
unfolding lookup_in
lookup_command cmd = lookup_in codes cmd

-- Write one document's text to the result, and go on if that was possible.
abbrev pub write_document : Ptr → Ptr → M EngineState → M EngineState
write_document buffer cmd rest = do
  p ← write_result_buffer buffer cmd
  if p == 0 then pure out_of_memory_error else rest

unfoldable pub default_handle_transform : Ptr → M EngineState
default_handle_transform cmd = do
  task ← get_task cmd
  t ← load_task task
  input_doc ← defined t.input_doc
  xslt_doc ← defined t.xslt_doc
  input_size ← get_doc_size input_doc
  xslt_size ← get_doc_size xslt_doc
  made ← make_result_buffer (as_int32 ((input_size + xslt_size + 1) % 2 ^ 32)) cmd
  if made == 0 then pure out_of_memory_error else (do
    input ← get_doc_buffer input_doc
    stylesheet ← get_doc_buffer xslt_doc
    write_document input cmd (write_document stylesheet cmd (pure engine_ok)))

-- It only writes to the log.
abbrev pub default_post_handle : Ptr → M EngineState
default_post_handle result = pure engine_ok
