-- ===== src/Call.antt =====
-- The `call` callback of c_src/erlxsl.c, by which Erlang code sets the provider up and sends it
-- commands.
pub mod Commands
use erlxsl.Prelude.{
  ℕ, zero, suc, ◌+◌, List, [], ◌∷◌, ◌++◌, Option, none, some, Bool, true, false, ◌==◌, ltb,
  if◌then◌else◌, length,
}
use erlxsl.Types.{Ptr, DriverState, success, init_ok, out_of_memory, unknown_command, text}
use erlxsl.Memory.{
  M, ◌>>=◌, ◌>>◌, pure, throw, defined, alloc_chars, driver_alloc, drv_free, raw_block, load_handle,
  load_engine, load_loader, buffer_overflow,
}
use erlxsl.CString.{c_string, log_string}
use erlxsl.Internal.{init_iov, init_command}
use erlxsl.Ei.{Ei, write_text, decode_ei_cmd, is_success}
use erlxsl.Driver.{Provider, call_engine}
use erlxsl.Loader.{DynamicLinker, init_provider}

abbrev pub init_command_code : ℕ
init_command_code = 9

abbrev pub engine_command_code : ℕ
engine_command_code = 7

-- "Out of Memory!", "Unknown Command!"
abbrev pub heap_space_exhausted : List ℕ
heap_space_exhausted =
    b'O' ∷ b'u' ∷ b't' ∷ b' ' ∷ b'o' ∷ b'f' ∷ b' ' ∷ b'M' ∷ b'e' ∷ b'm' ∷ b'o' ∷ b'r' ∷ b'y' ∷ b'!'
    ∷ []

abbrev pub unknown_command_text : List ℕ
unknown_command_text =
    b'U' ∷ b'n' ∷ b'k' ∷ b'n' ∷ b'o' ∷ b'w' ∷ b'n' ∷ b' ' ∷ b'C' ∷ b'o' ∷ b'm' ∷ b'm' ∷ b'a' ∷ b'n'
    ∷ b'd' ∷ b'!' ∷ []

-- "ok", "error", "configured"
abbrev pub ok_atom : List ℕ
ok_atom = b'o' ∷ b'k' ∷ []

abbrev pub error_atom : List ℕ
error_atom = b'e' ∷ b'r' ∷ b'r' ∷ b'o' ∷ b'r' ∷ []

abbrev pub configured_atom : List ℕ
configured_atom = b'c' ∷ b'o' ∷ b'n' ∷ b'f' ∷ b'i' ∷ b'g' ∷ b'u' ∷ b'r' ∷ b'e' ∷ b'd' ∷ []

-- The index behind the version, which is not looked at; it stays where it is if there is none.
abbrev pub behind_version : Option (ℕ × ℕ) → ℕ
behind_version none = 0
behind_version (some (index, version)) = index

-- A decoded string is written to its buffer; if there is none, the buffer is left as it is.
abbrev pub write_decoded : Ptr → Option (ℕ × List ℕ) → M (Unit {0})
write_decoded p none = pure tt
write_decoded p (some (index, s)) = write_text p s

-- INIT_COMMAND: the state, and the buffer to free in the end.
unfoldable pub call_init : Ei → DynamicLinker → Ptr → List ℕ → ℕ → M (DriverState × Option Ptr)
call_init ei dl drv_data buf index = do
  described ← defined (ei.get_type buf index)
  file ← alloc_chars (described.1 + 1)
  write_decoded file (ei.decode_string buf index)
  log_string file
  state ← init_provider dl drv_data file
  pure (state, some file)

-- A command for the engine's own function, if it has one; its answer is not looked at.
abbrev pub run_command : Provider → ℕ → Ptr → M (Unit {0})
run_command provider zero cmd = pure tt
run_command provider (suc f) cmd = do enstate ← provider.run (suc f) cmd; pure tt

-- ENGINE_COMMAND: nothing assigns the buffer that is freed in the end.
unfoldable pub call_engine_command :
    Ei → Provider → ℕ → Ptr → List ℕ → ℕ → M (DriverState × Option Ptr)
call_engine_command ei provider fuel drv_data buf index = do
  ctx ← driver_alloc raw_block
  iov ← init_iov text 0 0
  cmd ← init_command none ctx 0 iov
  decoded ← decode_ei_cmd ei fuel cmd buf index
  if is_success decoded.0
      then (do
        d ← load_handle drv_data
        e ← defined d.engine
        engine ← load_engine e
        f ← defined engine.command
        run_command provider f cmd
        pure (success, none))
      else pure (decoded.0, none)

unfoldable pub run_call :
    Ei → DynamicLinker → Provider → ℕ → Ptr → ℕ → List ℕ → M (DriverState × Option Ptr)
run_call ei dl provider fuel drv_data command buf =
    let index = behind_version (ei.decode_version buf 0) in
    if command == init_command_code
    then call_init ei dl drv_data buf index
    else if command == engine_command_code
    then call_engine_command ei provider fuel drv_data buf index
    else pure (unknown_command, none)

-- The loader's message, as a string.
abbrev pub loader_message : Ei → Ptr → M (List ℕ)
loader_message ei drv_data = do
  d ← load_handle drv_data
  loader ← defined d.loader
  l ← load_loader loader
  message ← defined l.error_message
  s ← c_string message
  pure (ei.encode_string s)

-- The reply's term, behind the version.
unfoldable pub call_reply : Ei → Ptr → DriverState → M (List ℕ)
call_reply ei drv_data init_ok = do
  d ← load_handle drv_data
  loader ← defined d.loader
  l ← load_loader loader
  name ← defined l.name
  log_string name
  pure (ei.encode_atom configured_atom)
call_reply ei drv_data success = do
  s ← loader_message ei drv_data
  pure (ei.encode_tuple_header 2 ++ (ei.encode_atom ok_atom ++ s))
call_reply ei drv_data out_of_memory = pure (
    ei.encode_tuple_header 2
    ++ (ei.encode_atom error_atom ++ ei.encode_string heap_space_exhausted))
call_reply ei drv_data unknown_command = pure (
    ei.encode_tuple_header 2
    ++ (ei.encode_atom error_atom ++ ei.encode_string unknown_command_text))
call_reply ei drv_data _ = do
  s ← loader_message ei drv_data
  pure (ei.encode_tuple_header 2 ++ (ei.encode_atom error_atom ++ s))

-- The bytes that stand in the emulator's buffer of `rlen` bytes when the callback returns.
unfoldable pub call : Ei → DynamicLinker → Provider → ℕ → Ptr → ℕ → List ℕ → ℕ → M (List ℕ)
call ei dl provider fuel drv_data command buf rlen = do
  done ← run_call ei dl provider fuel drv_data command buf
  reply ← call_reply ei drv_data done.0
  let bytes = ei.encode_version ++ reply
  if ltb rlen (length bytes)
      then throw buffer_overflow
      else (do unused ← defined done.1; drv_free unused; pure bytes)
