-- ===== src/Api.antt =====
-- The macros of c_src/erlxsl.h that read a command, a vector or a document, for providers.
use erlxsl.Prelude.{
  ℕ, ◌-◌, ◌^◌, List, Bool, true, false, Option, none, some, ◌==◌, if◌then◌else◌, same_string,
}
use erlxsl.Types.{Ptr, Int32, DataFormat, binary, term_data, object, text, opaque}
use erlxsl.Memory.{M, ◌>>=◌, pure, throw, load_command, load_iov, load_document, invalid_access}
use erlxsl.Internal.{transform_command}

abbrev pub is_text : DataFormat → Bool
is_text text = true
is_text binary = false
is_text term_data = false
is_text object = false
is_text opaque = false

-- `strcmp` does not take NULL.
abbrev compare_command : Option (List ℕ) → M Bool
compare_command none = throw invalid_access
compare_command (some s) = pure (same_string transform_command s)

unfoldable pub get_task : Ptr → M Ptr
get_task cmd = if cmd == 0 then pure 0 else (do
  c ← load_command cmd
  same ← compare_command c.command_string
  pure (if same then c.command_data else 0))

unfoldable pub get_buffer : Ptr → M Ptr
get_buffer iov =
    if iov == 0
    then pure 0
    else (do v ← load_iov iov; pure (if is_text v.type then v.payload else 0))

unfoldable pub get_doc_buffer : Ptr → M Ptr
get_doc_buffer idoc = if idoc == 0 then pure 0 else (do d ← load_document idoc; get_buffer d.iov)

-- -1 as an `Int32`.
abbrev pub minus_one : Int32
minus_one = 2 ^ 32 - 1

unfoldable pub get_doc_size : Ptr → M Int32
get_doc_size idoc = if idoc == 0 then pure minus_one else (do
  d ← load_document idoc
  if d.iov == 0 then pure minus_one else (do v ← load_iov d.iov; pure v.size))
