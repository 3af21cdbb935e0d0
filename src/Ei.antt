-- ===== src/Ei.antt =====
-- Decoding of commands in the external term format: `decode_ei_cmd` of c_src/erlxsl_ei.h. The ei
-- library is a parameter.
pub mod Progress
pub mod Overflow
use erlxsl.Prelude.{
  ℕ, zero, suc, ◌+◌, List, [], ◌∷◌, Option, none, some, Bool, true, false, ◌==◌, if◌then◌else◌,
  length,
}
use erlxsl.Types.{
  Ptr, DriverState, success, out_of_memory, unsupported_operation_error, decode_error, string_item,
}
use erlxsl.Memory.{
  M, ◌>>=◌, ◌>>◌, pure, throw, lift, defined, alloc_chars, drv_free, store, load_chars,
  load_command, load_iov, chars_block, indeterminate_value, out_of_fuel,
}
use erlxsl.CString.{c_string, strlen, strcpy, put_string}
use erlxsl.CommandData.{alloc_item, write_cmd_data, get_cmd_data, load_item, store_item}

-- What the driver asks of the ei library, of a buffer and an index into it: a decoder answers with
-- the index behind the term, or `none` if there is no such term; an encoder answers with the bytes.
pub record Ei : Type 0 where
  pub decode_version : List ℕ → ℕ → Option (ℕ × ℕ)
  pub get_type : List ℕ → ℕ → Option (ℕ × ℕ)
  pub decode_tuple_header : List ℕ → ℕ → Option (ℕ × ℕ)
  pub decode_atom : List ℕ → ℕ → Option (ℕ × List ℕ)
  pub decode_string : List ℕ → ℕ → Option (ℕ × List ℕ)
  pub encode_version : List ℕ
  pub encode_tuple_header : ℕ → List ℕ
  pub encode_atom : List ℕ → List ℕ
  pub encode_string : List ℕ → List ℕ

-- The types of terms, as ei.h has them, and the room for an atom's text.
abbrev pub erl_atom_ext : ℕ
erl_atom_ext = b'd'

abbrev pub erl_small_tuple_ext : ℕ
erl_small_tuple_ext = b'h'

abbrev pub erl_string_ext : ℕ
erl_string_ext = b'k'

abbrev pub max_atom_len : ℕ
max_atom_len = 255

-- A decoded text is written to the caller's buffer with its terminator; ei skips it if the buffer is
-- NULL.
unfoldable pub write_text : Ptr → List ℕ → M (Unit {0})
write_text p s = if p == 0 then pure tt else (do
  bytes ← load_chars p
  written ← lift (put_string s bytes)
  store p (chars_block written))

abbrev pub is_success : DriverState → Bool
is_success success = true
is_success _ = false

-- The case of an atom, which becomes the tag of the command's first item.
abbrev pub tag_item : Ptr → ℕ → Ptr → Option (ℕ × List ℕ) → M (DriverState × ℕ)
tag_item cmd index pcmd none = pure (decode_error, index)
tag_item cmd index pcmd (some (index', atom)) = do
  write_text pcmd atom
  item ← get_cmd_data cmd
  n ← strlen pcmd
  tag ← alloc_chars n
  i ← load_item item
  store_item item (record i { tag = some tag })
  copied ← strcpy tag pcmd
  pure (success, index')

unfoldable pub decode_tag : Ei → Ptr → List ℕ → ℕ → M (DriverState × ℕ)
decode_tag ei cmd buf index = do
  pcmd ← alloc_chars max_atom_len
  tag_item cmd index pcmd (ei.decode_atom buf index)

-- The case of a string, which is copied over the first item's payload. `strncpy` writes the same
-- bytes as the `strcpy` behind it, but the last.
abbrev pub fill_item : Ptr → Ptr → Option (ℕ × List ℕ) → M (DriverState × ℕ)
fill_item cmd copy none = throw indeterminate_value
fill_item cmd copy (some (index', s)) = do
  write_text copy s
  item ← get_cmd_data cmd
  i ← load_item item
  store_item item (record i { type = some string_item })
  payload ← defined i.payload
  copied ← strcpy payload copy
  pure (success, index')

unfoldable pub decode_payload : Ei → Ptr → List ℕ → ℕ → ℕ → M (DriverState × ℕ)
decode_payload ei cmd buf index size = do
  copy ← alloc_chars (size + 1)
  if copy == 0 then pure (out_of_memory, index) else fill_item cmd copy (ei.decode_string buf index)

-- One round of the loop over a pair's two terms: the next one, unless this one failed.
abbrev pub next_term : (ℕ → M (DriverState × ℕ)) → DriverState × ℕ → M (DriverState × ℕ)
next_term again (state, index) = if is_success state then again index else pure (state, index)

-- The case of a tuple: a pair adds an item to the command, and its two terms are decoded. Without a
-- header the state that is returned was never assigned.
abbrev pub decode_pair : Ptr → (ℕ → M (DriverState × ℕ)) → Option (ℕ × ℕ) → M (DriverState × ℕ)
decode_pair cmd again none = throw indeterminate_value
decode_pair cmd again (some (index, arity)) =
    if arity == 2
    then (do
      item ← alloc_item
      if item == 0
          then pure (out_of_memory, index)
          else (do written ← write_cmd_data item cmd; r ← again index; next_term again r))
    else pure (unsupported_operation_error, index)

abbrev pub by_type :
    Ei → Ptr → List ℕ → ℕ → (ℕ → M (DriverState × ℕ)) → Option (ℕ × ℕ) → M (DriverState × ℕ)
by_type ei cmd buf index again none = pure (decode_error, index)
by_type ei cmd buf index again (some (type, size)) =
    if type == erl_small_tuple_ext
    then decode_pair cmd again (ei.decode_tuple_header buf index)
    else if type == erl_atom_ext
    then decode_tag ei cmd buf index
    else if type == erl_string_ext
    then decode_payload ei cmd buf index size
    else pure (decode_error, index)

-- `decode_ei_cmd`, with the index that it leaves, and with fuel for the nesting of tuples.
unfoldable pub decode_ei_cmd : Ei → ℕ → Ptr → List ℕ → ℕ → M (DriverState × ℕ)
decode_ei_cmd ei zero cmd buf index = throw out_of_fuel
decode_ei_cmd ei (suc fuel) cmd buf index =
    by_type ei cmd buf index (λ i. decode_ei_cmd ei fuel cmd buf i) (ei.get_type buf index)
