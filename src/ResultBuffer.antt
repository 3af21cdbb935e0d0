-- ===== src/ResultBuffer.antt =====
-- The macros of c_src/erlxsl.h that a provider writes its result with. A sum of two lengths of
-- strings that both stand in memory does not wrap in a `size_t`.
pub mod Write
pub mod Overflow
pub mod Full
pub mod Clear
use erlxsl.Prelude.{
  ℕ, zero, suc, ◌+◌, ◌-◌, ◌*◌, ◌^◌, List, [], ◌∷◌, ◌++◌, Bool, true, false, ◌||◌, Option, none,
  some, ◌==◌, ltb, leb, if◌then◌else◌, length, take, replicate,
}
use erlxsl.Types.{
  Ptr, Int32, text, AllocFunction, internal_alloc, ReallocFunction, internal_realloc,
  ReleaseFunction, internal_free,
}
use erlxsl.Memory.{
  M, ◌>>=◌, ◌>>◌, pure, load_command, load_iov, load_chars, store, iov_block, chars_block,
  driver_alloc, drv_free, alloc_chars,
}
use erlxsl.Internal.{to_int32}
use erlxsl.CString.{strlen, strcpy, strcat}

-- An `Int32` converted to `size_t`: the sign bit is extended.
abbrev pub to_size : Int32 → ℕ
to_size n = if ltb n (2 ^ 31) then n else n + (2 ^ 64 - 2 ^ 32)

-- The size that a macro is called with is of either integer type.
pub data SizeArgument : Type 0 where
  as_int32 : Int32 → SizeArgument
  as_size_t : ℕ → SizeArgument

abbrev pub is_nonpositive : SizeArgument → Bool
is_nonpositive (as_int32 n) = n == 0 || leb (2 ^ 31) n
is_nonpositive (as_size_t n) = n == 0

abbrev pub size_int32 : SizeArgument → Int32
size_int32 (as_int32 n) = n
size_int32 (as_size_t n) = to_int32 n

abbrev pub size_size_t : SizeArgument → ℕ
size_size_t (as_int32 n) = to_size n
size_size_t (as_size_t n) = n

-- `cmd->alloc(size)`.
abbrev pub call_alloc : AllocFunction → ℕ → M Ptr
call_alloc internal_alloc size = alloc_chars size

-- A resized buffer is a new block that begins with the old bytes. If there is no memory for it, the
-- old block stays.
unfoldable pub driver_realloc : Ptr → ℕ → M Ptr
driver_realloc p size = if p == 0 then alloc_chars size else (do
  bytes ← load_chars p
  q ← driver_alloc (chars_block (take size bytes ++ replicate (size - length bytes) none))
  if q == 0 then pure 0 else (do drv_free p; pure q))

-- `cmd->resize(p, size)`.
abbrev pub call_resize : ReallocFunction → Ptr → ℕ → M Ptr
call_resize internal_realloc p size = driver_realloc p size

-- `cmd->release(p)`.
unfoldable pub call_release : ReleaseFunction → Ptr → M (Unit {0})
call_release internal_free p = drv_free p

unfoldable pub cmd_buff : Ptr → M Ptr
cmd_buff cmd = do c ← load_command cmd; v ← load_iov c.result; pure v.payload

unfoldable pub resize_result_buffer : ℕ → Ptr → M Ptr
resize_result_buffer newsize cmd = do
  c ← load_command cmd
  v ← load_iov c.result
  store c.result (iov_block (record v { size = to_int32 newsize }))
  p ← call_resize c.resize v.payload (to_size (to_int32 newsize))
  store c.result (iov_block (record v { size = to_int32 newsize; payload = p }))
  pure p

unfoldable pub make_result_buffer : SizeArgument → Ptr → M Ptr
make_result_buffer buffersize cmd = if cmd == 0 || is_nonpositive buffersize then pure 0 else (do
  c ← load_command cmd
  if c.result == 0 then pure 0 else (do
    v ← load_iov c.result
    store c.result (iov_block (record v { type = text; size = size_int32 buffersize }))
    p ← call_alloc c.alloc (size_size_t buffersize)
    store c.result (iov_block (record v { type = text; size = size_int32 buffersize; payload = p }))
    pure p))

unfoldable pub ensure_buffer : Ptr → Ptr → M Ptr
ensure_buffer buff cmd = if cmd == 0 || buff == 0 then pure 0 else (do
  c ← load_command cmd
  v ← load_iov c.result
  if v.dirty
      then (do
        old ← strlen v.payload
        new ← strlen buff
        if ltb (to_size v.size) (old + new)
            then resize_result_buffer (new + old) cmd
            else pure v.payload)
      else (do
        new ← strlen buff
        if ltb (to_size v.size) new
            then resize_result_buffer new cmd
            else if v.payload == 0
            then make_result_buffer (as_size_t new) cmd
            else pure v.payload))

unfoldable pub write_result_buffer : Ptr → Ptr → M Ptr
write_result_buffer buff cmd = do
  p ← ensure_buffer buff cmd
  if p == 0 then pure 0 else (do
    c ← load_command cmd
    v ← load_iov c.result
    if v.dirty
        then strcat v.payload buff
        else (do store c.result (iov_block (record v { dirty = true })); strcpy v.payload buff))

unfoldable pub clear_result_buffer : Ptr → M (Unit {0})
clear_result_buffer cmd = if cmd == 0 then pure tt else (do
  c ← load_command cmd
  if c.result == 0 then pure tt else (do
    v ← load_iov c.result
    store c.result (iov_block (record v { dirty = false }))
    drv_free v.payload
    store c.result (iov_block (record v { dirty = false; payload = 0 }))))
