-- ===== src/CommandData.antt =====
-- The command data macros of c_src/erlxsl.h: the decoded items that a command's vector leads to. A
-- count of items stays below 2^31.
pub mod Append
pub mod Pointers
use erlxsl.Prelude.{
  ℕ, ◌+◌, ◌-◌, ◌%◌, ◌^◌, List, [], ◌∷◌, ◌++◌, ◌||◌, ◌&&◌, Bool, none, ◌==◌, ltb, if◌then◌else◌,
  length, take, replicate, set,
}
use erlxsl.Types.{Ptr, Int32, CmdData, ReallocFunction, internal_realloc}
use erlxsl.Memory.{
  M, ◌>>=◌, ◌>>◌, pure, throw, driver_alloc, drv_free, store, load_command, load_iov, load_items,
  iov_block, items_block, invalid_access,
}
use erlxsl.ResultBuffer.{to_size}

-- An item that nothing has assigned.
abbrev pub blank_item : CmdData
blank_item = record { tag = none; type = none; payload = none }

-- `ALLOC(sizeof(CmdData))`.
unfoldable pub alloc_item : M Ptr
alloc_item = driver_alloc (items_block (blank_item ∷ []))

-- The item that a pointer to an array of items leads to.
abbrev pub first_item : List CmdData → M CmdData
first_item [] = throw invalid_access
first_item (item ∷ items) = pure item

unfoldable pub load_item : Ptr → M CmdData
load_item p = load_items p >>= first_item

abbrev pub set_first : Ptr → CmdData → List CmdData → M (Unit {0})
set_first p item [] = throw invalid_access
set_first p item (old ∷ items) = store p (items_block (item ∷ items))

unfoldable pub store_item : Ptr → CmdData → M (Unit {0})
store_item p item = load_items p >>= set_first p item

-- `resize` of an array of items, to a number of items.
unfoldable pub resize_items : ReallocFunction → Ptr → ℕ → M Ptr
resize_items internal_realloc p count =
    if p == 0 then driver_alloc (items_block (replicate count blank_item)) else (do
      items ← load_items p
      q ←
          driver_alloc
            (items_block (take count items ++ replicate (count - length items) blank_item))
      if q == 0 then pure 0 else (do drv_free p; pure q))

-- `size > 0`, of an `Int32`.
abbrev pub is_positive : Int32 → Bool
is_positive n = ltb 0 n && ltb n (2 ^ 31)

unfoldable pub write_cmd_data : Ptr → Ptr → M Ptr
write_cmd_data item cmd = if cmd == 0 || item == 0 then pure 0 else (do
  c ← load_command cmd
  v ← load_iov c.command_data
  let size = (v.size + 1) % 2 ^ 32
  if is_positive v.size
      then (do
        store c.command_data (iov_block (record v { size = size }))
        p ← resize_items c.resize v.payload (to_size size)
        store c.command_data (iov_block (record v { size = size; payload = p }))
        new ← load_item item
        items ← load_items p
        store p (items_block (set items (size - 1) new))
        pure p)
      else (do
        store c.command_data (iov_block (record v { size = size; payload = item }))
        pure item))

unfoldable pub get_cmd_data : Ptr → M Ptr
get_cmd_data cmd = do c ← load_command cmd; v ← load_iov c.command_data; pure v.payload

-- The address of an item is that of the array, with the item's place in it.
unfoldable pub get_item : ℕ → Ptr → M (Ptr × ℕ)
get_item item_idx cmd = do
  c ← load_command cmd
  v ← load_iov c.command_data
  pure (v.payload, item_idx)
