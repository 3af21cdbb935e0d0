-- ===== src/CommandData/Append.antt =====
-- `write_cmd_data` as appending to the list of a command's items.
use erlxsl.Prelude.{◌+◌, ◌^◌, ◌<◌, ◌≡◌, ◌≢◌, List, [], ◌∷◌, ◌++◌, Option, none, some, true, length}
use erlxsl.Types.{Ptr, Command, DriverIoVec, CmdData}
use erlxsl.Memory.{World, Block, ok, update, command_block, iov_block, items_block}
use erlxsl.Memory.WellFormed.{WellFormed, granted}
use erlxsl.CommandData.{blank_item, write_cmd_data}

-- A vector without items leads anywhere.
abbrev pub HoldsItems : List CmdData → Option Block → Type 0
HoldsItems [] cell = Unit
HoldsItems (x ∷ items) cell = cell ≡ some (items_block (x ∷ items))

-- The command's vector at `vec` has the items, at `payload`.
pub record ItemsAt (w : World) (cmd vec payload : Ptr) (items : List CmdData) : Type 0 where
  pub c : Command
  pub v : DriverIoVec
  pub cmd_at : w.cells cmd ≡ some (command_block c)
  pub vec_is : c.command_data ≡ vec
  pub vec_at : w.cells vec ≡ some (iov_block v)
  pub payload_is : v.payload ≡ payload
  pub size_is : v.size ≡ length items
  pub items_at : HoldsItems items (w.cells payload)

module _ (w : World) (cmd vec payload : Ptr) (wf : WellFormed w) (item : Ptr) (new : CmdData)
    (item_at : w.cells item ≡ some (items_block (new ∷ []))) where
  -- Nothing but the vector, the old array of items and new memory changes.
  abbrev pub Elsewhere : World → Type 0
  Elsewhere w' = (q : Ptr) → q < w.next → q ≢ vec → q ≢ payload → w'.cells q ≡ w.cells q

  -- Where the items stand: the first is the array, and more are in a new one.
  abbrev pub array_of : List CmdData → Ptr
  array_of [] = item
  array_of (x ∷ items) = w.next

  abbrev Appended : List CmdData → Type 0
  Appended items =
      (w' : World) × (write_cmd_data item cmd w ≡ ok (array_of items, w'))
      × ItemsAt w' cmd vec (array_of items) (items ++ new ∷ [])
      × Elsewhere w'

  module _ (x : CmdData) (xs : List CmdData) (r : ItemsAt w cmd vec payload (x ∷ xs))
      (apart : item ≢ payload) (short : length (x ∷ xs) + 1 < 2 ^ 31)
      (grant : w.grants w.next ≡ true) where
    abbrev items : List CmdData
    items = x ∷ xs

    abbrev sized_iov : DriverIoVec
    sized_iov = record r.v { size = length items + 1; payload = payload }

    abbrev sized : World
    sized = record w { cells = update w.cells vec (some (iov_block sized_iov)) }

    abbrev longer : World
    longer = granted (items_block (items ++ blank_item ∷ [])) sized

    abbrev released : World
    released = record longer { cells = update longer.cells payload none }

    abbrev moved_iov : DriverIoVec
    moved_iov = record r.v { size = length items + 1; payload = w.next }

    abbrev moved : World
    moved = record released { cells = update released.cells vec (some (iov_block moved_iov)) }

    abbrev extended : World
    extended = record moved {
      cells = update moved.cells w.next (some (items_block (items ++ new ∷ [])));
    }
