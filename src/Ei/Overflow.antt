-- ===== src/Ei/Overflow.antt =====
-- Where the decoding of c_src/erlxsl_ei.h puts an atom.
use erlxsl.Prelude.{
  ℕ, suc, ◌+◌, ◌^◌, ◌%◌, ◌<◌, ◌≡◌, ◌≢◌, refl, ap, subst, List, [], ◌∷◌, ◌++◌, Option, none, some,
  true, false, arith, length, replicate, drop, length-replicate, eqb_ne,
}
use erlxsl.Types.{Ptr, Command, DriverIoVec, CmdData}
use erlxsl.Memory.{
  World, ok, fault, update, chars_block, command_block, iov_block, items_block, command_of, iov_of,
  chars_of, items_of, buffer_overflow,
}
use erlxsl.Memory.Steps.{load-at, store-live, driver_alloc-granted}
use erlxsl.Memory.WellFormed.{
  WellFormed, allocated-ne, allocated-lt, granted, granted-WellFormed, stored-WellFormed,
}
use erlxsl.CString.Laws.{
  IsText, terminated, with_bytes, strlen-at, strcpy-overflows, put_string-fits,
}
use erlxsl.CommandData.{
  blank_item, load_item, store_item, alloc_item, is_positive, write_cmd_data, get_cmd_data,
}
use erlxsl.Ei.{
  Ei, write_text, decode_tag, decode_ei_cmd, max_atom_len, erl_atom_ext, erl_small_tuple_ext,
}

-- The command's vector leads to an item.
pub record ItemAt (w : World) (cmd : Ptr) : Type 0 where
  pub c : Command
  pub v : DriverIoVec
  pub item : CmdData
  pub items : List CmdData
  pub cmd_at : w.cells cmd ≡ some (command_block c)
  pub iov_at : w.cells c.command_data ≡ some (iov_block v)
  pub items_at : w.cells v.payload ≡ some (items_block (item ∷ items))

write_text-fits :
    (p : Ptr) (s : List ℕ) (w : World) (bytes : List (Option ℕ))
    → p ≢ 0
    → w.cells p ≡ some (chars_block bytes)
    → length s < length bytes
    → write_text p s w ≡ ok (tt, with_bytes p (terminated s ++ drop (suc (length s)) bytes) w)
unfolding write_text
write_text-fits p s w bytes nz at h = rw (
  eqb_ne p 0 nz,
  load-at chars_of p w _ bytes at refl,
  put_string-fits s bytes h,
  store-live p (chars_block (terminated s ++ drop (suc (length s)) bytes)) w _ at,
)

pub load_item-at :
    (p : Ptr) (w : World) (item : CmdData) (items : List CmdData)
    → w.cells p ≡ some (items_block (item ∷ items))
    → load_item p w ≡ ok (item, w)
unfolding load_item
load_item-at p w item items at = rw (load-at items_of p w _ (item ∷ items) at refl)

store_item-at :
    (p : Ptr) (new : CmdData) (w : World) (item : CmdData) (items : List CmdData)
    → w.cells p ≡ some (items_block (item ∷ items))
    → store_item p new w
      ≡ ok (tt, record w { cells = update w.cells p (some (items_block (new ∷ items))) })
unfolding store_item
store_item-at p new w item items at =
    rw (
      load-at items_of p w _ (item ∷ items) at refl,
      store-live p (items_block (new ∷ items)) w _ at,
    )

pub get_cmd_data-at :
    (cmd : Ptr) (w : World) (c : Command) (v : DriverIoVec)
    → w.cells cmd ≡ some (command_block c)
    → w.cells c.command_data ≡ some (iov_block v)
    → get_cmd_data cmd w ≡ ok (v.payload, w)
unfolding get_cmd_data
get_cmd_data-at cmd w c v cmd_at iov_at =
    rw (load-at command_of cmd w _ c cmd_at refl, load-at iov_of _ w _ v iov_at refl)

module _ {w : World} {cmd : Ptr} (wf : WellFormed w) (r : ItemAt w cmd) (s : List ℕ)
    (is_text : IsText s) (short : length s < max_atom_len) where
  abbrev atom_room : List (Option ℕ)
  atom_room = drop (suc (length s)) (replicate max_atom_len none)

  abbrev with_room : World
  with_room = granted (chars_block (replicate max_atom_len none)) w

  abbrev with_atom : World
  with_atom = with_bytes w.next (terminated s ++ atom_room) with_room

  abbrev with_tag : World
  with_tag = granted (chars_block (replicate (length s) none)) with_atom

  abbrev tagged : World
  tagged = record with_tag {
    cells =
        update with_tag.cells r.v.payload
          (some (items_block (record r.item { tag = some (w.next + 1) } ∷ r.items)));
  }

  cmd_lt : cmd < w.next
  cmd_lt = allocated-lt w wf cmd _ r.cmd_at

  iov_lt : r.c.command_data < w.next
  iov_lt = allocated-lt w wf _ _ r.iov_at

  items_lt : r.v.payload < w.next
  items_lt = allocated-lt w wf _ _ r.items_at

  -- The tag's block has room for the atom's characters, and not for the terminator.
  pub decode_tag-overflows :
      (ei : Ei) (buf : List ℕ) (i j : ℕ)
      → ei.decode_atom buf i ≡ some (j, s)
      → w.grants w.next ≡ true
      → w.grants (w.next + 1) ≡ true
      → decode_tag ei cmd buf i w ≡ fault buffer_overflow
  unfolding decode_tag
  decode_tag-overflows ei buf i j decoded room tag = rw (
    driver_alloc-granted (chars_block (replicate max_atom_len none)) w room,
    decoded,
    write_text-fits w.next s with_room (replicate max_atom_len none) wf.started (ground arith)
        (omega (arith, short, length-replicate {A = Option ℕ} max_atom_len none)),
    get_cmd_data-at cmd with_atom r.c r.v (ground (arith, cmd_lt, r.cmd_at))
        (ground (arith, iov_lt, r.iov_at)),
    strlen-at w.next s atom_room with_atom (ground arith) is_text,
    driver_alloc-granted (chars_block (replicate (length s) none)) with_atom tag,
    load_item-at r.v.payload with_tag r.item r.items (ground (arith, items_lt, r.items_at)),
    store_item-at r.v.payload (record r.item { tag = some (w.next + 1) }) with_tag r.item r.items
        (ground (arith, items_lt, r.items_at)),
    strcpy-overflows (w.next + 1) w.next s atom_room tagged (omega arith) (ground (arith, items_lt))
        is_text (replicate (length s) none) (ground (arith, items_lt))
        (omega (arith, length-replicate {A = Option ℕ} (length s) none)),
  )

alloc_item-granted :
    (w : World)
    → w.grants w.next ≡ true
    → alloc_item w ≡ ok (w.next, granted (items_block (blank_item ∷ [])) w)
unfolding alloc_item
alloc_item-granted w grant = driver_alloc-granted (items_block (blank_item ∷ [])) w grant

-- The first item of a command becomes its vector's payload.
write_cmd_data-first :
    (item cmd : Ptr) (w : World) (c : Command) (v : DriverIoVec)
    → item ≢ 0
    → cmd ≢ 0
    → w.cells cmd ≡ some (command_block c)
    → w.cells c.command_data ≡ some (iov_block v)
    → is_positive v.size ≡ false
    → write_cmd_data item cmd w
      ≡ ok (
        item,
        record w {
          cells =
              update w.cells c.command_data
                (some (iov_block (record v { size = (v.size + 1) % 2 ^ 32; payload = item })));
        },
      )
unfolding write_cmd_data
write_cmd_data-first item cmd w c v item_nz cmd_nz cmd_at iov_at empty = rw (
  eqb_ne cmd 0 cmd_nz,
  eqb_ne item 0 item_nz,
  load-at command_of cmd w _ c cmd_at refl,
  load-at iov_of c.command_data w _ v iov_at refl,
  empty,
  store-live c.command_data (iov_block (record v { size = (v.size + 1) % 2 ^ 32; payload = item }))
      w _ iov_at,
)

module _ {w : World} (wf : WellFormed w) (cmd : Ptr) (c : Command) (v : DriverIoVec)
    (cmd_at : w.cells cmd ≡ some (command_block c))
    (iov_at : w.cells c.command_data ≡ some (iov_block v)) where
  abbrev with_item : World
  with_item = granted (items_block (blank_item ∷ [])) w

  abbrev listed_iov : DriverIoVec
  listed_iov = record v { size = (v.size + 1) % 2 ^ 32; payload = w.next }

  abbrev listed : World
  listed = record with_item {
    cells = update with_item.cells c.command_data (some (iov_block listed_iov));
  }

  command_lt : cmd < w.next
  command_lt = allocated-lt w wf cmd _ cmd_at

  data_lt : c.command_data < w.next
  data_lt = allocated-lt w wf _ _ iov_at

  data-apart : c.command_data ≢ cmd
  data-apart e = cc (ap w.cells e, cmd_at, iov_at)

  data_kept : with_item.cells c.command_data ≡ some (iov_block v)
  data_kept = ground (arith, data_lt, iov_at)

  listed-WellFormed : WellFormed listed
  listed-WellFormed =
      stored-WellFormed c.command_data (iov_block listed_iov) (iov_block v) with_item
        (granted-WellFormed _ w wf) data_kept

  listed-ItemAt : ItemAt listed cmd
  listed-ItemAt = record {
    c = c;
    v = listed_iov;
    item = blank_item;
    items = [];
    cmd_at = ground (arith, data-apart, command_lt, cmd_at);
    iov_at = ground arith;
    items_at = ground (arith, data_lt);
  }

  -- A command whose vector has no items is given a pair whose first term is an atom. If the atom is
  -- shorter than `MAXATOMLEN` and memory is granted, the tag's block has room for the atom's
  -- characters only, and the copy's terminator is written past its end.
  pub decode_ei_cmd-overflows :
      is_positive v.size ≡ false
      → (ei : Ei) (buf s : List ℕ) (i size j m k : ℕ)
      → ei.get_type buf i ≡ some (erl_small_tuple_ext, size)
      → ei.decode_tuple_header buf i ≡ some (j, 2)
      → ei.get_type buf j ≡ some (erl_atom_ext, m)
      → ei.decode_atom buf j ≡ some (k, s)
      → IsText s
      → length s < max_atom_len
      → w.grants w.next ≡ true
      → w.grants (w.next + 1) ≡ true
      → w.grants (w.next + 2) ≡ true
      → (fuel : ℕ) → decode_ei_cmd ei (suc (suc fuel)) cmd buf i w ≡ fault buffer_overflow
  unfolding decode_ei_cmd
  decode_ei_cmd-overflows empty ei buf s i size j m k tuple header atom decoded is_text short g0 g1
        g2 fuel =
      rw (
        tuple,
        header,
        alloc_item-granted w g0,
        eqb_ne w.next 0 wf.started,
        write_cmd_data-first w.next cmd with_item c v wf.started
            (omega (arith, allocated-ne w wf cmd _ cmd_at)) (ground (arith, command_lt, cmd_at))
            data_kept empty,
        atom,
        decode_tag-overflows listed-WellFormed listed-ItemAt s is_text short ei buf j k decoded g1
            (subst (λ n. w.grants n ≡ true) (next_two w.next) g2),
      )
    where
      next_two : (n : ℕ) → n + 2 ≡ n + 1 + 1
      next_two n = omega arith
