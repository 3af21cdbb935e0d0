-- ===== src/CommandData/Pointers.antt =====
-- `write_cmd_data2` of c_src/erlxsl.h, the other macro that gives a command an item, for items that
-- are pointers: the macro assigns the item both to the vector's payload and to an element of the
-- array, so that the type of an element is that of a pointer. No code uses it.
use erlxsl.Prelude.{
  ℕ, zero, suc, ◌+◌, ◌-◌, ◌%◌, ◌^◌, ◌≡◌, ◌≢◌, refl, List, [], ◌∷◌, ◌++◌, ◌||◌, Option, none, some,
  true, ◌==◌, if◌then◌else◌, length, take, replicate, set, arith, eqb_ne,
}
use erlxsl.Types.{Ptr, Command, DriverIoVec, ReallocFunction, internal_realloc}
use erlxsl.Memory.{
  M, ◌>>=◌, ◌>>◌, pure, throw, driver_alloc, drv_free, store, load, load_command, load_iov,
  load_pointers, Block, World, ok, command_block, iov_block, pointers_block, pointers_of,
  invalid_access, command_of, iov_of, update,
}
use erlxsl.Memory.Steps.{load-at, store-live, driver_alloc-granted, drv_free-live}
use erlxsl.Memory.WellFormed.{WellFormed, allocated-lt, allocated-ne, granted}
use erlxsl.ResultBuffer.{to_size}
use erlxsl.CommandData.{is_positive}

-- The pointers that a block's bytes are known to be.
abbrev known_pointers : Block → Option (List (Option Ptr))
known_pointers (pointers_block v) = some v
known_pointers _ = some []

-- `resize` of an array of pointers, to a number of pointers. The array may be a block of another type.
unfoldable pub resize_pointers : ReallocFunction → Ptr → ℕ → M Ptr
resize_pointers internal_realloc p count =
    if p == 0 then driver_alloc (pointers_block (replicate count none)) else (do
      old ← load known_pointers p
      q ← driver_alloc (pointers_block (take count old ++ replicate (count - length old) none))
      if q == 0 then pure 0 else (do drv_free p; pure q))

abbrev pointer_at : ℕ → List (Option Ptr) → M (Option Ptr)
pointer_at i [] = throw invalid_access
pointer_at zero (x ∷ xs) = pure x
pointer_at (suc i) (x ∷ xs) = pointer_at i xs

-- `for (i = 0; i < idx; i++) chunk[i] = p[i]`, with this many rounds to go.
unfoldable pub copy_pointers : ℕ → ℕ → Ptr → Ptr → M (Unit {0})
copy_pointers zero i p chunk = pure tt
copy_pointers (suc k) i p chunk = do
  old ← load_pointers p
  x ← pointer_at i old
  new ← load_pointers chunk
  store chunk (pointers_block (set new i x))
  copy_pointers k (i + 1) p chunk

unfoldable pub write_cmd_data2 : Ptr → Ptr → M (Unit {0})
write_cmd_data2 item cmd = if cmd == 0 || item == 0 then pure tt else (do
  c ← load_command cmd
  v ← load_iov c.command_data
  if is_positive v.size
      then (do
        chunk ← resize_pointers c.resize v.payload (to_size v.size)
        store c.command_data (iov_block (record v { payload = chunk }))
        copy_pointers (v.size - 1) 0 v.payload chunk
        new ← load_pointers chunk
        store chunk (pointers_block (set new (v.size - 1) (some item))))
      else store c.command_data
          (iov_block (record v { size = (v.size + 1) % 2 ^ 32; payload = item })))

-- A second item takes the place of the first, which is freed, and the number of items stays one.
write_cmd_data2-replaces :
    (w : World) (cmd item vec payload : Ptr) (c : Command) (u : DriverIoVec) (b : Block)
    → WellFormed w
    → w.cells cmd ≡ some (command_block c)
    → c.command_data ≡ vec
    → c.resize ≡ internal_realloc
    → w.cells vec ≡ some (iov_block (record u { size = 1; payload = payload }))
    → known_pointers b ≡ some []
    → w.cells payload ≡ some b
    → vec ≢ payload
    → item ≢ 0
    → w.grants w.next ≡ true
    → (w' : World) × (write_cmd_data2 item cmd w ≡ ok (tt, w'))
      × (w'.cells payload ≡ none)
      × (w'.cells vec ≡ some (iov_block (record u { size = 1; payload = w.next })))
      × (w'.cells w.next ≡ some (pointers_block (some item ∷ [])))
unfolding write_cmd_data2 resize_pointers copy_pointers
write_cmd_data2-replaces w cmd item vec payload c u b wf cmd_at vec_is resize_is vec_at unknown
      payload_at apart nz grant =
    let fresh = granted (pointers_block (none ∷ [])) w in
    let freed = record fresh { cells = update fresh.cells payload none } in
    let written = record freed {
      cells = update freed.cells vec (some (iov_block (record u { size = 1; payload = w.next })));
    } in
    (
      record written {
        cells = update written.cells w.next (some (pointers_block (some item ∷ [])));
      },
      rw (
        eqb_ne cmd 0 (allocated-ne w wf cmd _ cmd_at),
        eqb_ne item 0 nz,
        load-at command_of cmd w _ c cmd_at refl,
        vec_is,
        load-at iov_of vec w _ (record u { size = 1; payload = payload }) vec_at refl,
        resize_is,
        eqb_ne payload 0 (allocated-ne w wf payload _ payload_at),
        load-at known_pointers payload w b [] payload_at unknown,
        driver_alloc-granted (pointers_block (none ∷ [])) w grant,
        eqb_ne w.next 0 wf.started,
        drv_free-live payload fresh b (allocated-ne w wf payload _ payload_at)
            (ground (arith, allocated-lt w wf payload _ payload_at, payload_at)),
        store-live vec (iov_block (record u { size = 1; payload = w.next })) freed
            (iov_block (record u { size = 1; payload = payload }))
            (ground (arith, allocated-lt w wf vec _ vec_at, vec_at, apart)),
        load-at pointers_of w.next written (pointers_block (none ∷ [])) (none ∷ [])
            (ground (arith, allocated-lt w wf vec _ vec_at, allocated-lt w wf payload _ payload_at))
            refl,
        store-live w.next (pointers_block (some item ∷ [])) written (pointers_block (none ∷ [])) (
            ground (arith, allocated-lt w wf vec _ vec_at, allocated-lt w wf payload _ payload_at)),
      ),
      ground (arith, apart, allocated-lt w wf payload _ payload_at),
      ground (arith, allocated-lt w wf vec _ vec_at),
      ground arith,
    )
