-- ===== src/TestEngine/Commands.antt =====
-- The commands of inttest/c_src/test_engine.c: the answers that a test may set, in a static array of
-- four pointers, which the functions are given and return.
use erlxsl.Prelude.{
  ℕ, zero, suc, ◌≡◌, ◌≢◌, ◌⊎◌, inl, inr, refl, List, [], ◌∷◌, some, none, Bool-cases, arith, ◌==◌,
  if◌then◌else◌, set, eqb_ne, same_string, Option,
}
use erlxsl.Types.{Ptr, CmdData, EngineState, engine_ok, XslEngine}
use erlxsl.Memory.{
  World, Block, M, ok, ◌>>=◌, ◌>>◌, pure, throw, defined, drv_free, store, load, raw_block,
  engine_block, invalid_access, update,
}
use erlxsl.Memory.Steps.{drv_free-live}
use erlxsl.CString.{c_string}
use erlxsl.CString.Laws.{IsText, StringAt, c_string-at}
use erlxsl.Internal.{transform_command}
use erlxsl.CommandData.{get_cmd_data, load_item}
use erlxsl.Ei.Overflow.{ItemAt, get_cmd_data-at, load_item-at}
use erlxsl.TestEngine.{after_transform_command, shutdown_command, lookup_command, lookup_in}

-- `TRANSFORM_CMD`
abbrev pub transform_code : ℕ
transform_code = 1

-- `target_data`, as it starts.
abbrev pub initial_targets : List Ptr
initial_targets = 0 ∷ 0 ∷ 0 ∷ 0 ∷ []

-- The pointer in a slot.
abbrev pub target_at : List Ptr → ℕ → M Ptr
target_at [] i = throw invalid_access
target_at (p ∷ targets) zero = pure p
target_at (p ∷ targets) (suc i) = target_at targets i

abbrev pub setup_stub : ℕ → Ptr → List Ptr → M (List Ptr)
setup_stub cmd stub targets = do
  old ← target_at targets cmd
  if old == 0 then pure (set targets cmd stub) else (do drv_free old; pure (set targets cmd stub))

unfoldable pub process_cmd : CmdData → List Ptr → M (List Ptr)
process_cmd cd targets = do buffer ← defined cd.payload; setup_stub transform_code buffer targets

unfoldable pub default_command : Ptr → List Ptr → M (EngineState × List Ptr)
default_command cmd targets = do
  cd ← get_cmd_data cmd
  item ← load_item cd
  tag ← defined item.tag
  name ← c_string tag
  if lookup_command name == transform_code
      then (do targets' ← process_cmd item targets; pure (engine_ok, targets'))
      else pure (engine_ok, targets)

-- The engine's functions, by the numbers that stand for their addresses.
pub record EngineFunctions : Type 0 where
  pub handle_transform : ℕ
  pub post_handle : ℕ
  pub shutdown : ℕ
  pub command : ℕ

-- The fields of an engine's table. Nothing is assigned yet in a block that was only allocated.
abbrev fields_of : Block → Option XslEngine
fields_of raw_block = some (record {
  command = none;
  transform = none;
  after_transform = none;
  shutdown = none;
  provider_data = none;
})
fields_of (engine_block e) = some e
fields_of _ = none

-- Only the four functions are assigned.
unfoldable pub init_engine : EngineFunctions → Ptr → M (Unit {0})
init_engine f spec = do
  e ← load fields_of spec
  store spec (
      engine_block (record e {
        transform = some f.handle_transform;
        after_transform = some f.post_handle;
        shutdown = some f.shutdown;
        command = some f.command;
      }))

-- It only writes to the log.
abbrev pub default_shutdown : Ptr → M (Unit {0})
default_shutdown provider_data = pure tt

same_string_sym : (a b : List ℕ) → same_string a b ≡ same_string b a
same_string_sym [] [] = refl
same_string_sym [] (y ∷ ys) = refl
same_string_sym (x ∷ xs) [] = refl
same_string_sym (x ∷ xs) (y ∷ ys) = ground (arith, same_string_sym xs ys)

-- The transform's code is the transform's alone.
lookup_command-code :
    (s : List ℕ) → (lookup_command s == transform_code) ≡ same_string s transform_command
unfolding lookup_command lookup_in
lookup_command-code s =
    rw (same_string_sym s transform_command) (elim (Bool-cases (same_string transform_command s)) [
      | inl same ↦ rw same refl
      | inr other ↦ elim (Bool-cases (same_string after_transform_command s)) [
        | inl after ↦ rw (other, after) refl
        | inr neither ↦ elim (Bool-cases (same_string shutdown_command s)) [
          | inl last ↦ rw (other, neither, last) refl
          | inr nothing ↦ rw (other, neither, nothing) refl
        ]
      ]
    ])

-- The first item of the command is set: its tag is the string `s`, and its payload is `buffer`.
pub record Tagged (w : World) (cmd tag buffer : Ptr) (s : List ℕ) (rest : List (Option ℕ))
    : Type 0 where
  pub at : ItemAt w cmd
  pub tag_is : at.item.tag ≡ some tag
  pub payload_is : at.item.payload ≡ some buffer
  pub tag_at : StringAt w tag s rest
  pub characters : IsText s

module _ {w : World} {cmd tag buffer : Ptr} {s : List ℕ} {rest : List (Option ℕ)}
    (r : Tagged w cmd tag buffer s rest) (first old : Ptr) (more : List Ptr) where
  -- A command that is tagged `transform` sets the answer of the transform to the item's payload, and
  -- frees the one that was set before, if there was one; any other changes nothing. The answer is
  -- `Ok` in each case.
  pub default_command_lem :
      (old ≡ 0) ⊎ ((old ≢ 0) × ((b : Block) × (w.cells old ≡ some b)))
      → default_command cmd (first ∷ old ∷ more) w ≡ (
          if same_string s transform_command
          then ok (
            (engine_ok, first ∷ buffer ∷ more),
            if old == 0 then w else record w { cells = update w.cells old none },
          )
          else ok ((engine_ok, first ∷ old ∷ more), w))
  unfolding default_command process_cmd
  default_command_lem held =
      rw
        (
          get_cmd_data-at cmd w r.at.c r.at.v r.at.cmd_at r.at.iov_at,
          load_item-at r.at.v.payload w r.at.item r.at.items r.at.items_at,
          r.tag_is,
          c_string-at tag s rest w r.tag_at r.characters,
          lookup_command-code s,
        )
        (elim (Bool-cases (same_string s transform_command)) [
          | inr other ↦ rw other refl
          | inl same ↦ elim held [
            | inl none_set ↦ rw (same, r.payload_is, none_set) refl
            | inr (nz, (b, at)) ↦
                rw (same, r.payload_is, eqb_ne old 0 nz, drv_free-live old w b nz at) refl
          ]
        ])
