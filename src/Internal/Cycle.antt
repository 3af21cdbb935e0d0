-- ===== src/Internal/Cycle.antt =====
-- The life of a transform command: built with its task, and freed again.
use erlxsl.Prelude.{
  ℕ, ◌+◌, ◌<◌, ◌≤◌, ◌≡◌, ◌≢◌, refl, sym, ap, subst, none, some, arith, true, eqb_ne, List, [], ◌∷◌,
  ◌++◌, All, Distinct,
}
use erlxsl.Types.{Ptr, DriverState, success, text, PayloadSize, InputSpec}
use erlxsl.Memory.{
  World, M, ◌>>=◌, ◌>>◌, pure, update, ok, chars_block, task_block, iov_block, document_block,
  command_block,
}
use erlxsl.Memory.Blocks.{IsLive, drop_cells}
use erlxsl.Memory.WellFormed.{allocated-lt, allocated-ne, granted, granted-WellFormed, same_cells}
use erlxsl.Internal.{init_command, init_task, free_command, to_int32, transform_command}
use erlxsl.Internal.Owned.{
  CommandAt, DocumentAt, DocumentAt-same, TaskAt, a_transform, a_task, no_parameter, an_iov,
}
use erlxsl.Internal.Init.{fresh_iov, init_command-granted, fresh_command}
use erlxsl.Internal.InitTask.{
  TaskRequest, with_document, with_task, with_documents, cleared, built_task, document_blocks,
  with_document-DocumentAt, init_task-granted, with_document-WellFormed, cleared-WellFormed,
}
use erlxsl.Internal.FreeCommand.{free_command-Frees}

-- Build a command for a task, build the task, and free the command.
abbrev pub transform_cycle : ℕ → Ptr → Ptr → Ptr → Ptr → Ptr → Ptr → M DriverState
transform_cycle fuel context task hsize hspec xml xsl = do
  cmd ← init_command (some transform_command) context task 0
  state ← init_task task hsize hspec xml xsl
  free_command fuel cmd
  pure state

-- The world with the command and its result's vector.
abbrev pub with_command : Ptr → Ptr → World → World
with_command context task w =
    granted (iov_block (fresh_iov text 0 0))
      (granted (command_block (fresh_command (some transform_command) context task 0 w)) w)

module _ {w : World} {task hsize hspec xml xsl : Ptr} {sizes : PayloadSize} {spec : InputSpec}
    (r : TaskRequest w task hsize hspec xml xsl sizes spec) (context : Ptr) where
  -- A request stays one while other blocks are allocated.
  pub with_command-TaskRequest :
      TaskRequest (with_command context task w) task hsize hspec xml xsl sizes spec
  with_command-TaskRequest = record {
    wf = granted-WellFormed _ _ (granted-WellFormed _ w r.wf);
    task_at = ground (arith, allocated-lt w r.wf task _ r.task_at, r.task_at);
    sizes_at = ground (arith, allocated-lt w r.wf hsize _ r.sizes_at, r.sizes_at);
    spec_at = ground (arith, allocated-lt w r.wf hspec _ r.spec_at, r.spec_at);
    xml_bytes = r.xml_bytes;
    xml_at = ground (arith, allocated-lt w r.wf xml _ r.xml_at, r.xml_at);
    xsl_bytes = r.xsl_bytes;
    xsl_at = ground (arith, allocated-lt w r.wf xsl _ r.xsl_at, r.xsl_at);
    buffers_differ = r.buffers_differ;
    has_input = r.has_input;
    has_xsl = r.has_xsl;
  }

  -- The world with the command, and its task built.
  abbrev pub ready : World
  ready = with_task task sizes spec xml xsl (cleared task (with_command context task w))

  -- The blocks of the whole command, in the order in which they are freed.
  abbrev pub command_blocks : List Ptr
  command_blocks =
      (document_blocks xml (with_command context task w)
        ++ document_blocks xsl (
            with_document spec.input_kind (to_int32 sizes.input_size) xml
              (with_command context task w)))
      ++ ((w.next + 1) ∷ w.next ∷ [])

  xml_lt : xml < w.next
  xml_lt = allocated-lt w r.wf xml _ r.xml_at

  xsl_lt : xsl < w.next
  xsl_lt = allocated-lt w r.wf xsl _ r.xsl_at

  task_lt : task < w.next
  task_lt = allocated-lt w r.wf task _ r.task_at

  xml-ne-task : xml ≢ task
  xml-ne-task e = cc (ap w.cells e, r.xml_at, r.task_at)

  xsl-ne-task : xsl ≢ task
  xsl-ne-task e = cc (ap w.cells e, r.xsl_at, r.task_at)

  task_nz : task ≢ 0
  task_nz = allocated-ne w r.wf task _ r.task_at

  blocks-Distinct : Distinct command_blocks
  blocks-Distinct = omega (arith, xml_lt, xsl_lt, r.buffers_differ)

  -- The worlds in which the two documents are built.
  abbrev cleared_world : World
  cleared_world = cleared task (with_command context task w)

  abbrev one_document : World
  one_document = with_document spec.input_kind (to_int32 sizes.input_size) xml cleared_world

  blocks-IsLive : All (IsLive ready.cells) command_blocks
  blocks-IsLive = (
    (
      chars_block r.xml_bytes,
      allocated-ne w r.wf xml _ r.xml_at,
      ground (arith, xml_lt, xml-ne-task, r.xml_at),
    ),
    (
      (
        iov_block (fresh_iov text (to_int32 sizes.input_size) xml),
        omega arith,
        ground (arith, task_lt),
      ),
      (
        (
          document_block (record { type = spec.input_kind; iov = cleared_world.next + 1 }),
          omega arith,
          ground (arith, task_lt),
        ),
        (
          (
            chars_block r.xsl_bytes,
            allocated-ne w r.wf xsl _ r.xsl_at,
            ground (arith, xsl_lt, xsl-ne-task, r.xsl_at),
          ),
          (
            (
              iov_block (fresh_iov text (to_int32 sizes.xsl_size) xsl),
              omega arith,
              ground (arith, task_lt),
            ),
            (
              (
                document_block (record { type = spec.xsl_kind; iov = one_document.next + 1 }),
                omega arith,
                ground (arith, task_lt),
              ),
              (
                (iov_block (fresh_iov text 0 0), omega arith, ground (arith, task_lt)),
                (
                  (
                    command_block (fresh_command (some transform_command) context task 0 w),
                    r.wf.started,
                    ground (arith, task_lt),
                  ),
                  tt,
                ),
              ),
            ),
          ),
        ),
      ),
    ),
  )

  input_document : DocumentAt ready.cells cleared_world.next (document_blocks xml cleared_world)
  input_document =
      DocumentAt-same one_document.cells ready.cells _ _
        (
          ground (arith, xml_lt, xml-ne-task),
          (ground (arith, task_lt), (ground (arith, task_lt), tt)),
        )
        (with_document-DocumentAt _ _ xml cleared_world
          (cleared-WellFormed with_command-TaskRequest) (allocated-ne w r.wf xml _ r.xml_at))

  stylesheet : DocumentAt ready.cells one_document.next (document_blocks xsl one_document)
  stylesheet =
      DocumentAt-same (with_documents sizes spec xml xsl cleared_world).cells ready.cells _ _
        (
          ground (arith, xsl_lt, xsl-ne-task),
          (ground (arith, task_lt), (ground (arith, task_lt), tt)),
        )
        (with_document-DocumentAt _ _ xsl one_document
          (with_document-WellFormed _ _ _ _ (cleared-WellFormed with_command-TaskRequest))
          (allocated-ne w r.wf xsl _ r.xsl_at))

  abbrev data_blocks : List Ptr
  data_blocks = document_blocks xml cleared_world ++ document_blocks xsl one_document

  ready-TaskAt : TaskAt ready.cells task data_blocks
  ready-TaskAt =
      a_task 0 cleared_world.next one_document.next [] (document_blocks xml cleared_world)
        (document_blocks xsl one_document) task_nz (ground arith) (no_parameter 0 [] refl refl)
        input_document stylesheet refl

  its_task : (fresh_command (some transform_command) context task 0 w).command_data ≡ task
  its_task = rw (eqb_ne task 0 task_nz)

  -- All the blocks that the cycle allocates are gone at its end.
  cycle_cells :
      (q : Ptr)
      → drop_cells command_blocks ready.cells q
        ≡ update
            (update (update w.cells task (some (task_block (built_task cleared_world)))) xml none)
            xsl
            none
            q
  cycle_cells q = ground (
    arith,
    task_lt,
    xml_lt,
    xsl_lt,
    r.wf.fresh w.next (omega arith),
    r.wf.fresh (w.next + 1) (omega arith),
    r.wf.fresh (w.next + 1 + 1) (omega arith),
    r.wf.fresh (w.next + 1 + 1 + 1) (omega arith),
    r.wf.fresh (w.next + 1 + 1 + 1 + 1) (omega arith),
    r.wf.fresh (w.next + 1 + 1 + 1 + 1 + 1) (omega arith),
  )

  ready-CommandAt : CommandAt ready.cells w.next command_blocks
  ready-CommandAt =
      a_transform (fresh_command (some transform_command) context task 0 w) data_blocks
        ((w.next + 1) ∷ []) r.wf.started (ground (arith, task_lt)) refl
        (subst (λ p. TaskAt ready.cells p data_blocks) (sym its_task) ready-TaskAt)
        (subst (λ p. All (λ q. q ≢ p) command_blocks) (sym its_task)
          (omega (arith, task_lt, xml-ne-task, xsl-ne-task)))
        (an_iov (fresh_iov text 0 0) (omega arith) (ground (arith, task_lt)) refl) refl

  -- With memory for everything, a transform command that is built and freed leaves memory as it
  -- was, but for the two buffers, which are freed with it, and the task's own block, which stays
  -- allocated and still points to the freed documents.
  pub transform_cycle_lem :
      (fuel : ℕ)
      → 8 ≤ fuel
      → ((n : ℕ) → w.grants n ≡ true)
      → transform_cycle fuel context task hsize hspec xml xsl w
        ≡ ok (
          success,
          record w {
            next = w.next + 1 + 1 + 1 + 1 + 1 + 1;
            cells =
                update
                  (update
                    (update w.cells task (some (task_block (built_task cleared_world))))
                    xml
                    none)
                  xsl
                  none;
          },
        )
  transform_cycle_lem fuel b g =
      rw
        (
          init_command-granted (some transform_command) context task 0 w r.wf (g _) (g _),
          init_task-granted with_command-TaskRequest (g _, g _) (g _, g _),
          free_command-Frees fuel w.next command_blocks ready ready-CommandAt b blocks-IsLive
              blocks-Distinct,
        )
        (same_cells success w _ _ _ cycle_cells)
