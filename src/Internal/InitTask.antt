-- ===== src/Internal/InitTask.antt =====
-- `init_task`: its argument checks, the task that it builds, and its two ways out of memory.
use erlxsl.Prelude.{
  ℕ, ◌+◌, ◌≡◌, ◌≢◌, ◌⊎◌, inl, inr, refl, ◌∙◌, Option, none, some, arith, true, false, eqb_ne, List,
  [], ◌∷◌,
}
use erlxsl.Types.{
  Ptr, Int32, InputType, DriverState, bad_argument_error, empty_buffer_error, out_of_memory,
  success, text, PayloadSize, InputSpec, XslTask,
}
use erlxsl.Memory.{
  World, Block, update, ok, fault, invalid_free, raw_block, chars_block, task_block, iov_block,
  document_block, payload_size_block, input_spec_block, payload_size_of, input_spec_of,
}
use erlxsl.Memory.Steps.{store-live, drv_free-live, drv_free-freed, load-at}
use erlxsl.Memory.Blocks.{without}
use erlxsl.Memory.WellFormed.{WellFormed, allocated-lt, allocated-ne, granted, granted-WellFormed}
use erlxsl.Internal.{
  init_doc, init_task, init_documents, clear_task_fields, free_document, to_int32,
}
use erlxsl.Internal.Owned.{DocumentAt, a_document, an_iov, nonnull_ne}
use erlxsl.Internal.Init.{fresh_iov, init_doc-granted, init_doc-refused, init_doc-refused_iov}
use erlxsl.Internal.Free.{free_document-Frees}

abbrev pub cleared_task : XslTask
cleared_task = record { input_doc = some 0; xslt_doc = some 0; parameters = some 0 }

-- The world once the task's fields are cleared.
abbrev pub cleared : Ptr → World → World
cleared task w = record w { cells = update w.cells task (some (task_block cleared_task)) }

-- A request as the driver hands it over: the five arguments lead to blocks of their kinds, the two
-- buffers are two blocks, and neither size is 0.
pub record TaskRequest (w : World) (task hsize hspec xml xsl : Ptr) (sizes : PayloadSize)
    (spec : InputSpec) : Type 0 where
  pub wf : WellFormed w
  pub task_at : w.cells task ≡ some raw_block
  pub sizes_at : w.cells hsize ≡ some (payload_size_block sizes)
  pub spec_at : w.cells hspec ≡ some (input_spec_block spec)
  pub xml_bytes : List (Option ℕ)
  pub xml_at : w.cells xml ≡ some (chars_block xml_bytes)
  pub xsl_bytes : List (Option ℕ)
  pub xsl_at : w.cells xsl ≡ some (chars_block xsl_bytes)
  pub buffers_differ : xml ≢ xsl
  pub has_input : sizes.input_size ≢ 0
  pub has_xsl : sizes.xsl_size ≢ 0

-- What is wrong with the arguments, the state that names it, and the world in which it is reported:
-- no task, or a task and one of the other arguments missing, or all of them and an empty buffer.
pub data Wrong (w : World) (task hsize hspec xml xsl : Ptr) : DriverState → World → Type 0 where
  no_task : task ≡ 0 → Wrong w task hsize hspec xml xsl bad_argument_error w
  no_argument :
      {b : Block}
      → task ≢ 0
      → w.cells task ≡ some b
      → (hsize ≡ 0) ⊎ (hspec ≡ 0) ⊎ (xml ≡ 0) ⊎ (xsl ≡ 0)
      → Wrong w task hsize hspec xml xsl bad_argument_error (cleared task w)
  no_text :
      {b : Block} (sizes : PayloadSize)
      → task ≢ 0
      → w.cells task ≡ some b
      → task ≢ hsize
      → (hsize ≢ 0) × (hspec ≢ 0) × (xml ≢ 0) × (xsl ≢ 0)
      → w.cells hsize ≡ some (payload_size_block sizes)
      → (sizes.input_size ≡ 0) ⊎ (sizes.xsl_size ≡ 0)
      → Wrong w task hsize hspec xml xsl empty_buffer_error (cleared task w)

-- Wrong arguments are refused with the state that names what is wrong: a missing task before
-- anything is written; a missing size, specification or buffer, and then an empty buffer, with the
-- task's own fields cleared. Nothing else is written, allocated or freed.
pub init_task-rejects :
    (w : World) (task hsize hspec xml xsl : Ptr) (e : DriverState) (v : World)
    → Wrong w task hsize hspec xml xsl e v
    → init_task task hsize hspec xml xsl w ≡ ok (e, v)
unfolding init_task clear_task_fields
init_task-rejects w task hsize hspec xml xsl _ _ (no_task z) = rw z refl
init_task-rejects w task hsize hspec xml xsl _ _ (no_argument {b} nz at missing) =
    rw (eqb_ne task 0 nz, store-live task (task_block cleared_task) w b at)
      (ground (arith, missing))
init_task-rejects w task hsize hspec xml xsl _ _
      (no_text {b} sizes nz at apart given at_sizes empty) =
    rw
      (
        eqb_ne task 0 nz,
        store-live task (task_block cleared_task) w b at,
        eqb_ne hsize 0 given.0,
        eqb_ne hspec 0 given.1,
        eqb_ne xml 0 given.2,
        eqb_ne xsl 0 given.3,
        load-at payload_size_of hsize (cleared task w) (payload_size_block sizes) sizes
            (ground (arith, apart, at_sizes)) refl,
      )
      (ground (arith, empty))

module _ {w : World} {task hsize hspec xml xsl : Ptr} {sizes : PayloadSize} {spec : InputSpec}
    (r : TaskRequest w task hsize hspec xml xsl sizes spec) where
  -- The checks pass, and the documents are built in the world with the task cleared.
  init_task-checks :
      init_task task hsize hspec xml xsl w ≡ init_documents task sizes spec xml xsl (cleared task w)
  unfolding init_task clear_task_fields
  init_task-checks = rw (
    eqb_ne task 0 (allocated-ne w r.wf task _ r.task_at),
    store-live task (task_block cleared_task) w _ r.task_at,
    eqb_ne hsize 0 (allocated-ne w r.wf hsize _ r.sizes_at),
    eqb_ne hspec 0 (allocated-ne w r.wf hspec _ r.spec_at),
    eqb_ne xml 0 (allocated-ne w r.wf xml _ r.xml_at),
    eqb_ne xsl 0 (allocated-ne w r.wf xsl _ r.xsl_at),
    load-at payload_size_of hsize (cleared task w) (payload_size_block sizes) sizes
        (ground (arith, r.sizes_at, r.task_at)) refl,
    eqb_ne sizes.input_size 0 r.has_input,
    eqb_ne sizes.xsl_size 0 r.has_xsl,
    load-at input_spec_of hspec (cleared task w) (input_spec_block spec) spec
        (ground (arith, r.spec_at, r.task_at)) refl,
  )

-- The allocator refuses one of a document's two blocks.
abbrev pub Refuses : World → Type 0
Refuses w = (w.grants w.next ≡ false) ⊎ ((w.grants w.next ≡ true) × (w.grants (w.next + 1) ≡ false))

-- The allocator grants both.
abbrev pub Grants : World → Type 0
Grants w = (w.grants w.next ≡ true) × (w.grants (w.next + 1) ≡ true)

-- The world with a fresh document and its vector.
abbrev pub with_document : InputType → Int32 → Ptr → World → World
with_document type size payload w =
    granted (iov_block (fresh_iov text size payload))
      (granted (document_block (record { type = type; iov = w.next + 1 })) w)

pub with_document-WellFormed :
    (type : InputType) (size : Int32) (payload : Ptr) (w : World)
    → WellFormed w
    → WellFormed (with_document type size payload w)
with_document-WellFormed type size payload w wf = granted-WellFormed _ _ (granted-WellFormed _ w wf)

-- When the allocator refuses the document or its vector, `init_doc` answers NULL and every block of
-- memory is as it was: a document that was granted has been given back.
pub init_doc-Refuses :
    (type : InputType) (size : Int32) (payload : Ptr) (w : World)
    → WellFormed w
    → Refuses w
    → (n : ℕ) × (init_doc type size payload w ≡ ok (0, record w { next = n }))
init_doc-Refuses type size payload w wf (inl g) =
    (w.next + 1, init_doc-refused type size payload w wf g)
init_doc-Refuses type size payload w wf (inr (g, g')) =
    (w.next + 1 + 1, init_doc-refused_iov type size payload w wf g g')

-- The world with both of a task's documents, and the task that points to them.
abbrev pub with_documents : PayloadSize → InputSpec → Ptr → Ptr → World → World
with_documents sizes spec xml xsl w =
    with_document spec.xsl_kind (to_int32 sizes.xsl_size) xsl
      (with_document spec.input_kind (to_int32 sizes.input_size) xml w)

abbrev pub built_task : World → XslTask
built_task w = record {
  input_doc = some w.next;
  xslt_doc = some (w.next + 1 + 1);
  parameters = some 0;
}

abbrev pub with_task : Ptr → PayloadSize → InputSpec → Ptr → Ptr → World → World
with_task task sizes spec xml xsl w =
    let v = with_documents sizes spec xml xsl w in
    record v { cells = update v.cells task (some (task_block (built_task w))) }

-- The blocks of a fresh document over an allocated payload, in the order in which they are freed.
abbrev pub document_blocks : Ptr → World → List Ptr
document_blocks payload w = payload ∷ (w.next + 1) ∷ w.next ∷ []

pub with_document-DocumentAt :
    (type : InputType) (size : Int32) (payload : Ptr) (w : World)
    → WellFormed w
    → payload ≢ 0
    → DocumentAt (with_document type size payload w).cells w.next (document_blocks payload w)
with_document-DocumentAt type size payload w wf nz =
    a_document (record { type = type; iov = w.next + 1 }) (payload ∷ (w.next + 1) ∷ []) wf.started
      (ground arith)
      (an_iov (fresh_iov text size payload) (omega arith) (ground arith)
        (rw (eqb_ne payload 0 nz, nonnull_ne payload nz)))
      refl

-- Freeing a document that was just built frees its payload too.
free_document-fresh :
    (type : InputType) (size : Int32) (payload : Ptr) (x : Block) (w : World) (n : ℕ)
    → WellFormed w
    → w.cells payload ≡ some x
    → let v : World = record (with_document type size payload w) { next = n } in
      free_document w.next v ≡ ok (tt, without (document_blocks payload w) v)
free_document-fresh type size payload x w n wf at =
    let nz = allocated-ne w wf payload x at in
    let lt = allocated-lt w wf payload x at in
    free_document-Frees w.next _ (with_document-DocumentAt type size payload w wf nz)
      (
        (x, nz, ground arith),
        (
          (iov_block (fresh_iov text size payload), omega arith, ground arith),
          (
            (document_block (record { type = type; iov = w.next + 1 }), wf.started, ground arith),
            tt,
          ),
        ),
      )
      (omega arith)

module _ (task : Ptr) (sizes : PayloadSize) (spec : InputSpec) (xml xsl : Ptr) (w : World)
    (wf : WellFormed w) (b x y : Block) (task_at : w.cells task ≡ some b)
    (xml_at : w.cells xml ≡ some x) (xsl_at : w.cells xsl ≡ some y) (differ : xml ≢ xsl) where
  xml_nz : xml ≢ 0
  xml_nz = allocated-ne w wf xml x xml_at

  xsl_nz : xsl ≢ 0
  xsl_nz = allocated-ne w wf xsl y xsl_at

  init_documents-granted :
      Grants w
      → Grants (with_document spec.input_kind (to_int32 sizes.input_size) xml w)
      → init_documents task sizes spec xml xsl w ≡ ok (success, with_task task sizes spec xml xsl w)
  unfolding init_documents
  init_documents-granted g g' = rw (
    init_doc-granted spec.input_kind (to_int32 sizes.input_size) xml w wf g.0 g.1,
    eqb_ne w.next 0 wf.started,
    init_doc-granted spec.xsl_kind (to_int32 sizes.xsl_size) xsl
        (with_document spec.input_kind (to_int32 sizes.input_size) xml w)
        (with_document-WellFormed _ _ _ w wf) g'.0 g'.1,
    eqb_ne (w.next + 1 + 1) 0 (omega arith),
    store-live task (task_block (built_task w)) (with_documents sizes spec xml xsl w) b
        (ground (arith, allocated-lt w wf task b task_at, task_at)),
  )

  -- Out of memory at the first document: both buffers are freed.
  init_documents-first_refused :
      Refuses w
      → (n : ℕ) × (init_documents task sizes spec xml xsl w
          ≡ ok (out_of_memory, record (without (xml ∷ xsl ∷ []) w) { next = n }))
  unfolding init_documents
  init_documents-first_refused g =
      let (n, e) = init_doc-Refuses spec.input_kind (to_int32 sizes.input_size) xml w wf g in
      (
        n,
        rw (
          e,
          drv_free-live xml (record w { next = n }) x xml_nz xml_at,
          drv_free-live xsl (record w { next = n; cells = update w.cells xml none }) y xsl_nz
              (ground (arith, xsl_at, differ)),
        ),
      )

  -- Out of memory at the second document: the first one is freed with its buffer, and then the same
  -- buffer once more.
  init_documents-second_refused :
      Grants w
      → Refuses (with_document spec.input_kind (to_int32 sizes.input_size) xml w)
      → init_documents task sizes spec xml xsl w ≡ fault invalid_free
  unfolding init_documents
  init_documents-second_refused g g' =
      let w₁ = with_document spec.input_kind (to_int32 sizes.input_size) xml w in
      let (n, e) =
        init_doc-Refuses spec.xsl_kind (to_int32 sizes.xsl_size) xsl w₁
          (with_document-WellFormed _ _ _ w wf) g' in
      rw (
        init_doc-granted spec.input_kind (to_int32 sizes.input_size) xml w wf g.0 g.1,
        eqb_ne w.next 0 wf.started,
        e,
        free_document-fresh spec.input_kind (to_int32 sizes.input_size) xml x w n wf xml_at,
        drv_free-freed xml (without (document_blocks xml w) (record w₁ { next = n })) xml_nz
            (ground arith),
      )

module _ {w : World} {task hsize hspec xml xsl : Ptr} {sizes : PayloadSize} {spec : InputSpec}
    (r : TaskRequest w task hsize hspec xml xsl sizes spec) where
  pub cleared-WellFormed : WellFormed (cleared task w)
  cleared-WellFormed = record {
    null_free = ground (arith, allocated-ne w r.wf task _ r.task_at, r.wf.null_free);
    started = r.wf.started;
    fresh = λ p h. ground (arith, allocated-lt w r.wf task _ r.task_at, r.wf.fresh p);
  }

  xml_kept : (cleared task w).cells xml ≡ some (chars_block r.xml_bytes)
  xml_kept = ground (arith, r.xml_at, r.task_at)

  xsl_kept : (cleared task w).cells xsl ≡ some (chars_block r.xsl_bytes)
  xsl_kept = ground (arith, r.xsl_at, r.task_at)

  task_kept : (cleared task w).cells task ≡ some (task_block cleared_task)
  task_kept = ground arith

  -- With memory for both documents the task is built: it points to two fresh documents that hold
  -- the request's two buffers, their kinds and their sizes, and it has no parameters. Nothing else
  -- in memory changes.
  pub init_task-granted :
      Grants w
      → Grants (with_document spec.input_kind (to_int32 sizes.input_size) xml w)
      → init_task task hsize hspec xml xsl w
        ≡ ok (success, with_task task sizes spec xml xsl (cleared task w))
  init_task-granted g g' =
      init_task-checks r
      ∙ init_documents-granted task sizes spec xml xsl (cleared task w) cleared-WellFormed _ _ _
          task_kept xml_kept xsl_kept r.buffers_differ g g'

  -- Without memory for the first document the code reports it, as the `DriverState` of the same
  -- number, and has freed both buffers; the task is left with its fields cleared and nothing else
  -- in memory changes.
  pub init_task-first_refused :
      Refuses w
      → (n : ℕ) × (init_task task hsize hspec xml xsl w
          ≡ ok (out_of_memory, record (without (xml ∷ xsl ∷ []) (cleared task w)) { next = n }))
  init_task-first_refused g =
      let (n, e) =
        init_documents-first_refused task sizes spec xml xsl (cleared task w) cleared-WellFormed _ _
          _ task_kept xml_kept xsl_kept r.buffers_differ g in
      (n, init_task-checks r ∙ e)

  -- With memory for the first document and none for the second, the code meets a free of a block that
  -- is not allocated.
  pub init_task-second_refused :
      Grants w
      → Refuses (with_document spec.input_kind (to_int32 sizes.input_size) xml w)
      → init_task task hsize hspec xml xsl w ≡ fault invalid_free
  init_task-second_refused g g' =
      init_task-checks r
      ∙ init_documents-second_refused task sizes spec xml xsl (cleared task w) cleared-WellFormed _
          _ _ task_kept xml_kept xsl_kept r.buffers_differ g g'
