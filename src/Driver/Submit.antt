-- ===== src/Driver/Submit.antt =====
-- `outputv` on a request in good order, with memory for everything.
use erlxsl.Prelude.{
  ℕ, ◌+◌, ◌^◌, ◌<◌, ◌≡◌, ◌≢◌, refl, sym, ◌∙◌, append-nil, List, [], ◌∷◌, ◌++◌, none, some, arith,
  length, eqb_ne, true, false, ◌==◌,
}
use erlxsl.Types.{
  Ptr, Command, InputSpec, PayloadSize, DriverHandle, DriverContext, AsyncState, text,
}
use erlxsl.Memory.{
  World, ok, update, ◌>>=◌, raw_block, handle_block, context_block, async_block, command_block,
  driver_async,
}
use erlxsl.Memory.Steps.{store-live}
use erlxsl.Memory.WellFormed.{WellFormed, granted-WellFormed, stored-WellFormed}
use erlxsl.CString.Laws.{terminated}
use erlxsl.Internal.{transform_command, to_int32, init_task}
use erlxsl.Internal.Init.{init_command-granted, fresh_command, fresh_iov}
use erlxsl.Internal.InitTask.{TaskRequest, cleared, with_task, built_task, init_task-granted}
use erlxsl.Internal.Cycle.{with_command}
use erlxsl.Request.{ErlIoVec}
use erlxsl.TestEngine.Documents.{TransformReady}
use erlxsl.Driver.Prepared
use erlxsl.Driver.Prepared.{Readable}
use erlxsl.Driver.{Emulator, outputv, submit}

-- Neither text is empty.
pub record InOrder (em : Emulator) (ev : ErlIoVec) (spec : InputSpec) (xml xsl : List ℕ)
    : Type 0 where
  pub readable : Readable em ev spec xml xsl
  pub has_xml : length xml ≢ 0
  pub has_xsl : length xsl ≢ 0

module _ (em : Emulator) (drv_data : Ptr) (d : DriverHandle) (ev : ErlIoVec) (spec : InputSpec)
    (xml xsl : List ℕ) (w : World) (wf : WellFormed w)
    (drv_at : w.cells drv_data ≡ some (handle_block d)) (r : Readable em ev spec xml xsl)
    (grants : (n : ℕ) → w.grants n ≡ true) where
  abbrev n : ℕ
  n = w.next

  abbrev pub sizes : PayloadSize
  sizes = Prepared.sizes em d spec xml xsl w

  abbrev job : Ptr
  job = Prepared.job em d spec xml xsl w

  abbrev context : DriverContext
  context = Prepared.context em d spec xml xsl w

  abbrev allocated : World
  allocated = Prepared.allocated em d spec xml xsl w

  -- With the command, and its async handle filled in.
  abbrev handle : AsyncState
  handle = record { state = none; driver = some drv_data; command = some (job + 1 + 1 + 1) }

  abbrev pub commanded : World
  commanded =
      let v = with_command (job + 1) job allocated in
      record v { cells = update v.cells (job + 1 + 1) (some (async_block handle)) }

  pub commanded-WellFormed : WellFormed commanded
  commanded-WellFormed =
      stored-WellFormed (job + 1 + 1) (async_block handle) raw_block
        (with_command (job + 1) job allocated)
        (granted-WellFormed _ _ (
          granted-WellFormed _ _ (
            Prepared.allocated-WellFormed em drv_data d ev spec xml xsl w wf drv_at r
              (λ k h. grants k))))
        (ground arith)

  -- What is left to do when everything is allocated.
  pub outputv-commands :
      outputv em drv_data ev w
      ≡ (init_task job (n + 1) n (n + 1 + 1) (n + 1 + 1 + 1) >>= λ state.
            submit d.port (job + 1 + 1) state)
          commanded
  outputv-commands =
      Prepared.outputv-allocated em drv_data d ev spec xml xsl w wf drv_at r (λ k h. grants k)
      ∙ rw (
        init_command-granted (some transform_command) (job + 1) job 0 allocated
            (Prepared.allocated-WellFormed em drv_data d ev spec xml xsl w wf drv_at r
              (λ k h. grants k))
            (grants _) (grants _),
        store-live (job + 1 + 1) (async_block handle) (with_command (job + 1) job allocated)
            raw_block (ground arith),
        eqb_ne (job + 1 + 1 + 1) 0 (omega arith),
      )

  module _ (has_xml : length xml ≢ 0) (has_xsl : length xsl ≢ 0) where
    commanded-TaskRequest :
        TaskRequest commanded job (n + 1) n (n + 1 + 1) (n + 1 + 1 + 1) sizes spec
    commanded-TaskRequest = record {
      wf = commanded-WellFormed;
      task_at = ground arith;
      sizes_at = ground arith;
      spec_at = ground arith;
      xml_bytes = terminated xml;
      xml_at = ground arith;
      xsl_bytes = terminated xsl;
      xsl_at = ground arith;
      buffers_differ = omega arith;
      has_input = has_xml;
      has_xsl = has_xsl;
    }

    abbrev tasked : World
    tasked = with_task job sizes spec (n + 1 + 1) (n + 1 + 1 + 1) (cleared job commanded)

    abbrev pub submitted : World
    submitted = record tasked { events = w.events ++ driver_async (job + 1 + 1) ∷ [] }

    pub outputv-submits : outputv em drv_data ev w ≡ ok (tt, submitted)
    outputv-submits =
        outputv-commands
        ∙ rw (init_task-granted commanded-TaskRequest (grants _, grants _) (grants _, grants _))

    -- The command's block, which its result and the two documents follow.
    abbrev cmd : Ptr
    cmd = job + 1 + 1 + 1

    job_nz : (job == 0) ≡ false
    job_nz = eqb_ne job 0 (omega arith)

    small_size : (k : ℕ) → k < 2 ^ 32 → to_int32 k ≡ k
    small_size k h = omega arith

    submitted-WellFormed : WellFormed submitted
    submitted-WellFormed = record {
      null_free = ground (arith, wf.started, wf.null_free);
      started = omega arith;
      fresh = λ p h. ground (arith, wf.fresh p);
    }

    submitted-ready :
        length xml < 2 ^ 32
        → length xsl < 2 ^ 32
        → TransformReady submitted cmd
            (cmd + 1)
            job
            (cmd + 1 + 1)
            (cmd + 1 + 1 + 1 + 1)
            (cmd + 1 + 1 + 1)
            (cmd + 1 + 1 + 1 + 1 + 1)
            (n + 1 + 1)
            (n + 1 + 1 + 1)
            xml
            xsl
            []
            []
    submitted-ready h h' = record {
      wf = submitted-WellFormed;
      c = fresh_command (some transform_command) (job + 1) job 0 allocated;
      v = fresh_iov text 0 0;
      tk = built_task (cleared job commanded);
      cmd_at = ground arith;
      is_transform = refl;
      task_is = rw job_nz;
      result_is = refl;
      result_at = ground arith;
      clean = refl;
      task_at = ground arith;
      input_is = refl;
      xslt_is = refl;
      no_parameters = refl;
      input = record {
        d = record { type = spec.input_kind; iov = cmd + 1 + 1 + 1 };
        v = fresh_iov text (to_int32 (length xml)) (n + 1 + 1);
        doc_at = ground arith;
        iov_is = refl;
        iov_at = ground arith;
        is_text = refl;
        owned = ground arith;
        size_is = small_size (length xml) h;
        buffer_is = refl;
        text_at = ground (arith, append-nil (terminated xml));
        characters = r.xml_text;
      };
      xslt = record {
        d = record { type = spec.xsl_kind; iov = cmd + 1 + 1 + 1 + 1 + 1 };
        v = fresh_iov text (to_int32 (length xsl)) (n + 1 + 1 + 1);
        doc_at = ground arith;
        iov_is = refl;
        iov_at = ground arith;
        is_text = refl;
        owned = ground arith;
        size_is = small_size (length xsl) h';
        buffer_is = refl;
        text_at = ground (arith, append-nil (terminated xsl));
        characters = r.xsl_text;
      };
      apart = omega arith;
      input_iov_apart = omega arith;
      xslt_iov_apart = omega arith;
    }

    -- With memory for everything, and the driver's handle in a well-formed memory, a request in order,
    -- of texts below 2^32 bytes, is submitted: one asynchronous call is asked for, with a handle that
    -- leads to the driver and to a transform command. The command is what a provider relies on: its
    -- task's two documents hold exactly the request's two texts, its result is empty, and its context
    -- has the port and the calling process. What was allocated before is as it was.
    pub outputv_lem :
        length xml < 2 ^ 32
        → length xsl < 2 ^ 32
        → (w' : World) × (outputv em drv_data ev w ≡ ok (tt, w'))
          × (w'.events ≡ w.events ++ driver_async (n + 6) ∷ [])
          × (w'.cells (n + 6)
              ≡ some (
                  async_block
                    (record { state = none; driver = some drv_data; command = some (n + 7) })))
          × (w'.cells (n + 5) ≡ some (context_block context))
          × ((c : Command) × (w'.cells (n + 7) ≡ some (command_block c)) × (c.context ≡ n + 5))
          × ((q : Ptr) → q < n → w'.cells q ≡ w.cells q)
          × (w'.grants ≡ w.grants)
          × TransformReady w'
              (n + 7)
              (n + 8)
              (n + 4)
              (n + 9)
              (n + 11)
              (n + 10)
              (n + 12)
              (n + 2)
              (n + 3)
              xml
              xsl
              []
              []
    outputv_lem h h' =
        let e₂ : n + 2 ≡ n + 1 + 1 = omega arith in
        let e₃ : n + 3 ≡ n + 1 + 1 + 1 = omega arith in
        let e₄ : n + 4 ≡ n + 1 + 1 + 1 + 1 = omega arith in
        let e₅ : n + 5 ≡ n + 1 + 1 + 1 + 1 + 1 = omega arith in
        let e₆ : n + 6 ≡ n + 1 + 1 + 1 + 1 + 1 + 1 = omega arith in
        let e₇ : n + 7 ≡ n + 1 + 1 + 1 + 1 + 1 + 1 + 1 = omega arith in
        let e₈ : n + 8 ≡ n + 1 + 1 + 1 + 1 + 1 + 1 + 1 + 1 = omega arith in
        let e₉ : n + 9 ≡ n + 1 + 1 + 1 + 1 + 1 + 1 + 1 + 1 + 1 = omega arith in
        let e₁₀ : n + 10 ≡ n + 1 + 1 + 1 + 1 + 1 + 1 + 1 + 1 + 1 + 1 = omega arith in
        let e₁₁ : n + 11 ≡ n + 1 + 1 + 1 + 1 + 1 + 1 + 1 + 1 + 1 + 1 + 1 = omega arith in
        let e₁₂ : n + 12 ≡ n + 1 + 1 + 1 + 1 + 1 + 1 + 1 + 1 + 1 + 1 + 1 + 1 = omega arith in
        (
          submitted,
          outputv-submits,
          rw e₆,
          rw (e₆, e₇) (ground arith),
          rw e₅ (ground arith),
          (
            fresh_command (some transform_command) (job + 1) job 0 allocated,
            rw e₇ (ground arith),
            sym e₅,
          ),
          (λ q l. ground (arith, l)),
          refl,
          rw (e₇, e₈, e₄, e₉, e₁₁, e₁₀, e₁₂, e₂, e₃) (submitted-ready h h'),
        )
