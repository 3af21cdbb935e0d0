-- ===== src/Driver/Session.antt =====
-- From a submitted command to its reply: `apply_transform` with the provider's transform, and then
-- `ready_async`.
use erlxsl.Prelude.{
  ℕ, suc, ◌∙◌, ◌<◌, ◌≤◌, ◌≡◌, ◌≢◌, refl, sym, ap, subst, true, List, [], ◌∷◌, ◌++◌, Option, some,
  none, arith, All, Distinct, length, inl, inr, Bool-cases, Bool, if◌then◌else◌,
}
use erlxsl.Types.{Ptr, EngineState, out_of_memory_error, DriverContext, DriverHandle, AsyncState}
use erlxsl.Memory.{
  command_of, iov_of, World, Cells, Block, ok, ◌>>◌, command_block, iov_block, context_block,
  handle_block, async_block, engine_block, task_block, chars_block, driver_send_term, update,
  async_of, handle_of, engine_of,
}
use erlxsl.Memory.Blocks.{without, drop_cells-frees}
use erlxsl.Memory.Steps.{load-at, store-live}
use erlxsl.Memory.WellFormed.{WellFormed, allocated-lt, stored-WellFormed}
use erlxsl.CString.Laws.{log_string-at, IsText, terminated}
use erlxsl.ResultBuffer.Write.{Content}
use erlxsl.TestEngine.Documents.{TextDocument, TextDocument-same, TransformReady}
use erlxsl.Driver.{Emulator, Provider, apply_transform, ready_async, is_ok}
use erlxsl.Driver.Submitted.{append_events, Submitted, Transformed}
use erlxsl.Driver.Finished.{Finished, Finished-Answered}
use erlxsl.Driver.Reply.{ready_async_lem, reply_words, sent}

module _ (provider : Provider) {w : World} {cmd res task doc doc' iov iov' buffer buffer' : Ptr}
    {s t : List ℕ} {rest rest' : List (Option ℕ)}
    (r : TransformReady w cmd res task doc doc' iov iov' buffer buffer' s t rest rest')
    {drv_data asd : Ptr} {d : DriverHandle} {ctx : DriverContext} {transform : ℕ}
    (u : Submitted provider w drv_data asd d r.c ctx cmd transform) {w₁ : World} {buf : Ptr}
    {capacity : ℕ} {x : List ℕ} {st : EngineState}
    (e₁ : provider.run (suc transform) cmd w ≡ ok (st, w₁))
    (o : Transformed w w₁ cmd res buf capacity x) where
  abbrev owned : List Ptr
  owned = buffer ∷ iov ∷ doc ∷ buffer' ∷ iov' ∷ doc' ∷ buf ∷ res ∷ cmd ∷ []

  abbrev done : AsyncState
  done = record { state = some st; driver = some drv_data; command = some cmd }

  abbrev pub w₂ : World
  w₂ = record w₁ { cells = update w₁.cells asd (some (async_block done)) }

  lt : (p : Ptr) (b : Block) → w.cells p ≡ some b → p < w.next
  lt p b at = allocated-lt w r.wf p b at

  asd-ne-res : asd ≢ res
  asd-ne-res e = cc (ap w.cells e, u.asd_at, r.result_at)

  asd_at : w₁.cells asd ≡ some (async_block (record done { state = none }))
  asd_at = o.kept asd (lt asd _ u.asd_at) asd-ne-res ∙ u.asd_at

  w₂-WellFormed : WellFormed w₂
  w₂-WellFormed = stored-WellFormed asd _ _ w₁ o.wf asd_at

  -- Nothing that was there before changes, but the result's vector and the handle.
  pub apply_transform-frame : (q : Ptr) → q < w.next → q ≢ res → q ≢ asd → w₂.cells q ≡ w.cells q
  apply_transform-frame q l n m = ground (arith, o.kept q l n)

  stays : (q : Ptr) (b : Block) → q ≢ res → q ≢ asd → w.cells q ≡ some b → w₂.cells q ≡ some b
  stays q b n m at = apply_transform-frame q (lt q b at) n m ∙ at

  document_stays :
      {p i b : Ptr} {x : List ℕ} {y : List (Option ℕ)}
      → i ≢ res
      → TextDocument w p i b x y
      → TextDocument w₂ p i b x y
  document_stays {p} {i} {b} n h =
      TextDocument-same w₂ h
        (stays p _ (λ e. cc (ap w.cells e, h.doc_at, r.result_at))
            (λ e. cc (ap w.cells e, h.doc_at, u.asd_at)) h.doc_at
          ∙ sym h.doc_at)
        (stays i _ n (λ e. cc (ap w.cells e, h.iov_at, u.asd_at)) h.iov_at ∙ sym h.iov_at)
        (stays b _ (λ e. cc (ap w.cells e, h.text_at, r.result_at))
            (λ e. cc (ap w.cells e, h.text_at, u.asd_at)) h.text_at
          ∙ sym h.text_at)

  input₂ : TextDocument w₂ doc iov buffer s rest
  input₂ = document_stays r.input_iov_apart r.input

  xslt₂ : TextDocument w₂ doc' iov' buffer' t rest'
  xslt₂ = document_stays r.xslt_iov_apart r.xslt

  task₂ : w₂.cells task ≡ some (task_block r.tk)
  task₂ =
      stays task _ (λ e. cc (ap w.cells e, r.task_at, r.result_at))
        (λ e. cc (ap w.cells e, r.task_at, u.asd_at)) r.task_at

  cmd₂ : w₂.cells cmd ≡ some (command_block r.c)
  cmd₂ =
      stays cmd _ (λ e. cc (ap w.cells e, r.cmd_at, r.result_at))
        (λ e. cc (ap w.cells e, r.cmd_at, u.asd_at)) r.cmd_at

  asd₂ : w₂.cells asd ≡ some (async_block done)
  asd₂ = ground arith

  iov₂ : w₂.cells res ≡ some (iov_block o.result.v)
  iov₂ = ground (arith, asd-ne-res, o.result.iov_at)

  buf₂ : w₂.cells buf ≡ some (chars_block o.result.bytes)
  buf₂ = ground (arith, allocated-lt w r.wf asd _ u.asd_at, o.fresh, o.result.bytes_at)

  drv₂ : w₂.cells drv_data ≡ some (handle_block d)
  drv₂ =
      stays drv_data _ (λ e. cc (ap w.cells e, u.drv_at, r.result_at))
        (λ e. cc (ap w.cells e, u.drv_at, u.asd_at)) u.drv_at

  engine₂ : w₂.cells u.engine ≡ some (engine_block u.table)
  engine₂ =
      stays u.engine _ (λ e. cc (ap w.cells e, u.engine_at, r.result_at))
        (λ e. cc (ap w.cells e, u.engine_at, u.asd_at)) u.engine_at

  context₂ : w₂.cells r.c.context ≡ some (context_block ctx)
  context₂ =
      stays r.c.context _ (λ e. cc (ap w.cells e, u.context_at, r.result_at))
        (λ e. cc (ap w.cells e, u.context_at, u.asd_at)) u.context_at

  result₂ : w₂.cells r.c.result ≡ some (iov_block o.result.v)
  result₂ = rw r.result_is iov₂

  -- A written text that is not empty makes the vector dirty.
  is_dirty : o.result.v.dirty ≡ true
  is_dirty = elim (Bool-cases o.result.v.dirty) [
    | inl dirty ↦ dirty
    | inr clean ↦
        let e : x ≡ [] = subst (λ d. Content d o.result.bytes x) clean o.result.content in
        absurd (omega (arith, o.has_text, ap length e))
  ]

  written-IsText : (y : List (Option ℕ)) × (o.result.bytes ≡ terminated x ++ y) × IsText x
  written-IsText = subst (λ d. Content d o.result.bytes x) is_dirty o.result.content

  pub apply_transform-done : apply_transform provider asd w ≡ ok (tt, w₂)
  unfolding apply_transform
  apply_transform-done = rw (
    load-at async_of asd w _ (record done { state = none }) u.asd_at refl,
    load-at handle_of drv_data w _ d u.drv_at refl,
    u.engine_is,
    load-at engine_of u.engine w _ u.table u.engine_at refl,
    u.transform_is,
    e₁,
    load-at async_of asd w₁ _ (record done { state = none }) asd_at refl,
    store-live asd (async_block done) w₁ _ asd_at,
    load-at command_of cmd w₂ _ r.c cmd₂ refl,
    load-at iov_of r.c.result w₂ _ o.result.v result₂ refl,
    o.result.payload_is,
    log_string-at buf x written-IsText.0 w₂ (buf₂ ∙ ap (λ b. some (chars_block b)) written-IsText.1)
        written-IsText.2 o.result.buf_nz,
  )

  handle_apart : All (λ q. q ≢ asd) owned
  handle_apart = (
    (λ e. cc (ap w₂.cells e, input₂.text_at, asd₂)),
    (
      (λ e. cc (ap w₂.cells e, input₂.iov_at, asd₂)),
      (
        (λ e. cc (ap w₂.cells e, input₂.doc_at, asd₂)),
        (
          (λ e. cc (ap w₂.cells e, xslt₂.text_at, asd₂)),
          (
            (λ e. cc (ap w₂.cells e, xslt₂.iov_at, asd₂)),
            (
              (λ e. cc (ap w₂.cells e, xslt₂.doc_at, asd₂)),
              (
                (λ e. cc (ap w₂.cells e, buf₂, asd₂)),
                (
                  (λ e. cc (ap w₂.cells e, iov₂, asd₂)),
                  ((λ e. cc (ap w₂.cells e, cmd₂, asd₂)), tt),
                ),
              ),
            ),
          ),
        ),
      ),
    ),
  )

  -- The fresh buffer is none of the old blocks, and the handle is of another type than they are.
  owned-Distinct : Distinct (owned ++ asd ∷ [])
  owned-Distinct = omega (
    arith,
    r.apart,
    o.fresh,
    lt buffer _ r.input.text_at,
    lt iov _ r.input.iov_at,
    lt doc _ r.input.doc_at,
    lt buffer' _ r.xslt.text_at,
    lt iov' _ r.xslt.iov_at,
    lt doc' _ r.xslt.doc_at,
    lt res _ r.result_at,
    lt cmd _ r.cmd_at,
    lt asd _ u.asd_at,
    handle_apart,
  )

  -- The command as `apply_transform` leaves it.
  pub apply_transform-Finished :
      Finished w₂ drv_data asd d ctx st cmd res task doc doc' iov iov' buffer buffer' buf s t rest
        rest' x u.after
  apply_transform-Finished = record {
    wf = w₂-WellFormed;
    engine = u.engine;
    table = u.table;
    c = r.c;
    v = o.result.v;
    tk = r.tk;
    more = written-IsText.0;
    drv_at = drv₂;
    engine_is = u.engine_is;
    engine_at = engine₂;
    after_is = u.after_is;
    asd_at = asd₂;
    cmd_at = cmd₂;
    is_transform = r.is_transform;
    task_is = r.task_is;
    result_is = r.result_is;
    context_at = context₂;
    iov_at = iov₂;
    is_dirty = is_dirty;
    is_text = o.result.type_is;
    buffer_is = o.result.payload_is;
    text_at = buf₂ ∙ ap (λ b. some (chars_block b)) written-IsText.1;
    characters = written-IsText.2;
    task_at = task₂;
    input_is = r.input_is;
    xslt_is = r.xslt_is;
    no_parameters = r.no_parameters;
    input = input₂;
    xslt = xslt₂;
    distinct = owned-Distinct;
  }

  module _ (em : Emulator) (has_memory : st ≢ out_of_memory_error)
      (grants : (n : ℕ) → w.grants n ≡ true) where
    -- A submitted command is answered with the text that the provider's transform leaves as its result:
    -- if the transform returns, with a state that is not that of no memory, and leaves a text that is
    -- not empty in a new buffer, and else keeps what was allocated, then `apply_transform` and
    -- `ready_async` meet no fault, the one event is a term for the calling process, with the atom of
    -- the transform's state, the port and a buffer that holds the text at that moment, and afterwards
    -- every block of the command and its handle is free. There is memory for everything, and the
    -- provider's `after_transform` leaves memory as it is.
    pub session_lem :
        (fuel : ℕ)
        → 9 ≤ fuel
        → (w' : World) × (m : Cells) × (y : List (Option ℕ)) × ((apply_transform provider asd
                >> ready_async em provider fuel drv_data asd)
              w
            ≡ ok (tt, w'))
          × (w'.events
              ≡ w.events
                ++ driver_send_term ctx.caller_pid
                    (reply_words
                      (if is_ok st then em.atom_result else em.atom_error)
                      (em.driver_mk_port d.port)
                      buf
                      (length x))
                    m
                  ∷ [])
          × (m buf ≡ some (chars_block (terminated x ++ y)))
          × All (λ q. w'.cells q ≡ none) (owned ++ asd ∷ [])
    session_lem fuel enough =
        let g : w₁.grants w₁.next ≡ true = ap (λ (h : ℕ → Bool). h w₁.next) o.grants ∙ grants _ in
        let h = Finished-Answered apply_transform-Finished has_memory in
        let (e₂, b₂, leak) = ready_async_lem em provider h g u.returns fuel enough in
        (
          without (owned ++ asd ∷ []) (sent em provider h g u.returns fuel enough),
          (sent em provider h g u.returns fuel enough).cells,
          apply_transform-Finished.more,
          rw apply_transform-done e₂,
          append_events _ o.events,
          b₂,
          drop_cells-frees (owned ++ asd ∷ []) (sent em provider h g u.returns fuel enough).cells,
        )
