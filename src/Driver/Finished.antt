-- ===== src/Driver/Finished.antt =====
-- A command whose transform has returned, and what `ready_async` makes of it.
use erlxsl.Prelude.{
  ℕ, suc, ◌∙◌, ◌≡◌, ◌≢◌, refl, sym, ap, subst, true, List, [], ◌∷◌, ◌++◌, Option, some, All,
  Distinct,
}
use erlxsl.Types.{
  Ptr, EngineState, out_of_memory_error, DriverContext, DriverHandle, Command, DriverIoVec, XslTask,
  XslEngine, text,
}
use erlxsl.Memory.{
  World, Block, command_block, iov_block, context_block, handle_block, async_block, engine_block,
  task_block,
}
use erlxsl.Memory.Blocks.{IsLive}
use erlxsl.Memory.WellFormed.{WellFormed, allocated-ne}
use erlxsl.CString.Laws.{StringAt, IsText}
use erlxsl.Internal.{is_transform, transform_command}
use erlxsl.Internal.Owned.{
  IovAt, an_iov, TaskAt, a_task, no_parameter, CommandAt, a_transform, nonnull_ne,
}
use erlxsl.TestEngine.Documents.{TextDocument}
use erlxsl.Driver.Submitted.{TextDocument-DocumentAt, task_fields}
use erlxsl.Driver.Reply.{Answered}

-- The handle of an asynchronous call that has returned the state `st`. It leads to the driver's handle
-- and to a transform command with two text documents, whose result is the text `x` at `buf`.
pub record Finished (w : World) (drv_data asd : Ptr) (d : DriverHandle) (ctx : DriverContext)
    (st : EngineState) (cmd res task doc doc' iov iov' buffer buffer' buf : Ptr) (s t : List ℕ)
    (rest rest' : List (Option ℕ)) (x : List ℕ) (after : ℕ) : Type 0 where
  pub wf : WellFormed w
  pub engine : Ptr
  pub table : XslEngine
  pub c : Command
  pub v : DriverIoVec
  pub tk : XslTask
  pub more : List (Option ℕ)
  pub drv_at : w.cells drv_data ≡ some (handle_block d)
  pub engine_is : d.engine ≡ some engine
  pub engine_at : w.cells engine ≡ some (engine_block table)
  pub after_is : table.after_transform ≡ some (suc after)
  pub asd_at :
      w.cells asd
      ≡ some (async_block (record { state = some st; driver = some drv_data; command = some cmd }))
  pub cmd_at : w.cells cmd ≡ some (command_block c)
  pub is_transform : c.command_string ≡ some transform_command
  pub task_is : c.command_data ≡ task
  pub result_is : c.result ≡ res
  pub context_at : w.cells c.context ≡ some (context_block ctx)
  pub iov_at : w.cells res ≡ some (iov_block v)
  pub is_dirty : v.dirty ≡ true
  pub is_text : v.type ≡ text
  pub buffer_is : v.payload ≡ buf
  pub text_at : StringAt w buf x more
  pub characters : IsText x
  pub task_at : w.cells task ≡ some (task_block tk)
  pub input_is : tk.input_doc ≡ some doc
  pub xslt_is : tk.xslt_doc ≡ some doc'
  pub no_parameters : tk.parameters ≡ some 0
  pub input : TextDocument w doc iov buffer s rest
  pub xslt : TextDocument w doc' iov' buffer' t rest'
  pub distinct : Distinct (buffer ∷ iov ∷ doc ∷ buffer' ∷ iov' ∷ doc' ∷ buf ∷ res ∷ cmd ∷ asd ∷ [])

module _ {w : World} {drv_data asd : Ptr} {d : DriverHandle} {ctx : DriverContext}
    {st : EngineState} {cmd res task doc doc' iov iov' buffer buffer' buf : Ptr} {s t : List ℕ}
    {rest rest' : List (Option ℕ)} {x : List ℕ} {after : ℕ}
    (r : Finished w drv_data asd d ctx st cmd res task doc doc' iov iov' buffer buffer' buf s t rest
      rest' x after) where
  abbrev pub owned : List Ptr
  owned = buffer ∷ iov ∷ doc ∷ buffer' ∷ iov' ∷ doc' ∷ buf ∷ res ∷ cmd ∷ []

  task_owns : TaskAt w.cells task ((buffer ∷ iov ∷ doc ∷ []) ++ (buffer' ∷ iov' ∷ doc' ∷ []))
  task_owns =
      a_task 0 doc doc' [] (buffer ∷ iov ∷ doc ∷ []) (buffer' ∷ iov' ∷ doc' ∷ [])
        (allocated-ne w r.wf task _ r.task_at)
        (r.task_at
          ∙ ap (λ k. some (task_block k)) (task_fields r.tk r.input_is r.xslt_is r.no_parameters))
        (no_parameter 0 [] refl refl) (TextDocument-DocumentAt r.wf r.input)
        (TextDocument-DocumentAt r.wf r.xslt) refl

  -- The task's own block is none of the command's.
  task_apart : All (λ q. q ≢ task) owned
  task_apart = (
    (λ e. cc (ap w.cells e, r.input.text_at, r.task_at)),
    (
      (λ e. cc (ap w.cells e, r.input.iov_at, r.task_at)),
      (
        (λ e. cc (ap w.cells e, r.input.doc_at, r.task_at)),
        (
          (λ e. cc (ap w.cells e, r.xslt.text_at, r.task_at)),
          (
            (λ e. cc (ap w.cells e, r.xslt.iov_at, r.task_at)),
            (
              (λ e. cc (ap w.cells e, r.xslt.doc_at, r.task_at)),
              (
                (λ e. cc (ap w.cells e, r.text_at, r.task_at)),
                (
                  (λ e. cc (ap w.cells e, r.iov_at, r.task_at)),
                  ((λ e. cc (ap w.cells e, r.cmd_at, r.task_at)), tt),
                ),
              ),
            ),
          ),
        ),
      ),
    ),
  )

  result_owns : IovAt w.cells res (buf ∷ res ∷ [])
  result_owns =
      an_iov r.v (allocated-ne w r.wf res _ r.iov_at) r.iov_at
        (rw (r.is_dirty, r.buffer_is, nonnull_ne buf (allocated-ne w r.wf buf _ r.text_at)) refl)

  pub command_owns : CommandAt w.cells cmd owned
  command_owns =
      a_transform r.c ((buffer ∷ iov ∷ doc ∷ []) ++ (buffer' ∷ iov' ∷ doc' ∷ [])) (buf ∷ res ∷ [])
        (allocated-ne w r.wf cmd _ r.cmd_at) r.cmd_at (ap is_transform r.is_transform)
        (subst (λ p. TaskAt w.cells p ((buffer ∷ iov ∷ doc ∷ []) ++ (buffer' ∷ iov' ∷ doc' ∷ [])))
          (sym r.task_is) task_owns)
        (subst (λ p. All (λ q. q ≢ p) owned) (sym r.task_is) task_apart)
        (subst (λ p. IovAt w.cells p (buf ∷ res ∷ [])) (sym r.result_is) result_owns) refl

  live : (p : Ptr) (b : Block) → w.cells p ≡ some b → IsLive w.cells p
  live p b at = (b, allocated-ne w r.wf p b at, at)

  pub owned-IsLive : All (IsLive w.cells) (owned ++ asd ∷ [])
  owned-IsLive = (
    live buffer _ r.input.text_at,
    (
      live iov _ r.input.iov_at,
      (
        live doc _ r.input.doc_at,
        (
          live buffer' _ r.xslt.text_at,
          (
            live iov' _ r.xslt.iov_at,
            (
              live doc' _ r.xslt.doc_at,
              (
                live buf _ r.text_at,
                (live res _ r.iov_at, (live cmd _ r.cmd_at, (live asd _ r.asd_at, tt))),
              ),
            ),
          ),
        ),
      ),
    ),
  )

  abbrev pub Finished-Answered : st ≢ out_of_memory_error → Answered w drv_data asd cmd buf owned x
  Finished-Answered has_memory = record {
    d = d;
    engine = r.engine;
    table = r.table;
    after = after;
    a = record { state = some st; driver = some drv_data; command = some cmd };
    state = st;
    c = r.c;
    ctx = ctx;
    v = r.v;
    rest = r.more;
    wf = r.wf;
    drv_at = r.drv_at;
    engine_is = r.engine_is;
    engine_at = r.engine_at;
    after_is = r.after_is;
    asd_at = r.asd_at;
    state_is = refl;
    has_memory = has_memory;
    command_is = refl;
    cmd_at = r.cmd_at;
    context_at = r.context_at;
    result_at = rw r.result_is r.iov_at;
    is_text = r.is_text;
    buffer_is = r.buffer_is;
    text_at = r.text_at;
    characters = r.characters;
    command_owns = command_owns;
    live = owned-IsLive;
    distinct = r.distinct;
  }
