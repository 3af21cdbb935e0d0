-- ===== src/Driver/Submitted.antt =====
-- A command that was submitted, and what its transform leaves behind.
use erlxsl.Prelude.{
  ℕ, suc, ◌∙◌, ◌≤◌, ◌<◌, ◌≡◌, ◌≢◌, refl, sym, ap, subst, List, [], ◌∷◌, ◌++◌, Option, some, none,
  length,
}
use erlxsl.Types.{Ptr, EngineState, Command, DriverContext, DriverHandle, XslEngine, XslTask}
use erlxsl.Memory.{World, Event, ok, context_block, handle_block, async_block, engine_block}
use erlxsl.Memory.WellFormed.{WellFormed, allocated-ne}
use erlxsl.Internal.Owned.{IovAt, an_iov, DocumentAt, a_document, nonnull_ne}
use erlxsl.ResultBuffer.Write.{ResultAt}
use erlxsl.TestEngine.Documents.{TextDocument}
use erlxsl.Driver.{Provider}

-- A text document owns its buffer and its vector.
pub TextDocument-DocumentAt :
    {w : World} {doc iov buffer : Ptr} {s : List ℕ} {rest : List (Option ℕ)}
    → WellFormed w
    → TextDocument w doc iov buffer s rest
    → DocumentAt w.cells doc (buffer ∷ iov ∷ doc ∷ [])
TextDocument-DocumentAt {w} {doc} {iov} {buffer} wf h =
    a_document h.d (buffer ∷ iov ∷ []) (allocated-ne w wf doc _ h.doc_at) h.doc_at
      (subst (λ i. IovAt w.cells i (buffer ∷ iov ∷ [])) (sym h.iov_is)
        (an_iov h.v (allocated-ne w wf iov _ h.iov_at) h.iov_at (
          rw (h.owned, h.buffer_is, nonnull_ne buffer (allocated-ne w wf buffer _ h.text_at))
            refl)))
      refl

pub task_fields :
    (k : XslTask) {a b c : Option Ptr}
    → k.input_doc ≡ a
    → k.xslt_doc ≡ b
    → k.parameters ≡ c
    → k ≡ record { input_doc = a; xslt_doc = b; parameters = c }
task_fields k {a} {b} e f g =
    ap (λ x. record k { input_doc = x }) e
    ∙ ap (λ x. record { input_doc = a; xslt_doc = x; parameters = k.parameters }) f
    ∙ ap (λ x. record { input_doc = a; xslt_doc = b; parameters = x }) g

pub append_events : {xs ys : List Event} (zs : List Event) → xs ≡ ys → xs ++ zs ≡ ys ++ zs
append_events zs e = ap (λ l. l ++ zs) e

-- A submitted command, as `outputv` leaves it, of a driver whose provider has a transform and a
-- function to call after it.
pub record Submitted (provider : Provider) (w : World) (drv_data asd : Ptr) (d : DriverHandle)
    (c : Command) (ctx : DriverContext) (cmd : Ptr) (transform : ℕ) : Type 0 where
  pub engine : Ptr
  pub table : XslEngine
  pub after : ℕ
  pub drv_at : w.cells drv_data ≡ some (handle_block d)
  pub engine_is : d.engine ≡ some engine
  pub engine_at : w.cells engine ≡ some (engine_block table)
  pub transform_is : table.transform ≡ some (suc transform)
  pub after_is : table.after_transform ≡ some (suc after)
  pub asd_at :
      w.cells asd
      ≡ some (async_block (record { state = none; driver = some drv_data; command = some cmd }))
  pub context_at : w.cells c.context ≡ some (context_block ctx)
  pub returns : (v : World) → (st : EngineState) × (provider.run (suc after) cmd v ≡ ok (st, v))

-- What a transform leaves behind that answers with the text `x`: the result has it, in a new buffer,
-- and of what was there before only the result's vector has changed.
pub record Transformed (w w₁ : World) (cmd res buf : Ptr) (capacity : ℕ) (x : List ℕ) : Type 0 where
  pub wf : WellFormed w₁
  pub kept : (q : Ptr) → q < w.next → q ≢ res → w₁.cells q ≡ w.cells q
  pub events : w₁.events ≡ w.events
  pub grants : w₁.grants ≡ w.grants
  pub fresh : w.next ≤ buf
  pub result : ResultAt w₁ cmd res buf capacity x
  pub has_text : length x ≢ 0
