-- ===== src/Driver/Roundtrip.antt =====
-- A request's whole way: `outputv`, then the asynchronous call, then `ready_async`.
use erlxsl.Prelude.{
  ℕ, ◌+◌, ◌∙◌, ◌^◌, ◌<◌, ◌≤◌, ◌≡◌, sym, ap, true, List, [], ◌∷◌, ◌++◌, Option, some, none, arith,
  All, length, if◌then◌else◌,
}
use erlxsl.Types.{Ptr, EngineState, Command, DriverContext, DriverHandle, InputSpec}
use erlxsl.Memory.{
  World, Cells, ok, ◌>>◌, command_block, context_block, handle_block, chars_block, async_block,
  driver_async, driver_send_term,
}
use erlxsl.Memory.WellFormed.{WellFormed, allocated-lt}
use erlxsl.CString.Laws.{terminated}
use erlxsl.Request.{ErlIoVec}
use erlxsl.Driver.Contract.{Serves, TestProvider, test_engine-Serves}
use erlxsl.Driver.{Emulator, Provider, outputv, apply_transform, ready_async, is_ok}
use erlxsl.Driver.Submit.{InOrder, outputv_lem}
use erlxsl.Driver.Submitted.{Submitted, append_events}
use erlxsl.Driver.Session.{session_lem}
use erlxsl.Driver.Reply.{reply_words}

-- A block holds one command.
pub command_block_injective :
    (a b : Command) → some (command_block a) ≡ some (command_block b) → a ≡ b
command_block_injective a b e = cc e

module _ (em : Emulator) (provider : Provider) (drv_data : Ptr) (d : DriverHandle) (ev : ErlIoVec)
    (spec : InputSpec) (xml xsl : List ℕ) (w : World) (wf : WellFormed w)
    (drv_at : w.cells drv_data ≡ some (handle_block d)) (r : InOrder em ev spec xml xsl)
    {state : List ℕ → List ℕ → EngineState} {answer : List ℕ → List ℕ → List ℕ}
    (p : Serves provider w d state answer) (grants : (n : ℕ) → w.grants n ≡ true)
    (small : length xml + length xsl + 1 < 2 ^ 31) where
  abbrev n : ℕ
  n = w.next

  abbrev context : DriverContext
  context = record { port = d.port; caller_pid = em.driver_caller d.port }

  -- The world that `outputv` leaves is one that `session_lem` is about.
  outputv-Submitted :
      (w₁ : World) (c : Command)
      → w₁.cells (n + 6)
        ≡ some
            (async_block (record { state = none; driver = some drv_data; command = some (n + 7) }))
      → w₁.cells (n + 5) ≡ some (context_block context)
      → ((c' : Command) × (w₁.cells (n + 7) ≡ some (command_block c')) × (c'.context ≡ n + 5))
      → ((q : Ptr) → q < n → w₁.cells q ≡ w.cells q)
      → w₁.cells (n + 7) ≡ some (command_block c)
      → Submitted provider w₁ drv_data (n + 6) d c context (n + 7) p.transform
  outputv-Submitted w₁ c asd ctx (c', at', its) same at = record {
    engine = p.engine;
    table = p.table;
    after = p.after;
    drv_at = same drv_data (allocated-lt w wf drv_data _ drv_at) ∙ drv_at;
    engine_is = p.engine_is;
    engine_at = same p.engine (allocated-lt w wf p.engine _ p.engine_at) ∙ p.engine_at;
    transform_is = p.transform_is;
    after_is = p.after_is;
    asd_at = asd;
    context_at =
        ap w₁.cells
          (ap (λ (x : Command). x.context) (command_block_injective c c' (sym at ∙ at')) ∙ its)
        ∙ ctx;
    returns = λ v. p.keeps.returns (n + 7) v;
  }

  -- A request in order is answered, by whatever provider keeps what `Transforms` promises: the driver
  -- asks for one asynchronous call, the call ends, and one term goes to the calling process, with the
  -- atom of the transform's state, the port and a buffer that holds the provider's answer to the two
  -- texts at that moment; no step meets a fault. Afterwards the request's two buffers, the documents
  -- and their vectors, the result, the command and its handle are free. There is memory for
  -- everything, and the two texts are short enough for an `Int32`.
  pub request_lem :
      (fuel : ℕ)
      → 9 ≤ fuel
      → (w' : World) × (m : Cells) × (buf : Ptr) × (y : List (Option ℕ)) × ((outputv em drv_data ev
              >> (apply_transform provider (n + 6)
                  >> ready_async em provider fuel drv_data (n + 6)))
            w
          ≡ ok (tt, w'))
        × (w'.events
            ≡ (w.events ++ driver_async (n + 6) ∷ [])
              ++ driver_send_term context.caller_pid
                  (reply_words
                    (if is_ok (state xml xsl) then em.atom_result else em.atom_error)
                    (em.driver_mk_port d.port)
                    buf
                    (length (answer xml xsl)))
                  m
                ∷ [])
        × (m buf ≡ some (chars_block (terminated (answer xml xsl) ++ y)))
        × All
            (λ q. w'.cells q ≡ none)
            ((n + 2)
              ∷ (n + 10)
              ∷ (n + 9)
              ∷ (n + 3)
              ∷ (n + 12)
              ∷ (n + 11)
              ∷ buf
              ∷ (n + 8)
              ∷ (n + 7)
              ∷ (n + 6)
              ∷ [])
  request_lem fuel enough =
      let (w₁, e, events, asd, ctx, its, same, g, ready) =
        outputv_lem em drv_data d ev spec xml xsl w wf drv_at r.readable grants r.has_xml r.has_xsl
          (omega arith) (omega arith) in
      let granted_after : (k : ℕ) → w₁.grants k ≡ true = λ k. ap (λ h. h k) g ∙ grants k in
      let (w₂, buf, capacity, e₂, o) = p.keeps.transforms ready granted_after r.has_xml small in
      let (w', m, y, e', events', text, free) =
        session_lem provider ready (outputv-Submitted w₁ ready.c asd ctx its same ready.cmd_at) e₂ o
          em (p.keeps.has_memory xml xsl) granted_after fuel enough in
      (w', m, buf, y, rw e e', events' ∙ append_events _ events, text, free)

module _ (em : Emulator) (provider : Provider) (drv_data : Ptr) (d : DriverHandle) (ev : ErlIoVec)
    (spec : InputSpec) (xml xsl : List ℕ) (w : World) (wf : WellFormed w)
    (drv_at : w.cells drv_data ≡ some (handle_block d)) (r : InOrder em ev spec xml xsl)
    (p : TestProvider provider w d) (grants : (n : ℕ) → w.grants n ≡ true)
    (small : length xml + length xsl + 1 < 2 ^ 31) where
  abbrev first : ℕ
  first = w.next

  -- A request in order is answered with the text of its input followed by that of its stylesheet: the
  -- driver asks for one asynchronous call, the call ends, and one term goes to the calling process,
  -- with the result's atom, the port and a buffer that holds the text at that moment; no step meets a
  -- fault. Afterwards the request's two buffers, the documents and their vectors, the result, the
  -- command and its handle are free. There is memory for everything, the two texts are short enough
  -- for an `Int32`, and the provider is the test engine.
  pub roundtrip_lem :
      (fuel : ℕ)
      → 9 ≤ fuel
      → (w' : World) × (m : Cells) × (buf : Ptr) × (y : List (Option ℕ)) × ((outputv em drv_data ev
              >> (apply_transform provider (first + 6)
                  >> ready_async em provider fuel drv_data (first + 6)))
            w
          ≡ ok (tt, w'))
        × (w'.events
            ≡ (w.events ++ driver_async (first + 6) ∷ [])
              ++ driver_send_term
                  (em.driver_caller d.port)
                  (reply_words em.atom_result (em.driver_mk_port d.port) buf (length (xml ++ xsl)))
                  m
                ∷ [])
        × (m buf ≡ some (chars_block (terminated (xml ++ xsl) ++ y)))
        × All
            (λ q. w'.cells q ≡ none)
            ((first + 2)
              ∷ (first + 10)
              ∷ (first + 9)
              ∷ (first + 3)
              ∷ (first + 12)
              ∷ (first + 11)
              ∷ buf
              ∷ (first + 8)
              ∷ (first + 7)
              ∷ (first + 6)
              ∷ [])
  roundtrip_lem fuel enough =
      request_lem em provider drv_data d ev spec xml xsl w wf drv_at r (test_engine-Serves p) grants
        small fuel enough
