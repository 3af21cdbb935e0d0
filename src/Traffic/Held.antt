-- ===== src/Traffic/Held.antt =====
-- The blocks of a call that `driver_async` has taken, and what keeps them as they are.
use erlxsl.Prelude.{
  ℕ, suc, ◌+◌, ◌^◌, ◌∙◌, ◌<◌, ◌≤◌, ◌≡◌, ◌≢◌, ◌⊎◌, List, [], Option, none, some, length, arith, ap,
  sym,
}
use erlxsl.Types.{Ptr, DriverContext}
use erlxsl.Memory.{World, ok, async_block, context_block}
use erlxsl.Memory.WellFormed.{WellFormed}
use erlxsl.TestEngine.Documents.{TransformReady, TextDocument-same}
use erlxsl.Driver.Finished.{Finished}
use erlxsl.Traffic.System.{Port, Call, waiting, returned}

abbrev pub context : Port → ℕ → DriverContext
context p caller = record { port = p.handle.port; caller_pid = caller }

-- A call that waits: what `outputv` leaves at the addresses after `n`.
pub record Waiting (p : Port) (w : World) (n caller : ℕ) (s t : List ℕ) : Type 0 where
  pub ready :
      TransformReady w
        (n + 7)
        (n + 8)
        (n + 4)
        (n + 9)
        (n + 11)
        (n + 10)
        (n + 12)
        (n + 2)
        (n + 3)
        s
        t
        []
        []
  pub context_is : ready.c.context ≡ n + 5
  pub context_at : w.cells (n + 5) ≡ some (context_block (context p caller))
  pub asd_at :
      w.cells (n + 6)
      ≡ some
          (async_block (record { state = none; driver = some p.drv_data; command = some (n + 7) }))
  pub has_input : length s ≢ 0
  pub small : length s + length t + 1 < 2 ^ 31

-- A call that has returned: what `apply_transform` leaves, with the result at `buf`.
pub record Returned (p : Port) (w : World) (n caller : ℕ) (s t : List ℕ) (buf : Ptr) : Type 0 where
  pub after : ℕ
  pub returns : (v : World) → (st : _) × (p.provider.run (suc after) (n + 7) v ≡ ok (st, v))
  pub done :
      Finished w p.drv_data
        (n + 6)
        p.handle
        (context p caller)
        (p.state s t)
        (n + 7)
        (n + 8)
        (n + 4)
        (n + 9)
        (n + 11)
        (n + 10)
        (n + 12)
        (n + 2)
        (n + 3)
        buf
        s
        t
        []
        []
        (p.answer s t)
        after
  pub context_is : done.c.context ≡ n + 5
  pub later : n + 13 ≤ buf

abbrev pub Held : Port → World → Ptr → Call → Type 0
Held p w n (waiting caller s t) = Waiting p w n caller s t
Held p w n (returned caller s t buf) = Returned p w n caller s t buf

abbrev pub result_of : Call → Option Ptr
result_of (waiting caller s t) = none
result_of (returned caller s t buf) = some buf

-- The addresses that a call may read: eleven that its request was given, and its result's.
abbrev pub Owns : Ptr → Call → Ptr → Type 0
Owns n c q = ((n + 2 ≤ q) × (q < n + 13)) ⊎ (result_of c ≡ some q)

module _ (w w' : World) (wf : WellFormed w') (n : Ptr)
    (same : (q : Ptr) → n + 2 ≤ q → q < n + 13 → w'.cells q ≡ w.cells q) where
  at : (k : ℕ) → 2 ≤ k → k < 13 → w'.cells (n + k) ≡ w.cells (n + k)
  at k l m = same (n + k) (omega arith) (omega arith)

  abbrev TransformReady-same :
      {s t : List ℕ}
      → TransformReady w
          (n + 7)
          (n + 8)
          (n + 4)
          (n + 9)
          (n + 11)
          (n + 10)
          (n + 12)
          (n + 2)
          (n + 3)
          s
          t
          []
          []
      → TransformReady w'
          (n + 7)
          (n + 8)
          (n + 4)
          (n + 9)
          (n + 11)
          (n + 10)
          (n + 12)
          (n + 2)
          (n + 3)
          s
          t
          []
          []
  TransformReady-same r = record {
    wf = wf;
    c = r.c;
    v = r.v;
    tk = r.tk;
    cmd_at = at 7 (omega arith) (omega arith) ∙ r.cmd_at;
    is_transform = r.is_transform;
    task_is = r.task_is;
    result_is = r.result_is;
    result_at = at 8 (omega arith) (omega arith) ∙ r.result_at;
    clean = r.clean;
    task_at = at 4 (omega arith) (omega arith) ∙ r.task_at;
    input_is = r.input_is;
    xslt_is = r.xslt_is;
    no_parameters = r.no_parameters;
    input =
        TextDocument-same w' r.input (at 9 (omega arith) (omega arith))
          (at 10 (omega arith) (omega arith)) (at 2 (omega arith) (omega arith));
    xslt =
        TextDocument-same w' r.xslt (at 11 (omega arith) (omega arith))
          (at 12 (omega arith) (omega arith)) (at 3 (omega arith) (omega arith));
    input_iov_apart = r.input_iov_apart;
    xslt_iov_apart = r.xslt_iov_apart;
    apart = r.apart;
  }

  -- A waiting call stays as it is while its eleven blocks do.
  pub Waiting-same :
      {p : Port} {caller : ℕ} {s t : List ℕ} → Waiting p w n caller s t → Waiting p w' n caller s t
  Waiting-same h = record {
    ready = TransformReady-same h.ready;
    context_is = h.context_is;
    context_at = at 5 (omega arith) (omega arith) ∙ h.context_at;
    asd_at = at 6 (omega arith) (omega arith) ∙ h.asd_at;
    has_input = h.has_input;
    small = h.small;
  }

  -- So does one that has returned, while its result and the engine's table also do.
  pub Returned-same :
      {p : Port} {caller : ℕ} {s t : List ℕ} {buf : Ptr} (h : Returned p w n caller s t buf)
      → w'.cells buf ≡ w.cells buf
      → w'.cells p.drv_data ≡ w.cells p.drv_data
      → w'.cells h.done.engine ≡ w.cells h.done.engine
      → Returned p w' n caller s t buf
  Returned-same h at_buf at_drv at_engine = record {
    after = h.after;
    returns = h.returns;
    done = record {
      wf = wf;
      engine = h.done.engine;
      table = h.done.table;
      c = h.done.c;
      v = h.done.v;
      tk = h.done.tk;
      more = h.done.more;
      drv_at = at_drv ∙ h.done.drv_at;
      engine_is = h.done.engine_is;
      engine_at = at_engine ∙ h.done.engine_at;
      after_is = h.done.after_is;
      asd_at = at 6 (omega arith) (omega arith) ∙ h.done.asd_at;
      cmd_at = at 7 (omega arith) (omega arith) ∙ h.done.cmd_at;
      is_transform = h.done.is_transform;
      task_is = h.done.task_is;
      result_is = h.done.result_is;
      context_at =
          ap w'.cells h.context_is
          ∙ at 5 (omega arith) (omega arith)
          ∙ ap w.cells (sym h.context_is)
          ∙ h.done.context_at;
      iov_at = at 8 (omega arith) (omega arith) ∙ h.done.iov_at;
      is_dirty = h.done.is_dirty;
      is_text = h.done.is_text;
      buffer_is = h.done.buffer_is;
      text_at = at_buf ∙ h.done.text_at;
      characters = h.done.characters;
      task_at = at 4 (omega arith) (omega arith) ∙ h.done.task_at;
      input_is = h.done.input_is;
      xslt_is = h.done.xslt_is;
      no_parameters = h.done.no_parameters;
      input =
          TextDocument-same w' h.done.input (at 9 (omega arith) (omega arith))
            (at 10 (omega arith) (omega arith)) (at 2 (omega arith) (omega arith));
      xslt =
          TextDocument-same w' h.done.xslt (at 11 (omega arith) (omega arith))
            (at 12 (omega arith) (omega arith)) (at 3 (omega arith) (omega arith));
      distinct = h.done.distinct;
    };
    context_is = h.context_is;
    later = h.later;
  }
