-- ===== src/Driver/Contract.antt =====
-- What a provider's transform promises, and that the test engine keeps it.
use erlxsl.Prelude.{
  ℕ, suc, ◌∙◌, ◌+◌, ◌^◌, ◌<◌, ◌≡◌, ◌≢◌, sym, ap, subst, true, List, ◌++◌, Option, some, arith,
  length, length-append,
}
use erlxsl.Types.{Ptr, EngineState, engine_ok, out_of_memory_error, DriverHandle, XslEngine}
use erlxsl.Memory.{World, ok, update, engine_block}
use erlxsl.Memory.WellFormed.{WellFormed, allocated-lt, allocated-ne}
use erlxsl.ResultBuffer.Write.{ResultAt}
use erlxsl.TestEngine.{default_handle_transform, default_post_handle}
use erlxsl.TestEngine.Documents.{TransformReady}
use erlxsl.TestEngine.Transform.{default_handle_transform_lem}
use erlxsl.Driver.{Provider}
use erlxsl.Driver.Submitted.{Transformed}

-- A provider that transforms an input by a stylesheet to `answer input stylesheet`, in the state
-- `state input stylesheet`: on every command that `outputv` makes, with memory for everything and
-- texts that are short enough for an `Int32`, its transform returns, and keeps what was allocated but
-- for the result's vector. What it calls afterwards returns and leaves memory as it is.
pub record Transforms (provider : Provider) (transform after : ℕ)
    (state : List ℕ → List ℕ → EngineState) (answer : List ℕ → List ℕ → List ℕ) : Type 0 where
  pub has_memory : (s t : List ℕ) → state s t ≢ out_of_memory_error
  pub transforms :
      {w : World} {cmd res task doc doc' iov iov' buffer buffer' : Ptr} {s t : List ℕ}
      {rest rest' : List (Option ℕ)}
      → TransformReady w cmd res task doc doc' iov iov' buffer buffer' s t rest rest'
      → ((n : ℕ) → w.grants n ≡ true)
      → length s ≢ 0
      → length s + length t + 1 < 2 ^ 31
      → (w₁ : World) × (buf : Ptr) × (capacity : ℕ) × (provider.run (suc transform) cmd w
          ≡ ok (state s t, w₁))
        × Transformed w w₁ cmd res buf capacity (answer s t)
  pub returns :
      (cmd : Ptr) (v : World) → (st : EngineState) × (provider.run (suc after) cmd v ≡ ok (st, v))

-- The driver's handle leads to the table of an engine with such functions.
pub record Serves (provider : Provider) (w : World) (d : DriverHandle)
    (state : List ℕ → List ℕ → EngineState) (answer : List ℕ → List ℕ → List ℕ) : Type 0 where
  pub engine : Ptr
  pub table : XslEngine
  pub transform : ℕ
  pub after : ℕ
  pub engine_is : d.engine ≡ some engine
  pub engine_at : w.cells engine ≡ some (engine_block table)
  pub transform_is : table.transform ≡ some (suc transform)
  pub after_is : table.after_transform ≡ some (suc after)
  pub keeps : Transforms provider transform after state answer

-- It stays so while the table does.
abbrev pub Serves-same :
    {provider : Provider} {w : World} {d : DriverHandle} {state : List ℕ → List ℕ → EngineState}
    {answer : List ℕ → List ℕ → List ℕ} (w' : World) (p : Serves provider w d state answer)
    → w'.cells p.engine ≡ w.cells p.engine
    → Serves provider w' d state answer
Serves-same w' p same = record {
  engine = p.engine;
  table = p.table;
  transform = p.transform;
  after = p.after;
  engine_is = p.engine_is;
  engine_at = same ∙ p.engine_at;
  transform_is = p.transform_is;
  after_is = p.after_is;
  keeps = p.keeps;
}

-- The driver's provider is the test engine: its table names the engine's transform and the function
-- to call after it.
pub record TestProvider (provider : Provider) (w : World) (d : DriverHandle) : Type 0 where
  pub engine : Ptr
  pub table : XslEngine
  pub transform : ℕ
  pub after : ℕ
  pub engine_is : d.engine ≡ some engine
  pub engine_at : w.cells engine ≡ some (engine_block table)
  pub transform_is : table.transform ≡ some (suc transform)
  pub after_is : table.after_transform ≡ some (suc after)
  pub transforms :
      (p : Ptr) (v : World) → provider.run (suc transform) p v ≡ default_handle_transform p v
  pub handles_after : (p : Ptr) (v : World) → provider.run (suc after) p v ≡ default_post_handle p v

module _ {w : World} {cmd res task doc doc' iov iov' buffer buffer' : Ptr} {s t : List ℕ}
    {rest rest' : List (Option ℕ)}
    (r : TransformReady w cmd res task doc doc' iov iov' buffer buffer' s t rest rest')
    (nonempty : length s ≢ 0) where
  -- The test engine's transform leaves the two texts in a buffer of its own.
  pub default_handle_transform-Transformed :
      (w₁ : World)
      → ResultAt w₁ cmd res w.next (length s + length t + 1) (s ++ t)
      → w₁ ≡ record w {
        next = w.next + 1;
        cells = update (update w.cells res (w₁.cells res)) w.next (w₁.cells w.next);
      }
      → Transformed w w₁ cmd res w.next (length s + length t + 1) (s ++ t)
  default_handle_transform-Transformed w₁ r₁ f₁ = record {
    wf = subst WellFormed (sym f₁) (record {
      null_free =
          ground (arith, r.wf.null_free, r.wf.started, allocated-ne w r.wf res _ r.result_at);
      started = omega arith;
      fresh = λ p h. ground (arith, r.wf.fresh p, allocated-lt w r.wf res _ r.result_at);
    });
    kept = λ q l n. ap (λ (v : World). v.cells q) f₁ ∙ ground (arith, l, n);
    events = ap (λ (v : World). v.events) f₁;
    grants = ap (λ (v : World). v.grants) f₁;
    fresh = omega arith;
    result = r₁;
    has_text = omega (arith, length-append s t);
  }

-- The test engine is a provider that answers with the two texts.
abbrev pub test_engine-Serves :
    {provider : Provider} {w : World} {d : DriverHandle}
    → TestProvider provider w d
    → Serves provider w d (λ s t. engine_ok) (λ s t. s ++ t)
test_engine-Serves {provider} p = record {
  engine = p.engine;
  table = p.table;
  transform = p.transform;
  after = p.after;
  engine_is = p.engine_is;
  engine_at = p.engine_at;
  transform_is = p.transform_is;
  after_is = p.after_is;
  keeps = record {
    has_memory = λ s t. ground arith;
    transforms = λ {w} {cmd} r grants nonempty small.
        let (w₁, e₁, r₁, f₁) = default_handle_transform_lem r small (grants w.next) in
        (
          w₁,
          w.next,
          _,
          p.transforms cmd w ∙ e₁,
          default_handle_transform-Transformed r nonempty w₁ r₁ f₁,
        );
    returns = λ cmd v. (engine_ok, p.handles_after cmd v);
  };
}
