-- ===== src/Traffic/Submits.antt =====
-- A new request leaves the port's other calls as they are.
use erlxsl.Prelude.{
  ℕ, ◌+◌, ◌^◌, ◌∙◌, ◌<◌, ◌≤◌, ◌≡◌, ◌≢◌, ap, sym, inl, inr, ◌⊎◌, none, some, List, [], ◌∷◌, ◌++◌,
  Option-cases, length, arith,
}
use erlxsl.Types.{Ptr, InputSpec, Command}
use erlxsl.Memory.{World, ok, driver_async}
use erlxsl.Memory.WellFormed.{allocated-lt}
use erlxsl.Request.{ErlIoVec}
use erlxsl.Driver.{outputv}
use erlxsl.Driver.Submit.{InOrder, outputv_lem}
use erlxsl.Driver.Contract.{Serves-same}
use erlxsl.Driver.Roundtrip.{command_block_injective}
use erlxsl.Traffic.System.{Port, Call, System, waiting, put, put-cases, calling}
use erlxsl.Traffic.Held.{Held, Owns, Waiting}
use erlxsl.Traffic.Apart.{Orderly, Held-same, moved, Owns-waiting}

module _ {p : Port} {y : System} (o : Orderly p y) {caller : ℕ} {ev : ErlIoVec} {spec : InputSpec}
    {s t : List ℕ} (r : InOrder (calling p.em caller) ev spec s t)
    (small : length s + length t + 1 < 2 ^ 31) where
  abbrev n : ℕ
  n = y.world.next

  abbrev taken : World → System
  taken w = record { world = w; calls = put y.calls n (some (waiting caller s t)) }

  -- No call goes by an address that is not yet allocated.
  new : y.calls n ≡ none
  new = elim (Option-cases (y.calls n)) [
    | inl none_there ↦ none_there
    | inr (c, at) ↦ absurd (omega (arith, (o.allocated n c at).0))
  ]

  module _ (w : World) (same : (q : Ptr) → q < n → w.cells q ≡ y.world.cells q)
      (grants : w.grants ≡ y.world.grants) (mine : Waiting p w n caller s t) where
    drv : w.cells p.drv_data ≡ y.world.cells p.drv_data
    drv = same p.drv_data (allocated-lt y.world o.wf p.drv_data _ o.drv_at)

    engine : w.cells o.serves.engine ≡ y.world.cells o.serves.engine
    engine = same o.serves.engine (allocated-lt y.world o.wf o.serves.engine _ o.serves.engine_at)

    grown : n + 13 ≤ w.next
    grown = omega (arith, allocated-lt w mine.ready.wf (n + 12) _ mine.ready.xslt.iov_at)

    taken-Held : (m : Ptr) (c : Call) → (taken w).calls m ≡ some c → Held p w m c
    taken-Held m c at = elim (put-cases y.calls n _ m c at) [
      | inl (e, f) ↦ moved (Held p w) e f mine
      | inr (e, f) ↦
          Held-same o w mine.ready.wf m c f (λ q own. same q ((o.allocated m c f).1 q own)) drv
            engine
    ]

    taken-Owns :
        (m : Ptr) (c : Call) (q : Ptr)
        → (taken w).calls m ≡ some c
        → Owns m c q
        → ((n ≡ m) × (n + 2 ≤ q) × (q < n + 13)) ⊎ ((n ≢ m) × (y.calls m ≡ some c) × (q < n))
    taken-Owns m c q at own = elim (put-cases y.calls n _ m c at) [
      | inl (e, f) ↦ let (l, h) = Owns-waiting m c q f own in inl (e, omega arith, omega arith)
      | inr (e, f) ↦ inr (e, f, (o.allocated m c f).1 q own)
    ]

    taken-apart :
        (m k : Ptr) (c e : Call) (q : Ptr)
        → m ≢ k
        → (taken w).calls m ≡ some c
        → (taken w).calls k ≡ some e
        → Owns m c q
        → Owns k e q
        → ⊥
    taken-apart m k c e q ne at at' own own' = elim (taken-Owns m c q at own) [
      | inl (a, l, h) ↦ elim (taken-Owns k e q at' own') [
        | inl (b, l', h') ↦ ne (sym a ∙ b)
        | inr (b, f', h') ↦ omega arith
      ]
      | inr (a, f, h) ↦ elim (taken-Owns k e q at' own') [
        | inl (b, l', h') ↦ omega arith
        | inr (b, f', h') ↦ o.apart m k c e q ne f f' own own'
      ]
    ]

    taken-Orderly : Orderly p (taken w)
    taken-Orderly = record {
      wf = mine.ready.wf;
      grants = λ k. ap (λ (h : ℕ → _). h k) grants ∙ o.grants k;
      drv_at = drv ∙ o.drv_at;
      serves = Serves-same w o.serves engine;
      table_is = o.table_is;
      held = taken-Held;
      older = λ m c at. elim (put-cases y.calls n _ m c at) [
        | inl (e, f) ↦ (
          omega (arith, allocated-lt y.world o.wf p.drv_data _ o.drv_at),
          omega (arith, allocated-lt y.world o.wf o.serves.engine _ o.serves.engine_at),
        )
        | inr (e, f) ↦ o.older m c f
      ];
      allocated = λ m c at. elim (put-cases y.calls n _ m c at) [
        | inl (e, f) ↦
            (omega (arith, grown), λ q own. omega (arith, grown, Owns-waiting m c q f own))
        | inr (e, f) ↦ (
          omega (arith, grown, (o.allocated m c f).0),
          λ q own. omega (arith, grown, (o.allocated m c f).1 q own),
        )
      ];
      apart = taken-apart;
    }

  -- A request in order is taken, and leaves the port in order; one asynchronous call is asked for.
  pub outputv-Orderly :
      (w : World) × (outputv (calling p.em caller) p.drv_data ev y.world ≡ ok (tt, w))
      × Orderly p (taken w)
      × (w.events ≡ y.world.events ++ driver_async (n + 6) ∷ [])
      × (n + 13 ≤ w.next)
      × ((q : Ptr) → q < n → y.world.cells q ≡ none → w.cells q ≡ none)
  outputv-Orderly =
      let (w, e, events, asd, ctx, (c, at, its), same, grants, ready) =
        outputv_lem (calling p.em caller) p.drv_data p.handle ev spec s t y.world o.wf o.drv_at
          r.readable o.grants r.has_xml r.has_xsl (omega arith) (omega arith) in
      let mine : Waiting p w n caller s t = record {
        ready = ready;
        context_is =
            ap (λ (x : Command). x.context)
              (command_block_injective ready.c c (sym ready.cmd_at ∙ at))
            ∙ its;
        context_at = ctx;
        asd_at = asd;
        has_input = r.has_xml;
        small = small;
      } in
      (
        w,
        e,
        taken-Orderly w same grants mine,
        events,
        grown w same grants mine,
        λ q l free. same q l ∙ free,
      )
