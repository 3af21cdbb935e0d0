-- ===== src/Traffic/Transforms.antt =====
-- A call's thread leaves the port's other calls as they are.
use erlxsl.Prelude.{
  none, ℕ, ◌+◌, ◌∙◌, ◌<◌, ◌≤◌, ◌≡◌, ◌≢◌, ap, sym, subst, inl, inr, ◌⊎◌, some, List, arith,
}
use erlxsl.Types.{Ptr, Command, DriverIoVec}
use erlxsl.Memory.{World, ok, iov_block}
use erlxsl.Memory.WellFormed.{allocated-lt}
use erlxsl.Driver.{apply_transform}
use erlxsl.Driver.Contract.{Serves-same}
use erlxsl.Driver.Roundtrip.{command_block_injective}
use erlxsl.Driver.Session.{
  apply_transform-done, apply_transform-frame, apply_transform-Finished, w₂,
}
use erlxsl.Driver.Submitted.{Submitted}
use erlxsl.Traffic.System.{Port, Call, System, waiting, returned, put, put-cases}
use erlxsl.Traffic.Held.{Held, Owns, Waiting, Returned, context}
use erlxsl.Traffic.Apart.{Orderly, Held-same, moved, Owns-returned}

module _ {p : Port} {y : System} (o : Orderly p y) {n caller : ℕ} {s t : List ℕ}
    (at : y.calls n ≡ some (waiting caller s t)) where
  abbrev mine : Waiting p y.world n caller s t
  mine = o.held n _ at

  owned : (k : ℕ) → 2 ≤ k → k < 13 → Owns n (waiting caller s t) (n + k)
  owned k l h = inl (omega arith, omega arith)

  abbrev ran : Ptr → World → System
  ran buf w = record { world = w; calls = put y.calls n (some (returned caller s t buf)) }

  abbrev waiting-Submitted :
      Submitted p.provider y.world p.drv_data
        (n + 6)
        p.handle
        mine.ready.c
        (context p caller)
        (n + 7)
        o.serves.transform
  waiting-Submitted = record {
    engine = o.serves.engine;
    table = o.serves.table;
    after = o.serves.after;
    drv_at = o.drv_at;
    engine_is = o.serves.engine_is;
    engine_at = o.serves.engine_at;
    transform_is = o.serves.transform_is;
    after_is = o.serves.after_is;
    asd_at = mine.asd_at;
    context_at = ap y.world.cells mine.context_is ∙ mine.context_at;
    returns = λ v. o.serves.keeps.returns (n + 7) v;
  }

  module _ (w : World) {buf : Ptr} (done : Returned p w n caller s t buf)
      (same : (q : Ptr) → q < y.world.next → q ≢ n + 8 → q ≢ n + 6 → w.cells q ≡ y.world.cells q)
      (grants : w.grants ≡ y.world.grants) (fresh : y.world.next ≤ buf) where
    unowned : (q : Ptr) → q < n → w.cells q ≡ y.world.cells q
    unowned q l = same q (omega (arith, (o.allocated n _ at).0)) (omega arith) (omega arith)

    drv : w.cells p.drv_data ≡ y.world.cells p.drv_data
    drv = unowned p.drv_data (o.older n _ at).0

    engine : w.cells o.serves.engine ≡ y.world.cells o.serves.engine
    engine = unowned o.serves.engine (o.older n _ at).1

    grown : buf < w.next
    grown = allocated-lt w done.done.wf buf _ done.done.text_at

    ran-Held : (m : Ptr) (c : Call) → (ran buf w).calls m ≡ some c → Held p w m c
    ran-Held m c is = elim (put-cases y.calls n _ m c is) [
      | inl (e, f) ↦ moved (Held p w) e f done
      | inr (e, f) ↦
          Held-same o w done.done.wf m c f
            (λ q own.
              same q ((o.allocated m c f).1 q own)
                (λ is.
                  o.apart m n c _ q (λ k. e (sym k)) f at own
                    (subst (Owns n (waiting caller s t)) (sym is)
                      (owned 8 (omega arith) (omega arith))))
                (λ is.
                  o.apart m n c _ q (λ k. e (sym k)) f at own
                    (subst (Owns n (waiting caller s t)) (sym is)
                      (owned 6 (omega arith) (omega arith)))))
            drv engine
    ]

    ran-Owns :
        (m : Ptr) (c : Call) (q : Ptr)
        → (ran buf w).calls m ≡ some c
        → Owns m c q
        → ((n ≡ m) × (Owns n (waiting caller s t) q ⊎ (q ≡ buf)))
          ⊎ ((n ≢ m) × (y.calls m ≡ some c) × (q < y.world.next))
    ran-Owns m c q is own = elim (put-cases y.calls n _ m c is) [
      | inl (e, f) ↦ elim (Owns-returned m c q f own) [
        | inl (l, h) ↦ inl (e, inl (inl (omega arith, omega arith)))
        | inr b ↦ inl (e, inr b)
      ]
      | inr (e, f) ↦ inr (e, f, (o.allocated m c f).1 q own)
    ]

    ran-apart :
        (m k : Ptr) (c e : Call) (q : Ptr)
        → m ≢ k
        → (ran buf w).calls m ≡ some c
        → (ran buf w).calls k ≡ some e
        → Owns m c q
        → Owns k e q
        → ⊥
    ran-apart m k c e q ne is is' own own' = elim (ran-Owns m c q is own) [
      | inl (a, inl g) ↦ elim (ran-Owns k e q is' own') [
        | inl (b, h) ↦ ne (sym a ∙ b)
        | inr (b, f, h) ↦ o.apart n k _ e q b at f g own'
      ]
      | inl (a, inr g) ↦ elim (ran-Owns k e q is' own') [
        | inl (b, h) ↦ ne (sym a ∙ b)
        | inr (b, f, h) ↦ omega arith
      ]
      | inr (a, f, h) ↦ elim (ran-Owns k e q is' own') [
        | inl (b, inl g) ↦ o.apart n m _ c q a at f g own
        | inl (b, inr g) ↦ omega arith
        | inr (b, f', h') ↦ o.apart m k c e q ne f f' own own'
      ]
    ]

    ran-Orderly : Orderly p (ran buf w)
    ran-Orderly = record {
      wf = done.done.wf;
      grants = λ k. ap (λ (h : ℕ → _). h k) grants ∙ o.grants k;
      drv_at = drv ∙ o.drv_at;
      serves = Serves-same w o.serves engine;
      table_is = o.table_is;
      held = ran-Held;
      older = λ m c is. elim (put-cases y.calls n _ m c is) [
        | inl (e, f) ↦ subst (λ k. (p.drv_data < k) × (o.serves.engine < k)) e (o.older n _ at)
        | inr (e, f) ↦ o.older m c f
      ];
      allocated = λ m c is. elim (put-cases y.calls n _ m c is) [
        | inl (e, f) ↦ (
          omega (arith, grown, (o.allocated n _ at).0),
          λ q own. omega (arith, grown, (o.allocated n _ at).0, Owns-returned m c q f own),
        )
        | inr (e, f) ↦ (
          omega (arith, grown, (o.allocated m c f).0),
          λ q own. omega (arith, grown, (o.allocated m c f).1 q own),
        )
      ];
      apart = ran-apart;
    }

  -- The call's thread returns, and leaves the port in order, with the provider's answer as the
  -- call's result; the emulator is asked for nothing.
  pub apply_transform-Orderly :
      (w : World) × (v : DriverIoVec) × (apply_transform p.provider (n + 6) y.world ≡ ok (tt, w))
      × (w.cells (n + 8) ≡ some (iov_block v))
      × Orderly p (ran v.payload w)
      × (w.events ≡ y.world.events)
      × (y.world.next ≤ w.next)
      × ((q : Ptr) → q < y.world.next → y.world.cells q ≡ none → w.cells q ≡ none)
  apply_transform-Orderly =
      let (w₁, buf, capacity, e₁, tr) =
        o.serves.keeps.transforms mine.ready o.grants mine.has_input mine.small in
      let u = waiting-Submitted in
      let w = w₂ p.provider mine.ready u e₁ tr in
      let same = apply_transform-frame p.provider mine.ready u e₁ tr in
      let fin = apply_transform-Finished p.provider mine.ready u e₁ tr in
      let below : n + 7 < y.world.next = omega (arith, (o.allocated n _ at).0) in
      let done : Returned p w n caller s t buf = record {
        after = o.serves.after;
        returns = λ v. o.serves.keeps.returns (n + 7) v;
        done = fin;
        context_is =
            ap (λ (x : Command). x.context)
              (command_block_injective fin.c mine.ready.c (
                sym fin.cmd_at
                ∙ same (n + 7) below (omega arith) (omega arith)
                ∙ mine.ready.cmd_at))
            ∙ mine.context_is;
        later = omega (arith, tr.fresh, (o.allocated n _ at).0);
      } in
      (
        w,
        fin.v,
        apply_transform-done p.provider mine.ready u e₁ tr,
        fin.iov_at,
        subst (λ b. Orderly p (ran b w)) (sym fin.buffer_is)
            (ran-Orderly w done same tr.grants tr.fresh),
        tr.events,
        omega (arith, tr.fresh, allocated-lt w fin.wf buf _ fin.text_at),
        λ q l free.
            same q l (λ e. cc (ap y.world.cells e, free, mine.ready.result_at))
              (λ e. cc (ap y.world.cells e, free, mine.asd_at))
            ∙ free,
      )
