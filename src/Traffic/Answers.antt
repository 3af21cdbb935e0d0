-- ===== src/Traffic/Answers.antt =====
-- A reply leaves the port's other calls as they are.
use erlxsl.Prelude.{
  ℕ, ◌+◌, ◌∙◌, ◌<◌, ◌≤◌, ◌≡◌, ◌≢◌, ap, subst, refl, inl, inr, Option, none, some, List, [], ◌∷◌,
  ◌++◌, length, arith, All, All-map,
}
use erlxsl.Types.{Ptr}
use erlxsl.Memory.{World, Cells, ok, chars_block, driver_send_term}
use erlxsl.Memory.Blocks.{drop_cells, drop_cells-none, drop_cells-frame, without}
use erlxsl.Memory.WellFormed.{WellFormed, granted-WellFormed, freed-WellFormed}
use erlxsl.CString.Laws.{terminated}
use erlxsl.Driver.{ready_async}
use erlxsl.Driver.Contract.{Serves-same}
use erlxsl.Driver.Finished.{Finished-Answered}
use erlxsl.Driver.Finished
use erlxsl.Driver.Reply.{ready_async_lem, reply_words, sent}
use erlxsl.Driver.Returning.{reply_tag}
use erlxsl.Traffic.System.{Port, Call, System, returned, put, put-cases}
use erlxsl.Traffic.Held.{Held, Owns, Returned}
use erlxsl.Traffic.Apart.{Orderly, Held-same, Owns-later}

-- Freeing blocks keeps a world well formed.
without-WellFormed : (ps : List Ptr) (w : World) → WellFormed w → WellFormed (without ps w)
without-WellFormed [] w wf = wf
without-WellFormed (p ∷ ps) w wf = without-WellFormed ps _ (freed-WellFormed p w wf)

module _ {p : Port} {y : System} (o : Orderly p y) {n caller : ℕ} {s t : List ℕ} {buf : Ptr}
    (at : y.calls n ≡ some (returned caller s t buf)) where
  abbrev call : Call
  call = returned caller s t buf

  abbrev mine : Returned p y.world n caller s t buf
  mine = o.held n _ at

  abbrev gone : World → System
  gone w = record { world = w; calls = put y.calls n none }

  -- What the reply frees: the call's blocks, but for its task's and its context's.
  abbrev freed : List Ptr
  freed = Finished.owned mine.done ++ (n + 6) ∷ []

  given : (k : ℕ) → 2 ≤ k → k < 13 → Owns n call (n + k)
  given k l h = inl (omega arith, omega arith)

  freed-Owns : All (Owns n call) freed
  freed-Owns = (
    given 2 (omega arith) (omega arith),
    (
      given 10 (omega arith) (omega arith),
      (
        given 9 (omega arith) (omega arith),
        (
          given 3 (omega arith) (omega arith),
          (
            given 12 (omega arith) (omega arith),
            (
              given 11 (omega arith) (omega arith),
              (
                inr refl,
                (
                  given 8 (omega arith) (omega arith),
                  (given 7 (omega arith) (omega arith), (given 6 (omega arith) (omega arith), tt)),
                ),
              ),
            ),
          ),
        ),
      ),
    ),
  )

  -- These are all but the task's and the context's.
  freed-all :
      (f : Cells) (q : Ptr)
      → n + 2 ≤ q
      → q < n + 13
      → q ≢ n + 4
      → q ≢ n + 5
      → drop_cells freed f q ≡ none
  freed-all f q l h task context = ground (arith, l, h, task, context)

  module _ (w : World) (wf : WellFormed w) (grown : y.world.next ≤ w.next)
      (same : (q : Ptr) → q < y.world.next → All (λ k. k ≢ q) freed → w.cells q ≡ y.world.cells q)
      (grants : w.grants ≡ y.world.grants) where
    unowned : (q : Ptr) → q < n → w.cells q ≡ y.world.cells q
    unowned q l = same q (omega (arith, (o.allocated n _ at).0)) (
        All-map (Owns n call) (λ k. k ≢ q) freed
          (λ k own. omega (arith, Owns-later p y.world n call k mine own)) freed-Owns)

    drv : w.cells p.drv_data ≡ y.world.cells p.drv_data
    drv = unowned p.drv_data (o.older n _ at).0

    engine : w.cells o.serves.engine ≡ y.world.cells o.serves.engine
    engine = unowned o.serves.engine (o.older n _ at).1

    remains : (m : Ptr) (c : Call) → (gone w).calls m ≡ some c → (n ≢ m) × (y.calls m ≡ some c)
    remains m c is = elim (put-cases y.calls n none m c is) [ inl (e, f) ↦ cc | inr h ↦ h ]

    gone-Held : (m : Ptr) (c : Call) → (gone w).calls m ≡ some c → Held p w m c
    gone-Held m c is =
        let (e, f) = remains m c is in
        Held-same o w wf m c f
          (λ q own. same q ((o.allocated m c f).1 q own) (
            All-map (Owns n call) (λ k. k ≢ q) freed
              (λ k its is. o.apart n m call c q e at f (subst (Owns n call) is its) own)
              freed-Owns))
          drv engine

    gone-Orderly : Orderly p (gone w)
    gone-Orderly = record {
      wf = wf;
      grants = λ k. ap (λ (h : ℕ → _). h k) grants ∙ o.grants k;
      drv_at = drv ∙ o.drv_at;
      serves = Serves-same w o.serves engine;
      table_is = o.table_is;
      held = gone-Held;
      older = λ m c is. o.older m c (remains m c is).1;
      allocated = λ m c is.
          let f = (remains m c is).1 in
          (
            omega (arith, grown, (o.allocated m c f).0),
            λ q own. omega (arith, grown, (o.allocated m c f).1 q own),
          );
      apart = λ m k c e q ne is is'. o.apart m k c e q ne (remains m c is).1 (remains k e is').1;
    }

  -- A call that has returned is answered, and the port is in order without it: one term goes to the
  -- call's process, with a buffer that holds the call's answer at that moment.
  pub ready_async-Orderly :
      9 ≤ p.fuel
      → (w : World) × (m : Cells) × (more : List (Option ℕ)) × (ready_async p.em p.provider p.fuel
            p.drv_data
            (n + 6)
            y.world
          ≡ ok (tt, w))
        × Orderly p (gone w)
        × (w.events
            ≡ y.world.events
              ++ driver_send_term caller
                  (reply_words
                    (reply_tag p.em (p.state s t))
                    (p.em.driver_mk_port p.handle.port)
                    buf
                    (length (p.answer s t)))
                  m
                ∷ [])
        × (m buf ≡ some (chars_block (terminated (p.answer s t) ++ more)))
        × (y.world.next ≤ w.next)
        × ((q : Ptr) → q < y.world.next → y.world.cells q ≡ none → w.cells q ≡ none)
        × ((q : Ptr) → n + 2 ≤ q → q < n + 13 → q ≢ n + 4 → q ≢ n + 5 → w.cells q ≡ none)
  ready_async-Orderly enough =
      let h = Finished-Answered mine.done (o.serves.keeps.has_memory s t) in
      let g = o.grants y.world.next in
      let v = sent p.em p.provider h g mine.returns p.fuel enough in
      let gw = granted-WellFormed _ y.world o.wf in
      let (e, text, leak) = ready_async_lem p.em p.provider h g mine.returns p.fuel enough in
      (
        without freed v,
        v.cells,
        mine.done.more,
        e,
        gone-Orderly (without freed v)
            (without-WellFormed freed v
              (record { null_free = gw.null_free; started = gw.started; fresh = gw.fresh }))
            (omega arith) (λ q l a. drop_cells-frame freed v.cells q a ∙ ground arith) refl,
        refl,
        text,
        omega arith,
        λ q l free. drop_cells-none freed v.cells q (ground (arith, l, free)),
        λ q l h task context. freed-all v.cells q l h task context,
      )
