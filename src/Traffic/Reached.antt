-- ===== src/Traffic/Reached.antt =====
-- What the runs of a port come to, and that each step keeps it so.
use mathlib.Core.List.{map-append}
use erlxsl.Prelude.{
  ◌+◌, ◌∙◌, ◌≤◌, ◌<◌, ◌≡◌, ◌≢◌, refl, ap, sym, subst, List, [], ◌∷◌, ◌++◌, none, some, map,
  append_assoc, append-nil, All, All-append, All-map, arith,
}
use erlxsl.Types.{Ptr, DriverIoVec}
use erlxsl.Memory.{World, Event, Outcome, ok, iov_block}
use erlxsl.Traffic.System.{
  Port, System, Step, submits, transforms, answers, waiting, returned, put, asked, replied, Label,
}
use erlxsl.Traffic.Apart.{Orderly}
use erlxsl.Traffic.Submits.{outputv-Orderly}
use erlxsl.Traffic.Transforms.{apply_transform-Orderly}
use erlxsl.Traffic.Answers.{ready_async-Orderly}
use erlxsl.Traffic.Served.{
  Served, takes, replies, pending, request_of, pending-put, pend-same, seen, shown, address,
  seen-reply, seen_more,
}

-- Of the thirteen addresses that a request was given, the third to the last are free, but for those
-- of its task and its context.
abbrev pub Cleared : World → Ptr → Type 0
Cleared w n = (q : Ptr) → n + 2 ≤ q → q < n + 13 → q ≢ n + 4 → q ≢ n + 5 → w.cells q ≡ none

-- What a label leaves for good: its request's addresses are not given again, and after the reply
-- nine of them are free.
abbrev pub Kept : World → Label → Type 0
Kept w (asked n caller s t) = n + 13 ≤ w.next
Kept w (replied n caller s t) = (n + 13 ≤ w.next) × Cleared w n

Kept-later :
    (v w : World) (l : Label)
    → v.next ≤ w.next
    → ((q : Ptr) → q < v.next → v.cells q ≡ none → w.cells q ≡ none)
    → Kept v l
    → Kept w l
Kept-later v w (asked n caller s t) grown stays h = omega arith
Kept-later v w (replied n caller s t) grown stays (below, free) =
    (omega arith, λ q l h task context. stays q (omega arith) (free q l h task context))

Kept-address : (w : World) (l : Label) → Kept w l → address l + 13 ≤ w.next
Kept-address w (asked n caller s t) h = h
Kept-address w (replied n caller s t) h = h.0

-- What a run has come to: the port is in order, its history is a service's, and its events are what
-- the labels are to be seen as.
pub record Reached (p : Port) (before : List Event) (ls : List Label) (y : System) : Type 0 where
  pub orderly : Orderly p y
  pub served : Served ls (pending y.calls)
  pub events : map seen y.world.events ≡ map seen before ++ map (shown p) ls
  pub kept : All (Kept y.world) ls

-- One more event, and one more label.
events_more :
    (p : Port) (before es : List Event) {fs : List Event} (ls : List Label) (e : Event) (l : Label)
    → fs ≡ es ++ e ∷ []
    → seen e ≡ shown p l
    → map seen es ≡ map seen before ++ map (shown p) ls
    → map seen fs ≡ map seen before ++ map (shown p) (ls ++ l ∷ [])
events_more p before es ls e l more same h =
    seen_more es e more same
    ∙ rw h (
        append_assoc (map seen before) (map (shown p) ls) (shown p l ∷ [])
        ∙ ap (λ k. map seen before ++ k) (sym (map-append (shown p) ls (l ∷ []))))

-- Two ends of the same run are the same.
ends : {a b : World} {o : Outcome (Unit {0} × World)} → o ≡ ok (tt, a) → o ≡ ok (tt, b) → a ≡ b
ends e f = cc

iov_block_injective :
    (a b : DriverIoVec) → some (iov_block a) ≡ some (iov_block b) → a.payload ≡ b.payload
iov_block_injective a b e = cc

module _ {p : Port} (enough : 9 ≤ p.fuel) {before : List Event} where
  -- Every step keeps it so.
  pub Step-Reached :
      {ls ms : List Label} {y z : System}
      → Reached p before ls y
      → Step p y ms z
      → Reached p before (ls ++ ms) z
  Step-Reached {ls} {y = y} h (submits caller ev spec s t {w = w} r small e) =
      let (w', e', o, events, grown, stays) = outputv-Orderly h.orderly r small in
      subst
        (λ v.
          Reached p before (ls ++ asked y.world.next caller s t ∷ [])
            (record { world = v; calls = put y.calls y.world.next (some (waiting caller s t)) }))
        (ends e' e)
        (record {
          orderly = o;
          served = subst (Served _) (sym (pending-put y.calls y.world.next _)) (
              takes y.world.next caller s t h.served (
                All-map (Kept y.world) (λ l. address l ≢ y.world.next) ls
                  (λ l k. omega (arith, Kept-address y.world l k)) h.kept));
          events = events_more p before y.world.events ls _ _ events refl h.events;
          kept =
              All-append (Kept w') ls (asked y.world.next caller s t ∷ [])
                (All-map (Kept y.world) (Kept w') ls
                  (λ l. Kept-later y.world w' l (omega arith) stays) h.kept)
                (grown, tt);
        })
  Step-Reached {ls} {y = y} h (transforms n caller s t v {w = w} at e is) =
      let (w', v', e', is', o, events, grown, stays) = apply_transform-Orderly h.orderly at in
      let its : w' ≡ w = ends e' e in
      let payload : v'.payload ≡ v.payload =
        iov_block_injective v' v (sym is' ∙ ap (λ (u : World). u.cells (n + 8)) its ∙ is) in
      record {
        orderly =
            subst
              (λ b.
                Orderly p
                  (record { world = w; calls = put y.calls n (some (returned caller s t b)) }))
              payload
              (subst
                (λ u. Orderly p (record {
                  world = u;
                  calls = put y.calls n (some (returned caller s t v'.payload));
                }))
                its o);
        served =
            subst (λ ks. Served ks (pending (put y.calls n (some (returned caller s t v.payload)))))
              (sym (append-nil ls))
              (subst (Served ls)
                (sym (
                  pending-put y.calls n (some (returned caller s t v.payload))
                  ∙ pend-same (pending y.calls) n _ (ap request_of at)))
                h.served);
        events =
            subst (λ ks. map seen w.events ≡ map seen before ++ map (shown p) ks)
              (sym (append-nil ls))
              (ap (λ (u : World). map seen u.events) (sym its) ∙ ap (map seen) events ∙ h.events);
        kept =
            All-append (Kept w) ls []
              (subst (λ u. All (Kept u) ls) its
                (All-map (Kept y.world) (Kept w') ls (λ l. Kept-later y.world w' l grown stays)
                  h.kept))
              tt;
      }
  Step-Reached {ls} {y = y} h (answers n caller s t buf {w = w} at e) =
      let (w', m, more, e', o, events, text, grown, stays, cleared) =
        ready_async-Orderly h.orderly at enough in
      subst
        (λ v.
          Reached p before (ls ++ replied n caller s t ∷ [])
            (record { world = v; calls = put y.calls n none }))
        (ends e' e)
        (record {
          orderly = o;
          served =
              subst (Served _) (sym (pending-put y.calls n none))
                (replies n caller s t h.served (ap request_of at));
          events =
              events_more p before y.world.events ls _ (replied n caller s t) events
                (seen-reply _ _ _ buf (p.answer s t) more m text) h.events;
          kept =
              All-append (Kept w') ls (replied n caller s t ∷ [])
                (All-map (Kept y.world) (Kept w') ls (λ l. Kept-later y.world w' l grown stays)
                  h.kept)
                ((omega (arith, grown, (h.orderly.allocated n _ at).0), cleared), tt);
        })
