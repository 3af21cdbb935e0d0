-- ===== src/Traffic/Progress.antt =====
-- A request that was taken can be answered, whatever else the port is doing.
use erlxsl.Prelude.{
  ℕ, ◌+◌, ◌^◌, ◌<◌, ◌≤◌, ◌≡◌, ap, ◌∙◌, ◌⊎◌, inl, inr, subst, true, List, [], ◌∷◌, ◌++◌, Option,
  none, some, append-nil, map, length, arith,
}
use erlxsl.Types.{Ptr, InputSpec}
use erlxsl.Memory.{World, M, ok, ◌>>◌, pure, handle_block}
use erlxsl.Memory.WellFormed.{WellFormed}
use erlxsl.Request.{ErlIoVec}
use erlxsl.Driver.Contract.{Serves}
use erlxsl.Driver.Submit.{InOrder}
use erlxsl.Traffic.System.{
  Port, Call, System, Run, later, submits, transforms, answers, waiting, returned, asked, replied,
  Label, calling, put, put-put,
}
use erlxsl.Traffic.Submits.{outputv-Orderly}
use erlxsl.Traffic.Transforms.{apply_transform-Orderly}
use erlxsl.Traffic.Answers.{ready_async-Orderly}
use erlxsl.Driver.{apply_transform, ready_async}
use erlxsl.Traffic.Served.{pending, request_of, seen, shown, seen-reply, seen_more}
use erlxsl.Traffic.Runs.{opened, Run-Orderly}

-- A pending request is that of a call which waits, or which has returned.
request_of-cases :
    (c : Option Call) {caller : ℕ} {s t : List ℕ}
    → request_of c ≡ some (record { caller = caller; input = s; stylesheet = t })
    → (c ≡ some (waiting caller s t)) ⊎ ((buf : Ptr) × (c ≡ some (returned caller s t buf)))
request_of-cases none e = cc
request_of-cases (some (waiting caller s t)) e = inl cc
request_of-cases (some (returned caller s t buf)) e = inr (buf, cc)

module _ (p : Port) (enough : 9 ≤ p.fuel) (w : World) (wf : WellFormed w)
    (drv_at : w.cells p.drv_data ≡ some (handle_block p.handle))
    (serves : Serves p.provider w p.handle p.state p.answer) (table_is : serves.table ≡ p.table)
    (grants : (k : ℕ) → w.grants k ≡ true) {ls : List Label} {y : System}
    (r : Run p (opened w) ls y) where
  -- A request in order is taken, whatever the port is doing.
  pub Run-takes :
      {caller : ℕ} {ev : ErlIoVec} {spec : InputSpec} {s t : List ℕ}
      → InOrder (calling p.em caller) ev spec s t
      → length s + length t + 1 < 2 ^ 31
      → (z : System) × Run p (opened w) (ls ++ asked y.world.next caller s t ∷ []) z
  Run-takes {caller} {ev} {spec} {s} {t} i small =
      let o = Run-Orderly p enough w wf drv_at serves table_is grants r in
      let (v, e, o', events, grown, stays) = outputv-Orderly o i small in
      (_, later r (submits caller ev spec s t i small e))

  -- The port once it has answered this request, and the calls that it had taken are as they were but
  -- for this one.
  abbrev after_reply : World → Ptr → System
  after_reply v n = record { world = v; calls = put y.calls n none }

  -- The functions that are left to run for a call, one after the other.
  abbrev own_steps : Option Call → Ptr → M (Unit {0})
  own_steps (some (waiting caller s t)) n =
      apply_transform p.provider (n + 6) >> ready_async p.em p.provider p.fuel p.drv_data (n + 6)
  own_steps (some (returned caller s t buf)) n =
      ready_async p.em p.provider p.fuel p.drv_data (n + 6)
  own_steps none n = pure tt

  answers_waiting :
      (n caller : ℕ) (s t : List ℕ)
      → y.calls n ≡ some (waiting caller s t)
      → (v : World) × (own_steps (y.calls n) n y.world ≡ ok (tt, v))
        × (map seen v.events ≡ map seen y.world.events ++ shown p (replied n caller s t) ∷ [])
        × Run p (opened w) (ls ++ replied n caller s t ∷ []) (after_reply v n)
  answers_waiting n caller s t waits =
      let o = Run-Orderly p enough w wf drv_at serves table_is grants r in
      let (u, iov, e, is, o', events, grown, stays) = apply_transform-Orderly o waits in
      let q = later r (transforms n caller s t iov waits e is) in
      let back : put y.calls n (some (returned caller s t iov.payload)) n
          ≡ some (returned caller s t iov.payload) =
        ground arith in
      let (v, m, more, e', o'', events', text, grown', stays', cleared) =
        ready_async-Orderly o' back enough in
      (
        v,
        rw (waits, e) e',
        seen_more u.events _ events' (seen-reply _ _ _ iov.payload (p.answer s t) more m text)
            ∙ ap (λ es. map seen es ++ shown p (replied n caller s t) ∷ []) events,
        subst (λ ks. Run p (opened w) (ks ++ replied n caller s t ∷ []) (after_reply v n))
            (append-nil ls)
            (subst
              (λ f.
                Run p (opened w) ((ls ++ []) ++ replied n caller s t ∷ [])
                  (record { world = v; calls = f }))
              (put-put y.calls n (some (returned caller s t iov.payload)) none)
              (later q (answers n caller s t iov.payload back e'))),
      )

  answers_returned :
      (n caller : ℕ) (s t : List ℕ) (buf : Ptr)
      → y.calls n ≡ some (returned caller s t buf)
      → (v : World) × (own_steps (y.calls n) n y.world ≡ ok (tt, v))
        × (map seen v.events ≡ map seen y.world.events ++ shown p (replied n caller s t) ∷ [])
        × Run p (opened w) (ls ++ replied n caller s t ∷ []) (after_reply v n)
  answers_returned n caller s t buf back =
      let o = Run-Orderly p enough w wf drv_at serves table_is grants r in
      let (v, m, more, e, o', events, text, grown, stays, cleared) =
        ready_async-Orderly o back enough in
      (
        v,
        rw back e,
        seen_more y.world.events _ events (seen-reply _ _ _ buf (p.answer s t) more m text),
        later r (answers n caller s t buf back e),
      )

  -- A request that was taken and not yet answered can be answered at once, whatever the port has done
  -- and whatever else it has taken: from where the port is, `apply_transform`, if it has not run yet,
  -- and `ready_async` for this request, and nothing else, meet no fault; the emulator is asked for
  -- the request's reply and for nothing else; and the port goes on as it was, without this request
  -- and with every other call. The requests' texts are shorter than 2^31 bytes together with a
  -- terminator, there is memory for everything, the provider keeps what `Transforms` promises, and the
  -- driver's handle leads to it at the start.
  pub Run-answers :
      (n caller : ℕ) (s t : List ℕ)
      → pending y.calls n ≡ some (record { caller = caller; input = s; stylesheet = t })
      → (v : World) × (own_steps (y.calls n) n y.world ≡ ok (tt, v))
        × (map seen v.events ≡ map seen y.world.events ++ shown p (replied n caller s t) ∷ [])
        × Run p (opened w) (ls ++ replied n caller s t ∷ []) (after_reply v n)
  Run-answers n caller s t at = elim (request_of-cases (y.calls n) at) [
    | inl waits ↦ answers_waiting n caller s t waits
    | inr (buf, back) ↦ answers_returned n caller s t buf back
  ]
