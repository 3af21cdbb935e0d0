-- ===== src/Traffic/Runs.antt =====
-- Every run of a port, in any order of its callbacks, is a service's history.
use erlxsl.Prelude.{
  ◌+◌, ◌<◌, ◌≢◌, ℕ, ◌≤◌, ◌≡◌, sym, subst, true, List, [], ◌∷◌, ◌++◌, none, some, map, append-nil,
  All, All-append_right,
}
use erlxsl.Types.{Ptr}
use erlxsl.Memory.{World, Event, handle_block}
use erlxsl.Memory.WellFormed.{WellFormed}
use erlxsl.Driver.Contract.{Serves}
use erlxsl.Traffic.System.{Port, System, Run, start, later, replied, Label}
use erlxsl.Traffic.Apart.{Orderly}
use erlxsl.Traffic.Served.{Served, idle, pending, seen, shown}
use erlxsl.Traffic.Reached.{Reached, Step-Reached, Kept}

Run-Reached :
    {p : Port} {before : List Event} {x : System} {ls : List Label} {y : System}
    → 9 ≤ p.fuel
    → Reached p before [] x
    → Run p x ls y
    → Reached p before ls y
Run-Reached enough h start = h
Run-Reached enough h (later r e) = Step-Reached enough (Run-Reached enough h r) e

-- A port that has taken no call yet.
abbrev pub opened : World → System
opened w = record { world = w; calls = λ n. none }

-- A port that is started: its driver's handle leads to the table of an engine that keeps what
-- `Transforms` promises, and there is memory for everything.
module _ (p : Port) (enough : 9 ≤ p.fuel) (w : World) (wf : WellFormed w)
    (drv_at : w.cells p.drv_data ≡ some (handle_block p.handle))
    (serves : Serves p.provider w p.handle p.state p.answer) (table_is : serves.table ≡ p.table)
    (grants : (k : ℕ) → w.grants k ≡ true) where
  opened-Reached : Reached p w.events [] (opened w)
  opened-Reached = record {
    orderly = record {
      wf = wf;
      grants = grants;
      drv_at = drv_at;
      serves = serves;
      table_is = table_is;
      held = λ n c at. cc;
      older = λ n c at. cc;
      allocated = λ n c at. cc;
      apart = λ n m c e q ne at. cc;
    };
    served = idle;
    events = sym (append-nil (map seen w.events));
    kept = tt;
  }

  module _ {ls : List Label} {y : System} (r : Run p (opened w) ls y) where
    -- Whatever requests in order a port takes, and in whatever order the callbacks come, the port is in
    -- order: memory is well formed, each call that was taken has its blocks as they were built for it,
    -- or as its own transform left them, the driver's handle leads to the engine's table that it led to
    -- at the start, and no two calls own the same block. Each request's two texts are shorter than
    -- 2^31 bytes together with a terminator, there is memory for everything, the provider keeps what
    -- `Transforms` promises, and the driver's handle leads to it at the start.
    pub Run-Orderly : Orderly p y
    Run-Orderly = (Run-Reached enough opened-Reached r).orderly

    -- Whatever requests in order a port takes, and in whatever order the callbacks come, what the
    -- emulator is asked for is a service's history: a request is taken, under an address of its own,
    -- with one asynchronous call, and each term that is sent answers a request that was taken and not
    -- yet answered. The term goes to the process that asked, with the atom of the state that the
    -- request's own transform returns, the port, and a buffer that holds the provider's answer to the
    -- request's own two texts at that moment. The requests that are left are those of the port's calls.
    -- Each request's two texts are shorter than 2^31 bytes together with a terminator, there is memory
    -- for everything, the provider keeps what `Transforms` promises, and the driver's handle leads to
    -- it at the start.
    pub Run-Served :
        Served ls (pending y.calls)
        × (map seen y.world.events ≡ map seen w.events ++ map (shown p) ls)
    Run-Served = let h = Run-Reached enough opened-Reached r in (h.served, h.events)

    -- Once a request was answered, nine of the thirteen addresses that it was given are free, and stay
    -- so whatever comes after: its two buffers, the command and its result's vector, the call's handle,
    -- the documents and their vectors, which are the third to the last, but for the task's and the
    -- context's. Each request's two texts are shorter than 2^31 bytes together with a terminator, there
    -- is memory for everything, the provider keeps what `Transforms` promises, and the driver's handle
    -- leads to it at the start.
    pub Run-clears :
        (n caller : ℕ) (s t : List ℕ) (ks ms : List Label) (q : Ptr)
        → ls ≡ ks ++ replied n caller s t ∷ ms
        → n + 2 ≤ q
        → q < n + 13
        → q ≢ n + 4
        → q ≢ n + 5
        → y.world.cells q ≡ none
    Run-clears n caller s t ks ms q e l h task context =
        let kept = subst (All (Kept y.world)) e (Run-Reached enough opened-Reached r).kept in
        (All-append_right (Kept y.world) ks (replied n caller s t ∷ ms) kept).0.1 q l h task context
