-- ===== src/Traffic/Apart.antt =====
-- What holds between the steps of a port: each call has its blocks, and no two calls share one.
use erlxsl.Prelude.{
  ℕ, ◌+◌, ◌<◌, ◌≤◌, ◌≡◌, ◌≢◌, subst, refl, true, inl, inr, ◌⊎◌, Option, some, List, arith,
}
use erlxsl.Types.{Ptr}
use erlxsl.Memory.{World, handle_block}
use erlxsl.Memory.WellFormed.{WellFormed}
use erlxsl.Driver.Contract.{Serves}
use erlxsl.Traffic.System.{Port, Call, System, waiting, returned}
use erlxsl.Traffic.Held.{Held, Owns, Waiting-same, Returned-same}

-- The port is ready, its engine's table is the port's, and there is memory for everything; each of its calls has its blocks, which were
-- allocated after the driver's handle and its engine, and no two calls own the same block.
pub record Orderly (p : Port) (y : System) : Type 0 where
  pub wf : WellFormed y.world
  pub grants : (k : ℕ) → y.world.grants k ≡ true
  pub drv_at : y.world.cells p.drv_data ≡ some (handle_block p.handle)
  pub serves : Serves p.provider y.world p.handle p.state p.answer
  pub table_is : serves.table ≡ p.table
  pub held : (n : Ptr) (c : Call) → y.calls n ≡ some c → Held p y.world n c
  pub older : (n : Ptr) (c : Call) → y.calls n ≡ some c → (p.drv_data < n) × (serves.engine < n)
  pub allocated :
      (n : Ptr) (c : Call)
      → y.calls n ≡ some c
      → (n + 13 ≤ y.world.next) × ((q : Ptr) → Owns n c q → q < y.world.next)
  pub apart :
      (n m : Ptr) (c e : Call) (q : Ptr)
      → n ≢ m
      → y.calls n ≡ some c
      → y.calls m ≡ some e
      → Owns n c q
      → Owns m e q
      → ⊥

-- The engine of a driver's handle is one address.
engine_unique : {a b : Ptr} {o : Option Ptr} → o ≡ some a → o ≡ some b → a ≡ b
engine_unique e f = cc

module _ {p : Port} {y : System} (o : Orderly p y) (w' : World) (wf : WellFormed w') where
  -- A call keeps its blocks when a step leaves them, the driver's handle and the engine's table as
  -- they are.
  pub Held-same :
      (n : Ptr) (c : Call)
      → y.calls n ≡ some c
      → ((q : Ptr) → Owns n c q → w'.cells q ≡ y.world.cells q)
      → w'.cells p.drv_data ≡ y.world.cells p.drv_data
      → w'.cells o.serves.engine ≡ y.world.cells o.serves.engine
      → Held p w' n c
  Held-same n (waiting caller s t) at same drv engine =
      Waiting-same y.world w' wf n (λ q l m. same q (inl (l, m))) (o.held n _ at)
  Held-same n (returned caller s t buf) at same drv engine =
      let h = o.held n _ at in
      Returned-same y.world w' wf n (λ q l m. same q (inl (l, m))) h (same buf (inr refl)) drv
        (subst (λ e. w'.cells e ≡ y.world.cells e)
          (engine_unique o.serves.engine_is h.done.engine_is) engine)

some_injective : {A : Type 0} {a b : A} → some a ≡ some b → a ≡ b
some_injective e = cc

-- What holds of a call holds of the same call, found otherwise.
pub moved :
    (P : Ptr → Call → Type 0) {n m : Ptr} {c e : Call} → n ≡ m → some c ≡ some e → P n c → P m e
moved P {n} {m} {c} {e} at is h = subst (λ k. P k e) at (subst (P n) (some_injective is) h)

-- A call's blocks come after the address it goes by.
pub Owns-later :
    (p : Port) (w : World) (n : Ptr) (c : Call) (q : Ptr) → Held p w n c → Owns n c q → n + 2 ≤ q
Owns-later p w n (waiting caller s t) q h (inl (l, m)) = l
Owns-later p w n (waiting caller s t) q h (inr e) = cc
Owns-later p w n (returned caller s t buf) q h (inl (l, m)) = l
Owns-later p w n (returned caller s t buf) q h (inr e) = omega (arith, h.later, some_injective e)

-- A call that waits has no result yet.
pub Owns-waiting :
    (m : Ptr) (c : Call) (q : Ptr) {caller : ℕ} {s t : List ℕ}
    → some (waiting caller s t) ≡ some c
    → Owns m c q
    → (m + 2 ≤ q) × (q < m + 13)
Owns-waiting m (waiting caller s t) q e (inl l) = l
Owns-waiting m (waiting caller s t) q e (inr f) = cc
Owns-waiting m (returned caller s t buf) q e own = cc

-- A call that has returned also owns its result.
pub Owns-returned :
    (m : Ptr) (c : Call) (q : Ptr) {caller : ℕ} {s t : List ℕ} {buf : Ptr}
    → some (returned caller s t buf) ≡ some c
    → Owns m c q
    → ((m + 2 ≤ q) × (q < m + 13)) ⊎ (q ≡ buf)
Owns-returned m (waiting caller s t) q e own = cc
Owns-returned m (returned caller s t buf) q e (inl l) = inl l
Owns-returned m (returned caller s t buf) q e (inr f) = inr cc
