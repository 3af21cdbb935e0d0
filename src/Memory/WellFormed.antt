-- ===== src/Memory/WellFormed.antt =====
-- A world as a run of the driver meets it: NULL is not allocated, and addresses are fresh.
use mathlib.Core.Path.{fun_ext}
use native.Mathlib.Decide.{dec_le}
use erlxsl.Prelude.{ℕ, ◌+◌, ◌<◌, ◌≤◌, ◌≡◌, ◌≢◌, ap, Option, none, some, arith}
use erlxsl.Types.{Ptr}
use erlxsl.Memory.{World, Cells, Block, update, Outcome, ok}

pub record WellFormed (w : World) : Type 0 where
  pub null_free : w.cells 0 ≡ none
  pub started : w.next ≢ 0
  pub fresh : (p : Ptr) → w.next ≤ p → w.cells p ≡ none

-- What is allocated lies below the next address, and is not NULL.
pub allocated-lt :
    (w : World) → WellFormed w → (p : Ptr) (b : Block) → w.cells p ≡ some b → p < w.next
allocated-lt w wf p b e = elim (dec_le w.next p) [ yes h ↦ cc (wf.fresh p h) | no h ↦ omega arith ]

pub allocated-ne : (w : World) → WellFormed w → (p : Ptr) (b : Block) → w.cells p ≡ some b → p ≢ 0
allocated-ne w wf p b e z = cc (wf.null_free)

pub update-update :
    (f : Cells) (p : Ptr) (a b : Option Block) → update (update f p a) p b ≡ update f p b
update-update f p a b = fun_ext λ q. ground arith

pub update_comm :
    (f : Cells) (p q : Ptr) (a b : Option Block)
    → p ≢ q
    → update (update f p a) q b ≡ update (update f q b) p a
update_comm f p q a b h = fun_ext λ r. ground arith

pub update-none : (f : Cells) (p : Ptr) → f p ≡ none → update f p none ≡ f
update-none f p h = fun_ext λ q. ground arith

-- The world after a request that was granted, and after one that was refused.
abbrev pub granted : Block → World → World
granted b w = record w { next = w.next + 1; cells = update w.cells w.next (some b) }

abbrev pub refused : World → World
refused w = record w { next = w.next + 1 }

pub granted-WellFormed : (b : Block) (w : World) → WellFormed w → WellFormed (granted b w)
granted-WellFormed b w wf = record {
  null_free = ground (arith, wf.null_free, wf.started);
  started = omega arith;
  fresh = λ p h. ground (arith, wf.fresh p);
}

pub refused-WellFormed : (w : World) → WellFormed w → WellFormed (refused w)
refused-WellFormed w wf = record {
  null_free = wf.null_free;
  started = omega arith;
  fresh = λ p h. wf.fresh p (omega arith);
}

-- Two ends of a run are the same if their memories hold the same blocks.
pub same_cells :
    {A : Type 0} (a : A) (w : World) (n : ℕ) (f g : Cells)
    → ((q : Ptr) → f q ≡ g q)
    → ◌≡◌ {A = Outcome (A × World)}
        (ok (a, record w { next = n; cells = f }))
        (ok (a, record w { next = n; cells = g }))
same_cells a w n f g h = ap (λ (k : Cells). ok (a, record w { next = n; cells = k })) (fun_ext h)

-- A write to an allocated block keeps the world well formed.
pub stored-WellFormed :
    (p : Ptr) (b old : Block) (w : World)
    → WellFormed w
    → w.cells p ≡ some old
    → WellFormed (record w { cells = update w.cells p (some b) })
stored-WellFormed p b old w wf at = record {
  null_free = ground (arith, allocated-ne w wf p old at, wf.null_free);
  started = wf.started;
  fresh = λ q h. ground (arith, allocated-lt w wf p old at, wf.fresh q);
}

-- So does a free.
pub freed-WellFormed :
    (p : Ptr) (w : World) → WellFormed w → WellFormed (record w { cells = update w.cells p none })
freed-WellFormed p w wf = record {
  null_free = ground (arith, wf.null_free);
  started = wf.started;
  fresh = λ q h. ground (arith, wf.fresh q);
}
