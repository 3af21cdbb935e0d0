-- ===== src/Memory/Blocks.antt =====
-- Lists of blocks that are freed together.
use erlxsl.Prelude.{
  ◌≡◌, ◌≢◌, refl, ap, ◌∙◌, List, [], ◌∷◌, ◌++◌, Option, none, some, arith, All, Distinct, Apart,
  inl, inr, All-append_left, All-append_right, Distinct-append_left, Distinct-append_right,
  Distinct-Apart, sym,
}
use erlxsl.Types.{Ptr}
use erlxsl.Memory.Steps.{drv_free-live, Outcome-cases}
use erlxsl.Memory.{Block, World, Cells, ok, M, ◌>>◌, update, drv_free}

-- Free each address in turn.
unfoldable pub free_all : List Ptr → M (Unit {0})
free_all [] w = ok (tt, w)
free_all (p ∷ ps) w = (drv_free p >> free_all ps) w

abbrev pub drop_cells : List Ptr → Cells → Cells
drop_cells [] f = f
drop_cells (p ∷ ps) f = drop_cells ps (update f p none)

-- The world after these blocks are freed.
abbrev pub without : List Ptr → World → World
without ps w = record w { cells = drop_cells ps w.cells }

-- An allocated address.
abbrev pub IsLive : Cells → Ptr → Type 0
IsLive f p = (b : Block) × (p ≢ 0) × (f p ≡ some b)

-- What is free stays free.
pub drop_cells-none : (ps : List Ptr) (f : Cells) (q : Ptr) → f q ≡ none → drop_cells ps f q ≡ none
drop_cells-none [] f q h = h
drop_cells-none (p ∷ ps) f q h = drop_cells-none ps (update f p none) q (ground arith)

-- Blocks outside the list are untouched.
pub drop_cells-frame :
    (ps : List Ptr) (f : Cells) (q : Ptr) → All (λ p. p ≢ q) ps → drop_cells ps f q ≡ f q
drop_cells-frame [] f q h = refl
drop_cells-frame (p ∷ ps) f q h = drop_cells-frame ps _ q h.1 ∙ ground (arith, h.0)

pub drop_cells-frees : (ps : List Ptr) (f : Cells) → All (λ q. drop_cells ps f q ≡ none) ps
drop_cells-frees [] f = tt
drop_cells-frees (p ∷ ps) f =
    (drop_cells-none ps (update f p none) p (ground arith), drop_cells-frees ps (update f p none))

pub drop_cells-append :
    (ps qs : List Ptr) (f : Cells) → drop_cells (ps ++ qs) f ≡ drop_cells qs (drop_cells ps f)
drop_cells-append [] qs f = refl
drop_cells-append (p ∷ ps) qs f = drop_cells-append ps qs (update f p none)

pub IsLive-update :
    (f : Cells) (p : Ptr) (b : Option Block) (qs : List Ptr)
    → All (λ q. p ≢ q) qs
    → All (IsLive f) qs
    → All (IsLive (update f p b)) qs
IsLive-update f p b [] d h = tt
IsLive-update f p b (q ∷ qs) d h =
    ((h.0.0, h.0.1, ground (arith, d.0)), IsLive-update f p b qs d.1 h.1)

-- Distinct allocated blocks are freed without a fault, and nothing else changes.
pub free_all_lem :
    (ps : List Ptr) (w : World)
    → All (IsLive w.cells) ps
    → Distinct ps
    → free_all ps w ≡ ok (tt, without ps w)
unfolding free_all
free_all_lem [] w h d = refl
free_all_lem (p ∷ ps) w ((b, nz, e), hs) d = rw (drv_free-live p w b nz e) (
    free_all_lem ps (record w { cells = update w.cells p none })
      (IsLive-update w.cells p none ps d.0 hs) d.1)

pub free_all-append :
    (ps qs : List Ptr) (w : World) → free_all (ps ++ qs) w ≡ (free_all ps >> free_all qs) w
unfolding free_all
free_all-append [] qs w = refl
free_all-append (p ∷ ps) qs w = elim (Outcome-cases (drv_free p w)) [
  | inl (e, h) ↦ rw h
  | inr ((u, w'), h) ↦ rw h (free_all-append ps qs w')
]

pub IsLive-drop_cells :
    (ps qs : List Ptr) (f : Cells)
    → Apart ps qs
    → All (IsLive f) qs
    → All (IsLive (drop_cells ps f)) qs
IsLive-drop_cells [] qs f a h = h
IsLive-drop_cells (p ∷ ps) qs f a h =
    IsLive-drop_cells ps qs (update f p none) a.1 (IsLive-update f p none qs a.0 h)

-- `m` frees the blocks `ps` of `w`, if they are allocated and distinct, and changes nothing else.
abbrev pub Frees : M (Unit {0}) → List Ptr → World → Type 0
Frees m ps w = All (IsLive w.cells) ps → Distinct ps → m w ≡ ok (tt, without ps w)

pub Frees-then :
    (m k : M (Unit {0})) (ps qs : List Ptr) (w : World)
    → Frees m ps w
    → (Apart ps qs → Frees k qs (without ps w))
    → Frees (m >> k) (ps ++ qs) w
Frees-then m k ps qs w hm hk h d =
    rw (hm (All-append_left _ ps qs h) (Distinct-append_left ps qs d)) (
      hk apart (IsLive-drop_cells ps qs w.cells apart (All-append_right _ ps qs h))
        (Distinct-append_right ps qs d)
      ∙ ap (λ (f : Cells). ok (tt, record w { cells = f })) (sym (drop_cells-append ps qs w.cells)))
  where
    apart : Apart ps qs
    apart = Distinct-Apart ps qs d

pub Frees-one : (p : Ptr) (w : World) → Frees (drv_free p) (p ∷ []) w
Frees-one p w ((b, nz, e), _) d = drv_free-live p w b nz e
