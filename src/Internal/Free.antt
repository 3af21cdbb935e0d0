-- ===== src/Internal/Free.antt =====
-- What the functions that free a structure do to memory: exactly the structure's blocks go.
use erlxsl.Prelude.{
  ℕ, zero, suc, ◌≤◌, refl, ap, List, [], ◌∷◌, ◌++◌, arith, Bool, true, false, eqb_ne, Apart,
  Apart-head, Apart-append_right, length, length-append,
}
use erlxsl.Types.{Ptr}
use erlxsl.Memory.{Cells, World, drv_free, iov_of, document_of, parameter_of}
use erlxsl.Memory.Steps.{load-at, drv_free-null}
use erlxsl.Memory.Blocks.{Frees, Frees-then, Frees-one, without, drop_cells, drop_cells-frame}
use erlxsl.Internal.{free_iov, free_document, free_parameters, free_payload}
use erlxsl.Internal.Owned.{
  nonnull, payload_blocks, SameAt, ParametersAt-same, IovAt, null_iov, an_iov, DocumentAt,
  null_document, a_document, ParametersAt, no_parameter, a_parameter,
}

-- `DRV_FREE` frees nothing through NULL.
pub drv_free-Frees : (p : Ptr) (w : World) → Frees (drv_free p) (nonnull p) w
drv_free-Frees zero w h d = drv_free-null w
drv_free-Frees (suc p) w h d = Frees-one (suc p) w h d

payload-Frees :
    (dirty : Bool) (p : Ptr) (w : World) → Frees (free_payload dirty p) (payload_blocks dirty p) w
payload-Frees true p w = drv_free-Frees p w
payload-Frees false p w = λ h d. refl

pub free_iov-Frees :
    {ps : List Ptr} (p : Ptr) (w : World) → IovAt w.cells p ps → Frees (free_iov p) ps w
unfolding free_iov
free_iov-Frees p w (null_iov z e) = rw (z, e) (λ h d. refl)
free_iov-Frees p w (an_iov v nz at e) =
    rw (e, eqb_ne p 0 nz, load-at iov_of p w _ v at refl)
      (Frees-then (free_payload v.dirty v.payload) (drv_free p) _ _ w
        (payload-Frees v.dirty v.payload w)
        (λ _. Frees-one p (without (payload_blocks v.dirty v.payload) w)))

pub free_document-Frees :
    {ps : List Ptr} (p : Ptr) (w : World) → DocumentAt w.cells p ps → Frees (free_document p) ps w
unfolding free_document
free_document-Frees p w (null_document z e) = rw (z, e) (λ h d. refl)
free_document-Frees p w (a_document v qs nz at iov e) =
    rw (e, eqb_ne p 0 nz, load-at document_of p w _ v at refl)
      (Frees-then (free_iov v.iov) (drv_free p) qs _ w (free_iov-Frees v.iov w iov)
        (λ _. Frees-one p (without qs w)))

-- What is freed leaves the blocks apart from it as they were.
pub SameAt-without : (ps qs : List Ptr) (f : Cells) → Apart ps qs → SameAt f (drop_cells ps f) qs
SameAt-without ps [] f a = tt
SameAt-without ps (q ∷ qs) f a = (
  drop_cells-frame ps f q (Apart-head ps q qs a),
  SameAt-without ps qs f (Apart-append_right ps (q ∷ []) qs a),
)

-- Enough fuel is one round for each node, and a node owns a block at least.
pub free_parameters-Frees :
    (fuel : ℕ) {ps : List Ptr} (p : Ptr) (w : World)
    → ParametersAt w.cells p ps
    → length ps ≤ fuel
    → Frees (free_parameters fuel p) ps w
unfolding free_parameters
free_parameters-Frees zero p w (no_parameter _ _ z e) b = rw (z, e) (λ h d. refl)
free_parameters-Frees zero p w (a_parameter _ _ n qs nz at rest e) b = absurd (
    omega (
      arith,
      ap length e,
      length-append (nonnull n.key) (nonnull n.value ++ p ∷ qs),
      length-append (nonnull n.value) (p ∷ qs),
    ))
free_parameters-Frees (suc fuel) p w (no_parameter _ _ z e) b = rw (z, e) (λ h d. refl)
free_parameters-Frees (suc fuel) p w (a_parameter _ _ n qs nz at rest e) b =
    rw (e, eqb_ne p 0 nz, load-at parameter_of p w _ n at refl)
      (Frees-then (drv_free n.key) _ ks (vs ++ p ∷ qs) w (drv_free-Frees n.key w) λ a.
        Frees-then (drv_free n.value) _ vs (p ∷ qs) w₁ (drv_free-Frees n.value w₁) λ a'.
          Frees-then (drv_free p) _ (p ∷ []) qs w₂ (Frees-one p w₂) λ a''.
            free_parameters-Frees fuel n.next (without (p ∷ []) w₂)
              (moved (p ∷ []) w₂ a'' (
                moved vs w₁ (Apart-append_right vs (p ∷ []) qs a') (
                  moved ks w
                    (Apart-append_right ks (p ∷ []) qs (Apart-append_right ks vs (p ∷ qs) a))
                    rest)))
              shorter)
  where
    ks : List Ptr
    ks = nonnull n.key

    vs : List Ptr
    vs = nonnull n.value

    w₁ : World
    w₁ = without ks w

    w₂ : World
    w₂ = without vs w₁

    moved :
        (os : List Ptr) (v : World)
        → Apart os qs
        → ParametersAt v.cells n.next qs
        → ParametersAt (without os v).cells n.next qs
    moved os v a r = ParametersAt-same v.cells _ (SameAt-without os qs v.cells a) r

    shorter : length qs ≤ fuel
    shorter = omega (
      arith,
      ap length e,
      length-append (nonnull n.key) (nonnull n.value ++ p ∷ qs),
      length-append (nonnull n.value) (p ∷ qs),
    )
