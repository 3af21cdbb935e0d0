-- ===== src/Internal/FreeCommand.antt =====
-- Freeing a whole command, with its task or vector and its result.
use erlxsl.Prelude.{
  ℕ, ◌≤◌, ◌≡◌, ◌≢◌, refl, ap, subst, ◌∙◌, List, [], ◌∷◌, ◌++◌, Option, some, arith, All,
  All-append_left, All-append_right, eqb_ne, Apart, Distinct, Apart-append_right, Apart-append_left,
  Apart-head, length, length-append,
}
use erlxsl.Types.{Ptr, Command, AsyncState}
use erlxsl.Memory.{
  Cells, World, Block, iov_block, document_block, parameter_block, task_block, command_block,
  async_block, ok, fault, M, ◌>>=◌, ◌>>◌, drv_free, task_of, command_of, async_of,
}
use erlxsl.Memory.Steps.{load-at}
use erlxsl.Memory.Blocks.{Frees, Frees-then, Frees-one, IsLive, without, drop_cells-frame}
use erlxsl.Internal.{
  free_iov, free_document, free_parameters, free_task, free_command, free_async_state,
}
use erlxsl.Internal.Owned.{
  IovAt, IovAt-same, DocumentAt, DocumentAt-same, TaskAt, a_task, CommandAt, a_transform,
  another_command,
}
use erlxsl.Internal.Free.{
  free_iov-Frees, free_document-Frees, free_parameters-Frees, SameAt-without,
}

-- A block outside the freed ones is still there.
kept :
    (ps : List Ptr) (w : World) (q : Ptr) {b : Option Block}
    → All (λ p. p ≢ q) ps
    → w.cells q ≡ b
    → (without ps w).cells q ≡ b
kept ps w q h e = drop_cells-frame ps w.cells q h ∙ e

document_kept :
    (ps qs : List Ptr) (w : World) (d : Ptr)
    → Apart ps qs
    → DocumentAt w.cells d qs
    → DocumentAt (without ps w).cells d qs
document_kept ps qs w d a h = DocumentAt-same w.cells _ d qs (SameAt-without ps qs w.cells a) h

iov_kept :
    (ps qs : List Ptr) (w : World) (v : Ptr)
    → Apart ps qs
    → IovAt w.cells v qs
    → IovAt (without ps w).cells v qs
iov_kept ps qs w v a h = IovAt-same w.cells _ v qs (SameAt-without ps qs w.cells a) h

pub free_task-Frees :
    (fuel : ℕ) {ps : List Ptr} (p : Ptr) (w : World)
    → TaskAt w.cells p ps
    → All (λ q. q ≢ p) ps
    → length ps ≤ fuel
    → Frees (free_task fuel p) ps w
unfolding free_task
free_task-Frees fuel p w (a_task parameters input xslt qs rs ss nz at prm doc doc' e) own b =
    rw (e, eqb_ne p 0 nz, load-at task_of p w _ _ at refl)
      (Frees-then (free_parameters fuel parameters) _ qs (rs ++ ss) w
        (free_parameters-Frees fuel parameters w prm
          (omega (arith, ap length e, length-append qs (rs ++ ss))))
        λ a.
          rw
            (load-at task_of p (without qs w) _ _ (kept qs w p (All-append_left _ qs _ own') at)
              refl)
            (Frees-then (free_document input) _ rs ss (without qs w)
              (free_document-Frees input (without qs w)
                (document_kept qs rs w input (Apart-append_left qs rs ss a) doc))
              λ a'.
                rw
                  (load-at task_of p (without rs (without qs w)) _ _
                    (kept rs (without qs w) p
                      (All-append_left _ rs ss (All-append_right _ qs _ own'))
                      (kept qs w p (All-append_left _ qs _ own') at))
                    refl)
                  (free_document-Frees xslt (without rs (without qs w)) (
                    document_kept rs ss (without qs w) xslt a'
                      (document_kept qs ss w xslt (Apart-append_right qs rs ss a) doc')))))
  where
    own' : All (λ q. q ≢ p) (qs ++ (rs ++ ss))
    own' = subst (All (λ q. q ≢ p)) e own

-- The result and the command's own block, once the command's data is gone.
free_rest :
    (c : Command) (qs rs : List Ptr) (p : Ptr) (w : World)
    → p ≢ 0
    → w.cells p ≡ some (command_block c)
    → IovAt w.cells c.result rs
    → (m : M (Unit {0})) → Frees m qs w
    → Frees
        (m >> (do c ← erlxsl.Memory.load_command p; free_iov c.result; drv_free p))
        (qs ++ (rs ++ p ∷ []))
        w
free_rest c qs rs p w nz at res m hm = Frees-then m _ qs (rs ++ p ∷ []) w hm λ a.
    rw
      (load-at command_of p (without qs w) _ c
        (kept qs w p (Apart-head qs p [] (Apart-append_right qs rs (p ∷ []) a)) at) refl)
      (Frees-then (free_iov c.result) (drv_free p) rs (p ∷ []) (without qs w)
        (free_iov-Frees c.result (without qs w)
          (iov_kept qs rs w c.result (Apart-append_left qs rs (p ∷ []) a) res))
        (λ _. Frees-one p (without rs (without qs w))))

pub free_command-Frees :
    (fuel : ℕ) (p : Ptr) (ps : List Ptr) (w : World)
    → CommandAt w.cells p ps
    → length ps ≤ fuel
    → Frees (free_command fuel p) ps w
unfolding free_command
free_command-Frees fuel p ps w (a_transform c qs rs nz at tr task own res e) b =
    rw (e, eqb_ne p 0 nz, load-at command_of p w _ c at refl, tr)
      (free_rest c qs rs p w nz at res (free_task fuel c.command_data) (
        free_task-Frees fuel c.command_data w task (All-append_left _ qs _ own)
          (omega (arith, ap length e, length-append qs (rs ++ p ∷ [])))))
free_command-Frees fuel p ps w (another_command c qs rs nz at other vec res e) b =
    rw (e, eqb_ne p 0 nz, load-at command_of p w _ c at refl, other)
      (free_rest c qs rs p w nz at res (free_iov c.command_data)
        (free_iov-Frees c.command_data w vec))

-- A command that is well formed in memory, and whose blocks are allocated and distinct, is freed
-- without a fault: each of its blocks goes once, and nothing else changes. The fuel covers the
-- parameters.
pub free_command_lem :
    (fuel : ℕ) (p : Ptr) (ps : List Ptr) (w : World)
    → CommandAt w.cells p ps
    → All (IsLive w.cells) ps
    → Distinct ps
    → length ps ≤ fuel
    → free_command fuel p w ≡ ok (tt, without ps w)
free_command_lem fuel p ps w c live distinct b = free_command-Frees fuel p ps w c b live distinct

-- An async handle goes with its command.
pub free_async_state-Frees :
    (fuel : ℕ) (p command : Ptr) (s : AsyncState) (ps : List Ptr) (w : World)
    → p ≢ 0
    → w.cells p ≡ some (async_block s)
    → s.command ≡ some command
    → CommandAt w.cells command ps
    → length ps ≤ fuel
    → Frees (free_async_state fuel p) (ps ++ p ∷ []) w
unfolding free_async_state
free_async_state-Frees fuel p command s ps w nz at has cmd b =
    rw (eqb_ne p 0 nz, load-at async_of p w _ s at refl, has)
      (Frees-then (free_command fuel command) (drv_free p) ps (p ∷ []) w
        (free_command-Frees fuel command ps w cmd b) (λ _. Frees-one p (without ps w)))
