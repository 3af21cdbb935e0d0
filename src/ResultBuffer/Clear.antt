-- ===== src/ResultBuffer/Clear.antt =====
-- Clearing a result buffer: `clear_result_buffer` of c_src/erlxsl.h.
use mathlib.Core.Path.{fun_ext}
use erlxsl.Prelude.{sym, ◌∙◌, ℕ, ◌≡◌, ◌≢◌, refl, ap, List, some, none, false, arith, eqb_ne}
use erlxsl.Types.{Ptr, DriverIoVec}
use erlxsl.Memory.{
  World, Cells, ok, update, iov_block, chars_block, command_block, command_of, iov_of,
}
use erlxsl.Memory.Steps.{load-at, store-live, drv_free-live, drv_free-null}
use erlxsl.Memory.WellFormed.{WellFormed, allocated-ne}
use erlxsl.ResultBuffer.{clear_result_buffer}
use erlxsl.ResultBuffer.Write.{ResultAt}

module _ {w : World} {cmd res buf : Ptr} {capacity : ℕ} {s : List ℕ} (wf : WellFormed w)
    (r : ResultAt w cmd res buf capacity s) where
  abbrev pub emptied_iov : DriverIoVec
  emptied_iov = record r.v { dirty = false; payload = 0 }

  abbrev unwritten : World
  unwritten = record w {
    cells = update w.cells res (some (iov_block (record r.v { dirty = false; payload = buf })));
  }

  abbrev freed : World
  freed = record unwritten { cells = update unwritten.cells buf none }

  abbrev cleared : World
  cleared = record freed { cells = update freed.cells res (some (iov_block emptied_iov)) }

  res-apart : res ≢ buf
  res-apart e = cc (ap w.cells e, r.iov_at, r.bytes_at)

  cmd-apart : cmd ≢ buf
  cmd-apart e = cc (ap w.cells e, r.cmd_at, r.bytes_at)

  cmd-res : cmd ≢ res
  cmd-res e = cc (ap w.cells e, r.cmd_at, r.iov_at)

  clear_result_buffer-frees : clear_result_buffer cmd w ≡ ok (tt, cleared)
  unfolding clear_result_buffer
  clear_result_buffer-frees = rw (
    eqb_ne cmd 0 r.cmd_nz,
    load-at command_of cmd w _ r.c r.cmd_at refl,
    r.result_is,
    eqb_ne res 0 (allocated-ne w wf res _ r.iov_at),
    load-at iov_of res w _ r.v r.iov_at refl,
    r.payload_is,
    store-live res (iov_block (record r.v { dirty = false; payload = buf })) w _ r.iov_at,
    drv_free-live buf unwritten (chars_block r.bytes) r.buf_nz
        (ground (arith, res-apart, r.bytes_at)),
    store-live res (iov_block emptied_iov) freed
        (iov_block (record r.v { dirty = false; payload = buf })) (ground (arith, res-apart)),
  )

  abbrev again : World
  again = record cleared {
    cells =
        update (update cleared.cells res (some (iov_block emptied_iov))) res
          (some (iov_block emptied_iov));
  }

  -- There is nothing to free the second time.
  clear_result_buffer-again : clear_result_buffer cmd cleared ≡ ok (tt, again)
  unfolding clear_result_buffer
  clear_result_buffer-again = rw (
    eqb_ne cmd 0 r.cmd_nz,
    load-at command_of cmd cleared (command_block r.c) r.c
        (ground (arith, cmd-apart, cmd-res, r.cmd_at)) refl,
    r.result_is,
    eqb_ne res 0 (allocated-ne w wf res _ r.iov_at),
    load-at iov_of res cleared (iov_block emptied_iov) emptied_iov (ground arith) refl,
    store-live res (iov_block emptied_iov) cleared (iov_block emptied_iov) (ground arith),
    drv_free-null
        (record cleared { cells = update cleared.cells res (some (iov_block emptied_iov)) }),
    store-live res (iov_block emptied_iov)
        (record cleared { cells = update cleared.cells res (some (iov_block emptied_iov)) })
        (iov_block emptied_iov) (ground arith),
  )

  -- The world in which the buffer is free, and the vector is not written and has no payload.
  abbrev pub emptied : World
  emptied = record w { cells = update (update w.cells res (some (iov_block emptied_iov))) buf none }

  cleared-emptied : cleared ≡ emptied
  cleared-emptied =
      ap (λ (f : Cells). record w { cells = f }) (fun_ext λ q. ground (arith, res-apart))

  again-cleared : again ≡ cleared
  again-cleared = ap (λ (f : Cells). record w { cells = f }) (fun_ext λ q. ground arith)

  -- Clearing the result of a command frees its buffer, and marks the vector as not written and
  -- without a payload, of the type and the size that it had; nothing else changes. To clear it once
  -- more meets no fault and changes nothing.
  pub clear_result_buffer_lem :
      (clear_result_buffer cmd w ≡ ok (tt, emptied))
      × (clear_result_buffer cmd emptied ≡ ok (tt, emptied))
  clear_result_buffer_lem = (
    clear_result_buffer-frees ∙ ap (λ (v : World). ok (tt, v)) cleared-emptied,
    ap (clear_result_buffer cmd) (sym cleared-emptied)
        ∙ clear_result_buffer-again
        ∙ ap (λ (v : World). ok (tt, v)) (again-cleared ∙ cleared-emptied),
  )
