-- ===== src/ResultBuffer/Overflow.antt =====
-- Writing to a result buffer that has to grow: the new block has no byte for the terminator.
use erlxsl.Prelude.{
  ℕ, ◌+◌, ◌^◌, ◌<◌, ◌≡◌, refl, List, Option, none, some, arith, ltb, length, length-replicate,
  replicate, eqb_ne, true, false,
}
use erlxsl.Types.{Ptr, Command, DriverIoVec, text}
use erlxsl.Memory.{
  World, Block, ok, fault, update, chars_block, command_block, iov_block, command_of, iov_of,
  buffer_overflow, ◌>>=◌,
}
use erlxsl.Memory.Steps.{load-at, store-live, driver_alloc-granted}
use erlxsl.Memory.WellFormed.{WellFormed, allocated-lt, allocated-ne, granted}
use erlxsl.CString.Laws.{IsText, StringAt, strlen-at, strcpy-overflows}
use erlxsl.Internal.{init_command, to_int32}
use erlxsl.Internal.Init.{init_command-granted, fresh_command, fresh_iov}
use erlxsl.ResultBuffer.{ensure_buffer, write_result_buffer, resize_result_buffer, driver_realloc}
use erlxsl.ResultBuffer.Write.{to_size-small}

abbrev uninitialised : ℕ → Block
uninitialised n = chars_block (replicate n none)

to_int32-small : (n : ℕ) → n < 2 ^ 31 → to_int32 n ≡ n
to_int32-small n h = omega arith

ltb_pos : (n : ℕ) → 0 < n → ltb 0 n ≡ true
ltb_pos n h = ground arith

module _ (command : Option (List ℕ)) (context task iov : Ptr) (w : World) (wf : WellFormed w)
    (src : Ptr) (t : List ℕ) (rest : List (Option ℕ)) (src_at : StringAt w src t rest)
    (is_text : IsText t) (nonempty : 0 < length t) (small : length t < 2 ^ 31)
    (grants : (n : ℕ) → w.grants n ≡ true) where
  src_lt : src < w.next
  src_lt = allocated-lt w wf src _ src_at

  -- The world with the command, and the world with the buffer that the write asks for.
  abbrev the_command : Command
  the_command = fresh_command command context task iov w

  abbrev commanded : World
  commanded = granted (iov_block (fresh_iov text 0 0)) (granted (command_block the_command) w)

  abbrev sized_iov : DriverIoVec
  sized_iov = record { dirty = false; type = text; size = length t; payload = 0 }

  abbrev grown_iov : DriverIoVec
  grown_iov = record { dirty = false; type = text; size = length t; payload = w.next + 1 + 1 }

  abbrev sized : World
  sized = record commanded {
    cells = update commanded.cells (w.next + 1) (some (iov_block sized_iov));
  }

  abbrev grown : World
  grown =
      let v = granted (uninitialised (length t)) sized in
      record v { cells = update v.cells (w.next + 1) (some (iov_block grown_iov)) }

  resize-fresh : resize_result_buffer (length t) w.next commanded ≡ ok (w.next + 1 + 1, grown)
  unfolding resize_result_buffer driver_realloc
  resize-fresh = rw (
    load-at command_of w.next commanded (command_block the_command) the_command (ground arith) refl,
    load-at iov_of (w.next + 1) commanded (iov_block (fresh_iov text 0 0)) (fresh_iov text 0 0)
        (ground arith) refl,
    to_int32-small (length t) small,
    store-live (w.next + 1) (iov_block sized_iov) commanded (iov_block (fresh_iov text 0 0))
        (ground arith),
    to_size-small (length t) small,
    driver_alloc-granted (uninitialised (length t)) sized (grants _),
    store-live (w.next + 1) (iov_block grown_iov) (granted (uninitialised (length t)) sized)
        (iov_block sized_iov) (ground arith),
  )

  ensure-fresh : ensure_buffer src w.next commanded ≡ ok (w.next + 1 + 1, grown)
  unfolding ensure_buffer
  ensure-fresh = rw (
    eqb_ne w.next 0 wf.started,
    eqb_ne src 0 (allocated-ne w wf src _ src_at),
    load-at command_of w.next commanded (command_block the_command) the_command (ground arith) refl,
    load-at iov_of (w.next + 1) commanded (iov_block (fresh_iov text 0 0)) (fresh_iov text 0 0)
        (ground arith) refl,
    strlen-at src t rest commanded (ground (arith, src_lt, src_at)) is_text,
    ltb_pos (length t) nonempty,
    resize-fresh,
  )

  -- With memory for everything, the first write to the result of a new command, of a text that is not
  -- empty and shorter than 2^31 bytes, writes past the end of the buffer that it allocates.
  pub write_result_buffer-overflows :
      (init_command command context task iov >>= write_result_buffer src) w ≡ fault buffer_overflow
  unfolding write_result_buffer
  write_result_buffer-overflows = rw (
    init_command-granted command context task iov w wf (grants _) (grants _),
    ensure-fresh,
    eqb_ne (w.next + 1 + 1) 0 (omega arith),
    load-at command_of w.next grown (command_block the_command) the_command (ground arith) refl,
    load-at iov_of (w.next + 1) grown (iov_block grown_iov) grown_iov (ground arith) refl,
    store-live (w.next + 1) (iov_block (record grown_iov { dirty = true })) grown
        (iov_block grown_iov) (ground arith),
    strcpy-overflows (w.next + 1 + 1) src t rest
        (record grown {
          cells =
              update grown.cells (w.next + 1)
                (some (iov_block (record grown_iov { dirty = true })));
        })
        (omega (arith, src_lt)) (ground (arith, src_lt, src_at)) is_text (replicate (length t) none)
        (ground arith) (omega (arith, length-replicate {A = Option ℕ} (length t) none)),
  )
