-- ===== src/ResultBuffer/Full.antt =====
-- Writing to a result buffer that holds a string and has no room for another and the terminator.
use erlxsl.Prelude.{
  take-all, ℕ, zero, suc, ◌+◌, ◌-◌, ◌^◌, ◌<◌, ◌≤◌, ◌≡◌, ◌≢◌, refl, sym, ap, subst, ◌∙◌, List, [],
  ◌∷◌, ◌++◌, append_assoc, Option, none, some, true, false, arith, length, take, replicate,
  length-append, length-replicate, eqb_ne, ltb, Bool-cases, inl, inr,
}
use erlxsl.Types.{Ptr, DriverIoVec, ReallocFunction, internal_realloc}
use erlxsl.Memory.{
  World, ok, fault, update, chars_block, iov_block, command_of, iov_of, chars_of, buffer_overflow,
}
use erlxsl.Memory.Steps.{load-at, store-live, driver_alloc-granted, drv_free-live}
use erlxsl.Memory.WellFormed.{WellFormed, allocated-lt, granted}
use erlxsl.CString.Laws.{
  IsText, StringAt, terminated, length-terminated, strlen-at, strcpy-overflows, strcat-overflows,
}
use erlxsl.Internal.{to_int32}
use erlxsl.ResultBuffer.{
  ensure_buffer, write_result_buffer, resize_result_buffer, driver_realloc, call_resize,
}
use erlxsl.ResultBuffer.Write.{
  ensure_buffer-room, ResultAt, Content, to_size-small, src-ne-res, res-ne-buf, cmd-ne-res,
  cmd-ne-buf, dirty-Content, clean_content, buffer_string,
}

ltb_lt : (a b : ℕ) → a < b → ltb a b ≡ true
ltb_lt a b h = ground arith

-- What is appended behind the contents of a buffer does not change the string.
Content-append :
    (d : erlxsl.Prelude.Bool) (bytes more : List (Option ℕ)) (s : List ℕ)
    → Content d bytes s
    → Content d (bytes ++ more) s
Content-append false bytes more s c = c
Content-append true bytes more s (rest, e, h) =
    (rest ++ more, ap (λ b. b ++ more) e ∙ append_assoc (terminated s) rest more, h)

module _ {w : World} {cmd res buf : Ptr} {capacity : ℕ} {s : List ℕ}
    (r : ResultAt w cmd res buf capacity s) (src : Ptr) (t : List ℕ) (rest : List (Option ℕ))
    (src_nz : src ≢ 0) (differ : buf ≢ src) (src_at : StringAt w src t rest)
    (is_text : IsText t) where
  -- A buffer that is as large as the two texts is written past its end by the terminator.
  write-exact :
      (u : World)
      → ensure_buffer src cmd u ≡ ok (buf, w)
      → capacity ≡ length s + length t
      → write_result_buffer src cmd u ≡ fault buffer_overflow
  unfolding write_result_buffer
  write-exact u e h = elim (Bool-cases r.v.dirty) [
    | inl dirty ↦
        let (room, c, old_text) = dirty-Content r src t rest src_nz differ src_at is_text dirty in
        rw (
          e,
          eqb_ne buf 0 r.buf_nz,
          load-at command_of cmd w _ r.c r.cmd_at refl,
          r.result_is,
          load-at iov_of res w _ r.v r.iov_at refl,
          dirty,
          r.payload_is,
          strcat-overflows buf src t rest w differ src_at is_text s room
              (buffer_string r src t rest src_nz differ src_at is_text room c) old_text
              (omega (
                arith,
                r.full,
                ap length c,
                length-append (terminated s) room,
                length-terminated s,
              )),
        )
    | inr clean ↦
        let empty : s ≡ [] = clean_content r src t rest src_nz differ src_at is_text clean in
        rw (
          e,
          eqb_ne buf 0 r.buf_nz,
          load-at command_of cmd w _ r.c r.cmd_at refl,
          r.result_is,
          load-at iov_of res w _ r.v r.iov_at refl,
          clean,
          store-live res (iov_block (record r.v { dirty = true })) w _ r.iov_at,
          r.payload_is,
          strcpy-overflows buf src t rest
              (record w {
                cells =
                    update w.cells res
                      (some (iov_block (record r.v { dirty = true; payload = buf })));
              })
              differ (ground (arith, src-ne-res r src t rest src_nz differ src_at is_text, src_at))
              is_text r.bytes
              (ground (arith, res-ne-buf r src t rest src_nz differ src_at is_text, r.bytes_at))
              (omega (arith, r.full, ap length empty)),
        )
  ]

  module _ (wf : WellFormed w) (over : capacity < length s + length t)
      (short : length s + length t < 2 ^ 31) where
    abbrev both : ℕ
    both = length s + length t

    abbrev sized_iov : DriverIoVec
    sized_iov = record r.v { size = both; payload = buf }

    abbrev sized : World
    sized = record w { cells = update w.cells res (some (iov_block sized_iov)) }

    abbrev moved_bytes : List (Option ℕ)
    moved_bytes = r.bytes ++ replicate (both - capacity) none

    abbrev moved : World
    moved = granted (chars_block moved_bytes) sized

    abbrev released : World
    released = record moved { cells = update moved.cells buf none }

    abbrev grown_iov : DriverIoVec
    grown_iov = record r.v { size = both; payload = w.next }

    abbrev grown : World
    grown = record released { cells = update released.cells res (some (iov_block grown_iov)) }

    buf_lt : buf < w.next
    buf_lt = allocated-lt w wf buf _ r.bytes_at

    res_lt : res < w.next
    res_lt = allocated-lt w wf res _ r.iov_at

    cmd_lt : cmd < w.next
    cmd_lt = allocated-lt w wf cmd _ r.cmd_at

    src_lt : src < w.next
    src_lt = allocated-lt w wf src _ src_at

    res-apart : res ≢ buf
    res-apart = res-ne-buf r src t rest src_nz differ src_at is_text

    cmd-apart : cmd ≢ buf
    cmd-apart = cmd-ne-buf r src t rest src_nz differ src_at is_text

    cmd-res-apart : cmd ≢ res
    cmd-res-apart = cmd-ne-res r src t rest src_nz differ src_at is_text

    to_int32-both : to_int32 both ≡ both
    to_int32-both = omega arith

    realloc-moves : w.grants w.next ≡ true → driver_realloc buf both sized ≡ ok (w.next, released)
    unfolding driver_realloc
    realloc-moves grant = rw (
      eqb_ne buf 0 r.buf_nz,
      load-at chars_of buf sized (chars_block r.bytes) r.bytes
          (ground (arith, res-apart, r.bytes_at)) refl,
      r.full,
      take-all both r.bytes (omega (arith, r.full)),
      driver_alloc-granted (chars_block moved_bytes) sized grant,
      eqb_ne w.next 0 wf.started,
      drv_free-live buf moved (chars_block r.bytes) r.buf_nz
          (ground (arith, buf_lt, res-apart, r.bytes_at)),
    )

    resize-moves :
        w.grants w.next ≡ true
        → (c : ReallocFunction) → call_resize c buf both sized ≡ ok (w.next, released)
    resize-moves grant internal_realloc = realloc-moves grant

    resize_result_buffer-moves :
        w.grants w.next ≡ true
        → (n : ℕ) → n ≡ both
        → resize_result_buffer n cmd w ≡ ok (w.next, grown)
    unfolding resize_result_buffer
    resize_result_buffer-moves grant n e = rw (
      e,
      load-at command_of cmd w _ r.c r.cmd_at refl,
      r.result_is,
      load-at iov_of res w _ r.v r.iov_at refl,
      to_int32-both,
      r.payload_is,
      store-live res (iov_block sized_iov) w _ r.iov_at,
      to_size-small both short,
      resize-moves grant r.c.resize,
      store-live res (iov_block grown_iov) released (iov_block sized_iov)
          (ground (arith, res_lt, res-apart)),
    )

    src-apart : src ≢ res
    src-apart e = src-ne-res r src t rest src_nz differ src_at is_text (sym e)

    ensure_buffer-moves : w.grants w.next ≡ true → ensure_buffer src cmd w ≡ ok (w.next, grown)
    unfolding ensure_buffer
    ensure_buffer-moves grant = elim (Bool-cases r.v.dirty) [
      | inl dirty ↦
          let (room, c, old_text) = dirty-Content r src t rest src_nz differ src_at is_text dirty in
          rw (
            eqb_ne cmd 0 r.cmd_nz,
            eqb_ne src 0 src_nz,
            load-at command_of cmd w _ r.c r.cmd_at refl,
            r.result_is,
            load-at iov_of res w _ r.v r.iov_at refl,
            dirty,
            r.payload_is,
            strlen-at buf s room w (buffer_string r src t rest src_nz differ src_at is_text room c)
                old_text,
            strlen-at src t rest w src_at is_text,
            r.size_is,
            to_size-small capacity r.small,
            ltb_lt capacity (length s + length t) over,
            resize_result_buffer-moves grant (length t + length s) (omega arith),
            dirty,
          )
      | inr clean ↦
          let empty : s ≡ [] = clean_content r src t rest src_nz differ src_at is_text clean in
          rw (
            eqb_ne cmd 0 r.cmd_nz,
            eqb_ne src 0 src_nz,
            load-at command_of cmd w _ r.c r.cmd_at refl,
            r.result_is,
            load-at iov_of res w _ r.v r.iov_at refl,
            clean,
            strlen-at src t rest w src_at is_text,
            r.size_is,
            to_size-small capacity r.small,
            ltb_lt capacity (length t) (omega (arith, over, ap length empty)),
            resize_result_buffer-moves grant (length t) (omega (arith, ap length empty)),
            clean,
          )
    ]

    grown-ResultAt : ResultAt grown cmd res w.next both s
    grown-ResultAt = record {
      c = r.c;
      v = grown_iov;
      bytes = moved_bytes;
      cmd_nz = r.cmd_nz;
      buf_nz = wf.started;
      cmd_at = ground (arith, cmd-apart, cmd-res-apart, cmd_lt, r.cmd_at);
      result_is = r.result_is;
      iov_at = ground (arith, res-apart);
      payload_is = refl;
      type_is = r.type_is;
      size_is = refl;
      small = short;
      bytes_at = ground (arith, buf_lt, res_lt);
      full = omega (
        arith,
        r.full,
        over,
        length-append r.bytes (replicate (both - capacity) none),
        length-replicate {A = Option ℕ} (both - capacity) none,
      );
      content = Content-append r.v.dirty r.bytes (replicate (both - capacity) none) s r.content;
    }

    src_after : StringAt grown src t rest
    src_after = ground (arith, src-apart, differ, src_lt, src_at)

    next-apart : w.next ≢ src
    next-apart = omega (arith, src_lt)

-- A write to a result buffer that cannot also hold the terminator behind the two texts, when they
-- are shorter than 2^31 together and memory is granted to a larger buffer, is a write past the
-- buffer's end: the buffer is made large enough for the two texts only.
pub write_result_buffer-full :
    {w : World} {cmd res buf : Ptr} {capacity : ℕ} {s : List ℕ}
    → WellFormed w
    → ResultAt w cmd res buf capacity s
    → (src : Ptr) (t : List ℕ) (rest : List (Option ℕ)) → src ≢ 0
    → buf ≢ src
    → StringAt w src t rest
    → IsText t
    → capacity ≤ length s + length t
    → length s + length t < 2 ^ 31
    → w.grants w.next ≡ true
    → write_result_buffer src cmd w ≡ fault buffer_overflow
write_result_buffer-full {w = w} {capacity = capacity} {s = s} wf r src t rest src_nz differ src_at
      is_text over short grant =
    elim (Bool-cases (ltb capacity (length s + length t))) [
      | inl strict ↦
          let more : capacity < length s + length t = ground (arith, strict) in
          write-exact (grown-ResultAt r src t rest src_nz differ src_at is_text wf more short) src t
            rest src_nz (next-apart r src t rest src_nz differ src_at is_text wf more short)
            (src_after r src t rest src_nz differ src_at is_text wf more short) is_text w
            (ensure_buffer-moves r src t rest src_nz differ src_at is_text wf more short grant) refl
      | inr level ↦
          let same : capacity ≡ length s + length t = ground (arith, level, over) in
          write-exact r src t rest src_nz differ src_at is_text w
            (ensure_buffer-room r src t rest src_nz differ src_at is_text (omega (arith, same)))
            same
    ]
