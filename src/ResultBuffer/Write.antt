-- ===== src/ResultBuffer/Write.antt =====
-- Writing to a result buffer that has room: the buffer is a string, and a write appends to it.
use mathlib.Core.Path.{fun_ext}
use erlxsl.Prelude.{
  inl, inr, ℕ, suc, ◌+◌, ◌^◌, ◌<◌, ◌≤◌, ◌≡◌, ◌≢◌, refl, sym, ap, subst, ◌∙◌, List, [], ◌++◌, Option,
  some, arith, ltb, length, length-append, drop, length-drop, All-append, eqb_ne, Bool, Bool-cases,
  true, false,
}
use erlxsl.Types.{Ptr, Command, DriverIoVec, text}
use erlxsl.Memory.{
  World, Cells, ok, update, chars_block, command_block, iov_block, command_of, iov_of,
}
use erlxsl.Memory.Steps.{load-at, store-live}
use erlxsl.CString.Laws.{
  IsText, StringAt, terminated, length-terminated, with_bytes, strlen-at, strcpy-fits, strcat-fits,
}
use erlxsl.ResultBuffer.{to_size, ensure_buffer, write_result_buffer}

-- The bytes of a clean buffer are anything, and it stands for the empty string.
abbrev pub Content : Bool → List (Option ℕ) → List ℕ → Type 0
Content false bytes s = s ≡ []
Content true bytes s = (rest : List (Option ℕ)) × (bytes ≡ terminated s ++ rest) × IsText s

-- The command's result buffer at `buf` has `capacity` bytes, as its vector at `res` says, and holds
-- the string `s`.
pub record ResultAt (w : World) (cmd res buf : Ptr) (capacity : ℕ) (s : List ℕ) : Type 0 where
  pub c : Command
  pub v : DriverIoVec
  pub bytes : List (Option ℕ)
  pub cmd_nz : cmd ≢ 0
  pub buf_nz : buf ≢ 0
  pub cmd_at : w.cells cmd ≡ some (command_block c)
  pub result_is : c.result ≡ res
  pub iov_at : w.cells res ≡ some (iov_block v)
  pub payload_is : v.payload ≡ buf
  pub type_is : v.type ≡ text
  pub size_is : v.size ≡ capacity
  pub small : capacity < 2 ^ 31
  pub bytes_at : w.cells buf ≡ some (chars_block bytes)
  pub full : length bytes ≡ capacity
  pub content : Content v.dirty bytes s

-- A size below 2^31 is not changed by its way through `Int32`.
pub to_size-small : (n : ℕ) → n < 2 ^ 31 → to_size n ≡ n
to_size-small n h = ground arith

pub ltb_ge : (a b : ℕ) → b ≤ a → ltb a b ≡ false
ltb_ge a b h = ground arith

module _ {w : World} {cmd res buf : Ptr} {capacity : ℕ} {s : List ℕ}
    (r : ResultAt w cmd res buf capacity s) (src : Ptr) (t : List ℕ) (rest : List (Option ℕ))
    (src_nz : src ≢ 0) (differ : buf ≢ src) (src_at : StringAt w src t rest)
    (is_text : IsText t) where
  pub dirty-Content : r.v.dirty ≡ true → Content true r.bytes s
  dirty-Content d = subst (λ d. Content d r.bytes s) d r.content

  pub clean_content : r.v.dirty ≡ false → s ≡ []
  clean_content d = subst (λ d. Content d r.bytes s) d r.content

  pub buffer_string :
      (room : List (Option ℕ)) → r.bytes ≡ terminated s ++ room → StringAt w buf s room
  buffer_string room e = r.bytes_at ∙ ap (λ (b : List (Option ℕ)). some (chars_block b)) e

  -- There is room, so the buffer stays where it is.
  pub ensure_buffer-room : length s + length t ≤ capacity → ensure_buffer src cmd w ≡ ok (buf, w)
  unfolding ensure_buffer
  ensure_buffer-room h = elim (Bool-cases r.v.dirty) [
    | inl dirty ↦
        let (room, e, old_text) = dirty-Content dirty in
        rw (
          eqb_ne cmd 0 r.cmd_nz,
          eqb_ne src 0 src_nz,
          load-at command_of cmd w _ r.c r.cmd_at refl,
          r.result_is,
          load-at iov_of res w _ r.v r.iov_at refl,
          dirty,
          r.payload_is,
          strlen-at buf s room w (buffer_string room e) old_text,
          strlen-at src t rest w src_at is_text,
          r.size_is,
          to_size-small capacity r.small,
          ltb_ge capacity (length s + length t) (omega arith),
        )
    | inr clean ↦ rw (
      eqb_ne cmd 0 r.cmd_nz,
      eqb_ne src 0 src_nz,
      load-at command_of cmd w _ r.c r.cmd_at refl,
      r.result_is,
      load-at iov_of res w _ r.v r.iov_at refl,
      clean,
      strlen-at src t rest w src_at is_text,
      r.size_is,
      to_size-small capacity r.small,
      ltb_ge capacity (length t) (omega arith),
      r.payload_is,
      eqb_ne buf 0 r.buf_nz,
    )
  ]

  -- The command, the vector and the buffer are three blocks, and the text is a fourth.
  pub cmd-ne-res : cmd ≢ res
  cmd-ne-res e = cc (ap w.cells e, r.cmd_at, r.iov_at)

  pub cmd-ne-buf : cmd ≢ buf
  cmd-ne-buf e = cc (ap w.cells e, r.cmd_at, r.bytes_at)

  pub res-ne-buf : res ≢ buf
  res-ne-buf e = cc (ap w.cells e, r.iov_at, r.bytes_at)

  pub src-ne-res : res ≢ src
  src-ne-res e = cc (ap w.cells e, r.iov_at, src_at)

  -- The world after the write: the vector is dirty and the buffer holds `bytes`.
  abbrev dirty_iov : DriverIoVec
  dirty_iov = record r.v { dirty = true; payload = buf }

  abbrev marked : World
  marked = record w { cells = update w.cells res (some (iov_block dirty_iov)) }

  abbrev written : List (Option ℕ) → World
  written bytes = with_bytes buf bytes marked

  abbrev appended : List (Option ℕ) → World
  appended bytes = with_bytes buf bytes w

  write-clean :
      r.v.dirty ≡ false
      → length s + length t < capacity
      → write_result_buffer src cmd w
        ≡ ok (buf, written (terminated t ++ drop (suc (length t)) r.bytes))
  unfolding write_result_buffer
  write-clean clean h = rw (
    ensure_buffer-room (omega (arith, h)),
    eqb_ne buf 0 r.buf_nz,
    load-at command_of cmd w _ r.c r.cmd_at refl,
    r.result_is,
    load-at iov_of res w _ r.v r.iov_at refl,
    clean,
    store-live res (iov_block (record r.v { dirty = true })) w _ r.iov_at,
    r.payload_is,
    strcpy-fits buf src t rest marked differ (ground (arith, src-ne-res, src_at)) is_text r.bytes
        (ground (arith, res-ne-buf, r.bytes_at)) (omega (arith, r.full)),
  )

  write-dirty :
      (room : List (Option ℕ))
      → r.bytes ≡ terminated s ++ room
      → IsText s
      → r.v.dirty ≡ true
      → length s + length t < capacity
      → write_result_buffer src cmd w
        ≡ ok (buf, appended (terminated (s ++ t) ++ drop (length t) room))
  unfolding write_result_buffer
  write-dirty room e old_text dirty h = rw (
    ensure_buffer-room (omega (arith, h)),
    eqb_ne buf 0 r.buf_nz,
    load-at command_of cmd w _ r.c r.cmd_at refl,
    r.result_is,
    load-at iov_of res w _ r.v r.iov_at refl,
    dirty,
    r.payload_is,
    strcat-fits buf src t rest w differ src_at is_text s room (buffer_string room e) old_text (
        omega (arith, r.full, ap length e, length-append (terminated s) room, length-terminated s)),
  )

  -- Only the vector and the buffer change.
  abbrev pub Frame : World → Type 0
  Frame w' = w' ≡ record w { cells = update (update w.cells res (w'.cells res)) buf (w'.cells buf) }

  -- Writing a text to a result buffer that has room for it and for the terminator appends the text
  -- to the string that the buffer holds, marks the buffer as written, and leaves it where it is,
  -- of the same size. Nothing else in memory changes.
  pub write_result_buffer-appends :
      length s + length t < capacity
      → (w' : World) × (write_result_buffer src cmd w ≡ ok (buf, w'))
        × ResultAt w' cmd res buf capacity (s ++ t)
        × Frame w'
  write_result_buffer-appends h = elim (Bool-cases r.v.dirty) [
    | inl dirty ↦
        let (room, e, old_text) = dirty-Content dirty in
        (
          appended (terminated (s ++ t) ++ drop (length t) room),
          write-dirty room e old_text dirty h,
          record {
            c = r.c;
            v = r.v;
            bytes = terminated (s ++ t) ++ drop (length t) room;
            cmd_nz = r.cmd_nz;
            buf_nz = r.buf_nz;
            cmd_at = ground (arith, cmd-ne-buf, r.cmd_at);
            result_is = r.result_is;
            iov_at = ground (arith, res-ne-buf, r.iov_at);
            payload_is = r.payload_is;
            type_is = r.type_is;
            size_is = r.size_is;
            small = r.small;
            bytes_at = ground arith;
            full = omega (
              arith,
              r.full,
              ap length e,
              length-append s t,
              length-append (terminated s) room,
              length-terminated s,
              length-append (terminated (s ++ t)) (drop (length t) room),
              length-terminated (s ++ t),
              length-drop (length t) room,
            );
            content =
                subst (λ d. Content d (terminated (s ++ t) ++ drop (length t) room) (s ++ t))
                  (sym dirty) (drop (length t) room, refl, All-append _ s t old_text is_text);
          },
          ap (λ (f : Cells). record w { cells = f }) (fun_ext λ q. ground arith),
        )
    | inr clean ↦ (
      written (terminated t ++ drop (suc (length t)) r.bytes),
      write-clean clean h,
      record {
        c = r.c;
        v = dirty_iov;
        bytes = terminated t ++ drop (suc (length t)) r.bytes;
        cmd_nz = r.cmd_nz;
        buf_nz = r.buf_nz;
        cmd_at = ground (arith, cmd-ne-buf, cmd-ne-res, r.cmd_at);
        result_is = r.result_is;
        iov_at = ground (arith, res-ne-buf);
        payload_is = refl;
        type_is = r.type_is;
        size_is = r.size_is;
        small = r.small;
        bytes_at = ground arith;
        full = omega (
          arith,
          r.full,
          length-append (terminated t) (drop (suc (length t)) r.bytes),
          length-terminated t,
          length-drop (suc (length t)) r.bytes,
        );
        content = rw (clean_content clean) (drop (suc (length t)) r.bytes, refl, is_text);
      },
      ap (λ (f : Cells). record w { cells = f }) (fun_ext λ q. ground arith),
    )
  ]

  pub Frame-same : (w' : World) → Frame w' → (q : Ptr) → q ≢ res → q ≢ buf → w'.cells q ≡ w.cells q
  Frame-same w' f q n m = ap (λ (v : World). v.cells q) f ∙ ground arith
