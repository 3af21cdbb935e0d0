-- ===== src/TestEngine/Transform.antt =====
-- The test engine's transform of a well-formed command.
use erlxsl.Prelude.{
  ℕ, ◌+◌, ◌%◌, ◌^◌, ◌<◌, ◌≡◌, ◌≢◌, refl, sym, ap, subst, leb, ◌∙◌, List, [], ◌++◌, Option, none,
  some, arith, true, false, length, length-replicate, replicate, eqb_ne,
}
use erlxsl.Types.{Ptr, DriverIoVec, text, engine_ok, AllocFunction, internal_alloc}
use mathlib.Core.Path.{fun_ext}
use erlxsl.Memory.{
  World, Cells, Block, ok, update, iov_block, chars_block, command_of, task_of, iov_of, alloc_chars,
}
use erlxsl.Memory.Steps.{load-at, store-live, driver_alloc-granted}
use erlxsl.Memory.WellFormed.{
  WellFormed, allocated-lt, allocated-ne, granted, granted-WellFormed, stored-WellFormed,
}
use erlxsl.Api.{get_task}
use erlxsl.ResultBuffer.{make_result_buffer, as_int32, to_size, call_alloc}
use erlxsl.ResultBuffer.Write.{
  ResultAt, Content, write_result_buffer-appends, Frame-same, to_size-small,
}
use erlxsl.TestEngine.{default_handle_transform}
use erlxsl.TestEngine.Documents.{
  TextDocument, TextDocument-same, TransformReady, get_doc_size-text, get_doc_buffer-text,
}

leb_gt : (n : ℕ) → n < 2 ^ 31 → leb (2 ^ 31) n ≡ false
leb_gt n h = ground arith

room_mod : (n : ℕ) → n < 2 ^ 31 → n % 2 ^ 32 ≡ n
room_mod n h = omega arith

call_alloc_lem : (f : AllocFunction) (n : ℕ) → call_alloc f n ≡ alloc_chars n
call_alloc_lem internal_alloc n = refl

module _ {w : World} {cmd res task doc doc' iov iov' buffer buffer' : Ptr} {s t : List ℕ}
    {rest rest' : List (Option ℕ)}
    (r : TransformReady w cmd res task doc doc' iov iov' buffer buffer' s t rest rest')
    (small : length s + length t + 1 < 2 ^ 31) (grant : w.grants w.next ≡ true) where
  cmd_nz : cmd ≢ 0
  cmd_nz = allocated-ne w r.wf cmd _ r.cmd_at

  res_lt : res < w.next
  res_lt = allocated-lt w r.wf res _ r.result_at

  res_nz : res ≢ 0
  res_nz = allocated-ne w r.wf res _ r.result_at

  cmd_lt : cmd < w.next
  cmd_lt = allocated-lt w r.wf cmd _ r.cmd_at

  cmd-ne-res : cmd ≢ res
  cmd-ne-res e = cc (ap w.cells e, r.cmd_at, r.result_at)

  get_task-transform : get_task cmd w ≡ ok (task, w)
  unfolding get_task
  get_task-transform =
      rw (
        eqb_ne cmd 0 cmd_nz,
        load-at command_of cmd w _ r.c r.cmd_at refl,
        r.is_transform,
        r.task_is,
      )

  -- The size of the buffer: both texts and the terminator.
  abbrev room : ℕ
  room = length s + length t + 1

  abbrev sized_iov : DriverIoVec
  sized_iov = record r.v { type = text; size = room }

  abbrev sized : World
  sized = record w { cells = update w.cells res (some (iov_block sized_iov)) }

  abbrev made : World
  made =
      let v = granted (chars_block (replicate room none)) sized in
      record v {
        cells = update v.cells res (some (iov_block (record sized_iov { payload = w.next })));
      }

  make_result_buffer-room : make_result_buffer (as_int32 room) cmd w ≡ ok (w.next, made)
  unfolding make_result_buffer
  make_result_buffer-room = rw (
    eqb_ne cmd 0 cmd_nz,
    eqb_ne room 0 (omega arith),
    leb_gt room small,
    load-at command_of cmd w _ r.c r.cmd_at refl,
    r.result_is,
    eqb_ne res 0 res_nz,
    load-at iov_of res w _ r.v r.result_at refl,
    store-live res (iov_block sized_iov) w _ r.result_at,
    call_alloc_lem r.c.alloc (to_size room),
    to_size-small room small,
    driver_alloc-granted (chars_block (replicate room none)) sized grant,
    store-live res (iov_block (record sized_iov { payload = w.next }))
        (granted (chars_block (replicate room none)) sized) (iov_block sized_iov)
        (ground (arith, res_lt)),
  )

  made-ResultAt : ResultAt made cmd res w.next room []
  made-ResultAt = record {
    c = r.c;
    v = record sized_iov { payload = w.next };
    bytes = replicate room none;
    cmd_nz = cmd_nz;
    buf_nz = r.wf.started;
    cmd_at = ground (arith, cmd_lt, cmd-ne-res, r.cmd_at);
    result_is = r.result_is;
    iov_at = ground (arith, res_lt);
    payload_is = refl;
    type_is = refl;
    size_is = refl;
    small = small;
    bytes_at = ground (arith, res_lt);
    full = length-replicate {A = Option ℕ} room none;
    content = subst (λ d. Content d (replicate room none) []) (sym r.clean) refl;
  }

  made_same : (q : Ptr) → q ≢ res → q < w.next → made.cells q ≡ w.cells q
  made_same q n l = ground arith

  -- A document's blocks are not the result's.
  document_made :
      {d i b : Ptr} {x : List ℕ} {y : List (Option ℕ)}
      → TextDocument w d i b x y
      → i ≢ res
      → TextDocument made d i b x y
  document_made {d} {i} {b} h n =
      TextDocument-same made h
        (made_same d (λ e. cc (ap w.cells e, h.doc_at, r.result_at))
          (allocated-lt w r.wf d _ h.doc_at))
        (made_same i n (allocated-lt w r.wf i _ h.iov_at))
        (made_same b (λ e. cc (ap w.cells e, h.text_at, r.result_at))
          (allocated-lt w r.wf b _ h.text_at))

  made-WellFormed : WellFormed made
  made-WellFormed =
      stored-WellFormed res _ (iov_block sized_iov)
        (granted (chars_block (replicate room none)) sized)
        (granted-WellFormed _ _ (stored-WellFormed res _ (iov_block r.v) w r.wf r.result_at))
        (ground (arith, res_lt))

  input_made : TextDocument made doc iov buffer s rest
  input_made = document_made r.input r.input_iov_apart

  xslt_made : TextDocument made doc' iov' buffer' t rest'
  xslt_made = document_made r.xslt r.xslt_iov_apart

  buffer_lt : buffer < w.next
  buffer_lt = allocated-lt w r.wf buffer _ r.input.text_at

  buffer'_lt : buffer' < w.next
  buffer'_lt = allocated-lt w r.wf buffer' _ r.xslt.text_at

  -- A world with another vector at the result's address and another buffer at the fresh one.
  abbrev pub with_result : Option Block → Option Block → World
  with_result iov bytes = record w {
    next = w.next + 1;
    cells = update (update w.cells res iov) w.next bytes;
  }

  two_writes :
      (w₁ w₂ : World)
      → w₁ ≡ record made {
        cells = update (update made.cells res (w₁.cells res)) w.next (w₁.cells w.next);
      }
      → w₂
        ≡ record w₁ { cells = update (update w₁.cells res (w₂.cells res)) w.next (w₂.cells w.next) }
      → w₂ ≡ with_result (w₂.cells res) (w₂.cells w.next)
  two_writes w₁ w₂ f g =
      g
      ∙ ap
          (λ (v : World). record v {
            cells = update (update v.cells res (w₂.cells res)) w.next (w₂.cells w.next);
          })
          f
      ∙ ap (λ (k : Cells). record w { next = w.next + 1; cells = k }) (fun_ext λ q. ground arith)

  -- The transform of a well-formed command succeeds, with memory for the result's buffer, if the two
  -- texts and a terminator are below 2^31 bytes together, so that their size is an `Int32`: the
  -- result is one string, the input document followed by the stylesheet, in a buffer that is
  -- exactly large enough for it and its terminator. Nothing but the result's vector and this buffer
  -- changes.
  pub default_handle_transform_lem :
      (w' : World) × (default_handle_transform cmd w ≡ ok (engine_ok, w'))
      × ResultAt w' cmd res w.next room (s ++ t)
      × (w' ≡ with_result (w'.cells res) (w'.cells w.next))
  unfolding default_handle_transform
  default_handle_transform_lem =
      let (w₁, e₁, r₁, same₁) =
        write_result_buffer-appends made-ResultAt buffer s rest
          (allocated-ne w r.wf buffer _ r.input.text_at) (omega (arith, buffer_lt))
          input_made.text_at r.input.characters (omega arith) in
      let (w₂, e₂, r₂, same₂) =
        write_result_buffer-appends r₁ buffer' t rest'
          (allocated-ne w r.wf buffer' _ r.xslt.text_at) (omega (arith, buffer'_lt))
          (Frame-same made-ResultAt buffer s rest (allocated-ne w r.wf buffer _ r.input.text_at)
              (omega (arith, buffer_lt)) input_made.text_at r.input.characters w₁ same₁ buffer'
              (λ e. cc (ap w.cells e, r.xslt.text_at, r.result_at)) (omega (arith, buffer'_lt))
            ∙ xslt_made.text_at)
          r.xslt.characters (omega arith) in
      (
        w₂,
        rw (
          get_task-transform,
          load-at task_of task w _ r.tk r.task_at refl,
          r.input_is,
          r.xslt_is,
          get_doc_size-text r.wf r.input,
          get_doc_size-text r.wf r.xslt,
          room_mod room small,
          make_result_buffer-room,
          eqb_ne w.next 0 r.wf.started,
          get_doc_buffer-text made-WellFormed input_made,
          get_doc_buffer-text made-WellFormed xslt_made,
          e₁,
          eqb_ne w.next 0 r.wf.started,
          e₂,
          eqb_ne w.next 0 r.wf.started,
        ),
        r₂,
        two_writes w₁ w₂ same₁ same₂,
      )
