-- ===== src/Traffic/Served.antt =====
-- What a port shows to the processes that use it: each request is taken once, and answered at most
-- once, with the provider's answer to its own texts, to the process that asked.
use mathlib.Core.Path.{fun_ext}
use mathlib.Core.List.{map-append}
use erlxsl.Prelude.{
  ℕ, ◌+◌, ◌∙◌, ◌≡◌, ◌≢◌, refl, ap, List, [], ◌∷◌, ◌++◌, Option, none, some, ◌==◌, if◌then◌else◌,
  map, length, All, take, arith,
}
use erlxsl.Types.{
  Ptr, TermWord, erl_drv_atom, erl_drv_port, erl_drv_buf2binary, erl_drv_tuple, value,
}
use erlxsl.Memory.{Event, Block, Cells, chars_block, driver_failure, driver_async, driver_send_term}
use erlxsl.CString.Laws.{terminated}
use erlxsl.Driver.Reply.{reply_words}
use erlxsl.Driver.Returning.{reply_tag}
use erlxsl.Traffic.System.{Port, Call, Calls, Label, put, asked, replied, waiting, returned}

-- What the emulator makes of the driver's calls. `driver_send_term` takes a tuple of the three
-- elements that stand before it, and copies the bytes that a buffer holds at that moment; other words
-- are not a reply.
pub data Seen : Type 0 where
  failed : ℕ → Seen
  called : Ptr → Seen
  sent : ℕ → ℕ → ℕ → Option (List (Option ℕ)) → Seen
  unreadable : ℕ → Seen

pub record Request : Type 0 where
  pub caller : ℕ
  pub input : List ℕ
  pub stylesheet : List ℕ

abbrev bytes_at : ℕ → Option Block → Option (List (Option ℕ))
bytes_at size (some (chars_block b)) = some (take size b)
bytes_at size _ = none

abbrev seen_words : ℕ → List TermWord → Cells → Seen
seen_words pid
      (erl_drv_atom
        ∷ value tag
        ∷ erl_drv_port
        ∷ value port
        ∷ erl_drv_buf2binary
        ∷ value buf
        ∷ value size
        ∷ erl_drv_tuple
        ∷ value n
        ∷ [])
      m =
    if n == 3 then sent pid tag port (bytes_at size (m buf)) else unreadable pid
seen_words pid _ m = unreadable pid

abbrev pub seen : Event → Seen
seen (driver_failure port) = failed port
seen (driver_async asd) = called asd
seen (driver_send_term pid words m) = seen_words pid words m

-- What each label is to be seen as.
abbrev pub shown : Port → Label → Seen
shown p (asked n caller s t) = called (n + 6)
shown p (replied n caller s t) =
    sent caller (reply_tag p.em (p.state s t)) (p.em.driver_mk_port p.handle.port)
      (some (map some (p.answer s t)))

-- The address that a label's request goes by.
abbrev pub address : Label → Ptr
address (asked n caller s t) = n
address (replied n caller s t) = n

abbrev pub Pending : Type 0
Pending = Ptr → Option Request

abbrev pub pend : Pending → Ptr → Option Request → Pending
pend f n r m = if n == m then r else f m

-- A service's history, with the requests it has yet to answer: a request goes by an address that no
-- earlier one went by, and a reply is to a request that was taken and not yet answered.
pub data Served : List Label → Pending → Type 0 where
  idle : Served [] (λ n. none)
  takes :
      {ls : List Label} {f : Pending} (n : Ptr) (caller : ℕ) (s t : List ℕ)
      → Served ls f
      → All (λ l. address l ≢ n) ls
      → Served
          (ls ++ asked n caller s t ∷ [])
          (pend f n (some (record { caller = caller; input = s; stylesheet = t })))
  replies :
      {ls : List Label} {f : Pending} (n : Ptr) (caller : ℕ) (s t : List ℕ)
      → Served ls f
      → f n ≡ some (record { caller = caller; input = s; stylesheet = t })
      → Served (ls ++ replied n caller s t ∷ []) (pend f n none)

abbrev pub request_of : Option Call → Option Request
request_of none = none
request_of (some (waiting caller s t)) =
    some (record { caller = caller; input = s; stylesheet = t })
request_of (some (returned caller s t buf)) =
    some (record { caller = caller; input = s; stylesheet = t })

-- The requests of a port's calls.
abbrev pub pending : Calls → Pending
pending f n = request_of (f n)

pub pending-put :
    (f : Calls) (n : Ptr) (c : Option Call)
    → pending (put f n c) ≡ pend (pending f) n (request_of c)
pending-put f n c = fun_ext λ m. ground arith

pub pend-same : (f : Pending) (n : Ptr) (r : Option Request) → f n ≡ r → pend f n r ≡ f
pend-same f n r at = fun_ext λ m. ground arith

take-terminated :
    (x : List ℕ) (y : List (Option ℕ)) → take (length x) (terminated x ++ y) ≡ map some x
take-terminated [] y = refl
take-terminated (c ∷ x) y = ap (λ l. some c ∷ l) (take-terminated x y)

-- A reply's term is seen with the text that its buffer holds.
pub seen-reply :
    (pid tag port : ℕ) (buf : Ptr) (x : List ℕ) (more : List (Option ℕ)) (m : Cells)
    → m buf ≡ some (chars_block (terminated x ++ more))
    → seen (driver_send_term pid (reply_words tag port buf (length x)) m)
      ≡ sent pid tag port (some (map some x))
seen-reply pid tag port buf x more m at = rw (at, take-terminated x more) refl

-- One more event.
pub seen_more :
    (es : List Event) {fs : List Event} (e : Event) {x : Seen}
    → fs ≡ es ++ e ∷ []
    → seen e ≡ x
    → map seen fs ≡ map seen es ++ x ∷ []
seen_more es e more same = ap (map seen) more ∙ map-append seen es (e ∷ []) ∙ rw same refl
