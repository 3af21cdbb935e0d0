-- ===== src/Traffic/System.antt =====
-- The port's memory and the asynchronous calls that the emulator has taken, and the steps that the
-- emulator takes: the driver's callbacks of c_src/erlxsl.c, each as one step.
use mathlib.Core.Path.{fun_ext}
use erlxsl.Prelude.{
  ℕ, ◌+◌, ◌^◌, ◌<◌, ◌≡◌, ◌≢◌, ◌⊎◌, arith, List, [], ◌∷◌, ◌++◌, Option, none, some, ◌==◌,
  if◌then◌else◌, length,
}
use erlxsl.Types.{Ptr, EngineState, InputSpec, DriverHandle, DriverIoVec, XslEngine}
use erlxsl.Memory.{World, ok, iov_block}
use erlxsl.Request.{ErlIoVec}
use erlxsl.Driver.{Emulator, Provider, outputv, apply_transform, ready_async}
use erlxsl.Driver.Submit.{InOrder}

-- One port, its provider with the table of its functions, and what the provider makes of two texts.
pub record Port : Type 1 where
  pub em : Emulator
  pub provider : Provider
  pub drv_data : Ptr
  pub handle : DriverHandle
  pub state : List ℕ → List ℕ → EngineState
  pub answer : List ℕ → List ℕ → List ℕ
  pub table : XslEngine
  pub fuel : ℕ

-- An asynchronous call that `driver_async` has taken for a process, with its input and its
-- stylesheet: it waits for a thread, or the thread has returned and its result stands at an address.
pub data Call : Type 0 where
  waiting : ℕ → List ℕ → List ℕ → Call
  returned : ℕ → List ℕ → List ℕ → Ptr → Call

-- The calls go by the first address that their request was given.
abbrev pub Calls : Type 0
Calls = Ptr → Option Call

pub record System : Type 0 where
  pub world : World
  pub calls : Calls

abbrev pub put : Calls → Ptr → Option Call → Calls
put f n c m = if n == m then c else f m

-- What a step shows: a request that was taken, or one that was answered, with its first address, its
-- process and its two texts.
pub data Label : Type 0 where
  asked : Ptr → ℕ → List ℕ → List ℕ → Label
  replied : Ptr → ℕ → List ℕ → List ℕ → Label

-- The emulator while it calls the driver for this process.
abbrev pub calling : Emulator → ℕ → Emulator
calling em caller = record em { driver_caller = λ port. caller }

-- The emulator calls the driver with a process's request, whose two texts are shorter than 2^31 bytes
-- together with a terminator, or runs a call that waits on a thread, or tells the driver that a call
-- has returned.
pub data Step (p : Port) : System → List Label → System → Type 0 where
  submits :
      (caller : ℕ) (ev : ErlIoVec) (spec : InputSpec) (s t : List ℕ) {y : System} {w : World}
      → InOrder (calling p.em caller) ev spec s t
      → length s + length t + 1 < 2 ^ 31
      → outputv (calling p.em caller) p.drv_data ev y.world ≡ ok (tt, w)
      → Step p y
          (asked y.world.next caller s t ∷ [])
          (record { world = w; calls = put y.calls y.world.next (some (waiting caller s t)) })
  transforms :
      (n : Ptr) (caller : ℕ) (s t : List ℕ) (v : DriverIoVec) {y : System} {w : World}
      → y.calls n ≡ some (waiting caller s t)
      → apply_transform p.provider (n + 6) y.world ≡ ok (tt, w)
      → w.cells (n + 8) ≡ some (iov_block v)
      → Step p y []
          (record { world = w; calls = put y.calls n (some (returned caller s t v.payload)) })
  answers :
      (n : Ptr) (caller : ℕ) (s t : List ℕ) (buf : Ptr) {y : System} {w : World}
      → y.calls n ≡ some (returned caller s t buf)
      → ready_async p.em p.provider p.fuel p.drv_data (n + 6) y.world ≡ ok (tt, w)
      → Step p y (replied n caller s t ∷ []) (record { world = w; calls = put y.calls n none })

-- A run from `x` that shows these labels and ends in `y`.
pub data Run (p : Port) (x : System) : List Label → System → Type 0 where
  start : Run p x [] x
  later :
      {ls : List Label} {y : System} {ms : List Label} {z : System}
      → Run p x ls y
      → Step p y ms z
      → Run p x (ls ++ ms) z

-- What a changed entry is, or else the old one at another address.
pub put-cases :
    (f : Calls) (n : Ptr) (v : Option Call) (m : Ptr) (c : Call)
    → put f n v m ≡ some c
    → ((n ≡ m) × (v ≡ some c)) ⊎ ((n ≢ m) × (f m ≡ some c))
put-cases f n v m c at = ground arith

-- The later of two changes at an address is what counts.
pub put-put : (f : Calls) (n : Ptr) (c d : Option Call) → put (put f n c) n d ≡ put f n d
put-put f n c d = fun_ext λ m. ground arith
