-- ===== src/Tests/Traffic.antt =====
-- Two processes' requests at one port with the test engine, of which the later is answered first.
use erlxsl.Prelude.{◌≡◌, refl, [], ◌∷◌, ◌++◌, none, some, arith, map}
use erlxsl.Types.{engine_ok}
use erlxsl.Memory.{World, ok, ◌>>◌}
use erlxsl.Driver.{apply_transform, ready_async}
use erlxsl.Memory.WellFormed.{WellFormed}
use erlxsl.Driver.Submit.{outputv-submits, submitted}
use erlxsl.Driver.Contract.{test_engine-Serves}
use erlxsl.Traffic.System.{
  Port, System, Run, start, later, submits, asked, replied, calling, waiting, put,
}
use erlxsl.Traffic.Apart.{Orderly}
use erlxsl.Traffic.Served.{Served, pending, seen, called, sent}
use erlxsl.Traffic.Runs.{opened, Run-Orderly, Run-Served, Run-clears}
use erlxsl.Traffic.Progress.{Run-answers, Run-takes}
use erlxsl.Tests.{xml, xsl, spec}
use erlxsl.Tests.Requests.{emulator, vector, vector-InOrder_for}
use erlxsl.Tests.Sessions.{
  driver_handle, engine, test_engine, started, started-WellFormed, started-TestProvider,
}

abbrev port : Port
port = record {
  em = emulator;
  provider = test_engine;
  drv_data = 1;
  handle = driver_handle;
  state = λ s t. engine_ok;
  answer = λ s t. s ++ t;
  table = engine;
  fuel = 9;
}

abbrev first : World
first =
    submitted (calling emulator 77) 1 driver_handle vector spec xml xsl started started-WellFormed
      refl (vector-InOrder_for 77).readable (λ k. refl) (omega arith) (omega arith)

first-WellFormed : WellFormed first
first-WellFormed = record { null_free = refl; started = omega arith; fresh = λ p h. ground arith }

abbrev second : World
second =
    submitted (calling emulator 78) 1 driver_handle vector spec xml xsl first first-WellFormed refl
      (vector-InOrder_for 78).readable (λ k. refl) (omega arith) (omega arith)

abbrev both : System
both = record {
  world = second;
  calls = put (put (λ n. none) 3 (some (waiting 77 xml xsl))) 16 (some (waiting 78 xml xsl));
}

-- Both requests are taken.
both_taken : Run port (opened started) (asked 3 77 xml xsl ∷ asked 16 78 xml xsl ∷ []) both
both_taken =
    later
      (later start (
        submits 77 vector spec xml xsl (vector-InOrder_for 77) (omega arith) (
          outputv-submits (calling emulator 77) 1 driver_handle vector spec xml xsl started
            started-WellFormed refl (vector-InOrder_for 77).readable (λ k. refl) (omega arith)
            (omega arith))))
      (submits 78 vector spec xml xsl (vector-InOrder_for 78) (omega arith) (
        outputv-submits (calling emulator 78) 1 driver_handle vector spec xml xsl first
          first-WellFormed refl (vector-InOrder_for 78).readable (λ k. refl) (omega arith)
          (omega arith)))

-- The later request is answered first, and the earlier one waits on.
later_first :
    (v : World) × ((apply_transform test_engine 22 >> ready_async emulator test_engine 9 1 22)
        second
      ≡ ok (tt, v))
    × (map seen v.events ≡ called 9 ∷ called 22 ∷ sent 78 1 5 (some (map some (xml ++ xsl))) ∷ [])
    × Run port
        (opened started)
        (asked 3 77 xml xsl ∷ asked 16 78 xml xsl ∷ replied 16 78 xml xsl ∷ [])
        (record { world = v; calls = put both.calls 16 none })
later_first =
    Run-answers port (omega arith) started started-WellFormed refl
      (test_engine-Serves started-TestProvider) refl (λ k. refl) both_taken 16 78 xml xsl refl

Run-answers_example :
    (v : World) × ((apply_transform test_engine 22 >> ready_async emulator test_engine 9 1 22)
        second
      ≡ ok (tt, v))
    × (map seen v.events ≡ called 9 ∷ called 22 ∷ sent 78 1 5 (some (map some (xml ++ xsl))) ∷ [])
    × Run port
        (opened started)
        (asked 3 77 xml xsl ∷ asked 16 78 xml xsl ∷ replied 16 78 xml xsl ∷ [])
        (record { world = v; calls = put both.calls 16 none })
Run-answers_example =
    Run-answers port (omega arith) started started-WellFormed refl
      (test_engine-Serves started-TestProvider) refl (λ k. refl) both_taken 16 78 xml xsl refl

-- A third request is taken while two wait.
third_taken :
    (z : System) × Run port
      (opened started)
      (asked 3 77 xml xsl ∷ asked 16 78 xml xsl ∷ asked 29 77 xml xsl ∷ [])
      z
third_taken =
    Run-takes port (omega arith) started started-WellFormed refl
      (test_engine-Serves started-TestProvider) refl (λ k. refl) both_taken (vector-InOrder_for 77)
      (omega arith)

Run-Orderly_example : Orderly port both
Run-Orderly_example =
    Run-Orderly port (omega arith) started started-WellFormed refl
      (test_engine-Serves started-TestProvider) refl (λ k. refl) both_taken

Run-Served_example :
    Served
      (asked 3 77 xml xsl ∷ asked 16 78 xml xsl ∷ replied 16 78 xml xsl ∷ [])
      (pending (put both.calls 16 none))
    × (map seen later_first.0.events
        ≡ called 9 ∷ called 22 ∷ sent 78 1 5 (some (map some (xml ++ xsl))) ∷ [])
Run-Served_example =
    Run-Served port (omega arith) started started-WellFormed refl
      (test_engine-Serves started-TestProvider) refl (λ k. refl) later_first.3

-- The handle of the call that was answered is free.
Run-clears_example : later_first.0.cells 22 ≡ none
Run-clears_example =
    Run-clears port (omega arith) started started-WellFormed refl
      (test_engine-Serves started-TestProvider) refl (λ k. refl) later_first.3 16 78 xml xsl
      (asked 3 77 xml xsl ∷ asked 16 78 xml xsl ∷ []) [] 22 refl (omega arith) (omega arith)
      (omega arith) (omega arith)
