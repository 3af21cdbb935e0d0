-- ===== src/Tests/Sessions.antt =====
-- A small request's whole way, with the test engine as the provider.
use erlxsl.Prelude.{
  ℕ, ◌≡◌, refl, List, [], ◌∷◌, ◌++◌, Option, none, some, arith, All, if◌then◌else◌, ◌==◌,
}
use erlxsl.Types.{DriverHandle, XslEngine}
use erlxsl.Memory.{
  World, Cells, ok, ◌>>◌, pure, update, handle_block, engine_block, chars_block, driver_async,
  driver_send_term,
}
use erlxsl.Memory.WellFormed.{WellFormed}
use erlxsl.CString.Laws.{terminated}
use erlxsl.TestEngine.{default_handle_transform, default_post_handle}
use erlxsl.Driver.{Provider, outputv, apply_transform, ready_async}
use erlxsl.Driver.Reply.{reply_words}
use erlxsl.Driver.Contract.{TestProvider, test_engine-Serves}
use erlxsl.Driver.Roundtrip.{roundtrip_lem, request_lem}
use erlxsl.Tests.{nothing, always, xml, xsl, spec}
use erlxsl.Tests.Requests.{emulator, vector, vector-InOrder}

abbrev pub driver_handle : DriverHandle
driver_handle = record { port = 5; logging_port = 0; engine = some 2; loader = some 0 }

abbrev pub engine : XslEngine
engine = record {
  command = some 0;
  transform = some 1;
  after_transform = some 2;
  shutdown = some 3;
  provider_data = none;
}

-- The first function is the test engine's transform; the others stand for the one called after it.
abbrev pub test_engine : Provider
test_engine = record {
  run = λ f cmd. if f == 1 then default_handle_transform cmd else default_post_handle cmd;
  run_shutdown = λ f. pure tt;
}

-- The driver's handle at 1, and its engine at 2.
abbrev pub started : World
started = record {
  next = 3;
  cells =
      update (update nothing 1 (some (handle_block driver_handle))) 2 (some (engine_block engine));
  grants = always;
  events = [];
}

pub started-WellFormed : WellFormed started
started-WellFormed = record { null_free = refl; started = omega arith; fresh = λ p h. ground arith }

abbrev pub started-TestProvider : TestProvider test_engine started driver_handle
started-TestProvider = record {
  engine = 2;
  table = engine;
  transform = 0;
  after = 1;
  engine_is = refl;
  engine_at = refl;
  transform_is = refl;
  after_is = refl;
  transforms = λ p v. refl;
  handles_after = λ p v. refl;
}

roundtrip_lem_example :
    (w' : World) × (m : Cells) × (buf : ℕ) × (y : List (Option ℕ)) × ((outputv emulator 1 vector
          >> (apply_transform test_engine 9 >> ready_async emulator test_engine 9 1 9))
        started
      ≡ ok (tt, w'))
    × (w'.events ≡ driver_async 9 ∷ driver_send_term 77 (reply_words 1 5 buf 8) m ∷ [])
    × (m buf ≡ some (chars_block (terminated (xml ++ xsl) ++ y)))
    × All (λ q. w'.cells q ≡ none) (5 ∷ 13 ∷ 12 ∷ 6 ∷ 15 ∷ 14 ∷ buf ∷ 11 ∷ 10 ∷ 9 ∷ [])
roundtrip_lem_example =
    roundtrip_lem emulator test_engine 1 driver_handle vector spec xml xsl started
      started-WellFormed refl vector-InOrder started-TestProvider (λ n. refl) (omega arith) 9
      (omega arith)

request_lem_example :
    (w' : World) × (m : Cells) × (buf : ℕ) × (y : List (Option ℕ)) × ((outputv emulator 1 vector
          >> (apply_transform test_engine 9 >> ready_async emulator test_engine 9 1 9))
        started
      ≡ ok (tt, w'))
    × (w'.events ≡ driver_async 9 ∷ driver_send_term 77 (reply_words 1 5 buf 8) m ∷ [])
    × (m buf ≡ some (chars_block (terminated (xml ++ xsl) ++ y)))
    × All (λ q. w'.cells q ≡ none) (5 ∷ 13 ∷ 12 ∷ 6 ∷ 15 ∷ 14 ∷ buf ∷ 11 ∷ 10 ∷ 9 ∷ [])
request_lem_example =
    request_lem emulator test_engine 1 driver_handle vector spec xml xsl started started-WellFormed
      refl vector-InOrder (test_engine-Serves started-TestProvider) (λ n. refl) (omega arith) 9
      (omega arith)
