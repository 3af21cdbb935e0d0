-- ===== src/Call/Commands.antt =====
-- What becomes of a command that `call` gets.
use erlxsl.Prelude.{
  arith, false, ◌≤◌, ℕ, ◌≡◌, ◌≢◌, refl, List, Option, none, ltb, ◌==◌, ◌++◌, length, eqb_ne,
}
use erlxsl.Types.{Ptr, DriverState}
use erlxsl.Memory.{World, ok, fault, indeterminate_value}
use erlxsl.Memory.Answers.{Answers, Answers-run, Answers-pure, Answers-if, Answers-after}
use erlxsl.Ei.{Ei}
use erlxsl.Driver.{Provider}
use erlxsl.Loader.{DynamicLinker}
use erlxsl.Call.{
  call, call_reply, run_call, call_engine_command, init_command_code, engine_command_code,
  behind_version,
}

ltb-false : (a b : ℕ) → b ≤ a → ltb a b ≡ false
ltb-false a b h = ground arith

-- Nothing was assigned to the buffer that is freed in the end.
abbrev Unassigned : DriverState × Option Ptr → Type 0
Unassigned done = done.1 ≡ none

call_engine_command-Unassigned :
    (ei : Ei) (provider : Provider) (fuel : ℕ) (drv_data : Ptr) (buf : List ℕ) (index : ℕ)
    → Answers Unassigned (call_engine_command ei provider fuel drv_data buf index)
unfolding call_engine_command
call_engine_command-Unassigned ei provider fuel drv_data buf index =
    search (Answers-pure, Answers-if, Answers-after) depth 40

run_call-Unassigned :
    (ei : Ei) (dl : DynamicLinker) (provider : Provider) (fuel : ℕ) (drv_data : Ptr) (command : ℕ)
    (buf : List ℕ)
    → command ≢ init_command_code
    → Answers Unassigned (run_call ei dl provider fuel drv_data command buf)
unfolding run_call
run_call-Unassigned ei dl provider fuel drv_data command buf h =
    rw (eqb_ne command init_command_code h) (
      Answers-if (command == engine_command_code) _ _
        (call_engine_command-Unassigned ei provider fuel drv_data buf
          (behind_version (ei.decode_version buf 0)))
        (Answers-pure _ refl))

-- For any command but that for the provider's setup, `call` frees a pointer that nothing assigned,
-- whenever the command was run and the reply was made and fits the emulator's buffer: it ends in a
-- read of the pointer's value, whatever the buffer, the engine, the loader and memory are.
pub call-frees_unassigned :
    (ei : Ei) (dl : DynamicLinker) (provider : Provider) (fuel : ℕ) (drv_data : Ptr) (command : ℕ)
    (buf : List ℕ) (rlen : ℕ) (w v v' : World) (done : DriverState × Option Ptr) (reply : List ℕ)
    → command ≢ init_command_code
    → run_call ei dl provider fuel drv_data command buf w ≡ ok (done, v)
    → call_reply ei drv_data done.0 v ≡ ok (reply, v')
    → length (ei.encode_version ++ reply) ≤ rlen
    → call ei dl provider fuel drv_data command buf rlen w ≡ fault indeterminate_value
unfolding call
call-frees_unassigned ei dl provider fuel drv_data command buf rlen w v v' done reply h ran made
      fits =
    rw
      (
        ran,
        made,
        ltb-false rlen (length (ei.encode_version ++ reply)) fits,
        Answers-run (run_call-Unassigned ei dl provider fuel drv_data command buf h) w v done ran,
      )
      refl
