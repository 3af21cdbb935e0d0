-- ===== src/Tests/Decoding.antt =====
-- Decoding a small pair, and the commands of the test engine.
use erlxsl.Prelude.{
  false, ℕ, ◌≡◌, refl, inr, List, [], ◌∷◌, some, none, arith, length, if◌then◌else◌, ◌==◌,
}
use erlxsl.Types.{
  Command, DriverIoVec, CmdData, text, engine_ok, internal_alloc, internal_realloc, internal_free,
}
use erlxsl.Memory.{
  World, ok, fault, update, command_block, iov_block, items_block, chars_block, buffer_overflow,
}
use erlxsl.Memory.WellFormed.{WellFormed}
use erlxsl.Memory.Finishes.{Finished}
use erlxsl.CString.Laws.{terminated}
use erlxsl.Internal.{transform_command}
use erlxsl.Ei.{Ei, decode_ei_cmd, erl_small_tuple_ext, erl_atom_ext, erl_string_ext}
use erlxsl.Ei.Progress.{Advances, IsBehind, decode_ei_cmd-terminates}
use erlxsl.Ei.Overflow.{decode_ei_cmd-overflows}
use erlxsl.TestEngine.Commands.{default_command, default_command_lem, Tagged}
use erlxsl.Tests.{nothing, always}

-- A pair of the atom `ok` and the string `a`, in a format of its own: a type, a length, a text.
abbrev pub pair : List ℕ
pair = b'h' ∷ 2 ∷ b'd' ∷ 2 ∷ b'o' ∷ b'k' ∷ b'k' ∷ 1 ∷ b'a' ∷ []

-- It knows the terms of that buffer.
abbrev pub small_ei : Ei
small_ei = record {
  decode_version = λ buf i. none;
  get_type = λ buf i.
      if i == 0
      then some (erl_small_tuple_ext, 2)
      else if i == 2
      then some (erl_atom_ext, 2)
      else if i == 6
      then some (erl_string_ext, 1)
      else none;
  decode_tuple_header = λ buf i. if i == 0 then some (2, 2) else none;
  decode_atom = λ buf i. if i == 2 then some (6, b'o' ∷ b'k' ∷ []) else none;
  decode_string = λ buf i. if i == 6 then some (9, b'a' ∷ []) else none;
  encode_version = 131 ∷ [];
  encode_tuple_header = λ n. b'h' ∷ n ∷ [];
  encode_atom = λ s. b'd' ∷ length s ∷ s;
  encode_string = λ s. b'k' ∷ length s ∷ s;
}

small_ei-Advances : Advances small_ei pair
small_ei-Advances = record {
  tuple_header = λ i j arity e. ground (arith, e);
  atom = λ i j s e. ground (arith, e);
  string = λ i j s e. ground (arith, e);
}

abbrev command : Command
command = record {
  command_string = none;
  command_data = 2;
  result = 3;
  context = 0;
  alloc = internal_alloc;
  resize = internal_realloc;
  release = internal_free;
  async_state = 0;
}

abbrev iov : DriverIoVec
iov = record { dirty = false; type = text; size = 0; payload = 0 }

-- A command without items.
abbrev undecoded : World
undecoded = record {
  next = 4;
  cells =
      update (update (update nothing 1 (some (command_block command))) 2 (some (iov_block iov))) 3
        (some (iov_block iov));
  grants = always;
  events = [];
}

undecoded-WellFormed : WellFormed undecoded
undecoded-WellFormed = record {
  null_free = refl;
  started = omega arith;
  fresh = λ p h. ground arith;
}

decode_ei_cmd-terminates_example :
    Finished (IsBehind 0 pair) (decode_ei_cmd small_ei 10 1 pair 0 undecoded)
decode_ei_cmd-terminates_example =
    decode_ei_cmd-terminates small_ei pair small_ei-Advances 10 1 0 (omega arith) (omega arith)
      undecoded

decode_ei_cmd-overflows_example :
    decode_ei_cmd small_ei 2 1 pair 0 undecoded ≡ fault buffer_overflow
decode_ei_cmd-overflows_example =
    decode_ei_cmd-overflows undecoded-WellFormed 1 command iov refl refl refl small_ei pair
      (b'o' ∷ b'k' ∷ []) 0 2 2 2 6 refl refl refl refl (omega arith) (omega arith) refl refl refl 0

-- An item with the tag `transform`, and its payload, which is an answer for the transform.
abbrev answer_iov : DriverIoVec
answer_iov = record { dirty = false; type = text; size = 1; payload = 4 }

abbrev answer : CmdData
answer = record { tag = some 5; type = none; payload = some 6 }

abbrev answered : World
answered = record {
  next = 8;
  cells =
      update
        (update
          (update
            (update
              (update (update nothing 1 (some (command_block command))) 2
                (some (iov_block answer_iov)))
              4 (some (items_block (answer ∷ []))))
            5 (some (chars_block (terminated transform_command))))
          6 (some (chars_block (terminated (b'a' ∷ [])))))
        7 (some (chars_block (terminated (b'b' ∷ []))));
  grants = always;
  events = [];
}

answered-Tagged : Tagged answered 1 5 6 transform_command []
answered-Tagged = record {
  at = record {
    c = command;
    v = answer_iov;
    item = answer;
    items = [];
    cmd_at = refl;
    iov_at = refl;
    items_at = refl;
  };
  tag_is = refl;
  payload_is = refl;
  tag_at = refl;
  characters = omega arith;
}

default_command_lem_example :
    default_command 1 (0 ∷ 7 ∷ 0 ∷ 0 ∷ []) answered
    ≡ ok ((engine_ok, 0 ∷ 6 ∷ 0 ∷ 0 ∷ []), record answered { cells = update answered.cells 7 none })
default_command_lem_example =
    default_command_lem {buffer = 6} {s = transform_command} {rest = []} answered-Tagged 0 7
      (0 ∷ 0 ∷ []) (inr (omega arith, (chars_block (terminated (b'b' ∷ [])), refl)))

-- The command with the answer gets a second item, which stands at 8.
abbrev second : CmdData
second = record { tag = some 7; type = none; payload = none }

abbrev two_items : World
two_items = record answered {
  next = 9;
  cells = update answered.cells 8 (some (items_block (second ∷ [])));
}
