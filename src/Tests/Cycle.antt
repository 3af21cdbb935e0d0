-- ===== src/Tests/Cycle.antt =====
-- Building and freeing tasks and commands, on a small request.
use erlxsl.Prelude.{inl, ℕ, ◌≡◌, inr, refl, [], ◌∷◌, none, some, arith}
use erlxsl.Types.{success, out_of_memory, empty_buffer_error, text, PayloadSize}
use erlxsl.Memory.{
  World, ok, fault, invalid_free, update, raw_block, task_block, iov_block, command_block,
  payload_size_block,
}
use erlxsl.Memory.Blocks.{without}
use erlxsl.Memory.WellFormed.{granted, refused}
use erlxsl.Internal.{init_doc, init_task, init_command, free_command, transform_command}
use erlxsl.Internal.Owned.{another_command, an_iov}
use erlxsl.Internal.Init.{fresh_iov, fresh_command, init_command-leaks}
use erlxsl.Internal.InitTask.{
  cleared, no_text, with_task, init_task-granted, init_task-rejects, init_task-first_refused,
  init_task-second_refused, init_doc-Refuses,
}
use erlxsl.Internal.Cycle.{transform_cycle, transform_cycle_lem}
use erlxsl.Internal.FreeCommand.{free_command_lem}
use erlxsl.Tests.{
  request, request-TaskRequest, request-WellFormed, always, up_to, sizes, spec, nothing,
}

transform_cycle_example :
    transform_cycle 8 0 1 2 3 4 5 (request always)
    ≡ ok (
      success,
      record (request always) {
        next = 12;
        cells =
            update
              (update
                (update (request always).cells 1 (
                  some (
                    task_block
                      (record { input_doc = some 8; xslt_doc = some 10; parameters = some 0 }))))
                4
                none)
              5
              none;
      },
    )
transform_cycle_example =
    transform_cycle_lem (request-TaskRequest always) 0 8 (omega arith) (λ n. refl)

init_task-granted_example :
    init_task 1 2 3 4 5 (request always)
    ≡ ok (success, with_task 1 sizes spec 4 5 (cleared 1 (request always)))
init_task-granted_example = init_task-granted (request-TaskRequest always) (refl, refl) (refl, refl)

abbrev no_sizes : PayloadSize
no_sizes = record { input_size = 0; xsl_size = 4 }

abbrev empty_request : World
empty_request = record (request always) {
  cells = update (request always).cells 2 (some (payload_size_block no_sizes));
}

init_task-rejects_example :
    init_task 1 2 3 4 5 empty_request ≡ ok (empty_buffer_error, cleared 1 empty_request)
init_task-rejects_example =
    init_task-rejects empty_request 1 2 3 4 5 empty_buffer_error (cleared 1 empty_request)
      (no_text no_sizes (omega arith) refl (omega arith) (omega arith) refl (inl refl))

init_task-first_refused_example :
    (n : ℕ) × (init_task 1 2 3 4 5 (request (up_to 7))
      ≡ ok (
        out_of_memory,
        record (without (4 ∷ 5 ∷ []) (cleared 1 (request (up_to 7)))) { next = n },
      ))
init_task-first_refused_example =
    init_task-first_refused (request-TaskRequest (up_to 7)) (inr (refl, refl))

init_task-second_refused_example : init_task 1 2 3 4 5 (request (up_to 9)) ≡ fault invalid_free
init_task-second_refused_example =
    init_task-second_refused (request-TaskRequest (up_to 9)) (refl, refl) (inr (refl, refl))

init_doc-Refuses_example :
    (n : ℕ) × (init_doc 2 4 4 (request (up_to 7)) ≡ ok (0, record (request (up_to 7)) { next = n }))
init_doc-Refuses_example =
    init_doc-Refuses 2 4 4 (request (up_to 7)) (request-WellFormed (up_to 7)) (inr (refl, refl))

init_command-leaks_example :
    (init_command (some transform_command) 0 1 0 (request (up_to 7))
      ≡ ok (0, refused (granted raw_block (request (up_to 7)))))
    × ((refused (granted raw_block (request (up_to 7)))).cells 6 ≡ some raw_block)
    × ((request (up_to 7)).cells 6 ≡ none)
init_command-leaks_example =
    init_command-leaks (some transform_command) 0 1 0 (request (up_to 7))
      (request-WellFormed (up_to 7)) refl refl

-- A command for a vector at 2, with its result at 3.
abbrev small_command : World
small_command = record {
  next = 4;
  cells =
      update
        (update
          (update nothing 1 (
            some
              (command_block (record (fresh_command none 0 0 2 (request always)) { result = 3 }))))
          2 (some (iov_block (fresh_iov text 0 0))))
        3 (some (iov_block (fresh_iov text 0 0)));
  grants = always;
  events = [];
}

free_command_lem_example :
    free_command 3 1 small_command ≡ ok (tt, without (2 ∷ 3 ∷ 1 ∷ []) small_command)
free_command_lem_example =
    free_command_lem 3 1 (2 ∷ 3 ∷ 1 ∷ []) small_command
      (another_command (record (fresh_command none 0 0 2 (request always)) { result = 3 }) (2 ∷ [])
        (3 ∷ []) (omega arith) refl refl (an_iov (fresh_iov text 0 0) (omega arith) refl refl)
        (an_iov (fresh_iov text 0 0) (omega arith) refl refl) refl)
      (
        (iov_block (fresh_iov text 0 0), omega arith, refl),
        (
          (iov_block (fresh_iov text 0 0), omega arith, refl),
          (
            (
              command_block (record (fresh_command none 0 0 2 (request always)) { result = 3 }),
              omega arith,
              refl,
            ),
            tt,
          ),
        ),
      )
      (omega arith) (omega arith)
