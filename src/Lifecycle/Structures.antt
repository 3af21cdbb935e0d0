-- ===== src/Lifecycle/Structures.antt =====
-- What the functions of c_src/erlxsl_internal.h that build and free structures keep.
use erlxsl.Prelude.{ℕ, zero, suc, List, Option}
use erlxsl.Types.{Ptr, Int32, DataFormat, InputType, PayloadSize, InputSpec}
use erlxsl.Memory.Keeps.{Quiet, keeps_rules}
use erlxsl.Internal.{
  init_iov, init_doc, free_iov, free_parameters, free_document, free_task, free_command,
  free_async_state, clear_task_fields, init_documents, init_task, init_command,
}

pub init_iov-Keeps : (t : DataFormat) (s : Int32) (p : Ptr) → Quiet (init_iov t s p)
unfolding init_iov
init_iov-Keeps t s p = search keeps_rules depth 24

pub init_doc-Keeps : (t : InputType) (s : Int32) (p : Ptr) → Quiet (init_doc t s p)
unfolding init_doc
init_doc-Keeps t s p = search (keeps_rules, init_iov-Keeps) depth 24

pub free_iov-Keeps : (p : Ptr) → Quiet (free_iov p)
unfolding free_iov
free_iov-Keeps p = search keeps_rules depth 24

free_parameters-Keeps : (fuel : ℕ) (p : Ptr) → Quiet (free_parameters fuel p)
unfolding free_parameters
free_parameters-Keeps zero p = search keeps_rules depth 24
free_parameters-Keeps (suc fuel) p = search (keeps_rules, free_parameters-Keeps fuel) depth 24

pub free_document-Keeps : (p : Ptr) → Quiet (free_document p)
unfolding free_document
free_document-Keeps p = search (keeps_rules, free_iov-Keeps) depth 24

free_task-Keeps : (fuel : ℕ) (p : Ptr) → Quiet (free_task fuel p)
unfolding free_task
free_task-Keeps fuel p = search (keeps_rules, free_parameters-Keeps, free_document-Keeps) depth 24

pub free_command-Keeps : (fuel : ℕ) (p : Ptr) → Quiet (free_command fuel p)
unfolding free_command
free_command-Keeps fuel p = search (keeps_rules, free_task-Keeps, free_iov-Keeps) depth 24

pub free_async_state-Keeps : (fuel : ℕ) (p : Ptr) → Quiet (free_async_state fuel p)
unfolding free_async_state
free_async_state-Keeps fuel p = search (keeps_rules, free_command-Keeps) depth 24

init_documents-Keeps :
    (task : Ptr) (sizes : PayloadSize) (spec : InputSpec) (xml xsl : Ptr)
    → Quiet (init_documents task sizes spec xml xsl)
unfolding init_documents
init_documents-Keeps task sizes spec xml xsl =
    search (keeps_rules, init_doc-Keeps, free_document-Keeps) depth 24

clear_task_fields-Keeps : (p : Ptr) → Quiet (clear_task_fields p)
unfolding clear_task_fields
clear_task_fields-Keeps p = search keeps_rules depth 24

pub init_task-Keeps : (task hsize hspec xml xsl : Ptr) → Quiet (init_task task hsize hspec xml xsl)
unfolding init_task
init_task-Keeps task hsize hspec xml xsl =
    search (keeps_rules, clear_task_fields-Keeps, init_documents-Keeps) depth 24

pub init_command-Keeps :
    (command : Option (List ℕ)) (context task iov : Ptr)
    → Quiet (init_command command context task iov)
unfolding init_command
init_command-Keeps command context task iov = search (keeps_rules, init_iov-Keeps) depth 24
