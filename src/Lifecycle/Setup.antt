-- ===== src/Lifecycle/Setup.antt =====
-- What the loading of a provider, the commands by `call` and the end of the driver keep, with any
-- dynamic linker and provider that keep it.
use erlxsl.Prelude.{ℕ, zero, suc, List, Option, none, some}
use erlxsl.Types.{Ptr, DriverState, success, init_ok, out_of_memory, unknown_command}
use erlxsl.Memory.Keeps.{Quiet, keeps_rules, Quiet-bind}
use erlxsl.Ei.{Ei}
use erlxsl.Driver.{Provider}
use erlxsl.Loader.{
  DynamicLinker, set_dlerror, load_library, init_provider, call_shutdown, stop_driver,
}
use erlxsl.Call.{
  write_decoded, call_init, run_command, call_engine_command, run_call, loader_message, call_reply,
  call,
}
use erlxsl.Lifecycle.Structures.{init_iov-Keeps, init_command-Keeps}
use erlxsl.Lifecycle.Buffers.{
  c_string-Keeps, strlen-Keeps, strcpy-Keeps, log_string-Keeps, puts-Keeps,
}
use erlxsl.Lifecycle.Decoding.{write_text-Keeps, decode_ei_cmd-Keeps}
use erlxsl.Lifecycle.Requests.{ProviderKeeps}

-- A linker, and libraries, that use memory as the driver does.
pub record LinkerKeeps (dl : DynamicLinker) : Type 0 where
  pub dlopen : (file : List ℕ) → Quiet (dl.dlopen file)
  pub dlsym : (library : Ptr) (name : List ℕ) → Quiet (dl.dlsym library name)
  pub dlerror : Quiet dl.dlerror
  pub dlclose : (library : Ptr) → Quiet (dl.dlclose library)
  pub run_init : (f : ℕ) (engine : Ptr) → Quiet (dl.run_init f engine)

write_decoded-Keeps : (p : Ptr) (o : Option (ℕ × List ℕ)) → Quiet (write_decoded p o)
write_decoded-Keeps p none = search keeps_rules
write_decoded-Keeps p (some (index, s)) = write_text-Keeps p s

loader_message-Keeps : (ei : Ei) (drv_data : Ptr) → Quiet (loader_message ei drv_data)
loader_message-Keeps ei drv_data = search (keeps_rules, c_string-Keeps) depth 24

call_reply-Keeps :
    (ei : Ei) (drv_data : Ptr) (state : DriverState) → Quiet (call_reply ei drv_data state)
unfolding call_reply
call_reply-Keeps ei drv_data init_ok = search (keeps_rules, log_string-Keeps) depth 24
call_reply-Keeps ei drv_data success = search (keeps_rules, loader_message-Keeps) depth 24
call_reply-Keeps ei drv_data out_of_memory = search keeps_rules depth 24
call_reply-Keeps ei drv_data unknown_command = search keeps_rules depth 24
call_reply-Keeps ei drv_data _ = search (keeps_rules, loader_message-Keeps) depth 24

module _ (dl : DynamicLinker) (links : LinkerKeeps dl) where
  set_dlerror-Keeps : (dest : Ptr) → Quiet (set_dlerror dl dest)
  unfolding set_dlerror
  set_dlerror-Keeps dest =
      Quiet-bind dl.dlerror _ links.dlerror (λ message. search keeps_rules depth 24)

  load_library-Keeps : (dest : Ptr) → Quiet (load_library dl dest)
  unfolding load_library
  load_library-Keeps dest =
      search (keeps_rules, c_string-Keeps, links.dlopen, links.dlsym, set_dlerror-Keeps) depth 24

  init_provider-Keeps : (drv buff : Ptr) → Quiet (init_provider dl drv buff)
  unfolding init_provider
  init_provider-Keeps drv buff =
      search
        (keeps_rules, strlen-Keeps, strcpy-Keeps, load_library-Keeps, puts-Keeps, links.run_init)
        depth 60

  call_init-Keeps :
      (ei : Ei) (drv_data : Ptr) (buf : List ℕ) (index : ℕ)
      → Quiet (call_init ei dl drv_data buf index)
  unfolding call_init
  call_init-Keeps ei drv_data buf index =
      search (keeps_rules, write_decoded-Keeps, log_string-Keeps, init_provider-Keeps) depth 40

  module _ (provider : Provider) (keeps : ProviderKeeps provider) where
    call_shutdown-Keeps : (f : Option ℕ) → Quiet (call_shutdown provider f)
    call_shutdown-Keeps none = search keeps_rules
    call_shutdown-Keeps (some zero) = search keeps_rules
    call_shutdown-Keeps (some (suc f)) = keeps.run_shutdown (suc f)

    pub stop_driver-Keeps : (drv_data : Ptr) → Quiet (stop_driver dl provider drv_data)
    unfolding stop_driver
    stop_driver-Keeps drv_data =
        search (keeps_rules, call_shutdown-Keeps, log_string-Keeps, links.dlclose) depth 60

    run_command-Keeps : (f : ℕ) (cmd : Ptr) → Quiet (run_command provider f cmd)
    run_command-Keeps zero cmd = search keeps_rules
    run_command-Keeps (suc f) cmd = search (keeps_rules, keeps.run)

    call_engine_command-Keeps :
        (ei : Ei) (fuel : ℕ) (drv_data : Ptr) (buf : List ℕ) (index : ℕ)
        → Quiet (call_engine_command ei provider fuel drv_data buf index)
    unfolding call_engine_command
    call_engine_command-Keeps ei fuel drv_data buf index =
        search
          (keeps_rules, init_iov-Keeps, init_command-Keeps, decode_ei_cmd-Keeps, run_command-Keeps)
          depth 60

    run_call-Keeps :
        (ei : Ei) (fuel : ℕ) (drv_data : Ptr) (command : ℕ) (buf : List ℕ)
        → Quiet (run_call ei dl provider fuel drv_data command buf)
    unfolding run_call
    run_call-Keeps ei fuel drv_data command buf =
        search (keeps_rules, call_init-Keeps, call_engine_command-Keeps)

    pub call-Keeps :
        (ei : Ei) (fuel : ℕ) (drv_data : Ptr) (command : ℕ) (buf : List ℕ) (rlen : ℕ)
        → Quiet (call ei dl provider fuel drv_data command buf rlen)
    unfolding call
    call-Keeps ei fuel drv_data command buf rlen =
        search (keeps_rules, run_call-Keeps, call_reply-Keeps) depth 40
