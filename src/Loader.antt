-- ===== src/Loader.antt =====
-- Loading a provider's library: `load_library` and `init_provider` of c_src/erlxsl_internal.h, and
-- `stop_driver` of c_src/erlxsl.c. The dynamic linker and the library's entry point are parameters.
pub mod Name
pub mod Stop
pub mod Refused
use erlxsl.Prelude.{ℕ, zero, suc, List, [], ◌∷◌, Option, none, some, ◌==◌, if◌then◌else◌, ◌||◌}
use erlxsl.Types.{
  Ptr, DriverState, library_not_found, entry_point_not_found, init_failed, init_ok, out_of_memory,
  LoaderSpec, DriverHandle,
}
use erlxsl.Memory.{
  M, ◌>>=◌, ◌>>◌, pure, throw, defined, driver_alloc, drv_free, alloc_chars, store, load_loader,
  load_handle, load_engine, raw_block, loader_block, handle_block, invalid_access, null_call,
  indeterminate_value,
}
use erlxsl.CString.{c_string, strlen, strcpy, puts, log_string}
use erlxsl.Driver.{Provider}

-- `dlopen`, `dlsym` and `dlerror`, with NULL for a failure, `dlclose`, and what a library's entry
-- point does to an engine's table.
pub record DynamicLinker : Type 0 where
  pub dlopen : List ℕ → M Ptr
  pub dlsym : Ptr → List ℕ → M ℕ
  pub dlerror : M Ptr
  pub dlclose : Ptr → M (Unit {0})
  pub run_init : ℕ → Ptr → M (Unit {0})

-- "init_engine"
abbrev pub init_entry_point : List ℕ
init_entry_point = b'i' ∷ b'n' ∷ b'i' ∷ b't' ∷ b'_' ∷ b'e' ∷ b'n' ∷ b'g' ∷ b'i' ∷ b'n' ∷ b'e' ∷ []

-- Without a message of the linker's, `sprintf` writes through the NULL pointer that it left.
unfoldable pub set_dlerror : DynamicLinker → Ptr → M (Unit {0})
set_dlerror dl dest = do
  message ← dl.dlerror
  l ← load_loader dest
  store dest (loader_block (record l { error_message = some message }))
  if message == 0 then throw invalid_access else pure tt

unfoldable pub load_library : DynamicLinker → Ptr → M (Unit {0})
load_library dl dest = if dest == 0 then pure tt else (do
  l ← load_loader dest
  name ← defined l.name
  file ← c_string name
  library ← dl.dlopen file
  store dest (loader_block (record l { library = some library }))
  if library == 0 then set_dlerror dl dest else (do
    f ← dl.dlsym library init_entry_point
    store dest (loader_block (record l { library = some library; init_f = some f }))
    if f == 0 then set_dlerror dl dest else pure tt))

-- What is known of a library's specification before anything is assigned.
abbrev pub no_loader : LoaderSpec
no_loader = record { name = none; error_message = none; library = none; init_f = none }

unfoldable pub init_provider : DynamicLinker → Ptr → Ptr → M DriverState
init_provider dl drv buff = do
  engine ← driver_alloc raw_block
  lib ← driver_alloc raw_block
  if engine == 0 || lib == 0 then (do drv_free engine; drv_free lib; pure out_of_memory) else (do
    d ← load_handle drv
    store drv (handle_block (record d { loader = some lib }))
    n ← strlen buff
    name ← alloc_chars n
    store lib (loader_block (record no_loader { name = some name }))
    copied ← strcpy name buff
    load_library dl lib
    l ← load_loader lib
    library ← defined l.library
    if library == 0
        then (do message ← defined l.error_message; puts message; pure library_not_found)
        else (do
          f ← defined l.init_f
          if f == 0
              then (do message ← defined l.error_message; puts message; pure entry_point_not_found)
              else (do
                dl.run_init f engine
                if engine == 0 then pure init_failed else (do
                  d' ← load_handle drv
                  store drv (handle_block (record d' { engine = some engine }))
                  pure init_ok))))

-- A call through a function pointer that is NULL is a fault.
abbrev pub call_shutdown : Provider → Option ℕ → M (Unit {0})
call_shutdown provider none = throw indeterminate_value
call_shutdown provider (some zero) = throw null_call
call_shutdown provider (some (suc f)) = provider.run_shutdown (suc f)

unfoldable pub stop_driver : DynamicLinker → Provider → Ptr → M (Unit {0})
stop_driver dl provider drv_data = do
  d ← load_handle drv_data
  engine ← defined d.engine
  table ← load_engine engine
  call_shutdown provider table.shutdown
  d' ← load_handle drv_data
  loader ← defined d'.loader
  l ← load_loader loader
  name ← defined l.name
  log_string name
  library ← defined l.library
  dl.dlclose library
  drv_free engine
  drv_free loader
  drv_free drv_data
