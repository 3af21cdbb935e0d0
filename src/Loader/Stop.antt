-- ===== src/Loader/Stop.antt =====
-- `stop_driver` of c_src/erlxsl.c, on a driver with a provider and on one without.
use erlxsl.Prelude.{
  ℕ, suc, ◌+◌, ◌≡◌, ◌≢◌, refl, ap, List, [], ◌∷◌, Option, some, none, arith, true, eqb_ne,
}
use erlxsl.Types.{Ptr, DriverHandle, XslEngine, LoaderSpec}
use erlxsl.Memory.{
  World, ok, fault, ◌>>=◌, update, raw_block, handle_block, engine_block, loader_block, handle_of,
  engine_of, loader_of, indeterminate_value,
}
use erlxsl.Memory.Blocks.{without}
use erlxsl.Memory.Steps.{load-at, store-live, driver_alloc-granted, drv_free-live}
use erlxsl.Memory.WellFormed.{WellFormed, allocated-ne, granted}
use erlxsl.CString.Laws.{IsText, StringAt, log_string-at}
use erlxsl.Driver.{Provider, start_driver}
use erlxsl.Loader.{DynamicLinker, stop_driver}

-- A driver that is stopped before a provider was set up calls the shutdown function of an engine that
-- nothing assigned: `start_driver` leaves that field as it is. There is memory for the handle, and
-- the port is not NULL.
pub stop_driver-unconfigured :
    (dl : DynamicLinker) (provider : Provider) (port : ℕ) (w : World)
    → WellFormed w
    → port ≢ 0
    → w.grants w.next ≡ true
    → (start_driver port >>= stop_driver dl provider) w ≡ fault indeterminate_value
unfolding start_driver stop_driver
stop_driver-unconfigured dl provider port w wf nz grant =
    let fresh : DriverHandle = record {
      port = port;
      logging_port = 0;
      engine = none;
      loader = none;
    } in
    rw (
      eqb_ne port 0 nz,
      driver_alloc-granted raw_block w grant,
      eqb_ne w.next 0 wf.started,
      store-live w.next (handle_block fresh) (granted raw_block w) raw_block (ground arith),
      load-at handle_of w.next
          (record w {
            next = w.next + 1;
            cells =
                update (update w.cells w.next (some raw_block)) w.next (some (handle_block fresh));
          })
          (handle_block fresh) fresh (ground arith) refl,
    )

-- A driver whose provider is set up: its handle leads to the engine's table and to the library.
pub record Configured (w : World) (drv engine loader name library : Ptr) (f : ℕ) (file : List ℕ)
    (rest : List (Option ℕ)) : Type 0 where
  pub wf : WellFormed w
  pub d : DriverHandle
  pub table : XslEngine
  pub l : LoaderSpec
  pub drv_at : w.cells drv ≡ some (handle_block d)
  pub engine_is : d.engine ≡ some engine
  pub engine_at : w.cells engine ≡ some (engine_block table)
  pub shutdown_is : table.shutdown ≡ some (suc f)
  pub loader_is : d.loader ≡ some loader
  pub loader_at : w.cells loader ≡ some (loader_block l)
  pub name_is : l.name ≡ some name
  pub name_at : StringAt w name file rest
  pub is_text : IsText file
  pub library_is : l.library ≡ some library

module _ (dl : DynamicLinker) (provider : Provider) {w : World}
    {drv engine loader name library : Ptr} {f : ℕ} {file : List ℕ} {rest : List (Option ℕ)}
    (r : Configured w drv engine loader name library f file rest) where
  engine-apart : engine ≢ loader
  engine-apart e = cc (ap w.cells e, r.engine_at, r.loader_at)

  engine-handle : engine ≢ drv
  engine-handle e = cc (ap w.cells e, r.engine_at, r.drv_at)

  loader-handle : loader ≢ drv
  loader-handle e = cc (ap w.cells e, r.loader_at, r.drv_at)

  engine-name : engine ≢ name
  engine-name e = cc (ap w.cells e, r.engine_at, r.name_at)

  loader-name : loader ≢ name
  loader-name e = cc (ap w.cells e, r.loader_at, r.name_at)

  drv-name : drv ≢ name
  drv-name e = cc (ap w.cells e, r.drv_at, r.name_at)

  -- A driver with a provider stops without a fault, if the provider's shutdown and `dlclose` return
  -- and leave memory as it is: the engine's table, the library's specification and the driver's
  -- handle are freed, each once, and nothing else changes. The block of the library's name, to which
  -- nothing points any more, stays allocated.
  pub stop_driver_lem :
      provider.run_shutdown (suc f) w ≡ ok (tt, w)
      → dl.dlclose library w ≡ ok (tt, w)
      → (stop_driver dl provider drv w ≡ ok (tt, without (engine ∷ loader ∷ drv ∷ []) w))
        × (World.cells (without (engine ∷ loader ∷ drv ∷ []) w) name ≡ w.cells name)
  unfolding stop_driver
  stop_driver_lem shut closed =
      let first : World = record w { cells = update w.cells engine none } in
      let second : World = record w { cells = update first.cells loader none } in
      (
        rw (
          load-at handle_of drv w _ r.d r.drv_at refl,
          r.engine_is,
          load-at engine_of engine w _ r.table r.engine_at refl,
          r.shutdown_is,
          shut,
          load-at handle_of drv w _ r.d r.drv_at refl,
          r.loader_is,
          load-at loader_of loader w _ r.l r.loader_at refl,
          r.name_is,
          log_string-at name file rest w r.name_at r.is_text (allocated-ne w r.wf name _ r.name_at),
          r.library_is,
          closed,
          drv_free-live engine w _ (allocated-ne w r.wf engine _ r.engine_at) r.engine_at,
          drv_free-live loader first (loader_block r.l) (allocated-ne w r.wf loader _ r.loader_at)
              (ground (arith, engine-apart, r.loader_at)),
          drv_free-live drv second (handle_block r.d) (allocated-ne w r.wf drv _ r.drv_at)
              (ground (arith, engine-handle, loader-handle, r.drv_at)),
        ),
        ground (arith, engine-name, loader-name, drv-name),
      )
