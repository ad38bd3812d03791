-- ===== src/Registry/Persistence.antt =====
-- The registry on disk: `save` and `load`. The JSON form of a registry is `serde_json`'s.
use ephemwork.Prelude.{◌≡◌, ◌≢◌, Bool, false, Result, ok, arith}
use ephemwork.Text.{codes}
use ephemwork.Storage.{FilePath, Disk, Weather, IoError, Codec, RoundTrips, save_json, load_json}
use ephemwork.Storage.Laws.{load-save, save_failed}
use ephemwork.Registry.{Registry, default_registry}

module _ (c : Codec Registry) where
  unfoldable pub save : Weather → Registry → FilePath → Disk → Disk × Result IoError (Unit {0})
  save w r path d = save_json c w path r d

  unfoldable pub load : Bool → FilePath → Disk → Result IoError Registry
  load fails path d = load_json c fails default_registry path d

  -- For a format that round-trips and a file whose extension is not json.tmp, a load after a save
  -- that succeeded gives the registry, and after a save that failed it gives what a load gave
  -- before.
  pub load-save_registry :
      (w : Weather) (r : Registry) (path : FilePath) (d : Disk)
      → RoundTrips c
      → path.extension ≢ codes "json.tmp"
      → (((save w r path d).1 ≡ ok tt) → load false path (save w r path d).0 ≡ ok r)
        × (((save w r path d).1 ≢ ok tt) → load false path (save w r path d).0 ≡ load false path d)
  unfolding save load load_json
  load-save_registry w r path d trips h = (
    load-save c w path r d default_registry trips h,
    λ failed. ground (arith, save_failed c w path r d h failed),
  )
