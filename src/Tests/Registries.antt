-- ===== src/Tests/Registries.antt =====
-- Runs of the registry (the tests of bastion-server/src/registry.rs), and its theorems on them.
use ephemwork.Prelude.{
  ℕ, suc, ◌≡◌, refl, sym, ◌↔◌, ◌≢◌, ◌≤◌, true, false, none, some, ok, err, contains,
}
use ephemwork.Text.{same, compare_text}
use ephemwork.BTreeMap.{get, insert, remove, values}
use ephemwork.Registry.{
  with_range, register, deregister, lookup, len, snapshot, exhausted, compose_key, allocate_port,
  first_free,
}
use ephemwork.Registry.Invariant.{WellFormed, with_range-WellFormed, register-WellFormed}
use ephemwork.Registry.Capacity.{register_fails_iff, capacity}
use ephemwork.Registry.Sessions.{register_lowest, lookup-register}
use ephemwork.Registry.Snapshot.{shown_port, shown_port-snapshot}
use ephemwork.Registry.Persistence.{save, load, load-save_registry}
use ephemwork.Tests.Examples.{
  alice, bob, carol, two_ports, one_session, full, registry_path, empty_disk, fair_weather,
}
use ephemwork.Tests.FlatCodec.{flat_codec, flat_codec-RoundTrips}

one_session_built : (register (with_range two_ports) alice).0 ≡ one_session
unfolding register compose_key allocate_port first_free get insert values with_range same
    compare_text
one_session_built = refl

full_built : (register one_session bob).0 ≡ full
unfolding register compose_key allocate_port first_free get insert values same compare_text
full_built = refl

pub one_session-WellFormed : WellFormed one_session
one_session-WellFormed =
    rw (sym one_session_built)
      (register-WellFormed (with_range two_ports) alice (with_range-WellFormed two_ports))

pub full-WellFormed : WellFormed full
full-WellFormed = rw (sym full_built) (register-WellFormed one_session bob one_session-WellFormed)

carol_absent : lookup one_session carol ≡ none
unfolding lookup compose_key get same
carol_absent = refl

carol_registers : (register one_session carol).1 ≡ ok 10001
unfolding register compose_key allocate_port first_free get insert values same compare_text
carol_registers = refl

alice_found : lookup one_session alice ≡ some 10000
unfolding lookup compose_key get same
alice_found = refl

-- A freed port is given out again.
freed_port : (register (deregister full alice).0 carol).1 ≡ ok 10000
unfolding register deregister remove compose_key allocate_port first_free get insert values same
    compare_text
freed_port = refl

register_fails_iff_example :
    ((register full carol).1 ≡ err (exhausted full.range (len full)))
    ↔ ((lookup full carol ≡ none) × (len full ≡ capacity full))
register_fails_iff_example = register_fails_iff full carol full-WellFormed

register_lowest_example :
    (one_session.range.start ≤ 10001)
    × (10001 ≤ one_session.range.end)
    × (contains (values one_session.entries) 10001 ≡ false)
    × ((q : ℕ)
        → one_session.range.start ≤ q
        → suc q ≤ 10001
        → contains (values one_session.entries) q ≡ true)
register_lowest_example = register_lowest one_session carol 10001 carol_absent carol_registers

lookup-register_example : lookup (register one_session carol).0 carol ≡ some 10001
lookup-register_example = lookup-register one_session carol 10001 carol_registers

register-WellFormed_example : WellFormed (register full carol).0
register-WellFormed_example = register-WellFormed full carol full-WellFormed

shown_port-snapshot_example : shown_port bob (snapshot full) ≡ lookup full bob
shown_port-snapshot_example = shown_port-snapshot full bob refl

load-save_registry_example :
    (((save flat_codec fair_weather full registry_path empty_disk).1 ≡ ok tt)
      → load flat_codec false registry_path
          (save flat_codec fair_weather full registry_path empty_disk).0
        ≡ ok full)
    × (((save flat_codec fair_weather full registry_path empty_disk).1 ≢ ok tt)
        → load flat_codec false registry_path
            (save flat_codec fair_weather full registry_path empty_disk).0
          ≡ load flat_codec false registry_path empty_disk)
load-save_registry_example =
    load-save_registry flat_codec fair_weather full registry_path empty_disk flat_codec-RoundTrips
      (cc)
