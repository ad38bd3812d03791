-- ===== src/Tests/Bastion.antt =====
-- Runs of the bastion: the nginx configuration, the handlers and the server.
use ephemwork.Prelude.{
  ℕ, ◌≡◌, refl, ap, ◌∙◌, ◌≢◌, ◌⊎◌, all, true, false, none, some, List, [], ◌∷◌, ◌++◌, Result, ok,
  err,
}
use ephemwork.Text.Decimal.{decimal}
use ephemwork.Text.{
  Text, eq_ignore_ascii_case, codes, same, trim, is_ascii_alphanumeric, compare_text, trim_start,
  trim_end, is_whitespace,
}
use ephemwork.Text.Splitting.{split_once}
use ephemwork.BTreeMap.{get, insert, values}
use ephemwork.Storage.{save_json, replace_file, parent_ok, load_json, same_path}
use ephemwork.Registry.{
  Key, Registry, snapshot, snapshot_entries, split_key, compose_key, lookup, len, with_range,
  register, allocate_port, first_free,
}
use ephemwork.Registry.Invariant.{WellFormed}
use ephemwork.Registry.Capacity.{capacity}
use ephemwork.Registry.Persistence.{save, load}
use ephemwork.Nginx.{
  on_change, is_skip, run_status, render_config, reload, entry_lines, config_head, config_tail,
  check_entries, is_safe_identifier, safe_byte,
}
use ephemwork.Nginx.Publishing.{Fair, on_change_routes, on_change_atomic}
use ephemwork.Nginx.Safety.{is_safe_key, on_change_blocked}
use ephemwork.Nginx.Routing.Matching.{mapped, is_loadable}
use ephemwork.Nginx.Routing.{read_config, pairs, read-render}
use ephemwork.Protocol.{RegisterRequest, DeregisterRequest}
use ephemwork.Http.{Request}
use ephemwork.Handlers.{
  handle_register, handle_deregister, route, noop, dispatch, endpoint, answer_register,
}
use ephemwork.Handlers.Outcomes.{
  key_of, gone_key, Untouched, Registered, Gone, handle_register_outcomes,
  handle_deregister_outcomes,
}
use ephemwork.Handlers.Isolation.{route-WellFormed, route_isolated}
use ephemwork.Server.{Server, run, locked_route}
use ephemwork.Server.Exclusive.{fresh, run_exclusive}
use ephemwork.Server.Recovery.{Apart, stored, SavesAll, WasHeld, run_recovers, run_stores}
use ephemwork.Tests.Examples.{
  alice, bob, carol, post, two_ports, one_session, full, fair_weather, clean_exit, reloading,
  quiet_host, words, add_carol, drop_alice, server_config, always_fair, fresh_server,
}
use ephemwork.Tests.Registries.{one_session-WellFormed}
use ephemwork.Tests.FlatCodec.{flat_codec, flat_codec-RoundTrips, encode}

reloading-Fair : Fair fair_weather clean_exit reloading
unfolding parent_ok reload run_status same
reloading-Fair = record {
  parent = refl;
  writes = refl;
  renames = refl;
  active = refl;
  reloads = refl;
  named = cc;
}

full_safe : all (λ e. is_safe_key e.0) (snapshot full) ≡ true
unfolding snapshot snapshot_entries split_key split_once is_safe_identifier safe_byte
    is_ascii_alphanumeric is_safe_key
full_safe = refl

full_loadable : is_loadable (pairs (snapshot full)) ≡ true
unfolding is_loadable snapshot snapshot_entries split_key split_once eq_ignore_ascii_case
full_loadable = refl

on_change_routes_example :
    (text : Text) × ((on_change fair_weather clean_exit reloading full quiet_host).live ≡ some text)
    × ((v : Text) (k : Key) (p : ℕ)
        → is_safe_key k ≡ true
        → lookup full k ≡ some p
        → eq_ignore_ascii_case v (k.user ++ b':' ∷ k.service) ≡ true
        → mapped v (read_config text) ≡ some (codes "127.0.0.1:" ++ decimal p))
    × ((v : Text)
        → ((k : Key) (p : ℕ)
            → is_safe_key k ≡ true
            → lookup full k ≡ some p
            → eq_ignore_ascii_case v (k.user ++ b':' ∷ k.service) ≡ false)
        → mapped v (read_config text) ≡ none)
on_change_routes_example =
    on_change_routes fair_weather clean_exit reloading full quiet_host reloading-Fair full_safe
      full_loadable

on_change_atomic_example :
    (((on_change fair_weather clean_exit reloading full quiet_host).live ≡ quiet_host.live)
      ⊎ ((text : Text) × (render_config (snapshot full) ≡ ok text)
          × ((on_change fair_weather clean_exit reloading full quiet_host).live ≡ some text)
          × (is_skip reloading.reload_command ≡ false)))
    × (((on_change fair_weather clean_exit reloading full quiet_host).disk reloading.config_path
          ≡ quiet_host.disk reloading.config_path)
        ⊎ ((text : Text) × (render_config (snapshot full) ≡ ok text)
            × ((on_change fair_weather clean_exit reloading full quiet_host).disk
                  reloading.config_path
                ≡ some text)))
on_change_atomic_example = on_change_atomic fair_weather clean_exit reloading full quiet_host (cc)

abbrev spaced : Key
spaced = record { user = codes "al ice"; service = codes "api" }

abbrev with_spaced : Registry
with_spaced = record { range = two_ports; entries = (codes "al ice/api", 10000) ∷ [] }

spaced_unsafe : is_safe_key spaced ≡ false
unfolding is_safe_identifier safe_byte is_ascii_alphanumeric is_safe_key
spaced_unsafe = refl

spaced_found : lookup with_spaced spaced ≡ some 10000
unfolding lookup compose_key get same
spaced_found = refl

on_change_blocked_example :
    on_change fair_weather clean_exit reloading with_spaced quiet_host ≡ quiet_host
on_change_blocked_example =
    on_change_blocked fair_weather clean_exit reloading with_spaced quiet_host spaced 10000 refl
      spaced_unsafe spaced_found

abbrev one_line : List (Key × ℕ)
one_line = (alice, 10000) ∷ []

abbrev one_line_text : Text
one_line_text = config_head ++ (entry_lines one_line ++ config_tail)

one_line_rendered : render_config one_line ≡ ok one_line_text
unfolding render_config check_entries is_safe_identifier safe_byte is_ascii_alphanumeric is_safe_key
one_line_rendered = refl

alice_safe : is_safe_key alice ≡ true
unfolding is_safe_identifier safe_byte is_ascii_alphanumeric is_safe_key
alice_safe = refl

read-render_example : read_config one_line_text ≡ pairs one_line
read-render_example = read-render one_line one_line_text one_line_rendered

handle_register_outcomes_example :
    (((handle_register words noop add_carol one_session tt).response.status ≡ 400)
      × Untouched words noop one_session tt (handle_register words noop add_carol one_session tt))
    ⊎ ((q : RegisterRequest) × (words.register_from_slice add_carol.body ≡ ok q)
        × (trim q.user ≢ [])
        × (trim q.service ≢ [])
        × (Registered words noop (key_of q) tt (handle_register words noop add_carol one_session tt)
            ⊎ ((handle_register words noop add_carol one_session tt).response.status ≡ 503)
              × Untouched words noop one_session tt
                  (handle_register words noop add_carol one_session tt)
              × (lookup one_session (key_of q) ≡ none)
              × (len one_session ≡ capacity one_session)))
handle_register_outcomes_example =
    handle_register_outcomes words noop add_carol one_session tt one_session-WellFormed

handle_deregister_outcomes_example :
    (((handle_deregister words noop drop_alice one_session tt).response.status ≡ 400)
      × Untouched words noop one_session tt
          (handle_deregister words noop drop_alice one_session tt))
    ⊎ ((q : DeregisterRequest) × (words.deregister_from_slice drop_alice.body ≡ ok q)
        × Gone words noop
            (gone_key q)
            one_session
            tt
            (handle_deregister words noop drop_alice one_session tt))
handle_deregister_outcomes_example = handle_deregister_outcomes words noop drop_alice one_session tt

route-WellFormed_example : WellFormed (route words noop add_carol one_session tt).registry
route-WellFormed_example =
    route-WellFormed words noop add_carol one_session tt one_session-WellFormed

-- The key of the request that was read, and that of bob's session in place of an error.
abbrev key_read : Result Text RegisterRequest → Key
key_read (err e) = bob
key_read (ok q) = key_of q

abbrev key_dropped : Result Text DeregisterRequest → Key
key_dropped (err e) = bob
key_dropped (ok q) = gone_key q

carol_not_alice :
    (q : RegisterRequest)
    → words.register_from_slice add_carol.body ≡ ok q
    → compose_key (key_of q) ≢ compose_key alice
unfolding split_once compose_key same
carol_not_alice q h e =
    let absurdity : false ≡ true =
      ap (λ t. same t (codes "alice/api")) (ap (λ x. compose_key (key_read x)) h ∙ e) in
    cc

nobody_gone :
    (q : DeregisterRequest)
    → words.deregister_from_slice add_carol.body ≡ ok q
    → compose_key (gone_key q) ≢ compose_key alice
unfolding split_once compose_key same
nobody_gone q h e =
    let absurdity : false ≡ true =
      ap (λ t. same t (codes "alice/api")) (ap (λ x. compose_key (key_dropped x)) h ∙ e) in
    cc

route_isolated_example :
    lookup (route words noop add_carol one_session tt).registry alice ≡ lookup one_session alice
route_isolated_example =
    route_isolated words noop add_carol one_session tt alice carol_not_alice nobody_gone

files-Apart : Apart server_config
unfolding same_path same
files-Apart = record { not_config = refl; not_config_tmp = refl; named = cc }

saves_all : SavesAll flat_codec words server_config always_fair
unfolding save save_json replace_file parent_ok encode same
saves_all n r d = refl

fresh_stored :
    stored flat_codec words server_config always_fair fresh_server ≡ ok fresh_server.registry
unfolding load load_json with_range
fresh_stored = refl

abbrev two_requests : List Request
two_requests = add_carol ∷ drop_alice ∷ []

run_recovers_example :
    stored flat_codec words server_config always_fair
      (run flat_codec words server_config always_fair two_requests fresh_server)
    ≡ ok (run flat_codec words server_config always_fair two_requests fresh_server).registry
run_recovers_example =
    run_recovers flat_codec words server_config always_fair two_requests fresh_server
      flat_codec-RoundTrips files-Apart saves_all fresh_stored

run_stores_example :
    (r : Registry) × (stored flat_codec words server_config always_fair
        (run flat_codec words server_config always_fair two_requests fresh_server)
      ≡ ok r)
    × ((r ≡ fresh_server.registry)
        ⊎ WasHeld flat_codec words server_config always_fair r two_requests fresh_server)
run_stores_example =
    run_stores flat_codec words server_config always_fair two_requests fresh_server
      fresh_server.registry flat_codec-RoundTrips files-Apart fresh_stored

abbrev add_bob : Request
add_bob = post (codes "/register") (codes "bob web")

abbrev two_additions : List Request
two_additions = add_carol ∷ add_bob ∷ []

abbrev two_held : Server
two_held =
    run flat_codec words server_config always_fair two_additions
      (fresh two_ports (record { host = quiet_host; calls = 0 }))

carol_held : lookup two_held.registry carol ≡ some 10000
unfolding run locked_route route dispatch endpoint handle_register answer_register register lookup
    insert compose_key allocate_port first_free get values with_range split_once same compare_text
    trim trim_start trim_end is_whitespace
carol_held = refl

bob_held : lookup two_held.registry bob ≡ some 10001
unfolding run locked_route route dispatch endpoint handle_register answer_register register lookup
    insert compose_key allocate_port first_free get values with_range split_once same compare_text
    trim trim_start trim_end is_whitespace
bob_held = refl

carol_ne_bob : carol ≢ bob
unfolding same
carol_ne_bob e = let absurdity : true ≡ false = ap (λ k. same k.user (codes "carol")) e in cc

run_exclusive_example : ◌≢◌ {A = ℕ} 10000 10001
run_exclusive_example =
    run_exclusive flat_codec words server_config always_fair two_additions two_ports
      (record { host = quiet_host; calls = 0 }) carol bob 10000 10001 refl refl carol_ne_bob
      carol_held bob_held
