-- ===== src/Route/Examples.antt =====
-- The route's theorems at concrete inputs, and tests of its definitions.
use yu_clash.Prelude.{
  ℕ, zero, suc, ◌≤◌, ◌<◌, ◌≡◌, refl, String, true, false, Option, none, some, List, [], ◌∷◌, inc64,
  arith,
}
use yu_clash.Prelude.Maps.{lookup, insert}
use yu_clash.Route.{unchanged, moved, Snapshot, World, init, route_state, refresh_route_locked}
use yu_clash.Route.Refresh.{HasMaps, Settled, Moves, refresh_publishes}
use yu_clash.Route.Poll.{Event, dispatches, refreshes, watches, stops, ticks, stop_route_watch, run}
use yu_clash.Route.Watch.{HasOnePoller, run-HasOnePoller, newest_watch_wins, stop_is_final}
use yu_clash.Route.Order.{IsOrdered, run-IsOrdered}
use yu_clash.Route.Exits.{
  Tunnel, RouteHit, exit_through, exit_of_chains, handle_check_routes, resolve_exit, lookup_proxy,
}
use yu_clash.Route.Exits.Laws.{exit_of_chains-exit_through}
use yu_clash.Route.Exits.Check.{Answers, handle_check_routes_lem}

abbrev picked_node : Snapshot
picked_node = record {
  proxies = ("GLOBAL", some "node") ∷ ("node", none) ∷ [];
  providers = [];
  rule_providers = [];
}

abbrev watching : World
watching = record init {
  tracker = record init.tracker { watched = true; stop_poll = some 0 };
  pollers = 0 ∷ [];
}

init-HasMaps : HasMaps watching.tracker
init-HasMaps = record { picks = tt; versions = tt; rule_sets = tt }

refresh_publishes_example :
    (Moves moved picked_node watching.tracker
      → ((refresh_route_locked moved picked_node watching).tracker.version ≡ inc64 0)
        × ((refresh_route_locked moved picked_node watching).published
            ≡ route_state (refresh_route_locked moved picked_node watching).tracker ∷ []))
    × (moved ≡ unchanged
        → Settled picked_node watching.tracker
        → ((refresh_route_locked moved picked_node watching).tracker.version ≡ 0)
          × ((refresh_route_locked moved picked_node watching).published ≡ []))
    × ((refresh_route_locked moved picked_node watching).tracker.epoch ≡ 0)
refresh_publishes_example = refresh_publishes moved picked_node watching init-HasMaps

abbrev watch_twice : List Event
watch_twice =
    dispatches
    ∷ watches true 1
    ∷ refreshes moved picked_node
    ∷ ticks true picked_node
    ∷ watches true 2
    ∷ []

run-HasOnePoller_example : HasOnePoller (run watch_twice init)
run-HasOnePoller_example =
    run-HasOnePoller watch_twice init (record { watching = refl; running = refl })

newest_watch_wins_example :
    ((run (watches true 1 ∷ watches false 3 ∷ watches true 2 ∷ []) init).tracker.watched ≡ false)
    × ((run (watches true 1 ∷ watches false 3 ∷ watches true 2 ∷ []) init).tracker.watch_seq ≡ 3)
newest_watch_wins_example =
    newest_watch_wins (watches true 1 ∷ []) (watches true 2 ∷ []) false 3 init (omega arith)
      (omega arith) (omega arith)

stop_is_final_example :
    (run (watches true 0 ∷ stops ∷ []) (stop_route_watch init)).tracker.watched ≡ false
stop_is_final_example = stop_is_final (watches true 0 ∷ stops ∷ []) init (omega arith) (omega arith)

run-IsOrdered_example :
    IsOrdered (run watch_twice init)
    × (0 ≤ (run watch_twice init).tracker.version)
    × ((run watch_twice init).tracker.version ≤ 5)
run-IsOrdered_example = run-IsOrdered watch_twice init (omega arith) (omega arith)

-- A group "top" over the load balancer "lb" over "node".
abbrev step_down : ℕ → Option ℕ → Option ℕ
step_down zero m = none
step_down (suc n) m = some n

step_down_descends : (p : ℕ) (m : Option ℕ) (q : ℕ) → step_down p m ≡ some q → q < p
step_down_descends zero m q h = cc
step_down_descends (suc p) m q h = ground arith

abbrev names : ℕ → String
names zero = "node"
names (suc zero) = "lb"
names _ = "top"

abbrev three_hops : Tunnel
three_hops = record {
  Proxy = ℕ;
  Metadata = ℕ;
  all_proxies = ("top", 2) ∷ ("lb", 1) ∷ ("node", 0) ∷ [];
  set_remote_address = λ host. some 7;
  resolve_route = λ m. some (some 2);
  is_load_balance = λ p. elim p [ suc zero ↦ true | _ ↦ false ];
  unwrap = step_down;
  name = names;
  exit_name = names;
  depth = λ p. p;
  unwrap_descends = step_down_descends;
}

exit_of_chains-exit_through_example :
    exit_of_chains three_hops ("node" ∷ "lb" ∷ "top" ∷ [])
    ≡ exit_through three_hops (some 2) (some 7)
unfolding lookup_proxy lookup
exit_of_chains-exit_through_example =
    exit_of_chains-exit_through three_hops (some 7) 2 (1 ∷ 0 ∷ []) (refl, (refl, refl))
      (refl, (refl, (refl, tt)))

abbrev recorded : List (List RouteHit)
recorded =
    (record { host = "a:443"; proxy = ""; exit = "lb" }
      ∷ record { host = "a:443"; proxy = ""; exit = "lb" }
      ∷ [])
    ∷ (record { host = "b:443"; proxy = "node"; exit = "lb" } ∷ [])
    ∷ []
    ∷ []

handle_check_routes_lem_example :
    Answers (resolve_exit three_hops) recorded (handle_check_routes three_hops init recorded).held
    × ((handle_check_routes three_hops init recorded).core_epoch ≡ 0)
    × ((handle_check_routes three_hops init recorded).route_version ≡ 0)
handle_check_routes_lem_example = handle_check_routes_lem three_hops init recorded

held_at_recorded : (handle_check_routes three_hops init recorded).held ≡ true ∷ false ∷ false ∷ []
unfolding handle_check_routes resolve_exit exit_through lookup_proxy lookup insert
held_at_recorded = refl
