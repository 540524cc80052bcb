-- ===== src/Route/Poll.antt =====
-- core/route.go: `handleWatchRoute`, `stopRouteWatch` and `pollRoute`, each critical section a function.
use yu_clash.Prelude.{
  ℕ, Bool, false, none, some, List, [], ◌∷◌, ltb, if◌then◌else◌, inc64, ◌==◌, ◌+◌,
}
use yu_clash.Route.{
  RouteChange, RouteState, Snapshot, World, route_state, refresh_route, refresh_route_locked,
}

unfoldable pub remove : ℕ → List ℕ → List ℕ
remove n [] = []
remove n (x ∷ xs) = let rest = remove n xs in if x == n then rest else x ∷ rest

-- `stopRoutePollLocked`.
unfoldable pub stop_route_poll_locked : World → World
unfolding remove
stop_route_poll_locked w = elim w.tracker.stop_poll [
  | none ↦ w
  | some poller ↦ record w {
    tracker = record w.tracker { stop_poll = none };
    pollers = remove poller w.pollers;
  }
]

-- `if watch && currentRoute.stopPoll == nil`: a poller starts with a context of its own.
unfoldable pub start_route_poll_locked : World → World
start_route_poll_locked w = elim w.tracker.stop_poll [
  | none ↦ record w {
    tracker = record w.tracker { stop_poll = some w.next_poller };
    pollers = w.next_poller ∷ w.pollers;
    next_poller = w.next_poller + 1;
  }
  | some _ ↦ w
]

-- The critical section of `handleWatchRoute`; a call older than the newest one changes nothing.
unfoldable pub watch_route_locked : Bool → ℕ → World → World
unfolding stop_route_poll_locked start_route_poll_locked
watch_route_locked watch seq w =
    let w1 = record w { tracker = record w.tracker { watch_seq = seq; watched = watch } } in
    if ltb seq w.tracker.watch_seq
    then w
    else if watch
    then start_route_poll_locked w1
    else stop_route_poll_locked w1

unfoldable pub handle_watch_route : Bool → ℕ → Snapshot → World → World × RouteState
handle_watch_route watch seq s w =
    let w' = watch_route_locked watch seq (refresh_route s w) in (w', route_state w'.tracker)

-- `methodCallSeq.Add(1)`, by `dispatchMethodCall` and by `stopRouteWatch`.
unfoldable pub next_call_seq : World → World
next_call_seq w = record w { call_seq = inc64 w.call_seq }

unfoldable pub stop_route_watch : World → World
unfolding next_call_seq stop_route_poll_locked
stop_route_watch w =
    let w1 = next_call_seq w in
    let seq = if ltb w1.tracker.watch_seq w1.call_seq then w1.call_seq else w1.tracker.watch_seq in
    stop_route_poll_locked
      (record w1 { tracker = record w1.tracker { watch_seq = seq; watched = false } })

-- One tick of a poller: it refreshes while the listeners are up.
unfoldable pub tick : Bool → Snapshot → World → World
tick is_running s w = if is_running then refresh_route s w else w

-- The critical sections, in the order in which the locks let them run.
pub data Event : Type 0 where
  dispatches : Event
  refreshes : RouteChange → Snapshot → Event
  watches : Bool → ℕ → Event
  stops : Event
  ticks : Bool → Snapshot → Event

unfoldable pub step : Event → World → World
step dispatches w = next_call_seq w
step (refreshes change s) w = refresh_route_locked change s w
step (watches watch seq) w = watch_route_locked watch seq w
step stops w = stop_route_watch w
step (ticks is_running s) w = tick is_running s w

unfoldable pub run : List Event → World → World
run [] w = w
run (e ∷ es) w = run es (step e w)
