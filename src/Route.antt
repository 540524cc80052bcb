-- ===== src/Route.antt =====
-- core/route.go: the route tracker. This file has the tracker, the world that its operations run in
-- and `refreshRouteLocked`; `Poll` has the watch and the poller, `Exits` the exits of routes, and the
-- other children have the proofs.
pub mod Refresh
pub mod Poll
pub mod Watch
pub mod Order
pub mod Exits
mod Examples
use yu_clash.Prelude.{
  ℕ, String, ◌≡◌, Bool, true, false, not, ◌&&◌, ◌||◌, Option, none, some, List, [], ◌∷◌, ◌++◌, ltb,
  if◌then◌else◌, inc64, nat_equality, string_equality,
}
use yu_clash.Prelude.Maps.{insert, maps_equal}

-- `routeChange`.
pub data RouteChange : Type 0 where
  unchanged moved reset : RouteChange

abbrev pub rank : RouteChange → ℕ
rank unchanged = 0
rank moved = 1
rank reset = 2

-- `max` on the integers that stand for the constants.
unfoldable pub max_change : RouteChange → RouteChange → RouteChange
max_change a b = if ltb (rank a) (rank b) then b else a

abbrev pub is_reset : RouteChange → Bool
is_reset reset = true
is_reset _ = false

abbrev pub is_unchanged : RouteChange → Bool
is_unchanged unchanged = true
is_unchanged _ = false

-- The core's identity of a value of an interface type, such as a rule set's strategy.
abbrev pub Handle : Type 0
Handle = ℕ

-- `routeTracker`; a nil map is `none`, except for the picks, whose nil map reads as an empty one. The
-- function that `stopPoll` holds cancels one poller, which is named by a number.
pub record RouteTracker : Type 0 where
  pub epoch : ℕ
  pub version : ℕ
  pub picks : List (String × String)
  pub provider_versions : Option (List (String × ℕ))
  pub rule_sets : Option (List (String × Handle))
  pub watched : Bool
  pub watch_seq : ℕ
  pub stop_poll : Option ℕ

pub record RouteState : Type 0 where
  pub core_epoch : ℕ
  pub route_version : ℕ

-- What the tunnel shows at one moment: every proxy, with its pick if it is a pickable group, the
-- providers' versions and the rule providers' strategies, in the order in which the loops meet them.
pub record Snapshot : Type 0 where
  pub proxies : List (String × Option String)
  pub providers : List (String × ℕ)
  pub rule_providers : List (String × Handle)

-- The tracker with what its operations write elsewhere: the counter `methodCallSeq`, the pollers
-- whose context is not cancelled, the number of the next one, and the published states, oldest first.
pub record World : Type 0 where
  pub tracker : RouteTracker
  pub call_seq : ℕ
  pub pollers : List ℕ
  pub next_poller : ℕ
  pub published : List RouteState

abbrev pub init : World
init = record {
  tracker = record {
    epoch = 0;
    version = 0;
    picks = [];
    provider_versions = none;
    rule_sets = none;
    watched = false;
    watch_seq = 0;
    stop_poll = none;
  };
  call_seq = 0;
  pollers = [];
  next_poller = 0;
  published = [];
}

unfoldable pub route_state : RouteTracker → RouteState
route_state t = record { core_epoch = t.epoch; route_version = t.version }

-- The loop of `readPicks` over the proxies, with the map built so far.
unfoldable pub collect_picks :
    List (String × Option String) → List (String × String) → List (String × String)
collect_picks [] picks = picks
collect_picks ((name, none) ∷ proxies) picks = collect_picks proxies picks
collect_picks ((name, some now) ∷ proxies) picks = collect_picks proxies (insert name now picks)

-- The loops that copy a snapshot into a map.
unfoldable pub collect {ℓ} :
    {V : Type ℓ} → List (String × V) → List (String × V) → List (String × V)
collect [] entries = entries
collect ((name, v) ∷ rest) entries = collect rest (insert name v entries)

unfoldable pub read_picks : Snapshot → List (String × String)
unfolding collect_picks
read_picks s = collect_picks s.proxies []

unfoldable pub read_versions : Snapshot → List (String × ℕ)
unfolding collect
read_versions s = collect s.providers []

unfoldable pub read_rule_sets : Snapshot → List (String × Handle)
unfolding collect
read_rule_sets s = collect s.rule_providers []

-- `known != nil && !maps.Equal(now, known)`.
unfoldable pub differs : List (String × ℕ) → Option (List (String × ℕ)) → Bool
differs now none = false
differs now (some known) = not (maps_equal now known)

-- The condition under which the code raises the change to at least `routeMoved`.
unfoldable pub has_moved : Snapshot → RouteTracker → Bool
unfolding differs
has_moved s t =
    differs (read_versions s) t.provider_versions
    || differs (read_rule_sets s) t.rule_sets
    || not (maps_equal (read_picks s) t.picks)

abbrev pub publish : RouteTracker → World → World
publish t w = record w { tracker = t; published = w.published ++ route_state t ∷ [] }

-- The end of `refreshRouteLocked`, once the change is known and the maps are stored.
unfoldable pub advance : RouteChange → RouteTracker → World → World
advance change t w =
    let t1 = record t { epoch = if is_reset change then inc64 t.epoch else t.epoch } in
    let t2 = record t1 { version = inc64 t1.version } in
    if is_unchanged change
    then record w { tracker = t1 }
    else if not t2.watched
    then record w { tracker = t2 }
    else publish t2 w

-- `refreshRouteLocked`: the snapshot is read before the tracker's lock is taken.
unfoldable pub refresh_route_locked : RouteChange → Snapshot → World → World
refresh_route_locked change s w =
    let t = w.tracker in
    let change' = if has_moved s t then max_change change moved else change in
    advance change'
      (record t {
        provider_versions = some (read_versions s);
        rule_sets = some (read_rule_sets s);
        picks = read_picks s;
      })
      w

unfoldable pub refresh_route : Snapshot → World → World
refresh_route = refresh_route_locked unchanged

unfoldable pub bump_route_epoch : Snapshot → World → World
bump_route_epoch = refresh_route_locked reset
