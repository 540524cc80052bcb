-- ===== src/Route/Refresh.antt =====
-- What a refresh of the route does: it stores what it read, and it moves the version, and tells a
-- host that watches, exactly when something changed.
use mathlib.Core.Logic.{◌⊎◌, inl, inr}
use yu_clash.Prelude.{
  ℕ, String, ◌≡◌, ◌≢◌, ◌↔◌, refl, true, false, Option, none, some, List, [], ◌∷◌, ◌++◌,
  if◌then◌else◌, inc64, nat_equality, string_equality, Bool-cases, arith,
}
use yu_clash.Prelude.Maps.{HasUniqueKeys, SameMap, insert-HasUniqueKeys, maps_equal, maps_equal_iff}
use yu_clash.Route.{
  RouteChange, unchanged, RouteTracker, Snapshot, World, max_change, is_reset, collect_picks,
  collect, read_picks, read_versions, read_rule_sets, differs, has_moved, route_state, advance,
  refresh_route_locked, refresh_route,
}

collect_picks-HasUniqueKeys :
    (proxies : List (String × Option String)) (picks : List (String × String))
    → HasUniqueKeys picks
    → HasUniqueKeys (collect_picks proxies picks)
unfolding collect_picks
collect_picks-HasUniqueKeys [] picks h = h
collect_picks-HasUniqueKeys ((name, none) ∷ rest) picks h = collect_picks-HasUniqueKeys rest picks h
collect_picks-HasUniqueKeys ((name, some now) ∷ rest) picks h =
    collect_picks-HasUniqueKeys rest _ (insert-HasUniqueKeys name now picks h)

collect-HasUniqueKeys :
    (rest entries : List (String × ℕ))
    → HasUniqueKeys entries
    → HasUniqueKeys (collect rest entries)
unfolding collect
collect-HasUniqueKeys [] entries h = h
collect-HasUniqueKeys ((name, v) ∷ rest) entries h =
    collect-HasUniqueKeys rest _ (insert-HasUniqueKeys name v entries h)

read_picks-HasUniqueKeys : (s : Snapshot) → HasUniqueKeys (read_picks s)
unfolding read_picks
read_picks-HasUniqueKeys s = collect_picks-HasUniqueKeys s.proxies [] tt

read_versions-HasUniqueKeys : (s : Snapshot) → HasUniqueKeys (read_versions s)
unfolding read_versions
read_versions-HasUniqueKeys s = collect-HasUniqueKeys s.providers [] tt

read_rule_sets-HasUniqueKeys : (s : Snapshot) → HasUniqueKeys (read_rule_sets s)
unfolding read_rule_sets
read_rule_sets-HasUniqueKeys s = collect-HasUniqueKeys s.rule_providers [] tt

abbrev pub HasUniqueKeys? : Option (List (String × ℕ)) → Type 0
HasUniqueKeys? none = Unit
HasUniqueKeys? (some m) = HasUniqueKeys m

-- The tracker holds maps: no key stands in one twice.
pub record HasMaps (t : RouteTracker) : Type 0 where
  pub picks : HasUniqueKeys t.picks
  pub versions : HasUniqueKeys? t.provider_versions
  pub rule_sets : HasUniqueKeys? t.rule_sets

-- What was read agrees with what was known; nothing known agrees with everything.
abbrev pub Agrees : List (String × ℕ) → Option (List (String × ℕ)) → Type 0
Agrees now none = Unit
Agrees now (some known) = SameMap now known

-- The snapshot shows, name by name, the picks, provider versions and rule sets of the tracker.
pub record Settled (s : Snapshot) (t : RouteTracker) : Type 0 where
  pub picks : SameMap (read_picks s) t.picks
  pub versions : Agrees (read_versions s) t.provider_versions
  pub rule_sets : Agrees (read_rule_sets s) t.rule_sets

differs_iff :
    (now : List (String × ℕ)) (known : Option (List (String × ℕ)))
    → HasUniqueKeys now
    → HasUniqueKeys? known
    → (differs now known ≡ false) ↔ Agrees now known
unfolding differs
differs_iff now none u v = (λ _. tt, λ _. refl)
differs_iff now (some known) u v =
    let e = maps_equal_iff now known u v in (λ h. e.0 (ground arith), λ h. ground (arith, e.1 h))

-- The code's comparison of maps decides whether the route settled.
pub has_moved_iff :
    (s : Snapshot) (t : RouteTracker) → HasMaps t → (has_moved s t ≡ false) ↔ Settled s t
unfolding has_moved
has_moved_iff s t m = (
  λ h. record {
    picks = p.0 (ground arith);
    versions = v.0 (ground arith);
    rule_sets = r.0 (ground arith);
  },
  λ h. ground (arith, p.1 h.picks, v.1 h.versions, r.1 h.rule_sets),
)
  where
    p : (maps_equal (read_picks s) t.picks ≡ true) ↔ SameMap (read_picks s) t.picks
    p = maps_equal_iff (read_picks s) t.picks (read_picks-HasUniqueKeys s) m.picks

    v :
        (differs (read_versions s) t.provider_versions ≡ false)
        ↔ Agrees (read_versions s) t.provider_versions
    v = differs_iff _ t.provider_versions (read_versions-HasUniqueKeys s) m.versions

    r : (differs (read_rule_sets s) t.rule_sets ≡ false) ↔ Agrees (read_rule_sets s) t.rule_sets
    r = differs_iff _ t.rule_sets (read_rule_sets-HasUniqueKeys s) m.rule_sets

-- The change that the caller names, or a difference between the snapshot and the tracker.
abbrev pub Moves : RouteChange → Snapshot → RouteTracker → Type 0
Moves change s t = (change ≢ unchanged) ⊎ (¬ Settled s t)

-- What is stored does not depend on the change.
refresh_stores :
    (change : RouteChange) (s : Snapshot) (w : World)
    → let t = (refresh_route_locked change s w).tracker in
      (t.picks ≡ read_picks s)
      × (t.provider_versions ≡ some (read_versions s))
      × (t.rule_sets ≡ some (read_rule_sets s))
unfolding refresh_route_locked advance
refresh_stores change s w = ground arith

pub refresh-HasMaps :
    (change : RouteChange) (s : Snapshot) (w : World)
    → HasMaps (refresh_route_locked change s w).tracker
refresh-HasMaps change s w =
    let (p, v, r) = refresh_stores change s w in
    record {
      picks = rw p (read_picks-HasUniqueKeys s);
      versions = rw v (read_versions-HasUniqueKeys s);
      rule_sets = rw r (read_rule_sets-HasUniqueKeys s);
    }

pub refresh-Settled :
    (change : RouteChange) (s : Snapshot) (w : World)
    → Settled s (refresh_route_locked change s w).tracker
refresh-Settled change s w =
    let (p, v, r) = refresh_stores change s w in
    record { picks = rw p (λ k. refl); versions = rw v (λ k. refl); rule_sets = rw r (λ k. refl) }

refresh_stored :
    (s : Snapshot) (w : World)
    → has_moved s w.tracker ≡ false
    → w.tracker.picks ≡ read_picks s
    → w.tracker.provider_versions ≡ some (read_versions s)
    → w.tracker.rule_sets ≡ some (read_rule_sets s)
    → refresh_route s w ≡ w
unfolding refresh_route refresh_route_locked advance
refresh_stored s w h p v r = ground arith

module _ (change : RouteChange) (s : Snapshot) (w : World) where
  abbrev after : World
  after = refresh_route_locked change s w

  refresh_moves :
      (has_moved s w.tracker ≡ true) ⊎ (change ≢ unchanged)
      → (after.tracker.version ≡ inc64 w.tracker.version)
        × (after.published ≡ (
            if w.tracker.watched
            then w.published ++ route_state after.tracker ∷ []
            else w.published))
  unfolding refresh_route_locked advance max_change
  refresh_moves h = ground arith

  refresh_stays :
      has_moved s w.tracker ≡ false
      → change ≡ unchanged
      → (after.tracker.version ≡ w.tracker.version) × (after.published ≡ w.published)
  unfolding refresh_route_locked advance max_change
  refresh_stays h e = ground arith

  refresh_epoch :
      after.tracker.epoch ≡ (if is_reset change then inc64 w.tracker.epoch else w.tracker.epoch)
  unfolding refresh_route_locked advance max_change
  refresh_epoch = ground arith

  -- With unique keys in the tracker's maps, a refresh moves the version by one if the caller names a
  -- change or the snapshot differs from the tracker in some lookup, and then appends the new state to
  -- the published ones exactly if the host watches; if the caller names none and no lookup differs,
  -- the version and what is published stay. The epoch moves exactly for a reset.
  pub refresh_publishes :
      HasMaps w.tracker
      → (Moves change s w.tracker
          → (after.tracker.version ≡ inc64 w.tracker.version)
            × (after.published ≡ (
                if w.tracker.watched
                then w.published ++ route_state after.tracker ∷ []
                else w.published)))
        × (change ≡ unchanged
            → Settled s w.tracker
            → (after.tracker.version ≡ w.tracker.version) × (after.published ≡ w.published))
        × (after.tracker.epoch
            ≡ (if is_reset change then inc64 w.tracker.epoch else w.tracker.epoch))
  refresh_publishes m = (
    λ moves. refresh_moves (decide moves),
    λ e settled. refresh_stays ((has_moved_iff s w.tracker m).1 settled) e,
    refresh_epoch,
  )
    where
      decide : Moves change s w.tracker → (has_moved s w.tracker ≡ true) ⊎ (change ≢ unchanged)
      decide (inl h) = inr h
      decide (inr h) = elim (Bool-cases (has_moved s w.tracker)) [
        | inl e ↦ inl e
        | inr e ↦ absurd (h ((has_moved_iff s w.tracker m).0 e))
      ]

  -- Refreshing again from the same snapshot changes nothing at all.
  refresh_idempotent : refresh_route s after ≡ after
  refresh_idempotent =
      let (p, v, r) = refresh_stores change s w in
      refresh_stored s after
        ((has_moved_iff s after.tracker (refresh-HasMaps change s w)).1
          (refresh-Settled change s w))
        p v r
