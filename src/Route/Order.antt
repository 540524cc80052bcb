-- ===== src/Route/Order.antt =====
-- The order of what a watching host is told.
use yu_clash.Prelude.{
  ℕ, suc, ◌+◌, ◌≤◌, ◌<◌, ◌^◌, ◌≡◌, refl, List, [], ◌∷◌, ◌++◌, length, inc64, true, false, inl, inr,
  Bool-cases, arith,
}
use yu_clash.Route.{
  RouteChange, RouteState, RouteTracker, Snapshot, World, route_state, advance,
  refresh_route_locked, refresh_route,
}
use yu_clash.Route.Poll.{
  Event, dispatches, refreshes, watches, stops, ticks, next_call_seq, watch_route_locked,
  stop_route_watch, tick, step, run,
}

-- The versions rise strictly from above `lo`, and end at `hi` or below.
abbrev pub Rises : ℕ → List RouteState → ℕ → Type 0
Rises lo [] hi = lo ≤ hi
Rises lo (state ∷ states) hi = (lo < state.route_version) × Rises state.route_version states hi

Rises-le :
    (lo : ℕ) (states : List RouteState) (hi hi' : ℕ)
    → Rises lo states hi
    → hi ≤ hi'
    → Rises lo states hi'
Rises-le lo [] hi hi' h l = omega arith
Rises-le lo (state ∷ states) hi hi' h l = (h.0, Rises-le state.route_version states hi hi' h.1 l)

Rises-append :
    (lo : ℕ) (states : List RouteState) (hi : ℕ) (state : RouteState)
    → Rises lo states hi
    → hi < state.route_version
    → Rises lo (states ++ state ∷ []) state.route_version
Rises-append lo [] hi state h l = (omega arith, omega arith)
Rises-append lo (s ∷ states) hi state h l =
    (h.0, Rises-append s.route_version states hi state h.1 l)

-- What is published rises to the tracker's version.
abbrev pub IsOrdered : World → Type 0
IsOrdered w = Rises 0 w.published w.tracker.version

-- One event moves the version by at most one, and publishes only with a move.
data Advance (w w' : World) : Type 0 where
  stay : w'.tracker.version ≡ w.tracker.version → w'.published ≡ w.published → Advance w w'
  quiet : w'.tracker.version ≡ suc w.tracker.version → w'.published ≡ w.published → Advance w w'
  tell :
      (state : RouteState)
      → state.route_version ≡ suc w.tracker.version
      → w'.tracker.version ≡ suc w.tracker.version
      → w'.published ≡ w.published ++ state ∷ []
      → Advance w w'

Advance-IsOrdered : {w w' : World} → Advance w w' → IsOrdered w → IsOrdered w'
Advance-IsOrdered {w} {w'} (stay v p) h = rw (v, p) h
Advance-IsOrdered {w} {w'} (quiet v p) h =
    rw (v, p) (Rises-le 0 w.published w.tracker.version _ h (omega arith))
Advance-IsOrdered {w} {w'} (tell state r v p) h =
    rw (v, p, ← r) (Rises-append 0 w.published w.tracker.version state h (omega arith))

advance-Advance :
    (change : RouteChange) (t : RouteTracker) (w : World)
    → t.version ≡ w.tracker.version
    → w.tracker.version + 1 < 2 ^ 64
    → Advance w (advance change t w)
unfolding advance route_state
advance-Advance RouteChange.unchanged t w e h = stay (ground arith) refl
advance-Advance RouteChange.moved t w e h = elim (Bool-cases t.watched) [
  | inl on ↦
      tell (record { core_epoch = t.epoch; route_version = inc64 t.version }) (ground arith)
        (ground arith) (ground arith)
  | inr off ↦ quiet (ground arith) (ground arith)
]
advance-Advance RouteChange.reset t w e h = elim (Bool-cases t.watched) [
  | inl on ↦
      tell (record { core_epoch = inc64 t.epoch; route_version = inc64 t.version }) (ground arith)
        (ground arith) (ground arith)
  | inr off ↦ quiet (ground arith) (ground arith)
]

refresh-Advance :
    (change : RouteChange) (s : Snapshot) (w : World)
    → w.tracker.version + 1 < 2 ^ 64
    → Advance w (refresh_route_locked change s w)
unfolding refresh_route_locked
refresh-Advance change s w h = advance-Advance _ _ w refl h

step-Advance : (e : Event) (w : World) → w.tracker.version + 1 < 2 ^ 64 → Advance w (step e w)
unfolding step
step-Advance dispatches w h = unfold next_call_seq in stay refl refl
step-Advance (refreshes change s) w h = refresh-Advance change s w h
step-Advance (watches watch seq) w h =
    unfold watch_route_locked in stay (ground arith) (ground arith)
step-Advance stops w h = unfold stop_route_watch in stay (ground arith) (ground arith)
step-Advance (ticks false s) w h = unfold tick in stay refl refl
step-Advance (ticks true s) w h = unfold tick refresh_route in refresh-Advance _ s w h

Advance-version-le :
    {w w' : World}
    → Advance w w'
    → (w.tracker.version ≤ w'.tracker.version) × (w'.tracker.version ≤ suc w.tracker.version)
Advance-version-le (stay v p) = omega arith
Advance-version-le (quiet v p) = omega arith
Advance-version-le (tell state r v p) = omega arith

-- From a world whose published versions rise strictly up to the tracker's, any run of events leads to
-- one again, and the tracker's version has not fallen and grew by at most the number of events, if
-- the version counter has room for that number.
pub run-IsOrdered :
    (es : List Event) (w : World)
    → w.tracker.version + length es < 2 ^ 64
    → IsOrdered w
    → IsOrdered (run es w)
      × (w.tracker.version ≤ (run es w).tracker.version)
      × ((run es w).tracker.version ≤ w.tracker.version + length es)
unfolding run
run-IsOrdered [] w h o = (o, omega arith, omega arith)
run-IsOrdered (e ∷ es) w h o =
    let a = step-Advance e w (omega arith) in
    let (o', low, high) =
      run-IsOrdered es (step e w) (omega (arith, Advance-version-le a)) (Advance-IsOrdered a o) in
    (o', omega (arith, Advance-version-le a, low), omega (arith, Advance-version-le a, high))
