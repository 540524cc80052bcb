-- ===== src/Route/Watch.antt =====
-- The route watch: one poller at most, the newest call wins, and a stop is final for the calls before
-- it.
use yu_clash.Prelude.{
  ℕ, ◌+◌, ◌≤◌, ◌<◌, ◌^◌, ◌≡◌, Bool, false, Option, none, some, List, [], ◌∷◌, ◌++◌, All, is_some,
  arith, refl, ◌∙◌,
}
use yu_clash.Route.{RouteChange, Snapshot, World, advance, refresh_route_locked, refresh_route}
use yu_clash.Route.Poll.{
  Event, dispatches, refreshes, watches, stops, ticks, next_call_seq, watch_route_locked,
  stop_route_watch, tick, step, run,
}

abbrev pub live : Option ℕ → List ℕ
live none = []
live (some poller) = poller ∷ []

-- A poller runs exactly while the host watches, and it is the one that `stopPoll` cancels.
pub record HasOnePoller (w : World) : Type 0 where
  pub watching : w.tracker.watched ≡ is_some w.tracker.stop_poll
  pub running : w.pollers ≡ live w.tracker.stop_poll

-- A refresh leaves the watch alone.
pub refresh_keeps_watch :
    (change : RouteChange) (s : Snapshot) (w : World)
    → let w' = refresh_route_locked change s w in
      (w'.tracker.watched ≡ w.tracker.watched)
      × (w'.tracker.watch_seq ≡ w.tracker.watch_seq)
      × (w'.tracker.stop_poll ≡ w.tracker.stop_poll)
      × (w'.pollers ≡ w.pollers)
      × (w'.call_seq ≡ w.call_seq)
unfolding refresh_route_locked advance
refresh_keeps_watch change s w = ground arith

refresh-HasOnePoller :
    (change : RouteChange) (s : Snapshot) (w : World)
    → HasOnePoller w
    → HasOnePoller (refresh_route_locked change s w)
refresh-HasOnePoller change s w h = ground (arith, refresh_keeps_watch change s w)

step-HasOnePoller : (e : Event) (w : World) → HasOnePoller w → HasOnePoller (step e w)
unfolding step
step-HasOnePoller dispatches w h = unfold next_call_seq in ground arith
step-HasOnePoller (refreshes change s) w h = refresh-HasOnePoller change s w h
step-HasOnePoller (watches watch seq) w h = unfold watch_route_locked in ground arith
step-HasOnePoller stops w h = unfold stop_route_watch in ground arith
step-HasOnePoller (ticks is_running s) w h =
    unfold tick refresh_route in ground (arith, refresh-HasOnePoller RouteChange.unchanged s w h)

-- However the calls, refreshes and stops interleave, a poller runs exactly while the host watches, and
-- there is never more than one, if that held at first.
pub run-HasOnePoller : (es : List Event) (w : World) → HasOnePoller w → HasOnePoller (run es w)
unfolding run
run-HasOnePoller [] w h = h
run-HasOnePoller (e ∷ es) w h = run-HasOnePoller es (step e w) (step-HasOnePoller e w h)

-- Every watch in the event is older than `n`, and the event is no stop.
abbrev pub IsOlder : ℕ → Event → Type 0
IsOlder n (watches _ seq) = seq < n
IsOlder n stops = ⊥
IsOlder n _ = Unit

-- Every watch in the event is dispatched no later than `n`.
abbrev pub IsUpTo : ℕ → Event → Type 0
IsUpTo n (watches _ seq) = seq ≤ n
IsUpTo n _ = Unit

run-append : (es fs : List Event) (w : World) → run (es ++ fs) w ≡ run fs (run es w)
unfolding run
run-append [] fs w = refl
run-append (e ∷ es) fs w = run-append es fs (step e w)

step-watch_seq-le :
    (n : ℕ) (e : Event) (w : World)
    → IsOlder n e
    → w.tracker.watch_seq ≤ n
    → (step e w).tracker.watch_seq ≤ n
unfolding step
step-watch_seq-le n dispatches w o h = unfold next_call_seq in ground arith
step-watch_seq-le n (refreshes change s) w o h = ground (arith, refresh_keeps_watch change s w)
step-watch_seq-le n (watches watch seq) w o h = unfold watch_route_locked in ground arith
step-watch_seq-le n stops w o h = absurd o
step-watch_seq-le n (ticks is_running s) w o h =
    unfold tick refresh_route in ground (arith, refresh_keeps_watch RouteChange.unchanged s w)

run-watch_seq-le :
    (n : ℕ) (es : List Event) (w : World)
    → All (IsOlder n) es
    → w.tracker.watch_seq ≤ n
    → (run es w).tracker.watch_seq ≤ n
unfolding run
run-watch_seq-le n [] w o h = h
run-watch_seq-le n (e ∷ es) w o h =
    run-watch_seq-le n es (step e w) o.1 (step-watch_seq-le n e w o.0 h)

step_older :
    (n : ℕ) (e : Event) (w : World)
    → IsOlder n e
    → w.tracker.watch_seq ≡ n
    → ((step e w).tracker.watched ≡ w.tracker.watched) × ((step e w).tracker.watch_seq ≡ n)
unfolding step
step_older n dispatches w o h = unfold next_call_seq in ground arith
step_older n (refreshes change s) w o h = ground (arith, refresh_keeps_watch change s w)
step_older n (watches watch seq) w o h = unfold watch_route_locked in ground arith
step_older n stops w o h = absurd o
step_older n (ticks is_running s) w o h =
    unfold tick refresh_route in ground (arith, refresh_keeps_watch RouteChange.unchanged s w)

run_older :
    (n : ℕ) (es : List Event) (w : World)
    → All (IsOlder n) es
    → w.tracker.watch_seq ≡ n
    → ((run es w).tracker.watched ≡ w.tracker.watched) × ((run es w).tracker.watch_seq ≡ n)
unfolding run
run_older n [] w o h = (refl, h)
run_older n (e ∷ es) w o h =
    let (kept, seq) = step_older n e w o.0 h in
    let (rest, seq') = run_older n es (step e w) o.1 seq in (rest ∙ kept, seq')

watch_newest :
    (watch : Bool) (seq : ℕ) (w : World)
    → w.tracker.watch_seq ≤ seq
    → ((step (watches watch seq) w).tracker.watched ≡ watch)
      × ((step (watches watch seq) w).tracker.watch_seq ≡ seq)
unfolding step watch_route_locked
watch_newest watch seq w h = ground arith

-- Among watch calls that run in any order, with refreshes, ticks and dispatches between them and no
-- stop, the one with the greatest sequence number decides whether the host watches, if the tracker
-- has seen no greater number.
pub newest_watch_wins :
    (before after : List Event) (watch : Bool) (seq : ℕ) (w : World)
    → All (IsOlder seq) before
    → All (IsOlder seq) after
    → w.tracker.watch_seq ≤ seq
    → let w' = run (before ++ watches watch seq ∷ after) w in
      (w'.tracker.watched ≡ watch) × (w'.tracker.watch_seq ≡ seq)
newest_watch_wins before after watch seq w b a h =
    rw (run-append before (watches watch seq ∷ after) w) (
      unfold run in
      let (now, seq_now) =
        watch_newest watch seq (run before w) (run-watch_seq-le seq before w b h) in
      let (kept, seq_kept) =
        run_older seq after (step (watches watch seq) (run before w)) a seq_now in
      (kept ∙ now, seq_kept))

step_stopped :
    (n : ℕ) (e : Event) (w : World)
    → IsUpTo n e
    → w.tracker.watched ≡ false
    → n < w.tracker.watch_seq
    → ((step e w).tracker.watched ≡ false) × (n < (step e w).tracker.watch_seq)
unfolding step
step_stopped n dispatches w o h l = unfold next_call_seq in ground arith
step_stopped n (refreshes change s) w o h l = ground (arith, refresh_keeps_watch change s w)
step_stopped n (watches watch seq) w o h l = unfold watch_route_locked in ground arith
step_stopped n stops w o h l = unfold stop_route_watch in ground arith
step_stopped n (ticks is_running s) w o h l =
    unfold tick refresh_route in ground (arith, refresh_keeps_watch RouteChange.unchanged s w)

run_stopped :
    (n : ℕ) (es : List Event) (w : World)
    → All (IsUpTo n) es
    → w.tracker.watched ≡ false
    → n < w.tracker.watch_seq
    → (run es w).tracker.watched ≡ false
unfolding run
run_stopped n [] w o h l = h
run_stopped n (e ∷ es) w o h l =
    let (h', l') = step_stopped n e w o.0 h l in run_stopped n es (step e w) o.1 h' l'

stop_stops :
    (w : World)
    → w.call_seq + 1 < 2 ^ 64
    → ((stop_route_watch w).tracker.watched ≡ false)
      × (w.call_seq < (stop_route_watch w).tracker.watch_seq)
unfolding stop_route_watch
stop_stops w h = ground arith

-- After `stopRouteWatch` no call that was dispatched before it makes the host watch again, however
-- late it runs and whatever runs between, unless the call counter has wrapped.
pub stop_is_final :
    (es : List Event) (w : World)
    → w.call_seq + 1 < 2 ^ 64
    → All (IsUpTo w.call_seq) es
    → (run es (stop_route_watch w)).tracker.watched ≡ false
stop_is_final es w h o =
    let (stopped, later) = stop_stops w h in
    run_stopped w.call_seq es (stop_route_watch w) o stopped later

-- A watch that is dispatched after the stop is obeyed, if the tracker has seen no number that was not
-- dispatched and the counter does not wrap.
watch_after_stop :
    (watch : Bool) (w : World)
    → w.tracker.watch_seq ≤ w.call_seq
    → w.call_seq + 2 < 2 ^ 64
    → let w1 = next_call_seq (stop_route_watch w) in
      (watch_route_locked watch w1.call_seq w1).tracker.watched ≡ watch
unfolding next_call_seq stop_route_watch watch_route_locked
watch_after_stop watch w h l = ground arith
