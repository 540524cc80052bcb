-- ===== src/Traffic/Watch.antt =====
-- core/request_traffic.go: `watchRequestTraffic` and `runRequestTrafficWatch`, and how many goroutines run.
use yu_clash.Prelude.{
  ℕ, zero, suc, ◌+◌, ◌-◌, ◌≡◌, ◌≢◌, refl, subst, ◌==◌, string_equality, Bool, true, false, not,
  String, List, [], ◌∷◌, if◌then◌else◌, Bool-cases, inl, inr, arith,
}
use yu_clash.Prelude.Maps.{insert}
use yu_clash.Traffic.{
  RequestTraffic, WatchedRequest, Requests, TrafficWatch, Reading, add, collect, clear,
  is_none_left,
}

-- The watch and the number of goroutines that tick.
pub record Watching : Type 0 where
  pub watch : TrafficWatch
  pub tickers : ℕ

abbrev pub idle : Watching
idle = record { watch = record { requests = []; running = false }; tickers = 0 }

-- A new connection, or a tick of a running goroutine: whether the host listens, what it reads, and the queue.
pub data Event : Type 0 where
  opens : String → ℕ → ℕ → Event
  ticks : Bool → Reading → (List RequestTraffic → Bool) → Event

-- `watchRequestTraffic`.
unfoldable pub watch_request_traffic : String → ℕ → ℕ → Watching → Watching
unfolding add
watch_request_traffic id upload download s =
    let (w, start) = add id upload download s.watch in
    record { watch = w; tickers = (if start then s.tickers + 1 else s.tickers) }

-- One round of the loop of `runRequestTrafficWatch`, by one of the goroutines.
unfoldable pub tick : Bool → Reading → (List RequestTraffic → Bool) → Watching → Watching
unfolding collect clear
tick has_event_listener now queue s =
    if has_event_listener
    then (let (w, watching, _) = collect now queue s.watch in
        record { watch = w; tickers = (if watching then s.tickers else s.tickers - 1) })
    else record { watch = clear s.watch; tickers = s.tickers - 1 }

-- A tick needs a goroutine.
unfoldable pub step : Event → Watching → Watching
unfolding watch_request_traffic tick
step (opens id upload download) s = watch_request_traffic id upload download s
step (ticks heard now queue) s = elim s.tickers [ zero ↦ s | suc _ ↦ tick heard now queue s ]

unfoldable pub run : List Event → Watching → Watching
unfolding step
run [] s = s
run (e ∷ es) s = run es (step e s)

-- The flag tells whether a request is watched, and a goroutine ticks exactly then, and only one.
pub record IsAttended (s : Watching) : Type 0 where
  pub flag : s.watch.running ≡ not (is_none_left s.watch.requests)
  pub one_ticker : s.tickers ≡ (if s.watch.running then 1 else 0)

insert-left :
    (id : String) (r : WatchedRequest) (rs : Requests) → is_none_left (insert id r rs) ≡ false
unfolding insert
insert-left id r [] = refl
insert-left id r (x ∷ rs) = ground arith

add-IsAttended :
    (id : String) (u d : ℕ) (s : Watching)
    → IsAttended s
    → IsAttended (watch_request_traffic id u d s)
unfolding watch_request_traffic add
add-IsAttended id u d s h = record {
  flag = ground (
    arith,
    insert-left id (record { upload = u; download = d; fresh = true; closed_reports = 0 })
        s.watch.requests,
  );
  one_ticker = ground (arith, h.one_ticker);
}

tick-IsAttended :
    (heard : Bool) (now : Reading) (queue : List RequestTraffic → Bool) (s : Watching)
    → IsAttended s
    → s.tickers ≢ 0
    → IsAttended (tick heard now queue s)
unfolding tick collect clear
tick-IsAttended true now queue s h n = record {
  flag = refl;
  one_ticker = ground (arith, h.one_ticker, n);
}
tick-IsAttended false now queue s h n = record {
  flag = refl;
  one_ticker = ground (arith, h.one_ticker, n);
}

run-IsAttended : (es : List Event) (s : Watching) → IsAttended s → IsAttended (run es s)
unfolding run step
run-IsAttended [] s h = h
run-IsAttended (opens id u d ∷ es) s h =
    run-IsAttended es (watch_request_traffic id u d s) (add-IsAttended id u d s h)
run-IsAttended (ticks heard now queue ∷ es) s h =
    run-IsAttended es (step (ticks heard now queue) s) stepped
  where
    stepped : IsAttended (step (ticks heard now queue) s)
    stepped = elim (Bool-cases (s.tickers == 0)) [
      | inl z ↦ subst IsAttended {x = s} (ground (arith, z)) h
      | inr z ↦
          subst IsAttended {x = tick heard now queue s} (ground (arith, z))
            (tick-IsAttended heard now queue s h (ground (arith, z)))
    ]

-- From an idle watch, after any interleaving of new connections and ticks: the flag is set exactly while a request
-- is watched, and a goroutine runs exactly then, never two.
pub one_ticker_while_watching :
    (es : List Event)
    → ((run es idle).watch.running ≡ not (is_none_left (run es idle).watch.requests))
      × ((run es idle).tickers ≡ (if (run es idle).watch.running then 1 else 0))
one_ticker_while_watching es =
    let h = run-IsAttended es idle (record { flag = refl; one_ticker = refl }) in
    (h.flag, h.one_ticker)
