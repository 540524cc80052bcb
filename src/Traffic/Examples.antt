-- ===== src/Traffic/Examples.antt =====
-- Runs of the watch, and the theorems on them.
use yu_clash.Prelude.{
  ◌≡◌, refl, Bool, true, false, not, none, List, [], ◌∷◌, string_equality, if◌then◌else◌, arith,
}
use yu_clash.Prelude.Maps.{lookup}
use yu_clash.Traffic.{Reading, RequestTraffic, TrafficWatch, Round, collects, is_none_left}
use yu_clash.Traffic.Watch.{Event, opens, ticks, idle, run, one_ticker_while_watching}
use yu_clash.Traffic.Closing.{closed_request_is_released}

abbrev closed_reading : Reading
closed_reading = record { upload_total = λ id. 7; download_total = λ id. 9; is_open = λ id. false }

abbrev full_queue : List RequestTraffic → Bool
full_queue changed = false

abbrev lost : Round
lost = record { reading = closed_reading; queue = full_queue }

abbrev one_request : TrafficWatch
one_request = record {
  requests = ("a", record { upload = 0; download = 0; fresh = true; closed_reports = 0 }) ∷ [];
  running = true;
}

abbrev six_lost : List Round
six_lost = lost ∷ lost ∷ lost ∷ lost ∷ lost ∷ lost ∷ []

closed_request_is_released_example :
    lookup "a" (collects (lost ∷ six_lost) one_request).requests ≡ none
closed_request_is_released_example =
    closed_request_is_released lost six_lost "a" one_request
      (refl, (refl, (refl, (refl, (refl, (refl, tt)))))) (omega arith)

still_watched : is_none_left (collects six_lost one_request).requests ≡ false
unfolding collects
still_watched = refl

abbrev two_connections : List Event
two_connections =
    opens "a" 0 0
    ∷ opens "b" 0 0
    ∷ ticks true closed_reading full_queue
    ∷ ticks false closed_reading full_queue
    ∷ []

one_ticker_while_watching_example :
    ((run two_connections idle).watch.running
      ≡ not (is_none_left (run two_connections idle).watch.requests))
    × ((run two_connections idle).tickers
        ≡ (if (run two_connections idle).watch.running then 1 else 0))
one_ticker_while_watching_example = one_ticker_while_watching two_connections
