-- ===== src/Probe/Examples.antt =====
-- The theorems on concrete hits and bodies.
use yu_clash.Prelude.{◌≡◌, ◌≤◌, refl, none, some, List, [], ◌∷◌}
use yu_clash.Text.{Text, bytes, contains}
use yu_clash.Route.Exits.{RouteHit}
use yu_clash.Probe.{add_hits, read_probe_body}
use yu_clash.Probe.Scan.{scan_finds_marker}
use yu_clash.Probe.Hits.{exit_at, newest_exit, count_at, recorder_keeps_newest}

abbrev chunks : List Text
chunks = bytes "one ma" ∷ bytes "rker he" ∷ bytes "re, and more" ∷ []

stops_early :
    read_probe_body (some (λ tail. contains tail (bytes "marker"))) chunks ≡ bytes "one marker he"
unfolding read_probe_body yu_clash.Text.after yu_clash.Text.cut_prefix
stops_early = refl

scan_finds_marker_example :
    contains
      (read_probe_body (some (λ tail. contains tail (bytes "marker"))) chunks)
      (bytes "marker")
    ≡ contains (read_probe_body none chunks) (bytes "marker")
scan_finds_marker_example = scan_finds_marker (bytes "marker") chunks

abbrev two_hits : List RouteHit
two_hits =
    record { host = "a:443"; proxy = ""; exit = "one" }
    ∷ record { host = "a:443"; proxy = ""; exit = "two" }
    ∷ []

recorder_keeps_newest_example :
    (count_at "a:443" "" (add_hits [] two_hits) ≤ 1)
    × (exit_at "a:443" "" (add_hits [] two_hits) ≡ newest_exit "a:443" "" none two_hits)
recorder_keeps_newest_example = recorder_keeps_newest "a:443" "" two_hits
