-- ===== src/Traffic.antt =====
-- core/request_traffic.go: the requests whose traffic is reported to the host, and the goroutine that
-- reports it. The counters and the openness of connections are mihomo's: what a report reads is an argument.
pub mod Watch
pub mod Reports
pub mod Closing
mod Examples
use yu_clash.Prelude.{
  ℕ, zero, suc, ◌+◌, Bool, true, false, not, ◌&&◌, ◌||◌, Option, none, some, String, List, [], ◌∷◌,
  map, ltb, ◌==◌, if◌then◌else◌, Equality, string_equality,
}
use yu_clash.Prelude.Maps.{lookup, insert}

abbrev pub close_retries : ℕ
close_retries = 5

-- `RequestTraffic`.
pub record RequestTraffic : Type 0 where
  pub id : String
  pub upload : ℕ
  pub download : ℕ

-- `watchedRequest`; its tracker is what `counters` reads.
pub record WatchedRequest : Type 0 where
  pub upload : ℕ
  pub download : ℕ
  pub fresh : Bool
  pub closed_reports : ℕ

abbrev pub Requests : Type 0
Requests = List (String × WatchedRequest)

-- `requestTrafficWatch`.
pub record TrafficWatch : Type 0 where
  pub requests : Requests
  pub running : Bool

-- What a report reads: the totals of each tracker, and whether the manager still has a connection.
pub record Reading : Type 0 where
  pub upload_total : String → ℕ
  pub download_total : String → ℕ
  pub is_open : String → Bool

-- `add`: the new watch, and whether the caller starts the goroutine.
unfoldable pub add : String → ℕ → ℕ → TrafficWatch → TrafficWatch × Bool
unfolding insert
add id upload download w = (
  record {
    requests =
        insert id
          (record { upload = upload; download = download; fresh = true; closed_reports = 0 })
          w.requests;
    running = true;
  },
  not w.running,
)

-- The first loop of `collect` on one request.
unfoldable pub visit : Reading → String → WatchedRequest → WatchedRequest
visit now id r = record r {
  closed_reports =
      (if ltb 0 r.closed_reports || not r.fresh && not (now.is_open id)
        then r.closed_reports + 1
        else r.closed_reports);
  fresh = false;
}

unfoldable pub has_changed : Reading → String → WatchedRequest → Bool
has_changed now id r =
    not (now.upload_total id == r.upload) || not (now.download_total id == r.download)

unfoldable pub visit_all : Reading → Requests → Requests
unfolding visit
visit_all now [] = []
visit_all now ((id, r) ∷ rs) = (id, visit now id r) ∷ visit_all now rs

unfoldable pub changed_requests : Reading → Requests → List RequestTraffic
unfolding has_changed
changed_requests now [] = []
changed_requests now ((id, r) ∷ rs) =
    let rest = changed_requests now rs in
    let traffic : RequestTraffic = record {
      id = id;
      upload = now.upload_total id;
      download = now.download_total id;
    } in
    if has_changed now id r then traffic ∷ rest else rest

abbrev pub settle_one : Option WatchedRequest → RequestTraffic → Requests → Requests
settle_one none traffic rs = rs
settle_one (some r) traffic rs =
    insert traffic.id (record r { upload = traffic.upload; download = traffic.download }) rs

-- The loop over `changed` when the report was queued.
unfoldable pub settle : List RequestTraffic → Requests → Requests
unfolding lookup insert
settle [] rs = rs
settle (t ∷ ts) rs = settle ts (settle_one (lookup t.id rs) t rs)

unfoldable pub is_done : Bool → WatchedRequest → Bool
is_done queued r = ltb 0 r.closed_reports && (queued || ltb close_retries r.closed_reports)

-- The loop that deletes.
unfoldable pub drop_done : Bool → Requests → Requests
unfolding is_done
drop_done queued [] = []
drop_done queued ((id, r) ∷ rs) =
    let rest = drop_done queued rs in if is_done queued r then rest else (id, r) ∷ rest

abbrev pub is_none_left : {A : Type 0} → List A → Bool
is_none_left [] = true
is_none_left (_ ∷ _) = false

-- What is left of the requests once the report was queued or not.
unfoldable pub remaining : List RequestTraffic → Bool → Requests → Requests
unfolding settle drop_done
remaining changed queued rs = drop_done queued (if queued then settle changed rs else rs)

-- `collect`: the new watch, whether it goes on, and the report it made when there is one.
unfoldable pub collect :
    Reading
    → (List RequestTraffic → Bool)
    → TrafficWatch
    → TrafficWatch × Bool × List RequestTraffic
unfolding visit_all changed_requests remaining
collect now queue w =
    let changed = changed_requests now w.requests in
    let queued = is_none_left changed || queue changed in
    let left = remaining changed queued (visit_all now w.requests) in
    (
      record { requests = left; running = not (is_none_left left) },
      not (is_none_left left),
      changed,
    )

-- `clear`.
unfoldable pub clear : TrafficWatch → TrafficWatch
clear w = record { requests = []; running = false }

-- What one tick of the goroutine reads, and whether the bulk queue takes its report.
pub record Round : Type 0 where
  pub reading : Reading
  pub queue : List RequestTraffic → Bool

unfoldable pub collects : List Round → TrafficWatch → TrafficWatch
unfolding collect
collects [] w = w
collects (round ∷ rounds) w = collects rounds (collect round.reading round.queue w).0
