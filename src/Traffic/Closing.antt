-- ===== src/Traffic/Closing.antt =====
-- A closed request is let go after a bounded number of reports.
use yu_clash.Prelude.{
  ℕ, suc, ◌+◌, ◌≡◌, ◌≤◌, refl, subst, length, Bool, false, ◌||◌, none, String, List, [], ◌∷◌,
  Option-cases, inl, inr, string_equality, arith, All,
}
use yu_clash.Prelude.Maps.{lookup}
use yu_clash.Traffic.{
  RequestTraffic, Requests, TrafficWatch, visit_all, changed_requests, is_none_left, collect, Round,
  collects,
}
use yu_clash.Traffic.Reports.{
  lookup-All, remaining-IsRetried, IsRetried, remaining-All, Aged, visit_all-first, visit_all-Aged,
}

abbrev after_round : Round → TrafficWatch → TrafficWatch
after_round round w = (collect round.reading round.queue w).0

abbrev report : Round → TrafficWatch → List RequestTraffic
report round w = changed_requests round.reading w.requests

abbrev is_taken : Round → TrafficWatch → Bool
is_taken round w = is_none_left (report round w) || round.queue (report round w)

after_round-first :
    (round : Round) (id : String) (w : TrafficWatch)
    → All (Aged id 0) (after_round round w).requests
unfolding collect
after_round-first round id w =
    remaining-All (Aged id 0) (λ j r u d h. h) (report round w) (is_taken round w)
      (visit_all round.reading w.requests) (visit_all-first round.reading id w.requests)

after_round-Aged :
    (round : Round) (id : String) (n : ℕ) (w : TrafficWatch)
    → round.reading.is_open id ≡ false
    → All (Aged id n) w.requests
    → All (Aged id (suc n)) (after_round round w).requests
unfolding collect
after_round-Aged round id n w c h =
    remaining-All (Aged id (suc n)) (λ j r u d h. h) (report round w) (is_taken round w)
      (visit_all round.reading w.requests) (visit_all-Aged round.reading id n w.requests c h)

abbrev pub IsClosed : String → Round → Type 0
IsClosed id round = round.reading.is_open id ≡ false

after_round-IsRetried :
    (round : Round) (w : TrafficWatch) → All IsRetried (after_round round w).requests
unfolding collect
after_round-IsRetried round w =
    remaining-IsRetried (report round w) (is_taken round w) (visit_all round.reading w.requests)

collects-Aged :
    (rounds : List Round) (id : String) (n : ℕ) (w : TrafficWatch)
    → All (IsClosed id) rounds
    → All (Aged id n) w.requests
    → All IsRetried w.requests
    → All (Aged id (n + length rounds)) (collects rounds w).requests
      × All IsRetried (collects rounds w).requests
unfolding collects
collects-Aged [] id n w c h t = (subst (λ k. All (Aged id k) w.requests) (omega arith) h, t)
collects-Aged (round ∷ rounds) id n w (c, cs) h t =
    let (g, t') =
      collects-Aged rounds id (suc n) (after_round round w) cs (after_round-Aged round id n w c h)
        (after_round-IsRetried round w) in
    (
      subst (λ k. All (Aged id k) (collects rounds (after_round round w)).requests) (omega arith) g,
      t',
    )

-- A request whose connection stays closed through seven reports is not watched any more, even when the queue takes
-- none of the reports: the first report may still see it opening, and five retries follow the one that sees it closed.
pub closed_request_is_released :
    (round : Round) (rounds : List Round) (id : String) (w : TrafficWatch)
    → All (IsClosed id) rounds
    → 6 ≤ length rounds
    → lookup id (collects (round ∷ rounds) w).requests ≡ none
unfolding collects
closed_request_is_released round rounds id w c enough =
    let (aged, retried) =
      collects-Aged rounds id 0 (after_round round w) c (after_round-first round id w)
        (after_round-IsRetried round w) in
    let left : Requests = (collects rounds (after_round round w)).requests in
    elim (Option-cases (lookup id left)) [
      | inl e ↦ e
      | inr (r, e) ↦ ground (
        arith,
        e,
        enough,
        lookup-All (Aged id (0 + length rounds)) id r left aged e refl,
        lookup-All IsRetried id r left retried e,
      )
    ]
