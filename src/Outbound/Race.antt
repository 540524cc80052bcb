-- ===== src/Outbound/Race.antt =====
-- core/outbound_ip.go: the race of `handleOutboundIp`.
use yu_clash.Prelude.{
  ℕ, suc, ◌-◌, Option, none, some, String, List, [], ◌∷◌, ◌++◌, ◌==◌, ltb, if◌then◌else◌,
}
use yu_clash.Outbound.{outbound_ip_concurrency, OutboundIpResult, failure}
use yu_clash.Route.Exits.{RouteHit}

-- The sources not asked yet, `urls[next:]`, how many are in flight, and those asked, oldest first.
pub record Race : Type 0 where
  pub waiting : List String
  pub in_flight : ℕ
  pub asked : List String

abbrev pub started : List String → Race → Race
started [] r = r
started (url ∷ urls) r =
    if ltb r.in_flight outbound_ip_concurrency
    then record { waiting = urls; in_flight = suc r.in_flight; asked = r.asked ++ url ∷ [] }
    else r

-- `start`.
unfoldable pub start : Race → Race
start r = started r.waiting r

-- What the loop's `select` receives, for answers of type `A` and errors of a context of type `E`.
pub data Event (A E : Type 0) : Type 0 where
  answer : Option A → Event A E
  stagger : Event A E
  expired : E → Event A E

pub data Outcome (A E : Type 0) : Type 0 where
  won : A → Outcome A E
  failed : Outcome A E
  ended : E → Outcome A E

module _ {A E : Type 0} where
  -- What an event that does not end the loop leaves; `answers` delivers the answer of a source in flight.
  unfoldable pub received : Event A E → Race → Race
  unfolding start
  received (answer a) r = start (record r { in_flight = r.in_flight - 1 })
  received stagger r = start r
  received (expired e) r = r

  -- The loop; `none` still waits for an event.
  unfoldable pub race : List (Event A E) → Race → Option (Outcome A E)
  unfolding received
  race [] r = if r.in_flight == 0 then some failed else none
  race (answer (some a) ∷ events) r = if r.in_flight == 0 then some failed else some (won a)
  race (answer none ∷ events) r =
      let rest = race events (received (answer none) r) in
      if r.in_flight == 0 then some failed else rest
  race (stagger ∷ events) r =
      let rest = race events (received stagger r) in if r.in_flight == 0 then some failed else rest
  race (expired e ∷ events) r = if r.in_flight == 0 then some failed else some (ended e)

  -- `handleOutboundIp`, from its first `start`.
  unfoldable pub handle_outbound_ip : List String → List (Event A E) → Option (Outcome A E)
  unfolding race start
  handle_outbound_ip [] events = some failed
  handle_outbound_ip (url ∷ urls) events =
      race events (start (record { waiting = url ∷ urls; in_flight = 0; asked = [] }))

-- The result of a lookup; `hits` are those recorded by its end, and an error of the context is told by its kind.
unfoldable pub result_of :
    ℕ → ℕ → List RouteHit → Outcome OutboundIpResult String → OutboundIpResult
unfolding failure
result_of epoch version hits (won a) = a
result_of epoch version hits failed = failure epoch version hits "failed"
result_of epoch version hits (ended kind) = failure epoch version hits kind
