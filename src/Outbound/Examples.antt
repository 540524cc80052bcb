-- ===== src/Outbound/Examples.antt =====
-- A race of four sources, and two lookups of different epochs.
use yu_clash.Prelude.{
  ℕ, ◌≡◌, refl, true, false, none, some, String, List, [], ◌∷◌, ◌++◌, ◌==◌, leb, if◌then◌else◌,
  length, nat_equality,
}
use yu_clash.Prelude.Maps.{lookup}
use yu_clash.Text.{bytes}
use yu_clash.Outbound.{address_fields, mentions_ip}
use yu_clash.Outbound.Race.{start, Event, answer, stagger, won, failed, handle_outbound_ip}
use yu_clash.Outbound.First.{answers, first_usable_wins}
use yu_clash.Outbound.InFlight.{IsWithin, after_all, sources_in_order}
use yu_clash.Outbound.Claims.{
  OutboundClaims, Step, claim, release, run, claim_outbound_ip, is_older, none-IsWell,
  older_lookups_are_cancelled,
}

abbrev urls : List String
urls = "a" ∷ "b" ∷ "c" ∷ "d" ∷ []

abbrev events : List (Event ℕ String)
events = stagger ∷ answer none ∷ stagger ∷ stagger ∷ answer none ∷ []

fields : address_fields (bytes "ip=1.2.3.4;x") ≡ bytes "ip" ∷ bytes "1.2.3.4" ∷ bytes "x" ∷ []
unfolding address_fields
fields = refl

public_address :
    mentions_ip
      (λ s.
        if length s == 7
        then some (record { is_global_unicast = true; is_private = false; is_shared = false })
        else none)
      (bytes "ip=1.2.3.4;x")
    ≡ true
unfolding mentions_ip
public_address = refl

first_usable_wins_example :
    handle_outbound_ip urls (events ++ answer (some 7) ∷ answer (some 8) ∷ [])
    ≡ (if leb (length urls) (answers events) then some failed else some (won 7))
first_usable_wins_example =
    first_usable_wins "a" ("b" ∷ "c" ∷ "d" ∷ []) events (answer (some 7) ∷ answer (some 8) ∷ [])
      (refl, (refl, (refl, (refl, (refl, tt))))) refl

sources_in_order_example :
    IsWithin urls (after_all events (start (record { waiting = urls; in_flight = 0; asked = [] })))
sources_in_order_example = sources_in_order urls events

abbrev fresh : OutboundClaims
fresh = record { next = 0; claims = []; live = [] }

abbrev steps : List Step
steps = claim 4 ∷ claim 5 ∷ claim 5 ∷ release 1 ∷ []

older_lookups_are_cancelled_example : lookup 2 (claim_outbound_ip 6 (run steps fresh)).live ≡ (
    if (run steps fresh).next == 2
    then some 6
    else if is_older 6 (lookup 2 (run steps fresh).live)
    then none
    else lookup 2 (run steps fresh).live)
older_lookups_are_cancelled_example =
    older_lookups_are_cancelled steps fresh (none-IsWell fresh refl refl) 6 2
