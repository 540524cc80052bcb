-- ===== src/Outbound/InFlight.antt =====
-- How many sources the race asks at once, and in which order.
use yu_clash.Prelude.{
  ◌-◌, ◌≤◌, ◌≡◌, refl, sym, ap, ◌∙◌, String, List, [], ◌∷◌, ◌++◌, append_assoc, arith,
}
use yu_clash.Outbound.Race.{Race, started, start, Event, answer, stagger, expired, received}

-- The slots in flight are bounded, and the sources asked are the first ones, each once.
pub IsWithin : List String → Race → Type 0
IsWithin urls r = (r.in_flight ≤ 3) × (r.asked ++ r.waiting ≡ urls)

start-IsWithin : (urls : List String) (r : Race) → IsWithin urls r → IsWithin urls (start r)
unfolding IsWithin start
start-IsWithin urls r (b, q) = go r.waiting refl
  where
    moved : (w : String) (ws : List String) → r.waiting ≡ w ∷ ws → r.asked ++ w ∷ [] ++ ws ≡ urls
    moved w ws e = append_assoc r.asked (w ∷ []) ws ∙ ap (λ x. r.asked ++ x) (sym e) ∙ q

    go : (ws : List String) → r.waiting ≡ ws → IsWithin urls (started ws r)
    go [] e = (b, q)
    go (w ∷ ws) e = ground (arith, b, q, moved w ws e)

module _ {A E : Type 0} where
  received-IsWithin :
      (urls : List String) (e : Event A E) (r : Race)
      → IsWithin urls r
      → IsWithin urls (received e r)
  unfolding received IsWithin
  received-IsWithin urls (answer a) r (b, q) =
      start-IsWithin urls (record r { in_flight = r.in_flight - 1 }) (omega (arith, b), q)
  received-IsWithin urls stagger r h = start-IsWithin urls r h
  received-IsWithin urls (expired e) r h = h

  unfoldable pub after_all : List (Event A E) → Race → Race
  unfolding received
  after_all [] r = r
  after_all (e ∷ events) r = after_all events (received e r)

  after_all-IsWithin :
      (urls : List String) (events : List (Event A E)) (r : Race)
      → IsWithin urls r
      → IsWithin urls (after_all events r)
  unfolding after_all
  after_all-IsWithin urls [] r h = h
  after_all-IsWithin urls (e ∷ events) r h =
      after_all-IsWithin urls events (received e r) (received-IsWithin urls e r h)

  -- However answers and ticks come, a lookup never has more than three sources in flight, and those it has asked are the
  -- first ones of its list, in order and each once, followed by those that still wait.
  pub sources_in_order :
      (urls : List String) (events : List (Event A E))
      → IsWithin urls
          (after_all events (start (record { waiting = urls; in_flight = 0; asked = [] })))
  unfolding IsWithin
  sources_in_order urls events =
      after_all-IsWithin urls events (start (record { waiting = urls; in_flight = 0; asked = [] }))
        (start-IsWithin urls (record { waiting = urls; in_flight = 0; asked = [] })
          (omega arith, refl))
