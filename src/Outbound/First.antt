-- ===== src/Outbound/First.antt =====
-- The first usable answer wins the race, and it is given up only when every source has answered in vain.
use yu_clash.Prelude.{
  ℕ, suc, ◌+◌, ◌-◌, ◌≤◌, ◌<◌, ◌≡◌, ◌≢◌, refl, ap, ◌∙◌, Bool, true, false, Option, none, some,
  String, List, [], ◌∷◌, ◌++◌, ◌==◌, leb, if◌then◌else◌, length, All, Bool-cases, inl, inr, arith,
}
use yu_clash.Outbound.Race.{
  Race, started, start, Event, answer, stagger, expired, Outcome, won, failed, ended, received,
  race, handle_outbound_ip,
}

remaining : Race → ℕ
remaining r = r.in_flight + length r.waiting

-- Nothing waits while nothing is in flight.
IsStarted : Race → Type 0
IsStarted r = r.in_flight ≡ 0 → r.waiting ≡ []

remaining-start : (r : Race) → remaining (start r) ≡ remaining r
unfolding remaining start
remaining-start r = go r.waiting refl
  where
    go :
        (ws : List String)
        → r.waiting ≡ ws
        → remaining (started ws r) ≡ r.in_flight + length r.waiting
    go [] e = refl
    go (w ∷ ws) e = ground (arith, ap length e)

start-IsStarted : (r : Race) → IsStarted (start r)
unfolding IsStarted start
start-IsStarted r = go r.waiting refl
  where
    go :
        (ws : List String)
        → r.waiting ≡ ws
        → (started ws r).in_flight ≡ 0
        → (started ws r).waiting ≡ []
    go [] e z = e
    go (w ∷ ws) e z = ground (arith, z)

busy_while_remaining : (r : Race) → IsStarted r → 0 < remaining r → (r.in_flight == 0) ≡ false
unfolding remaining IsStarted
busy_while_remaining r s h = elim (Bool-cases (r.in_flight == 0)) [
  | inl e ↦ (let z : r.in_flight ≡ 0 = ground (arith, e) in ground (arith, z, ap length (s z), h))
  | inr e ↦ e
]

module _ {A E : Type 0} where
  abbrev is_vain : Event A E → Bool
  is_vain (answer none) = true
  is_vain stagger = true
  is_vain _ = false

  -- An answer that is not usable, or a tick.
  abbrev pub IsVain : Event A E → Type 0
  IsVain e = is_vain e ≡ true

  -- How many sources have answered.
  abbrev pub answers : List (Event A E) → ℕ
  answers [] = 0
  answers (answer _ ∷ events) = suc (answers events)
  answers (_ ∷ events) = answers events

  abbrev Open : List (Event A E) → List (Event A E) → Race → Type 0
  Open events rest r = (r' : Race) × (race (events ++ rest) r ≡ race rest r') × (r'.in_flight ≢ 0)

  race-idle : (events : List (Event A E)) (r : Race) → r.in_flight ≡ 0 → race events r ≡ some failed
  unfolding race
  race-idle [] r z = ground (arith, z)
  race-idle (answer none ∷ events) r z = ground (arith, z)
  race-idle (answer (some a) ∷ events) r z = ground (arith, z)
  race-idle (stagger ∷ events) r z = ground (arith, z)
  race-idle (expired e ∷ events) r z = ground (arith, z)

  given_up :
      (events rest : List (Event A E)) (r : Race)
      → All IsVain events
      → IsStarted r
      → remaining r ≤ answers events
      → race (events ++ rest) r ≡ some failed
  unfolding race received remaining
  given_up [] rest r v s h = race-idle rest r (omega (arith, h))
  given_up (answer none ∷ events) rest r (_, v) s h = ground (
    arith,
    race-idle (answer none ∷ events ++ rest) r,
    given_up events rest (start (record r { in_flight = r.in_flight - 1 })) v
        (start-IsStarted (record r { in_flight = r.in_flight - 1 })),
    remaining-start (record r { in_flight = r.in_flight - 1 }),
    h,
  )
  given_up (stagger ∷ events) rest r (_, v) s h =
      ground (arith, given_up events rest (start r) v (start-IsStarted r), remaining-start r, h)
  given_up (answer (some a) ∷ events) rest r (q, _) s h = ground (arith, q)
  given_up (expired e ∷ events) rest r (q, _) s h = ground (arith, q)

  unfinished :
      (events rest : List (Event A E)) (r : Race)
      → All IsVain events
      → IsStarted r
      → answers events < remaining r
      → Open events rest r
  unfolding race received remaining IsStarted
  unfinished [] rest r v s h = (r, refl, nonzero)
    where
      nonzero : r.in_flight ≢ 0
      nonzero z = ground (arith, z, s z, ap length (s z), h)
  unfinished (answer none ∷ events) rest r (_, v) s h =
      let r1 = start (record r { in_flight = r.in_flight - 1 }) in
      let busy : (r.in_flight == 0) ≡ false = busy_while_remaining r s (omega (arith, h)) in
      let (r', q, z) =
        unfinished events rest r1 v (start-IsStarted (record r { in_flight = r.in_flight - 1 }))
          (omega (arith, remaining-start (record r { in_flight = r.in_flight - 1 }), h)) in
      (r', ground (arith, busy, q), z)
  unfinished (stagger ∷ events) rest r (_, v) s h =
      let (r', q, z) =
        unfinished events rest (start r) v (start-IsStarted r)
          (omega (arith, remaining-start r, h)) in
      (r', ground (arith, busy_while_remaining r s (omega (arith, h)), q), z)
  unfinished (answer (some a) ∷ events) rest r (q, _) s h = ground (arith, q)
  unfinished (expired e ∷ events) rest r (q, _) s h = ground (arith, q)

  -- What decides a lookup in which a source is still to answer.
  abbrev pub verdict : List (Event A E) → Option (Outcome A E)
  verdict [] = none
  verdict (answer none ∷ _) = none
  verdict (answer (some a) ∷ _) = some (won a)
  verdict (stagger ∷ _) = none
  verdict (expired e ∷ _) = some (ended e)

  abbrev begins_vain : List (Event A E) → Bool
  begins_vain [] = false
  begins_vain (e ∷ _) = is_vain e

  abbrev pub IsDecisive : List (Event A E) → Type 0
  IsDecisive rest = begins_vain rest ≡ false

  race-verdict :
      (rest : List (Event A E)) (r : Race)
      → IsDecisive rest
      → r.in_flight ≢ 0
      → race rest r ≡ verdict rest
  unfolding race
  race-verdict [] r d n = ground (arith, n)
  race-verdict (answer none ∷ rest) r d n = ground (arith, d)
  race-verdict (answer (some a) ∷ rest) r d n = ground (arith, n)
  race-verdict (stagger ∷ rest) r d n = ground (arith, d)
  race-verdict (expired e ∷ rest) r d n = ground (arith, n)

  race_decides :
      (events rest : List (Event A E)) (r : Race)
      → All IsVain events
      → IsDecisive rest
      → IsStarted r
      → race (events ++ rest) r
        ≡ (if leb (remaining r) (answers events) then some failed else verdict rest)
  race_decides events rest r v d s = elim (Bool-cases (leb (remaining r) (answers events))) [
    | inl e ↦ given_up events rest r v s (ground (arith, e)) ∙ ground (arith, e)
    | inr e ↦
        (let (r', q, n) = unfinished events rest r v s (ground (arith, e)) in
          q ∙ race-verdict rest r' d n ∙ ground (arith, e))
  ]

  -- After any ticks and unusable answers: when every source has answered, the lookup has failed; while one has not, an
  -- answer that is usable wins at once, whatever follows, the end of the context ends the lookup with its error, and
  -- without either the lookup still waits.
  pub first_usable_wins :
      (url : String) (urls : List String) (events rest : List (Event A E))
      → All IsVain events
      → IsDecisive rest
      → handle_outbound_ip (url ∷ urls) (events ++ rest)
        ≡ (if leb (length (url ∷ urls)) (answers events) then some failed else verdict rest)
  unfolding handle_outbound_ip remaining
  first_usable_wins url urls events rest v d =
      race_decides events rest (start whole) v d (start-IsStarted whole)
      ∙ ap (λ n. if leb n (answers events) then some failed else verdict rest)
          (remaining-start whole ∙ omega arith)
    where
      whole : Race
      whole = record { waiting = url ∷ urls; in_flight = 0; asked = [] }
