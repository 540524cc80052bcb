-- ===== src/Message/Fairness.antt =====
-- A burst of priority messages cannot keep the bulk queue waiting.
use yu_clash.Prelude.{
  suc, ◌+◌, ◌≤◌, ◌<◌, ◌≡◌, refl, Bool, true, false, some, List, [], ◌∷◌, length, if◌then◌else◌, inl,
  inr, arith,
}
use yu_clash.Message.{Message}
use yu_clash.Message.Batcher.{
  message_priority_burst, state, priority, bulk, Batcher, Receive, got, nothing, received, Wake,
  receives, deadline, Round, ready, flush, push, append, take, take_priority, wait, priority_first,
  bulk_turn, iterate,
}
use yu_clash.Message.Batches.{chosen, priority_next, wakes, Poll-cases}

flush-burst :
    (b : Batcher)
    → ((flush b).priority_burst ≡ b.priority_burst) × ((flush b).bulk_open ≡ b.bulk_open)
unfolding flush
flush-burst b = ground arith

flush_if-burst :
    (c : Bool) (b : Batcher)
    → ((if c then flush b else b).priority_burst ≡ b.priority_burst)
      × ((if c then flush b else b).bulk_open ≡ b.bulk_open)
flush_if-burst true b = flush-burst b
flush_if-burst false b = (refl, refl)

append-burst :
    (m : Message) (b : Batcher)
    → ((append m b).priority_burst ≡ b.priority_burst) × ((append m b).bulk_open ≡ b.bulk_open)
unfolding append
append-burst m b = flush_if-burst _ (push m b)

-- While the bulk queue is open the burst stays within its bound.
abbrev pub IsFair : Batcher → Type 0
IsFair b = b.bulk_open ≡ true → b.priority_burst ≤ message_priority_burst

-- In this round the bulk queue has a message or its end to give, no state message is there, and the
-- batcher takes a priority message.
abbrev pub Starves : Round → Batcher → Type 0
Starves round b =
    (b.bulk_open ≡ true)
    × ((r : Receive) × (round.bulk_poll ≡ received r))
    × (ready b.state_open round.state_poll ≡ nothing)
    × ((m : Message) × (chosen round b ≡ some (priority, got m)))

-- It does so in each of the rounds.
abbrev pub StarvesFor : List Round → Batcher → Type 0
StarvesFor [] b = Unit
StarvesFor (round ∷ rounds) b = Starves round b × StarvesFor rounds (iterate round b)

take_priority-burst_got :
    (m : Message) (b : Batcher) → (take_priority (got m) b).priority_burst ≡ suc b.priority_burst
unfolding take_priority take
take_priority-burst_got m b = ground (arith, append-burst m b)

wait-burst :
    (w : Wake) (m : Message) (b : Batcher)
    → wakes w b ≡ some (priority, got m)
    → (wait w b).priority_burst ≡ suc b.priority_burst
unfolding wait
wait-burst (receives state r) m b h = ground arith
wait-burst (receives priority r) m b h = ground (arith, take_priority-burst_got m b)
wait-burst (receives bulk r) m b h = ground arith
wait-burst deadline m b h = cc

priority_first-burst :
    (round : Round) (m : Message) (b : Batcher)
    → priority_next round b ≡ some (priority, got m)
    → (priority_first round b).priority_burst ≡ suc b.priority_burst
unfolding priority_first
priority_first-burst round m b h = elim (Poll-cases (ready b.priority_open round.priority_poll)) [
  | inr (r, e) ↦ ground (arith, take_priority-burst_got m b)
  | inl e ↦ ground (arith, wait-burst round.wake m b)
]

Starves-burst :
    (round : Round) (b : Batcher)
    → Starves round b
    → ((iterate round b).priority_burst ≡ suc b.priority_burst)
      × (b.priority_burst < message_priority_burst)
unfolding iterate bulk_turn
Starves-burst round b (open_bulk, (r, has), quiet, (m, takes)) =
    ground (arith, priority_first-burst round m b)

-- In the rounds during which the bulk queue has something to give, no state message is there and the
-- batcher takes a priority message each time, the burst grows by one a round: there are at most
-- eight such rounds in a row, fewer if a burst had begun.
pub priority_burst_bounded :
    (rounds : List Round) (b : Batcher)
    → b.priority_burst ≤ message_priority_burst
    → StarvesFor rounds b
    → b.priority_burst + length rounds ≤ message_priority_burst
priority_burst_bounded [] b f s = omega arith
priority_burst_bounded (round ∷ rounds) b f (now, later) =
    let (grows, room) = Starves-burst round b now in
    omega (arith, priority_burst_bounded rounds (iterate round b) (omega arith) later, grows, room)
