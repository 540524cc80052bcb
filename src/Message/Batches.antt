-- ===== src/Message/Batches.antt =====
-- The batches: their sizes, and that they hold what was received, in that order.
use mathlib.Core.List.{flatten}
use yu_clash.Prelude.{
  ℕ, suc, ◌≤◌, ◌<◌, ◌≡◌, refl, sym, ◌∙◌, Bool, true, false, not, ◌&&◌, Option, none, some, List, [],
  ◌∷◌, ◌++◌, append-nil, append_assoc, length, length-append, leb, if◌then◌else◌, All, All-append,
  ◌⊎◌, inl, inr, Bool-cases, arith,
}
use yu_clash.Message.{Message}
use yu_clash.Message.Batcher.{
  message_batch_size, message_priority_burst, Source, state, priority, bulk, Batcher, Receive, got,
  closed, Poll, nothing, received, Wake, receives, deadline, Round, is_open, ready, flush, append,
  take, take_priority, wait, priority_first, bulk_turn, iterate, is_running, run_message_batcher,
}

abbrev pub IsBatch : List Message → Type 0
IsBatch batch = (1 ≤ length batch) × (length batch ≤ message_batch_size)

abbrev pub is_empty : List Message → Bool
is_empty [] = true
is_empty (_ ∷ _) = false

-- The open batch is not full, the timer is armed exactly while it holds a message, and no batch that
-- was sent is empty or too long.
pub record IsBatching (b : Batcher) : Type 0 where
  pub short : length b.batch < message_batch_size
  pub armed : b.is_armed ≡ not (is_empty b.batch)
  pub sizes : All IsBatch b.sent

-- Everything that was received, in the order of the batches.
abbrev pub contents : Batcher → List Message
contents b = flatten b.sent ++ b.batch

flatten-snoc :
    (bs : List (List Message)) (b : List Message) → flatten (bs ++ b ∷ []) ≡ flatten bs ++ b
unfolding flatten
flatten-snoc [] b = append-nil b
flatten-snoc (c ∷ bs) b = rw (flatten-snoc bs b) (sym (append_assoc c (flatten bs) b))

flush-IsBatching :
    (b : Batcher)
    → length b.batch ≤ message_batch_size
    → All IsBatch b.sent
    → b.is_armed ≡ not (is_empty b.batch)
    → IsBatching (flush b)
unfolding flush
flush-IsBatching b h s a = ground (arith, All-append IsBatch b.sent (b.batch ∷ []) s)

flush-contents : (b : Batcher) → contents (flush b) ≡ contents b
unfolding flush
flush-contents b =
    ground (arith, flatten-snoc b.sent b.batch, append-nil (flatten b.sent ++ b.batch))

flush_if-contents : (c : Bool) (b : Batcher) → contents (if c then flush b else b) ≡ contents b
flush_if-contents true b = flush-contents b
flush_if-contents false b = refl

append-contents : (m : Message) (b : Batcher) → contents (append m b) ≡ contents b ++ m ∷ []
unfolding append
append-contents m b = flush_if-contents _ _ ∙ sym (append_assoc (flatten b.sent) b.batch (m ∷ []))

append-IsBatching : (m : Message) (b : Batcher) → IsBatching b → IsBatching (append m b)
unfolding append
append-IsBatching m b h = elim (Bool-cases (leb message_batch_size (length (b.batch ++ m ∷ [])))) [
  | inl full ↦ rw full (flush-IsBatching _ (ground (arith, length-snoc)) h.sizes armed)
  | inr more ↦ rw more (record { short = ground arith; armed = armed; sizes = h.sizes })
]
  where
    length-snoc : length (b.batch ++ m ∷ []) ≡ suc (length b.batch)
    length-snoc = omega (arith, length-append b.batch (m ∷ []))

    armed :
        (elim b.batch as (λ _. Bool) [ [] ↦ true | _ ∷ _ ↦ b.is_armed ])
        ≡ not (is_empty (b.batch ++ m ∷ []))
    armed = ground (arith, h.armed)

-- The receive that a round performs: the state queue comes first, then the bulk queue if a burst of
-- priority messages is over, then the priority queue, and then what wakes the last select.
abbrev pub wakes : Wake → Batcher → Option (Source × Receive)
wakes (receives source r) b = if is_open source b then some (source, r) else none
wakes deadline b = none

abbrev pub priority_next : Round → Batcher → Option (Source × Receive)
priority_next round b = elim (ready b.priority_open round.priority_poll) [
  | received r ↦ some (priority, r)
  | nothing ↦ wakes round.wake b
]

abbrev pub chosen : Round → Batcher → Option (Source × Receive)
chosen round b = elim (ready b.state_open round.state_poll) [
  | received r ↦ some (state, r)
  | nothing ↦
      (if leb message_priority_burst b.priority_burst && b.bulk_open
        then (elim round.bulk_poll [
          | received r ↦ some (bulk, r)
          | nothing ↦ priority_next round b
        ])
        else priority_next round b)
]

abbrev pub message_of : Option (Source × Receive) → List Message
message_of (some (source, got m)) = m ∷ []
message_of _ = []

pub Poll-cases : (p : Poll) → (p ≡ nothing) ⊎ ((r : Receive) × (p ≡ received r))
Poll-cases nothing = inl refl
Poll-cases (received r) = inr (r, refl)

-- The messages that the rounds receive, in their order.
pub arrivals : List Round → Batcher → List Message
arrivals [] b = []
arrivals (round ∷ rounds) b =
    let rest = arrivals rounds (iterate round b) in
    if is_running b then message_of (chosen round b) ++ rest else []

take-contents :
    (source : Source) (r : Receive) (b : Batcher)
    → contents (take source r b).0 ≡ contents b ++ message_of (some (source, r))
unfolding take
take-contents source (got m) b = append-contents m b
take-contents state closed b = sym (append-nil (contents b))
take-contents priority closed b = sym (append-nil (contents b))
take-contents bulk closed b = sym (append-nil (contents b))

take_priority-contents :
    (r : Receive) (b : Batcher)
    → contents (take_priority r b) ≡ contents b ++ message_of (some (priority, r))
unfolding take_priority take
take_priority-contents (got m) b = append-contents m b
take_priority-contents closed b = sym (append-nil (contents b))

wait-contents :
    (w : Wake) (b : Batcher) → contents (wait w b) ≡ contents b ++ message_of (wakes w b)
unfolding wait
wait-contents (receives state r) b =
    ground (arith, take-contents state r b, append-nil (contents b))
wait-contents (receives priority r) b =
    ground (arith, take_priority-contents r b, append-nil (contents b))
wait-contents (receives bulk r) b = ground (arith, take-contents bulk r b, append-nil (contents b))
wait-contents deadline b = ground (arith, flush-contents b, append-nil (contents b))

priority_first-contents :
    (round : Round) (b : Batcher)
    → contents (priority_first round b) ≡ contents b ++ message_of (priority_next round b)
unfolding priority_first
priority_first-contents round b = elim (Poll-cases (ready b.priority_open round.priority_poll)) [
  | inl e ↦ ground (arith, wait-contents round.wake b)
  | inr (r, e) ↦ ground (arith, take_priority-contents r b)
]

iterate-contents :
    (round : Round) (b : Batcher)
    → contents (iterate round b) ≡ contents b ++ message_of (chosen round b)
unfolding iterate bulk_turn
iterate-contents round b = elim (Poll-cases (ready b.state_open round.state_poll)) [
  | inr (r, e) ↦ ground (arith, take-contents state r b)
  | inl e ↦ elim (Poll-cases round.bulk_poll) [
    | inr (r, f) ↦ ground (
      arith,
      take-contents bulk r (record b { priority_burst = 0 }),
      priority_first-contents round b,
    )
    | inl f ↦ ground (
      arith,
      priority_first-contents round b,
      priority_first-contents round (record b { priority_burst = 0 }),
    )
  ]
]

take-IsBatching :
    (source : Source) (r : Receive) (b : Batcher) → IsBatching b → IsBatching (take source r b).0
unfolding take
take-IsBatching source (got m) b h = append-IsBatching m b h
take-IsBatching state closed b h = record { short = h.short; armed = h.armed; sizes = h.sizes }
take-IsBatching priority closed b h = record { short = h.short; armed = h.armed; sizes = h.sizes }
take-IsBatching bulk closed b h = record { short = h.short; armed = h.armed; sizes = h.sizes }

-- The counter of the burst plays no part.
set_burst-IsBatching :
    (n : ℕ) (b : Batcher) → IsBatching b → IsBatching (record b { priority_burst = n })
set_burst-IsBatching n b h = record { short = h.short; armed = h.armed; sizes = h.sizes }

take_priority-IsBatching :
    (r : Receive) (b : Batcher) → IsBatching b → IsBatching (take_priority r b)
unfolding take_priority take
take_priority-IsBatching (got m) b h = set_burst-IsBatching _ _ (append-IsBatching m b h)
take_priority-IsBatching closed b h = take-IsBatching priority closed b h

wait-IsBatching : (w : Wake) (b : Batcher) → IsBatching b → IsBatching (wait w b)
unfolding wait
wait-IsBatching (receives state r) b h = ground (arith, take-IsBatching state r b h)
wait-IsBatching (receives priority r) b h = ground (arith, take_priority-IsBatching r b h)
wait-IsBatching (receives bulk r) b h =
    ground (arith, set_burst-IsBatching 0 _ (take-IsBatching bulk r b h))
wait-IsBatching deadline b h =
    ground (arith, flush-IsBatching b (omega (arith, h.short)) h.sizes h.armed)

priority_first-IsBatching :
    (round : Round) (b : Batcher) → IsBatching b → IsBatching (priority_first round b)
unfolding priority_first
priority_first-IsBatching round b h =
    elim (Poll-cases (ready b.priority_open round.priority_poll)) [
      | inl e ↦ ground (arith, wait-IsBatching round.wake b h)
      | inr (r, e) ↦ ground (arith, take_priority-IsBatching r b h)
    ]

iterate-IsBatching : (round : Round) (b : Batcher) → IsBatching b → IsBatching (iterate round b)
unfolding iterate bulk_turn
iterate-IsBatching round b h = elim (Poll-cases (ready b.state_open round.state_poll)) [
  | inr (r, e) ↦ ground (arith, take-IsBatching state r b h)
  | inl e ↦
      let h0 = set_burst-IsBatching 0 b h in
      elim (Poll-cases round.bulk_poll) [
        | inr (r, f) ↦
            ground (arith, take-IsBatching bulk r _ h0, priority_first-IsBatching round b h)
        | inl f ↦
            ground
              (arith, priority_first-IsBatching round b h, priority_first-IsBatching round _ h0)
      ]
]

run_message_batcher-IsBatching :
    (rounds : List Round) (b : Batcher) → IsBatching b → IsBatching (run_message_batcher rounds b)
unfolding run_message_batcher
run_message_batcher-IsBatching [] b h =
    ground (arith, flush-IsBatching b (omega (arith, h.short)) h.sizes h.armed)
run_message_batcher-IsBatching (round ∷ rounds) b h = ground (
  arith,
  flush-IsBatching b (omega (arith, h.short)) h.sizes h.armed,
  run_message_batcher-IsBatching rounds (iterate round b) (iterate-IsBatching round b h),
)

run_message_batcher-contents :
    (rounds : List Round) (b : Batcher)
    → contents (run_message_batcher rounds b) ≡ contents b ++ arrivals rounds b
unfolding run_message_batcher arrivals
run_message_batcher-contents [] b = ground (arith, flush-contents b, append-nil (contents b))
run_message_batcher-contents (round ∷ rounds) b = ground (
  arith,
  flush-contents b,
  append-nil (contents b),
  run_message_batcher-contents rounds (iterate round b),
  iterate-contents round b,
  append_assoc (contents b) (message_of (chosen round b)) (arrivals rounds (iterate round b)),
)

flush-batch : (b : Batcher) → (flush b).batch ≡ []
unfolding flush
flush-batch b = ground arith

flush-is_running : (b : Batcher) → is_running (flush b) ≡ is_running b
unfolding flush
flush-is_running b = ground arith

run_message_batcher_stopped :
    (rounds : List Round) (b : Batcher)
    → is_running (run_message_batcher rounds b) ≡ false
    → (run_message_batcher rounds b).batch ≡ []
unfolding run_message_batcher
run_message_batcher_stopped [] b h = ground (arith, flush-batch b)
run_message_batcher_stopped (round ∷ rounds) b h =
    ground (arith, flush-batch b, run_message_batcher_stopped rounds (iterate round b))

-- From a state whose open batch is short and armed, the batcher never sends an empty batch or one of
-- more than 32 messages, its timer is armed exactly while messages wait, and what it has sent, with
-- what waits, is what it had followed by every message that it received, in the order of receipt:
-- none is lost, doubled or moved. Once all three queues are closed, nothing waits.
pub batches_in_order :
    (rounds : List Round) (b : Batcher)
    → IsBatching b
    → let b' = run_message_batcher rounds b in
      IsBatching b'
      × (contents b' ≡ contents b ++ arrivals rounds b)
      × (is_running b' ≡ false → flatten b'.sent ≡ contents b ++ arrivals rounds b)
batches_in_order rounds b h = (
  run_message_batcher-IsBatching rounds b h,
  run_message_batcher-contents rounds b,
  λ stopped. cc (
    run_message_batcher-contents rounds b,
    run_message_batcher_stopped rounds b stopped,
    append-nil (flatten (run_message_batcher rounds b).sent),
  ),
)
