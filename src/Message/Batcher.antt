-- ===== src/Message/Batcher.antt =====
-- core/message.go: `runMessageBatcher`. One round of its loop is a function of what the selects met;
-- the timer shows only in whether its channel is armed.
use yu_clash.Prelude.{
  ℕ, ◌+◌, Bool, true, false, ◌&&◌, ◌||◌, List, [], ◌∷◌, ◌++◌, length, leb, if◌then◌else◌,
}
use yu_clash.Message.{Message}

abbrev pub message_batch_size : ℕ
message_batch_size = 32

abbrev pub message_priority_burst : ℕ
message_priority_burst = 8

-- The three queues; a queue that was seen closed is set to nil, and its flag is then `false`.
pub data Source : Type 0 where
  state priority bulk : Source

pub record Batcher : Type 0 where
  pub state_open : Bool
  pub priority_open : Bool
  pub bulk_open : Bool
  pub batch : List Message
  -- `deadline != nil`
  pub is_armed : Bool
  pub priority_burst : ℕ
  -- the batches handed to `send`, oldest first
  pub sent : List (List Message)

abbrev pub start : Batcher
start = record {
  state_open = true;
  priority_open = true;
  bulk_open = true;
  batch = [];
  is_armed = false;
  priority_burst = 0;
  sent = [];
}

-- A receive: a message, or the news that the queue is closed.
pub data Receive : Type 0 where
  got : Message → Receive
  closed : Receive

-- A select with a default: nothing is there, or a receive.
pub data Poll : Type 0 where
  nothing : Poll
  received : Receive → Poll

-- The select without a default: a receive from one queue, or the deadline.
pub data Wake : Type 0 where
  receives : Source → Receive → Wake
  deadline : Wake

-- What the selects of a round would meet; one that the round does not reach is not looked at.
pub record Round : Type 0 where
  pub state_poll : Poll
  pub bulk_poll : Poll
  pub priority_poll : Poll
  pub wake : Wake

abbrev pub is_open : Source → Batcher → Bool
is_open state b = b.state_open
is_open priority b = b.priority_open
is_open bulk b = b.bulk_open

abbrev pub close : Source → Batcher → Batcher
close state b = record b { state_open = false }
close priority b = record b { priority_open = false }
close bulk b = record b { bulk_open = false }

-- `flush`.
unfoldable pub flush : Batcher → Batcher
flush b = elim b.batch [
  | [] ↦ b
  | m ∷ ms ↦ record b { batch = []; is_armed = false; sent = b.sent ++ (m ∷ ms) ∷ [] }
]

-- The message at the end of the batch; the first one arms the timer.
abbrev pub push : Message → Batcher → Batcher
push m b = record b {
  batch = b.batch ++ m ∷ [];
  is_armed = elim b.batch [ [] ↦ true | _ ↦ b.is_armed ];
}

-- The part of `take` that appends a message.
unfoldable pub append : Message → Batcher → Batcher
unfolding flush
append m b = let b1 = push m b in if leb message_batch_size (length b1.batch) then flush b1 else b1

-- `take`: the result tells whether a message came.
unfoldable pub take : Source → Receive → Batcher → Batcher × Bool
unfolding append
take source closed b = (close source b, false)
take source (got m) b = (append m b, true)

-- `priorityBurst` after a take from the priority queue.
unfoldable pub take_priority : Receive → Batcher → Batcher
unfolding take
take_priority r b =
    let (b', came) = take priority r b in
    if came then record b' { priority_burst = b'.priority_burst + 1 } else b'

-- A nil channel is never ready.
abbrev pub ready : Bool → Poll → Poll
ready true p = p
ready false p = nothing

-- The last select. A queue that is nil and a deadline that is not armed are never chosen.
unfoldable pub wait : Wake → Batcher → Batcher
unfolding take take_priority flush
wait (receives state r) b = if b.state_open then (take state r b).0 else b
wait (receives priority r) b = if b.priority_open then take_priority r b else b
wait (receives bulk r) b =
    if b.bulk_open then (let b' = (take bulk r b).0 in record b' { priority_burst = 0 }) else b
wait deadline b = if b.is_armed then flush b else b

-- The round from the select over the priority queue on.
unfoldable pub priority_first : Round → Batcher → Batcher
unfolding take_priority wait
priority_first round b = elim (ready b.priority_open round.priority_poll) [
  | received r ↦ take_priority r b
  | nothing ↦ wait round.wake b
]

-- The round after the select over the state queue.
unfoldable pub bulk_turn : Round → Batcher → Batcher
unfolding take priority_first
bulk_turn round b =
    let b1 = record b { priority_burst = 0 } in
    if leb message_priority_burst b.priority_burst && b.bulk_open
    then (elim round.bulk_poll [
      | received r ↦ (take bulk r b1).0
      | nothing ↦ priority_first round b1
    ])
    else priority_first round b

-- One round of the loop.
unfoldable pub iterate : Round → Batcher → Batcher
unfolding take bulk_turn
iterate round b = elim (ready b.state_open round.state_poll) [
  | received r ↦ (take state r b).0
  | nothing ↦ bulk_turn round b
]

-- The condition of the loop.
abbrev pub is_running : Batcher → Bool
is_running b = b.state_open || b.priority_open || b.bulk_open

-- The loop over the rounds that happen, and the flush behind it.
unfoldable pub run_message_batcher : List Round → Batcher → Batcher
unfolding iterate flush
run_message_batcher [] b = elim (is_running b) [ true ↦ b | false ↦ flush b ]
run_message_batcher (round ∷ rounds) b = elim (is_running b) [
  | true ↦ run_message_batcher rounds (iterate round b)
  | false ↦ flush b
]
