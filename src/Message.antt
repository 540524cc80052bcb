-- ===== src/Message.antt =====
-- core/message.go and the message types of core/protocol.go: the classes of messages and the three
-- bounded queues. `Batcher` has the goroutine that empties them, and the other children the proofs.
pub mod Sending
pub mod Batcher
pub mod Batches
pub mod Fairness
mod Examples
use yu_clash.Prelude.{
  ℕ, zero, suc, ◌+◌, ◌*◌, Bool, true, false, List, [], ◌∷◌, ◌++◌, length, ltb, if◌then◌else◌,
}

-- The constants of `MessageType`.
pub data MessageType : Type 0 where
  log delay request dns loaded geo_update route_changed dialer_loop request_traffic : MessageType

-- The data of a message is not looked into: a number stands for it.
pub record Message : Type 0 where
  pub kind : MessageType
  pub payload : ℕ

pub data MessageClass : Type 0 where
  state_class priority_class bulk_class yielding_bulk_class : MessageClass

unfoldable pub class_of : MessageType → MessageClass
class_of loaded = state_class
class_of geo_update = state_class
class_of route_changed = state_class
class_of log = bulk_class
class_of request = bulk_class
class_of dns = yielding_bulk_class
class_of request_traffic = yielding_bulk_class
class_of delay = priority_class
class_of dialer_loop = priority_class

abbrev pub message_queue_size : ℕ
message_queue_size = 256

abbrev pub message_evict_attempts : ℕ
message_evict_attempts = 4

-- A buffered channel, oldest message first.
abbrev pub Queue : Type 0
Queue = List Message

abbrev pub has_room : Queue → Bool
has_room q = ltb (length q) message_queue_size

-- `enqueueState`: the queue and whether the message was queued.
unfoldable pub enqueue_state : Queue → Message → Queue × Bool
enqueue_state q m = if has_room q then (q ++ m ∷ [], true) else (q, false)

abbrev pub evict : Queue → Queue
evict [] = []
evict (_ ∷ q) = q

-- The loop of `enqueueLatest` with the attempts that are left. Other goroutines may run between the
-- two selects of an attempt and before the next one: `others` is what they do to the queue there.
unfoldable pub attempt : ℕ → (ℕ → Queue → Queue) → Queue → Message → Queue × Bool
attempt zero others q m = (q, false)
attempt (suc left) others q m = elim (has_room q) [
  | true ↦ (q ++ m ∷ [], true)
  | false ↦ attempt left others (others (2 * left) (evict (others (2 * left + 1) q))) m
]

unfoldable pub enqueue_latest : (ℕ → Queue → Queue) → Queue → Message → Queue × Bool
unfolding attempt
enqueue_latest others q m = attempt message_evict_attempts others q m

pub record Queues : Type 0 where
  pub state : Queue
  pub priority : Queue
  pub bulk : Queue

-- `sendMessage`, once there is a listener; each class has its queue and its way to enter it.
unfoldable pub enqueue : (ℕ → Queue → Queue) → Message → MessageClass → Queues → Queues × Bool
unfolding enqueue_state enqueue_latest
enqueue others m state_class qs =
    let (q, queued) = enqueue_state qs.state m in (record qs { state = q }, queued)
enqueue others m bulk_class qs =
    let (q, queued) = enqueue_latest others qs.bulk m in (record qs { bulk = q }, queued)
enqueue others m yielding_bulk_class qs =
    let (q, queued) = enqueue_state qs.bulk m in (record qs { bulk = q }, queued)
enqueue others m priority_class qs =
    let (q, queued) = enqueue_latest others qs.priority m in (record qs { priority = q }, queued)

-- `sendMessage`.
unfoldable pub send_message : Bool → (ℕ → Queue → Queue) → Message → Queues → Queues × Bool
unfolding class_of enqueue
send_message has_event_listener others m qs =
    if has_event_listener then enqueue others m (class_of m.kind) qs else (qs, false)
