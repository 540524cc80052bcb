-- ===== src/Message/Sending.antt =====
-- What `sendMessage` does to the queues.
use yu_clash.Prelude.{
  ℕ, suc, Option, none, some, ltb, if◌then◌else◌, ◌≤◌, drop, ◌-◌, ◌≡◌, refl, Bool, true, false, [],
  ◌∷◌, ◌++◌, length, length-append, inl, inr, Bool-cases, arith,
}
use yu_clash.Message.{
  MessageType, loaded, geo_update, route_changed, dns, request_traffic, log, request, delay,
  dialer_loop, Message, class_of, message_queue_size, Queue, MessageClass, has_room, enqueue_state,
  attempt, enqueue_latest, Queues, enqueue, send_message,
}

abbrev pub alone : ℕ → Queue → Queue
alone gap q = q

length-snoc : (q : Queue) (m : Message) → length (q ++ m ∷ []) ≡ suc (length q)
length-snoc q m = omega (arith, length-append q (m ∷ []))

-- With no other goroutine in the way `enqueueLatest` always queues the message, and what the queue then
-- holds are the newest messages, as many as fit.
enqueue_latest-evict :
    (q : Queue) (m : Message)
    → length q ≤ message_queue_size
    → ((enqueue_latest alone q m).1 ≡ true)
      × ((enqueue_latest alone q m).0 ≡ drop (suc (length q) - message_queue_size) (q ++ m ∷ []))
unfolding enqueue_latest attempt
enqueue_latest-evict [] m h = (refl, refl)
enqueue_latest-evict (x ∷ q) m h = elim (Bool-cases (has_room (x ∷ q))) [
  | inl room ↦
      let e : suc (length (x ∷ q)) - message_queue_size ≡ 0 = ground arith in
      (ground arith, rw e (ground arith))
  | inr full ↦
      let e : suc (length (x ∷ q)) - message_queue_size ≡ 1 = ground arith in
      let room : has_room q ≡ true = ground arith in (ground arith, rw e (ground arith))
]

-- The three queues.
pub data Lane : Type 0 where
  state_lane priority_lane bulk_lane : Lane

abbrev pub lane_of : Lane → Queues → Queue
lane_of state_lane qs = qs.state
lane_of priority_lane qs = qs.priority
lane_of bulk_lane qs = qs.bulk

-- The queue of each kind of message that never evicts another.
abbrev pub yields_in : MessageType → Option Lane
yields_in loaded = some state_lane
yields_in geo_update = some state_lane
yields_in route_changed = some state_lane
yields_in dns = some bulk_lane
yields_in request_traffic = some bulk_lane
yields_in _ = none

-- The queue of each other kind of message.
abbrev pub evicts_in : MessageType → Option Lane
evicts_in log = some bulk_lane
evicts_in request = some bulk_lane
evicts_in delay = some priority_lane
evicts_in dialer_loop = some priority_lane
evicts_in _ = none

abbrev pub with_lane : Lane → Queue → Queues → Queues
with_lane state_lane q qs = record qs { state = q }
with_lane priority_lane q qs = record qs { priority = q }
with_lane bulk_lane q qs = record qs { bulk = q }

abbrev full_or_gained : Lane → Queues → Message → Queues × Bool
full_or_gained lane qs m =
    if ltb (length (lane_of lane qs)) 256
    then (with_lane lane (lane_of lane qs ++ m ∷ []) qs, true)
    else (qs, false)

-- A state message (loaded, geo update, route changed) and a DNS or traffic message never push a queued message out: where
-- the state queue, or for the last two the bulk queue, has room, it gains the message at its end and the call reports it
-- queued; where it is full, no queue changes and the call reports it dropped. The other two queues stay in either case.
pub send_yields :
    (others : ℕ → Queue → Queue) (m : Message) (qs : Queues) (lane : Lane)
    → yields_in m.kind ≡ some lane
    → send_message true others m qs ≡ (
        if ltb (length (lane_of lane qs)) 256
        then (with_lane lane (lane_of lane qs ++ m ∷ []) qs, true)
        else (qs, false))
unfolding send_message class_of enqueue enqueue_state
send_yields others m qs lane h = go m.kind h
  where
    state_gains : enqueue others m MessageClass.state_class qs ≡ full_or_gained state_lane qs m
    state_gains = ground arith

    bulk_gains :
        enqueue others m MessageClass.yielding_bulk_class qs ≡ full_or_gained bulk_lane qs m
    bulk_gains = ground arith

    go :
        (k : MessageType)
        → yields_in k ≡ some lane
        → enqueue others m (class_of k) qs ≡ full_or_gained lane qs m
    go log e = ground (arith, e)
    go delay e = ground (arith, e)
    go request e = ground (arith, e)
    go dns e = ground (arith, e, bulk_gains)
    go loaded e = ground (arith, e, state_gains)
    go geo_update e = ground (arith, e, state_gains)
    go route_changed e = ground (arith, e, state_gains)
    go dialer_loop e = ground (arith, e)
    go request_traffic e = ground (arith, e, bulk_gains)

abbrev newest : Lane → Queues → Message → Queues
newest lane qs m =
    with_lane lane (drop (suc (length (lane_of lane qs)) - 256) (lane_of lane qs ++ m ∷ [])) qs

-- With no other goroutine in the way, a log, request, delay or dialer loop message is always queued, the first two in the
-- bulk queue and the others in the priority queue, and what that queue then holds are its newest messages, as many as
-- fit; the other two queues stay.
pub send_keeps_newest :
    (m : Message) (qs : Queues) (lane : Lane)
    → evicts_in m.kind ≡ some lane
    → length (lane_of lane qs) ≤ 256
    → send_message true alone m qs ≡ (
      with_lane lane (drop (suc (length (lane_of lane qs)) - 256) (lane_of lane qs ++ m ∷ [])) qs,
      true,
    )
unfolding send_message class_of enqueue
send_keeps_newest m qs lane h l = go m.kind h
  where
    go :
        (k : MessageType)
        → evicts_in k ≡ some lane
        → enqueue alone m (class_of k) qs ≡ (newest lane qs m, true)
    go log e = ground (arith, e, l, enqueue_latest-evict qs.bulk m)
    go delay e = ground (arith, e, l, enqueue_latest-evict qs.priority m)
    go request e = ground (arith, e, l, enqueue_latest-evict qs.bulk m)
    go dns e = ground (arith, e)
    go loaded e = ground (arith, e)
    go geo_update e = ground (arith, e)
    go route_changed e = ground (arith, e)
    go dialer_loop e = ground (arith, e, l, enqueue_latest-evict qs.priority m)
    go request_traffic e = ground (arith, e)
