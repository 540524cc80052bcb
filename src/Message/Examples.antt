-- ===== src/Message/Examples.antt =====
-- The theorems about messages at concrete inputs, and tests of the batcher.
use mathlib.Core.List.{flatten}
use yu_clash.Prelude.{◌+◌, ◌≤◌, ◌≡◌, refl, true, false, List, [], ◌∷◌, length, arith}
use yu_clash.Message.{log, dns, delay, Message, Queues, send_message}
use yu_clash.Message.Sending.{alone, bulk_lane, send_yields, send_keeps_newest}
use yu_clash.Message.Batcher.{
  start, bulk, got, closed, nothing, received, receives, deadline, Round, is_running,
  run_message_batcher,
}
use yu_clash.Message.Batches.{IsBatching, contents, arrivals, batches_in_order}
use yu_clash.Message.Fairness.{StarvesFor, priority_burst_bounded}

abbrev lookup_report : Message
lookup_report = record { kind = dns; payload = 1 }

abbrev log_line : Message
log_line = record { kind = log; payload = 2 }

abbrev delay_report : Message
delay_report = record { kind = delay; payload = 3 }

abbrev one_log : Queues
one_log = record { state = []; priority = []; bulk = log_line ∷ [] }

send_yields_example :
    send_message true alone lookup_report one_log
    ≡ (record one_log { bulk = log_line ∷ lookup_report ∷ [] }, true)
send_yields_example = send_yields alone lookup_report one_log bulk_lane refl

send_keeps_newest_example :
    send_message true alone log_line one_log
    ≡ (record one_log { bulk = log_line ∷ log_line ∷ [] }, true)
send_keeps_newest_example = send_keeps_newest log_line one_log bulk_lane refl (omega arith)

abbrev priority_round : Round
priority_round = record {
  state_poll = nothing;
  bulk_poll = received (got log_line);
  priority_poll = received (got delay_report);
  wake = deadline;
}

abbrev rounds_to_close : List Round
rounds_to_close =
    priority_round
    ∷ record {
      state_poll = received closed;
      bulk_poll = nothing;
      priority_poll = nothing;
      wake = deadline;
    }
    ∷ record {
      state_poll = nothing;
      bulk_poll = nothing;
      priority_poll = received closed;
      wake = deadline;
    }
    ∷ record {
      state_poll = nothing;
      bulk_poll = nothing;
      priority_poll = nothing;
      wake = receives bulk closed;
    }
    ∷ []

start-IsBatching : IsBatching start
start-IsBatching = record { short = omega arith; armed = refl; sizes = tt }

batches_in_order_example :
    IsBatching (run_message_batcher rounds_to_close start)
    × (contents (run_message_batcher rounds_to_close start) ≡ arrivals rounds_to_close start)
    × (is_running (run_message_batcher rounds_to_close start) ≡ false
        → flatten (run_message_batcher rounds_to_close start).sent ≡ arrivals rounds_to_close start)
unfolding flatten
batches_in_order_example = batches_in_order rounds_to_close start start-IsBatching

flushed_at_the_end : (run_message_batcher rounds_to_close start).sent ≡ (delay_report ∷ []) ∷ []
unfolding run_message_batcher
flushed_at_the_end = refl

starves_once : StarvesFor (priority_round ∷ []) start
starves_once = ((refl, (got log_line, refl), refl, (delay_report, refl)), tt)

priority_burst_bounded_example : start.priority_burst + length (priority_round ∷ []) ≤ 8
priority_burst_bounded_example =
    priority_burst_bounded (priority_round ∷ []) start (omega arith) starves_once
