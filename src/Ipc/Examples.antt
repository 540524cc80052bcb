-- ===== src/Ipc/Examples.antt =====
-- The theorems about frames at concrete inputs, and tests.
use yu_clash.Prelude.{◌≡◌, refl, true, false, none, some, List, [], ◌∷◌, ◌++◌, take, All, arith}
use yu_clash.Ipc.{
  Bytes, put_uint32, ok, failed, unexpected_eof, read_frame, Failure, takes_all, stops, Conn, Wrote,
  write_frame, Server, sends,
}
use yu_clash.Ipc.Frames.{frame, read_frame-frame, read_frame_cut}
use yu_clash.Ipc.Writes.{Sent, write_frame-Sent}
use yu_clash.Ipc.Stalls.{stalled, stall_is_waited_out}
use yu_clash.Ipc.Sync.{Kept, Fits, frames, sends_in_step}

read_frame-frame_example : read_frame (frame (7 ∷ 8 ∷ []) ++ 9 ∷ []) ≡ ok (7 ∷ 8 ∷ []) (9 ∷ [])
read_frame-frame_example = read_frame-frame (7 ∷ 8 ∷ []) (9 ∷ []) (omega arith)

read_frame_cut_example : read_frame (take 5 (frame (7 ∷ 8 ∷ []))) ≡ failed unexpected_eof
read_frame_cut_example =
    read_frame_cut (7 ∷ 8 ∷ []) 5 (omega arith) (unfold put_uint32 in omega arith)

abbrev healthy : Conn
healthy = record { answers = takes_all ∷ takes_all ∷ []; wire = [] }

abbrev whole_frame : Wrote
whole_frame = record {
  count = 5;
  failure = none;
  conn = record { answers = []; wire = 1 ∷ 0 ∷ 0 ∷ 0 ∷ 7 ∷ [] };
  written = 5;
}

healthy_writes : write_frame healthy (7 ∷ []) ≡ some whole_frame
unfolding write_frame put_uint32
healthy_writes = refl

write_frame-Sent_example : Sent [] (frame (7 ∷ [])) 0 whole_frame
write_frame-Sent_example = write_frame-Sent healthy (7 ∷ []) whole_frame healthy_writes

-- One byte of the header, nothing, the rest of it; then nothing, one byte of the data, and the rest.
stall_is_waited_out_example :
    (r : Wrote) × (write_frame
        (record {
          answers = stalled (1 ∷ 0 ∷ []) (takes_all ∷ stalled (0 ∷ 1 ∷ []) (takes_all ∷ []));
          wire = [];
        })
        (7 ∷ 8 ∷ [])
      ≡ some r)
    × (r.failure ≡ none)
    × (r.count ≡ 6)
    × (r.conn.wire ≡ frame (7 ∷ 8 ∷ []))
stall_is_waited_out_example =
    stall_is_waited_out (1 ∷ 0 ∷ []) (0 ∷ 1 ∷ []) [] [] 7 (8 ∷ []) (omega arith) (omega arith)
      (omega arith) (omega arith)

-- The first send is dropped whole, the second leaves.
abbrev shaky : Conn
shaky = record { answers = stops 0 Failure.broken true ∷ takes_all ∷ takes_all ∷ []; wire = [] }

abbrev shaky_server : Server
shaky_server = record { conn = some shaky; delivery_failure_reported = false }

abbrev after_two : Server
after_two = record {
  conn = some (record { answers = []; wire = 1 ∷ 0 ∷ 0 ∷ 0 ∷ 7 ∷ [] });
  delivery_failure_reported = false;
}

two_sends : sends shaky_server ((5 ∷ 5 ∷ []) ∷ (7 ∷ []) ∷ []) ≡ some after_two
unfolding sends put_uint32
two_sends = refl

sends_in_step_example :
    (kept : List Bytes) × Kept kept ((5 ∷ 5 ∷ []) ∷ (7 ∷ []) ∷ [])
    × All Fits kept
    × (1 ∷ 0 ∷ 0 ∷ 0 ∷ 7 ∷ [] ≡ frames kept)
sends_in_step_example =
    sends_in_step ((5 ∷ 5 ∷ []) ∷ (7 ∷ []) ∷ []) shaky_server after_two shaky
      (record { answers = []; wire = 1 ∷ 0 ∷ 0 ∷ 0 ∷ 7 ∷ [] }) refl two_sends refl
