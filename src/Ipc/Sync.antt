-- ===== src/Ipc/Sync.antt =====
-- The stream stays in step: a connection that is still open carries whole frames only.

use yu_clash.Prelude.{
  ℕ, ◌≤◌, ◌≡◌, ◌∙◌, ap, true, none, some, List, [], ◌∷◌, ◌++◌, append_assoc, append-nil, take,
  length, All, ◌⊎◌, inl, inr, Option-cases, arith,
}
use yu_clash.Ipc.{Bytes, max_ipc_frame_size, Conn, Server, write_frame, after_write, send, sends}
use yu_clash.Ipc.Frames.{frame}
use yu_clash.Ipc.Writes.{write_frame-Sent, write_frame_fits, take-length}

-- `kept` are some of the messages, in their order.
pub data Kept : List Bytes → List Bytes → Type 0 where
  end : Kept [] []
  keep : {kept all : List Bytes} (bytes : Bytes) → Kept kept all → Kept (bytes ∷ kept) (bytes ∷ all)
  skip : {kept all : List Bytes} (bytes : Bytes) → Kept kept all → Kept kept (bytes ∷ all)

abbrev pub frames : List Bytes → Bytes
frames [] = []
frames (bytes ∷ rest) = frame bytes ++ frames rest

abbrev pub Fits : Bytes → Type 0
Fits bytes = length bytes ≤ max_ipc_frame_size

-- After one `send` an open connection carries the whole frame more, or nothing more.
send-whole :
    (s s' : Server) (c c' : Conn) (bytes : Bytes)
    → s.conn ≡ some c
    → send s bytes ≡ some s'
    → s'.conn ≡ some c'
    → (c'.wire ≡ c.wire ++ frame bytes) × Fits bytes ⊎ (c'.wire ≡ c.wire)
unfolding send after_write
send-whole s s' c c' bytes e h e' = elim (Option-cases (write_frame c bytes)) [
  | inl f ↦ ground arith
  | inr (r, f) ↦
      let a = write_frame-Sent c bytes r f in
      elim (Option-cases r.failure) [
        | inl g ↦
            let same : c' ≡ r.conn = ground arith in
            inl (
              ap (λ (x : Conn). x.wire) same
                  ∙ a.on_wire
                  ∙ ap (λ (n : ℕ). c.wire ++ take n (frame bytes)) (a.whole g)
                  ∙ ap (◌++◌ c.wire) (take-length (frame bytes)),
              write_frame_fits c bytes r f g,
            )
        | inr (err, g) ↦
            let same : c' ≡ r.conn = ground arith in
            let zero_count : r.count ≡ 0 = ground arith in
            inr (
              ap (λ (x : Conn). x.wire) same
              ∙ a.on_wire
              ∙ ap (λ (n : ℕ). c.wire ++ take n (frame bytes)) zero_count
              ∙ append-nil c.wire)
      ]
]

sends_closed :
    (messages : List Bytes) (s s' : Server)
    → s.conn ≡ none
    → sends s messages ≡ some s'
    → s'.conn ≡ none
unfolding sends send
sends_closed [] s s' e h = ground arith
sends_closed (bytes ∷ rest) s s' e h =
    sends_closed rest (record s { delivery_failure_reported = true }) s' e (ground arith)

-- From an open connection, whatever its answers: if the connection is still open after any sends, then
-- what left on its wire meanwhile are the whole frames of some of the messages, in their order, each of
-- at most 64 MiB. So a reader stays in step, and a frame that was cut shows only on a closed connection.
pub sends_in_step :
    (messages : List Bytes) (s s' : Server) (c c' : Conn)
    → s.conn ≡ some c
    → sends s messages ≡ some s'
    → s'.conn ≡ some c'
    → (kept : List Bytes) × Kept kept messages × All Fits kept × (c'.wire ≡ c.wire ++ frames kept)
unfolding sends
sends_in_step [] s s' c c' e h e' = ([], end, tt, ground (arith, append-nil c.wire))
sends_in_step (bytes ∷ rest) s s' c c' e h e' = elim (Option-cases (send s bytes)) [
  | inl f ↦ ground arith
  | inr (t, f) ↦
      let h' : sends t rest ≡ some s' = ground arith in
      elim (Option-cases t.conn) [
        | inl closed ↦ ground (arith, sends_closed rest t s' closed h')
        | inr (d, open_d) ↦
            let (kept, some_of, fit, on_wire) = sends_in_step rest t s' d c' open_d h' e' in
            elim (send-whole s t c d bytes e f open_d) [
              | inl (whole, fits) ↦ (
                bytes ∷ kept,
                keep bytes some_of,
                (fits, fit),
                on_wire
                    ∙ ap (λ w. w ++ frames kept) whole
                    ∙ append_assoc c.wire (frame bytes) (frames kept),
              )
              | inr nothing_more ↦
                  (kept, skip bytes some_of, fit, on_wire ∙ ap (λ w. w ++ frames kept) nothing_more)
            ]
      ]
]
