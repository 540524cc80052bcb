-- ===== src/Ipc.antt =====
-- core/server.go: the frames of the desktop's connection, read and written, and `send`.
pub mod Frames
pub mod Writes
pub mod Stalls
pub mod Sync
mod Examples
use mathlib.Core.Option
use yu_clash.Prelude.{
  ℕ, zero, suc, ◌+◌, ◌-◌, ◌*◌, ◌/◌, ◌%◌, ◌^◌, Bool, true, false, Option, none, some, List, [], ◌∷◌,
  ◌++◌, take, drop, min, not, ◌||◌, length, ltb, leb, ◌==◌, if◌then◌else◌,
}

abbrev pub Bytes : Type 0
Bytes = List ℕ

abbrev pub max_ipc_frame_size : ℕ
max_ipc_frame_size = 64 * 1024 * 1024

-- `binary.LittleEndian.PutUint32(lenBuf, uint32(n))`.
unfoldable pub put_uint32 : ℕ → Bytes
put_uint32 n =
    let w = n % 2 ^ 32 in w % 256 ∷ w / 256 % 256 ∷ w / 65536 % 256 ∷ w / 16777216 % 256 ∷ []

pub data ReadError : Type 0 where
  eof unexpected_eof frame_too_large : ReadError

pub data Read : Type 0 where
  ok : Bytes → Bytes → Read
  failed : ReadError → Read

-- `io.ReadFull` of `n` bytes from a stream that ends behind its last byte: the bytes and the rest.
unfoldable pub read_full : ℕ → Bytes → Read
read_full n stream =
    if leb n (length stream)
    then ok (take n stream) (drop n stream)
    else (elim stream [ [] ↦ failed eof | _ ↦ failed unexpected_eof ])

-- `binary.LittleEndian.Uint32`.
unfoldable pub uint32 : Bytes → ℕ
uint32 (a ∷ b ∷ c ∷ d ∷ []) = a + 256 * b + 65536 * c + 16777216 * d
uint32 _ = 0

-- The part of `readFrame` behind the length.
unfoldable pub read_body : Read → Read
unfolding read_full uint32
read_body (failed e) = failed e
read_body (ok header rest) =
    if ltb max_ipc_frame_size (uint32 header)
    then failed frame_too_large
    else read_full (uint32 header) rest

-- `readFrame`.
unfoldable pub read_frame : Bytes → Read
unfolding read_full read_body
read_frame stream = read_body (read_full 4 stream)

-- How a write fails; a timeout is an expired write deadline.
pub data Failure : Type 0 where
  timeout broken short_write frame_exceeds : Failure

-- How the connection answers one `Write`, as the contract of `io.Writer` has it: it takes all bytes, or
-- it stops with an error after some of them; then a `SetWriteDeadline` may succeed.
pub data Answer : Type 0 where
  takes_all : Answer
  stops : ℕ → Failure → Bool → Answer

-- The connection: the answers that it has yet to give, and the bytes that left on the wire.
pub record Conn : Type 0 where
  pub answers : List Answer
  pub wire : Bytes

-- The result of a write: how many bytes were taken, the error, and the connection afterwards.
pub record Wrote : Type 0 where
  pub count : ℕ
  pub failure : Option Failure
  pub conn : Conn
  -- `resumingWriter.written`
  pub written : ℕ

-- `isWriteTimeout`.
abbrev pub is_write_timeout : Failure → Bool
is_write_timeout timeout = true
is_write_timeout _ = false

-- `resume`.
unfoldable pub resume : ℕ → Failure → Bool → Bool
resume written e extends =
    if written == 0 then false else if is_write_timeout e then extends else false

-- The loop of `resumingWriter.Write` over the bytes that are left, with what is accepted so far. `none`:
-- the connection never answers again.
unfoldable pub resuming_write : List Answer → Bytes → Bytes → ℕ → ℕ → Option Wrote
unfolding resume
resuming_write [] wire rest accepted written = none
resuming_write (takes_all ∷ answers) wire rest accepted written = some (record {
  count = accepted + length rest;
  failure = none;
  conn = record { answers = answers; wire = wire ++ rest };
  written = written + length rest;
})
resuming_write (stops n e extends ∷ answers) wire rest accepted written =
    let k = min n (length rest) in
    let again =
      resuming_write answers (wire ++ take k rest) (drop k rest) (accepted + k) (written + k) in
    if leb (length rest) k || not (resume (written + k) e extends)
    then some (record {
      count = accepted + k;
      failure = some e;
      conn = record { answers = answers; wire = wire ++ take k rest };
      written = written + k;
    })
    else again

abbrev pub counted : ℕ → Wrote → Wrote
counted n r = record r { count = n + r.count }

-- The loop of `writeAll` over the resuming writer. A round that takes no byte ends it, so the length of
-- the data bounds the rounds.
unfoldable pub write_rounds : ℕ → Conn → Bytes → ℕ → Option Wrote
unfolding resuming_write
write_rounds zero conn rest written = none
write_rounds (suc rounds) conn [] written =
    some (record { count = 0; failure = none; conn = conn; written = written })
write_rounds (suc rounds) conn (x ∷ xs) written =
    elim (resuming_write conn.answers conn.wire (x ∷ xs) 0 written) [
      | none ↦ none
      | some r ↦ elim r.failure [
        | some e ↦ some r
        | none ↦ elim (r.count == 0) [
          | true ↦ some (record r { failure = some short_write })
          | false ↦
              Option.map (counted r.count)
                (write_rounds rounds r.conn (drop r.count (x ∷ xs)) r.written)
        ]
      ]
    ]

unfoldable pub write_all : Conn → Bytes → ℕ → Option Wrote
unfolding write_rounds
write_all conn bytes written = write_rounds (suc (length bytes)) conn bytes written

-- `writeFrame` through a fresh resuming writer.
unfoldable pub write_frame : Conn → Bytes → Option Wrote
unfolding write_all
write_frame conn bytes =
    if ltb max_ipc_frame_size (length bytes)
    then some (record { count = 0; failure = some frame_exceeds; conn = conn; written = 0 })
    else (elim (write_all conn (put_uint32 (length bytes)) 0) [
      | none ↦ none
      | some r ↦ elim r.failure [
        | some e ↦ some r
        | none ↦ Option.map (counted r.count) (write_all r.conn bytes r.written)
      ]
    ])

-- The connection that `send` uses, and the flag of `logDeliveryError`.
pub record Server : Type 0 where
  pub conn : Option Conn
  pub delivery_failure_reported : Bool

-- The end of `send`: a frame that left no byte behind is dropped, and one that was cut closes the
-- connection.
unfoldable pub after_write : Server → Wrote → Server
after_write s r = elim r.failure [
  | none ↦ record s { conn = some r.conn; delivery_failure_reported = false }
  | some e ↦ record s {
    conn = (if r.count == 0 then some r.conn else none);
    delivery_failure_reported = true;
  }
]

-- `send`; a deadline that cannot be set is only reported.
unfoldable pub send : Server → Bytes → Option Server
unfolding write_frame after_write
send s bytes = elim s.conn [
  | none ↦ some (record s { delivery_failure_reported = true })
  | some c ↦ Option.map (after_write s) (write_frame c bytes)
]

-- Calls of `send`, one behind the other under `writeMu`.
unfoldable pub sends : Server → List Bytes → Option Server
unfolding send
sends s [] = some s
sends s (bytes ∷ rest) = elim (send s bytes) [ none ↦ none | some s' ↦ sends s' rest ]
