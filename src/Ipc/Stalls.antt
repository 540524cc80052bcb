-- ===== src/Ipc/Stalls.antt =====
-- A host that stalls inside a frame is waited for.
use yu_clash.Prelude.{
  ℕ, zero, suc, ◌+◌, ◌-◌, ◌≤◌, ◌<◌, ◌≡◌, refl, ap, ◌∙◌, true, none, some, List, [], ◌∷◌, ◌++◌,
  append_assoc, take, drop, length, arith,
}
use yu_clash.Ipc.{
  Bytes, max_ipc_frame_size, put_uint32, Failure, Answer, takes_all, stops, Conn, Wrote,
  resuming_write, counted, write_rounds, write_all, write_frame,
}
use yu_clash.Ipc.Frames.{frame}
use yu_clash.Ipc.Writes.{drop_all}

-- Write deadlines that expire, each after some bytes were taken, and that can be set anew.
abbrev pub stalled : List ℕ → List Answer → List Answer
stalled [] answers = answers
stalled (n ∷ ns) answers = stops n Failure.timeout true ∷ stalled ns answers

-- The bytes that are taken before these deadlines expire.
abbrev pub taken : List ℕ → ℕ
taken [] = 0
taken (n ∷ ns) = n + taken ns

-- A byte has left before the first of these deadlines, or with it.
abbrev pub HasBegun : ℕ → List ℕ → Type 0
HasBegun written [] = Unit
HasBegun written (n ∷ ns) = 0 < written + n

HasBegun-later : (written n : ℕ) (ns : List ℕ) → 0 < written + n → HasBegun (written + n) ns
HasBegun-later written n [] h = tt
HasBegun-later written n (k ∷ ns) h = omega (arith, h)

take-drop : (k : ℕ) (xs : Bytes) → take k xs ++ drop k xs ≡ xs
take-drop zero xs = refl
take-drop (suc k) [] = refl
take-drop (suc k) (x ∷ xs) = ap (λ l. x ∷ l) (take-drop k xs)

length-drop : (k : ℕ) (xs : Bytes) → length (drop k xs) ≡ length xs - k
length-drop zero xs = omega arith
length-drop (suc k) [] = omega arith
length-drop (suc k) (x ∷ xs) = omega (arith, length-drop k xs)

abbrev whole : List Answer → Bytes → Bytes → ℕ → ℕ → Wrote
whole answers wire rest accepted written = record {
  count = accepted + length rest;
  failure = none;
  conn = record { answers = answers; wire = wire ++ rest };
  written = written + length rest;
}

whole-drop :
    (answers : List Answer) (wire rest : Bytes) (accepted written n : ℕ)
    → n < length rest
    → whole answers (wire ++ take n rest) (drop n rest) (accepted + n) (written + n)
      ≡ whole answers wire rest accepted written
whole-drop answers wire rest accepted written n h =
    let l = length-drop n rest in
    let c : accepted + n + length (drop n rest) ≡ accepted + length rest = omega (arith, l, h) in
    let w : written + n + length (drop n rest) ≡ written + length rest = omega (arith, l, h) in
    cc
      (c, w, append_assoc wire (take n rest) (drop n rest) ∙ ap (λ x. wire ++ x) (take-drop n rest))

resuming_write-stalled :
    (ns : List ℕ) (answers : List Answer) (wire rest : Bytes) (accepted written : ℕ)
    → taken ns < length rest
    → HasBegun written ns
    → resuming_write (stalled ns (takes_all ∷ answers)) wire rest accepted written
      ≡ some (whole answers wire rest accepted written)
unfolding resuming_write
resuming_write-stalled [] answers wire rest accepted written l b = refl
resuming_write-stalled (n ∷ ns) answers wire rest accepted written l b = ground (
  arith,
  l,
  b,
  resuming_write-stalled ns answers (wire ++ take n rest) (drop n rest) (accepted + n) (written + n)
      (omega (arith, l, length-drop n rest)) (HasBegun-later written n ns b),
  whole-drop answers wire rest accepted written n (omega (arith, l)),
)

-- A write that leaves whole, perhaps after stalls.
write_all_whole :
    (conn : Conn) (x : ℕ) (xs : Bytes) (written : ℕ) (r : Wrote)
    → resuming_write conn.answers conn.wire (x ∷ xs) 0 written ≡ some r
    → r.failure ≡ none
    → r.count ≡ suc (length xs)
    → write_all conn (x ∷ xs) written ≡ some (counted r.count (record r { count = 0 }))
unfolding write_all write_rounds
write_all_whole conn x xs written r h e f = ground (arith, drop_all xs)

write_all-stalled :
    (ns : List ℕ) (answers : List Answer) (wire : Bytes) (x : ℕ) (xs : Bytes) (written : ℕ)
    → taken ns < length (x ∷ xs)
    → HasBegun written ns
    → write_all
        (record { answers = stalled ns (takes_all ∷ answers); wire = wire })
        (x ∷ xs)
        written
      ≡ some (whole answers wire (x ∷ xs) 0 written)
write_all-stalled ns answers wire x xs written l b =
    write_all_whole _ x xs written (whole answers wire (x ∷ xs) 0 written)
      (resuming_write-stalled ns answers wire (x ∷ xs) 0 written l b) refl (omega arith)
    ∙ ap (λ n. some (record (whole answers wire (x ∷ xs) 0 written) { count = n })) (omega arith)

length-put_uint32 : (n : ℕ) → length (put_uint32 n) ≡ 4
unfolding put_uint32
length-put_uint32 n = refl

HasBegun-positive : (written : ℕ) (ns : List ℕ) → 0 < written → HasBegun written ns
HasBegun-positive written [] h = tt
HasBegun-positive written (n ∷ ns) h = omega (arith, h)

write_all-header :
    (ns : List ℕ) (answers : List Answer) (wire : Bytes) (n : ℕ)
    → taken ns < 4
    → HasBegun 0 ns
    → write_all
        (record { answers = stalled ns (takes_all ∷ answers); wire = wire })
        (put_uint32 n)
        0
      ≡ some (whole answers wire (put_uint32 n) 0 0)
unfolding put_uint32
write_all-header ns answers wire n l b =
    write_all-stalled ns answers wire _ _ 0 (omega (arith, l)) b

-- A host that stops reading inside a frame is waited for. However often the write deadline expires, and however many
-- bytes, none included, are taken before each expiry, in the header once its first byte is taken, between the header
-- and the data, or in the data: as long as each deadline can be set anew and the connection then takes the rest, the
-- write succeeds, counts the whole frame, and the whole frame is on the wire.
pub stall_is_waited_out :
    (in_header in_data : List ℕ) (answers : List Answer) (wire : Bytes) (x : ℕ) (xs : Bytes)
    → length (x ∷ xs) ≤ max_ipc_frame_size
    → HasBegun 0 in_header
    → taken in_header < 4
    → taken in_data < length (x ∷ xs)
    → let conn : Conn = record {
      answers = stalled in_header (takes_all ∷ stalled in_data (takes_all ∷ answers));
      wire = wire;
    } in
      (r : Wrote) × (write_frame conn (x ∷ xs) ≡ some r)
      × (r.failure ≡ none)
      × (r.count ≡ 4 + length (x ∷ xs))
      × (r.conn.wire ≡ wire ++ frame (x ∷ xs))
unfolding write_frame
stall_is_waited_out in_header in_data answers wire x xs fits begun h d = (
  sent,
  ground (
    arith,
    fits,
    write_all-header in_header (stalled in_data (takes_all ∷ answers)) wire (length (x ∷ xs)) h
        begun,
    body,
  ),
  refl,
  count_lem,
  append_assoc wire header (x ∷ xs),
)
  where
    header : Bytes
    header = put_uint32 (length (x ∷ xs))

    first : Wrote
    first = whole (stalled in_data (takes_all ∷ answers)) wire header 0 0

    sent : Wrote
    sent = counted first.count (whole answers (wire ++ header) (x ∷ xs) 0 first.written)

    count_lem : sent.count ≡ 4 + length (x ∷ xs)
    count_lem = omega (arith, length-put_uint32 (length (x ∷ xs)))

    goes_on : HasBegun first.written in_data
    goes_on =
        HasBegun-positive first.written in_data (omega (arith, length-put_uint32 (length (x ∷ xs))))

    body :
        write_all
          (record { answers = stalled in_data (takes_all ∷ answers); wire = wire ++ header })
          (x ∷ xs)
          first.written
        ≡ some (whole answers (wire ++ header) (x ∷ xs) 0 first.written)
    body = write_all-stalled in_data answers (wire ++ header) x xs first.written d goes_on
