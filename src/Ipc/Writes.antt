-- ===== src/Ipc/Writes.antt =====
-- What leaves on the wire when a frame is written.
use yu_clash.Prelude.{
  ℕ, zero, suc, ◌+◌, ◌-◌, ◌≤◌, ◌≡◌, refl, sym, ◌∙◌, ap, subst, not, ◌||◌, none, some, List, [], ◌∷◌,
  ◌++◌, append_assoc, append-nil, take, drop, min, length, length-append, leb, ltb, inl, inr,
  Bool-cases, Option-cases, arith,
}
use yu_clash.Ipc.{
  Bytes, max_ipc_frame_size, put_uint32, Failure, Answer, takes_all, stops, Conn, Wrote, resume,
  resuming_write, counted, write_rounds, write_all, write_frame,
}
use native.Mathlib.Nat.{zero-add}
use yu_clash.Ipc.Frames.{frame}

-- The bytes that were counted left on the wire and no others, the writer's total grew by them, and
-- without an error they are all bytes.
pub record Sent (wire bytes : Bytes) (written : ℕ) (r : Wrote) : Type 0 where
  pub on_wire : r.conn.wire ≡ wire ++ take r.count bytes
  pub within : r.count ≤ length bytes
  pub total : r.written ≡ written + r.count
  pub whole : r.failure ≡ none → r.count ≡ length bytes

pub take-length : (xs : Bytes) → take (length xs) xs ≡ xs
take-length [] = refl
take-length (x ∷ xs) = rw (take-length xs)

take-add : (j k : ℕ) (xs : Bytes) → take (j + k) xs ≡ take j xs ++ take k (drop j xs)
take-add zero k xs = rw zero-add
take-add (suc j) zero [] = let e : suc j + 0 ≡ suc j = omega arith in rw e
take-add (suc j) (suc k) [] = let e : suc j + suc k ≡ suc (j + suc k) = omega arith in rw e
take-add (suc j) k (x ∷ xs) =
    let e : suc j + k ≡ suc (j + k) = omega arith in rw e (ap (λ l. x ∷ l) (take-add j k xs))

length-drop : (k : ℕ) (xs : Bytes) → length (drop k xs) ≡ length xs - k
length-drop zero xs = omega arith
length-drop (suc k) [] = omega arith
length-drop (suc k) (x ∷ xs) = omega (arith, length-drop k xs)

-- `accepted` bytes of the call were taken before; the rest is what remains.
resuming_write-Sent :
    (answers : List Answer) (wire rest : Bytes) (accepted written : ℕ) (r : Wrote)
    → resuming_write answers wire rest accepted written ≡ some r
    → (k : ℕ) × (r.count ≡ accepted + k)
      × (r.written ≡ written + k)
      × (k ≤ length rest)
      × (r.conn.wire ≡ wire ++ take k rest)
      × (r.failure ≡ none → k ≡ length rest)
unfolding resuming_write
resuming_write-Sent [] wire rest accepted written r h = cc
resuming_write-Sent (takes_all ∷ answers) wire rest accepted written r h = (
  length rest,
  ground arith,
  ground arith,
  omega arith,
  ground (arith, take-length rest),
  λ e. refl,
)
resuming_write-Sent (stops n e extends ∷ answers) wire rest accepted written r h =
    elim (Bool-cases (leb (length rest) j || not (resume (written + j) e extends))) [
      | inl stop ↦ (j, ground arith, ground arith, omega arith, ground arith, λ g. ground arith)
      | inr go ↦
          let (k, counted_k, written_k, within, on_wire, whole) =
            resuming_write-Sent answers (wire ++ take j rest) (drop j rest) (accepted + j)
              (written + j) r (ground arith) in
          (
            j + k,
            omega arith,
            omega arith,
            omega (arith, length-drop j rest),
            on_wire
                ∙ append_assoc wire (take j rest) (take k (drop j rest))
                ∙ ap (◌++◌ wire) (sym (take-add j k rest)),
            λ g. omega (arith, whole g, length-drop j rest),
          )
    ]
  where
    j : ℕ
    j = min n (length rest)

resuming_write_whole :
    (conn : Conn) (bytes : Bytes) (written : ℕ) (r : Wrote)
    → resuming_write conn.answers conn.wire bytes 0 written ≡ some r
    → Sent conn.wire bytes written r
resuming_write_whole conn bytes written r h =
    let (k, counted_k, written_k, within, on_wire, whole) =
      resuming_write-Sent conn.answers conn.wire bytes 0 written r h in
    let e : r.count ≡ k = omega arith in
    record {
      on_wire = rw e on_wire;
      within = omega arith;
      total = omega arith;
      whole = λ g. e ∙ whole g;
    }

take_first :
    (xs ys : Bytes) (n k : ℕ) → n ≡ length xs → take n xs ++ take k ys ≡ take (n + k) (xs ++ ys)
take_first [] ys n k e = rw e (rw zero-add)
take_first (x ∷ xs) ys n k e =
    let f : length xs + k ≡ length xs + k = refl in
    let g : suc (length xs) + k ≡ suc (length xs + k) = omega arith in
    rw e (rw g (ap (λ l. x ∷ l) (take_first xs ys (length xs) k refl)))

pub drop_all : (xs : Bytes) → drop (length xs) xs ≡ []
drop_all [] = refl
drop_all (x ∷ xs) = drop_all xs

-- Two writes, one behind the other.
Sent-append :
    (wire xs ys : Bytes) (written : ℕ) (r s : Wrote)
    → Sent wire xs written r
    → r.failure ≡ none
    → Sent r.conn.wire ys r.written s
    → Sent wire (xs ++ ys) written (counted r.count s)
Sent-append wire xs ys written r s a ok b = record {
  on_wire =
      b.on_wire
      ∙ ap (λ w. w ++ take s.count ys) a.on_wire
      ∙ append_assoc wire (take r.count xs) (take s.count ys)
      ∙ ap (◌++◌ wire) (take_first xs ys r.count s.count (a.whole ok));
  within = omega (arith, length-append xs ys, a.within, b.within);
  total = omega (arith, a.total, b.total);
  whole = λ g. omega (arith, length-append xs ys, a.whole ok, b.whole g);
}

write_rounds-Sent :
    (rounds : ℕ) (conn : Conn) (bytes : Bytes) (written : ℕ) (r : Wrote)
    → write_rounds rounds conn bytes written ≡ some r
    → Sent conn.wire bytes written r
unfolding write_rounds
write_rounds-Sent zero conn bytes written r h = cc
write_rounds-Sent (suc rounds) conn [] written r h = record {
  on_wire = ground (arith, append-nil conn.wire);
  within = ground arith;
  total = ground arith;
  whole = λ g. ground arith;
}
write_rounds-Sent (suc rounds) conn (x ∷ xs) written r h =
    elim (Option-cases (resuming_write conn.answers conn.wire (x ∷ xs) 0 written)) [
      | inl e ↦ ground arith
      | inr (s, e) ↦
          let sent = resuming_write_whole conn (x ∷ xs) written s e in
          elim (Option-cases s.failure) [
            | inr (err, f) ↦ subst (Sent conn.wire (x ∷ xs) written) (ground arith) sent
            | inl f ↦
                elim (Option-cases (write_rounds rounds s.conn (drop s.count (x ∷ xs)) s.written)) [
                  | inl g ↦ ground (arith, sent.whole f)
                  | inr (t, g) ↦
                      subst (Sent conn.wire (x ∷ xs) written) (ground (arith, sent.whole f)) (
                        rest s t f sent
                          (write_rounds-Sent rounds s.conn (drop s.count (x ∷ xs)) s.written t g))
                ]
          ]
    ]
  where
    rest :
        (s t : Wrote)
        → s.failure ≡ none
        → Sent conn.wire (x ∷ xs) written s
        → Sent s.conn.wire (drop s.count (x ∷ xs)) s.written t
        → Sent conn.wire (x ∷ xs) written (counted s.count t)
    rest s t f a b =
        let e : (x ∷ xs) ++ drop s.count (x ∷ xs) ≡ x ∷ xs =
          ap (λ n. (x ∷ xs) ++ drop n (x ∷ xs)) (a.whole f)
          ∙ ap (λ l. (x ∷ xs) ++ l) (drop_all (x ∷ xs))
          ∙ append-nil (x ∷ xs) in
        rw e at (Sent-append conn.wire (x ∷ xs) (drop s.count (x ∷ xs)) written s t a f b)

write_all-Sent :
    (conn : Conn) (bytes : Bytes) (written : ℕ) (r : Wrote)
    → write_all conn bytes written ≡ some r
    → Sent conn.wire bytes written r
unfolding write_all
write_all-Sent conn bytes written r h =
    write_rounds-Sent (suc (length bytes)) conn bytes written r h

take-append_le : (n : ℕ) (xs ys : Bytes) → n ≤ length xs → take n (xs ++ ys) ≡ take n xs
take-append_le zero xs ys h = refl
take-append_le (suc n) [] ys h = absurd (omega arith)
take-append_le (suc n) (x ∷ xs) ys h = rw (take-append_le n xs ys (omega arith))

-- A write that failed is one of any longer text.
Sent-longer :
    (wire xs ys : Bytes) (written : ℕ) (r : Wrote) (e : Failure)
    → r.failure ≡ some e
    → Sent wire xs written r
    → Sent wire (xs ++ ys) written r
Sent-longer wire xs ys written r e f a = record {
  on_wire = a.on_wire ∙ ap (◌++◌ wire) (sym (take-append_le r.count xs ys a.within));
  within = omega (arith, a.within, length-append xs ys);
  total = a.total;
  whole = λ g. cc;
}

-- What `writeFrame` counts is what left on the wire: a prefix of the frame of that length, and without
-- an error the whole frame.
pub write_frame-Sent :
    (conn : Conn) (bytes : Bytes) (r : Wrote)
    → write_frame conn bytes ≡ some r
    → Sent conn.wire (frame bytes) 0 r
unfolding write_frame
write_frame-Sent conn bytes r h = elim (Bool-cases (ltb max_ipc_frame_size (length bytes))) [
  | inl large ↦ record {
    on_wire = ground (arith, append-nil conn.wire);
    within = ground arith;
    total = ground arith;
    whole = λ g. ground arith;
  }
  | inr fits ↦ elim (Option-cases (write_all conn header 0)) [
    | inl e ↦ ground arith
    | inr (s, e) ↦
        let a = write_all-Sent conn header 0 s e in
        elim (Option-cases s.failure) [
          | inr (err, f) ↦
              subst (Sent conn.wire (frame bytes) 0) (ground arith)
                (Sent-longer conn.wire header bytes 0 s err f a)
          | inl f ↦ elim (Option-cases (write_all s.conn bytes s.written)) [
            | inl g ↦ ground arith
            | inr (t, g) ↦ subst (Sent conn.wire (frame bytes) 0) (ground arith) (
                Sent-append conn.wire header bytes 0 s t a f
                  (write_all-Sent s.conn bytes s.written t g))
          ]
        ]
  ]
]
  where
    header : Bytes
    header = put_uint32 (length bytes)

-- A frame that left whole holds no more than 64 MiB.
pub write_frame_fits :
    (conn : Conn) (bytes : Bytes) (r : Wrote)
    → write_frame conn bytes ≡ some r
    → r.failure ≡ none
    → length bytes ≤ max_ipc_frame_size
unfolding write_frame
write_frame_fits conn bytes r h e = ground arith
