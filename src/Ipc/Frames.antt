-- ===== src/Ipc/Frames.antt =====
-- A frame that is read is the one that was written.
use yu_clash.Prelude.{
  ℕ, zero, suc, ◌^◌, ◌≤◌, ◌<◌, ◌≡◌, refl, [], ◌∷◌, ◌++◌, take, drop, length, length-append,
  append_assoc, min, ◌||◌, ◌==◌, ◌∙◌, if◌then◌else◌, arith,
}
use yu_clash.Ipc.{
  Bytes, max_ipc_frame_size, put_uint32, uint32, ok, failed, frame_too_large, eof, unexpected_eof,
  read_full, read_body, read_frame,
}

-- The bytes of one frame.
abbrev pub frame : Bytes → Bytes
frame bytes = put_uint32 (length bytes) ++ bytes

uint32-put_uint32 : (n : ℕ) → n < 2 ^ 32 → uint32 (put_uint32 n) ≡ n
unfolding uint32 put_uint32
uint32-put_uint32 n h = omega arith

take_all : (xs ys : Bytes) → take (length xs) (xs ++ ys) ≡ xs
take_all [] ys = refl
take_all (x ∷ xs) ys = rw (take_all xs ys)

drop_all : (xs ys : Bytes) → drop (length xs) (xs ++ ys) ≡ ys
drop_all [] ys = refl
drop_all (x ∷ xs) ys = drop_all xs ys

read_full-append : (xs ys : Bytes) → read_full (length xs) (xs ++ ys) ≡ ok xs ys
unfolding read_full
read_full-append xs ys = ground (arith, length-append xs ys, take_all xs ys, drop_all xs ys)

read_header : (n : ℕ) (rest : Bytes) → read_full 4 (put_uint32 n ++ rest) ≡ ok (put_uint32 n) rest
unfolding put_uint32
read_header n rest = read_full-append (put_uint32 n) rest

read_frame-header :
    (n : ℕ) (rest : Bytes)
    → n ≤ max_ipc_frame_size
    → read_frame (put_uint32 n ++ rest) ≡ read_full n rest
unfolding read_frame
read_frame-header n rest h =
    rw (read_header n rest) (unfold read_body in ground (arith, uint32-put_uint32 n))

-- Reading the bytes of a frame gives its data and the bytes behind it, for data of up to 64 MiB.
pub read_frame-frame :
    (bytes rest : Bytes)
    → length bytes ≤ max_ipc_frame_size
    → read_frame (frame bytes ++ rest) ≡ ok bytes rest
read_frame-frame bytes rest h =
    rw (append_assoc (put_uint32 (length bytes)) bytes rest)
      (read_frame-header (length bytes) (bytes ++ rest) h ∙ read_full-append bytes rest)

-- A length prefix of more than 64 MiB is refused, whatever follows it.
read_frame_too_large :
    (n : ℕ) (rest : Bytes)
    → max_ipc_frame_size < n
    → n < 2 ^ 32
    → read_frame (put_uint32 n ++ rest) ≡ failed frame_too_large
unfolding read_frame
read_frame_too_large n rest h l =
    rw (read_header n rest) (unfold read_body in ground (arith, uint32-put_uint32 n))

length-take : (k : ℕ) (xs : Bytes) → length (take k xs) ≡ min k (length xs)
length-take zero xs = omega arith
length-take (suc k) [] = omega arith
length-take (suc k) (x ∷ xs) = omega (arith, length-take k xs)

read_full_short :
    (n : ℕ) (stream : Bytes)
    → length stream < n
    → read_full n stream ≡ failed (if length stream == 0 then eof else unexpected_eof)
unfolding read_full
read_full_short n [] h = ground arith
read_full_short n (x ∷ xs) h = ground arith

-- The stream of one frame that is cut short is never read as a frame: it is an unexpected end, or a
-- plain end if it is cut before the first byte or between the header and the data.
pub read_frame_cut :
    (bytes : Bytes) (k : ℕ)
    → length bytes ≤ max_ipc_frame_size
    → k < length (frame bytes)
    → read_frame (take k (frame bytes)) ≡ failed (if k == 0 || k == 4 then eof else unexpected_eof)
unfolding put_uint32 read_frame
read_frame_cut bytes zero h l = unfold read_body read_full in refl
read_frame_cut bytes (suc zero) h l = unfold read_body read_full in refl
read_frame_cut bytes (suc (suc zero)) h l = unfold read_body read_full in refl
read_frame_cut bytes (suc (suc (suc zero))) h l = unfold read_body read_full in refl
read_frame_cut bytes (suc (suc (suc (suc k)))) h l =
    read_frame-header (length bytes) (take k bytes) h
    ∙ read_full_short (length bytes) (take k bytes) (omega (arith, length-take k bytes))
    ∙ ground (arith, length-take k bytes)
