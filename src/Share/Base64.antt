-- ===== src/Share/Base64.antt =====
-- The base64 of links: encoding with either alphabet, and decoding of the raw URL form.
use yu_clash.Prelude.{
  ℕ, ◌+◌, ◌-◌, ◌*◌, ◌/◌, ◌%◌, ◌<◌, ◌≡◌, refl, Bool, true, ◌&&◌, not, [], ◌∷◌, ltb, ◌==◌,
  if◌then◌else◌, All, arith,
}
use yu_clash.Text.{Text, is_between, every_byte}

-- The bytes of the two alphabets for the numbers below 64.
abbrev letter : ℕ → ℕ → ℕ → ℕ
letter plus slash n =
    if ltb n 26
    then 65 + n
    else if ltb n 52
    then 71 + n
    else if ltb n 62
    then n - 4
    else if n == 62
    then plus
    else slash

abbrev pub url_letter : ℕ → ℕ
url_letter n = letter 45 95 n

abbrev std_letter : ℕ → ℕ
std_letter n = letter 43 47 n

-- `base64.RawURLEncoding`.
unfoldable pub raw_url : Text → Text
raw_url [] = []
raw_url (a ∷ []) = url_letter (a / 4) ∷ url_letter (a % 4 * 16) ∷ []
raw_url (a ∷ b ∷ []) =
    url_letter (a / 4) ∷ url_letter (a % 4 * 16 + b / 16) ∷ url_letter (b % 16 * 4) ∷ []
raw_url (a ∷ b ∷ c ∷ s) =
    url_letter (a / 4)
    ∷ url_letter (a % 4 * 16 + b / 16)
    ∷ url_letter (b % 16 * 4 + c / 64)
    ∷ url_letter (c % 64)
    ∷ raw_url s

-- `base64.StdEncoding`, with its padding.
unfoldable pub std : Text → Text
std [] = []
std (a ∷ []) = std_letter (a / 4) ∷ std_letter (a % 4 * 16) ∷ 61 ∷ 61 ∷ []
std (a ∷ b ∷ []) =
    std_letter (a / 4) ∷ std_letter (a % 4 * 16 + b / 16) ∷ std_letter (b % 16 * 4) ∷ 61 ∷ []
std (a ∷ b ∷ c ∷ s) =
    std_letter (a / 4)
    ∷ std_letter (a % 4 * 16 + b / 16)
    ∷ std_letter (b % 16 * 4 + c / 64)
    ∷ std_letter (c % 64)
    ∷ std s

-- The number of a byte of the URL alphabet.
abbrev pub number_of : ℕ → ℕ
number_of c =
    if is_between 65 90 c
    then c - 65
    else if is_between 97 122 c
    then c - 71
    else if is_between 48 57 c
    then c + 4
    else if c == 45
    then 62
    else 63

abbrev byte_one : ℕ → ℕ → ℕ
byte_one w x = (number_of w * 4 + number_of x / 16) % 256

abbrev byte_two : ℕ → ℕ → ℕ
byte_two x y = (number_of x * 16 + number_of y / 4) % 256

abbrev byte_three : ℕ → ℕ → ℕ
byte_three y z = (number_of y * 64 + number_of z) % 256

-- The text that `raw_url` encodes.
unfoldable pub decode : Text → Text
decode (w ∷ x ∷ []) = byte_one w x ∷ []
decode (w ∷ x ∷ y ∷ []) = byte_one w x ∷ byte_two x y ∷ []
decode (w ∷ x ∷ y ∷ z ∷ s) = byte_one w x ∷ byte_two x y ∷ byte_three y z ∷ decode s
decode _ = []

abbrev pub IsByte : ℕ → Type 0
IsByte c = c < 256

number_of-url_letter : (n : ℕ) → n < 64 → number_of (url_letter n) ≡ n
number_of-url_letter n h = ground (arith, h)

module _ (u v b : ℕ) (hu : u < 64) (hv : v < 64) where
  byte_one-letters : (u * 4 + v / 16) % 256 ≡ b → byte_one (url_letter u) (url_letter v) ≡ b
  byte_one-letters e = omega (arith, e, number_of-url_letter u hu, number_of-url_letter v hv)

  byte_two-letters : (u * 16 + v / 4) % 256 ≡ b → byte_two (url_letter u) (url_letter v) ≡ b
  byte_two-letters e = omega (arith, e, number_of-url_letter u hu, number_of-url_letter v hv)

  byte_three-letters : (u * 64 + v) % 256 ≡ b → byte_three (url_letter u) (url_letter v) ≡ b
  byte_three-letters e = omega (arith, e, number_of-url_letter u hu, number_of-url_letter v hv)

-- The round trip.
pub decode-raw_url : (s : Text) → All IsByte s → decode (raw_url s) ≡ s
unfolding decode raw_url
decode-raw_url [] h = refl
decode-raw_url (a ∷ []) (ha, _) =
    cc (
      byte_one-letters (a / 4) (a % 4 * 16) a (omega (arith, ha)) (omega arith) (omega (arith, ha)))
decode-raw_url (a ∷ b ∷ []) (ha, (hb, _)) = cc (
  byte_one-letters (a / 4) (a % 4 * 16 + b / 16) a (omega (arith, ha)) (omega (arith, hb))
      (omega (arith, ha, hb)),
  byte_two-letters (a % 4 * 16 + b / 16) (b % 16 * 4) b (omega (arith, hb)) (omega arith)
      (omega (arith, hb)),
)
decode-raw_url (a ∷ b ∷ c ∷ s) (ha, (hb, (hc, hs))) = cc (
  byte_one-letters (a / 4) (a % 4 * 16 + b / 16) a (omega (arith, ha)) (omega (arith, hb))
      (omega (arith, ha, hb)),
  byte_two-letters (a % 4 * 16 + b / 16) (b % 16 * 4 + c / 64) b (omega (arith, hb))
      (omega (arith, hc)) (omega (arith, hb, hc)),
  byte_three-letters (b % 16 * 4 + c / 64) (c % 64) c (omega (arith, hc)) (omega arith)
      (omega (arith, hc)),
  decode-raw_url s hs,
)

-- A byte of the URL alphabet is neither a colon nor a slash.
abbrev pub is_word_byte : ℕ → Bool
is_word_byte c = not (c == 58) && not (c == 47)

letter-word : (n : ℕ) → is_word_byte (url_letter n) ≡ true
letter-word n = ground arith

pub raw_url-words : (s : Text) → every_byte is_word_byte (raw_url s) ≡ true
unfolding raw_url
raw_url-words [] = refl
raw_url-words (a ∷ []) = simp letter-word
raw_url-words (a ∷ b ∷ []) = simp letter-word
raw_url-words (a ∷ b ∷ c ∷ s) = ground (
  arith,
  letter-word (a / 4),
  letter-word (a % 4 * 16 + b / 16),
  letter-word (b % 16 * 4 + c / 64),
  letter-word (c % 64),
  raw_url-words s,
)

letter-IsByte : (n : ℕ) → IsByte (url_letter n)
letter-IsByte n = ground arith

pub raw_url-IsByte : (s : Text) → All IsByte (raw_url s)
unfolding raw_url
raw_url-IsByte [] = tt
raw_url-IsByte (a ∷ []) = (letter-IsByte (a / 4), (letter-IsByte (a % 4 * 16), tt))
raw_url-IsByte (a ∷ b ∷ []) =
    (letter-IsByte (a / 4), (letter-IsByte (a % 4 * 16 + b / 16), (letter-IsByte (b % 16 * 4), tt)))
raw_url-IsByte (a ∷ b ∷ c ∷ s) = (
  letter-IsByte (a / 4),
  (
    letter-IsByte (a % 4 * 16 + b / 16),
    (letter-IsByte (b % 16 * 4 + c / 64), (letter-IsByte (c % 64), raw_url-IsByte s)),
  ),
)

-- A text whose bytes are checked by running the test.
pub checked-IsByte : (s : Text) → every_byte (λ c. ltb c 256) s ≡ true → All IsByte s
checked-IsByte [] e = tt
checked-IsByte (c ∷ s) e = (ground (arith, e), checked-IsByte s (ground (arith, e)))
