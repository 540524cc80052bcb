-- ===== src/Share/ShadowsocksR.antt =====
-- core/share_link.go: `encodeShadowsocksR`, and a reader of its links that splits the decoded body on colons.
use yu_clash.Prelude.{
  ◌≡◌, refl, ap, ◌∙◌, true, false, Option, none, some, List, [], ◌∷◌, ◌++◌, if◌then◌else◌, All,
  All-append, arith,
}
use yu_clash.Text.{Text, bytes, split, cut, cut_prefix, every_byte}
use yu_clash.Share.{Packages, Fields, str}
use yu_clash.Share.Url.{has_colon}
use yu_clash.Share.Base64.{
  raw_url, decode, decode-raw_url, IsByte, is_word_byte, raw_url-words, raw_url-IsByte,
  checked-IsByte,
}

-- The last of the six parts of a body.
abbrev pub tail_of : Text → Text → Text → Text → Text
tail_of password obfs_param protocol_param name =
    raw_url password
    ++ (bytes "/?obfsparam="
        ++ (raw_url obfs_param
            ++ (bytes "&protoparam="
                ++ (raw_url protocol_param ++ (bytes "&remarks=" ++ raw_url name)))))

abbrev pub six_parts : Text → Text → Text → Text → Text → Text → Text
six_parts server port protocol cipher obfs rest =
    server
    ++ (bytes ":"
        ++ (port
            ++ (bytes ":"
                ++ (protocol
                    ++ (bytes ":" ++ (cipher ++ (bytes ":" ++ (obfs ++ (bytes ":" ++ rest)))))))))

module _ (p : Packages) where
  unfoldable pub ssr_body : Fields → Text
  unfolding str raw_url
  ssr_body f =
      six_parts (str p f "server") (str p f "port") (str p f "protocol") (str p f "cipher")
        (str p f "obfs")
        (tail_of (str p f "password") (str p f "obfs-param") (str p f "protocol-param")
          (str p f "name"))

  -- `encodeShadowsocksR`.
  unfoldable pub encode_shadowsocks_r : Fields → Text
  unfolding str ssr_body raw_url
  encode_shadowsocks_r f =
      if has_colon (str p f "server") then [] else bytes "ssr://" ++ raw_url (ssr_body f)

-- What a reader takes from a link: server, port, protocol, cipher, obfs, and the password.
abbrev pub Ssr : Type 0
Ssr = Text × Text × Text × Text × Text × Text

abbrev decoded_part : Option (Text × Text) → Text
decoded_part none = []
decoded_part (some (coded, _)) = decode coded

abbrev password_of : Text → Text
password_of rest = decoded_part (cut 47 rest)

abbrev of_parts : List Text → Option Ssr
of_parts (server ∷ port ∷ protocol ∷ cipher ∷ obfs ∷ rest ∷ []) =
    some (server, port, protocol, cipher, obfs, password_of rest)
of_parts _ = none

pub read_ssr : Text → Option Ssr
read_ssr link = elim (cut_prefix (bytes "ssr://") link) [
  | none ↦ none
  | some coded ↦ of_parts (split 58 (decode coded))
]

split-plain : (s rest : Text) → has_colon s ≡ false → split 58 (s ++ 58 ∷ rest) ≡ s ∷ split 58 rest
unfolding split
split-plain [] rest e = refl
split-plain (c ∷ s) rest e = ground (arith, e, split-plain s rest)

split-last : (s : Text) → has_colon s ≡ false → split 58 s ≡ s ∷ []
unfolding split
split-last [] e = refl
split-last (c ∷ s) e = ground (arith, e, split-last s)

words-plain : (s : Text) → every_byte is_word_byte s ≡ true → has_colon s ≡ false
words-plain [] e = refl
words-plain (c ∷ s) e = ground (arith, e, words-plain s)

append-plain : (s t : Text) → has_colon s ≡ false → has_colon t ≡ false → has_colon (s ++ t) ≡ false
append-plain [] t d e = e
append-plain (c ∷ s) t d e = ground (arith, d, e, append-plain s t)

cut-words :
    (s rest : Text) → every_byte is_word_byte s ≡ true → cut 47 (s ++ 47 ∷ rest) ≡ some (s, rest)
unfolding cut
cut-words [] rest e = refl
cut-words (c ∷ s) rest e = ground (arith, e, cut-words s rest)

split-six :
    (server port protocol cipher obfs rest : Text)
    → has_colon server ≡ false
    → has_colon port ≡ false
    → has_colon protocol ≡ false
    → has_colon cipher ≡ false
    → has_colon obfs ≡ false
    → has_colon rest ≡ false
    → split 58 (six_parts server port protocol cipher obfs rest)
      ≡ server ∷ port ∷ protocol ∷ cipher ∷ obfs ∷ rest ∷ []
split-six server port protocol cipher obfs rest a b c d e f =
    split-plain server _ a
    ∙ ap (λ x. server ∷ x)
        (split-plain port _ b
          ∙ ap (λ x. port ∷ x)
              (split-plain protocol _ c
                ∙ ap (λ x. protocol ∷ x)
                    (split-plain cipher _ d
                      ∙ ap (λ x. cipher ∷ x)
                          (split-plain obfs _ e ∙ ap (λ x. obfs ∷ x) (split-last rest f)))))

tail_of-plain : (password o q n : Text) → has_colon (tail_of password o q n) ≡ false
tail_of-plain password o q n = append-plain (raw_url password) obfs_part (coded password) (
    append-plain (bytes "/?obfsparam=") (raw_url o ++ proto_part) refl (
      append-plain (raw_url o) proto_part (coded o) (
        append-plain (bytes "&protoparam=") (raw_url q ++ name_part) refl (
          append-plain (raw_url q) name_part (coded q)
            (append-plain (bytes "&remarks=") (raw_url n) refl (coded n))))))
  where
    coded : (s : Text) → has_colon (raw_url s) ≡ false
    coded s = words-plain (raw_url s) (raw_url-words s)

    name_part : Text
    name_part = bytes "&remarks=" ++ raw_url n

    proto_part : Text
    proto_part = bytes "&protoparam=" ++ (raw_url q ++ name_part)

    obfs_part : Text
    obfs_part = bytes "/?obfsparam=" ++ (raw_url o ++ proto_part)

join-IsByte : (s t : Text) → All IsByte s → All IsByte t → All IsByte (s ++ t)
join-IsByte = All-append IsByte

six_parts-IsByte :
    (server port protocol cipher obfs rest : Text)
    → All IsByte server
    → All IsByte port
    → All IsByte protocol
    → All IsByte cipher
    → All IsByte obfs
    → All IsByte rest
    → All IsByte (six_parts server port protocol cipher obfs rest)
six_parts-IsByte server port protocol cipher obfs rest a b c d e f = join-IsByte server _ a (
    colon _ (
      join-IsByte port _ b (
        colon _ (
          join-IsByte protocol _ c
            (colon _ (join-IsByte cipher _ d (colon _ (join-IsByte obfs _ e (colon _ f)))))))))
  where
    colon : (s : Text) → All IsByte s → All IsByte (58 ∷ s)
    colon s h = (omega arith, h)

tail_of-IsByte : (password o q n : Text) → All IsByte (tail_of password o q n)
tail_of-IsByte password o q n = join-IsByte (raw_url password) _ (raw_url-IsByte password) (
    join-IsByte (bytes "/?obfsparam=") _ (checked-IsByte (bytes "/?obfsparam=") refl) (
      join-IsByte (raw_url o) _ (raw_url-IsByte o) (
        join-IsByte (bytes "&protoparam=") _ (checked-IsByte (bytes "&protoparam=") refl) (
          join-IsByte (raw_url q) _ (raw_url-IsByte q) (
            join-IsByte (bytes "&remarks=") _ (checked-IsByte (bytes "&remarks=") refl)
              (raw_url-IsByte n))))))

password_of-tail :
    (password o q n : Text) → All IsByte password → password_of (tail_of password o q n) ≡ password
password_of-tail password o q n h =
    ap decoded_part (cut-words (raw_url password) _ (raw_url-words password))
    ∙ decode-raw_url password h

module _ (p : Packages) (f : Fields) where
  -- A link is read back to its fields: a server without a colon, as the guard asks, with a port, a protocol, a cipher and
  -- an obfuscation that have none either, all of them bytes, and any password, are what a reader gets that decodes the
  -- body, splits it at the colons and decodes the coded part of the last one.
  pub read_ssr-encode_shadowsocks_r :
      has_colon (str p f "server") ≡ false
      → has_colon (str p f "port") ≡ false
      → has_colon (str p f "protocol") ≡ false
      → has_colon (str p f "cipher") ≡ false
      → has_colon (str p f "obfs") ≡ false
      → All
          (λ key. All IsByte (str p f key))
          ("server" ∷ "port" ∷ "protocol" ∷ "cipher" ∷ "obfs" ∷ "password" ∷ [])
      → read_ssr (encode_shadowsocks_r p f)
        ≡ some (
          str p f "server",
          str p f "port",
          str p f "protocol",
          str p f "cipher",
          str p f "obfs",
          str p f "password",
        )
  unfolding read_ssr encode_shadowsocks_r ssr_body cut_prefix
  read_ssr-encode_shadowsocks_r a b c d e (h0, (h1, (h2, (h3, (h4, (h5, _)))))) = rw a (
      decoded
      ∙ ap of_parts
          (split-six server port protocol cipher obfs rest a b c d e (tail_of-plain password _ _ _))
      ∙ ap (λ x. some (server, port, protocol, cipher, obfs, x))
          (password_of-tail password _ _ _ h5))
    where
      server : Text
      server = str p f "server"

      port : Text
      port = str p f "port"

      protocol : Text
      protocol = str p f "protocol"

      cipher : Text
      cipher = str p f "cipher"

      obfs : Text
      obfs = str p f "obfs"

      password : Text
      password = str p f "password"

      rest : Text
      rest = tail_of password (str p f "obfs-param") (str p f "protocol-param") (str p f "name")

      decoded :
          of_parts (split 58 (decode (raw_url (ssr_body p f)))) ≡ of_parts (split 58 (ssr_body p f))
      decoded =
          ap (λ x. of_parts (split 58 x))
            (decode-raw_url (ssr_body p f) (
              six_parts-IsByte server port protocol cipher obfs rest h0 h1 h2 h3 h4
                (tail_of-IsByte password _ _ _)))
