-- ===== src/Share/Examples.antt =====
-- Links of concrete mappings, and the theorems on them.
use yu_clash.Prelude.{◌≡◌, refl, true, Option, none, some, [], ◌∷◌}
use yu_clash.Prelude.Maps.{lookup}
use yu_clash.Text.{bytes, text_equality, equal}
use yu_clash.Share.{Packages, string, boolean, Fields, end, field, str}
use yu_clash.Share.Url.{share_url, user_password, Query, sorted}
use yu_clash.Share.Links.{encode_share_link}
use yu_clash.Share.ShadowsocksR.{Ssr, read_ssr, encode_shadowsocks_r, read_ssr-encode_shadowsocks_r}
use yu_clash.Share.Base64.{checked-IsByte}
use yu_clash.Share.Reading.{read_link, read_link-share_url}

abbrev no_packages : Packages
no_packages = record { sprint = λ v. []; marshal = λ m. []; set_parameter = λ path key value. none }

abbrev ssr_fields : Fields
ssr_fields = field "type" (string (bytes "ssr")) (
    field "server" (string (bytes "a.b")) (
      field "port" (string (bytes "8388")) (
        field "protocol" (string (bytes "origin")) (
          field "cipher" (string (bytes "rc4")) (
            field "obfs" (string (bytes "plain"))
              (field "password" (string (bytes "p:w/d")) end))))))

abbrev ssr_read : Option Ssr
ssr_read =
    some (bytes "a.b", bytes "8388", bytes "origin", bytes "rc4", bytes "plain", bytes "p:w/d")

read_ssr-encode_shadowsocks_r_example :
    read_ssr (encode_shadowsocks_r no_packages ssr_fields) ≡ ssr_read
unfolding str
read_ssr-encode_shadowsocks_r_example =
    read_ssr-encode_shadowsocks_r no_packages ssr_fields refl refl refl refl refl (
      checked-IsByte (bytes "a.b") refl,
      (
        checked-IsByte (bytes "8388") refl,
        (
          checked-IsByte (bytes "origin") refl,
          (
            checked-IsByte (bytes "rc4") refl,
            (checked-IsByte (bytes "plain") refl, (checked-IsByte (bytes "p:w/d") refl, tt)),
          ),
        ),
      ),
    )

abbrev link_query : Query
link_query = (bytes "sni", bytes "a&b=c d") ∷ (bytes "alpn", bytes "h2,http/1.1?#") ∷ []

abbrev sorted_query : Query
sorted_query = (bytes "alpn", bytes "h2,http/1.1?#") ∷ (bytes "sni", bytes "a&b=c d") ∷ []

read_link-share_url_example :
    (read_link (
        share_url
          (bytes "ss")
          (some (user_password (bytes "aes") (bytes "a@b#c")))
          (bytes "[::1]:1")
          link_query
          (bytes "my #1"))
      ≡ (bytes "ss", bytes "aes", bytes "a@b#c", bytes "[::1]:1", sorted_query, bytes "my #1"))
    × (lookup (bytes "sni") sorted_query ≡ some (bytes "a&b=c d"))
unfolding sorted lookup equal
read_link-share_url_example =
    read_link-share_url (bytes "ss") (user_password (bytes "aes") (bytes "a@b#c")) (bytes "[::1]:1")
      link_query (bytes "my #1") (bytes "sni") refl refl refl refl
      (checked-IsByte (bytes "aes") refl) (checked-IsByte (bytes "a@b#c") refl)
      (checked-IsByte (bytes "[::1]:1") refl)
      (
        (checked-IsByte (bytes "sni") refl, checked-IsByte (bytes "a&b=c d") refl),
        ((checked-IsByte (bytes "alpn") refl, checked-IsByte (bytes "h2,http/1.1?#") refl), tt),
      )
      (checked-IsByte (bytes "my #1") refl)

trojan_link :
    encode_share_link no_packages (
      field "type" (string (bytes "trojan")) (
        field "server" (string (bytes "h")) (
          field "port" (string (bytes "443")) (
            field "password"
              (string (bytes "p w"))
              (field "name" (string (bytes "n")) (field "skip-cert-verify" (boolean true) end))))))
    ≡ bytes "trojan://p%20w@h:443?allowInsecure=1#n"
unfolding encode_share_link
trojan_link = refl
