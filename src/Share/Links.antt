-- ===== src/Share/Links.antt =====
-- core/share_link.go: the encoders of the other types, and `handleEncodeShareLinks`. A type or a mapping
-- without a link form encodes to the empty text.
use yu_clash.Prelude.{not, ◌&&◌, Option, none, some, List, [], ◌∷◌, ◌++◌, map, if◌then◌else◌}
use yu_clash.Text.{Text, bytes, equal, is_empty, text_equality}
use yu_clash.Share.{Packages, Fields, str, list, flag, sub, join}
use yu_clash.Share.Url.{Query, set, set_if, user, user_password, share_url, has_colon}
use yu_clash.Share.ShadowsocksR.{encode_shadowsocks_r}
use yu_clash.Share.Queries.{
  is_text, when, put, put_if, host_port, alpn_of, grpc_query, v_share_query,
}
use yu_clash.Share.Vmess.{encode_vmess}

module _ (p : Packages) where
  abbrev obfs_plugin : Fields → Text
  obfs_plugin opts =
      bytes "obfs-local;obfs=" ++ str p opts "mode" ++ bytes ";obfs-host=" ++ str p opts "host"

  abbrev v2ray_plugin : Fields → Text
  v2ray_plugin opts =
      bytes "v2ray-plugin;mode="
      ++ str p opts "mode"
      ++ bytes ";host="
      ++ str p opts "host"
      ++ bytes ";path="
      ++ str p opts "path"
      ++ (if flag opts "tls" then bytes ";tls" else [])

  -- `encodeShadowsocks`.
  unfoldable pub encode_shadowsocks : Fields → Text
  unfolding str flag sub set share_url host_port equal
  encode_shadowsocks f =
      let plugin = str p f "plugin" in
      let opts = sub f "plugin-opts" in
      let query = when (flag f "udp-over-tcp") (put "uot" (bytes "1")) [] in
      let link : Query → Text = (λ q.
        share_url (bytes "ss") (some (user_password (str p f "cipher") (str p f "password")))
          (host_port p f) q (str p f "name")) in
      if is_empty plugin
      then link query
      else if is_text plugin "obfs"
      then link (put "plugin" (obfs_plugin opts) query)
      else if is_text plugin "v2ray-plugin"
      then link (put "plugin" (v2ray_plugin opts) query)
      else []

  -- `encodeVless`.
  unfoldable pub encode_vless : Fields → Text
  unfolding str set_if v_share_query share_url host_port
  encode_vless f =
      share_url (bytes "vless") (some (user (str p f "uuid"))) (host_port p f)
        (put_if "encryption" (str p f "encryption")
          (put_if "flow" (str p f "flow") (v_share_query p f)))
        (str p f "name")

  abbrev trojan_network : Fields → Query → Option Query
  trojan_network f q =
      let network = str p f "network" in
      let opts = sub f "ws-opts" in
      if is_text network "ws"
      then (if is_empty (str p (sub opts "headers") "Host")
          then some (put_if "path" (str p opts "path") (put "type" (bytes "ws") q))
          else none)
      else if is_text network "grpc"
      then some (grpc_query p f q)
      else some q

  -- `encodeTrojan`.
  unfoldable pub encode_trojan : Fields → Text
  unfolding str flag sub list join set set_if share_url host_port equal
  encode_trojan f =
      elim (trojan_network f (
        put_if "alpn" (alpn_of p f) (
          put_if "sni" (str p f "sni")
            (when (flag f "skip-cert-verify") (put "allowInsecure" (bytes "1")) [])))) [
              | none ↦ []
              | some q ↦
                  share_url (bytes "trojan") (some (user (str p f "password"))) (host_port p f)
                    (put_if "pcs" (str p f "fingerprint")
                      (put_if "fp" (str p f "client-fingerprint") q))
                    (str p f "name")
            ]

  -- `encodeHysteria`.
  unfoldable pub encode_hysteria : Fields → Text
  unfolding str flag list join set set_if share_url host_port
  encode_hysteria f =
      let auth = if is_empty (str p f "auth-str") then str p f "auth_str" else str p f "auth-str" in
      share_url (bytes "hysteria") none (host_port p f)
        (when (flag f "skip-cert-verify") (put "insecure" (bytes "1")) (
          put_if "down" (str p f "down") (
            put_if "up" (str p f "up") (
              put_if "protocol" (str p f "protocol") (
                put_if "auth" auth (
                  put_if "alpn" (alpn_of p f)
                    (put_if "obfs" (str p f "obfs") (put_if "peer" (str p f "sni") []))))))))
        (str p f "name")

  -- `encodeHysteria2`.
  unfoldable pub encode_hysteria2 : Fields → Text
  unfolding str flag sub list join set set_if share_url host_port
  encode_hysteria2 f =
      let ports = str p f "ports" in
      let host =
        if not (is_empty ports) && not (has_colon (str p f "server"))
        then str p f "server" ++ bytes ":" ++ ports
        else host_port p f in
      let who = if is_empty (str p f "password") then none else some (user (str p f "password")) in
      if flag (sub f "realm-opts") "enable"
      then []
      else share_url (bytes "hysteria2") who host
          (put_if "down" (str p f "down") (
            put_if "up" (str p f "up") (
              put_if "pinSHA256" (str p f "fingerprint") (
                put_if "alpn" (alpn_of p f) (
                  when (flag f "skip-cert-verify") (put "insecure" (bytes "1")) (
                    put_if "obfs-password" (str p f "obfs-password")
                      (put_if "obfs" (str p f "obfs") (put_if "sni" (str p f "sni") []))))))))
          (str p f "name")

  -- `encodeTuic`.
  unfoldable pub encode_tuic : Fields → Text
  unfolding str flag list join set set_if share_url host_port
  encode_tuic f =
      let who =
        if is_empty (str p f "uuid")
        then user (str p f "token")
        else user_password (str p f "uuid") (str p f "password") in
      share_url (bytes "tuic") (some who) (host_port p f)
        (put_if "udp_relay_mode" (str p f "udp-relay-mode") (
          when (flag f "disable-sni") (put "disable_sni" (bytes "1")) (
            put_if "sni" (str p f "sni") (
              put_if "alpn" (alpn_of p f)
                (put_if "congestion_control" (str p f "congestion-controller") [])))))
        (str p f "name")

  -- `encodeSocks`.
  unfoldable pub encode_socks : Fields → Text → Text
  unfolding str share_url host_port
  encode_socks f scheme =
      let username = str p f "username" in
      let password = str p f "password" in
      let who =
        if is_empty username && is_empty password
        then none
        else some (user_password username password) in
      share_url scheme who (host_port p f) [] (str p f "name")

  -- `encodeAnyTLS`.
  unfoldable pub encode_any_tls : Fields → Text
  unfolding str flag set set_if share_url host_port
  encode_any_tls f =
      share_url (bytes "anytls") (some (user (str p f "password"))) (host_port p f)
        (put_if "hpkp" (str p f "fingerprint") (
          when (flag f "skip-cert-verify") (put "insecure" (bytes "1"))
            (put_if "sni" (str p f "sni") [])))
        (str p f "name")

  abbrev or_default : Text → Text → Text
  or_default [] other = other
  or_default (c ∷ s) other = c ∷ s

  -- `encodeMieru`.
  unfoldable pub encode_mieru : Fields → Text
  unfolding str set set_if share_url
  encode_mieru f =
      let server = str p f "server" in
      let host = if has_colon server then bytes "[" ++ server ++ bytes "]" else server in
      share_url (bytes "mierus") (some (user_password (str p f "username") (str p f "password")))
        host
        (put_if "traffic-pattern" (str p f "traffic-pattern") (
          put_if "handshake-mode" (str p f "handshake-mode") (
            put_if "multiplexing" (str p f "multiplexing") (
              put "protocol" (or_default (str p f "transport") (bytes "TCP"))
                (put "port" (or_default (str p f "port-range") (str p f "port")) [])))))
        (str p f "name")

  unfoldable pub encode_type : Fields → Text → Text
  unfolding flag equal encode_shadowsocks encode_shadowsocks_r encode_vmess encode_vless
      encode_trojan encode_hysteria encode_hysteria2 encode_tuic encode_socks encode_any_tls
      encode_mieru
  encode_type f kind =
      if is_text kind "ss"
      then encode_shadowsocks f
      else if is_text kind "ssr"
      then encode_shadowsocks_r p f
      else if is_text kind "vmess"
      then encode_vmess p f
      else if is_text kind "vless"
      then encode_vless f
      else if is_text kind "trojan"
      then encode_trojan f
      else if is_text kind "hysteria"
      then encode_hysteria f
      else if is_text kind "hysteria2"
      then encode_hysteria2 f
      else if is_text kind "tuic"
      then encode_tuic f
      else if is_text kind "socks5"
      then encode_socks f (bytes "socks5")
      else if is_text kind "http"
      then encode_socks f (if flag f "tls" then bytes "https" else bytes "http")
      else if is_text kind "anytls"
      then encode_any_tls f
      else if is_text kind "mieru"
      then encode_mieru f
      else []

  -- `encodeShareLink`.
  unfoldable pub encode_share_link : Fields → Text
  unfolding str encode_type
  encode_share_link f = if is_empty (str p f "server") then [] else encode_type f (str p f "type")

  -- `handleEncodeShareLinks`.
  unfoldable pub handle_encode_share_links : List Fields → List Text
  unfolding encode_share_link
  handle_encode_share_links mappings = map encode_share_link mappings
