-- ===== src/Share/Queries.antt =====
-- core/share_link.go: `hostPort` and the query that the links of VMess and VLESS share.
use yu_clash.Prelude.{Bool, true, false, not, ◌&&◌, ◌||◌, String, [], if◌then◌else◌}
use yu_clash.Text.{Text, bytes, equal, is_empty, text_equality}
use yu_clash.Share.{Packages, Fields, str, list, first, flag, sub, join}
use yu_clash.Share.Url.{Query, set, set_if, join_host_port}

abbrev pub is_text : Text → String → Bool
is_text s t = equal s (bytes t)

abbrev pub when : Bool → (Query → Query) → Query → Query
when true change q = change q
when false change q = q

abbrev pub put : String → Text → Query → Query
put key value q = set (bytes key) value q

-- `setIf` of a field.
abbrev pub put_if : String → Text → Query → Query
put_if key value q = set_if (bytes key) value q

abbrev pub is_set_data : Text → Bool
is_set_data s = not (is_empty s) && not (is_text s "0")

module _ (p : Packages) where
  -- `hostPort`.
  unfoldable pub host_port : Fields → Text
  unfolding str join_host_port
  host_port f = join_host_port (str p f "server") (str p f "port")

  abbrev pub alpn_of : Fields → Text
  alpn_of f = join (bytes ",") (list p f "alpn")

  abbrev tls_query : Fields → Query → Query
  tls_query f q =
      let reality = sub f "reality-opts" in
      let key = str p reality "public-key" in
      let secured =
        if is_empty key
        then put "security" (bytes "tls") q
        else put_if "support-x25519mlkem768" (str p reality "support-x25519mlkem768") (
            put_if "sid" (str p reality "short-id")
              (put "pbk" key (put "security" (bytes "reality") q))) in
      put_if "pcs" (str p f "fingerprint")
        (put_if "alpn" (alpn_of f) (put_if "fp" (str p f "client-fingerprint") secured))

  abbrev packet_query : Fields → Query → Query
  packet_query f q =
      if flag f "packet-addr"
      then put "packetEncoding" (bytes "packet") q
      else if flag f "xudp"
      then q
      else put "packetEncoding" (bytes "none") q

  abbrev http_query : Fields → Query → Query
  http_query opts q = put_if "method" (str p opts "method") (
      put_if "host" (first p (sub opts "headers") "Host") (
        put_if "path" (first p opts "path")
          (put "headerType" (bytes "http") (put "type" (bytes "tcp") q))))

  abbrev h2_query : Fields → Query → Query
  h2_query opts q =
      put_if "host" (first p opts "host")
        (put_if "path" (str p opts "path") (put "type" (bytes "http") q))

  abbrev ws_query : Text → Fields → Query → Query
  ws_query network opts q =
      let located =
        put_if "host" (str p (sub opts "headers") "Host")
          (put_if "path" (str p opts "path") (put "type" network q)) in
      let early_data = str p opts "max-early-data" in
      let header = str p opts "early-data-header-name" in
      if is_text network "ws"
      then when (not (is_empty header) && not (is_text header "Sec-WebSocket-Protocol"))
          (put "eh" header) (when (is_set_data early_data) (put "ed" early_data) located)
      else when (flag opts "v2ray-http-upgrade-fast-open") (put "ed" (bytes "0")) located

  abbrev pub grpc_query : Fields → Query → Query
  grpc_query f q =
      put_if "serviceName" (str p (sub f "grpc-opts") "grpc-service-name")
        (put "type" (bytes "grpc") q)

  abbrev xhttp_query : Fields → Query → Query
  xhttp_query opts q = put_if "mode" (str p opts "mode") (
      put_if "host" (str p opts "host")
        (put_if "path" (str p opts "path") (put "type" (bytes "xhttp") q)))

  unfoldable pub network_query : Fields → Query → Query
  unfolding str flag sub first set set_if equal
  network_query f q =
      let network = str p f "network" in
      if is_empty network || is_text network "tcp"
      then q
      else if is_text network "http"
      then http_query (sub f "http-opts") q
      else if is_text network "h2"
      then h2_query (sub f "h2-opts") q
      else if is_text network "ws" || is_text network "httpupgrade"
      then ws_query network (sub f "ws-opts") q
      else if is_text network "grpc"
      then grpc_query f q
      else if is_text network "xhttp"
      then xhttp_query (sub f "xhttp-opts") q
      else put "type" network q

  -- `vShareQuery`.
  unfoldable pub v_share_query : Fields → Query
  unfolding str flag sub list first join set set_if network_query
  v_share_query f =
      network_query f (
        packet_query f (put_if "sni" (str p f "servername") (when (flag f "tls") (tls_query f) [])))
