-- ===== src/Share/Vmess.antt =====
-- core/share_link.go: `encodeVmess`, with the form of v2rayN.
use yu_clash.Prelude.{not, ◌&&◌, Option, none, some, String, List, [], ◌++◌, if◌then◌else◌}
use yu_clash.Prelude.Maps.{insert}
use yu_clash.Text.{Text, bytes, equal, is_empty, text_equality}
use yu_clash.Share.{Packages, Fields, str, list, first, flag, sub, join}
use yu_clash.Share.Url.{set, user, share_url}
use yu_clash.Share.Base64.{std}
use yu_clash.Share.Queries.{is_text, when, put, is_set_data, host_port, alpn_of, v_share_query}

abbrev or_text : Option Text → Text → Text
or_text none s = s
or_text (some t) _ = t

abbrev V2rayN : Type 0
V2rayN = List (Text × Text)

abbrev assign : String → Text → V2rayN → V2rayN
assign key value values = insert (bytes key) value values

module _ (p : Packages) where
  -- `wsEarlyDataPath`.
  unfoldable pub ws_early_data_path : Text → Fields → Text
  unfolding str equal
  ws_early_data_path path opts =
      let early_data = str p opts "max-early-data" in
      if is_set_data early_data
      then or_text (p.set_parameter path (bytes "ed") early_data) path
      else path

  abbrev v2ray_n_start : Fields → V2rayN
  v2ray_n_start f = assign "v" (bytes "2") (
      assign "ps" (str p f "name") (
        assign "add" (str p f "server") (
          assign "port" (str p f "port") (
            assign "id" (str p f "uuid") (
              assign "aid" (str p f "alterId") (
                assign "scy" (str p f "cipher") (
                  assign "net" (bytes "tcp") (
                    assign "type" (bytes "none")
                      (assign "host" [] (assign "path" [] (assign "tls" [] [])))))))))))

  abbrev v2ray_n_network : Fields → V2rayN → V2rayN
  v2ray_n_network f values =
      let network = str p f "network" in
      let ws = sub f "ws-opts" in
      let http = sub f "http-opts" in
      let h2 = sub f "h2-opts" in
      if is_text network "ws"
      then assign "path" (ws_early_data_path (str p ws "path") ws)
          (assign "host" (str p (sub ws "headers") "Host") (assign "net" network values))
      else if is_text network "httpupgrade"
      then assign "path" (str p ws "path")
          (assign "host" (str p (sub ws "headers") "Host") (assign "net" network values))
      else if is_text network "http"
      then assign "path" (first p http "path") (
          assign "host" (first p (sub http "headers") "Host") (assign "type" (bytes "http") values))
      else if is_text network "h2"
      then assign "path" (str p h2 "path")
          (assign "host" (first p h2 "host") (assign "net" (bytes "h2") values))
      else if is_text network "grpc"
      then assign "path" (str p (sub f "grpc-opts") "grpc-service-name")
          (assign "net" (bytes "grpc") values)
      else values

  abbrev v2ray_n_tls : Fields → V2rayN → V2rayN
  v2ray_n_tls f values =
      if flag f "tls"
      then assign "fp" (str p f "client-fingerprint") (
          assign "alpn" (alpn_of p f)
            (assign "sni" (str p f "servername") (assign "tls" (bytes "tls") values)))
      else values

  -- `encodeVmess`; the branch that gives an empty `aid` its default is not reached behind the first test.
  unfoldable pub encode_vmess : Fields → Text
  unfolding str flag sub list first join insert ws_early_data_path v_share_query set share_url
      host_port std equal
  encode_vmess f =
      let alter_id = str p f "alterId" in
      let cipher = str p f "cipher" in
      if is_set_data alter_id
      then bytes "vmess://" ++ std (p.marshal (v2ray_n_tls f (v2ray_n_network f (v2ray_n_start f))))
      else share_url (bytes "vmess") (some (user (str p f "uuid"))) (host_port p f)
          (when (not (is_empty cipher) && not (is_text cipher "auto")) (put "encryption" cipher)
            (v_share_query p f))
          (str p f "name")
