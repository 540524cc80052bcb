-- ===== src/Method/Table.antt =====
-- core/method.go and core/protocol.go: the names of the methods with the wrapper that each handler has.
use yu_clash.Prelude.{
  Option, none, some, String, List, [], ◌∷◌, string_equality, if◌then◌else◌, is_some,
}
use yu_clash.Prelude.Maps.{lookup}

pub data Wrapper : Type 0 where
  arguments fallible message no_arguments acknowledgement watch_route : Wrapper

-- `methodHandlers`, by the texts that `protocol.go` gives the methods.
unfoldable pub method_handlers : List (String × Wrapper)
method_handlers =
    ("initClash", arguments)
    ∷ ("getIsInit", no_arguments)
    ∷ ("forceGc", acknowledgement)
    ∷ ("shutdown", no_arguments)
    ∷ ("startListener", no_arguments)
    ∷ ("stopListener", no_arguments)
    ∷ ("getMemoryStats", no_arguments)
    ∷ ("startLog", acknowledgement)
    ∷ ("stopLog", acknowledgement)
    ∷ ("validateConfig", message)
    ∷ ("decryptConfig", fallible)
    ∷ ("getConfig", fallible)
    ∷ ("getProfileBase", fallible)
    ∷ ("getProfileOutbounds", fallible)
    ∷ ("getProxyDefinition", fallible)
    ∷ ("buildProfile", fallible)
    ∷ ("setupConfig", message)
    ∷ ("updateConfig", message)
    ∷ ("validateProxies", arguments)
    ∷ ("validateFilters", arguments)
    ∷ ("convertProxies", fallible)
    ∷ ("encodeShareLinks", arguments)
    ∷ ("decodeShareLinks", arguments)
    ∷ ("getProxies", no_arguments)
    ∷ ("changeProxy", arguments)
    ∷ ("asyncTestDelay", arguments)
    ∷ ("watchRoute", watch_route)
    ∷ ("checkRoutes", arguments)
    ∷ ("probe", arguments)
    ∷ ("outboundIp", arguments)
    ∷ ("serviceCheck", arguments)
    ∷ ("getTraffic", arguments)
    ∷ ("getTotalTraffic", arguments)
    ∷ ("resetTraffic", acknowledgement)
    ∷ ("getConnections", no_arguments)
    ∷ ("getConnectionCount", no_arguments)
    ∷ ("closeConnections", no_arguments)
    ∷ ("resetConnections", no_arguments)
    ∷ ("clearDnsCache", acknowledgement)
    ∷ ("closeConnection", arguments)
    ∷ ("getExternalProviders", no_arguments)
    ∷ ("getExternalProvider", arguments)
    ∷ ("updateExternalProvider", message)
    ∷ ("sideLoadExternalProvider", message)
    ∷ ("updateGeoData", message)
    ∷ ("dumpRuleSet", fallible)
    ∷ ("compileRuleSet", fallible)
    ∷ ("clearEffect", message)
    ∷ []

-- `registerMethod`; `none` is its panic on a name that is taken.
unfoldable pub register_method {ℓ} :
    {H : Type ℓ} → String → H → List (String × H) → Option (List (String × H))
unfolding lookup
register_method name handler handlers =
    if is_some (lookup name handlers) then none else some ((name, handler) ∷ handlers)

unfoldable pub register_all {ℓ} :
    {H : Type ℓ} → List (String × H) → List (String × H) → Option (List (String × H))
unfolding register_method
register_all [] handlers = some handlers
register_all ((name, handler) ∷ rest) handlers = elim (register_method name handler handlers) [
  | none ↦ none
  | some more ↦ register_all rest more
]
