-- ===== src/Lib.antt =====
-- The Go core of YuClash (core/), the process that hosts mihomo for the Flutter application.
--
-- Components
--   Route         core/route.go: the route tracker, its watch and poller, and the exits of routes.
--   Message       core/message.go, core/protocol.go: the classes of messages, the bounded queues and
--                 the goroutine that batches them for the host.
--   Config        core/config.go, core/lifecycle.go: the running configuration, its updates, what mihomo is
--                 told of it, and the life of the core from init to shutdown.
--   Ipc           core/server.go: the frames of the desktop's connection and `send`, which carries
--                 the batches and the results of methods.
--   Text, Pattern the parts of Go's strings, net/url and regexp that the checks of services use.
--   Region        core/region.go: country codes.
--   Service       core/service_check.go, core/service_rules.go: the rules that judge streaming and chat
--                 services, the sweep that runs them, and the claims that cancel older checks.
--   Probe         core/probe.go: the hits of an answer and the reading of a body.
--   Traffic       core/request_traffic.go: the reports of the traffic of open requests.
--   RuleSet       core/rule_set.go: rule sets, from the name of a cached file to the compiled one.
--   Profile       core/profile_base.go: the merge of a profile and the host's overlay.
--   Provider      core/provider.go, core/geo.go: external providers, the claims of updates, and the errors of
--                 failed ones.
--   Outbound      core/outbound_ip.go: the race of the sources that tell the outbound address.
--   Share         core/share_link.go: the links that mappings of proxies are shared as.
--   Method        core/method.go, core/spill.go, core/protocol.go: the table of methods, the dispatch of a
--                 call and its reply, which goes to a file when it is large.
--
-- Conventions. A Go function is named in snake case: `refreshRouteLocked` is `refresh_route_locked`. A
-- handler that mutates package state takes the state and returns the new one; a critical section
-- under a lock is one function, and concurrent calls are lists of such steps in any order. Unsigned
-- counters wrap at their width. Texts that the program only compares are native texts, and texts that
-- it walks are lists of bytes. Go's maps are association lists on which a write replaces the entry of
-- its key.
--
-- Bounds. The walk along `Unwrap` and the loops of `writeAll`, `enqueueLatest` and the binary search are
-- recursion on a number of rounds: the depth of a proxy, the bytes that are left, the constant of the source
-- and the length of the range. Each of them shrinks in a round, so the number is enough. The loop of
-- `resumingWriter.Write` recurs on the answers that the connection gives; `none` is a connection that does not
-- answer. The race of the outbound address recurs on the events that its `select` receives; `none` is a race that
-- still waits. The search through merge keys recurs on the tree of the document.
--
-- Interaction. `Method` dispatches the calls that the other parts handle, and `Ipc` carries its replies and the
-- batches of `Message`. `Config` asks `Route` for changes of the route and holds the settings of geo updates. `Probe`
-- records the hits that `Outbound` and the checks of `Route` resolve. `Profile` merges what `Config` loads.
--
-- Not modelled. The views of proxies, the dialer of probes, the retagging of short ids, the writing of documents and
-- the handlers of the host's platform have no module here. mihomo (tunnel, proxies, statistics, configuration) is a
-- parameter, an argument or a record of what it was last told, and so are the network, the clock, the file calls'
-- outcomes, url.Parse, net/netip, fmt.Sprint, YAML and JSON. Case folding and trimming know ASCII only, and the
-- home directory is a cleaned path without a slash at its end. A parsed
-- YAML document is a tree, so changes that aliases share are left out.
mod Prelude
pub mod Route
pub mod Message
pub mod Config
pub mod Ipc
pub mod Text
pub mod Pattern
pub mod Region
pub mod Service
pub mod Traffic
pub mod RuleSet
pub mod Probe
pub mod Profile
pub mod Provider
pub mod Share
pub mod Method
pub mod Outbound
