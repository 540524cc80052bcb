-- ===== src/Probe.antt =====
-- core/probe.go: the hits of an answer and the reading of a body. Dialing and the HTTP client are I/O.
pub mod Scan
pub mod Hits
mod Examples
use yu_clash.Prelude.{
  ℕ, zero, suc, ◌+◌, ◌-◌, Bool, true, false, ◌&&◌, Option, none, some, String, List, [], ◌∷◌, ◌++◌,
  drop, length, ltb, if◌then◌else◌, str_eq,
}
use yu_clash.Text.{Text}
use yu_clash.Route.Exits.{RouteHit}

abbrev pub same_place : RouteHit → RouteHit → Bool
same_place a b = str_eq a.host b.host && str_eq a.proxy b.proxy

-- `withHit`.
unfoldable pub with_hit : List RouteHit → RouteHit → List RouteHit
with_hit [] hit = hit ∷ []
with_hit (h ∷ hits) hit =
    let rest = with_hit hits hit in if same_place h hit then hit ∷ hits else h ∷ rest

-- `hitRecorder.add`.
unfoldable pub add_hits : List RouteHit → List RouteHit → List RouteHit
unfolding with_hit
add_hits held [] = held
add_hits held (hit ∷ hits) = add_hits (with_hit held hit) hits

abbrev pub scan_overlap : ℕ
scan_overlap = 256

-- The loop of `readProbeBody` over the chunks that the limited reader gives, with the buffer so far.
unfoldable pub scan_chunks : (Text → Bool) → List Text → Text → Text
scan_chunks until [] buffer = buffer
scan_chunks until ([] ∷ chunks) buffer = scan_chunks until chunks buffer
scan_chunks until ((c ∷ s) ∷ chunks) buffer =
    let rest = scan_chunks until chunks (buffer ++ c ∷ s) in
    if until (drop (length buffer - scan_overlap) (buffer ++ c ∷ s)) then buffer ++ c ∷ s else rest

unfoldable pub read_all : List Text → Text
read_all [] = []
read_all (chunk ∷ chunks) = chunk ++ read_all chunks

-- `readProbeBody`.
unfoldable pub read_probe_body : Option (Text → Bool) → List Text → Text
unfolding scan_chunks read_all
read_probe_body none chunks = read_all chunks
read_probe_body (some until) chunks = scan_chunks until chunks []
