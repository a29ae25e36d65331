-- ===== src/Firmware/Poller.antt =====
-- The cache of the latest release: internal/firmware/poller.go and internal/firmware/manifest_store.go.
-- The HTTP client, the client of S3 and encoding/json are parameters. The lock is left out.
use Prim.Native.String
use Prim.Native.Char.{code}
use fishhub_server.Prelude.{ℕ, zero, suc, String, ◌==◌, Option, some, if◌then◌else◌, eqb}
use fishhub_server.World.{failed, Result, ok, err, World, Action, pure, raise, lift, ◌>>=◌, ◌>>◌}
use fishhub_server.Device.{or_error}
use fishhub_server.Firmware.{Release}

-- Manifest
pub record Manifest : Type 0 where
  pub version : String
  pub sha256 : String
  pub object_key : String

pub record Sources : Type 0 where
  -- GET of the latest release of the repository: the status and the body
  pub latest_release : Action (ℕ × String)
  pub decode_tag : String → Option String
  -- s3.Client.GetObject
  pub get_object : String → Action String
  pub decode_manifest : String → Option Manifest

-- strings.TrimPrefix(s, "v")
abbrev pub trim_v : String → String
trim_v String.[] = ""
trim_v (String.◌∷◌ c s) = if eqb (code c) b'v' then s else String.◌∷◌ c s

abbrev pub tag_of : String → Action String
tag_of tag = if tag == "" then raise (failed "github api: empty tag_name") else pure (trim_v tag)

-- GitHubPoller.fetchLatestTag
unfoldable pub fetch_latest_tag : Sources → Action String
fetch_latest_tag s = do
  answer ← s.latest_release
  (if eqb answer.0 200 then pure tt else raise (failed "github api: status"))
  tag ← lift (or_error (failed "parse github response") (s.decode_tag answer.1))
  tag_of tag

-- s3ManifestReader.GetManifest
unfoldable pub get_manifest : Sources → String → Action Manifest
get_manifest s version = do
  body ← s.get_object (String.◌++◌ "firmware/" (String.◌++◌ version "/manifest.json"))
  lift (or_error (failed "manifest reader: parse") (s.decode_manifest body))

abbrev pub release_of : Manifest → Release
release_of m = record { version = m.version; sha256 = m.sha256; object_key = m.object_key }

abbrev pub updated : Option Release → Result Manifest × World → Option Release × World
updated latest (ok m, w) = (some (release_of m), w)
updated latest (err _, w) = (latest, w)

-- GitHubPoller.poll: the release that is cached. An error is only logged.
unfoldable pub poll : Sources → Option Release → World → Option Release × World
unfolding fetch_latest_tag get_manifest
poll s latest w = updated latest ((do version ← fetch_latest_tag s; get_manifest s version) w)

-- GitHubPoller.Run, for a number of ticks.
unfoldable pub polls : Sources → ℕ → Option Release → World → Option Release × World
unfolding poll
polls s zero latest w = (latest, w)
polls s (suc n) latest w = let (latest', w') = poll s latest w in polls s n latest' w'
