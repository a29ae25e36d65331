-- ===== src/Brokers.antt =====
-- The clients of the brokers' APIs: internal/hivemq/client.go and internal/emqx/client.go, which are the
-- Provisioner of internal/mqttbroker. The HTTP client is a parameter: it gives the status of the
-- answer, or fails. The token and the password of the API are left out.
pub mod Hivemq
pub mod Emqx
pub mod Retry
use Prim.Native.String
use fishhub_server.Prelude.{ℕ, String, Bool, Option, none, some, List, [], ◌∷◌, if◌then◌else◌, leb}
use fishhub_server.World.{Error, failed, Result, ok, err, World, Action, pure, raise, ◌>>=◌, ◌>>◌}
use fishhub_server.Outbox.{error_text}
use fishhub_server.Peripherals.Pushes.{decimal}

-- http.Client.Do: method, path and the fields of the body
abbrev pub Send : Type 0
Send = String → String → List (String × String) → Action ℕ

abbrev pub unless_refused : ℕ → Action (Unit {0})
unless_refused status =
    if leb 300 status
    then raise (failed (String.◌++◌ "unexpected status " (decimal status)))
    else pure tt

-- apiClient.do, of either client
unfoldable pub request : Send → String → String → List (String × String) → Action (Unit {0})
request send method path body = do status ← send method path body; unless_refused status

-- fmt.Errorf with %w
abbrev pub wrap_error : String → Error → Error
wrap_error what e = failed (String.◌++◌ what (String.◌++◌ ": " (error_text e)))

abbrev pub wrapped_result : String → Result (Unit {0}) × World → Result (Unit {0}) × World
wrapped_result what (ok _, w) = (ok tt, w)
wrapped_result what (err e, w) = (err (wrap_error what e), w)

abbrev pub wrapped : String → Action (Unit {0}) → Action (Unit {0})
wrapped what m w = wrapped_result what (m w)
