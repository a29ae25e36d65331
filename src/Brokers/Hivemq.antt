-- ===== src/Brokers/Hivemq.antt =====
-- internal/hivemq/client.go, with the id of the role of devices.
use Prim.Native.String
use fishhub_server.Prelude.{String, List, [], ◌∷◌}
use fishhub_server.World.{Result, ok, err, World, Action, ◌>>◌}
use fishhub_server.Brokers.{Send, request, wrap_error, wrapped}

abbrev pub credentials_path : String
credentials_path = "/mqtt/credentials"

abbrev pub credential_path : String → String
credential_path username = String.◌++◌ "/mqtt/credentials/" username

abbrev pub role_path : String → String → String → String
role_path role username verb =
    String.◌++◌ "/user/"
      (String.◌++◌ username (String.◌++◌ "/roles/" (String.◌++◌ role (String.◌++◌ "/" verb))))

abbrev pub credentials_body : String → String → List (String × String)
credentials_body username password =
    ("credentials.username", username) ∷ ("credentials.password", password) ∷ []

-- The role that could not be attached: the credential is deleted again, whatever that gives.
abbrev pub roll_back : Send → String → Result (Unit {0}) × World → Result (Unit {0}) × World
roll_back send username (ok _, w) = (ok tt, w)
roll_back send username (err e, w) = (
  err (wrap_error "hivemq: attach role" e),
  (request send "DELETE" (credential_path username) [] w).1,
)

-- apiClient.ProvisionDevice
unfoldable pub provision : Send → String → String → String → Action (Unit {0})
unfolding request
provision send role username password = do
  wrapped "hivemq: create credential"
      (request send "POST" credentials_path (credentials_body username password))
  (λ w. roll_back send username (request send "PUT" (role_path role username "attach") [] w))

-- apiClient.DeleteDevice
unfoldable pub delete_device : Send → String → String → Action (Unit {0})
unfolding request
delete_device send role username = do
  wrapped "hivemq: detach role" (request send "PUT" (role_path role username "detach") [])
  wrapped "hivemq: delete credential" (request send "DELETE" (credential_path username) [])
