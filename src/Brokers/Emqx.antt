-- ===== src/Brokers/Emqx.antt =====
-- internal/emqx/client.go, with the id of the authentication resource.
use Prim.Native.String
use fishhub_server.Prelude.{String, [], ◌∷◌}
use fishhub_server.World.{Action}
use fishhub_server.Brokers.{Send, request, wrapped}

abbrev pub users_path : String → String
users_path auth_id = String.◌++◌ "/api/v5/authentication/" (String.◌++◌ auth_id "/users")

-- apiClient.ProvisionDevice
unfoldable pub provision : Send → String → String → String → Action (Unit {0})
unfolding request
provision send auth_id username password =
    wrapped "emqx: create credential" (
      request send "POST" (users_path auth_id)
        (("user_id", username) ∷ ("password", password) ∷ []))

-- apiClient.DeleteDevice
unfoldable pub delete_device : Send → String → String → Action (Unit {0})
unfolding request
delete_device send auth_id username =
    wrapped "emqx: delete credential"
      (request send "DELETE" (String.◌++◌ (users_path auth_id) (String.◌++◌ "/" username)) [])
