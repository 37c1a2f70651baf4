-- ===== src/Memory/Registry.antt =====
-- memory/client_repository.py, user_repository.py and trusted_assertion_issuer_repository.py
use oauth_lab.Prelude.{String, Option, none, some, List, [], ◌∷◌, ◌==◌, if◌then◌else◌}
use oauth_lab.Flow.{Flow, gets, modify}
use oauth_lab.Dict
use oauth_lab.Dict.{Dict}
use oauth_lab.Domain.Errors.{Exception}
use oauth_lab.Domain.Client.{Client, ClientId, User, TrustedAssertionIssuer}

unfoldable pub find_by_id : ClientId → Flow (Dict Client) Exception (Option Client)
find_by_id client_id = gets (λ store. Dict.get store client_id)

unfoldable pub save_client : Client → Flow (Dict Client) Exception Unit
save_client client = modify (λ store. Dict.put store client.id client)

unfoldable pub find_by_sub : String → Flow (Dict User) Exception (Option User)
find_by_sub sub = gets (λ store. Dict.get store sub)

-- the loop over `self._by_sub.values()`
unfoldable pub first_named : String → List (String × User) → Option User
first_named username [] = none
first_named username ((_, user) ∷ users) =
    if user.username == username then some user else first_named username users

unfoldable pub find_by_username : String → Flow (Dict User) Exception (Option User)
find_by_username username = gets (first_named username)

unfoldable pub save_user : User → Flow (Dict User) Exception Unit
save_user user = modify (λ store. Dict.put store user.sub user)

unfoldable pub find_by_issuer :
    String → Flow (Dict TrustedAssertionIssuer) Exception (Option TrustedAssertionIssuer)
find_by_issuer iss = gets (λ store. Dict.get store iss)

unfoldable pub save_issuer :
    TrustedAssertionIssuer → Flow (Dict TrustedAssertionIssuer) Exception Unit
save_issuer issuer = modify (λ store. Dict.put store issuer.issuer issuer)
