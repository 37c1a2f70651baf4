-- ===== src/Tests/CodesTests.antt =====
-- Examples of exchanges of an authorization code.
use oauth_lab.Prelude.{some, true, false, ◌≡◌, refl}
use oauth_lab.Flow.{is_raised, ok}
use oauth_lab.Dict
use oauth_lab.Domain.Client.{authorization_code, supports_grant}
use oauth_lab.Domain.Pkce.{verify}
use oauth_lab.Domain.AuthorizationCode.{is_consumed, is_expired}
use oauth_lab.World.{World}
use oauth_lab.Token.{TokenRequest}
use oauth_lab.Grant.AuthorizationCode.{execute, uri_agrees}
use oauth_lab.Grant.AuthorizationCode.Sound.{execute_sound, execute_complete}
use oauth_lab.System.Spent.{is_spent}
use oauth_lab.System.SingleUse.{execute-burns}
use oauth_lab.Tests.{program, env, client, code, code, world, request_for, answer, verifier_text}

abbrev request : TokenRequest
request = request_for authorization_code

abbrev wrong : TokenRequest
wrong = record request { code_verifier = some "wrong" }

abbrev after : World
after = (execute env request client world).1

exchanged : execute env request client world ≡ (ok answer, after)
unfolding program
exchanged = refl

execute_sound_example :
    (supports_grant client authorization_code ≡ true)
    × (code.client_id ≡ client.id)
    × (uri_agrees request.redirect_uri code.redirect_uri ≡ true)
    × (verify env.s256 verifier_text code.pkce_challenge ≡ true)
    × (is_consumed code ≡ false)
    × (is_expired code (env.now_at world.reads) ≡ false)
    × (answer.scope ≡ some code.scope)
unfolding program
execute_sound_example =
    execute_sound env request client "c1" verifier_text world after code answer refl refl refl
      exchanged

execute_complete_example : is_raised (execute env request client world).0 ≡ false
unfolding program
execute_complete_example =
    execute_complete env request client "c1" verifier_text world code refl refl refl refl refl refl
      refl refl refl refl refl

execute-burns_example :
    is_spent (Dict.get (execute env wrong client world).1.auth_codes "c1") ≡ true
unfolding program
execute-burns_example =
    execute-burns env wrong client "c1" "wrong" world code refl refl refl refl refl refl refl refl
