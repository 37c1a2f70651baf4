-- ===== src/Tests/RefreshTests.antt =====
-- Examples of refreshes: of a live token, and of one that was consumed.
use oauth_lab.Prelude.{some, true, false, ◌≡◌, refl}
use oauth_lab.Flow.{is_raised, ok}
use oauth_lab.Dict
use oauth_lab.Domain.Client.{refresh_token, supports_grant}
use oauth_lab.Domain.Scope.Laws.{is_within}
use oauth_lab.Domain.RefreshToken.{is_consumed, is_expired}
use oauth_lab.Memory.RefreshTokens.Laws.{revoked, map_option}
use oauth_lab.Token.{TokenRequest}
use oauth_lab.World.{World}
use oauth_lab.Grant.RefreshToken.{execute}
use oauth_lab.Grant.RefreshToken.Replay.{no_live, execute-replay}
use oauth_lab.Grant.RefreshToken.Rotation.{rotated, execute-rotation}
use oauth_lab.Tests.{program, env, client, world, old_token, live_token, request_for, answer}

abbrev request : TokenRequest
request = request_for refresh_token

abbrev replayed : TokenRequest
replayed = record request { refresh_token = some "r0" }

abbrev after : World
after = (execute env request client world).1

refreshed : execute env request client world ≡ (ok answer, after)
unfolding program
refreshed = refl

execute-replay_example :
    let w' = (execute env replayed client world).1 in
    (is_raised (execute env replayed client world).0 ≡ true)
    × (Dict.get w'.refresh_tokens "r1"
        ≡ map_option
            (revoked old_token.family_id (env.now_at world.reads))
            (Dict.get world.refresh_tokens "r1"))
    × (no_live env old_token.family_id (Dict.get w'.refresh_tokens "r1") ≡ true)
unfolding program
execute-replay_example =
    execute-replay env replayed client world "r0" old_token "r1" (refl, (refl, tt)) refl refl refl
      refl refl refl

execute-rotation_example :
    (supports_grant client refresh_token ≡ true)
    × (live_token.client_id ≡ client.id)
    × (is_consumed live_token ≡ false)
    × (is_expired live_token (env.now_at world.reads) ≡ false)
    × (is_within answer.scope live_token.scope ≡ true)
    × (answer.refresh_token ≡ some (env.token_at world.draws 32))
    × (after.refresh_tokens
        ≡ rotated env world.refresh_tokens live_token answer.scope
            (env.token_at world.draws 32)
            (env.now_at world.reads))
unfolding program
execute-rotation_example =
    execute-rotation env request client world after "r1" live_token answer refl refl refl refreshed
