-- ===== src/Tests/AppTests.antt =====
-- Examples of the application, its settings and the demo data.
use oauth_lab.Prelude.{
  ℕ, String, arith, eq_iff, none, some, List, [], ◌∷◌, true, false, contains, ◌≡◌, refl,
}
use oauth_lab.Flow.{ok, is_raised}
use oauth_lab.Dict
use oauth_lab.Domain.Client.{Bytes}
use oauth_lab.Service.DemoData.{demo_clients}
use oauth_lab.Service.SeedDemoData.{KeyPairPem, seed_demo_data}
use oauth_lab.Service.SeedDemoData.Registered.{ids, AreRegistered, seed_demo_data-registers}
use oauth_lab.System.{Server, run}
use oauth_lab.Http.{Response, json_response, no_store_headers}
use oauth_lab.Config as ConfigModel
use oauth_lab.Config.{
  Settings, default_settings, registered_grants, registered_authenticators, scopes_supported,
  is_localhost_issuer, seed,
}
use oauth_lab.App.{
  Request, Wiring, get_login, post_login, post_consent, post_device_consent, post_token, handler,
  serve, serve_all,
}
use oauth_lab.App.Events.{all_events}
use oauth_lab.App.Runs.{serve_all-run}
use oauth_lab.App.ReadOnly.{is_read_only, serve-SameStores}
use oauth_lab.World.Frame.{SameStores}
use oauth_lab.App.SingleUse.{token-single_use, token-redeemed_once}
use oauth_lab.System.Redeemed.{IsKeyed}
use oauth_lab.Rest.Token as TokenRoute
use oauth_lab.Rest.Token.{TokenForm, token_body}
use oauth_lab.System.Spent.{NeverDrawn}
use oauth_lab.World.{World}
use oauth_lab.Tests.{program, env, decoder, world, answer, verifier_text, approved_code}
use oauth_lab.Tests.HttpTests.{form}

abbrev hash_at : ℕ → String → Bytes
hash_at n secret = n ∷ []

abbrev key_pair_at : ℕ → KeyPairPem
key_pair_at n = record { private_pem = 1 ∷ []; public_pem = 2 ∷ [] }

other_id : contains (ids hash_at key_pair_at demo_clients) "app" ≡ false
unfolding program
other_id = refl

seed_demo_data-registers_example :
    let w' = (seed_demo_data hash_at key_pair_at world).1 in
    AreRegistered hash_at key_pair_at w'.clients demo_clients
    × (Dict.get w'.clients "app" ≡ Dict.get world.clients "app")
seed_demo_data-registers_example = seed_demo_data-registers hash_at key_pair_at world "app" other_id

abbrev settings : Settings
settings = record default_settings { issuer = "https://as.example" }

-- with the public secret and a public issuer, but a seed that is allowed
abbrev allowed : Settings
allowed = record settings { allow_demo_seed = true }

abbrev server : Server
server = record {
  env = env;
  decoder = decoder;
  authenticators = registered_authenticators;
  grants = registered_grants;
}

abbrev wiring : Wiring
wiring = record {
  scopes_supported = scopes_supported;
  session_ttl_seconds = 3600;
  keys = [];
  render = λ m. "message";
  upper = λ s. s;
  unhandled = λ e. json_response 500 [] [];
}

abbrev requests : List Request
requests =
    get_login none
    ∷ post_login "ann" "secret" "/"
    ∷ post_consent (some "cookie") form
    ∷ post_device_consent (some "cookie") "csrf" "XXXX-XXXX" "approve"
    ∷ []

serve_all-run_example :
    serve_all server wiring requests world
    ≡ run server (all_events server wiring requests world) world
serve_all-run_example = serve_all-run server wiring requests world

abbrev code_form : TokenForm
code_form = record {
  authorization = none;
  client_id = some "app";
  client_secret = some "secret";
  client_assertion = none;
  client_assertion_type = none;
  grant_type = some "authorization_code";
  scope = none;
  audience = none;
  resource = none;
  code = some "c1";
  redirect_uri = some "https://app/cb";
  code_verifier = some verifier_text;
  refresh_token = none;
  device_code = none;
  assertion = none;
  subject_token = none;
  subject_token_type = none;
  actor_token = none;
  actor_token_type = none;
  requested_token_type = none;
}

abbrev exchanged_world : World
exchanged_world = (handler server wiring (post_token code_form) world).1

abbrev tokens_answer : Response
tokens_answer = json_response 200 no_store_headers (token_body answer)

code_is_answered :
    handler server wiring (post_token code_form) world ≡ (ok tokens_answer, exchanged_world)
unfolding program handler TokenRoute.token TokenRoute.build_token_request
    TokenRoute.extract_credentials TokenRoute.request_of
code_is_answered = refl

differ : (env.token_at 0 32 ≡ "c1") → ⊥
differ e = cc

never_c1 : NeverDrawn env "c1" exchanged_world.draws
never_c1 n h e = differ e

token-single_use_example :
    is_raised
      (handler server wiring
        (post_token code_form)
        (serve_all server wiring requests exchanged_world)).0
    ≡ true
token-single_use_example =
    token-single_use server wiring code_form code_form "c1" world exchanged_world tokens_answer
      requests refl refl refl refl never_c1 code_is_answered

denies : is_read_only (post_consent (some "cookie") (record form { decision = "deny" })) ≡ true
unfolding program
denies = refl

serve-SameStores_example :
    let request = post_consent (some "cookie") (record form { decision = "deny" }) in
    SameStores world (serve server wiring request world).1
serve-SameStores_example =
    serve-SameStores server wiring
      (post_consent (some "cookie") (record form { decision = "deny" })) world denies

abbrev poll_form : TokenForm
poll_form = record code_form {
  grant_type = some "urn:ietf:params:oauth:grant-type:device_code";
  code = none;
  device_code = some "d1";
}

abbrev polled_world : World
polled_world = (handler server wiring (post_token poll_form) world).1

poll_is_answered :
    handler server wiring (post_token poll_form) world ≡ (ok tokens_answer, polled_world)
unfolding program handler TokenRoute.token TokenRoute.build_token_request
    TokenRoute.extract_credentials TokenRoute.request_of
poll_is_answered = refl

other_code : (env.token_at 0 32 ≡ "d1") → ⊥
other_code e = cc

never_d1 : NeverDrawn env "d1" polled_world.draws
never_d1 n h e = other_code e

keyed : IsKeyed world.device_codes
unfolding program
keyed k c e = ground (arith, eq_iff "d1" k, eq_iff "d2" k)

stored_code : Dict.get world.device_codes.by_device_code "d1" ≡ some approved_code
unfolding program
stored_code = refl

token-redeemed_once_example :
    is_raised
      (handler server wiring
        (post_token poll_form)
        (serve_all server wiring requests polled_world)).0
    ≡ true
token-redeemed_once_example =
    token-redeemed_once server wiring poll_form poll_form "d1" approved_code world polled_world
      tokens_answer requests refl refl refl refl keyed stored_code never_d1 poll_is_answered
