-- ===== src/Tests/HistoryTests.antt =====
-- An example of a history that mints a refresh token.
use oauth_lab.Prelude.{
  ℕ, zero, suc, String, some, none, List, [], ◌∷◌, ◌≡◌, refl, ap, sym, ◌∙◌, arith, str_len,
}
use oauth_lab.Dict
use oauth_lab.Domain.Client.{authorization_code, grant_types}
use oauth_lab.Domain.RefreshToken.{RefreshToken}
use oauth_lab.ClientAuth.{ClientCredentials, post}
use oauth_lab.World.{World}
use oauth_lab.World.Env.{Env}
use oauth_lab.System.{Server, Event, token, handle, run}
use oauth_lab.System.Family.{NeverRepeats}
use oauth_lab.System.OneLive.{run-one_live}
use oauth_lab.Tests.{program, env, decoder, world, request_for, read_scope}

-- n letters
abbrev tally : ℕ → String
tally zero = ""
tally (suc n) = String.◌∷◌ "x" (tally n)

str_len-tally : (n : ℕ) → str_len (tally n) ≡ n
unfolding str_len
str_len-tally zero = refl
str_len-tally (suc n) = ap suc (str_len-tally n)

abbrev counting_env : Env
counting_env = record env { token_at = λ n k. tally n }

never_repeats : NeverRepeats counting_env
never_repeats m n l e =
    let same : m ≡ n = sym (str_len-tally m) ∙ ap str_len e ∙ str_len-tally n in ground arith

abbrev server : Server
server = record {
  env = counting_env;
  decoder = decoder;
  authenticators = post ∷ [];
  grants = grant_types;
}

abbrev credentials : ClientCredentials
credentials = record {
  basic_auth_header = none;
  form_client_id = some "app";
  form_client_secret = some "secret";
  client_assertion = none;
  client_assertion_type = none;
}

abbrev start : World
start = record world { refresh_tokens = [] }

abbrev history : List Event
history = token credentials (request_for authorization_code) ∷ []

abbrev minted : RefreshToken
minted = record {
  value = "x";
  family_id = "xx";
  client_id = "app";
  user_sub = "user-1";
  scope = read_scope;
  issued_at = 1001;
  expires_at = 3600001001;
  consumed_at = none;
}

stored : Dict.get (run server history start).refresh_tokens "x" ≡ some minted
unfolding program handle run
stored = refl

run-one_live_example : minted.value ≡ minted.value
unfolding program
run-one_live_example =
    run-one_live server history start minted.value minted.value minted minted never_repeats refl
      stored stored refl refl refl
