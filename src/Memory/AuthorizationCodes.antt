-- ===== src/Memory/AuthorizationCodes.antt =====
-- memory/authorization_code_repository.py
use oauth_lab.Prelude.{ℕ, String, Option}
use oauth_lab.Flow.{Flow, pure, gets, lift, or_raise, modify, ◌>>=◌, ◌>>◌}
use oauth_lab.Dict
use oauth_lab.Dict.{Dict}
use oauth_lab.Domain.Errors.{Exception, failure, invalid_grant}
use oauth_lab.Domain.AuthorizationCode
use oauth_lab.Domain.AuthorizationCode.{AuthorizationCode}

abbrev pub Store : Type 0
Store = Dict AuthorizationCode

unfoldable pub save : AuthorizationCode → Flow Store Exception Unit
save code = modify (λ store. Dict.put store code.value code)

unfoldable pub find_by_value : String → Flow Store Exception (Option AuthorizationCode)
find_by_value value = gets (λ store. Dict.get store value)

unfoldable pub consume : String → ℕ → Flow Store Exception AuthorizationCode
consume value now = do
  found ← gets (λ store. Dict.get store value)
  code ← or_raise found (failure invalid_grant "authorization code not found")
  consumed ← lift (AuthorizationCode.consume code now)
  modify (λ store. Dict.put store value consumed)
  pure consumed
