-- ===== src/Memory/RefreshTokens.antt =====
-- memory/refresh_token_repository.py
pub mod Laws
use oauth_lab.Prelude.{ℕ, ◌+◌, String, Option, List, [], ◌∷◌, Bool, not, ◌&&◌, ◌==◌, if◌then◌else◌}
use oauth_lab.Flow.{Flow, pure, raise, gets, or_raise, modify, ◌>>=◌, ◌>>◌}
use oauth_lab.Dict
use oauth_lab.Dict.{Dict}
use oauth_lab.Domain.Errors.{Exception, failure, invalid_grant}
use oauth_lab.Domain.RefreshToken.{RefreshToken, is_consumed, is_expired}
use oauth_lab.Domain.RefreshToken

abbrev pub Store : Type 0
Store = Dict RefreshToken

unfoldable pub save : RefreshToken → Flow Store Exception Unit
save token = modify (λ store. Dict.put store token.value token)

unfoldable pub find_by_value : String → Flow Store Exception (Option RefreshToken)
find_by_value value = gets (λ store. Dict.get store value)

unfoldable pub rotate : String → RefreshToken → ℕ → Flow Store Exception RefreshToken
rotate old_value new_token now = do
  found ← gets (λ store. Dict.get store old_value)
  old ← or_raise found (failure invalid_grant "refresh token not found")
  if is_consumed old
      then raise (failure invalid_grant "refresh token has already been used")
      else if is_expired old now
      then raise (failure invalid_grant "refresh token has expired")
      else do
        modify (λ store. Dict.put store old_value (RefreshToken.consume old now))
        modify (λ store. Dict.put store new_token.value new_token)
        pure new_token

-- the test of the loop in `revoke_family`
unfoldable pub is_live_in : String → RefreshToken → Bool
is_live_in family_id token = token.family_id == family_id && not (is_consumed token)

-- the loop over the snapshot `list(self._store.items())`, on the store and the count
unfoldable pub revoke_items : String → ℕ → List (String × RefreshToken) → Store × ℕ → Store × ℕ
revoke_items family_id now [] acc = acc
revoke_items family_id now ((value, token) ∷ items) acc = revoke_items family_id now items (
    if is_live_in family_id token
    then (Dict.put acc.0 value (RefreshToken.consume token now), acc.1 + 1)
    else acc)

unfoldable pub revoke_family : String → ℕ → Flow Store Exception ℕ
revoke_family family_id now store =
    let (store', count) = revoke_items family_id now store (store, 0) in pure count store'
