-- ===== src/Domain/Pkce/Accepted.antt =====
-- Which texts are PKCE challenges and verifiers to pkce.py and pkce_verifier.py.
use oauth_lab.Prelude.{String, not, ◌&&◌, ◌==◌, ◌≡◌, refl, arith}
use oauth_lab.Prelude.Patterns.{is_token, chomp, matches_plus-chomp}
use oauth_lab.Flow.{is_raised}
use oauth_lab.Domain.Pkce.{
  PkceChallenge, fits, is_unreserved, pkce_challenge, is_valid_code_verifier, verify,
}

-- A challenge is refused unless the method is S256, the text has 43 to 128 characters and, without
-- one newline that may end it, is a nonempty text of unreserved characters; and a verifier matches a challenge
-- exactly when it passes the same tests of length and characters and its S256 transform is
-- the challenge.
pub pkce-accepts :
    (s256 : String → String) (value method verifier : String) (challenge : PkceChallenge)
    → (is_raised (pkce_challenge value method)
        ≡ not (method == "S256" && fits value && is_token is_unreserved (chomp value)))
      × (verify s256 verifier challenge ≡ (
          fits verifier
          && is_token is_unreserved (chomp verifier)
          && s256 verifier == challenge.value))
unfolding pkce_challenge verify is_valid_code_verifier is_unreserved
pkce-accepts s256 value method verifier challenge = ground (
  arith,
  matches_plus-chomp is_unreserved value refl,
  matches_plus-chomp is_unreserved verifier refl,
)
