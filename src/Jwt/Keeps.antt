-- ===== src/Jwt/Keeps.antt =====
-- The verifiers of tokens only read.
use oauth_lab.Prelude.{String}
use oauth_lab.Flow.Keeps.{Keeps, keeps_rules}
use oauth_lab.Domain.Errors.{Exception}
use oauth_lab.Domain.Client.{TrustedAssertionIssuer}
use oauth_lab.World.{World}
use oauth_lab.World.Env.{Env, DecodeOptions, JwtFailure}
use oauth_lab.Jwt.{decode, validate, verify_assertion}

module _ (env : Env) {P : World → Type 0} where
  pub decode-Keeps :
      (o : DecodeOptions) (f : JwtFailure → Exception) (s : String) → Keeps P (decode env o f s)
  unfolding decode
  decode-Keeps o f s = record { from = λ w h. h }

  pub validate-Keeps : (s t : String) → Keeps P (validate env s t)
  unfolding validate
  validate-Keeps s t = search (keeps_rules, decode-Keeps) depth 16

  pub assertion-Keeps :
      (s : String) (i : TrustedAssertionIssuer) (a : String) → Keeps P (verify_assertion env s i a)
  unfolding verify_assertion
  assertion-Keeps s i a = search (keeps_rules, decode-Keeps) depth 16
