-- ===== src/System/SingleUse.antt =====
-- An authorization code that was exchanged is never exchanged again, whatever happens between.
use oauth_lab.Prelude.{
  ◌==◌, ◌+◌, String, some, true, false, List, ◌≡◌, arith, ◌⊎◌, ap, sym, ◌∙◌, inl, inr,
}
use oauth_lab.Flow.{is_raised, ok}
use oauth_lab.Flow.Inversion.{is_raised-cases}
use oauth_lab.Dict
use oauth_lab.Dict.{Dict, get-put, get-put_self}
use oauth_lab.Domain.Client.{Client, supports_grant, authorization_code}
use oauth_lab.Domain.AuthorizationCode
use oauth_lab.Domain.AuthorizationCode.{AuthorizationCode, is_consumed, is_expired}
use oauth_lab.Memory.AuthorizationCodes
use oauth_lab.World.{World, services}
use oauth_lab.World.Env.{Env}
use oauth_lab.World.Issuers.{now}
use oauth_lab.Token.{TokenRequest, TokenIssuanceResult, required, require_grant}
use oauth_lab.Grant.AuthorizationCode as Code
use oauth_lab.System.{Server, Event, run}
use oauth_lab.System.History.{run-Keeps}
use oauth_lab.System.Spent.{
  is_spent, NeverDrawn, mint_tokens-Spent, Spent-StepsKeep, consume-ok_is_spent,
  consume-ok_was_live,
}
use oauth_lab.Grant.AuthorizationCode.Steps.{execute-ok}

module _ (env : Env) where
  execute-is_spent :
      (request : TokenRequest) (client : Client) (v : String) (w w' : World)
      {r : TokenIssuanceResult}
      → request.code ≡ some v
      → Code.execute env request client w ≡ (ok r, w')
      → is_spent (Dict.get w'.auth_codes v) ≡ true
  execute-is_spent request client v w w' e h =
      let (t, w4, w5, c, _, ec, em) = execute-ok env request client v w w' e h in
      let kept =
        (mint_tokens-Spent env v 0 client c).from w5
          (record { drawn = ground arith; spent = consume-ok_is_spent v t w4 w5 ec }) in
      ap (λ p. is_spent (Dict.get p.1.auth_codes v)) (sym em) ∙ kept.spent

  spent-is_raised :
      (request : TokenRequest) (client : Client) (v : String) (w : World)
      → request.code ≡ some v
      → is_spent (Dict.get w.auth_codes v) ≡ true
      → is_raised (Code.execute env request client w).0 ≡ true
  spent-is_raised request client v w e h =
      elim (is_raised-cases (Code.execute env request client w).0) [
        | inl stop ↦ stop
        | inr (r, eq) ↦
            (let (t, w4, w5, c, es, ec, _) =
                execute-ok env request client v w (Code.execute env request client w).1 e
                  (λ i. (eq i, (Code.execute env request client w).1)) in
              let live = consume-ok_was_live v t w4 w5 ec in cc)
      ]

  execute-last_world :
      (request : TokenRequest) (client : Client) (v verifier : String) (w : World)
      (code : AuthorizationCode)
      → request.code ≡ some v
      → request.code_verifier ≡ some verifier
      → (v == "") ≡ false
      → (verifier == "") ≡ false
      → Dict.get w.auth_codes v ≡ some code
      → supports_grant client authorization_code ≡ true
      → is_consumed code ≡ false
      → is_expired code (env.now_at w.reads) ≡ false
      → let code' = record code { consumed_at = some (env.now_at w.reads) } in
        let w5 = record w { reads = w.reads + 1; auth_codes = Dict.put w.auth_codes v code' } in
        ((Code.execute env request client w).1 ≡ w5)
        ⊎ ((Code.execute env request client w).1 ≡ (Code.mint_tokens env client code' w5).1)
  unfolding services required Code.execute Code.check_code require_grant AuthorizationCodes.consume
      AuthorizationCode.consume now is_consumed
  execute-last_world request client v verifier w code e ev nv nc stored g c x = ground arith

  -- The first exchange of a code burns it, however it ends: where the client may use the grant,
  -- the code and the verifier of the request are not empty, and the code is stored, neither
  -- consumed nor expired, it is stored as consumed afterwards, also where the redirect URI, the
  -- client or the verifier turns out to be wrong.
  pub execute-burns :
      (request : TokenRequest) (client : Client) (v verifier : String) (w : World)
      (code : AuthorizationCode)
      → request.code ≡ some v
      → request.code_verifier ≡ some verifier
      → (v == "") ≡ false
      → (verifier == "") ≡ false
      → Dict.get w.auth_codes v ≡ some code
      → supports_grant client authorization_code ≡ true
      → is_consumed code ≡ false
      → is_expired code (env.now_at w.reads) ≡ false
      → is_spent (Dict.get (Code.execute env request client w).1.auth_codes v) ≡ true
  unfolding is_consumed
  execute-burns request client v verifier w code e ev nv nc stored g c x =
      let code' = record code { consumed_at = some (env.now_at w.reads) } in
      let w5 : World = record w {
        reads = w.reads + 1;
        auth_codes = Dict.put w.auth_codes v code';
      } in
      let burnt : is_spent (Dict.get w5.auth_codes v) ≡ true =
        ap is_spent (get-put_self w.auth_codes v code') in
      elim (execute-last_world request client v verifier w code e ev nv nc stored g c x) [
        | inl same ↦ ap (λ u. is_spent (Dict.get u.auth_codes v)) same ∙ burnt
        | inr minted ↦
            ap (λ u. is_spent (Dict.get u.auth_codes v)) minted
            ∙ ((mint_tokens-Spent env v 0 client code').from w5
                (record { drawn = ground arith; spent = burnt })).spent
      ]

-- A code that was exchanged once is refused ever after: after any history of requests to the
-- server, each further exchange of it raises, whoever asks. The random source is taken not to draw
-- its value again.
pub execute-single_use :
    (s : Server) (request request' : TokenRequest) (client client' : Client) (v : String)
    (w w' : World) (r : TokenIssuanceResult) (es : List Event)
    → request.code ≡ some v
    → request'.code ≡ some v
    → NeverDrawn s.env v w'.draws
    → Code.execute s.env request client w ≡ (ok r, w')
    → is_raised (Code.execute s.env request' client' (run s es w')).0 ≡ true
execute-single_use s request request' client client' v w w' r es e e' fresh h =
    spent-is_raised s.env request' client' v (run s es w') e'
      (run-Keeps s (Spent-StepsKeep s.env v w'.draws fresh) es w' (record {
        drawn = ground arith;
        spent = execute-is_spent s.env request client v w w' e h;
      })).spent
