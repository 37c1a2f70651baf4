-- ===== src/System/RedeemedOnce.antt =====
-- A device code that was redeemed is refused ever after, as long as requests do not interleave.
use oauth_lab.Prelude.{
  String, some, true, List, ◌≡◌, arith, sym, subst, ap, ◌∙◌, refl, Option-cases, inl, inr,
}
use oauth_lab.Flow.{is_raised, ok}
use oauth_lab.Flow.Inversion.{is_raised-cases}
use oauth_lab.Dict
use oauth_lab.Domain.Client.{Client}
use oauth_lab.Domain.DeviceCode
use oauth_lab.Domain.DeviceCode.{DeviceCode, is_redeemed}
use oauth_lab.World.{World}
use oauth_lab.World.Env.{Env}
use oauth_lab.Token.{TokenRequest, TokenIssuanceResult}
use oauth_lab.Grant.DeviceCode.{execute}
use oauth_lab.Grant.DeviceCode.Redemption.{execute-redemption}
use oauth_lab.System.{Server, Event, run}
use oauth_lab.System.History.{run-Keeps}
use oauth_lab.System.Spent.{NeverDrawn}
use oauth_lab.System.Redeemed.{is_used, IsKeyed, Used, put-redeemed_Used}
use oauth_lab.System.RedeemedRequests.{Closed-StepsKeep}

module _ (env : Env) where
  execute-Used :
      (request : TokenRequest) (client : Client) (w w' : World) (v : String) (code : DeviceCode)
      (r : TokenIssuanceResult)
      → request.device_code ≡ some v
      → IsKeyed w.device_codes
      → Dict.get w.device_codes.by_device_code v ≡ some code
      → execute env request client w ≡ (ok r, w')
      → Used v w'.device_codes
  unfolding DeviceCode.redeem is_redeemed
  execute-Used request client w w' v code r e keyed s h =
      let (_, _, _, _, _, _, _, after) =
        execute-redemption env request client w w' v code r e s h in
      subst (Used v) (sym after) (
        put-redeemed_Used v w.device_codes (DeviceCode.redeem code (env.now_at w.reads))
          w.device_codes.by_user_code keyed (keyed v code s) refl)

  used-is_raised :
      (request : TokenRequest) (client : Client) (w : World) (v : String)
      → request.device_code ≡ some v
      → is_used (Dict.get w.device_codes.by_device_code v) ≡ true
      → is_raised (execute env request client w).0 ≡ true
  used-is_raised request client w v e u = elim (is_raised-cases (execute env request client w).0) [
    | inl stop ↦ stop
    | inr (r, eq) ↦ elim (Option-cases (Dict.get w.device_codes.by_device_code v)) [
      | inl none_there ↦ cc
      | inr (code, s) ↦
          (let (_, _, _, _, fresh, _, _, _) =
              execute-redemption env request client w (execute env request client w).1 v code r e s
                (λ i. (eq i, (execute env request client w).1)) in
            let used : is_redeemed code ≡ true = ap is_used (sym s) ∙ u in cc)
    ]
  ]

-- A device code that brought tokens once brings none again: after any history of requests that
-- the server handles one at a time, each further poll with it raises, whoever polls. Every code is
-- taken to be stored under its own value at first, and the random source not to draw that value
-- again.
pub execute-redeemed_once :
    (s : Server) (request request' : TokenRequest) (client client' : Client) (v : String)
    (code : DeviceCode) (w w' : World) (r : TokenIssuanceResult) (es : List Event)
    → request.device_code ≡ some v
    → request'.device_code ≡ some v
    → IsKeyed w.device_codes
    → Dict.get w.device_codes.by_device_code v ≡ some code
    → NeverDrawn s.env v w'.draws
    → execute s.env request client w ≡ (ok r, w')
    → is_raised (execute s.env request' client' (run s es w')).0 ≡ true
execute-redeemed_once s request request' client client' v code w w' r es e e' keyed stored fresh h =
    used-is_raised s.env request' client' (run s es w') v e'
      (run-Keeps s (Closed-StepsKeep s.env v w'.draws fresh) es w' (record {
        drawn = ground arith;
        store = execute-Used s.env request client w w' v code r e keyed stored h;
      })).store.used
