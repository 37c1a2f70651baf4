-- ===== src/System/OneLive.antt =====
-- From an empty store on, a family of refresh tokens never has two live tokens.
use oauth_lab.Prelude.{ℕ, subst, sym, String, some, none, false, List, [], ◌≡◌}
use oauth_lab.Dict
use oauth_lab.Domain.RefreshToken.{RefreshToken, is_consumed}
use oauth_lab.World.{World}
use oauth_lab.World.Env.{Env}
use oauth_lab.System.{Server, Event, run}
use oauth_lab.System.History.{run-Keeps}
use oauth_lab.System.Family.{NeverRepeats, Families}
use oauth_lab.System.FamilyRequests.{Single-StepsKeep}

none-some : {A : Type 0} {a : A} → none ≡ some a → ⊥
none-some h = cc

none-Families : {env : Env} {n : ℕ} → Families env n []
unfolding Dict.get
none-Families = record {
  alone = λ j k a b ej ek la lb f. cc;
  keyed = λ k a e. cc;
  drawn = λ k a e. absurd (none-some e);
  unique = tt;
}

-- After any history of requests to a server that started with no refresh token, two tokens of one
-- family that are both unconsumed are the same entry of the store. The draws of the random source that
-- name families are taken to be different.
pub run-one_live :
    (s : Server) (es : List Event) (w : World) (j k : String) (a b : RefreshToken)
    → NeverRepeats s.env
    → w.refresh_tokens ≡ []
    → Dict.get (run s es w).refresh_tokens j ≡ some a
    → Dict.get (run s es w).refresh_tokens k ≡ some b
    → is_consumed a ≡ false
    → is_consumed b ≡ false
    → a.family_id ≡ b.family_id
    → j ≡ k
run-one_live s es w j k a b distinct start ej ek la lb f =
    (run-Keeps s (Single-StepsKeep s.env distinct) es w
        (subst (Families s.env w.draws) (sym start) none-Families)).alone
      j k a b ej ek la lb f
