-- ===== src/Token/Returned.antt =====
-- The shared first tests of the grants, where they passed.
use oauth_lab.Prelude.{String, Option, some, true, ◌≡◌, arith, Option-cases, inl, inr}
use oauth_lab.Flow.{ok, ◌>>=◌}
use oauth_lab.Domain.Errors.{Exception}
use oauth_lab.Domain.Client.{Client, GrantType, supports_grant}
use oauth_lab.World.{World}
use oauth_lab.Token.{required, require_grant}

pub required-ok :
    (o : Option String) (e : Exception) (v u : String) (w w' : World)
    → o ≡ some v
    → required o e w ≡ (ok u, w')
    → (u ≡ v) × (w' ≡ w)
unfolding required ◌>>=◌
required-ok o e v u w w' eq h = ground arith

pub required-ok_same :
    (o : Option String) (e : Exception) (u : String) (w w' : World)
    → required o e w ≡ (ok u, w')
    → w' ≡ w
unfolding required ◌>>=◌
required-ok_same o e u w w' h = elim (Option-cases o) [
  | inl eq ↦ ground arith
  | inr (s, eq) ↦ ground arith
]

pub require_grant-ok :
    (c : Client) (g : GrantType) (w w' : World) (u : Unit {0})
    → require_grant c g w ≡ (ok u, w')
    → (supports_grant c g ≡ true) × (w' ≡ w)
unfolding require_grant ◌>>=◌
require_grant-ok c g w w' u h = ground arith
