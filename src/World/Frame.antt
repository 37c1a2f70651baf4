-- ===== src/World/Frame.antt =====
-- Issuing a token writes to no repository.
use oauth_lab.Prelude.{subst, ap, sym, ◌∙◌, ◌≡◌, arith, ◌≤◌}
use oauth_lab.Flow.{ok, ◌>>=◌}
use oauth_lab.World.{World}
use oauth_lab.World.Env.{Env, opaque, jwt, TokenFormat}
use oauth_lab.World.Issuers.{
  IssuedToken, TokenOrder, issue, issue_in, issue_opaque, issue_jwt, now, token_urlsafe,
}

-- The two worlds have the same repositories, and the first was no later.
pub record SameStores (w w' : World) : Type 0 where
  pub clients : w'.clients ≡ w.clients
  pub users : w'.users ≡ w.users
  pub trusted_issuers : w'.trusted_issuers ≡ w.trusted_issuers
  pub auth_codes : w'.auth_codes ≡ w.auth_codes
  pub refresh_tokens : w'.refresh_tokens ≡ w.refresh_tokens
  pub device_codes : w'.device_codes ≡ w.device_codes
  pub reads : w.reads ≤ w'.reads
  pub draws : w.draws ≤ w'.draws

-- around the step that issues a token, the world stays the same
pub same_stores : (w w1 w2 w' : World) → w1 ≡ w → SameStores w1 w2 → w' ≡ w2 → SameStores w w'
same_stores w w1 w2 w' e k f = subst (λ u. SameStores u w') e (subst (SameStores w1) (sym f) k)

module _ (env : Env) where
  issue_in-SameStores :
      (f : TokenFormat) (o : TokenOrder) (w : World) → SameStores w (issue_in env f o w).1
  unfolding ◌>>=◌ issue_opaque issue_jwt now token_urlsafe
  issue_in-SameStores opaque o w = ground arith
  issue_in-SameStores jwt o w = ground arith

  pub issue-SameStores : (o : TokenOrder) (w : World) → SameStores w (issue env o w).1
  unfolding issue
  issue-SameStores o w = issue_in-SameStores env.token_format o w

  pub issue-ok_refresh_tokens :
      (o : TokenOrder) (w w' : World) {a : IssuedToken}
      → issue env o w ≡ (ok a, w')
      → w'.refresh_tokens ≡ w.refresh_tokens
  issue-ok_refresh_tokens o w w' h =
      ap (λ p. p.1.refresh_tokens) (sym h) ∙ (issue-SameStores o w).refresh_tokens

  pub issue-ok_SameStores :
      (o : TokenOrder) (w w' : World) {a : IssuedToken}
      → issue env o w ≡ (ok a, w')
      → SameStores w w'
  issue-ok_SameStores o w w' {a} h = subst (SameStores w) (ap (λ p. p.1) h) (issue-SameStores o w)
