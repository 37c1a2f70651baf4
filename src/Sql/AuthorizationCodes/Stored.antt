-- ===== src/Sql/AuthorizationCodes/Stored.antt =====
-- A code that is written to a row and read from it.
use oauth_lab.Prelude.{◌≡◌, arith, Bool, true, false, some, [], ◌∷◌, ◌++◌, eq_iff}
use oauth_lab.Flow.{ok, raised, ◌>>=◌}
use oauth_lab.Domain.Errors.{Exception}
use oauth_lab.Domain.Pkce.{pkce_challenge}
use oauth_lab.Domain.Client.{client_id}
use oauth_lab.Domain.Scope.{ScopeSet}
use oauth_lab.Domain.AuthorizationCode.{AuthorizationCode}
use oauth_lab.Sql.{
  naive, Bind, IsZoneDropping, IsZoneRefusing, exists_where, select_where, transaction, insert_row,
}
use oauth_lab.Sql.Texts.{AreTokens, IsSame, read_scopes-to_str}
use oauth_lab.Sql.AuthorizationCodes.{
  Row, Table, to_row, to_domain, save, find_by_value, has_value, bind_row, bind_row-drops,
}

-- The value objects of a code are ones that their constructors accept, and no scope ends in a newline.
pub record IsStorable (c : AuthorizationCode) : Type 0 where
  pub id_accepted : client_id c.client_id ≡ ok c.client_id
  pub challenge_accepted :
      pkce_challenge c.pkce_challenge.value c.pkce_challenge.method ≡ ok c.pkce_challenge
  pub tokens : AreTokens c.scope.scopes

-- the row tells what was written, but for the time zone
to_domain-to_row :
    (c : AuthorizationCode)
    → IsStorable c
    → (t : ScopeSet) × ((to_domain (to_row c) ≡ ok (naive (record c { scope = t })))
        × IsSame t.scopes c.scope.scopes)
unfolding to_domain to_row
to_domain-to_row c h =
    let (t, (e, same)) = read_scopes-to_str c.scope h.tokens in
    (t, (ground (arith, h.id_accepted, h.challenge_accepted, e), same))

select-append :
    (p : Row → Bool) (rows : Table) (r : Row)
    → exists_where p rows ≡ false
    → p r ≡ true
    → select_where p (rows ++ (r ∷ [])) ≡ some r
unfolding exists_where select_where
select-append p [] r a b = ground arith
select-append p (q ∷ rows) r a b = ground (arith, select-append p rows r)

has_value-to_row : (c : AuthorizationCode) → has_value c.value (to_row c) ≡ true
unfolding to_row
has_value-to_row c = ground (arith, eq_iff c.value c.value)

-- What becomes of a code that is new to the table depends on the driver. With one that drops the time
-- zone of what it binds, the code is inserted and found again with a scope set of the same elements and
-- everything else as it was saved, but its datetimes are naive: here the value objects of the code are
-- taken to be ones that their constructors accept, and none of its scopes to end in a newline. With a
-- driver that refuses an aware datetime, the save raises its exception and the table is unchanged.
pub find-save :
    (dropping refusing : Bind) (e : Exception) (c : AuthorizationCode) (rows : Table)
    → IsZoneDropping dropping
    → IsZoneRefusing refusing e
    → IsStorable c
    → exists_where (has_value c.value) rows ≡ false
    → let saved = save dropping c rows in
      ((t : ScopeSet) × ((saved.0 ≡ ok tt)
          × (((find_by_value c.value saved.1).0 ≡ ok (some (naive (record c { scope = t }))))
              × IsSame t.scopes c.scope.scopes)))
      × (save refusing c rows ≡ (raised e, rows))
unfolding save find_by_value transaction insert_row ◌>>=◌ bind_row
find-save dropping refusing e c rows drops refuses h absent =
    let (t, (read, same)) = to_domain-to_row c h in
    let bound = bind_row-drops dropping (to_row c) drops in
    let found = select-append (has_value c.value) rows (to_row c) absent (has_value-to_row c) in
    (
      (t, (ground (arith, bound, absent), (ground (arith, bound, absent, found, read), same))),
      ground (arith, refuses (to_row c).issued_at),
    )
