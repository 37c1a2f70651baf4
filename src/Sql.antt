-- ===== src/Sql.antt =====
-- The SQLAlchemy repositories (oauth_lab/adapter/outbound/persistence/sqlalchemy), which the SQLite
-- and the Postgres adapters share. A table is the list of its rows in the order of insertion, and a
-- method is one step on it: each runs a single transaction, whose update is conditional.
pub mod AuthorizationCodes
pub mod RefreshTokens
pub mod DeviceCodes
pub mod Registry
pub mod Tables
pub mod Texts
use oauth_lab.Prelude.{
  ℕ, suc, String, Option, none, some, List, [], ◌∷◌, ◌++◌, Bool, true, false, ◌||◌, ◌==◌, ◌≡◌, refl,
  ap, words, sorted, if◌then◌else◌,
}
use oauth_lab.Flow.{Outcome, ok, raised, Flow, raise, modify}
use oauth_lab.Domain.Errors.{and_then, Exception, integrity_error}
use oauth_lab.Domain.Scope.{ScopeSet, scopes_of, to_str}

-- An entity that is read from a row. The columns of `Mapped[datetime]` have no time zone, so neither
-- have the datetimes in it: they count the microseconds on the clock of UTC, and are neither equal to
-- nor comparable with a datetime of `SystemClock`, which is aware.
pub data AsRead (A : Type 0) : Type 0 where
  naive : A → AsRead A

-- What the driver makes of an aware datetime that is bound to such a column: the value of the column,
-- or an exception. SQLite is given the value without its time zone, asyncpg refuses it.
abbrev pub Bind : Type 0
Bind = ℕ → Outcome Exception ℕ

-- the driver drops the time zone
abbrev pub IsZoneDropping : Bind → Type 0
IsZoneDropping bind = (t : ℕ) → bind t ≡ ok t

-- the driver refuses an aware datetime
abbrev pub IsZoneRefusing : Bind → Exception → Type 0
IsZoneRefusing bind e = (t : ℕ) → bind t ≡ raised e

-- a nullable column
unfoldable pub bind_nullable : Bind → Option ℕ → Outcome Exception (Option ℕ)
bind_nullable bind none = ok none
bind_nullable bind (some t) = and_then (bind t) (λ x. ok (some x))

pub bind_nullable-drops :
    (bind : Bind) (o : Option ℕ) → IsZoneDropping bind → bind_nullable bind o ≡ ok o
unfolding bind_nullable
bind_nullable-drops bind none d = refl
bind_nullable-drops bind (some t) d = ap (λ x. and_then x (λ y. ok (some y))) (d t)

-- `ScopeSet(frozenset(Scope(s) for s in text.split() if s))`
unfoldable pub read_scopes : String → Outcome Exception ScopeSet
read_scopes text = and_then (scopes_of (words text)) (λ ss. ok (record { scopes = ss }))

module _ {R : Type 0} where
  -- some row passes
  unfoldable pub exists_where : (R → Bool) → List R → Bool
  exists_where p [] = false
  exists_where p (r ∷ rows) = p r || exists_where p rows

  -- `session.scalar(select(...).where(p))`
  unfoldable pub select_where : (R → Bool) → List R → Option R
  select_where p [] = none
  select_where p (r ∷ rows) = if p r then some r else select_where p rows

  -- the rows after `update(...).where(p).values(f)`
  unfoldable pub update_where : (R → Bool) → (R → R) → List R → List R
  update_where p f [] = []
  update_where p f (r ∷ rows) = (if p r then f r else r) ∷ update_where p f rows

  -- `result.rowcount` of that update
  unfoldable pub count_where : (R → Bool) → List R → ℕ
  count_where p [] = 0
  count_where p (r ∷ rows) = if p r then suc (count_where p rows) else count_where p rows

  -- `session.execute(update(...).where(p).values(f))`, which answers with the row count
  unfoldable pub execute_update : (R → Bool) → (R → R) → Flow (List R) Exception ℕ
  execute_update p f rows = (ok (count_where p rows), update_where p f rows)

  -- `session.add(row)` and the flush; `clash` finds the rows with an equal unique column
  unfoldable pub insert_row : (R → Bool) → R → Flow (List R) Exception Unit
  insert_row clash row rows =
      if exists_where clash rows
      then (raised integrity_error, rows)
      else (ok tt, rows ++ (row ∷ []))

module _ {S A : Type 0} where
  abbrev roll_back : S → Outcome Exception A × S → Outcome Exception A × S
  roll_back s (ok a, s') = (ok a, s')
  roll_back s (raised e, s') = (raised e, s)

  -- `async with self._session_factory() as session`: what a body that raises wrote is not committed.
  unfoldable pub transaction : Flow S Exception A → Flow S Exception A
  transaction m s = roll_back s (m s)
