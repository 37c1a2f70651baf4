-- ===== src/Sql/RefreshTokens/Revoked.antt =====
-- `revoke_family` on the rows of the tokens: the one update of the table, and the loop of the
-- in-memory repository.
use oauth_lab.Prelude.{
  ℕ, suc, ◌+◌, String, none, [], ◌∷◌, ◌++◌, ◌≡◌, ◌≢◌, ◌∙◌, refl, sym, ap, subst, arith, eq_iff,
  if◌then◌else◌,
}
use oauth_lab.Dict.{get, put}
use oauth_lab.Dict.Unique.{IsUnique}
use oauth_lab.Domain.RefreshToken.{RefreshToken, is_consumed, consume}
use oauth_lab.Memory.RefreshTokens.{Store, is_live_in, revoke_items}
use oauth_lab.Memory.RefreshTokens.Laws.{revoked}
use oauth_lab.Sql.{update_where, count_where}
use oauth_lab.Sql.Tables
use oauth_lab.Sql.RefreshTokens.{Table, to_row, set_consumed, is_live_row}

abbrev pub token_key : RefreshToken → String
token_key t = t.value

abbrev pub table_of : Store → Table
table_of = Tables.rows to_row token_key (λ r. r.value)

-- every token stands under its own value, and no value stands twice
abbrev pub IsKept : Store → Type 0
IsKept = Tables.IsKept to_row token_key (λ r. r.value)

-- the entries with each token of the family consumed
unfoldable revoked_all : String → ℕ → Store → Store
revoked_all family now [] = []
revoked_all family now ((k, t) ∷ s) = (k, revoked family now t) ∷ revoked_all family now s

unfoldable count_live : String → Store → ℕ
count_live family [] = 0
count_live family ((k, t) ∷ s) =
    if is_live_in family t then suc (count_live family s) else count_live family s

-- no entry of the first dictionary has a key of the second
IsApart : Store → Store → Type 0
IsApart done [] = Unit
IsApart done ((k, t) ∷ s) = (get done k ≡ none) × IsApart done s

put-middle :
    (done s : Store) (k : String) (t u : RefreshToken)
    → get done k ≡ none
    → put (done ++ ((k, t) ∷ s)) k u ≡ done ++ ((k, u) ∷ s)
unfolding get put
put-middle [] s k t u a = ground (arith, eq_iff k k)
put-middle ((j, v) ∷ done) s k t u a = ground (arith, put-middle done s k t u)

append_one :
    (done s : Store) (e : String × RefreshToken) → done ++ (e ∷ s) ≡ (done ++ (e ∷ [])) ++ s
append_one [] s e = refl
append_one (d ∷ done) s e = ap (λ x. d ∷ x) (append_one done s e)

get-append_one :
    (done : Store) (k j : String) (t : RefreshToken)
    → get done j ≡ none
    → k ≢ j
    → get (done ++ ((k, t) ∷ [])) j ≡ none
unfolding get
get-append_one [] k j t a n = ground (arith, eq_iff k j)
get-append_one ((i, v) ∷ done) k j t a n = ground (arith, get-append_one done k j t)

append_one-IsApart :
    (done s : Store) (k : String) (t : RefreshToken)
    → IsApart done s
    → get s k ≡ none
    → IsApart (done ++ ((k, t) ∷ [])) s
unfolding IsApart get
append_one-IsApart done [] k t h a = tt
append_one-IsApart done ((j, v) ∷ s) k t h a = (
  get-append_one done k j t h.0 (λ e. ground (arith, eq_iff j k)),
  append_one-IsApart done s k t h.1 (ground (arith, eq_iff j k)),
)

revoke_items-append :
    (family : String) (now : ℕ) (s done : Store) (n : ℕ)
    → IsUnique s
    → IsApart done s
    → revoke_items family now s (done ++ s, n)
      ≡ (done ++ revoked_all family now s, n + count_live family s)
unfolding revoke_items revoked_all count_live IsApart
revoke_items-append family now [] done n u h = ground arith
revoke_items-append family now ((k, t) ∷ s) done n u h = ground (
  arith,
  put-middle done s k t (consume t now) h.0,
  append_one done s (k, consume t now),
  append_one done s (k, t),
  append_one done (revoked_all family now s) (k, consume t now),
  append_one done (revoked_all family now s) (k, t),
  revoke_items-append family now s (done ++ ((k, consume t now) ∷ [])) (n + 1) u.1
      (append_one-IsApart done s k (consume t now) h.1 u.0),
  revoke_items-append family now s (done ++ ((k, t) ∷ [])) n u.1
      (append_one-IsApart done s k t h.1 u.0),
)

[]-IsApart : (s : Store) → IsApart [] s
unfolding IsApart get
[]-IsApart [] = tt
[]-IsApart ((k, t) ∷ s) = (refl, []-IsApart s)

update-revoked :
    (family : String) (now : ℕ) (s : Store)
    → (update_where (is_live_row family) (set_consumed now) (table_of s)
        ≡ table_of (revoked_all family now s))
      × (count_where (is_live_row family) (table_of s) ≡ count_live family s)
unfolding update_where count_where Tables.rows revoked_all count_live is_live_row set_consumed
    is_live_in is_consumed consume to_row
update-revoked family now [] = (refl, refl)
update-revoked family now ((k, t) ∷ s) = ground (arith, update-revoked family now s)

IsKept-IsUnique : (s : Store) → IsKept s → IsUnique s
IsKept-IsUnique [] h = tt
IsKept-IsUnique ((k, t) ∷ s) h = (h.1.0, IsKept-IsUnique s h.1.1)

get-revoked_all :
    (family : String) (now : ℕ) (s : Store) (k : String)
    → get s k ≡ none
    → get (revoked_all family now s) k ≡ none
unfolding revoked_all get
get-revoked_all family now [] k a = refl
get-revoked_all family now ((j, t) ∷ s) k a = ground (arith, get-revoked_all family now s k)

revoked_all-IsKept :
    (family : String) (now : ℕ) (s : Store) → IsKept s → IsKept (revoked_all family now s)
unfolding revoked_all is_live_in consume
revoked_all-IsKept family now [] h = tt
revoked_all-IsKept family now ((k, t) ∷ s) h =
    (ground arith, (get-revoked_all family now s k h.1.0, revoked_all-IsKept family now s h.1.1))

-- The update of the table is the loop of the in-memory repository, on the rows and on the count.
pub revoke_items-rows :
    (family : String) (now : ℕ) (s : Store)
    → IsKept s
    → (update_where (is_live_row family) (set_consumed now) (table_of s)
        ≡ table_of (revoke_items family now s (s, 0)).0)
      × ((count_where (is_live_row family) (table_of s) ≡ (revoke_items family now s (s, 0)).1)
          × IsKept (revoke_items family now s (s, 0)).0)
revoke_items-rows family now s h =
    let loop = revoke_items-append family now s [] 0 (IsKept-IsUnique s h) ([]-IsApart s) in
    let kept = revoked_all-IsKept family now s h in
    let update = update-revoked family now s in
    (
      update.0 ∙ sym (ap (λ x. table_of x.0) loop),
      (ground (arith, update.1, ap (λ x. x.1) loop), subst IsKept (sym (ap (λ x. x.0) loop)) kept),
    )
