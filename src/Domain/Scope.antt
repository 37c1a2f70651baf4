-- ===== src/Domain/Scope.antt =====
-- oauth_lab/domain/model/scope.py. A `frozenset` of scopes is a list; its order and repetitions are
-- not observable, since every reader goes through `contains`, `sorted` or the set operations.
pub mod Laws
pub mod Accepted
use Prim.Native.String.{◌++◌}
use oauth_lab.Prelude.{
  ℕ, String, Option, none, some, List, [], ◌∷◌, Bool, ◌&&◌, ◌||◌, not, ◌==◌, leb, nat_eq,
  matches_plus, split_on, contains, all, keep, sorted, if◌then◌else◌,
}
use oauth_lab.Flow.{Outcome, ok, raised}
use oauth_lab.Domain.Errors.{Exception, value_error, scope_token}

-- the class `[\x21\x23-\x5B\x5D-\x7E]`
unfoldable pub is_scope_char : ℕ → Bool
is_scope_char c = nat_eq c 0x21 || leb 0x23 c && leb c 0x5B || leb 0x5D c && leb c 0x7E

-- `Scope(value)`
unfoldable pub scope : String → Outcome Exception String
scope value =
    if matches_plus is_scope_char value then ok value else raised (value_error (scope_token value))

pub record ScopeSet : Type 0 where
  pub scopes : List String

abbrev pub no_scopes : ScopeSet
no_scopes = record { scopes = [] }

-- adds to a set
abbrev pub add : String → List String → List String
add x xs = if contains xs x then xs else x ∷ xs

-- `frozenset(Scope(tok) for tok in toks if tok)`
unfoldable pub scopes_of : List String → Outcome Exception (List String)
scopes_of [] = ok []
scopes_of (tok ∷ toks) =
    let rest = scopes_of toks in
    if tok == "" then rest else elim (scope tok) [
      | raised e ↦ raised e
      | ok s ↦ elim rest [ raised e ↦ raised e | ok ss ↦ ok (add s ss) ]
    ]

-- `ScopeSet.parse(raw)`
unfoldable pub parse : Option String → Outcome Exception ScopeSet
parse none = ok no_scopes
parse (some raw) = if raw == "" then ok no_scopes else elim (scopes_of (split_on b' ' raw)) [
  | raised e ↦ raised e
  | ok ss ↦ ok (record { scopes = ss })
]

-- `" ".join(xs)`
unfoldable pub join_space : List String → String
join_space [] = ""
join_space (x ∷ []) = x
join_space (x ∷ y ∷ ys) = x ++ " " ++ join_space (y ∷ ys)

unfoldable pub to_str : ScopeSet → String
to_str s = join_space (sorted s.scopes)

unfoldable pub intersect : ScopeSet → ScopeSet → ScopeSet
intersect s t = record { scopes = keep (contains t.scopes) s.scopes }

-- `self.scopes - other.scopes`
unfoldable pub difference : ScopeSet → ScopeSet → ScopeSet
difference s t = record { scopes = keep (λ x. not (contains t.scopes x)) s.scopes }

unfoldable pub is_subset_of : ScopeSet → ScopeSet → Bool
is_subset_of s t = all (contains t.scopes) s.scopes

abbrev pub is_empty : ScopeSet → Bool
is_empty s = elim s.scopes [ [] ↦ Bool.true | _ ∷ _ ↦ Bool.false ]
