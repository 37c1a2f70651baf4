-- ===== src/Sql/Texts.antt =====
-- A set of tokens, written as the text of its elements in order, and read from it again.
use Prim.Native.String.{◌++◌}
use text.Mathlib.TextLemmas.{nil-append, cons-append}
use oauth_lab.Prelude.{
  ℕ, String, true, false, List, [], ◌∷◌, ◌==◌, ◌≡◌, ◌∙◌, refl, ap, arith, eq_iff, contains, all,
  sorted, words, split_by, nonempty, is_space, matches_plus, matches_rest,
}
use oauth_lab.Prelude.Split
use oauth_lab.Prelude.Patterns.{is_token, every_char}
use oauth_lab.Prelude.Lists.Sorted.{contains-sorted, all-sorted}
use oauth_lab.Flow.{ok}
use oauth_lab.Domain.Scope.{ScopeSet, scope, add, scopes_of, is_scope_char, join_space, to_str}
use oauth_lab.Sql.{read_scopes}

scope_char-not_space : (c : ℕ) → is_scope_char c ≡ true → is_space c ≡ false
unfolding is_scope_char is_space
scope_char-not_space c h = ground arith

space-cons : (t : String) → " " ++ t ≡ String.◌∷◌ " " t
space-cons t = ground (arith, cons-append " " "" t, nil-append t)

split-word :
    (w : String) (t : String)
    → every_char is_scope_char w ≡ true
    → split_by is_space (w ++ " " ++ t) ≡ w ∷ split_by is_space t
unfolding is_space
split-word w t h =
    ap (λ u. split_by is_space (w ++ u)) (space-cons t)
    ∙ Split.split-word is_scope_char is_space scope_char-not_space w " " t h refl

split-last : (w : String) → every_char is_scope_char w ≡ true → split_by is_space w ≡ w ∷ []
split-last = Split.split-last is_scope_char is_space scope_char-not_space

nonempty-token :
    (w : String) (ws : List String)
    → is_token is_scope_char w ≡ true
    → nonempty (w ∷ ws) ≡ w ∷ nonempty ws
unfolding is_token nonempty
nonempty-token String.[] ws h = cc
nonempty-token (String.◌∷◌ c w) ws h = refl

token-every_char :
    (w : String) → is_token is_scope_char w ≡ true → every_char is_scope_char w ≡ true
unfolding is_token
token-every_char String.[] h = cc
token-every_char (String.◌∷◌ c w) h = h

nonempty-nil : nonempty [] ≡ []
unfolding nonempty
nonempty-nil = refl

empty-not_token : is_token is_scope_char "" ≡ false
unfolding is_token
empty-not_token = refl

token-nonempty : (w : String) → is_token is_scope_char w ≡ true → (w == "") ≡ false
token-nonempty w h = ground (arith, eq_iff w "", empty-not_token)

-- every text is a scope token, with no newline after it
abbrev pub AreTokens : List String → Type 0
AreTokens ws = all (is_token is_scope_char) ws ≡ true

words-nil : words "" ≡ []
unfolding words split_by nonempty
words-nil = refl

words-join_space : (ws : List String) → AreTokens ws → words (join_space ws) ≡ ws
unfolding words join_space all
words-join_space [] h = words-nil
words-join_space (w ∷ []) h = ground (
  arith,
  split-last w (token-every_char w (ground arith)),
  nonempty-token w [],
  words-nil,
  nonempty-nil,
)
words-join_space (w ∷ v ∷ ws) h = ground (
  arith,
  split-word w (join_space (v ∷ ws)) (token-every_char w (ground arith)),
  nonempty-token w (split_by is_space (join_space (v ∷ ws))),
  words-join_space (v ∷ ws) (ground arith),
)

matches_rest-every_char :
    (w : String) → every_char is_scope_char w ≡ true → matches_rest is_scope_char w ≡ true
unfolding matches_rest every_char
matches_rest-every_char String.[] h = refl
matches_rest-every_char (String.◌∷◌ c w) h = ground (arith, matches_rest-every_char w)

scope-token : (w : String) → is_token is_scope_char w ≡ true → scope w ≡ ok w
unfolding scope matches_plus is_token every_char
scope-token String.[] h = cc
scope-token (String.◌∷◌ c w) h = ground (arith, matches_rest-every_char w)

-- the same elements
abbrev pub IsSame : List String → List String → Type 0
IsSame xs ys = (x : String) → contains xs x ≡ contains ys x

scopes_of-tokens :
    (ws : List String) → AreTokens ws → (ss : List String) × ((scopes_of ws ≡ ok ss) × IsSame ss ws)
unfolding scopes_of all contains
scopes_of-tokens [] h = ([], (refl, λ x. refl))
scopes_of-tokens (w ∷ ws) h =
    let (ss, (e, same)) = scopes_of-tokens ws (ground arith) in
    (
      add w ss,
      (
        ground (arith, scope-token w, token-nonempty w),
        λ x. ground (arith, same x, same w, eq_iff w x),
      ),
    )

-- The text that stands for a set of tokens is read as a set with the same elements.
pub read_scopes-to_str :
    (s : ScopeSet)
    → AreTokens s.scopes
    → (t : ScopeSet) × ((read_scopes (to_str s) ≡ ok t) × IsSame t.scopes s.scopes)
unfolding read_scopes to_str
read_scopes-to_str s h =
    let tokens : AreTokens (sorted s.scopes) = all-sorted (is_token is_scope_char) s.scopes ∙ h in
    let (ss, (e, same)) = scopes_of-tokens (sorted s.scopes) tokens in
    (
      record { scopes = ss },
      (
        ground (arith, words-join_space (sorted s.scopes) tokens),
        λ x. same x ∙ contains-sorted s.scopes x,
      ),
    )
