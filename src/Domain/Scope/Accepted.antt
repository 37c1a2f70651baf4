-- ===== src/Domain/Scope/Accepted.antt =====
-- Which texts are scope tokens to scope.py.
use oauth_lab.Prelude.{String, not, ◌≡◌, refl, arith}
use oauth_lab.Prelude.Patterns.{is_token, chomp, matches_plus-chomp}
use oauth_lab.Flow.{is_raised}
use oauth_lab.Domain.Scope.{is_scope_char, scope}

-- A scope is refused unless the text, without one newline that may end it, is a nonempty text of the
-- characters that RFC 6749 allows in a scope token.
pub scope-accepts :
    (value : String) → is_raised (scope value) ≡ not (is_token is_scope_char (chomp value))
unfolding scope is_scope_char
scope-accepts value = ground (arith, matches_plus-chomp is_scope_char value refl)
