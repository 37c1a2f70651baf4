-- ===== src/Domain/ScopeValidator.antt =====
-- oauth_lab/domain/service/scope_validator.py
use Prim.Native.String.{◌++◌}
use oauth_lab.Prelude.{not, if◌then◌else◌, ◌≡◌, arith}
use oauth_lab.Flow.{Outcome, ok, raised}
use oauth_lab.Domain.Errors.{Exception, failure, invalid_scope}
use oauth_lab.Domain.Scope.{ScopeSet, is_empty, is_subset_of, difference, to_str}
use oauth_lab.Domain.Scope.Laws.{IsWithin, subset-Has}

unfoldable pub grantable : ScopeSet → ScopeSet → Outcome Exception ScopeSet
grantable requested allowed =
    if is_empty requested
    then ok allowed
    else if not (is_subset_of requested allowed)
    then raised (
        failure invalid_scope
          ("scope not allowed for client: " ++ to_str (difference requested allowed)))
    else ok requested

-- Whatever is granted lies within what is allowed.
pub grantable-IsWithin :
    (requested allowed : ScopeSet) {s : ScopeSet}
    → grantable requested allowed ≡ ok s
    → IsWithin s allowed
unfolding grantable
grantable-IsWithin requested allowed h x m = ground (arith, subset-Has requested allowed x)
