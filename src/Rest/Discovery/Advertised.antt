-- ===== src/Rest/Discovery/Advertised.antt =====
-- What the metadata promise about the token endpoint.
use oauth_lab.Prelude.{
  String, Option, none, some, List, [], ◌∷◌, map, Bool, not, false, ◌==◌, ◌≡◌, refl, arith, eq_iff,
  contains, Option-cases, inl, inr,
}
use oauth_lab.Flow.{is_raised}
use oauth_lab.Dict
use oauth_lab.Domain.Client.{GrantType, grant_type, grant_value, grant_eq}
use oauth_lab.Domain.Client.Names.{grant_type_iff}
use oauth_lab.Service.IssueToken.{resolve, registered, supported_grant_types}
use oauth_lab.Http.{Value, strings}
use oauth_lab.Rest.Discovery.{ServerMetadata, openid_metadata, oauth_metadata}

-- the texts of a list in the metadata
abbrev pub listed : Option Value → List String
listed (some (strings ss)) = ss
listed _ = []

value_eq : (h g : GrantType) → (grant_value h == grant_value g) ≡ grant_eq h g
value_eq h g = ground (
  arith,
  eq_iff (grant_value h) (grant_value g),
  (grant_type_iff (grant_value h) h).1 refl,
  (grant_type_iff (grant_value g) g).1 refl,
)

registered-contains :
    (grants : List GrantType) (g : GrantType)
    → contains (map grant_value grants) (grant_value g) ≡ registered grants g
unfolding contains registered
registered-contains [] g = refl
registered-contains (h ∷ grants) g = ground (arith, registered-contains grants g, value_eq h g)

-- a grant type that the token endpoint runs, once the client is authenticated
abbrev pub is_run : List GrantType → String → Bool
is_run grants s = not (is_raised (resolve grants (some s)))

absent :
    (grants : List GrantType) (s : String)
    → grant_type s ≡ none
    → contains (map grant_value grants) s ≡ false
unfolding contains
absent [] s e = refl
absent (h ∷ grants) s e =
    ground (
      arith,
      absent grants s e,
      eq_iff (grant_value h) s,
      (grant_type_iff (grant_value h) h).1 refl,
    )

contains-supported :
    (grants : List GrantType) (s : String)
    → contains (supported_grant_types grants) s ≡ is_run grants s
unfolding supported_grant_types resolve
contains-supported grants s = elim (Option-cases (grant_type s)) [
  | inl e ↦ ground (arith, absent grants s e)
  | inr (g, e) ↦ ground (arith, registered-contains grants g, (grant_type_iff s g).0 e)
]

-- Both metadata documents list a grant type exactly when the token endpoint resolves it.
pub grant_types-advertised :
    (m : ServerMetadata) (s : String)
    → (contains (listed (Dict.get (oauth_metadata m) "grant_types_supported")) s
        ≡ is_run m.grants s)
      × (contains (listed (Dict.get (openid_metadata m) "grant_types_supported")) s
          ≡ is_run m.grants s)
unfolding oauth_metadata openid_metadata Dict.get
grant_types-advertised m s = (contains-supported m.grants s, contains-supported m.grants s)
