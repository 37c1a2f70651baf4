-- ===== src/Service/SeedDemoData/Registered.antt =====
-- What the demo clients are after the seed, and that the seed keeps the others.
use oauth_lab.Prelude.{
  ℕ, ◌+◌, String, Option, none, some, List, [], ◌∷◌, false, ◌≡◌, ◌∙◌, ap, sym, subst, refl, arith,
  eq_iff, contains, str_len, matches_plus, map,
}
use oauth_lab.Flow.{ok, pure}
use oauth_lab.Flow.Keeps.{Keeps, keeps_rules, bind-Keeps}
use oauth_lab.Domain.Scope.{scope, is_scope_char}
use oauth_lab.Dict
use oauth_lab.Dict.{get-put, get-put_self}
use oauth_lab.Domain.Client.{Client, User, TrustedAssertionIssuer, Bytes, client_id}
use oauth_lab.Memory.Registry
use oauth_lab.World.{World, services, on_users, on_issuers}
use oauth_lab.Service.DemoData.{
  ClientSpec, UserSpec, TrustedIssuerSpec, demo_clients, demo_users, demo_trusted_issuers,
}
use oauth_lab.Service.SeedDemoData.{
  KeyPairPem, each_scope, hash, hash_secret, spec_client, seed_clients, seed_users,
  seed_trusted_issuers, generate, seed_demo_data,
}

-- the texts of a specification are ones that the value objects accept
abbrev pub IsAccepted : ClientSpec → Type 0
IsAccepted spec = (client_id spec.id ≡ ok spec.id) × (each_scope spec.scopes ≡ ok spec.scopes)

-- the identifiers are accepted, and none stands twice
abbrev pub AreAccepted : List ClientSpec → Type 0
AreAccepted [] = Unit
AreAccepted (spec ∷ specs) =
    IsAccepted spec × ((contains (map (λ s. s.id) specs) spec.id ≡ false) × AreAccepted specs)

module _ (hash_at : ℕ → String → Bytes) (key_pair_at : ℕ → KeyPairPem) where
  -- the hash of the secret is one that the hasher made of it
  abbrev pub IsHashOf : Option String → Option Bytes → Type 0
  IsHashOf none h = h ≡ none
  IsHashOf (some secret) h = (n : ℕ) × (h ≡ some (hash_at n secret))

  -- what is to be stored for a specification
  abbrev pub registered : ClientSpec → Option Bytes → Client
  registered spec h = record {
    id = spec.id;
    secret_hash = h;
    token_endpoint_auth_method = spec.auth_method;
    allowed_grant_types = spec.grants;
    allowed_scopes = record { scopes = spec.scopes };
    redirect_uris = elim spec.secret [ none ↦ "http://localhost:8080/callback" ∷ [] | some s ↦ [] ];
    default_audience = spec.audience;
  }

  registered-is :
      (spec : ClientSpec) (h : Option Bytes)
      → spec_client hash_at key_pair_at spec h spec.id spec.scopes ≡ registered spec h
  unfolding spec_client
  registered-is spec h = ground arith

  -- the client of the specification is stored under its identifier, with a hash of its secret
  abbrev pub IsRegistered : Dict.Dict Client → ClientSpec → Type 0
  IsRegistered d spec =
      (h : Option Bytes) × ((Dict.get d spec.id ≡ some (registered spec h))
        × IsHashOf spec.secret h)

  abbrev pub AreRegistered : Dict.Dict Client → List ClientSpec → Type 0
  AreRegistered d [] = Unit
  AreRegistered d (spec ∷ specs) = IsRegistered d spec × AreRegistered d specs

  -- the world after the client is stored
  abbrev stored : ClientSpec → Option Bytes → World → World
  stored spec h w = record w {
    clients =
        Dict.put w.clients spec.id (spec_client hash_at key_pair_at spec h spec.id spec.scopes);
  }

  hash_secret-ok :
      (secret : Option String) (w : World)
      → (h : Option Bytes) × ((draws : ℕ) × ((hash_secret hash_at key_pair_at secret w
              ≡ (ok h, record w { draws = draws }))
            × IsHashOf secret h))
  unfolding services hash
  hash_secret-ok none w = (none, (w.draws, (refl, refl)))
  hash_secret-ok (some secret) w =
      (some (hash_at w.draws secret), (w.draws + 1, (refl, (w.draws, refl))))

  seed_clients-cons :
      (spec : ClientSpec) (specs : List ClientSpec) (w : World)
      → IsAccepted spec
      → (h : Option Bytes) × ((draws : ℕ) × (((seed_clients hash_at key_pair_at (spec ∷ specs) w).1
              ≡ (seed_clients hash_at key_pair_at specs
                  (stored spec h (record w { draws = draws }))).1)
            × IsHashOf spec.secret h))
  unfolding services seed_clients Registry.save_client spec_client
  seed_clients-cons spec specs w (i, c) =
      let (h, (draws, (e, k))) = hash_secret-ok spec.secret w in
      (h, (draws, (ground (arith, e, i, c), k)))

  abbrev pub ids : List ClientSpec → List String
  ids = map (λ s. s.id)

  nothing_seeded :
      (w : World) (k : String)
      → Dict.get (seed_clients hash_at key_pair_at [] w).1.clients k ≡ Dict.get w.clients k
  unfolding seed_clients pure
  nothing_seeded w k = refl

  seed_clients-other :
      (specs : List ClientSpec) (w : World) (k : String)
      → AreAccepted specs
      → contains (ids specs) k ≡ false
      → Dict.get (seed_clients hash_at key_pair_at specs w).1.clients k ≡ Dict.get w.clients k
  unfolding contains
  seed_clients-other [] w k a n = nothing_seeded w k
  seed_clients-other (spec ∷ specs) w k a n =
      let (h, (draws, (e, _))) = seed_clients-cons spec specs w a.0 in
      let w1 : World = stored spec h (record w { draws = draws }) in
      ap (λ w'. Dict.get w'.clients k) e
      ∙ ground (
        arith,
        seed_clients-other specs w1 k a.1.1,
        get-put w.clients spec.id k (spec_client hash_at key_pair_at spec h spec.id spec.scopes),
        eq_iff spec.id k,
      )

  seed_clients-registered :
      (specs : List ClientSpec) (w : World)
      → AreAccepted specs
      → AreRegistered (seed_clients hash_at key_pair_at specs w).1.clients specs
  seed_clients-registered [] w a = tt
  seed_clients-registered (spec ∷ specs) w a =
      let (h, (draws, (e, k))) = seed_clients-cons spec specs w a.0 in
      let w1 : World = stored spec h (record w { draws = draws }) in
      let found =
        get-put_self w.clients spec.id
          (spec_client hash_at key_pair_at spec h spec.id spec.scopes) in
      (
        (
          h,
          (
            ap (λ w'. Dict.get w'.clients spec.id) e
                ∙ seed_clients-other specs w1 spec.id a.1.1 a.1.0
                ∙ found
                ∙ ap some (registered-is spec h),
            k,
          ),
        ),
        subst (λ w'. AreRegistered w'.clients specs) (sym e)
            (seed_clients-registered specs w1 a.1.1),
      )

  module _ (c : Dict.Dict Client) where
    hash-Keeps : (secret : String) → Keeps (λ w. w.clients ≡ c) (hash hash_at key_pair_at secret)
    unfolding hash pure
    hash-Keeps secret = record { from = λ w h. h }

    generate-Keeps : Keeps (λ w. w.clients ≡ c) (generate hash_at key_pair_at)
    unfolding generate pure
    generate-Keeps = record { from = λ w h. h }

    save_user-Keeps :
        (user : User) → Keeps (λ w. w.clients ≡ c) (on_users (Registry.save_user user))
    unfolding on_users
    save_user-Keeps user = record { from = λ w h. h }

    save_issuer-Keeps :
        (issuer : TrustedAssertionIssuer)
        → Keeps (λ w. w.clients ≡ c) (on_issuers (Registry.save_issuer issuer))
    unfolding on_issuers
    save_issuer-Keeps issuer = record { from = λ w h. h }

    seed_users-Keeps :
        (specs : List UserSpec) → Keeps (λ w. w.clients ≡ c) (seed_users hash_at key_pair_at specs)
    unfolding seed_users
    seed_users-Keeps [] = search keeps_rules
    seed_users-Keeps (spec ∷ specs) =
        let rest : Keeps (λ w. w.clients ≡ c) (seed_users hash_at key_pair_at specs) =
          seed_users-Keeps specs in
        search (keeps_rules, hash-Keeps, save_user-Keeps)

    seed_trusted_issuers-Keeps :
        (specs : List TrustedIssuerSpec)
        → Keeps (λ w. w.clients ≡ c) (seed_trusted_issuers hash_at key_pair_at specs)
    unfolding seed_trusted_issuers
    seed_trusted_issuers-Keeps [] = search keeps_rules
    seed_trusted_issuers-Keeps (spec ∷ specs) =
        let rest : Keeps (λ w. w.clients ≡ c) (seed_trusted_issuers hash_at key_pair_at specs) =
          seed_trusted_issuers-Keeps specs in
        bind-Keeps _ _ generate-Keeps (λ key_pair. search (keeps_rules, save_issuer-Keeps))

  seed_demo_data-clients :
      (w : World)
      → (seed_demo_data hash_at key_pair_at w).1.clients
        ≡ (seed_clients hash_at key_pair_at demo_clients w).1.clients
  unfolding services seed_demo_data
  seed_demo_data-clients w =
      let w1 = (seed_clients hash_at key_pair_at demo_clients w).1 in
      let w2 = (seed_users hash_at key_pair_at demo_users w1).1 in
      ground (
        arith,
        (seed_users-Keeps w1.clients demo_users).from w1 refl,
        (seed_trusted_issuers-Keeps w2.clients demo_trusted_issuers).from w2 refl,
      )

  demo_clients-AreAccepted : AreAccepted demo_clients
  unfolding client_id each_scope scope contains str_len matches_plus is_scope_char
  demo_clients-AreAccepted = (
    (refl, refl),
    (
      refl,
      (
        (refl, refl),
        (refl, ((refl, refl), (refl, ((refl, refl), (refl, ((refl, refl), (refl, tt))))))),
      ),
    ),
  )

  -- After the seed, each demo client is stored under its identifier with the method, grants, scopes
  -- and audience of its specification. One with a secret has a hash that the hasher made of it and no
  -- redirect URI; one without has no hash and the local callback as its only redirect URI. This is so
  -- whatever was stored before, a former seed included, and every client with another identifier is
  -- as it was.
  pub seed_demo_data-registers :
      (w : World) (k : String)
      → contains (ids demo_clients) k ≡ false
      → let w' = (seed_demo_data hash_at key_pair_at w).1 in
        AreRegistered w'.clients demo_clients × (Dict.get w'.clients k ≡ Dict.get w.clients k)
  seed_demo_data-registers w k n =
      let same = seed_demo_data-clients w in
      (
        subst (λ d. AreRegistered d demo_clients) (sym same)
            (seed_clients-registered demo_clients w demo_clients-AreAccepted),
        ap (λ d. Dict.get d k) same
            ∙ seed_clients-other demo_clients w k demo_clients-AreAccepted n,
      )
