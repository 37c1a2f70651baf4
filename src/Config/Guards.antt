-- ===== src/Config/Guards.antt =====
-- What the settings keep from happening.
use oauth_lab.Prelude.{none, some, false, String, Option, Bool, not, ◌&&◌, ◌||◌, ◌==◌}
use oauth_lab.Flow.{Outcome, ok, raised}
use oauth_lab.Domain.Errors.{Exception}
use oauth_lab.World.{World}
use oauth_lab.Memory.Registry
use oauth_lab.Http.Texts.{starts_with}
use oauth_lab.Config.{Settings, is_localhost_issuer, dev_session_secret}

-- the public secret signs the sessions of an issuer that is not local
abbrev pub is_exposed : Settings → Bool
is_exposed settings =
    settings.session_secret_key == dev_session_secret && not (is_localhost_issuer settings.issuer)

-- a database that is in memory, or else migrated and of a driver that is known
abbrev pub has_database : String → Option String → Settings → Bool
has_database head current settings =
    starts_with settings.database_url "memory://"
    || (elim current [ none ↦ false | some revision ↦ revision == head ]
        && (starts_with settings.database_url "sqlite"
            || starts_with settings.database_url "postgresql"))

-- the server does not start
abbrev pub cannot_start : String → Option String → Settings → Bool
cannot_start head current settings =
    is_exposed settings
    || (not (has_database head current settings)
        || not (settings.token_format == "opaque" || settings.token_format == "jwt"))

-- what a method returned, if it did
abbrev pub returned : {A : Type 0} → Outcome Exception A → Option A
returned (ok a) = some a
returned (raised e) = none

-- the issuer counts as local, or the settings allow the seed
abbrev pub may_seed : Settings → Bool
may_seed settings =
    (starts_with settings.issuer "http://localhost"
      || starts_with settings.issuer "http://127.0.0.1")
    || settings.allow_demo_seed
