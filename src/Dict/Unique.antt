-- ===== src/Dict/Unique.antt =====
-- No key stands twice in a dictionary.
use oauth_lab.Prelude.{String, none, [], ◌∷◌, ◌≡◌, refl, arith, eq_iff}
use oauth_lab.Dict.{Dict, get, put, get-put}

abbrev pub IsUnique {ℓ} : {V : Type ℓ} → Dict V → Type ℓ
IsUnique [] = Unit
IsUnique ((k, v) ∷ d) = (get d k ≡ none) × IsUnique d

pub put-IsUnique {ℓ} :
    {V : Type ℓ} (d : Dict V) (k : String) (v : V) → IsUnique d → IsUnique (put d k v)
unfolding get put
put-IsUnique [] k v h = (refl, tt)
put-IsUnique ((j, w) ∷ d) k v h =
    ground (arith, put-IsUnique d k v h.1, get-put d k j v, eq_iff j k, eq_iff k j)
