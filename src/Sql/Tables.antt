-- ===== src/Sql/Tables.antt =====
-- A table that holds the rows of the entities of a dictionary, in its order: what each statement of
-- the SQL repositories does to the one is what a write does to the other.
use oauth_lab.Prelude.{
  String, none, some, true, false, List, [], ◌∷◌, ◌++◌, Bool, ◌&&◌, ◌==◌, ◌≡◌, refl, subst, arith,
  eq_iff, is_some,
}
use oauth_lab.Dict.{Dict, get, put, get-put}
use oauth_lab.Sql.{exists_where, select_where, update_where, count_where}
use oauth_lab.Memory.RefreshTokens.Laws.{map_option}

module _ {E R : Type 0} (to_row : E → R) (key : E → String) (row_key : R → String) where
  -- the rows of the entities
  unfoldable pub rows : Dict E → List R
  rows [] = []
  rows ((k, e) ∷ d) = to_row e ∷ rows d

  -- every entity stands under its own key, and no key stands twice
  abbrev pub IsKept : Dict E → Type 0
  IsKept [] = Unit
  IsKept ((k, e) ∷ d) = (key e ≡ k) × ((get d k ≡ none) × IsKept d)

  pub put-IsKept : (d : Dict E) (e : E) → IsKept d → IsKept (put d (key e) e)
  unfolding get put
  put-IsKept [] e h = (refl, (refl, tt))
  put-IsKept ((j, a) ∷ d) e h =
      ground
        (arith, put-IsKept d e h.1.1, get-put d (key e) j e, eq_iff j (key e), eq_iff (key e) j)

  pub get-IsKept : (d : Dict E) (k : String) (e : E) → IsKept d → get d k ≡ some e → key e ≡ k
  unfolding get
  get-IsKept [] k e h a = cc
  get-IsKept ((j, c) ∷ d) k e h a = ground (arith, get-IsKept d k e h.1.1, eq_iff j k)

  -- a write under the key that the entity has
  pub put-IsKept_at : (d : Dict E) (k : String) (e : E) → key e ≡ k → IsKept d → IsKept (put d k e)
  put-IsKept_at d k e p h = subst (λ j. IsKept (put d j e)) p (put-IsKept d e h)

  module _ (keeps_key : (e : E) → row_key (to_row e) ≡ key e) where
    pub select-rows :
        (d : Dict E) (k : String)
        → IsKept d
        → select_where (λ r. row_key r == k) (rows d) ≡ map_option to_row (get d k)
    unfolding select_where rows get
    select-rows [] k h = refl
    select-rows ((j, e) ∷ d) k h = ground (arith, select-rows d k h.1.1, keeps_key e, eq_iff j k)

    pub exists-rows :
        (d : Dict E) (k : String)
        → IsKept d
        → exists_where (λ r. row_key r == k) (rows d) ≡ is_some (get d k)
    unfolding exists_where rows get
    exists-rows [] k h = refl
    exists-rows ((j, e) ∷ d) k h = ground (arith, exists-rows d k h.1.1, keeps_key e, eq_iff j k)

    module _ (q : R → Bool) (f : R → R) where
      -- the update passes over a table without the key
      pub update-absent :
          (d : Dict E) (k : String)
          → IsKept d
          → get d k ≡ none
          → (update_where (λ r. row_key r == k && q r) f (rows d) ≡ rows d)
            × (count_where (λ r. row_key r == k && q r) (rows d) ≡ 0)
      unfolding update_where count_where rows get
      update-absent [] k h a = (refl, refl)
      update-absent ((j, e) ∷ d) k h a =
          ground (arith, update-absent d k h.1.1, keeps_key e, eq_iff j k)

      pub update-refused :
          (d : Dict E) (k : String) (e : E)
          → IsKept d
          → get d k ≡ some e
          → q (to_row e) ≡ false
          → (update_where (λ r. row_key r == k && q r) f (rows d) ≡ rows d)
            × (count_where (λ r. row_key r == k && q r) (rows d) ≡ 0)
      unfolding update_where count_where rows get
      update-refused [] k e h a b = cc
      update-refused ((j, c) ∷ d) k e h a b =
          ground
            (arith, update-refused d k e h.1.1, update-absent d k h.1.1, keeps_key c, eq_iff j k)

      pub update-passed :
          (g : E → E) (d : Dict E) (k : String) (e : E)
          → f (to_row e) ≡ to_row (g e)
          → IsKept d
          → get d k ≡ some e
          → q (to_row e) ≡ true
          → (update_where (λ r. row_key r == k && q r) f (rows d) ≡ rows (put d k (g e)))
            × (count_where (λ r. row_key r == k && q r) (rows d) ≡ 1)
      unfolding update_where count_where rows get put
      update-passed g [] k e i h a b = cc
      update-passed g ((j, c) ∷ d) k e i h a b =
          ground
            (arith, update-passed g d k e i h.1.1, update-absent d k h.1.1, keeps_key c, eq_iff j k)

  pub rows-put_new :
      (d : Dict E) (k : String) (e : E)
      → get d k ≡ none
      → rows (put d k e) ≡ rows d ++ (to_row e ∷ [])
  unfolding rows get put
  rows-put_new [] k e a = refl
  rows-put_new ((j, c) ∷ d) k e a = ground (arith, rows-put_new d k e)
