-- ===== src/Service/Device/UserCodes.antt =====
-- The user codes that a person types (adapter/outbound/random/user_code_generator.py).
use Prim.Native.String.{◌++◌}
use text.Mathlib.TextLemmas.{nil-append, cons-append}
use oauth_lab.Prelude.{
  ℕ, zero, suc, ◌+◌, ◌<◌, String, Bool, true, not, ◌&&◌, ◌||◌, ◌≡◌, ◌∙◌, ap, refl, arith, leb,
  nat_eq, str_len,
}
use oauth_lab.Prelude.Patterns.{every_char}
use oauth_lab.Prelude.Split.{every_char-append}
use oauth_lab.Flow.{ok, pure}
use oauth_lab.Flow.Inversion.{bind-ok}
use oauth_lab.World.{World, services}
use oauth_lab.World.Env.{Env}
use oauth_lab.Service.Device.{
  alphabet, letter_at, choose_letter, choose_letters, generate_user_code,
}

abbrev is_vowel : ℕ → Bool
is_vowel c =
    nat_eq c b'A'
    || nat_eq c b'E'
    || nat_eq c b'I'
    || nat_eq c b'O'
    || nat_eq c b'U'
    || nat_eq c b'Y'

-- a capital consonant
unfoldable pub is_consonant : ℕ → Bool
is_consonant c = leb b'A' c && leb c b'Z' && not (is_vowel c)

alphabet-consonant : every_char is_consonant alphabet ≡ true
unfolding every_char is_consonant
alphabet-consonant = refl

letter_at-one :
    (class : ℕ → Bool) (s : String) (i : ℕ)
    → i < str_len s
    → every_char class s ≡ true
    → (str_len (letter_at s i) ≡ 1) × (every_char class (letter_at s i) ≡ true)
unfolding letter_at every_char str_len
letter_at-one class String.[] i l h = ground arith
letter_at-one class (String.◌∷◌ c s) zero l h = (refl, ground arith)
letter_at-one class (String.◌∷◌ c s) (suc i) l h =
    letter_at-one class s i (ground arith) (ground arith)

str_len-append : (s t : String) → str_len (s ++ t) ≡ str_len s + str_len t
unfolding str_len
str_len-append String.[] t = ground (arith, nil-append t)
str_len-append (String.◌∷◌ c s) t = ground (arith, cons-append c s t, str_len-append s t)

dash-length : str_len "-" ≡ 1
unfolding str_len
dash-length = refl

module _ (env : Env) (below : (n : ℕ) → env.below_at n 20 < 20) where
  choose_letters-length :
      (k : ℕ) (w : World)
      → (s : String) × ((choose_letters env k w ≡ (ok s, record w { draws = w.draws + k }))
          × ((str_len s ≡ k) × (every_char is_consonant s ≡ true)))
  unfolding choose_letters choose_letter services str_len every_char
  choose_letters-length zero w =
      let same : w.draws ≡ w.draws + 0 = omega arith in
      ("", (ap (λ d. (ok "", record w { draws = d })) same, (refl, refl)))
  choose_letters-length (suc k) w =
      let i = env.below_at w.draws 20 in
      let letter = letter_at alphabet i in
      let w1 : World = record w { draws = w.draws + 1 } in
      let (rest, (e, (len, all))) = choose_letters-length k w1 in
      let (one, consonant) =
        letter_at-one is_consonant alphabet i (below w.draws) alphabet-consonant in
      let sum : w.draws + 1 + k ≡ w.draws + suc k = omega arith in
      (
        letter ++ rest,
        (
          bind-ok (choose_letters env k) (λ r. pure (letter ++ r)) e
              ∙ ap (λ d. (ok (letter ++ rest), record w { draws = d })) sum,
          (
            ground (arith, str_len-append letter rest, one, len),
            ground (arith, every_char-append is_consonant letter rest, consonant, all),
          ),
        ),
      )

  -- Where the random source draws indices below the bound that it is given, the generator returns a
  -- text of four capital consonants, a dash and four more, nine characters in all, after eight draws,
  -- and changes nothing else.
  pub generate_user_code-bounds :
      (w : World)
      → (front back : String) × ((generate_user_code env w
            ≡ (ok (front ++ "-" ++ back), record w { draws = w.draws + 8 }))
          × ((str_len front ≡ 4)
              × ((str_len back ≡ 4)
                  × ((every_char is_consonant (front ++ back) ≡ true)
                      × (str_len (front ++ "-" ++ back) ≡ 9)))))
  unfolding generate_user_code pure
  generate_user_code-bounds w =
      let (front, (e, (n, f))) = choose_letters-length 4 w in
      let (back, (e', (m, b))) = choose_letters-length 4 (record w { draws = w.draws + 4 }) in
      let sum : w.draws + 4 + 4 ≡ w.draws + 8 = omega arith in
      let run : generate_user_code env w
          ≡ (ok (front ++ "-" ++ back), record w { draws = w.draws + 8 }) =
        bind-ok _ _ e
        ∙ bind-ok _ _ e'
        ∙ ap (λ d. (ok (front ++ "-" ++ back), record w { draws = d })) sum in
      let letters : every_char is_consonant (front ++ back) ≡ true =
        ground (arith, every_char-append is_consonant front back, f, b) in
      let nine : str_len (front ++ "-" ++ back) ≡ 9 =
        ground
          (arith, str_len-append front ("-" ++ back), str_len-append "-" back, dash-length, n, m) in
      (front, back, (run, (n, (m, (letters, nine)))))
