-- ===== src/MinHash/Union.antt =====
-- An entry of a signature is the least value among the shingles of the document.
use wfts.Common.{
  ltb, if◌then◌else◌, length, ℕ, suc, min, ◌≡◌, refl, sym, ap, ◌∙◌, false, List, [], ◌∷◌, arith,
}
use wfts.MinHash.{
  join_words, get_word_n_grams, mix, lower_entries, sign_shingles, blank_sign, create_signature,
}

-- The least of the values that the shingles have under a salt, from `s` on.
unfoldable pub least_value : (List ℕ → ℕ) → ℕ × ℕ → List (List ℕ) → ℕ → ℕ
least_value hash64 salt [] s = s
least_value hash64 salt (w ∷ ws) s = min (mix salt (hash64 w)) (least_value hash64 salt ws s)

unfoldable pub least_values : (List ℕ → ℕ) → List (ℕ × ℕ) → List (List ℕ) → List ℕ
least_values hash64 [] ws = []
least_values hash64 (salt ∷ salts) ws =
    least_value hash64 salt ws 18446744073709551615 ∷ least_values hash64 salts ws

-- The consecutive quadruples of a list of tokens, joined.
unfoldable pub quadruples : List (List ℕ) → List (List ℕ)
quadruples (a ∷ b ∷ c ∷ d ∷ ts) = join_words (a ∷ b ∷ c ∷ d ∷ []) ∷ quadruples (b ∷ c ∷ d ∷ ts)
quadruples ts = []

least_value-lower :
    (hash64 : List ℕ → ℕ) (salt : ℕ × ℕ) (ws : List (List ℕ)) (x s : ℕ)
    → least_value hash64 salt ws (if ltb x s then x else s) ≡ min x (least_value hash64 salt ws s)
unfolding least_value
least_value-lower hash64 salt [] x s = ground arith
least_value-lower hash64 salt (w ∷ ws) x s = omega (arith, least_value-lower hash64 salt ws x s)

-- The entries of a signature lowered to the values of the shingles.
lowered : (List ℕ → ℕ) → List (ℕ × ℕ) → List (List ℕ) → List ℕ → List ℕ
lowered hash64 [] ws sign = []
lowered hash64 (salt ∷ salts) ws [] = []
lowered hash64 (salt ∷ salts) ws (s ∷ sign) =
    least_value hash64 salt ws s ∷ lowered hash64 salts ws sign

lowered-nil :
    (hash64 : List ℕ → ℕ) (salts : List (ℕ × ℕ)) (sign : List ℕ)
    → length salts ≡ length sign
    → lowered hash64 salts [] sign ≡ sign
unfolding lowered least_value
lowered-nil hash64 [] [] e = refl
lowered-nil hash64 [] (s ∷ sign) e = absurd (omega arith)
lowered-nil hash64 (salt ∷ salts) [] e = absurd (omega arith)
lowered-nil hash64 (salt ∷ salts) (s ∷ sign) e =
    ap (◌∷◌ s) (lowered-nil hash64 salts sign (omega arith))

lowered-lower_entries :
    (hash64 : List ℕ → ℕ) (salts : List (ℕ × ℕ)) (w : List ℕ) (ws : List (List ℕ)) (sign : List ℕ)
    → lowered hash64 salts ws (lower_entries salts (hash64 w) sign)
      ≡ lowered hash64 salts (w ∷ ws) sign
unfolding lowered lower_entries least_value
lowered-lower_entries hash64 [] w ws sign = refl
lowered-lower_entries hash64 (salt ∷ salts) w ws [] = refl
lowered-lower_entries hash64 (salt ∷ salts) w ws (s ∷ sign) =
    rw (least_value-lower hash64 salt ws (mix salt (hash64 w)) s) (
      ap (λ r. min (mix salt (hash64 w)) (least_value hash64 salt ws s) ∷ r)
        (lowered-lower_entries hash64 salts w ws sign))

length-lower_entries :
    (salts : List (ℕ × ℕ)) (hash : ℕ) (sign : List ℕ)
    → length salts ≡ length sign
    → length salts ≡ length (lower_entries salts hash sign)
unfolding lower_entries
length-lower_entries [] hash sign e = refl
length-lower_entries (salt ∷ salts) hash [] e = absurd (omega arith)
length-lower_entries (salt ∷ salts) hash (s ∷ sign) e =
    ap suc (length-lower_entries salts hash sign (omega arith))

sign_shingles-lowered :
    (hash64 : List ℕ → ℕ) (salts : List (ℕ × ℕ)) (ws : List (List ℕ)) (sign : List ℕ)
    → length salts ≡ length sign
    → sign_shingles hash64 salts ws sign ≡ lowered hash64 salts ws sign
unfolding sign_shingles
sign_shingles-lowered hash64 salts [] sign e = sym (lowered-nil hash64 salts sign e)
sign_shingles-lowered hash64 salts (w ∷ ws) sign e =
    sign_shingles-lowered hash64 salts ws (lower_entries salts (hash64 w) sign)
      (length-lower_entries salts (hash64 w) sign e)
    ∙ lowered-lower_entries hash64 salts w ws sign

blank_sign-least :
    (hash64 : List ℕ → ℕ) (salts : List (ℕ × ℕ)) (ws : List (List ℕ))
    → (length salts ≡ length (blank_sign salts))
      × (lowered hash64 salts ws (blank_sign salts) ≡ least_values hash64 salts ws)
unfolding blank_sign lowered least_values
blank_sign-least hash64 [] ws = (refl, refl)
blank_sign-least hash64 (salt ∷ salts) ws =
    let ih = blank_sign-least hash64 salts ws in
    (ap suc ih.0, ap (λ r. least_value hash64 salt ws 18446744073709551615 ∷ r) ih.1)

get_word_n_grams-quadruples : (ts : List (List ℕ)) → get_word_n_grams ts ≡ quadruples ts
unfolding get_word_n_grams quadruples
get_word_n_grams-quadruples [] = refl
get_word_n_grams-quadruples (a ∷ []) = refl
get_word_n_grams-quadruples (a ∷ b ∷ []) = refl
get_word_n_grams-quadruples (a ∷ b ∷ c ∷ []) = refl
get_word_n_grams-quadruples (a ∷ b ∷ c ∷ d ∷ ts) =
    let long : ltb (suc (suc (suc (suc (length ts))))) 4 ≡ false = ground arith in
    rw long
      (ap (λ r. join_words (a ∷ b ∷ c ∷ d ∷ []) ∷ r) (get_word_n_grams-quadruples (b ∷ c ∷ d ∷ ts)))

-- Each entry of a signature is the least of the values that the quadruples of consecutive tokens have
-- under the entry's salt, and 2 ^ 64 - 1 for fewer than four tokens.
pub create_signature-least_values :
    (hash64 : List ℕ → ℕ) (salts : List (ℕ × ℕ)) (raw_tokens : List (List ℕ))
    → create_signature hash64 salts raw_tokens ≡ least_values hash64 salts (quadruples raw_tokens)
unfolding create_signature
create_signature-least_values hash64 salts ts =
    let (size, start) = blank_sign-least hash64 salts (quadruples ts) in
    rw (get_word_n_grams-quadruples ts)
      (sign_shingles-lowered hash64 salts (quadruples ts) (blank_sign salts) size ∙ start)
