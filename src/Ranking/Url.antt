-- ===== src/Ranking/Url.antt =====
-- boyerMoorAlgorithm of preprocessingFeatures.go: how much of the URL the words of the query make up. A text is
-- the list of its runes. The search for a word runs on fuel, one more than the length of the URL, since the place
-- in the URL rises in each round.
use wfts.Common.{
  ltb, if◌then◌else◌, ltb→lt, ◌==◌, Bool-cases, Option-cases, length, get_or, ℕ, zero, suc, ◌+◌,
  ◌-◌, ◌≤◌, ◌<◌, max, ◌≡◌, sym, inl, inr, Bool, true, false, Option, none, some, List, [], ◌∷◌,
  arith,
}
use wfts.Common.Partial.{◌>>=◌, Yields, yields}

-- `shift`: a later rune of the word replaces an earlier one.
unfoldable pub shift_from : ℕ → ℕ → List ℕ → ℕ → Option ℕ
shift_from l i [] r = none
shift_from l i (c ∷ cs) r = elim (shift_from l (i + 1) cs r) [
  | some s ↦ some s
  | none ↦ if c == r then some (max 1 (l - i - 1)) else none
]

unfoldable pub shift_of : List ℕ → ℕ → Option ℕ
shift_of word r = shift_from (length word) 0 word r

-- The inner loop: `sstrp + 1` at its end, from `sstrp + 1` and `strp`.
unfoldable pub match_back : List ℕ → List ℕ → ℕ → ℕ → ℕ
match_back word url zero strp = zero
match_back word url (suc n) strp =
    let rest = match_back word url n (strp - 1) in
    if get_or word n 0 == get_or url strp 0 then rest else suc n

-- The outer loop: whether the word is found.
unfoldable pub find_loop : ℕ → List ℕ → List ℕ → ℕ → Option Bool
find_loop zero word url strp = none
find_loop (suc f) word url strp =
    let l = length word in
    let left = match_back word url l strp in
    let back = find_loop f word url (strp - (l - left) + (l + (l - left))) in
    let step : ℕ = elim (shift_of word (get_or url strp 0)) [ none ↦ l | some s ↦ s ] in
    let on = find_loop f word url (strp + step) in
    if ltb strp (length url)
    then if get_or word (l - 1) 0 == get_or url strp 0
      then if left == 0 then some true else back
      else on
    else some false

unfoldable pub find : List ℕ → List ℕ → Option Bool
find word url = find_loop (length url + 1) word url (length word - 1)

-- `wordInUrl`, over the words.
unfoldable pub words_in_url : List ℕ → List (List ℕ) → Option ℕ
words_in_url url [] = some 0
words_in_url url (word ∷ words) = do
  found ← find word url
  rest ← words_in_url url words
  some (if found then length word + rest else rest)

-- The word stands in the URL.
abbrev pub Occurs : List ℕ → List ℕ → Type 0
Occurs word url =
    (p : ℕ) × (p + length word ≤ length url)
    × ((i : ℕ) → i < length word → get_or url (p + i) 0 ≡ get_or word i 0)

abbrev pub IsHit : List ℕ → List ℕ → Bool → Type 0
IsHit word url true = Occurs word url
IsHit word url false = Unit

shift_from-positive : (l i : ℕ) (cs : List ℕ) (r s : ℕ) → shift_from l i cs r ≡ some s → 0 < s
unfolding shift_from
shift_from-positive l i [] r s h = cc
shift_from-positive l i (c ∷ cs) r s h = elim (Option-cases (shift_from l (i + 1) cs r)) [
  | inr (t, e) ↦
      let same : shift_from l (i + 1) cs r ≡ some s = ground (arith, h, e) in
      shift_from-positive l (i + 1) cs r s same
  | inl e ↦ ground (arith, h, e)
]

-- The step of a mismatch.
abbrev step_of : List ℕ → ℕ → ℕ
step_of word r = elim (shift_of word r) [ none ↦ length word | some s ↦ s ]

step_of-positive : (word : List ℕ) (r : ℕ) → 0 < length word → 0 < step_of word r
unfolding shift_of
step_of-positive word r h = elim (Option-cases (shift_of word r)) [
  | inl e ↦ rw (step_of, e) h
  | inr (s, e) ↦ rw (step_of, e) (shift_from-positive (length word) 0 word r s e)
]

match_back-agrees :
    (word url : List ℕ) (n strp : ℕ)
    → n ≤ suc strp
    → match_back word url n strp ≡ 0
    → (i : ℕ) → i < n
    → get_or url (suc strp - n + i) 0 ≡ get_or word i 0
unfolding match_back
match_back-agrees word url zero strp h none_left i lt = absurd (omega arith)
match_back-agrees word url (suc n) strp h none_left i lt =
    elim (Bool-cases (get_or word n 0 == get_or url strp 0)) [
      | inr apart ↦ absurd (ground (arith, none_left, apart))
      | inl same ↦
          let rest : match_back word url n (strp - 1) ≡ 0 = ground (arith, none_left, same) in
          elim (Bool-cases (ltb i n)) [
            | inl before ↦
                let small = ltb→lt i n before in
                let e : suc strp - suc n + i ≡ suc (strp - 1) - n + i = omega arith in
                rw e (match_back-agrees word url n (strp - 1) (omega arith) rest i small)
            | inr last ↦
                let here : i ≡ n = ground (arith, last, lt) in
                let e : suc strp - suc n + i ≡ strp = omega arith in
                let hit : get_or word n 0 ≡ get_or url strp 0 = ground (arith, same) in
                rw (e, here) (sym hit)
          ]
    ]

match_back-le : (word url : List ℕ) (n strp : ℕ) → match_back word url n strp ≤ n
unfolding match_back
match_back-le word url zero strp = omega arith
match_back-le word url (suc n) strp = ground (arith, match_back-le word url n (strp - 1))

find_loop-IsHit :
    (f : ℕ) (word url : List ℕ) (strp : ℕ)
    → 0 < length word
    → length word ≤ suc strp
    → length url - strp < f
    → Yields (IsHit word url) (find_loop f word url strp)
unfolding find_loop
find_loop-IsHit zero word url strp some_word inside fuel = absurd (omega arith)
find_loop-IsHit (suc f) word url strp some_word inside fuel =
    let l = length word in
    let left = match_back word url l strp in
    let r = get_or url strp 0 in
    elim (Bool-cases (ltb strp (length url))) [
      | inr over ↦ rw over (yields tt)
      | inl more ↦
          let lt = ltb→lt strp (length url) more in
          elim (Bool-cases (get_or word (l - 1) 0 == r)) [
            | inr apart ↦
                let rises = step_of-positive word r some_word in
                let on =
                  find_loop-IsHit f word url (strp + step_of word r) some_word (omega arith)
                    (omega (arith, rises, lt, fuel)) in
                rw more (rw apart on)
            | inl same ↦ elim (Bool-cases (left == 0)) [
              | inl hit ↦
                  let e : left ≡ 0 = ground (arith, hit) in
                  let agrees = match_back-agrees word url l strp inside e in
                  rw more (rw same (rw hit (yields (suc strp - l, omega arith, agrees))))
              | inr part ↦
                  let least : 0 < left = ground (arith, part) in
                  let most = match_back-le word url l strp in
                  let next = strp - (l - left) + (l + (l - left)) in
                  let e : next ≡ strp + l = omega arith in
                  let back =
                    find_loop-IsHit f word url next some_word (omega (arith, e))
                      (omega (arith, e, lt, fuel)) in
                  rw more (rw same (rw part back))
            ]
          ]
    ]

-- The search for a word ends for every URL, and where it finds the word, the word stands in the URL. The word is
-- not empty.
pub find-IsHit : (word url : List ℕ) → 0 < length word → Yields (IsHit word url) (find word url)
unfolding find
find-IsHit word url h =
    find_loop-IsHit (length url + 1) word url (length word - 1) h (omega arith) (omega arith)
