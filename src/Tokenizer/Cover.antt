-- ===== src/Tokenizer/Cover.antt =====
-- What the tokens of a text leave out, and the tokens of a fragment.
use wfts.Common.{
  ltb, leb, if◌then◌else◌, ◌==◌, Bool-cases, length, length-map, ℕ, suc, ◌+◌, ◌<◌, ◌≡◌, refl, ap,
  ◌∙◌, ◌⊎◌, inl, inr, Bool, true, false, ◌&&◌, List, [], ◌∷◌, ◌++◌, arith,
}
use mathlib.Core.List.{append-nil, append_assoc, map-append}
use wfts.Common.Texts.{to_lower}
use wfts.Tokenizer.{
  TokenType, whitespace, Token, type_number, same_type, get_rune_type, flush, fragment_loop,
}

-- Every rune is of the type.
abbrev pub AllOfType : TokenType → List ℕ → Type 0
AllOfType k [] = Unit
AllOfType k (x ∷ xs) = (same_type (get_rune_type x) k ≡ true) × AllOfType k xs

unfoldable pub is_entity : TokenType → Bool
is_entity TokenType.email_addr = true
is_entity TokenType.url_addr = true
is_entity TokenType.ip_v4_addr = true
is_entity _ = false

-- The token of a piece of the text: the piece itself if a regular expression found it, and else the
-- piece in lower case, whose runes are all of the token's type, which is not white space.
abbrev pub Fits : Token → List ℕ → Type 0
Fits t piece =
    ((is_entity t.kind ≡ true) × (t.value ≡ piece))
    ⊎ ((t.value ≡ to_lower piece)
        × AllOfType t.kind t.value
        × (same_type t.kind whitespace ≡ false)
        × (0 < length piece))

-- The tokens are those of consecutive pieces of a text that begins at a position, with nothing but
-- white space between the pieces.
pub data Covers : ℕ → List ℕ → List Token → Type 0 where
  done : {p : ℕ} → Covers p [] []
  gap :
      {p c : ℕ} {text : List ℕ} {ts : List Token}
      → AllOfType whitespace (to_lower (c ∷ []))
      → Covers (suc p) text ts
      → Covers p (c ∷ text) ts
  piece :
      {p : ℕ} {text : List ℕ} {t : Token} {ts : List Token} (found rest : List ℕ)
      → text ≡ found ++ rest
      → t.start_pos ≡ p
      → t.end_pos ≡ p + length found
      → Fits t found
      → Covers (p + length found) rest ts
      → Covers p text (t ∷ ts)

Covers-gaps :
    (p : ℕ) (blank rest : List ℕ) (ts : List Token)
    → AllOfType whitespace (to_lower blank)
    → Covers (p + length blank) rest ts
    → Covers p (blank ++ rest) ts
unfolding to_lower
Covers-gaps p [] rest ts all covers = let e : p + 0 ≡ p = omega arith in rw e at covers
Covers-gaps p (c ∷ blank) rest ts all covers =
    let e : p + suc (length blank) ≡ suc p + length blank = omega arith in
    gap (all.0, tt) (Covers-gaps (suc p) blank rest ts all.1 (rw e at covers))

length-to_lower : (s : List ℕ) → length (to_lower s) ≡ length s
unfolding to_lower
length-to_lower s = length-map _ s

same_type-whitespace : (k : TokenType) → same_type k whitespace ≡ true → k ≡ whitespace
unfolding type_number
same_type-whitespace whitespace e = refl
same_type-whitespace k e = ground (arith, e)

flush-Covers :
    (base start : ℕ) (k : TokenType) (found rest : List ℕ) (ts : List Token)
    → AllOfType k (to_lower found)
    → Covers (base + start + length found) rest ts
    → Covers (base + start) (found ++ rest) (flush base start k (to_lower found) ++ ts)
unfolding flush
flush-Covers base start k [] rest ts all covers =
    let e : base + start + 0 ≡ base + start = omega arith in
    let none_there : ltb 0 (length (to_lower [])) ≡ false = unfold to_lower in refl in
    rw none_there (rw e at covers)
flush-Covers base start k (c ∷ found) rest ts all covers =
    let size = length-to_lower (c ∷ found) in
    let some_there : ltb 0 (length (to_lower (c ∷ found))) ≡ true = ground (arith, size) in
    elim (Bool-cases (same_type k whitespace)) [
      | inl blank ↦
          let same = same_type-whitespace k blank in
          rw (some_there, blank)
            (Covers-gaps (base + start) (c ∷ found) rest ts (rw same at all) covers)
      | inr kept ↦
          rw (some_there, kept)
            (piece (c ∷ found) rest refl refl (omega (arith, size))
              (inr (refl, all, kept, omega arith)) covers)
    ]

AllOfType-append :
    (k : TokenType) (xs : List ℕ) (x : ℕ)
    → AllOfType k xs
    → same_type (get_rune_type x) k ≡ true
    → AllOfType k (xs ++ x ∷ [])
AllOfType-append k [] x all here = (here, tt)
AllOfType-append k (y ∷ xs) x all here = (all.0, AllOfType-append k xs x all.1 here)

same_type_refl : (k : TokenType) → same_type k k ≡ true
same_type_refl k = ground arith

abbrev lower : ℕ → ℕ
lower c = if leb 65 c && leb c 90 then c + 32 else c

to_lower-cons : (c : ℕ) (s : List ℕ) → to_lower (c ∷ s) ≡ lower c ∷ to_lower s
unfolding to_lower
to_lower-cons c s = refl

to_lower-append : (s : List ℕ) (c : ℕ) → to_lower (s ++ c ∷ []) ≡ to_lower s ++ lower c ∷ []
unfolding to_lower
to_lower-append s c = map-append _ s (c ∷ [])

pub to_lower-nil : to_lower [] ≡ []
unfolding to_lower
to_lower-nil = refl

-- The loop over the pieces `found` in the buffer and `text` to come.
pub fragment_loop-Covers :
    (base start : ℕ) (k : TokenType) (found text : List ℕ)
    → AllOfType k (to_lower found)
    → Covers
        (base + start)
        (found ++ text)
        (fragment_loop base start k (to_lower found) (to_lower text))
unfolding fragment_loop
fragment_loop-Covers base start k found [] all =
    let end = flush-Covers base start k found [] [] all done in
    let whole = rw (append-nil (flush base start k (to_lower found))) at end in
    rw to_lower-nil whole
fragment_loop-Covers base start k [] (c ∷ text) all =
    let one : to_lower (c ∷ []) ≡ lower c ∷ [] =
      to_lower-cons c [] ∙ ap (λ r. lower c ∷ r) to_lower-nil in
    let kind = get_rune_type (lower c) in
    let here : AllOfType kind (to_lower (c ∷ [])) = rw one (same_type_refl kind, tt) in
    let ih = fragment_loop-Covers base start kind (c ∷ []) text here in
    rw (to_lower-cons c text, to_lower-nil) (rw one at ih)
fragment_loop-Covers base start k (d ∷ found) (c ∷ text) all =
    let one : to_lower (c ∷ []) ≡ lower c ∷ [] =
      to_lower-cons c [] ∙ ap (λ r. lower c ∷ r) to_lower-nil in
    let kind = get_rune_type (lower c) in
    let buffer = to_lower (d ∷ found) in
    let size = length-to_lower (d ∷ found) in
    let some_there : (length buffer == 0) ≡ false = ground (arith, size) in
    elim (Bool-cases (same_type kind k)) [
      | inl same ↦
          let longer : AllOfType k (to_lower ((d ∷ found) ++ c ∷ [])) =
            rw (to_lower-append (d ∷ found) c) (AllOfType-append k buffer (lower c) all same) in
          let ih = fragment_loop-Covers base start k ((d ∷ found) ++ c ∷ []) text longer in
          let moved =
            rw (to_lower-append (d ∷ found) c, append_assoc (d ∷ found) (c ∷ []) text) at ih in
          rw (to_lower-cons c text, some_there, same) moved
      | inr other ↦
          let here : AllOfType kind (to_lower (c ∷ [])) = rw one (same_type_refl kind, tt) in
          let ih = fragment_loop-Covers base (start + length buffer) kind (c ∷ []) text here in
          let e : base + (start + length buffer) ≡ base + start + length (d ∷ found) =
            omega (arith, size) in
          let rest = rw (one, e) at ih in
          rw (to_lower-cons c text, some_there, other)
            (flush-Covers base start k (d ∷ found) (c ∷ text) _ all rest)
    ]
