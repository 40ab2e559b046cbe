-- ===== src/Strings/Strtok.antt =====
-- What repeated calls of `strtok` come to: the words of a string.
use tcpserver_lib.Base.{
  ℕ, ◌≤◌, ◌<◌, ◌≡◌, refl, sym, ap, ◌∙◌, Bool, true, false, none, some, List, [], ◌∷◌, arith, ◌==◌,
  if◌then◌else◌, length, Bool-cases, inl, inr,
}
use tcpserver_lib.Strings.{skip_delims, token_of, after_token, strtok, strtok_at}

-- The string starts inside a word.
abbrev pub in_word : ℕ → List ℕ → Bool
in_word d [] = false
in_word d (c ∷ s) = if c == d then false else true

abbrev pub extend_first : ℕ → List (List ℕ) → List (List ℕ)
extend_first c [] = (c ∷ []) ∷ []
extend_first c (w ∷ ws) = (c ∷ w) ∷ ws

-- The maximal pieces of a string without delimiters.
abbrev pub words : ℕ → List ℕ → List (List ℕ)
words d [] = []
words d (c ∷ s) =
    let rest = words d s in
    if c == d then rest else if in_word d s then extend_first c rest else (c ∷ []) ∷ rest

words-skip_delims : (d : ℕ) (s : List ℕ) → words d (skip_delims d s) ≡ words d s
words-skip_delims d [] = refl
words-skip_delims d (c ∷ s) = elim (Bool-cases (c == d)) [
  | inl e ↦ rw e (words-skip_delims d s)
  | inr e ↦ rw e (rw e refl)
]

words-token :
    (d : ℕ) (s : List ℕ) → in_word d s ≡ true → words d s ≡ token_of d s ∷ words d (after_token d s)
words-token d [] inside = absurd (cc inside)
words-token d (c ∷ []) inside = ground (arith, inside)
words-token d (c ∷ b ∷ t) inside = elim (Bool-cases (c == d)) [
  | inl e ↦ absurd (ground (arith, e, inside))
  | inr e ↦ elim (Bool-cases (b == d)) [
    | inl f ↦ rw (e, f) refl
    | inr f ↦
        let next : words d (b ∷ t) ≡ token_of d (b ∷ t) ∷ words d (after_token d (b ∷ t)) =
          words-token d (b ∷ t) (rw f refl) in
        ground (arith, next, e, f)
  ]
]

length-skip_delims : (d : ℕ) (s : List ℕ) → length (skip_delims d s) ≤ length s
length-skip_delims d [] = omega arith
length-skip_delims d (c ∷ s) = ground (arith, length-skip_delims d s)

length-after_token : (d : ℕ) (s : List ℕ) → length (after_token d s) ≤ length s
length-after_token d [] = omega arith
length-after_token d (c ∷ s) = ground (arith, length-after_token d s)

skip_delims-in_word : (d c : ℕ) (s t : List ℕ) → skip_delims d t ≡ c ∷ s → in_word d (c ∷ s) ≡ true
skip_delims-in_word d c s [] e = cc e
skip_delims-in_word d c s (b ∷ t) e = elim (Bool-cases (b == d)) [
  | inl f ↦ skip_delims-in_word d c s t (sym (ap (λ x. if x then skip_delims d t else b ∷ t) f) ∙ e)
  | inr f ↦ ground (arith, f, sym (ap (λ x. if x then skip_delims d t else b ∷ t) f) ∙ e)
]

-- How a call of `strtok` moves on: no word is left, or the first one is handed out, and a shorter
-- string with the others is left.
pub data StrtokView : ℕ → List ℕ → Type 0 where
  no_word : {d : ℕ} {s : List ℕ} → strtok d s ≡ none → words d s ≡ [] → StrtokView d s
  word :
      {d : ℕ} {s : List ℕ}
      → (w rest : List ℕ) → strtok d s ≡ some (w, rest)
      → words d s ≡ w ∷ words d rest
      → length rest < length s
      → StrtokView d s

after_length :
    (d c : ℕ) (s : List ℕ)
    → in_word d (c ∷ s) ≡ true
    → length (after_token d (c ∷ s)) < length (c ∷ s)
after_length d c s inside = ground (arith, length-after_token d s)

pub strtok_view : (d : ℕ) (s : List ℕ) → StrtokView d s
unfolding strtok
strtok_view d s = step (skip_delims d s) refl
  where
    step : (t : List ℕ) → skip_delims d s ≡ t → StrtokView d s
    step [] e = no_word (ap (strtok_at d) e) (sym (words-skip_delims d s) ∙ ap (words d) e)
    step (c ∷ t) e =
        let inside = skip_delims-in_word d c t s e in
        word (token_of d (c ∷ t)) (after_token d (c ∷ t)) (ap (strtok_at d) e)
          (sym (words-skip_delims d s) ∙ ap (words d) e ∙ words-token d (c ∷ t) inside)
          (omega (arith, after_length d c t inside, length-skip_delims d s, ap length e))
