-- ===== src/Strings/Trim.antt =====
-- `string_space_trim`: what it takes away, and what it leaves.
use tcpserver_lib.Base.{
  ℕ, zero, suc, ◌-◌, ◌≤◌, ◌<◌, ◌≡◌, refl, sym, ap, ◌∙◌, Bool, true, false, not, ◌&&◌, List, [], ◌∷◌,
  ◌++◌, arith, if◌then◌else◌, length, Bool-cases, inl, inr, All, get_or, take, drop,
  take-append-drop, append_assoc, append-nil, length-take, drop_all,
}
use mathlib.Core.Path.{subst}
use tcpserver_lib.Strings.{isspace, trim_end, trim_start, string_space_trim}

-- The first and the last character, if there is one, are no spaces.
abbrev pub IsTight : List ℕ → Type 0
IsTight [] = Unit
IsTight (c ∷ s) = (isspace c ≡ false) × (isspace (get_or (c ∷ s) (length s) 0) ≡ false)

-- `t` is `s` without the spaces at its ends.
abbrev pub Trimmed : List ℕ → List ℕ → Type 0
Trimmed s t =
    (a : List ℕ) × (b : List ℕ) × (s ≡ a ++ (t ++ b))
    × All (λ c. isspace c ≡ true) a
    × All (λ c. isspace c ≡ true) b
    × IsTight t

-- The end of a string from a place on.
spaces_from :
    (n : ℕ) (s : List ℕ)
    → n < length s
    → isspace (get_or s n 0) ≡ true
    → All (λ c. isspace c ≡ true) (drop (suc n) s)
    → All (λ c. isspace c ≡ true) (drop n s)
spaces_from n [] bound e all = absurd (omega arith)
spaces_from zero (c ∷ s) bound e all = (e, all)
spaces_from (suc n) (c ∷ s) bound e all = spaces_from n s (omega arith) e all

-- What the loop from the end leaves: a string, then spaces, and the string has one character or ends
-- with no space.
trim_end_lem :
    (n : ℕ) (s : List ℕ)
    → suc n ≤ length s
    → All (λ c. isspace c ≡ true) (drop (suc n) s)
    → (m : ℕ) × (trim_end (suc n) s ≡ suc m)
      × (m ≤ n)
      × All (λ c. isspace c ≡ true) (drop (suc m) s)
      × ((m ≡ 0 → ⊥) → isspace (get_or s m 0) ≡ false)
trim_end_lem zero s bound all = (0, refl, omega arith, all, λ f. absurd (f refl))
trim_end_lem (suc n) s bound all = elim (Bool-cases (isspace (get_or s (suc n) 0))) [
  | inl e ↦
      let (m, end, below, all', tight) =
        trim_end_lem n s (omega arith) (spaces_from (suc n) s (omega arith) e all) in
      rw e (m, end, omega (arith, below), all', tight)
  | inr e ↦ rw e (suc n, refl, omega arith, all, λ f. e)
]

get_or-take : (n m : ℕ) (s : List ℕ) → n < m → get_or (take m s) n 0 ≡ get_or s n 0
get_or-take n zero s h = absurd (omega arith)
get_or-take n (suc m) [] h = refl
get_or-take zero (suc m) (c ∷ s) h = refl
get_or-take (suc n) (suc m) (c ∷ s) h = get_or-take n m s (omega arith)

-- What the loop from the start leaves of a string that ends with no space, or has one character.
trim_start_lem :
    (c : ℕ) (s : List ℕ)
    → ((length s ≡ 0 → ⊥) → isspace (get_or (c ∷ s) (length s) 0) ≡ false)
    → (a : List ℕ) × (c ∷ s ≡ a ++ trim_start (c ∷ s))
      × All (λ c. isspace c ≡ true) a
      × IsTight (trim_start (c ∷ s))
trim_start_lem c [] tight = elim (Bool-cases (isspace c)) [
  | inl e ↦ rw e (c ∷ [], refl, (e, tt), tt)
  | inr e ↦ rw e ([], refl, tt, (e, e))
]
trim_start_lem c (d ∷ s) tight =
    let last = tight (λ z. absurd (omega (arith, z))) in
    elim (Bool-cases (isspace c)) [
      | inl e ↦
          let (a, split, all, rest) = trim_start_lem d s (λ _. last) in
          rw e (c ∷ a, ap (λ t. c ∷ t) split, (e, all), rest)
      | inr e ↦ rw e ([], refl, tt, (e, last))
    ]

Trimmed-ends :
    (c : ℕ) (s : List ℕ)
    → Trimmed (c ∷ s) (trim_start (take (trim_end (suc (length s)) (c ∷ s)) (c ∷ s)))
Trimmed-ends c s =
    let (m, end, below, all, tight) = trim_end_lem (length s) (c ∷ s) (omega arith) (
      subst (All (λ c. isspace c ≡ true)) (sym (drop_all (suc (length s)) (c ∷ s) (omega arith)))
        tt) in
    let kept = take m s in
    let len : length kept ≡ m = omega (arith, length-take m s, below) in
    let (a, split, front, rest) = trim_start_lem c kept (λ f.
      ap isspace (ap (λ k. get_or (c ∷ kept) k 0) len ∙ get_or-take m (suc m) (c ∷ s) (omega arith))
      ∙ tight (λ z. f (omega (arith, z, len)))) in
    rw end (
      a,
      drop m s,
      sym (take-append-drop (suc m) (c ∷ s))
          ∙ ap (λ t. t ++ drop m s) split
          ∙ append_assoc a (trim_start (c ∷ kept)) (drop m s),
      front,
      all,
      rest,
    )

-- `string_space_trim` takes the spaces at both ends of a string away, and nothing else.
pub string_space_trim-Trimmed : (s : List ℕ) → Trimmed s (string_space_trim s)
unfolding string_space_trim
string_space_trim-Trimmed [] = ([], [], refl, tt, tt, tt)
string_space_trim-Trimmed (c ∷ s) =
    let e : suc (length s) - 1 ≡ length s = omega arith in
    rw e (tests (isspace c) (isspace (get_or (c ∷ s) (length s) 0)) refl refl)
  where
    tests :
        (first last : Bool)
        → isspace c ≡ first
        → isspace (get_or (c ∷ s) (length s) 0) ≡ last
        → Trimmed (c ∷ s) (
            if not first && not last
            then c ∷ s
            else trim_start (take (trim_end (suc (length s)) (c ∷ s)) (c ∷ s)))
    tests false false e f = ([], [], sym (append-nil (c ∷ s)), tt, tt, (e, f))
    tests false true e f = Trimmed-ends c s
    tests true last e f = Trimmed-ends c s
