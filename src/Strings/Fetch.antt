-- ===== src/Strings/Fetch.antt =====
-- `string_fetch_integer`: which number it finds.
use tcpserver_lib.Base.{
  ℕ, zero, suc, ◌+◌, ◌≤◌, ◌<◌, ◌≡◌, refl, ap, ◌∙◌, true, false, List, [], ◌∷◌, arith, ◌==◌,
  if◌then◌else◌, length, Bool-cases, inl, inr, take, Outcome, ok, ◌>>=◌,
}
use tcpserver_lib.Strings.{c_string, is_number, atoi, fetch_from, string_fetch_integer}
use tcpserver_lib.Strings.Strtok.{words, no_word, word, strtok_view}
use tcpserver_lib.Strings.Grep.{copy_buffer-ok}

-- The words that are made of digits.
abbrev pub numbers : List (List ℕ) → List (List ℕ)
numbers [] = []
numbers (w ∷ ws) = let rest = numbers ws in if is_number w then w ∷ rest else rest

-- The number at an index, counted from 0, and 0 where there is none.
abbrev pub number_at : List (List ℕ) → ℕ → Outcome ℕ
number_at [] n = ok 0
number_at (w ∷ ws) zero = atoi w
number_at (w ∷ ws) (suc n) = number_at ws n

fetch_from-number_at :
    (k : ℕ) (s : List ℕ) (count n : ℕ)
    → length s < k
    → fetch_from k s count (suc (count + n)) ≡ number_at (numbers (words 32 s)) n
unfolding fetch_from
fetch_from-number_at zero s count n enough = absurd (omega arith)
fetch_from-number_at (suc k) s count zero enough = elim (strtok_view 32 s) [
  | no_word at_end empty ↦ rw (fetch_from, at_end, empty) refl
  | word w rest found split less ↦ elim (Bool-cases (is_number w)) [
    | inr e ↦
        rw (fetch_from, found, split, e)
          (fetch_from-number_at k rest count zero (omega (arith, less, enough)))
    | inl e ↦
        let here : (suc (count + 0) == suc count) ≡ true = ground arith in
        rw (fetch_from, found, split, e) (rw here refl)
  ]
]
fetch_from-number_at (suc k) s count (suc n) enough = elim (strtok_view 32 s) [
  | no_word at_end empty ↦ rw (fetch_from, at_end, empty) refl
  | word w rest found split less ↦ elim (Bool-cases (is_number w)) [
    | inr e ↦
        rw (fetch_from, found, split, e)
          (fetch_from-number_at k rest count (suc n) (omega (arith, less, enough)))
    | inl e ↦
        let later : (suc (count + suc n) == suc count) ≡ false = ground arith in
        let moved : suc (count + suc n) ≡ suc (suc count + n) = omega arith in
        rw (fetch_from, found, split, e)
          (rw later (
            ap (fetch_from k rest (suc count)) moved
            ∙ fetch_from-number_at k rest (suc count) n (omega (arith, less, enough))))
  ]
]

-- The first `string_size` bytes of the array (at least one, and no more than it has) hold the string
-- `s` with its NUL. Then, with fuel for `s`, `string_fetch_integer` at the index n + 1 comes to what
-- `atoi` makes of the word at n of those words of `s` that are made of digits, and gives 0 if there
-- is none.
pub string_fetch_integer-number_at :
    (k : ℕ) (string s : List ℕ) (string_size n : ℕ)
    → 0 < string_size
    → string_size ≤ length string
    → c_string (take string_size string) ≡ ok s
    → length s < k
    → string_fetch_integer k string string_size (suc n) ≡ number_at (numbers (words 32 s)) n
unfolding string_fetch_integer
string_fetch_integer-number_at k string s zero n positive inside terminated enough =
    absurd (omega arith)
string_fetch_integer-number_at k string s (suc m) n positive inside terminated enough =
    let some_bytes : (suc m == 0) ≡ false = ground arith in
    rw some_bytes (
      ap (λ r. r >>= λ t. c_string t >>= λ s'. fetch_from k s' 0 (suc n))
        (copy_buffer-ok (suc m) string inside)
      ∙ ap (λ r. r >>= λ s'. fetch_from k s' 0 (suc n)) terminated
      ∙ ap (fetch_from k s 0) from_zero
      ∙ fetch_from-number_at k s 0 n enough)
  where
    from_zero : suc n ≡ suc (0 + n)
    from_zero = omega arith
