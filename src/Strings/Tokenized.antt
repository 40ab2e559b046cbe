-- ===== src/Strings/Tokenized.antt =====
-- `tokenizer` on a whole line, and what `get_token` then returns.
use tcpserver_lib.Base.{
  ℕ, zero, suc, ◌+◌, ◌-◌, ◌≤◌, ◌<◌, ◌≡◌, ◌≢◌, refl, sym, ap, ◌∙◌, true, some, List, [], ◌∷◌, ◌++◌,
  arith, ◌==◌, ==_iff, length, Bool-cases, inl, inr, All, get_elem?, get_or, replicate, Outcome, ok,
  stop, memory, ◌>>=◌, ltb, leb, length-append,
}
use mathlib.Core.Path.{subst}
use tcpserver_lib.Strings.{Tokens, set_entry, c_string, tokenizer, string_space_trim, get_token}
use tcpserver_lib.Strings.Strtok.{words, no_word, word, strtok_view}
use tcpserver_lib.Strings.Trim.{string_space_trim-Trimmed}
use tcpserver_lib.Strings.Tokenizer.{
  IsTable, FitsFrom, holder, set_entries, set_entry-IsTable, put_token-ok, put_token-long,
  length-holder, more_tokens-words, more_tokens-overrun, get-set_entry, length-set_entry,
}

length-trim : (s : List ℕ) → length (string_space_trim s) ≤ length s
length-trim s =
    let (a, b, split, _, _, _) = string_space_trim-Trimmed s in
    omega (
      arith,
      ap length split,
      length-append a (string_space_trim s ++ b),
      length-append (string_space_trim s) b,
    )

-- The words of the line that `tokenizer` cuts.
abbrev pub line_words : ℕ → List ℕ → List (List ℕ)
line_words d line = words d (string_space_trim line)

-- If the line fits the input buffer, and has at most 16 words, each of at most 64 characters, then
-- `tokenizer` succeeds: it counts the words, and puts each into its entry of the array, in order.
pub tokenizer-words :
    (k d : ℕ) (line : List ℕ) (tokens : Tokens)
    → IsTable tokens
    → length line < 2048
    → FitsFrom 0 (line_words d line)
    → length line < k
    → tokenizer k line d tokens
      ≡ ok (length (line_words d line), set_entries 0 (line_words d line) tokens)
unfolding tokenizer
tokenizer-words k d line tokens table short fits enough =
    let s = string_space_trim line in
    let trimmed = length-trim line in
    let in_buffer : ltb (length line) 2048 ≡ true = ground (arith, short) in
    elim (strtok_view d s) [
      | no_word at_end empty ↦ rw (in_buffer, at_end, empty) refl
      | word w rest found split less ↦
          let fits' : FitsFrom 0 (w ∷ words d rest) = subst (FitsFrom 0) split fits in
          let counted : 1 + length (words d rest) ≡ suc (length (words d rest)) = omega arith in
          rw (in_buffer, found, split, put_token-ok 0 w tokens table (omega arith) fits'.1.0)
            (more_tokens-words k d rest 1 (set_entry 0 (holder w) tokens)
                (set_entry-IsTable 0 (holder w) tokens (length-holder w fits'.1.0) table)
                (omega (arith, fits'.0), fits'.1.1) (omega (arith, less, trimmed))
              ∙ ap (λ n. ok (n, set_entries 1 (words d rest) (set_entry 0 (holder w) tokens)))
                  counted)
    ]

-- If the line fits the input buffer but has more than 16 words, or a word of more than 64
-- characters, then `tokenizer` writes outside its arrays.
pub tokenizer-overrun :
    (k d : ℕ) (line : List ℕ) (tokens : Tokens)
    → IsTable tokens
    → length line < 2048
    → (FitsFrom 0 (line_words d line) → ⊥)
    → length line < k
    → tokenizer k line d tokens ≡ stop memory
unfolding tokenizer
tokenizer-overrun k d line tokens table short over enough =
    let s = string_space_trim line in
    let trimmed = length-trim line in
    let in_buffer : ltb (length line) 2048 ≡ true = ground (arith, short) in
    elim (strtok_view d s) [
      | no_word at_end empty ↦ absurd (over (subst (FitsFrom 0) (sym empty) (omega arith, tt)))
      | word w rest found split less ↦
          rw (in_buffer, found)
            (elim (Bool-cases (leb (length w) 64)) [
              | inr long ↦
                  rw (put_token-long 0 w tokens table (omega arith) (ground (arith, long))) refl
              | inl small ↦
                  let fit : length w ≤ 64 = ground (arith, small) in
                  rw (put_token-ok 0 w tokens table (omega arith) fit) (
                    more_tokens-overrun k d rest 1 (set_entry 0 (holder w) tokens)
                      (set_entry-IsTable 0 (holder w) tokens (length-holder w fit) table)
                      (omega arith)
                      (λ f. over (subst (FitsFrom 0) (sym split) (omega (arith, f.0), (fit, f.1))))
                      (omega (arith, less, trimmed)))
            ])
    ]

-- An entry before those that are written.
set_entry-other :
    (i j : ℕ) (b : List ℕ) (tokens : Tokens)
    → j < i
    → get_elem? (set_entry i b tokens) j ≡ get_elem? tokens j
set_entry-other i j b [] h = refl
set_entry-other zero j b (x ∷ xs) h = absurd (omega arith)
set_entry-other (suc i) zero b (x ∷ xs) h = refl
set_entry-other (suc i) (suc j) b (x ∷ xs) h = set_entry-other i j b xs (omega arith)

set_entries-other :
    (i j : ℕ) (ws : List (List ℕ)) (tokens : Tokens)
    → j < i
    → get_elem? (set_entries i ws tokens) j ≡ get_elem? tokens j
set_entries-other i j [] tokens h = refl
set_entries-other i j (w ∷ ws) tokens h =
    set_entries-other (suc i) j ws (set_entry i (holder w) tokens) (omega arith)
    ∙ set_entry-other i j (holder w) tokens h

get-set_entries :
    (i j : ℕ) (ws : List (List ℕ)) (tokens : Tokens)
    → j < length ws
    → i + length ws ≤ length tokens
    → get_elem? (set_entries i ws tokens) (i + j) ≡ some (holder (get_or ws j []))
get-set_entries i j [] tokens h fits = absurd (omega arith)
get-set_entries i zero (w ∷ ws) tokens h fits =
    ap (get_elem? (set_entries (suc i) ws (set_entry i (holder w) tokens))) (omega arith)
    ∙ set_entries-other (suc i) i ws (set_entry i (holder w) tokens) (omega arith)
    ∙ get-set_entry i (holder w) tokens (omega arith)
get-set_entries i (suc j) (w ∷ ws) tokens h fits =
    ap (get_elem? (set_entries (suc i) ws (set_entry i (holder w) tokens))) (omega arith)
    ∙ get-set_entries (suc i) j ws (set_entry i (holder w) tokens) (omega arith)
        (omega (arith, length-set_entry i (holder w) tokens))

-- A string in a longer array that is zero behind it.
c_string-holder :
    (w : List ℕ) (n : ℕ) → All (λ c. c ≢ 0) w → 0 < n → c_string (w ++ replicate n 0) ≡ ok w
c_string-holder [] zero all h = absurd (omega arith)
c_string-holder [] (suc n) all h = refl
c_string-holder (c ∷ w) n (nonzero, all) h = elim (Bool-cases (c == 0)) [
  | inl e ↦ absurd (nonzero ((==_iff c 0).0 e))
  | inr e ↦ rw (e, c_string-holder w n all h) refl
]

-- What a caller reads as the token `j`.
abbrev pub read_token : ℕ → ℕ × Tokens → Outcome (List ℕ)
read_token j (count, tokens) = do b ← get_token j tokens; c_string b

-- If the line fits the input buffer, and has at most 16 words, of which the one at `j` has less than
-- 64 characters and no NUL and the others have at most 64, then after `tokenizer` the string at
-- `get_token(j)` is this word.
pub tokenizer-get_token :
    (k d : ℕ) (line : List ℕ) (tokens : Tokens) (j : ℕ)
    → IsTable tokens
    → length line < 2048
    → FitsFrom 0 (line_words d line)
    → length line < k
    → j < length (line_words d line)
    → length (get_or (line_words d line) j []) < 64
    → All (λ c. c ≢ 0) (get_or (line_words d line) j [])
    → (tokenizer k line d tokens >>= read_token j) ≡ ok (get_or (line_words d line) j [])
unfolding get_token
tokenizer-get_token k d line tokens j table short fits enough bound small nonzero =
    let w = get_or (line_words d line) j [] in
    let index : j ≡ 0 + j = omega arith in
    rw
      (
        tokenizer-words k d line tokens table short fits enough,
        ap (get_elem? (set_entries 0 (line_words d line) tokens)) index
            ∙ get-set_entries 0 j (line_words d line) tokens bound (omega (arith, fits.0, table.0)),
      )
      (c_string-holder w (64 - length w) nonzero (omega (arith, small)))
