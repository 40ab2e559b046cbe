-- ===== src/Strings/Tokenizer.antt =====
-- `tokenizer` and the array of tokens.
use tcpserver_lib.Base.{
  ℕ, zero, suc, ◌+◌, ◌-◌, ◌≤◌, ◌<◌, ◌≡◌, refl, sym, ap, ◌∙◌, false, none, some, List, [], ◌∷◌, ◌++◌,
  arith, ◌==◌, ==_iff, length, Bool-cases, inl, inr, All, get_elem?, take, drop, replicate, memcpy,
  memcpy-ok, take_all, drop_all, length-replicate, append-nil, ok, stop, memory, leb, length-append,
}
use mathlib.Core.Path.{subst}
use tcpserver_lib.Strings.{Tokens, set_entry, clear, strncpy, untokenize, put_token, more_tokens}
use tcpserver_lib.Strings.Strtok.{words, no_word, word, strtok_view}

-- The array of the size that `init_token_array` gives it.
abbrev pub IsTable : Tokens → Type 0
IsTable tokens = (length tokens ≡ 16) × All (λ b. length b ≡ 64) tokens

-- A token in its array, which is zero behind it.
abbrev pub holder : List ℕ → List ℕ
holder w = w ++ replicate (64 - length w) 0

-- The array with these tokens from an entry on.
abbrev pub set_entries : ℕ → List (List ℕ) → Tokens → Tokens
set_entries i [] tokens = tokens
set_entries i (w ∷ ws) tokens = set_entries (suc i) ws (set_entry i (holder w) tokens)

pub length-set_entry :
    (i : ℕ) (b : List ℕ) (tokens : Tokens) → length (set_entry i b tokens) ≡ length tokens
length-set_entry i b [] = refl
length-set_entry zero b (x ∷ xs) = refl
length-set_entry (suc i) b (x ∷ xs) = ap suc (length-set_entry i b xs)

All-set_entry :
    (P : List ℕ → Type 0) (i : ℕ) (b : List ℕ) (tokens : Tokens)
    → P b
    → All P tokens
    → All P (set_entry i b tokens)
All-set_entry P i b [] p all = tt
All-set_entry P zero b (x ∷ xs) p all = (p, all.1)
All-set_entry P (suc i) b (x ∷ xs) p all = (all.0, All-set_entry P i b xs p all.1)

pub set_entry-IsTable :
    (i : ℕ) (b : List ℕ) (tokens : Tokens)
    → length b ≡ 64
    → IsTable tokens
    → IsTable (set_entry i b tokens)
set_entry-IsTable i b tokens size (count, all) =
    (length-set_entry i b tokens ∙ count, All-set_entry (λ b. length b ≡ 64) i b tokens size all)

get-entry :
    (P : List ℕ → Type 0) (i : ℕ) (tokens : Tokens)
    → i < length tokens
    → All P tokens
    → (b : List ℕ) × (get_elem? tokens i ≡ some b) × P b
get-entry P i [] h all = absurd (omega arith)
get-entry P zero (x ∷ xs) h all = (x, refl, all.0)
get-entry P (suc i) (x ∷ xs) h all = get-entry P i xs (omega arith) all.1

pub get-set_entry :
    (i : ℕ) (b : List ℕ) (tokens : Tokens)
    → i < length tokens
    → get_elem? (set_entry i b tokens) i ≡ some b
get-set_entry i b [] h = absurd (omega arith)
get-set_entry zero b (x ∷ xs) h = refl
get-set_entry (suc i) b (x ∷ xs) h = get-set_entry i b xs (omega arith)

set-set_entry :
    (i : ℕ) (a b : List ℕ) (tokens : Tokens)
    → set_entry i b (set_entry i a tokens) ≡ set_entry i b tokens
set-set_entry i a b [] = refl
set-set_entry zero a b (x ∷ xs) = refl
set-set_entry (suc i) a b (x ∷ xs) = ap (λ t. x ∷ t) (set-set_entry i a b xs)

no-entry : (i : ℕ) (tokens : Tokens) → length tokens ≤ i → get_elem? tokens i ≡ none
no-entry i [] h = refl
no-entry zero (x ∷ xs) h = absurd (omega arith)
no-entry (suc i) (x ∷ xs) h = no-entry i xs (omega arith)

-- What the two copies into an entry leave.
clear_lem : (n : ℕ) (b : List ℕ) → length b ≡ n → clear n b ≡ ok (replicate {A = ℕ} n 0)
clear_lem n b size =
    let len : length (replicate {A = ℕ} n 0) ≡ n = length-replicate {A = ℕ} n 0 in
    memcpy-ok b 0 (replicate {A = ℕ} n 0) 0 n (omega arith) (omega (arith, len))
    ∙ ap ok (
        ap (λ t. t ++ drop (0 + length t) b)
          (take_all n (replicate {A = ℕ} n 0) (omega (arith, len)))
        ∙ ap (λ t. replicate {A = ℕ} n 0 ++ t)
            (drop_all (0 + length (replicate {A = ℕ} n 0)) b (omega (arith, len)))
        ∙ append-nil (replicate {A = ℕ} n 0))

clear-ok : (b : List ℕ) → length b ≡ 64 → clear 64 b ≡ ok (replicate 64 0)
clear-ok = clear_lem 64

drop-replicate : (n k : ℕ) → drop n (replicate {A = ℕ} k 0) ≡ replicate (k - n) 0
drop-replicate zero k = ap (λ j. replicate {A = ℕ} j 0) (omega arith)
drop-replicate (suc n) zero =
    let none_left : zero ≡ zero - suc n = omega arith in ap (λ j. replicate {A = ℕ} j 0) none_left
drop-replicate (suc n) (suc k) =
    let fewer : k - n ≡ suc k - suc n = omega arith in
    drop-replicate n k ∙ ap (λ j. replicate {A = ℕ} j 0) fewer

strncpy_lem :
    (w b : List ℕ) → length w ≤ length b → strncpy b w (length w) ≡ ok (w ++ drop (0 + length w) b)
strncpy_lem w b fits =
    let none_left : length w - length w ≡ 0 = omega arith in
    let source : take (length w) w ++ replicate (length w - length w) 0 ≡ w =
      ap (λ t. t ++ replicate (length w - length w) 0) (take_all (length w) w (omega arith))
      ∙ ap (λ k. w ++ replicate {A = ℕ} k 0) none_left
      ∙ append-nil w in
    ap (λ t. memcpy b 0 t 0 (length w)) source
    ∙ memcpy-ok b 0 w 0 (length w) (omega arith) (omega arith)
    ∙ ap (λ t. ok (t ++ drop (0 + length t) b)) (take_all (length w) w (omega arith))

strncpy-ok : (w : List ℕ) → length w ≤ 64 → strncpy (replicate 64 0) w (length w) ≡ ok (holder w)
strncpy-ok w fits =
    strncpy_lem w (replicate 64 0) fits
    ∙ ap (λ t. ok (w ++ t))
        (drop-replicate (0 + length w) 64 ∙ ap (λ k. replicate {A = ℕ} k 0) (omega arith))

pub put_token-ok :
    (i : ℕ) (w : List ℕ) (tokens : Tokens)
    → IsTable tokens
    → i < 16
    → length w ≤ 64
    → put_token i w tokens ≡ ok (set_entry i (holder w) tokens)
unfolding put_token untokenize
put_token-ok i w tokens table bound fits =
    let (b, at, size) = get-entry (λ b. length b ≡ 64) i tokens (omega (arith, table.0)) table.1 in
    rw
      (
        at,
        clear-ok b size,
        get-set_entry i (replicate 64 0) tokens (omega (arith, table.0)),
        strncpy-ok w fits,
      )
      (ap ok (set-set_entry i (replicate 64 0) (holder w) tokens))

-- Behind the end of the array.
put_token-out :
    (i : ℕ) (w : List ℕ) (tokens : Tokens) → length tokens ≤ i → put_token i w tokens ≡ stop memory
unfolding put_token untokenize
put_token-out i w tokens out = rw (no-entry i tokens out) refl

-- A token that does not fit its entry.
pub put_token-long :
    (i : ℕ) (w : List ℕ) (tokens : Tokens)
    → IsTable tokens
    → i < 16
    → 64 < length w
    → put_token i w tokens ≡ stop memory
unfolding put_token untokenize
put_token-long i w tokens table bound long =
    let (b, at, size) = get-entry (λ b. length b ≡ 64) i tokens (omega (arith, table.0)) table.1 in
    let over : leb (0 + length w) 64 ≡ false = ground (arith, long) in
    rw (at, clear-ok b size, get-set_entry i (replicate 64 0) tokens (omega (arith, table.0)), over)
      refl

pub length-holder : (w : List ℕ) → length w ≤ 64 → length (holder w) ≡ 64
length-holder w fits = omega (
  arith,
  length-append w (replicate (64 - length w) 0),
  length-replicate {A = ℕ} (64 - length w) 0,
)

-- The words fit into the entries from `i` on.
abbrev pub FitsFrom : ℕ → List (List ℕ) → Type 0
FitsFrom i ws = (i + length ws ≤ 16) × All (λ w. length w ≤ 64) ws

pub more_tokens-words :
    (k d : ℕ) (s : List ℕ) (i : ℕ) (tokens : Tokens)
    → IsTable tokens
    → FitsFrom i (words d s)
    → length s < k
    → more_tokens k d s i tokens ≡ ok (i + length (words d s), set_entries i (words d s) tokens)
unfolding more_tokens
more_tokens-words zero d s i tokens table fits enough = absurd (omega arith)
more_tokens-words (suc k) d s i tokens table fits enough = elim (strtok_view d s) [
  | no_word at_end empty ↦ rw (more_tokens, at_end, empty) (ap (λ n. ok (n, tokens)) (omega arith))
  | word w rest found split less ↦
      let fits' : FitsFrom i (w ∷ words d rest) = subst (FitsFrom i) split fits in
      let not_last : (suc i == 17) ≡ false = ground (arith, fits'.0) in
      let stored = set_entry-IsTable i (holder w) tokens (length-holder w fits'.1.0) table in
      let later : suc i + length (words d rest) ≡ i + suc (length (words d rest)) = omega arith in
      let rec =
        more_tokens-words k d rest (suc i) (set_entry i (holder w) tokens) stored
          (omega (arith, fits'.0), fits'.1.1) (omega (arith, less, enough)) in
      rw
        (
          more_tokens,
          found,
          split,
          put_token-ok i w tokens table (omega (arith, fits'.0)) fits'.1.0,
          not_last,
        )
        (rec
          ∙ ap (λ n. ok (n, set_entries (suc i) (words d rest) (set_entry i (holder w) tokens)))
              later)
]

pub more_tokens-overrun :
    (k d : ℕ) (s : List ℕ) (i : ℕ) (tokens : Tokens)
    → IsTable tokens
    → i ≤ 16
    → (FitsFrom i (words d s) → ⊥)
    → length s < k
    → more_tokens k d s i tokens ≡ stop memory
unfolding more_tokens
more_tokens-overrun zero d s i tokens table small over enough = absurd (omega arith)
more_tokens-overrun (suc k) d s i tokens table small over enough = elim (strtok_view d s) [
  | no_word at_end empty ↦ absurd (over (subst (FitsFrom i) (sym empty) (omega arith, tt)))
  | word w rest found split less ↦
      rw (more_tokens, found)
        (elim (Bool-cases (i == 16)) [
          | inl last ↦
              rw (put_token-out i w tokens (omega (arith, table.0, (==_iff i 16).0 last))) refl
          | inr more ↦
              let bound : i < 16 = ground (arith, small, more) in
              elim (Bool-cases (leb (length w) 64)) [
                | inr long ↦ rw (put_token-long i w tokens table bound (ground (arith, long))) refl
                | inl short ↦
                    let fit : length w ≤ 64 = ground (arith, short) in
                    let not_last : (suc i == 17) ≡ false = ground (arith, bound) in
                    rw (put_token-ok i w tokens table bound fit, not_last)
                      (more_tokens-overrun k d rest (suc i) (set_entry i (holder w) tokens)
                        (set_entry-IsTable i (holder w) tokens (length-holder w fit) table)
                        (omega arith)
                        (λ f.
                          over (subst (FitsFrom i) (sym split) (omega (arith, f.0), (fit, f.1))))
                        (omega (arith, less, enough)))
              ]
        ])
]
