-- ===== src/Strings/Tests.antt =====
-- Lines of a few characters.
use tcpserver_lib.Base.{
  ℕ, zero, suc, ◌≡◌, ◌≢◌, refl, List, [], ◌∷◌, ok, stop, memory, ◌>>=◌, arith, length, get_or, All,
  replicate,
}
use tcpserver_lib.Strings.{
  init_token_array, tokenizer, string_space_trim, string_fetch_integer, fetch_from, strtok,
  is_number,
}
use tcpserver_lib.Strings.Tokenizer.{IsTable, FitsFrom}
use tcpserver_lib.Strings.Tokenized.{line_words, read_token, tokenizer-overrun, tokenizer-get_token}

-- A blank, ab, a blank, cd, a tab.
abbrev line : List ℕ
line = 32 ∷ 97 ∷ 98 ∷ 32 ∷ 99 ∷ 100 ∷ 9 ∷ []

All-replicate : (n : ℕ) (b : List ℕ) → length b ≡ 64 → All (λ b. length b ≡ 64) (replicate n b)
All-replicate zero b size = tt
All-replicate (suc n) b size = (size, All-replicate n b size)

init_token_array-IsTable : IsTable init_token_array
unfolding init_token_array
init_token_array-IsTable = (refl, All-replicate 16 (replicate {A = ℕ} 64 0) refl)

line-words : line_words 32 line ≡ (97 ∷ 98 ∷ []) ∷ (99 ∷ 100 ∷ []) ∷ []
unfolding string_space_trim
line-words = refl

line-fits : FitsFrom 0 (line_words 32 line)
line-fits = rw line-words (omega arith, (omega arith, (omega arith, tt)))

tokenizer-get_token_example :
    (tokenizer 8 line 32 init_token_array >>= read_token 1) ≡ ok (get_or (line_words 32 line) 1 [])
tokenizer-get_token_example =
    tokenizer-get_token 8 32 line init_token_array 1 init_token_array-IsTable (omega arith)
      line-fits (omega arith) (rw line-words (omega arith)) (rw line-words (omega arith))
      (rw line-words (nonzero 98, (nonzero 99, tt)))
  where
    nonzero : (n : ℕ) → suc n ≢ 0
    nonzero n e = omega (arith, e)

-- 17 words of one letter.
abbrev many : List ℕ
many =
    97 ∷ 32 ∷ 97 ∷ 32 ∷ 97 ∷ 32 ∷ 97 ∷ 32 ∷ 97 ∷ 32 ∷ 97 ∷ 32 ∷ 97 ∷ 32 ∷ 97 ∷ 32 ∷ 97 ∷ 32 ∷ 97
    ∷ 32 ∷ 97 ∷ 32 ∷ 97 ∷ 32 ∷ 97 ∷ 32 ∷ 97 ∷ 32 ∷ 97 ∷ 32 ∷ 97 ∷ 32 ∷ 97 ∷ []

many-words : length (line_words 32 many) ≡ 17
unfolding string_space_trim
many-words = refl

tokenizer-overrun_example : tokenizer 40 many 32 init_token_array ≡ stop memory
tokenizer-overrun_example =
    tokenizer-overrun 40 32 many init_token_array init_token_array-IsTable (omega arith)
      (λ f. omega (arith, f.0, many-words)) (omega arith)

-- The lines a and b, a NUL, and two more bytes.
abbrev text : List ℕ
text = 97 ∷ 10 ∷ 98 ∷ 10 ∷ 0 ∷ 7 ∷ 7 ∷ []

-- "x 12 7" and its NUL.
abbrev figures : List ℕ
figures = 120 ∷ 32 ∷ 49 ∷ 50 ∷ 32 ∷ 55 ∷ 0 ∷ []

figures_second : string_fetch_integer 9 figures 7 2 ≡ ok 7
unfolding string_fetch_integer fetch_from strtok is_number
figures_second = refl
