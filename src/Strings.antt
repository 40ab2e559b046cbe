-- ===== src/Strings.antt =====
-- CommandParser/string_util.c: lines cut into tokens, lines filtered, numbers found. A `char *` that is
-- only read is the list of the characters before its NUL; an array is the list of its bytes.
pub mod Strtok
pub mod Tokenized
pub mod Tokenizer
pub mod Trim
pub mod Fetch
pub mod Grep
mod Tests
use tcpserver_lib.Base.{
  ℕ, zero, suc, ◌+◌, ◌*◌, ◌-◌, ◌^◌, Bool, true, false, not, ◌&&◌, ◌||◌, Option, none, some, List,
  [], ◌∷◌, ◌++◌, Outcome, ok, stop, memory, fuel, assertion, arithmetic, ◌>>=◌, ◌>>◌, deref, assert,
  ◌==◌, ltb, leb, if◌then◌else◌, length, get_elem?, get_or, take, drop, replicate, splice, memcpy,
}

-- `CONS_INPUT_BUFFER_SIZE`, `MAX_CMD_TREE_DEPTH` and `LEAF_VALUE_HOLDER_SIZE`.
abbrev pub cons_input_buffer_size : ℕ
cons_input_buffer_size = 2048

abbrev pub max_cmd_tree_depth : ℕ
max_cmd_tree_depth = 16

abbrev pub leaf_value_holder_size : ℕ
leaf_value_holder_size = 64

-- The array `tokens`, what its entries point to.
abbrev pub Tokens : Type 0
Tokens = List (List ℕ)

-- `isspace`: the blank and the characters 9 to 13.
abbrev pub isspace : ℕ → Bool
isspace c = (c == 32) || (leb 9 c && leb c 13)

-- `strtok` skips delimiters and then takes the characters up to the next one, which it overwrites.
abbrev pub skip_delims : ℕ → List ℕ → List ℕ
skip_delims d [] = []
skip_delims d (c ∷ s) = let rest = skip_delims d s in if c == d then rest else c ∷ s

abbrev pub token_of : ℕ → List ℕ → List ℕ
token_of d [] = []
token_of d (c ∷ s) = let rest = token_of d s in if c == d then [] else c ∷ rest

abbrev pub after_token : ℕ → List ℕ → List ℕ
after_token d [] = []
after_token d (c ∷ s) = let rest = after_token d s in if c == d then s else rest

abbrev pub strtok_at : ℕ → List ℕ → Option (List ℕ × List ℕ)
strtok_at d [] = none
strtok_at d (c ∷ s) = some (token_of d (c ∷ s), after_token d (c ∷ s))

-- The token, and where the next call goes on.
unfoldable pub strtok : ℕ → List ℕ → Option (List ℕ × List ℕ)
strtok d s = strtok_at d (skip_delims d s)

-- The characters of an array up to its first NUL; without one the reading leaves the array.
abbrev pub c_string : List ℕ → Outcome (List ℕ)
c_string [] = stop memory
c_string (c ∷ s) = let rest = c_string s in if c == 0 then ok [] else (do t ← rest; ok (c ∷ t))

-- `memset(dst, 0, n)` and `strncpy(dst, src, n)`.
abbrev pub clear : ℕ → List ℕ → Outcome (List ℕ)
clear n dst = memcpy dst 0 (replicate n 0) 0 n

abbrev pub strncpy : List ℕ → List ℕ → ℕ → Outcome (List ℕ)
strncpy dst src n = memcpy dst 0 (take n src ++ replicate (n - length src) 0) 0 n

-- An array access out of bounds faults.
abbrev pub set_entry : ℕ → List ℕ → Tokens → Tokens
set_entry i b [] = []
set_entry zero b (x ∷ xs) = b ∷ xs
set_entry (suc i) b (x ∷ xs) = x ∷ set_entry i b xs

abbrev pub on_entry : ℕ → (List ℕ → Outcome (List ℕ)) → Tokens → Outcome Tokens
on_entry i f tokens = do b ← deref (get_elem? tokens i); b' ← f b; ok (set_entry i b' tokens)

unfoldable pub init_token_array : Tokens
init_token_array = replicate max_cmd_tree_depth (replicate leaf_value_holder_size 0)

unfoldable pub untokenize : ℕ → Tokens → Outcome Tokens
untokenize index = on_entry index (clear leaf_value_holder_size)

-- `re_init_tokens`, from entry `i` on.
unfoldable pub re_init_tokens : (n i : ℕ) → Tokens → Outcome Tokens
re_init_tokens zero i tokens = ok tokens
re_init_tokens (suc n) i tokens = do tokens ← untokenize i tokens; re_init_tokens n (suc i) tokens

unfoldable pub tokenize : List ℕ → ℕ → ℕ → Tokens → Outcome Tokens
tokenize token size index tokens = do
  assert (not (ltb leaf_value_holder_size size))
  on_entry index (λ b. strncpy b token size) tokens

unfoldable pub get_token : ℕ → Tokens → Outcome (List ℕ)
get_token index tokens = deref (get_elem? tokens index)

-- The loop of `string_space_trim` from the end: the length it comes to.
abbrev pub trim_end : ℕ → List ℕ → ℕ
trim_end zero s = zero
trim_end (suc zero) s = 1
trim_end (suc (suc n)) s =
    let rest = trim_end (suc n) s in if isspace (get_or s (suc n) 0) then rest else suc (suc n)

abbrev pub trim_start : List ℕ → List ℕ
trim_start [] = []
trim_start (c ∷ s) = let rest = trim_start s in if isspace c then rest else c ∷ s

unfoldable pub string_space_trim : List ℕ → List ℕ
string_space_trim [] = []
string_space_trim (c ∷ s) =
    if not (isspace c) && not (isspace (get_or (c ∷ s) (length (c ∷ s) - 1) 0))
    then c ∷ s
    else trim_start (take (trim_end (length (c ∷ s)) (c ∷ s)) (c ∷ s))

-- `untokenize(i)` and the copy of a token of `tokenizer`.
unfoldable pub put_token : ℕ → List ℕ → Tokens → Outcome Tokens
put_token i token tokens = do
  tokens ← untokenize i tokens
  on_entry i (λ b. strncpy b token (length token)) tokens

-- The loop of `tokenizer`: `*token_cnt`, and the array.
unfoldable pub more_tokens : ℕ → ℕ → List ℕ → ℕ → Tokens → Outcome (ℕ × Tokens)
more_tokens zero d s i tokens = stop fuel
more_tokens (suc k) d s i tokens = elim (strtok d s) [
  | none ↦ ok (i, tokens)
  | some (token, rest) ↦ do
    tokens ← put_token i token tokens
    elim (suc i == max_cmd_tree_depth + 1) [
      | true ↦ do tokens ← re_init_tokens max_cmd_tree_depth 0 tokens; ok (0, tokens)
      | false ↦ more_tokens k d rest (suc i) tokens
    ]
]

-- The copy of the line into `a_str`.
abbrev pub copy_line : List ℕ → Outcome (List ℕ)
copy_line line = if ltb (length line) cons_input_buffer_size then ok line else stop memory

-- `tokenizer`: `*token_cnt`, which is 0 wherever it returns NULL, and the array.
unfoldable pub tokenizer : ℕ → List ℕ → ℕ → Tokens → Outcome (ℕ × Tokens)
tokenizer k line d tokens = do a_str ← copy_line line; first (strtok d (string_space_trim a_str))
  where
    first : Option (List ℕ × List ℕ) → Outcome (ℕ × Tokens)
    first none = ok (0, tokens)
    first (some (token, rest)) = do tokens ← put_token 0 token tokens; more_tokens k d rest 1 tokens

-- `strstr(string, pattern)` is not null.
abbrev pub is_prefix : List ℕ → List ℕ → Bool
is_prefix [] s = true
is_prefix (p ∷ ps) [] = false
is_prefix (p ∷ ps) (c ∷ s) = (c == p) && is_prefix ps s

abbrev pub strstr : List ℕ → List ℕ → Bool
strstr [] pattern = is_prefix pattern []
strstr (c ∷ s) pattern = is_prefix pattern (c ∷ s) || strstr s pattern

unfoldable pub pattern_match : List ℕ → ℕ → List ℕ → Bool
pattern_match string string_size pattern = if string_size == 0 then false else strstr string pattern

-- `temp_buff`: the first `string_size` bytes of the array.
abbrev pub copy_buffer : ℕ → List ℕ → Outcome (List ℕ)
copy_buffer string_size string = memcpy (replicate string_size 0) 0 string 0 string_size

-- The loop of `grep`; `sprintf` writes the token, a newline and a NUL.
unfoldable pub grep_lines : ℕ → List ℕ → List ℕ → ℕ → List ℕ → Outcome (ℕ × List ℕ)
grep_lines zero pattern s rc string = stop fuel
grep_lines (suc k) pattern s rc string = elim (strtok 10 s) [
  | none ↦ ok (rc, string)
  | some (token, rest) ↦ elim (pattern_match token (length token) pattern) [
    | true ↦ do
      string ← memcpy string rc (token ++ (10 ∷ 0 ∷ [])) 0 (length token + 2)
      grep_lines k pattern rest (rc + (length token + 1)) string
    | false ↦ grep_lines k pattern rest rc string
  ]
]

unfoldable pub grep : ℕ → List ℕ → ℕ → List ℕ → Outcome (ℕ × List ℕ)
grep k string string_size pattern = if string_size == 0 then ok (0, string) else do
  temp_buff ← copy_buffer string_size string
  string ← clear string_size string
  s ← c_string temp_buff
  grep_lines k pattern s 0 string

abbrev pub is_digit : ℕ → Bool
is_digit c = leb 48 c && leb c 57

unfoldable pub is_number : List ℕ → Bool
is_number [] = true
is_number (c ∷ s) = let rest = is_number s in if is_digit c then rest else false

-- `atoi` of digits; its result is an `int`.
abbrev pub decimal : ℕ → List ℕ → ℕ
decimal n [] = n
decimal n (c ∷ s) = decimal (n * 10 + (c - 48)) s

abbrev pub atoi : List ℕ → Outcome ℕ
atoi s = if ltb (decimal 0 s) (2 ^ 31) then ok (decimal 0 s) else stop arithmetic

unfoldable pub fetch_from : ℕ → List ℕ → ℕ → ℕ → Outcome ℕ
fetch_from zero s count index = stop fuel
fetch_from (suc k) s count index = elim (strtok 32 s) [
  | none ↦ ok 0
  | some (token, rest) ↦ elim (is_number token) [
    | false ↦ fetch_from k rest count index
    | true ↦ elim (index == suc count) [
      | true ↦ atoi token
      | false ↦ fetch_from k rest (suc count) index
    ]
  ]
]

unfoldable pub string_fetch_integer : ℕ → List ℕ → ℕ → ℕ → Outcome ℕ
string_fetch_integer k string string_size index = if string_size == 0 then ok 0 else do
  temp_buff ← copy_buffer string_size string
  s ← c_string temp_buff
  fetch_from k s 0 index
