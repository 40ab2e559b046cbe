-- ===== src/Strings/Grep.antt =====
-- `grep`: which lines it keeps, and how much room it needs.
use tcpserver_lib.Base.{
  ℕ, zero, suc, ◌+◌, ◌≤◌, ◌<◌, ◌≡◌, refl, sym, ap, ◌∙◌, false, List, [], ◌∷◌, ◌++◌, append_assoc,
  arith, ◌==◌, if◌then◌else◌, length, Bool-cases, inl, inr, take, drop, replicate, splice, memcpy,
  memcpy-ok, take_all, drop_all, length-append, length-replicate, length-take, length-drop,
  length-splice, append-nil, ok, Returns, Returns-bind,
}
use mathlib.Core.Path.{subst}
use tcpserver_lib.Strings.{c_string, clear, copy_buffer, pattern_match, grep_lines, grep}
use tcpserver_lib.Strings.Strtok.{words, extend_first, no_word, word, strtok_view}

-- The lines that match, each with its newline.
abbrev pub kept : List ℕ → List (List ℕ) → List ℕ
kept pattern [] = []
kept pattern (w ∷ ws) =
    let rest = kept pattern ws in
    if pattern_match w (length w) pattern then w ++ (10 ∷ rest) else rest

-- The room for all words and their newlines.
abbrev pub room : List (List ℕ) → ℕ
room [] = 0
room (w ∷ ws) = length w + 1 + room ws

length-kept : (pattern : List ℕ) (ws : List (List ℕ)) → length (kept pattern ws) ≤ room ws
length-kept pattern [] = omega arith
length-kept pattern (w ∷ ws) = elim (Bool-cases (pattern_match w (length w) pattern)) [
  | inl e ↦ rw e (omega (arith, length-append w (10 ∷ kept pattern ws), length-kept pattern ws))
  | inr e ↦ rw e (omega (arith, length-kept pattern ws))
]

room-extend_first :
    (c : ℕ) (ws : List (List ℕ)) (n : ℕ) → room ws ≤ n + 1 → room (extend_first c ws) ≤ n + 2
room-extend_first c [] n h = omega arith
room-extend_first c (w ∷ ws) n h = omega (arith, h)

room-words : (d : ℕ) (s : List ℕ) → room (words d s) ≤ length s + 1
room-words d [] = omega arith
room-words d (c ∷ []) = elim (Bool-cases (c == d)) [
  | inl e ↦ rw e (omega arith)
  | inr e ↦ rw e (omega arith)
]
room-words d (c ∷ b ∷ t) =
    let rest = room-words d (b ∷ t) in
    let after = room-words d t in
    let extended = room-extend_first c (words d (b ∷ t)) (length (b ∷ t)) rest in
    ground (arith, rest, after, extended)

-- The array starts with `out` and a NUL.
abbrev pub Holds : ℕ → List ℕ → ℕ × List ℕ → Type 0
Holds size out (rc, string) =
    (rc ≡ length out) × (length string ≡ size) × (rest : List ℕ) × (string ≡ out ++ (0 ∷ rest))

take_append : (xs ys : List ℕ) → take (length xs) (xs ++ ys) ≡ xs
take_append [] ys = refl
take_append (x ∷ xs) ys = ap (λ t. x ∷ t) (take_append xs ys)

sprintf_lem :
    (size : ℕ) (out w string : List ℕ) (rc : ℕ)
    → Holds size out (rc, string)
    → length out + length w + 2 ≤ size
    → Returns
        (λ string'. Holds size (out ++ (w ++ (10 ∷ []))) (rc + (length w + 1), string'))
        (memcpy string rc (w ++ (10 ∷ 0 ∷ [])) 0 (length w + 2))
sprintf_lem size out w string rc (at, same, rest, starts) fits =
    let src = w ++ (10 ∷ 0 ∷ []) in
    let len : length src ≡ length w + 2 = length-append w (10 ∷ 0 ∷ []) in
    let left = drop (rc + length src) string in
    let copied =
      memcpy-ok string rc src 0 (length w + 2) (omega arith) (omega arith)
      ∙ ap (λ t. ok (splice string rc t)) (take_all (length w + 2) src (omega arith)) in
    let front : take rc string ≡ out =
      ap (λ n. take n string) at ∙ ap (take (length out)) starts ∙ take_append out (0 ∷ rest) in
    let line = out ++ (w ++ (10 ∷ [])) in
    let split : out ++ (src ++ left) ≡ line ++ (0 ∷ left) =
      ap (λ t. out ++ t) (append_assoc w (10 ∷ 0 ∷ []) left)
      ∙ sym (
          append_assoc out (w ++ (10 ∷ [])) (0 ∷ left)
          ∙ ap (λ t. out ++ t) (append_assoc w (10 ∷ []) (0 ∷ left))) in
    subst (Returns (λ string'. Holds size line (rc + (length w + 1), string'))) (sym copied) (
      omega (arith, at, length-append out (w ++ (10 ∷ [])), length-append w (10 ∷ [])),
      length-splice string rc src (omega (arith, at, len)) ∙ same,
      left,
      ap (λ t. t ++ (src ++ left)) front ∙ split,
    )

grep_lines-kept :
    (k : ℕ) (pattern s : List ℕ) (rc : ℕ) (string : List ℕ) (size : ℕ) (out : List ℕ)
    → Holds size out (rc, string)
    → length out + room (words 10 s) + 1 ≤ size
    → length s < k
    → Returns (Holds size (out ++ kept pattern (words 10 s))) (grep_lines k pattern s rc string)
unfolding grep_lines
grep_lines-kept zero pattern s rc string size out holds fits enough = absurd (omega arith)
grep_lines-kept (suc k) pattern s rc string size out holds fits enough = elim (strtok_view 10 s) [
  | no_word at_end empty ↦ rw (grep_lines, at_end, empty, append-nil out) holds
  | word w rest found split less ↦
      let fits' : length out + (length w + 1 + room (words 10 rest)) + 1 ≤ size =
        subst (λ ws. length out + room ws + 1 ≤ size) split fits in
      elim (Bool-cases (pattern_match w (length w) pattern)) [
        | inr e ↦
            rw (grep_lines, found, split, e)
              (grep_lines-kept k pattern rest rc string size out holds (omega (arith, fits'))
                (omega (arith, less, enough)))
        | inl e ↦
            rw (grep_lines, found, split, e)
              (Returns-bind
                (λ string'. Holds size (out ++ (w ++ (10 ∷ []))) (rc + (length w + 1), string')) _
                (memcpy string rc (w ++ (10 ∷ 0 ∷ [])) 0 (length w + 2)) _
                (sprintf_lem size out w string rc holds (omega (arith, fits')))
                (λ string' holds'.
                  let line = out ++ (w ++ (10 ∷ [])) in
                  let len : length line ≡ length out + (length w + 1) =
                    omega (arith, length-append out (w ++ (10 ∷ [])), length-append w (10 ∷ [])) in
                  let join : line ++ kept pattern (words 10 rest)
                      ≡ out ++ (w ++ (10 ∷ kept pattern (words 10 rest))) =
                    append_assoc out (w ++ (10 ∷ [])) (kept pattern (words 10 rest))
                    ∙ ap (λ t. out ++ t)
                        (append_assoc w (10 ∷ []) (kept pattern (words 10 rest))) in
                  subst
                    (λ t.
                      Returns (Holds size t)
                        (grep_lines k pattern rest (rc + (length w + 1)) string'))
                    join
                    (grep_lines-kept k pattern rest (rc + (length w + 1)) string' size line holds'
                      (omega (arith, fits', len)) (omega (arith, less, enough)))))
      ]
]

pub copy_buffer-ok :
    (n : ℕ) (string : List ℕ) → n ≤ length string → copy_buffer n string ≡ ok (take n string)
copy_buffer-ok n string inside =
    let len : length (replicate {A = ℕ} n 0) ≡ n = length-replicate n 0 in
    let len' : length (take n string) ≡ n = omega (arith, length-take n string, inside) in
    memcpy-ok (replicate n 0) 0 string 0 n (omega arith) (omega arith)
    ∙ ap (λ t. ok (take n string ++ t))
        (drop_all (0 + length (take n string)) (replicate n 0) (omega arith))
    ∙ ap ok (append-nil (take n string))

clear-front :
    (n : ℕ) (string : List ℕ)
    → n ≤ length string
    → clear n string ≡ ok (replicate n 0 ++ drop (0 + length (replicate {A = ℕ} n 0)) string)
clear-front n string inside =
    let len : length (replicate {A = ℕ} n 0) ≡ n = length-replicate n 0 in
    memcpy-ok string 0 (replicate n 0) 0 n (omega arith) (omega arith)
    ∙ ap (λ t. ok (t ++ drop (0 + length t) string)) (take_all n (replicate n 0) (omega arith))

-- The first `string_size` bytes of the array (at least one, and no more than it has) hold the string
-- `s` with its NUL, and the array has room for `s`, a newline and a NUL. Then, with fuel for `s`,
-- `grep` succeeds: the array, of the same size, starts with the lines of `s` that match, each with
-- its newline, and a NUL, and the result is their length.
pub grep-kept :
    (k : ℕ) (string s : List ℕ) (string_size : ℕ) (pattern : List ℕ)
    → 0 < string_size
    → string_size ≤ length string
    → c_string (take string_size string) ≡ ok s
    → length s + 2 ≤ length string
    → length s < k
    → Returns
        (Holds (length string) (kept pattern (words 10 s)))
        (grep k string string_size pattern)
unfolding grep
grep-kept k string s zero pattern positive inside terminated fits enough = absurd (omega arith)
grep-kept k string s (suc m) pattern positive inside terminated fits enough =
    let some_bytes : (suc m == 0) ≡ false = ground arith in
    rw some_bytes (
      Returns-bind (λ t. t ≡ take (suc m) string)
        (Holds (length string) (kept pattern (words 10 s))) (copy_buffer (suc m) string) _
        (subst (Returns (λ t. t ≡ take (suc m) string)) (sym (copy_buffer-ok (suc m) string inside))
          refl)
        (λ buffer same.
          Returns-bind (λ string'. Holds (length string) [] (0, string')) _ (clear (suc m) string) _
            (subst (Returns (λ string'. Holds (length string) [] (0, string')))
              (sym (clear-front (suc m) string inside))
              (
                refl,
                omega (
                  arith,
                  length-append (replicate {A = ℕ} (suc m) 0)
                      (drop (0 + length (replicate {A = ℕ} (suc m) 0)) string),
                  length-replicate {A = ℕ} (suc m) 0,
                  length-drop (0 + length (replicate {A = ℕ} (suc m) 0)) string,
                ),
                replicate {A = ℕ} m 0 ++ drop (0 + length (replicate {A = ℕ} (suc m) 0)) string,
                refl,
              ))
            (λ string' holds. rw (ap c_string same ∙ terminated) (
              grep_lines-kept k pattern s 0 string' (length string) [] holds
                (omega (arith, room-words 10 s, fits)) enough))))
