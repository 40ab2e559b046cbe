-- ===== src/Shell/Init/Tested.antt =====
-- Tests of a tree, parameter by parameter, that show it to be sound for words.
use tcpserver_lib.Base.{
  ℕ, zero, suc, ◌≡◌, ◌≤◌, ◌<◌, refl, ap, ◌∙◌, Bool, true, false, ◌&&◌, Option, none, some, List, [],
  ◌∷◌, ◌==◌, leb, ltb, length, All, arith, Bool-cases, inl, inr,
}
use tcpserver_lib.Strings.{leaf_value_holder_size}
use tcpserver_lib.Tlv.{leaf_id_size}
use tcpserver_lib.CmdTree.{Params, Param, CmdType, cmd, leaf, no_cmd}
use tcpserver_lib.CmdTree.Match.{Children, Live, entries, every, begins}
use tcpserver_lib.Shell.Sound.{Sound, IsLeaf, has_handler}

-- The live children in front of the first null entry, and the entries from there on.
-- The live children in front of the first null entry, and the entries from there on.
abbrev onto :
    ℕ → Option Param → Children × List (Option ℕ) → List (Option ℕ) → Children × List (Option ℕ)
onto p none found options = ([], options)
onto p (some c) (cs, tail) options = ((p, c) ∷ cs, tail)

abbrev pub branch : Params → List (Option ℕ) → Children × List (Option ℕ)
branch h [] = ([], [])
branch h (none ∷ rest) = ([], none ∷ rest)
branch h (some p ∷ rest) = onto p (h p) (branch h rest) (some p ∷ rest)

branch-entries :
    (h : Params) (options : List (Option ℕ))
    → options ≡ entries (branch h options).0 (branch h options).1
branch-entries h [] = refl
branch-entries h (none ∷ rest) = refl
branch-entries h (some p ∷ rest) = at_child (h p) (branch-entries h rest)
  where
    at_child :
        (o : Option Param)
        → rest ≡ entries (branch h rest).0 (branch h rest).1
        → some p ∷ rest
          ≡ entries
              (onto p o (branch h rest) (some p ∷ rest)).0
              (onto p o (branch h rest) (some p ∷ rest)).1
    at_child none e = refl
    at_child (some c) e = ap (λ t. some p ∷ t) e

branch-Live : (h : Params) (options : List (Option ℕ)) → Live h (branch h options).0
branch-Live h [] = tt
branch-Live h (none ∷ rest) = tt
branch-Live h (some p ∷ rest) = at_child (h p) refl (branch-Live h rest)
  where
    at_child :
        (o : Option Param)
        → h p ≡ o
        → Live h (branch h rest).0
        → Live h (onto p o (branch h rest) (some p ∷ rest)).0
    at_child none e live = tt
    at_child (some c) e live = (e, live)

abbrev pub fine_at : (Param → Bool) → Option Param → Bool
fine_at f none = true
fine_at f (some c) = f c

abbrev pub all_below : ℕ → (ℕ → Bool) → Bool
all_below zero f = true
all_below (suc n) f = f zero && all_below n (λ p. f (suc p))

pub everywhere :
    (n : ℕ) (f : ℕ → Bool)
    → all_below n f ≡ true
    → ((p : ℕ) → n ≤ p → f p ≡ true)
    → (p : ℕ) → f p ≡ true
everywhere zero f below beyond p = beyond p (omega arith)
everywhere (suc n) f below beyond zero = ground (arith, below)
everywhere (suc n) f below beyond (suc p) =
    let rest : all_below n (λ p. f (suc p)) ≡ true = ground (arith, below) in
    everywhere n (λ p. f (suc p)) rest (λ q e. beyond (suc q) (omega (arith, e))) p

-- How many children a word may stand for.
pub every-length : (f : CmdType → Bool) (cs : Children) → length (every f cs) ≤ length cs
every-length f [] = omega arith
every-length f ((p, c) ∷ cs) = elim (Bool-cases (f c.cmd_type)) [
  | inl e ↦ rw e (omega (arith, every-length f cs))
  | inr e ↦ rw e (omega (arith, every-length f cs))
]

begins-first :
    (x : ℕ) (t : List ℕ) (d : CmdType) → begins (x ∷ t) d ≡ true → begins (x ∷ []) d ≡ true
begins-first x t (cmd []) e = cc
begins-first x t (cmd (c ∷ name)) e = ground (arith, e)
begins-first x t (leaf l) e = cc
begins-first x t (no_cmd []) e = cc
begins-first x t (no_cmd (c ∷ name)) e = ground (arith, e)

every-fewer :
    (x : ℕ) (t : List ℕ) (cs : Children)
    → length (every (begins (x ∷ t)) cs) ≤ length (every (begins (x ∷ [])) cs)
every-fewer x t [] = omega arith
every-fewer x t ((p, c) ∷ cs) = elim (Bool-cases (begins (x ∷ t) c.cmd_type)) [
  | inl e ↦ rw (e, begins-first x t c.cmd_type e) (omega (arith, every-fewer x t cs))
  | inr e ↦ rw e (elim (Bool-cases (begins (x ∷ []) c.cmd_type)) [
    | inl e' ↦ rw e' (omega (arith, every-fewer x t cs))
    | inr e' ↦ rw e' (every-fewer x t cs)
  ])
]

-- What is to be seen in each parameter.
abbrev pub ends : List (Option ℕ) → Bool
ends [] = false
ends (none ∷ rest) = true
ends (some p ∷ rest) = false

ends-none :
    (options : List (Option ℕ))
    → ends options ≡ true
    → (tail : List (Option ℕ)) × (options ≡ none ∷ tail)
ends-none [] e = absurd (cc e)
ends-none (none ∷ rest) e = (rest, refl)
ends-none (some p ∷ rest) e = absurd (cc e)

abbrev pub is_fine : CmdType → Bool
is_fine (cmd name) = true
is_fine (leaf l) =
    has_handler l.leaf_type
    && (length l.value_holder == leaf_value_holder_size && leb (length l.leaf_id) leaf_id_size)
is_fine (no_cmd name) = true

is_fine-IsLeaf : (t : CmdType) → is_fine t ≡ true → IsLeaf t
is_fine-IsLeaf (cmd name) e = tt
is_fine-IsLeaf (leaf l) e = (ground (arith, e), ground (arith, e), ground (arith, e))
is_fine-IsLeaf (no_cmd name) e = tt

abbrev pub NonEmpty : List ℕ → Type 0
NonEmpty t = 0 < length t

module _ (h : Params) where
  abbrev pub few_begin : ℕ → Param → Bool
  few_begin x c = ltb (length (every (begins (x ∷ [])) (branch h c.options).0)) 10

  few-All :
      (c : Param) (tokens : List (List ℕ))
      → ((x : ℕ) → few_begin x c ≡ true)
      → All NonEmpty tokens
      → All (λ t. length (every (begins t) (branch h c.options).0) < 10) tokens
  few-All c [] few words = tt
  few-All c ([] ∷ tokens) few (word, words) = absurd (omega (arith, word))
  few-All c ((x ∷ t) ∷ tokens) few (word, words) =
      let first = few x in
      (ground (arith, first, every-fewer x t (branch h c.options).0), few-All c tokens few words)

  -- A tree that passes these tests is sound.
  pub tested-Sound :
      (tokens : List (List ℕ))
      → All NonEmpty tokens
      → ((p : ℕ) → fine_at (λ c. ends (branch h c.options).1) (h p) ≡ true)
      → ((p x : ℕ) → fine_at (few_begin x) (h p) ≡ true)
      → ((p : ℕ) → fine_at (λ c. is_fine c.cmd_type) (h p) ≡ true)
      → Sound h tokens
  tested-Sound tokens words ending few fine = record {
    options_are = λ p c live.
        let (tail, are) = ends-none (branch h c.options).1 (rw live at (ending p)) in
        (
          (branch h c.options).0,
          tail,
          branch-entries h c.options ∙ ap (entries (branch h c.options).0) are,
          branch-Live h c.options,
          few-All c tokens (λ x. rw live at (few p x)) words,
        );
    leaves_are = λ p c live. is_fine-IsLeaf c.cmd_type (rw live at (fine p));
  }
