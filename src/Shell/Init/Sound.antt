-- ===== src/Shell/Init/Sound.antt =====
-- The tree that `init_libcli` makes is one in which every line of words can be looked up.
use tcpserver_lib.Base.{
  ℕ, ◌≡◌, ◌≤◌, refl, sym, true, ◌||◌, Option, none, some, List, [], ◌∷◌, ◌==◌, ==_iff, leb, length,
  All, arith, Bool-cases, inl, inr, Outcome, ok, stop,
}
use mathlib.Core.Path.{subst}
use tcpserver_lib.CmdTree.{Params, Param, root}
use tcpserver_lib.CmdTree.Match.{begins}
use tcpserver_lib.Shell.{Shell}
use tcpserver_lib.Shell.Sound.{Sound}
use tcpserver_lib.Shell.Init.{init_libcli}
use tcpserver_lib.Shell.Init.Names.{Callback}
use tcpserver_lib.Shell.Init.Tested.{
  branch, everywhere, every-length, ends, is_fine, few_begin, tested-Sound, fine_at, all_below,
  NonEmpty,
}

-- Memory before the start.
abbrev pub blank : Shell → Shell
blank s = record s { params = λ p. none; console_name = [] }

abbrev pub result : Shell → Outcome Shell → Shell
result s (ok s') = s'
result s (stop e) = s

abbrev pub started : (Callback → ℕ) → Shell → Shell
started at s = result s (init_libcli at 0 (blank s))

abbrev pub built : (Callback → ℕ) → Shell → Params
built at s = (started at s).params

module _ (at : Callback → ℕ) (s : Shell) where
  beyond : (p : ℕ) → 35 ≤ p → built at s p ≡ none
  unfolding init_libcli
  beyond p far = ground arith

  small :
      all_below 35 (λ p.
        p == root || fine_at (λ c. leb (length (branch (built at s) c.options).0) 9) (built at s p))
      ≡ true
  unfolding init_libcli
  small = refl

  at_root : (x : ℕ) → fine_at (few_begin (built at s) x) (built at s root) ≡ true
  unfolding init_libcli
  at_root x = ground arith

  ending :
      all_below 35 (λ p. fine_at (λ c. ends (branch (built at s) c.options).1) (built at s p))
      ≡ true
  unfolding init_libcli
  ending = refl

  fine : all_below 35 (λ p. fine_at (λ c. is_fine c.cmd_type) (built at s p)) ≡ true
  unfolding init_libcli
  fine = refl

  few : (p x : ℕ) → fine_at (few_begin (built at s) x) (built at s p) ≡ true
  few p x = elim (Bool-cases (p == root)) [
    | inl e ↦
        subst (λ q. fine_at (few_begin (built at s) x) (built at s q) ≡ true)
          (sym ((==_iff p root).0 e)) (at_root x)
    | inr e ↦ not_many (built at s p) (ground (arith, e, below p))
  ]
    where
      below :
          (p : ℕ)
          → (p == root
              || fine_at (λ c. leb (length (branch (built at s) c.options).0) 9) (built at s p))
            ≡ true
      below =
          everywhere 35
            (λ p.
              p == root
              || fine_at (λ c. leb (length (branch (built at s) c.options).0) 9) (built at s p))
            small (λ p far. rw (beyond p far) (ground arith))

      not_many :
          (o : Option Param)
          → fine_at (λ c. leb (length (branch (built at s) c.options).0) 9) o ≡ true
          → fine_at (few_begin (built at s) x) o ≡ true
      not_many none e = refl
      not_many (some c) e =
          ground (arith, e, every-length (begins (x ∷ [])) (branch (built at s) c.options).0)

  -- The tree of `init_libcli` is sound for words.
  pub built-Sound : (tokens : List (List ℕ)) → All NonEmpty tokens → Sound (built at s) tokens
  built-Sound tokens words =
      tested-Sound (built at s) tokens words
        (everywhere 35 (λ p. fine_at (λ c. ends (branch (built at s) c.options).1) (built at s p))
          ending (λ p far. rw (beyond p far) refl))
        few
        (everywhere 35 (λ p. fine_at (λ c. is_fine c.cmd_type) (built at s p)) fine
          (λ p far. rw (beyond p far) refl))
