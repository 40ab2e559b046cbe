-- ===== src/CmdTree/Members.antt =====
-- What a look-up finds is one of the children.
use tcpserver_lib.Base.{
  ℕ, zero, suc, Bool, Option, none, some, List, [], ◌∷◌, All, Bool-cases, inl, inr, length, ◌==◌,
}
use tcpserver_lib.CmdTree.{CmdType}
use tcpserver_lib.CmdTree.Match.{
  Children, first, named, begins, every, last_or, is_leaf, meant, meant_by, pointed_at, settled,
}

module _ (Q : Option ℕ → Type 0) where
  abbrev Each : Children → Type 0
  Each = All (λ (p, c). Q (some p))

  last_or-holds :
      (f : CmdType → Bool) (last : Option ℕ) (cs : Children)
      → Each cs
      → Q last
      → Q (last_or f last cs)
  last_or-holds f last [] each is = is
  last_or-holds f last ((p, c) ∷ cs) (here, each) is = elim (Bool-cases (f c.cmd_type)) [
    | inl t ↦ rw t (last_or-holds f (some p) cs each here)
    | inr t ↦ rw t (last_or-holds f last cs each is)
  ]

  first-holds : (f : CmdType → Bool) (cs : Children) → Q none → Each cs → Q (first f cs)
  first-holds f [] is each = is
  first-holds f ((p, c) ∷ cs) is (here, each) = elim (Bool-cases (f c.cmd_type)) [
    | inl t ↦ rw t here
    | inr t ↦ rw t (first-holds f cs is each)
  ]

  every-holds : (f : CmdType → Bool) (cs : Children) → Each cs → All (λ p. Q (some p)) (every f cs)
  every-holds f [] each = tt
  every-holds f ((p, c) ∷ cs) (here, each) = elim (Bool-cases (f c.cmd_type)) [
    | inl t ↦ rw t (here, every-holds f cs each)
    | inr t ↦ rw t (every-holds f cs each)
  ]

  pointed_at-holds :
      (choice : Option ℕ) (ps : List ℕ)
      → Q none
      → All (λ p. Q (some p)) ps
      → Q (pointed_at choice ps)
  pointed_at-holds none ps is all = is
  pointed_at-holds (some i) [] is all = is
  pointed_at-holds (some zero) (p ∷ ps) is (here, all) = here
  pointed_at-holds (some (suc i)) (p ∷ ps) is (here, all) = pointed_at-holds (some i) ps is all

  settled-holds :
      (choice last : Option ℕ) (ps : List ℕ)
      → Q none
      → Q last
      → All (λ p. Q (some p)) ps
      → Q (settled choice last ps)
  settled-holds choice last ps none_is is all = elim (Bool-cases (length ps == 0)) [
    | inl e ↦ rw e is
    | inr e ↦ elim (Bool-cases (length ps == 1)) [
      | inl e' ↦ rw (e, e') (pointed_at-holds (some 0) ps none_is all)
      | inr e' ↦ rw (e, e') (pointed_at-holds choice ps none_is all)
    ]
  ]

  meant_by-holds :
      (choice named last : Option ℕ) (ps : List ℕ)
      → Q named
      → Q (settled choice last ps)
      → Q (meant_by choice named last ps)
  meant_by-holds choice none last ps e e' = e'
  meant_by-holds choice (some p) last ps e e' = e

  -- A property of null and of each child is one of what is found.
  pub meant-holds :
      (choice : Option ℕ) (str : List ℕ) (cs : Children)
      → Q none
      → Each cs
      → Q (meant choice str cs)
  meant-holds choice str cs is each =
      meant_by-holds choice (first (named str) cs) (last_or is_leaf none cs) (every (begins str) cs)
        (first-holds (named str) cs is each)
        (settled-holds choice (last_or is_leaf none cs) (every (begins str) cs) is
          (last_or-holds is_leaf none cs each is) (every-holds (begins str) cs each))
