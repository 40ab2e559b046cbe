-- ===== src/Glthread/Priority.antt =====
-- `glthread_priority_insert`: where the new node goes, and that a sorted list stays sorted.
use tcpserver_lib.Base.{
  ℕ, zero, suc, ◌≤◌, ◌≡◌, refl, sym, ◌∙◌, ap, Bool, true, false, Option, none, some, List, [], ◌∷◌,
  ◌++◌, arith, if◌then◌else◌, ok, Returns, Returns-mono, ◌>>=◌, deref, length, Bool-cases, inl, inr,
}
use mathlib.Core.Path.{subst}
use tcpserver_lib.Glthread.{
  Glthread, Nodes, put, is_list_empty, init_glthread, place_from, insert_among, glthread_add_next,
  glthread_priority_insert,
}
use tcpserver_lib.Glthread.Chain.{
  has, head_of, Chain, Chain-node, frame, ne_of_has, set_left-ok, set_right-ok,
}
use tcpserver_lib.Glthread.Insert.{last_of, Linked, glthread_add_next-Linked}
use tcpserver_lib.Glthread.Iterate.{last_or, or_else-last_or}
use tcpserver_lib.Glthread.Remove.{loose}

module _ (before : ℕ → ℕ → Bool) where
  -- The nodes up to the first that comes behind the new one, and the nodes from there.
  abbrev pub front : ℕ → List ℕ → List ℕ
  front new [] = []
  front new (x ∷ xs) = let rest = front new xs in if before new x then [] else (x ∷ rest)

  abbrev pub back : ℕ → List ℕ → List ℕ
  back new [] = []
  back new (x ∷ xs) = let rest = back new xs in if before new x then x ∷ xs else rest

  pub front-back : (new : ℕ) (xs : List ℕ) → front new xs ++ back new xs ≡ xs
  front-back new [] = refl
  front-back new (x ∷ xs) = ground (arith, front-back new xs)

  -- No node comes before the one to its left.
  abbrev pub IsSorted : List ℕ → Type 0
  IsSorted [] = Unit
  IsSorted (x ∷ []) = Unit
  IsSorted (x ∷ y ∷ xs) = (before y x ≡ false) × IsSorted (y ∷ xs)

  place_from-front :
      (h : Nodes) (l : Option ℕ) (p : ℕ) (xs : List ℕ) (k new : ℕ) (prev : Option ℕ)
      → Chain h l p xs
      → length xs ≤ k
      → place_from before k new (head_of xs) prev h ≡ ok (last_or prev (front new xs))
  unfolding place_from
  place_from-front h l p [] k new prev c enough = refl
  place_from-front h l p (x ∷ xs) zero new prev c enough = absurd (omega arith)
  place_from-front h l p (x ∷ xs) (suc k) new prev c enough = elim (Bool-cases (before new x)) [
    | inl stop_here ↦ rw (Chain-node h (some p) x xs c.2, stop_here) refl
    | inr on ↦
        rw (Chain-node h (some p) x xs c.2, on)
          (place_from-front h (some p) x xs k new (some x) c.2 (omega arith))
  ]

  module _ (asym : (a b : ℕ) → before a b ≡ true → before b a ≡ false) where
    IsSorted-behind :
        (new x : ℕ) (xs : List ℕ)
        → IsSorted (x ∷ xs)
        → before new x ≡ false
        → IsSorted (x ∷ (front new xs ++ (new ∷ back new xs)))
    IsSorted-behind new x [] sorted later = (later, tt)
    IsSorted-behind new x (y ∷ xs) sorted later = elim (Bool-cases (before new y)) [
      | inl e ↦ rw e (later, (asym new y e, sorted.1))
      | inr e ↦ rw e (sorted.0, IsSorted-behind new y xs sorted.1 e)
    ]

    pub IsSorted-front-back :
        (new : ℕ) (xs : List ℕ) → IsSorted xs → IsSorted (front new xs ++ (new ∷ back new xs))
    IsSorted-front-back new [] sorted = tt
    IsSorted-front-back new (x ∷ xs) sorted = elim (Bool-cases (before new x)) [
      | inl e ↦ rw e (asym new x e, sorted)
      | inr e ↦ rw e (IsSorted-behind new x xs sorted e)
    ]

  -- Where the node goes by the tests on the list.
  insert_among-front :
      (h : Nodes) (l : Option ℕ) (head x : ℕ) (xs : List ℕ) (k new : ℕ)
      → Chain h l head (x ∷ xs)
      → length (x ∷ xs) ≤ k
      → insert_among before k head (some x) new h
        ≡ glthread_add_next (last_of head (front new (x ∷ xs))) new h
  insert_among-front h l head x [] k new c enough = elim (Bool-cases (before new x)) [
    | inl e ↦ rw (c.2, e) refl
    | inr e ↦ rw (c.2, e) refl
  ]
  insert_among-front h l head x (y ∷ xs) k new c enough =
      rw
        (
          c.2.0,
          place_from-front h l head (x ∷ y ∷ xs) k new none c enough,
          or_else-last_or none head (front new (x ∷ y ∷ xs)),
        )
        refl

  insert_into :
      (h : Nodes) (head : ℕ) (xs : List ℕ) (new k : ℕ)
      → Chain h none head xs
      → has new (head ∷ xs) ≡ false
      → h new ≡ some loose
      → length xs ≤ k
      → Returns (Linked h none head (front new xs) new (back new xs)) (
          deref (h head) >>= λ g.
          if is_list_empty g
          then glthread_add_next head new h
          else insert_among before k head g.right new h)
  insert_into h head [] new k c apart free enough =
      rw c (glthread_add_next-Linked h none none head [] [] new c apart free)
  insert_into h head (x ∷ xs) new k c apart free enough =
      let whole = front-back new (x ∷ xs) in
      rw (c.0, insert_among-front h none head x xs k new c enough)
        (glthread_add_next-Linked h none none head (front new (x ∷ xs)) (back new (x ∷ xs)) new
          (subst (Chain h none head) (sym whole) c) (ap (λ t. has new (head ∷ t)) whole ∙ apart)
          free)

  pub glthread_priority_insert-Linked :
      (h : Nodes) (head : ℕ) (xs : List ℕ) (new k : ℕ) (g : Glthread)
      → Chain h none head xs
      → has new (head ∷ xs) ≡ false
      → h new ≡ some g
      → length xs ≤ k
      → Returns
          (Linked h none head (front new xs) new (back new xs))
          (glthread_priority_insert before k head new h)
  unfolding glthread_priority_insert init_glthread
  glthread_priority_insert-Linked h head xs new k g c apart free enough =
      let g1 : Glthread = record g { left = none } in
      let h1 : Nodes = put h new g1 in
      let h2 : Nodes = put h1 new loose in
      let e1 = set_left-ok h new none g free in
      let e2 = set_right-ok h1 new none g1 (ground arith) in
      let frame_h2 : Chain h2 none head xs =
        frame h h2 none head xs c
          (λ q inside. ground (arith, ne_of_has q new (head ∷ xs) inside apart)) in
      rw (e1, e2)
        (Returns-mono (Linked h2 none head (front new xs) new (back new xs)) _ _
          (insert_into h2 head xs new k frame_h2 apart (ground arith) enough)
          (λ h3 (chain, same). (chain, λ q out. same q out ∙ ground (arith, out))))

  -- The list after an insertion: the new node at its place, and sorted.
  abbrev pub Inserted : ℕ → List ℕ → ℕ → Nodes → Type 0
  Inserted head xs new h' =
      Chain h' none head (front new xs ++ (new ∷ back new xs))
      × IsSorted (front new xs ++ (new ∷ back new xs))

  -- The head's list is the nodes `xs`, sorted by a comparison that holds in one direction only, and
  -- a further node exists that is not in it. With fuel for the length of the list,
  -- `glthread_priority_insert` succeeds, whatever the node's links were: the list has the new node
  -- behind the nodes that it does not come before, up to the first that it does, keeps the others in
  -- their order, and is sorted.
  pub glthread_priority_insert-Inserted :
      (h : Nodes) (head : ℕ) (xs : List ℕ) (new k : ℕ) (g : Glthread)
      → ((a b : ℕ) → before a b ≡ true → before b a ≡ false)
      → Chain h none head xs
      → IsSorted xs
      → has new (head ∷ xs) ≡ false
      → h new ≡ some g
      → length xs ≤ k
      → Returns (Inserted head xs new) (glthread_priority_insert before k head new h)
  glthread_priority_insert-Inserted h head xs new k g asym c sorted apart free enough =
      Returns-mono _ _ (glthread_priority_insert before k head new h)
        (glthread_priority_insert-Linked h head xs new k g c apart free enough)
        (λ h' (chain, same). (chain, IsSorted-front-back asym new xs sorted))
