-- ===== src/Glthread/Remove.antt =====
-- `remove_glthread`, `dequeue_glthread_first` and `delete_glthread_list`: the nodes that stay keep
-- their order, and a node that is taken out has null links again.
use tcpserver_lib.Base.{
  ℕ, zero, suc, ◌≤◌, ◌≡◌, refl, ◌∙◌, true, Option, none, some, List, [], ◌∷◌, ◌++◌, arith, ◌==◌,
  ==_iff, Returns, Returns-bind, Returns-mono, length, Bool-cases, inl, inr,
}
use tcpserver_lib.Glthread.{
  Glthread, Nodes, put, remove_glthread, dequeue_glthread_first, delete_from, delete_glthread_list,
}
use tcpserver_lib.Glthread.Chain.{
  has, head_of, Chain, SameBut, Chain-node, Chain-apart, ne_of_has, relink, has-append, set_left-ok,
  set_right-ok,
}

-- A node with null links.
abbrev pub loose : Glthread
loose = record { left = none; right = none }

abbrev pub Removed : Nodes → Option ℕ → ℕ → List ℕ → ℕ → List ℕ → Nodes → Type 0
Removed h l p ys x zs h' =
    Chain h' l p (ys ++ zs) × (h' x ≡ some loose) × SameBut (p ∷ (ys ++ (x ∷ zs))) h h'

remove_at_end :
    (h : Nodes) (l : Option ℕ) (p x : ℕ)
    → Chain h l p (x ∷ [])
    → Returns (Removed h l p [] x []) (remove_glthread x h)
unfolding remove_glthread
remove_at_end h l p x (at, apart, here) =
    let g1 : Glthread = record { left = l; right = none } in
    let e1 = set_right-ok h p none (record { left = l; right = some x }) at in
    let e2 =
      set_left-ok (put h p g1) x none (record { left = some p; right = none })
        (ground (arith, here)) in
    rw (here, e1, e2) (ground (arith, apart), ground arith, λ q out. ground arith)

remove_between :
    (h : Nodes) (l : Option ℕ) (p x z : ℕ) (zs : List ℕ)
    → Chain h l p (x ∷ z ∷ zs)
    → Returns (Removed h l p [] x (z ∷ zs)) (remove_glthread x h)
unfolding remove_glthread
remove_between h l p x z zs c =
    let g1 : Glthread = record { left = l; right = some z } in
    let z0 : Glthread = record { left = some x; right = head_of zs } in
    let z1 : Glthread = record { left = some p; right = head_of zs } in
    let x0 : Glthread = record { left = some p; right = some z } in
    let x1 : Glthread = record { left = none; right = some z } in
    let at_p = c.0 in
    let at_x = c.2.0 in
    let apart_p = c.1 in
    let apart_x = c.2.1 in
    let at_z = Chain-node h (some x) z zs c.2.2 in
    let h1 : Nodes = put h p g1 in
    let h2 : Nodes = put h1 z z1 in
    let h3 : Nodes = put h2 x x1 in
    let h4 : Nodes = put h3 x loose in
    let e1 = set_right-ok h p (some z) (record { left = l; right = some x }) at_p in
    let e2 = set_left-ok h1 z (some p) z0 (ground (arith, at_z, apart_p)) in
    let e3 = set_left-ok h2 x none x0 (ground (arith, at_x, apart_x, apart_p)) in
    let e4 = set_right-ok h3 x none x1 (ground arith) in
    rw (at_x, e1, e2, e3, e4)
      (
        (
          ground (arith, apart_p, apart_x),
          ground (arith, apart_p),
          relink h h4 (some x) (some p) z zs c.2.2 (ground (arith, apart_p, apart_x)) (λ q inside.
              ground (
                arith,
                ne_of_has q p zs inside (ground (arith, apart_p)),
                ne_of_has q x zs inside (ground (arith, apart_x)),
                ne_of_has q z zs inside (Chain-apart h (some x) z zs c.2.2),
              )),
        ),
        ground arith,
        λ q out. ground arith,
      )

-- `remove_glthread` on a node of a list, at its end or between others, succeeds: the list is the
-- nodes before it and those behind it, the node's links are null, and every node outside the list is
-- as it was.
pub remove_glthread-Removed :
    (h : Nodes) (l : Option ℕ) (p : ℕ) (ys zs : List ℕ) (x : ℕ)
    → Chain h l p (ys ++ (x ∷ zs))
    → Returns (Removed h l p ys x zs) (remove_glthread x h)
remove_glthread-Removed h l p [] [] x c = remove_at_end h l p x c
remove_glthread-Removed h l p [] (z ∷ zs) x c = remove_between h l p x z zs c
remove_glthread-Removed h l p (y ∷ ys) zs x c =
    Returns-mono (Removed h (some p) y ys x zs) _ (remove_glthread x h)
      (remove_glthread-Removed h (some p) y ys zs x c.2)
      (λ h' (chain, free, same). (
        (
          same p c.1 ∙ c.0,
          ground (arith, c.1, has-append p (y ∷ ys) zs, has-append p (y ∷ ys) (x ∷ zs)),
          chain,
        ),
        free,
        λ q out. same q (ground (arith, out)),
      ))

-- What a dequeue hands out and leaves.
abbrev pub Dequeued : Nodes → Option ℕ → ℕ → List ℕ → Option ℕ × Nodes → Type 0
Dequeued h l p [] (r, h') = (r ≡ none) × (h' ≡ h)
Dequeued h l p (x ∷ xs) (r, h') = (r ≡ some x) × Removed h l p [] x xs h'

pub dequeue_glthread_first-Dequeued :
    (h : Nodes) (l : Option ℕ) (p : ℕ) (xs : List ℕ)
    → Chain h l p xs
    → Returns (Dequeued h l p xs) (dequeue_glthread_first p h)
unfolding dequeue_glthread_first
dequeue_glthread_first-Dequeued h l p [] c = rw c (refl, refl)
dequeue_glthread_first-Dequeued h l p (x ∷ xs) c = rw (c.0) (
    Returns-bind (Removed h l p [] x xs) _ (remove_glthread x h) _
      (remove_glthread-Removed h l p [] xs x c) (λ h' r. (refl, r)))

-- All nodes of a list have null links.
abbrev pub AllLoose : Nodes → List ℕ → Type 0
AllLoose h xs = (q : ℕ) → has q xs ≡ true → h q ≡ some loose

-- What the deletion of a list leaves.
abbrev pub Emptied : Nodes → Option ℕ → ℕ → List ℕ → Nodes → Type 0
Emptied h l p xs h' = Chain h' l p [] × AllLoose h' xs × SameBut (p ∷ xs) h h'

delete_from-Emptied :
    (h : Nodes) (l : Option ℕ) (p : ℕ) (xs : List ℕ) (k : ℕ)
    → Chain h l p xs
    → length xs ≤ k
    → Returns (Emptied h l p xs) (delete_from k (head_of xs) h)
unfolding delete_from
delete_from-Emptied h l p [] k c enough = (c, (λ q inside. absurd (cc inside)), λ q out. refl)
delete_from-Emptied h l p (x ∷ xs) zero c enough = absurd (omega arith)
delete_from-Emptied h l p (x ∷ xs) (suc k) c enough = rw (Chain-node h (some p) x xs c.2) (
    Returns-bind (Removed h l p [] x xs) _ (remove_glthread x h) _
      (remove_glthread-Removed h l p [] xs x c)
      (λ h1 (chain, free, same).
        Returns-mono (Emptied h1 l p xs) _ (delete_from k (head_of xs) h1)
          (delete_from-Emptied h1 l p xs k chain (omega arith))
          (λ h2 (done, all, same'). (
            done,
            (λ q inside. elim (Bool-cases (q == x)) [
              | inl e ↦
                  rw ((==_iff q x).0 e)
                    (same' x (ground (arith, c.1, Chain-apart h (some p) x xs c.2)) ∙ free)
              | inr e ↦ all q (ground (arith, inside, e))
            ]),
            λ q out. same' q (ground (arith, out)) ∙ same q out,
          ))))

-- With fuel for the length of the list, `delete_glthread_list` succeeds: the list is empty, the
-- links of all its nodes are null, and every other node is as it was.
pub delete_glthread_list-Emptied :
    (h : Nodes) (l : Option ℕ) (p : ℕ) (xs : List ℕ) (k : ℕ)
    → Chain h l p xs
    → length xs ≤ k
    → Returns (Emptied h l p xs) (delete_glthread_list k p h)
unfolding delete_glthread_list
delete_glthread_list-Emptied h l p xs k c enough =
    rw (Chain-node h l p xs c) (delete_from-Emptied h l p xs k c enough)
