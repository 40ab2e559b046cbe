-- ===== src/Glthread/Insert.antt =====
-- `glthread_add_next`, wherever in a list it links the new node.
use tcpserver_lib.Base.{
  ℕ, ◌≡◌, ◌∙◌, true, false, Option, none, some, List, [], ◌∷◌, ◌++◌, arith, ◌==◌, ==_iff, Returns,
  Returns-mono,
}
use tcpserver_lib.Glthread.{Glthread, Nodes, put, glthread_add_next}
use tcpserver_lib.Glthread.Chain.{
  has, head_of, Chain, SameBut, Chain-node, Chain-apart, ne_of_has, relink, has-append, set_left-ok,
  set_right-ok,
}

-- The node at the end of a part of a list.
abbrev pub last_of : ℕ → List ℕ → ℕ
last_of p [] = p
last_of p (y ∷ ys) = last_of y ys

-- What linking a node leaves.
abbrev pub Linked : Nodes → Option ℕ → ℕ → List ℕ → ℕ → List ℕ → Nodes → Type 0
Linked h l p ys new zs h' = Chain h' l p (ys ++ (new ∷ zs)) × SameBut (new ∷ p ∷ (ys ++ zs)) h h'

add_at_end :
    (h : Nodes) (l nl : Option ℕ) (p new : ℕ)
    → h p ≡ some (record { left = l; right = none })
    → (p == new) ≡ false
    → h new ≡ some (record { left = nl; right = none })
    → Returns (Linked h l p [] new []) (glthread_add_next p new h)
unfolding glthread_add_next
add_at_end h l nl p new at apart free =
    let g1 : Glthread = record { left = l; right = some new } in
    let g2 : Glthread = record { left = some p; right = none } in
    let e1 = set_right-ok h p (some new) (record { left = l; right = none }) at in
    let e2 =
      set_left-ok (put h p g1) new (some p) (record { left = nl; right = none })
        (ground (arith, free)) in
    rw (at, e1, e2) ((ground arith, ground arith, ground arith), λ q out. ground arith)

add_between :
    (h : Nodes) (l nl : Option ℕ) (p new z : ℕ) (zs : List ℕ)
    → Chain h l p (z ∷ zs)
    → has new (p ∷ z ∷ zs) ≡ false
    → h new ≡ some (record { left = nl; right = none })
    → Returns (Linked h l p [] new (z ∷ zs)) (glthread_add_next p new h)
unfolding glthread_add_next
add_between h l nl p new z zs c apart free =
    let g1 : Glthread = record { left = l; right = some new } in
    let g2 : Glthread = record { left = some p; right = none } in
    let g3 : Glthread = record { left = some p; right = some z } in
    let z0 : Glthread = record { left = some p; right = head_of zs } in
    let z1 : Glthread = record { left = some new; right = head_of zs } in
    let at_z = Chain-node h (some p) z zs c.2 in
    let h1 : Nodes = put h p g1 in
    let h2 : Nodes = put h1 new g2 in
    let h3 : Nodes = put h2 new g3 in
    let e1 = set_right-ok h p (some new) (record { left = l; right = some z }) c.0 in
    let e2 =
      set_left-ok h1 new (some p) (record { left = nl; right = none }) (ground (arith, free)) in
    let e3 = set_right-ok h2 new (some z) g2 (ground (arith, free)) in
    let e4 = set_left-ok h3 z (some new) z0 (ground (arith, at_z)) in
    let h4 : Nodes = put h3 z z1 in
    rw (c.0, e1, e2, e3, e4)
      (
        (
          ground (arith, c.1),
          ground (arith, c.1),
          (
            ground (arith, c.1),
            ground arith,
            relink h h4 (some p) (some new) z zs c.2 (ground arith) (λ q inside.
                ground
                  (arith, c.1, inside, ==_iff q p, ==_iff q new, ==_iff q z, apart_from q inside)),
          ),
        ),
        λ q out. ground arith,
      )
  where
    apart_from :
        (q : ℕ) → has q zs ≡ true → ((q == p) ≡ false) × ((q == new) ≡ false) × ((q == z) ≡ false)
    apart_from q inside = (
      ne_of_has q p zs inside (ground (arith, c.1)),
      ne_of_has q new zs inside (ground (arith, apart)),
      ne_of_has q z zs inside (Chain-apart h (some p) z zs c.2),
    )

-- Linking a node behind the node that ends the first part of a list puts it between the two parts,
-- and changes no node but those of the list.
pub glthread_add_next-Linked :
    (h : Nodes) (l nl : Option ℕ) (p : ℕ) (ys zs : List ℕ) (new : ℕ)
    → Chain h l p (ys ++ zs)
    → has new (p ∷ (ys ++ zs)) ≡ false
    → h new ≡ some (record { left = nl; right = none })
    → Returns (Linked h l p ys new zs) (glthread_add_next (last_of p ys) new h)
glthread_add_next-Linked h l nl p [] [] new c apart free =
    add_at_end h l nl p new c (ground (arith, apart)) free
glthread_add_next-Linked h l nl p [] (z ∷ zs) new c apart free =
    add_between h l nl p new z zs c apart free
glthread_add_next-Linked h l nl p (y ∷ ys) zs new c apart free =
    Returns-mono (Linked h (some p) y ys new zs) _ (glthread_add_next (last_of y ys) new h)
      (glthread_add_next-Linked h (some p) nl y ys zs new c.2 (ground (arith, apart)) free)
      (λ h' (chain, same). (
        (
          same p (ground (arith, c.1, apart)) ∙ c.0,
          ground (arith, c.1, apart, has-append p (y ∷ ys) zs, has-append p (y ∷ ys) (new ∷ zs)),
          chain,
        ),
        λ q out. same q (ground (arith, out)),
      ))
