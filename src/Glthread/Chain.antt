-- ===== src/Glthread/Chain.antt =====
-- What a list stands for: the nodes behind a node, in order.
use tcpserver_lib.Base.{
  ℕ, ◌≡◌, refl, sym, ◌∙◌, ap, inl, inr, Bool, true, false, ◌||◌, Option, none, some, List, [], ◌∷◌,
  ◌++◌, arith, ◌==◌, ==_iff, Bool-cases, ok,
}
use tcpserver_lib.Glthread.{Glthread, Nodes, put, set_left, set_right}

abbrev pub has : ℕ → List ℕ → Bool
has a [] = false
has a (x ∷ xs) = (a == x) || has a xs

abbrev pub head_of : List ℕ → Option ℕ
head_of [] = none
head_of (x ∷ xs) = some x

-- The node `p` has `l` to its left and the nodes `xs` to its right, which link back one by one. No
-- node is there twice.
abbrev pub Chain : Nodes → Option ℕ → ℕ → List ℕ → Type 0
Chain h l p [] = h p ≡ some (record { left = l; right = none })
Chain h l p (x ∷ xs) =
    (h p ≡ some (record { left = l; right = some x }))
    × (has p (x ∷ xs) ≡ false)
    × Chain h (some p) x xs

-- `g` is `h` but for these nodes.
abbrev pub SameBut : List ℕ → Nodes → Nodes → Type 0
SameBut xs h g = (q : ℕ) → has q xs ≡ false → g q ≡ h q

pub Chain-node :
    (h : Nodes) (l : Option ℕ) (p : ℕ) (xs : List ℕ)
    → Chain h l p xs
    → h p ≡ some (record { left = l; right = head_of xs })
Chain-node h l p [] c = c
Chain-node h l p (x ∷ xs) c = c.0

-- A chain is the same in another store that has its nodes.
pub frame :
    (h g : Nodes) (l : Option ℕ) (p : ℕ) (xs : List ℕ)
    → Chain h l p xs
    → ((q : ℕ) → has q (p ∷ xs) ≡ true → g q ≡ h q)
    → Chain g l p xs
frame h g l p [] c same = same p (ground arith) ∙ c
frame h g l p (x ∷ xs) c same =
    (same p (ground arith) ∙ c.0, c.1, frame h g (some p) x xs c.2 (λ q e. same q (ground arith)))

pub put_self : (h : Nodes) (p : ℕ) (g : Glthread) → put h p g p ≡ some g
put_self h p g = ground arith

pub put_other : (h : Nodes) (p q : ℕ) (g : Glthread) → (q == p) ≡ false → put h p g q ≡ h q
put_other h p q g e = rw e refl

-- A write through a pointer to a node goes through.
pub set_left-ok :
    (h : Nodes) (p : ℕ) (l : Option ℕ) (g : Glthread)
    → h p ≡ some g
    → set_left p l h ≡ ok (put h p (record g { left = l }))
set_left-ok h p l g e = rw e

pub set_right-ok :
    (h : Nodes) (p : ℕ) (r : Option ℕ) (g : Glthread)
    → h p ≡ some g
    → set_right p r h ≡ ok (put h p (record g { right = r }))
set_right-ok h p r g e = rw e

-- A chain whose first node has another left link.
pub relink :
    (h g : Nodes) (l l' : Option ℕ) (p : ℕ) (xs : List ℕ)
    → Chain h l p xs
    → g p ≡ some (record { left = l'; right = head_of xs })
    → ((q : ℕ) → has q xs ≡ true → g q ≡ h q)
    → Chain g l' p xs
relink h g l l' p [] c at same = at
relink h g l l' p (x ∷ xs) c at same = (at, c.1, frame h g (some p) x xs c.2 same)

-- A chain has each node once.
pub Chain-apart :
    (h : Nodes) (l : Option ℕ) (p : ℕ) (xs : List ℕ) → Chain h l p xs → has p xs ≡ false
Chain-apart h l p [] c = refl
Chain-apart h l p (x ∷ xs) c = c.1

pub has-append : (a : ℕ) (xs ys : List ℕ) → has a (xs ++ ys) ≡ (has a xs || has a ys)
has-append a [] ys = refl
has-append a (x ∷ xs) ys = ground (arith, has-append a xs ys)

-- A node that is there is not one that is not.
pub ne_of_has : (q a : ℕ) (xs : List ℕ) → has q xs ≡ true → has a xs ≡ false → (q == a) ≡ false
ne_of_has q a xs inside absent = elim (Bool-cases (q == a)) [
  | inl e ↦ absurd (cc (sym inside ∙ ap (λ t. has t xs) ((==_iff q a).0 e) ∙ absent))
  | inr e ↦ e
]
