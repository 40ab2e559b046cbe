-- ===== src/CmdTree/Hook.antt =====
-- The hook of a parameter: the ancestor that stands right below the root.
use tcpserver_lib.Base.{
  ℕ, zero, suc, ◌≡◌, ◌≤◌, ap, ◌∙◌, true, false, some, List, [], ◌∷◌, ok, ◌==◌, length, arith,
}
use tcpserver_lib.CmdTree.{Params, Param, root, hook_loop, get_current_branch_hook}

-- `path` leads from `p`, which is its first, up to a parameter below `top` by the links to parents;
-- none of its parameters but the last has `top` for its parent, and none is `top`.
abbrev pub Up : Params → ℕ → ℕ → List (ℕ × Param) → Type 0
Up h top p [] = p ≡ top
Up h top p ((q, c) ∷ path) =
    (p ≡ q)
    × ((q == top) ≡ false)
    × (h q ≡ some c)
    × ((r : ℕ) × (c.parent ≡ some r) × Up h top r path)

-- The last of a path.
abbrev pub last_of : ℕ → List (ℕ × Param) → ℕ
last_of p [] = p
last_of p ((q, c) ∷ path) = last_of q path

hook_loop-last_of :
    (h : Params) (p : ℕ) (path : List (ℕ × Param)) (k : ℕ)
    → (p == root) ≡ false
    → Up h root p path
    → length path ≤ k
    → hook_loop k h p ≡ ok (last_of p path)
unfolding hook_loop
hook_loop-last_of h p [] k below up enough = absurd (ground (arith, up))
hook_loop-last_of h p ((q, c) ∷ path) zero below up enough = absurd (omega arith)
hook_loop-last_of h p ((q, c) ∷ []) (suc k) below (same, out, at_q, (r, parent, top)) enough =
    let live : h p ≡ some c = ap h same ∙ at_q in
    rw live (rw parent (rw (is_root r top) (ap ok same)))
  where
    is_root : (r : ℕ) → r ≡ root → (r == root) ≡ true
    is_root r e = ground arith
hook_loop-last_of h p ((q, c) ∷ ((q', c') ∷ path)) (suc k) below (same, out, at_q, (r, parent, up))
      enough =
    let live : h p ≡ some c = ap h same ∙ at_q in
    let under : (r == root) ≡ false = ap (λ t. t == root) up.0 ∙ up.1 in
    rw live (
      rw parent
        (rw under (hook_loop-last_of h r ((q', c') ∷ path) k under up (omega (arith, enough)))))

-- From a parameter other than the root, with a path of parents up to the root, on as much fuel as the
-- path is long, `get_current_branch_hook` finds the last parameter of the path.
pub get_current_branch_hook-last_of :
    (h : Params) (p : ℕ) (path : List (ℕ × Param)) (k : ℕ)
    → (p == root) ≡ false
    → Up h root p path
    → length path ≤ k
    → get_current_branch_hook k h p ≡ ok (last_of p path)
unfolding get_current_branch_hook
get_current_branch_hook-last_of h p path k below up enough =
    rw below (hook_loop-last_of h p path k below up enough)
