-- ===== src/CmdTree/Register.antt =====
-- A parameter that has been registered under another is found there.
use tcpserver_lib.Base.{
  ℕ, ◌+◌, ◌≡◌, ◌≤◌, ◌<◌, refl, ap, ◌∙◌, Bool, true, false, Option, none, some, List, [], ◌∷◌, ◌++◌,
  ok, stop, assertion, ◌>>=◌, ◌==◌, length, All, All-append, arith, Bool-cases, inl, inr, Returns,
  Returns-mono, replicate,
}
use tcpserver_lib.Strings.{is_prefix}
use tcpserver_lib.CmdTree.{root}
use tcpserver_lib.CmdTree.{
  Params, Param, put_param, add_child, add_option, parent_or_root, libcli_register_param,
  find_matching_param, possibility_array_size, max_option_size, mode_param, suboptions_param,
  cmd_expansion_param,
}
use tcpserver_lib.CmdTree.Match.{
  Children, Live, entries, first, named, begins, every, find_matching_param-named, has_name,
  same_string,
}

pub eq_self : (p : ℕ) → (p == p) ≡ true
eq_self p = ground arith

pub put_param_same : (h : Params) (p : ℕ) (c : Param) → put_param p c h p ≡ some c
put_param_same h p c = rw (eq_self p) refl

pub put_param_other :
    (h : Params) (p q : ℕ) (c : Param) → (q == p) ≡ false → put_param p c h q ≡ h q
put_param_other h p q c e = rw e refl

-- `child` has the parent `p`, which has these options, and no other parameter has changed.
pub record Registered (h : Params) (p child : ℕ) (q c : Param) (options : List (Option ℕ))
    (h' : Params) : Type 0 where
  pub parent_is : h' p ≡ some (record q { options = options })
  pub child_is : h' child ≡ some (record c { parent = some p })
  pub others : (r : ℕ) → (r == p) ≡ false → (r == child) ≡ false → h' r ≡ h r

module _ (h : Params) (parent : Option ℕ) (child : ℕ) (q c : Param) where
  registered :
      (options : List (Option ℕ))
      → h (parent_or_root parent) ≡ some q
      → h child ≡ some c
      → (child == parent_or_root parent) ≡ false
      → (parent_or_root parent == child) ≡ false
      → add_option child q.options ≡ ok options
      → Returns
          (Registered h (parent_or_root parent) child q c options)
          (libcli_register_param parent child h)
  unfolding libcli_register_param
  registered options at_p at_c apart apart' added =
      rw (at_p, added)
        (rw (apart, at_c)
          (record {
            parent_is = rw (apart', eq_self (parent_or_root parent)) refl;
            child_is = rw (eq_self child) refl;
            others = λ r r_p r_c. rw (r_c, r_p) refl;
          }))

entries-append :
    (cs ds : Children) (rest : List (Option ℕ))
    → entries (cs ++ ds) rest ≡ entries cs (entries ds rest)
entries-append [] ds rest = refl
entries-append ((p, c) ∷ cs) ds rest = ap (λ t. some p ∷ t) (entries-append cs ds rest)

pub add_child-entries :
    (child : ℕ) (c : Param) (cs : Children) (tail : List (Option ℕ))
    → add_child child (entries cs (none ∷ tail)) ≡ ok (entries (cs ++ ((child, c) ∷ [])) tail)
add_child-entries child c [] tail = refl
add_child-entries child c ((p, d) ∷ cs) tail =
    ap (λ o. o >>= λ t. ok (some p ∷ t)) (add_child-entries child c cs tail)

add_option-entries :
    (child : ℕ) (c : Param) (cs : Children) (tail : List (Option ℕ))
    → 3 ≤ length cs
    → add_option child (entries cs (none ∷ tail)) ≡ ok (entries (cs ++ ((child, c) ∷ [])) tail)
add_option-entries child c [] tail few = absurd (omega (arith, few))
add_option-entries child c (a ∷ []) tail few = absurd (omega (arith, few))
add_option-entries child c (a ∷ (b ∷ [])) tail few = absurd (omega (arith, few))
add_option-entries child c ((p, a) ∷ ((q, b) ∷ ((r, e) ∷ cs))) tail few =
    ap (λ o. o >>= λ t. ok (some p ∷ (some q ∷ (some r ∷ t)))) (add_child-entries child c cs tail)

pub first-append :
    (f : List ℕ → Bool) (cs : Children) (p : ℕ) (c : Param)
    → first (has_name f) cs ≡ none
    → has_name f c.cmd_type ≡ true
    → first (has_name f) (cs ++ ((p, c) ∷ [])) ≡ some p
first-append f [] p c e is = rw is refl
first-append f ((r, d) ∷ cs) p c e is = elim (Bool-cases (has_name f d.cmd_type)) [
  | inl yes_it ↦ cc (rw yes_it at e)
  | inr other ↦ rw other (first-append f cs p c (rw other at e) is)
]

pub length-every-append :
    (f : List ℕ → Bool) (cs : Children) (p : ℕ) (c : Param)
    → length (every (has_name f) (cs ++ ((p, c) ∷ []))) ≤ length (every (has_name f) cs) + 1
length-every-append f [] p c = ground arith
length-every-append f ((r, d) ∷ cs) p c = ground (arith, length-every-append f cs p c)

-- Neither of the two is among these.
abbrev pub Apart : ℕ → ℕ → Children → Type 0
Apart p child = All (λ (r, d). ((r == p) ≡ false) × ((r == child) ≡ false))

pub Live-kept :
    (h h' : Params) (p child : ℕ) (cs : Children)
    → ((r : ℕ) → (r == p) ≡ false → (r == child) ≡ false → h' r ≡ h r)
    → Apart p child cs
    → Live h cs
    → Live h' cs
Live-kept h h' p child [] others apart live = tt
Live-kept h h' p child ((r, d) ∷ cs) others ((r_p, r_c), apart) (here, live) =
    (others r r_p r_c ∙ here, Live-kept h h' p child cs others apart live)

-- The parent has the child as its last option, and its name leads to it.
pub record Found (h : Params) (p child : ℕ) (q c : Param) (cs : Children) (tail : List (Option ℕ))
    (choice : Option ℕ) (str : List ℕ) (h' : Params) : Type 0 where
  pub registered_is :
      Registered h p child q c
        (entries (cs ++ ((child, record c { parent = some p }) ∷ [])) tail)
        h'
  pub found_is :
      find_matching_param h' choice
        (entries (cs ++ ((child, record c { parent = some p }) ∷ [])) tail)
        str
      ≡ ok (some child)

registered-Found :
    (h : Params) (parent : Option ℕ) (child : ℕ) (q c : Param) (cs : Children)
    (tail : List (Option ℕ)) (choice : Option ℕ) (str : List ℕ)
    → h (parent_or_root parent) ≡ some q
    → h child ≡ some c
    → (child == parent_or_root parent) ≡ false
    → q.options ≡ entries cs (none ∷ tail)
    → 3 ≤ length cs
    → Live h cs
    → Apart (parent_or_root parent) child cs
    → named str c.cmd_type ≡ true
    → first (named str) cs ≡ none
    → length (every (begins str) cs) + 1 < possibility_array_size
    → Returns
        (Found h (parent_or_root parent) child q c cs tail choice str)
        (libcli_register_param parent child h)
registered-Found h parent child q c cs tail choice str at_p at_c apart are three live away is new
      few =
    let p = parent_or_root parent in
    let c' : Param = record c { parent = some p } in
    let cs' : Children = cs ++ ((child, c') ∷ []) in
    Returns-mono (Registered h p child q c (entries cs' tail))
      (Found h p child q c cs tail choice str) _
      (registered h parent child q c (entries cs' tail) at_p at_c apart (ground (arith, apart))
        (ap (add_option child) are ∙ add_option-entries child c' cs tail three))
      (λ h' reg. record {
        registered_is = reg;
        found_is =
            find_matching_param-named h' choice str cs' tail child
              (All-append (λ (r, d). h' r ≡ some d) cs ((child, c') ∷ [])
                (Live-kept h h' p child cs reg.others away live) (reg.child_is, tt))
              (first-append (λ n. same_string n str) cs child c' new is)
              (omega (arith, few, length-every-append (λ n. is_prefix str n) cs child c'));
      })

-- The parent that is given, or else the root.
abbrev pub given_or_root : Option ℕ → ℕ
given_or_root none = root
given_or_root (some p) = p

-- A parameter is registered under another one, the root by default, whose options are three live
-- ones or more followed by a null entry, none of them the parent or the new child, none with the
-- name given, fewer than 9 with a name that begins with it. If this is the child's name, the
-- registration succeeds: the parent has the child behind its other options and is the child's
-- parent, no other parameter has changed, and `find_matching_param` finds the child by its name.
pub libcli_register_param-Found :
    (h : Params) (parent : Option ℕ) (child : ℕ) (q c : Param) (cs : Children)
    (tail : List (Option ℕ)) (choice : Option ℕ) (str : List ℕ)
    → h (given_or_root parent) ≡ some q
    → h child ≡ some c
    → (child == given_or_root parent) ≡ false
    → q.options ≡ entries cs (none ∷ tail)
    → 3 ≤ length cs
    → Live h cs
    → Apart (given_or_root parent) child cs
    → named str c.cmd_type ≡ true
    → first (named str) cs ≡ none
    → length (every (begins str) cs) + 1 < possibility_array_size
    → Returns
        (Found h (given_or_root parent) child q c cs tail choice str)
        (libcli_register_param parent child h)
libcli_register_param-Found h none = registered-Found h none
libcli_register_param-Found h (some p) = registered-Found h (some p)

-- A fourteenth child is refused.
add_child-full : (child : ℕ) (cs : Children) → add_child child (entries cs []) ≡ stop assertion
add_child-full child [] = refl
add_child-full child ((p, d) ∷ cs) = ap (λ o. o >>= λ t. ok (some p ∷ t)) (add_child-full child cs)

-- The first child of a parameter that has none brings the three defaults.
first_option :
    (child : ℕ)
    → add_option child (replicate max_option_size none)
      ≡ ok (
          some mode_param
          ∷ (some suboptions_param ∷ (some cmd_expansion_param ∷ (some child ∷ replicate 12 none))))
first_option child = refl
