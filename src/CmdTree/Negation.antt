-- ===== src/CmdTree/Negation.antt =====
-- "no" in front of the commands of a configuration parameter.
use tcpserver_lib.Base.{
  ℕ, suc, ◌+◌, ◌≡◌, ◌≤◌, ◌<◌, refl, ap, ◌∙◌, false, Option, none, some, List, [], ◌∷◌, ◌++◌, ok,
  ◌>>=◌, deref, ◌==◌, length, All, All-append, arith, Returns, replicate,
}
use tcpserver_lib.Strings.{is_prefix}
use tcpserver_lib.CmdTree.{
  Params, Param, no_cmd, put_param, init_param, negate_character, negation_help, is_no_cmd,
  is_negation, copy_children, negated_options, add_negation, root, config, suboptions_param,
  cmd_expansion_param, support_cmd_negation, find_matching_param, possibility_array_size,
}
use tcpserver_lib.CmdTree.Match.{
  Children, Live, entries, first, named, begins, every, same_string, meant,
  find_matching_param-meant, find_matching_param-named,
}
use tcpserver_lib.CmdTree.Members.{meant-holds}
use tcpserver_lib.CmdTree.Hook.{Up, last_of, get_current_branch_hook-last_of}
use tcpserver_lib.CmdTree.Register.{
  eq_self, Live-kept, Apart, add_child-entries, first-append, length-every-append,
}

-- None of these is a "no".
abbrev pub Positive : Children → Type 0
Positive = All (λ (r, d). is_no_cmd d.cmd_type ≡ false)

-- Where no child is a "no", what is found is none.
meant-Positive :
    (h : Params) (choice : Option ℕ) (str : List ℕ) (cs : Children)
    → Live h cs
    → Positive cs
    → is_negation h (meant choice str cs) ≡ ok false
meant-Positive h choice str cs live pos =
    meant-holds (λ o. is_negation h o ≡ ok false) choice str cs refl (each cs live pos)
  where
    each :
        (ds : Children)
        → Live h ds
        → Positive ds
        → All (λ (p, c). is_negation h (some p) ≡ ok false) ds
    each [] live pos = tt
    each ((p, c) ∷ ds) (here, live) (e, pos) =
        (ap (λ o. deref o >>= λ c'. ok (is_no_cmd c'.cmd_type)) here ∙ ap ok e, each ds live pos)

copy_children-entries :
    (cs : Children) (tail : List (Option ℕ))
    → copy_children (entries cs (none ∷ tail)) ≡ entries cs (replicate (suc (length tail)) none)
copy_children-entries [] tail = refl
copy_children-entries ((p, c) ∷ cs) tail = ap (λ t. some p ∷ t) (copy_children-entries cs tail)

-- The "no" of `p`, with these children.
abbrev pub negation : ℕ → ℕ → Children → List (Option ℕ) → Param
negation p negate_callback children tail = record {
  cmd_type = no_cmd negate_character;
  callback = some negate_callback;
  is_hidden = false;
  help = negation_help;
  options =
      some suboptions_param
      ∷ (some suboptions_param
          ∷ (some cmd_expansion_param ∷ entries children (replicate (suc (length tail)) none)));
  parent = some p;
  disp_callback = none;
  cmdcode = none;
}

-- `p` has its "no" behind its other options, the "no" has the children of `p`, the word leads to it,
-- and no other parameter has changed.
pub record Negated (h : Params) (p fresh f : ℕ) (q : Param) (defaults children : Children)
    (tail : List (Option ℕ)) (choice : Option ℕ) (h' : Params) : Type 0 where
  pub fresh_is : h' fresh ≡ some (negation p f children tail)
  pub parent_is :
      h' p
      ≡ some (record q {
        options =
            entries ((defaults ++ children) ++ ((fresh, negation p f children tail) ∷ [])) tail;
      })
  pub others : (r : ℕ) → (r == p) ≡ false → (r == fresh) ≡ false → h' r ≡ h r
  pub found_is :
      find_matching_param h' choice
        (entries ((defaults ++ children) ++ ((fresh, negation p f children tail) ∷ [])) tail)
        negate_character
      ≡ ok (some fresh)

-- A parameter lies below the configuration hook, has the three defaults and further live children,
-- followed by a null entry, none of them a negation or named "no", fewer than 9 with a name that
-- begins so, none the parameter itself or the new address. Then `support_cmd_negation` succeeds on
-- as much fuel as the way to the root is long: the new address holds a negation with the same
-- children and this parent, which stands behind the other options of the parameter and is found by
-- the word "no", and no other parameter has changed.
pub support_cmd_negation-Negated :
    (k : ℕ) (choice : Option ℕ) (fresh f p : ℕ) (h : Params) (q : Param) (path : List (ℕ × Param))
    (a b e : ℕ × Param) (children : Children) (tail : List (Option ℕ))
    → (p == root) ≡ false
    → Up h root p path
    → length path ≤ k
    → last_of p path ≡ config
    → h p ≡ some q
    → q.options ≡ entries (a ∷ (b ∷ (e ∷ children))) (none ∷ tail)
    → Live h (a ∷ (b ∷ (e ∷ children)))
    → Positive (a ∷ (b ∷ (e ∷ children)))
    → Apart p fresh (a ∷ (b ∷ (e ∷ children)))
    → (p == fresh) ≡ false
    → first (named negate_character) (a ∷ (b ∷ (e ∷ children))) ≡ none
    → length (every (begins negate_character) (a ∷ (b ∷ (e ∷ children)))) + 1
      < possibility_array_size
    → Returns
        (Negated h p fresh f q (a ∷ (b ∷ (e ∷ []))) children tail choice)
        (support_cmd_negation k choice fresh f p h)
unfolding support_cmd_negation init_param
support_cmd_negation-Negated k choice fresh f p h q path a b e children tail below up enough hook
      live are alive pos away apart new few =
    let cs : Children = a ∷ (b ∷ (e ∷ children)) in
    let n = negation p f children tail in
    let cs' : Children = cs ++ ((fresh, n) ∷ []) in
    let old : find_matching_param h choice q.options negate_character
        ≡ ok (meant choice negate_character cs) =
      ap (λ t. find_matching_param h choice t negate_character) are
      ∙ find_matching_param-meant h choice negate_character cs tail alive (omega (arith, few)) in
    let added : add_negation fresh q.options ≡ ok (entries cs' tail) =
      ap (add_negation fresh) are
      ∙ ap (λ o. o >>= λ t. ok (some a.0 ∷ (some b.0 ∷ (some e.0 ∷ t))))
          (add_child-entries fresh n children tail) in
    let copied : negated_options q.options ≡ n.options =
      ap negated_options are
      ∙ ap (λ t. some suboptions_param ∷ (some suboptions_param ∷ (some cmd_expansion_param ∷ t)))
          (copy_children-entries children tail) in
    let apart' : (fresh == p) ≡ false = ground (arith, apart) in
    rw (get_current_branch_hook-last_of h p path k below up enough ∙ ap ok hook) (
      rw live (
        rw old (
          rw (meant-Positive h choice negate_character cs alive pos)
            (rw (added, copied) (negated apart')))))
  where
    negated :
        (fresh == p) ≡ false
        → Returns (Negated h p fresh f q (a ∷ (b ∷ (e ∷ []))) children tail choice) (
            ok (
              put_param fresh (negation p f children tail) (
                put_param p
                  (record q {
                    options =
                        entries
                          ((a ∷ (b ∷ (e ∷ children))) ++ ((fresh, negation p f children tail) ∷ []))
                          tail;
                  })
                  h)))
    negated apart' =
        let cs : Children = a ∷ (b ∷ (e ∷ children)) in
        let n = negation p f children tail in
        let cs' : Children = cs ++ ((fresh, n) ∷ []) in
        let h' : Params =
          put_param fresh n (put_param p (record q { options = entries cs' tail }) h) in
        let kept : (r : ℕ) → (r == p) ≡ false → (r == fresh) ≡ false → h' r ≡ h r =
          λ r r_p r_f. rw (r_f, r_p) refl in
        let is : h' fresh ≡ some n = rw (eq_self fresh) refl in
        record {
          fresh_is = is;
          parent_is = rw (apart, eq_self p) refl;
          others = kept;
          found_is =
              find_matching_param-named h' choice negate_character cs' tail fresh
                (All-append (λ (r, d). h' r ≡ some d) cs ((fresh, n) ∷ [])
                  (Live-kept h h' p fresh cs kept away alive) (is, tt))
                (first-append (λ s. same_string s negate_character) cs fresh n new refl)
                (omega
                  (arith, few, length-every-append (λ s. is_prefix negate_character s) cs fresh n));
        }
