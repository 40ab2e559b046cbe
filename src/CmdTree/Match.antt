-- ===== src/CmdTree/Match.antt =====
-- Which child a token stands for.
use tcpserver_lib.Base.{zero, suc, get_elem?}
use tcpserver_lib.Base.{
  ℕ, ◌+◌, ◌≡◌, ◌<◌, refl, sym, ap, ◌∙◌, Bool, true, false, ◌&&◌, Option, none, some, List, [], ◌∷◌,
  ◌++◌, Outcome, ok, stop, memory, ◌>>=◌, deref, ◌==◌, ltb, if◌then◌else◌, length, length-append,
  append_assoc, append-nil, All, arith, Bool-cases, inl, inr,
}
use tcpserver_lib.Strings.{is_prefix}
use tcpserver_lib.CmdTree.{chosen}
use tcpserver_lib.CmdTree.{
  Params, Param, CmdType, cmd, leaf, no_cmd, Kind, a_leaf, exact, partial, different, kind, by_kind,
  strncmp_eq, is_cmd_string_match, find_loop, find_matching_param, pick, possibility_array_size,
}

-- The addresses of children and what they hold.
abbrev pub Children : Type 0
Children = List (ℕ × Param)

abbrev pub Live : Params → Children → Type 0
Live h = All (λ (p, c). h p ≡ some c)

-- Whether the name of a command is this.
abbrev pub same_string : List ℕ → List ℕ → Bool
same_string [] [] = true
same_string [] (d ∷ b) = false
same_string (c ∷ a) [] = false
same_string (c ∷ a) (d ∷ b) = (c == d) && same_string a b

abbrev pub has_name : (List ℕ → Bool) → CmdType → Bool
has_name f (cmd name) = f name
has_name f (leaf l) = false
has_name f (no_cmd name) = f name

abbrev pub is_leaf : CmdType → Bool
is_leaf (cmd name) = false
is_leaf (leaf l) = true
is_leaf (no_cmd name) = false

-- The first child that satisfies a test, the last one, and all of them.
abbrev pub first : (CmdType → Bool) → Children → Option ℕ
first f [] = none
first f ((p, c) ∷ cs) = let rest = first f cs in if f c.cmd_type then some p else rest

abbrev pub last_or : (CmdType → Bool) → Option ℕ → Children → Option ℕ
last_or f last [] = last
last_or f last ((p, c) ∷ cs) = last_or f (if f c.cmd_type then some p else last) cs

abbrev pub every : (CmdType → Bool) → Children → List ℕ
every f [] = []
every f ((p, c) ∷ cs) = if f c.cmd_type then p ∷ every f cs else every f cs

-- What the user points at, counted from 0; nothing if he answers with a number below 0, or with one
-- that is not offered.
abbrev pub pointed_at : Option ℕ → List ℕ → Option ℕ
pointed_at none offered = none
pointed_at (some i) [] = none
pointed_at (some zero) (p ∷ offered) = some p
pointed_at (some (suc i)) (p ∷ offered) = pointed_at (some i) offered

-- Of the children whose name begins with the token: the last leaf if there are none, the only one,
-- or the one that the user points at.
abbrev pub settled : (choice last : Option ℕ) → List ℕ → Option ℕ
settled choice last offered =
    if length offered == 0
    then last
    else if length offered == 1
    then pointed_at (some 0) offered
    else pointed_at choice offered

-- The child that a token should stand for: the first whose name it is, or else one of those whose name
-- begins with it, or else the last leaf.
abbrev pub meant_by : Option ℕ → Option ℕ → Option ℕ → List ℕ → Option ℕ
meant_by choice (some p) last found = some p
meant_by choice none last found = settled choice last found

abbrev pub named : List ℕ → CmdType → Bool
named str = has_name (λ n. same_string n str)

abbrev pub begins : List ℕ → CmdType → Bool
begins str = has_name (λ n. is_prefix str n)

abbrev pub meant : Option ℕ → List ℕ → Children → Option ℕ
meant choice str cs =
    meant_by choice (first (named str) cs) (last_or is_leaf none cs) (every (begins str) cs)

strncmp_eq-is_prefix : (a b : List ℕ) → strncmp_eq a b (length b) ≡ is_prefix b a
strncmp_eq-is_prefix [] [] = refl
strncmp_eq-is_prefix [] (d ∷ b) = refl
strncmp_eq-is_prefix (c ∷ a) [] = refl
strncmp_eq-is_prefix (c ∷ a) (d ∷ b) = ap (λ t. (c == d) && t) (strncmp_eq-is_prefix a b)

same_string-is_prefix : (a b : List ℕ) → same_string a b ≡ is_prefix b a && (length b == length a)
same_string-is_prefix [] [] = refl
same_string-is_prefix [] (d ∷ b) = refl
same_string-is_prefix (c ∷ a) [] = ground arith
same_string-is_prefix (c ∷ a) (d ∷ b) = ground (arith, same_string-is_prefix a b)

-- What the loop makes of a command's name.
abbrev kind_of : Bool → Bool → Kind
kind_of true begins = exact
kind_of false true = partial
kind_of false false = different

is_cmd_string_match-kind_of :
    (name str : List ℕ)
    → is_cmd_string_match name str ≡ kind_of (same_string name str) (is_prefix str name)
unfolding is_cmd_string_match
is_cmd_string_match-kind_of name str =
    ground (arith, strncmp_eq-is_prefix name str, same_string-is_prefix name str)

kind_by : Bool → Bool → Bool → Kind
kind_by true same beg = a_leaf
kind_by false same beg = kind_of same beg

kind-kind_by :
    (str : List ℕ) (t : CmdType) → kind str t ≡ kind_by (is_leaf t) (named str t) (begins str t)
unfolding kind_by
kind-kind_by str (cmd name) = is_cmd_string_match-kind_of name str
kind-kind_by str (leaf l) = refl
kind-kind_by str (no_cmd name) = is_cmd_string_match-kind_of name str

leaf-unnamed : (f : List ℕ → Bool) (t : CmdType) → is_leaf t ≡ true → has_name f t ≡ false
leaf-unnamed f (cmd name) e = cc
leaf-unnamed f (leaf l) e = refl
leaf-unnamed f (no_cmd name) e = cc

-- An array of options that begins with these children.
abbrev pub entries : Children → List (Option ℕ) → List (Option ℕ)
entries [] rest = rest
entries ((p, c) ∷ cs) rest = some p ∷ entries cs rest

-- An exact match ends the loop; without one it goes on behind these children.
abbrev unless_named : Option ℕ → Outcome (Option ℕ) → Outcome (Option ℕ)
unless_named (some p) later = ok (some p)
unless_named none later = later

module _ (h : Params) (choice : Option ℕ) (str : List ℕ) (ends : List (Option ℕ)) where
  -- What `find_matching_param` makes of the options from here on.
  found_from : List (Option ℕ) → Option ℕ → List ℕ → Outcome (Option ℕ)
  found_from options last found =
      find_loop h str options last found >>= λ (last', found'). ok (pick choice last' found')

  find_loop_lem :
      (cs : Children) (last : Option ℕ) (found : List ℕ)
      → Live h cs
      → length found + length (every (begins str) cs) < possibility_array_size
      → found_from (entries cs ends) last found
        ≡ unless_named
            (first (named str) cs)
            (found_from ends (last_or is_leaf last cs) (found ++ every (begins str) cs))
  unfolding found_from find_loop kind_by
  find_loop_lem [] last found live few = ap (found_from ends last) (sym (append-nil found))
  find_loop_lem ((p, c) ∷ cs) last found (here, live) few = elim (Bool-cases (is_leaf c.cmd_type)) [
    | inl l ↦
        let unnamed = leaf-unnamed (λ n. same_string n str) c.cmd_type l in
        let no_begin = leaf-unnamed (λ n. is_prefix str n) c.cmd_type l in
        round a_leaf (rw l refl)
        ∙ rw (unnamed, no_begin, l) (find_loop_lem cs (some p) found live (rw no_begin at few))
    | inr l ↦ elim (Bool-cases (named str c.cmd_type)) [
      | inl same ↦ round exact (rw (l, same) refl) ∙ rw same refl
      | inr same ↦ elim (Bool-cases (begins str c.cmd_type)) [
        | inl beg ↦
            let more = rw beg at few in
            let room : ltb (length found + 1) possibility_array_size ≡ true =
              ground (arith, more) in
            round partial (rw (l, same, beg) refl)
            ∙ rw (room, same, beg, l)
                (find_loop_lem cs last (found ++ (p ∷ [])) live
                    (omega (arith, more, length-append found (p ∷ [])))
                  ∙ ap
                      (λ t.
                        unless_named (first (named str) cs)
                          (found_from ends (last_or is_leaf last cs) t))
                      (append_assoc found (p ∷ []) (every (begins str) cs)))
        | inr beg ↦
            round different (rw (l, same, beg) refl)
            ∙ rw (same, beg, l) (find_loop_lem cs last found live (rw beg at few))
      ]
    ]
  ]
    where
      round :
          (k : Kind)
          → kind_by (is_leaf c.cmd_type) (named str c.cmd_type) (begins str c.cmd_type) ≡ k
          → found_from (entries ((p, c) ∷ cs) ends) last found ≡ (
              by_kind k p last found (find_loop h str (entries cs ends)) >>= λ (last', found').
              ok (pick choice last' found'))
      round k e =
          ap
            (λ (o : Outcome Kind).
              (o >>= λ k. by_kind k p last found (find_loop h str (entries cs ends)))
              >>= λ (last', found'). ok (pick choice last' found'))
            (ap (λ o. deref o >>= λ q. ok (kind str q.cmd_type)) here
              ∙ ap ok (kind-kind_by str c.cmd_type ∙ e))

get_elem?-pointed_at : (i : ℕ) (found : List ℕ) → get_elem? found i ≡ pointed_at (some i) found
get_elem?-pointed_at i [] = refl
get_elem?-pointed_at zero (p ∷ found) = refl
get_elem?-pointed_at (suc i) (p ∷ found) = get_elem?-pointed_at i found

pick-settled :
    (choice last : Option ℕ) (found : List ℕ) → pick choice last found ≡ settled choice last found
pick-settled choice last [] = refl
pick-settled choice last (p ∷ []) = refl
pick-settled choice last (p ∷ (q ∷ found)) =
    let several : (length (p ∷ (q ∷ found)) == 0) ≡ false = ground arith in
    let more : (length (p ∷ (q ∷ found)) == 1) ≡ false = ground arith in
    rw (several, more) (among choice)
  where
    among :
        (choice : Option ℕ) → chosen choice (p ∷ (q ∷ found)) ≡ pointed_at choice (p ∷ (q ∷ found))
    among none = refl
    among (some i) = get_elem?-pointed_at i (p ∷ (q ∷ found))

unless_named-meant_by :
    (choice named last : Option ℕ) (found : List ℕ)
    → unless_named named (ok (pick choice last found)) ≡ ok (meant_by choice named last found)
unless_named-meant_by choice (some p) last found = refl
unless_named-meant_by choice none last found = ap ok (pick-settled choice last found)

-- If the options are live children followed by a null entry, and the names of fewer than 10 children
-- begin with the token, then `find_matching_param` succeeds, and finds the first child whose name is
-- the token; without one, the only child whose name begins with it, or the user's choice where there
-- are several, if it is one of them; and without any, the last leaf, if there is one.
pub find_matching_param-meant :
    (h : Params) (choice : Option ℕ) (str : List ℕ) (cs : Children) (tail : List (Option ℕ))
    → Live h cs
    → length (every (begins str) cs) < possibility_array_size
    → find_matching_param h choice (entries cs (none ∷ tail)) str ≡ ok (meant choice str cs)
unfolding find_matching_param found_from find_loop
find_matching_param-meant h choice str cs tail live few =
    find_loop_lem h choice str (none ∷ tail) cs none [] live (omega (arith, few))
    ∙ unless_named-meant_by choice (first (named str) cs) (last_or is_leaf none cs)
        (every (begins str) cs)

-- If no entry of the options is null, none of these live children has the token for its name, and
-- the names of fewer than 10 begin with it, then `find_matching_param` reads behind the array.
pub find_matching_param-overrun :
    (h : Params) (choice : Option ℕ) (str : List ℕ) (cs : Children)
    → Live h cs
    → first (named str) cs ≡ none
    → length (every (begins str) cs) < possibility_array_size
    → find_matching_param h choice (entries cs []) str ≡ stop memory
unfolding find_matching_param found_from find_loop
find_matching_param-overrun h choice str cs live unnamed few =
    find_loop_lem h choice str [] cs none [] live (omega (arith, few)) ∙ rw unnamed refl

-- A child whose name is the token is found, whatever comes behind the children.
pub find_matching_param-named :
    (h : Params) (choice : Option ℕ) (str : List ℕ) (cs : Children) (ends : List (Option ℕ)) (p : ℕ)
    → Live h cs
    → first (named str) cs ≡ some p
    → length (every (begins str) cs) < possibility_array_size
    → find_matching_param h choice (entries cs ends) str ≡ ok (some p)
unfolding find_matching_param found_from
find_matching_param-named h choice str cs ends p live is few =
    find_loop_lem h choice str ends cs none [] live (omega (arith, few)) ∙ rw is refl
