-- ===== src/Shell/Sound.antt =====
-- A tree in which tokens can be looked up, and which stays one when a leaf gets a value.
use tcpserver_lib.Base.{
  ℕ, ◌≡◌, ◌≤◌, ◌<◌, refl, sym, ap, ◌∙◌, Bool, true, false, Option, none, some, List, [], ◌∷◌, ◌==◌,
  ==_iff, if◌then◌else◌, length, All, Bool-cases, inl, inr,
}
use mathlib.Core.Path.{subst}
use tcpserver_lib.Strings.{leaf_value_holder_size, is_prefix}
use tcpserver_lib.Tlv.{
  LeafType, int, string, ipv4, float, ipv6, boolean, invalid, leaf_max, leaf_id_size,
}
use tcpserver_lib.CmdTree.{
  Params, Param, CmdType, cmd, leaf, no_cmd, put_param, possibility_array_size,
}
use tcpserver_lib.CmdTree.Match.{Children, Live, entries, every, begins, has_name}

-- The types that have a handler.
abbrev pub has_handler : LeafType → Bool
has_handler int = true
has_handler string = true
has_handler ipv4 = true
has_handler float = true
has_handler ipv6 = true
has_handler boolean = true
has_handler invalid = false
has_handler leaf_max = false

-- A leaf as `init_param` makes it of such a type.
abbrev pub IsLeaf : CmdType → Type 0
IsLeaf (cmd name) = Unit {0}
IsLeaf (leaf l) =
    (has_handler l.leaf_type ≡ true)
    × (length l.value_holder ≡ leaf_value_holder_size)
    × (length l.leaf_id ≤ leaf_id_size)
IsLeaf (no_cmd name) = Unit {0}

-- The options are live children followed by a null entry, fewer than 10 of them with a name that begins
-- with one of the tokens.
abbrev pub Options : Params → List (List ℕ) → List (Option ℕ) → Type 0
Options h tokens options =
    (cs : Children) × (tail : List (Option ℕ)) × (options ≡ entries cs (none ∷ tail))
    × Live h cs
    × All (λ t. length (every (begins t) cs) < possibility_array_size) tokens

pub record Sound (h : Params) (tokens : List (List ℕ)) : Type 0 where
  pub options_are : (p : ℕ) (c : Param) → h p ≡ some c → Options h tokens c.options
  pub leaves_are : (p : ℕ) (c : Param) → h p ≡ some c → IsLeaf c.cmd_type

pub Sound-tail :
    (h : Params) (t : List ℕ) (tokens : List (List ℕ)) → Sound h (t ∷ tokens) → Sound h tokens
Sound-tail h t tokens s = record {
  options_are = λ p c live.
      let (cs, tail, are, all, (here, few)) = s.options_are p c live in (cs, tail, are, all, few);
  leaves_are = s.leaves_are;
}

-- `p` was and is a leaf, with the same options.
module _ (h : Params) (p : ℕ) (c c' : Param) (was : h p ≡ some c)
    (unnamed : (f : List ℕ → Bool) → has_name f c.cmd_type ≡ false)
    (unnamed' : (f : List ℕ → Bool) → has_name f c'.cmd_type ≡ false)
    (same : c'.options ≡ c.options) where
  renew : Children → Children
  renew [] = []
  renew ((r, d) ∷ cs) = (r, if r == p then c' else d) ∷ renew cs

  entries-renew :
      (cs : Children) (rest : List (Option ℕ)) → entries (renew cs) rest ≡ entries cs rest
  unfolding renew
  entries-renew [] rest = refl
  entries-renew ((r, d) ∷ cs) rest = ap (λ t. some r ∷ t) (entries-renew cs rest)

  Live-renew : (cs : Children) → Live h cs → Live (put_param p c' h) (renew cs)
  unfolding renew
  Live-renew [] live = tt
  Live-renew ((r, d) ∷ cs) (here, live) = elim (Bool-cases (r == p)) [
    | inl e ↦ (rw e refl, Live-renew cs live)
    | inr e ↦ (rw e here, Live-renew cs live)
  ]

  every-renew :
      (t : List ℕ) (cs : Children) → Live h cs → every (begins t) (renew cs) ≡ every (begins t) cs
  unfolding renew
  every-renew t [] live = refl
  every-renew t ((r, d) ∷ cs) (here, live) = elim (Bool-cases (r == p)) [
    | inl e ↦
        let old : has_name (λ n. is_prefix t n) d.cmd_type ≡ false =
          is_old d (sym here ∙ ap h ((==_iff r p).0 e) ∙ was) t in
        rw (e, unnamed' (λ n. is_prefix t n), old) (every-renew t cs live)
    | inr e ↦ rw e (ap (λ ps. if begins t d.cmd_type then r ∷ ps else ps) (every-renew t cs live))
  ]
    where
      is_old :
          (d : Param)
          → some d ≡ some c
          → (t : List ℕ) → has_name (λ n. is_prefix t n) d.cmd_type ≡ false
      is_old d e t =
          let d_is : d ≡ c = cc e in
          ap (λ (x : Param). has_name (λ n. is_prefix t n) x.cmd_type) d_is
          ∙ unnamed (λ n. is_prefix t n)

  few-renew :
      (tokens : List (List ℕ)) (cs : Children)
      → Live h cs
      → All (λ t. length (every (begins t) cs) < possibility_array_size) tokens
      → All (λ t. length (every (begins t) (renew cs)) < possibility_array_size) tokens
  few-renew [] cs live few = tt
  few-renew (t ∷ tokens) cs live (here, few) =
      (rw (every-renew t cs live) here, few-renew tokens cs live few)

  Options-renew :
      (tokens : List (List ℕ)) (options : List (Option ℕ))
      → Options h tokens options
      → Options (put_param p c' h) tokens options
  Options-renew tokens options (cs, tail, are, live, few) = (
    renew cs,
    tail,
    are ∙ sym (entries-renew cs (none ∷ tail)),
    Live-renew cs live,
    few-renew tokens cs live few,
  )

  pub Sound-put :
      (tokens : List (List ℕ))
      → Sound h tokens
      → IsLeaf c'.cmd_type
      → Sound (put_param p c' h) tokens
  Sound-put tokens s is = record {
    options_are = λ q d live. elim (Bool-cases (q == p)) [
      | inl e ↦
          let d_is : c' ≡ d = cc (rw e at live) in
          subst (λ (x : Param). Options (put_param p c' h) tokens x.options) d_is
            (subst (Options (put_param p c' h) tokens) (sym same)
              (Options-renew tokens c.options (s.options_are p c was)))
      | inr e ↦ Options-renew tokens d.options (s.options_are q d (rw e at live))
    ];
    leaves_are = λ q d live. elim (Bool-cases (q == p)) [
      | inl e ↦
          let d_is : c' ≡ d = cc (rw e at live) in subst (λ (x : Param). IsLeaf x.cmd_type) d_is is
      | inr e ↦ s.leaves_are q d (rw e at live)
    ];
  }
