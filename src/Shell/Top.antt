-- ===== src/Shell/Top.antt =====
-- Leaving a mode for the top clears the leaf values on the way.
use tcpserver_lib.Base.{
  ℕ, zero, suc, ◌≡◌, ◌<◌, refl, sym, ap, ◌∙◌, true, false, some, List, [], ◌∷◌, Outcome, ok, ◌>>=◌,
  deref, ◌==◌, length, All, arith, Returns, Returns-mono, Returns-result, replicate,
}
use mathlib.Core.Path.{subst}
use tcpserver_lib.Strings.{leaf_value_holder_size}
use tcpserver_lib.CmdTree.{Params, Param, CmdType, cmd, leaf, no_cmd, root, put_param, is_no_cmd}
use tcpserver_lib.CmdTree.Hook.{Up}
use tcpserver_lib.CmdTree.Register.{eq_self}
use tcpserver_lib.Shell.{Shell, cleared, clear_leaves, goto_top_of_cmd_tree, show_device_name}

-- The same parameter with a cleared value if it is a leaf.
abbrev pub blank : CmdType → CmdType
blank (cmd name) = cmd name
blank (leaf l) = leaf (record l { value_holder = replicate leaf_value_holder_size 0 })
blank (no_cmd name) = no_cmd name

abbrev pub blanked : Param → Param
blanked c = record c { cmd_type = blank c.cmd_type }

abbrev pub Away : ℕ → List (ℕ × Param) → Type 0
Away p = All (λ (q, c). (q == p) ≡ false)

-- No parameter is twice on the way.
abbrev pub Distinct : List (ℕ × Param) → Type 0
Distinct [] = Unit {0}
Distinct ((q, c) ∷ path) = Away q path × Distinct path

abbrev pub NoNegation : List (ℕ × Param) → Type 0
NoNegation = All (λ (q, c). is_no_cmd c.cmd_type ≡ false)

-- Those on the way are cleared, all others are as they were.
pub record Cleared (h : Params) (path : List (ℕ × Param)) (h' : Params) : Type 0 where
  pub blank_all : All (λ (q, c). h' q ≡ some (blanked c)) path
  pub others : (r : ℕ) → Away r path → h' r ≡ h r

Up-kept :
    (h h' : Params) (top p r : ℕ) (path : List (ℕ × Param))
    → ((q : ℕ) → (q == p) ≡ false → h' q ≡ h q)
    → Away p path
    → Up h top r path
    → Up h' top r path
Up-kept h h' top p r [] same away up = up
Up-kept h h' top p r ((q, c) ∷ path) same (here, away) (at, out, live, (t, parent, up)) =
    (at, out, same q here ∙ live, (t, parent, Up-kept h h' top p t path same away up))

cleared-blank : (t : CmdType) → is_no_cmd t ≡ false → cleared t ≡ ok (blank t)
cleared-blank (cmd name) e = refl
cleared-blank (leaf l) e = refl
cleared-blank (no_cmd name) e = cc

-- A round of the loop, which ends below the root.
module _ (k : ℕ) (h : Params) (p r : ℕ) (c : Param) (live : h p ≡ some c)
    (plain : is_no_cmd c.cmd_type ≡ false) (parent : c.parent ≡ some r) where
  round : clear_leaves (suc k) p h ≡ (elim (r == root) as (λ b. Outcome Params) [
    | true ↦ ok (put_param p (blanked c) h)
    | false ↦ clear_leaves k r (put_param p (blanked c) h)
  ])
  unfolding clear_leaves
  round =
      ap (λ o. deref o >>= body) live
      ∙ ap (λ o. o >>= λ t. deref c.parent >>= next t) (cleared-blank c.cmd_type plain)
      ∙ ap (λ o. deref o >>= next (blank c.cmd_type)) parent
    where
      next : CmdType → ℕ → Outcome Params
      next t q = elim (q == root) [
        | true ↦ ok (put_param p (record c { cmd_type = t }) h)
        | false ↦ clear_leaves k q (put_param p (record c { cmd_type = t }) h)
      ]

      body : Param → Outcome Params
      body c = do
        t ← cleared c.cmd_type
        q ← deref c.parent
        elim (q == root) [
          | true ↦ ok (put_param p (record c { cmd_type = t }) h)
          | false ↦ clear_leaves k q (put_param p (record c { cmd_type = t }) h)
        ]

  round_end : (r == root) ≡ true → clear_leaves (suc k) p h ≡ ok (put_param p (blanked c) h)
  round_end e = round ∙ rw e refl

  round_up :
      (r == root) ≡ false → clear_leaves (suc k) p h ≡ clear_leaves k r (put_param p (blanked c) h)
  round_up e = round ∙ rw e refl

clear_leaves-Cleared :
    (k : ℕ) (h : Params) (p q : ℕ) (c : Param) (path : List (ℕ × Param))
    → Up h root p ((q, c) ∷ path)
    → Distinct ((q, c) ∷ path)
    → NoNegation ((q, c) ∷ path)
    → length path < k
    → Returns (Cleared h ((q, c) ∷ path)) (clear_leaves k p h)
unfolding clear_leaves
clear_leaves-Cleared zero h p q c path up distinct plain enough = absurd (omega (arith, enough))
clear_leaves-Cleared (suc k) h p q c [] (same, out, at_q, (r, parent, top)) distinct (plain, rest)
      enough =
    let live : h p ≡ some c = ap h same ∙ at_q in
    rw (round_end k h p r c live plain parent (ground (arith, top))) (record {
      blank_all = (rw (ap (λ t. t == p) (sym same) ∙ eq_self p) refl, tt);
      others = λ r' (away, end). rw (away_from r' away) refl;
    })
  where
    away_from : (r' : ℕ) → (q == r') ≡ false → (r' == p) ≡ false
    away_from r' e = ground (arith, e, same)
clear_leaves-Cleared (suc k) h p q c ((q', c') ∷ path) (same, out, at_q, (r, parent, up))
      (away, distinct) (plain, rest) enough =
    let live : h p ≡ some c = ap h same ∙ at_q in
    let below : (r == root) ≡ false = ap (λ t. t == root) up.0 ∙ up.1 in
    let h1 : Params = put_param p (blanked c) h in
    let away' : Away p ((q', c') ∷ path) = subst (λ t. Away t ((q', c') ∷ path)) (sym same) away in
    rw (round_up k h p r c live plain parent below) (
      Returns-mono (Cleared h1 ((q', c') ∷ path)) (Cleared h ((q, c) ∷ ((q', c') ∷ path)))
        (clear_leaves k r h1)
        (clear_leaves-Cleared k h1 r q' c' path
          (Up-kept h h1 root p r ((q', c') ∷ path) (λ t e. rw e refl) away' up) distinct rest
          (omega (arith, enough)))
        (λ h' d. record {
          blank_all =
              (d.others q away ∙ rw (ap (λ t. t == p) (sym same) ∙ eq_self p) refl, d.blank_all);
          others = λ r' (here, far). d.others r' far ∙ rw (away_from r' here) refl;
        }))
  where
    away_from : (r' : ℕ) → (q == r') ≡ false → (r' == p) ≡ false
    away_from r' e = ground (arith, e, same)

-- From below the root, by a way of distinct parameters without negations, and on more fuel than the
-- way behind its first parameter is long, `goto_top_of_cmd_tree` comes to what `show_device_name`
-- makes of a shell in which the values of the leaves on the way are cleared and nothing else in the
-- tree has changed, the cursor is the root, and the buffer has been reset.
pub goto_top_of_cmd_tree-Cleared :
    (k : ℕ) (s : Shell) (p q : ℕ) (c : Param) (path : List (ℕ × Param))
    → (p == root) ≡ false
    → Up s.params root p ((q, c) ∷ path)
    → Distinct ((q, c) ∷ path)
    → NoNegation ((q, c) ∷ path)
    → length path < k
    → (h : Params) × Cleared s.params ((q, c) ∷ path) h
      × (goto_top_of_cmd_tree k p s
          ≡ show_device_name k (record s {
            params = h;
            cmd_tree_cursor = root;
            tlv_buff = record s.tlv_buff { next = 0; checkpoint = 0 };
          }))
unfolding goto_top_of_cmd_tree
goto_top_of_cmd_tree-Cleared k s p q c path below up distinct plain enough =
    let (h, e, d) =
      Returns-result (Cleared s.params ((q, c) ∷ path)) (clear_leaves k p s.params)
        (clear_leaves-Cleared k s.params p q c path up distinct plain enough) in
    (h, d, rw (below, e) refl)
