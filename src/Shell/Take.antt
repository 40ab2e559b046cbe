-- ===== src/Shell/Take.antt =====
-- A token that leads to a parameter: the value of a leaf is collected and kept.
use tcpserver_lib.Base.{
  ℕ, ◌+◌, ◌*◌, ◌^◌, ◌≡◌, ◌≤◌, ◌<◌, refl, ap, ◌⊎◌, inl, inr, Bool, true, Option, none, some, List,
  [], ◌∷◌, ok, length, length-append, length-drop, drop, arith, Bool-cases, Returns, Returns-bind,
  min,
}
use mathlib.Core.Path.{subst}
use tcpserver_lib.Serialize.{SerBuff}
use tcpserver_lib.Serialize.Append.{IsValid}
use tcpserver_lib.Strings.{leaf_value_holder_size}
use tcpserver_lib.Tlv.{LeafType, tlv_size, tlv_bytes, collect_tlv}
use tcpserver_lib.Tlv.Value.{tlv_of, leaf_tlv-tlv_of, strncpy-ok, terminate}
use tcpserver_lib.CmdTree.{Params, Param, Leaf, CmdType, cmd, leaf, no_cmd}
use tcpserver_lib.CmdTree.Match.{has_name}
use tcpserver_lib.CmdTree.Register.{put_param_same}
use tcpserver_lib.Shell.{Shell, OpMode}
use tcpserver_lib.Shell.Build.{
  ParseStatus, Walk, is_complete, hold_value, take_leaf, arrive, lib_validation, user_validation,
}
use tcpserver_lib.Shell.Leaves.{Collected, none_Collected, collect_leaf-Collected}
use tcpserver_lib.Shell.Sound.{Sound, Sound-put, IsLeaf, has_handler}

abbrev pub Here : Params → Option ℕ → Type 0
Here h none = ⊥
Here h (some p) = (c : Param) × (h p ≡ some c)

-- These TLVs hold a subsequence of the tokens.
abbrev pub Taken : List (List ℕ) → List (List ℕ) → Type 0
Taken [] us = us ≡ []
Taken (t ∷ tokens) us =
    Taken tokens us
    ⊎ ((type : LeafType) × (id : List ℕ) × (vs : List (List ℕ)) × (us
          ≡ tlv_bytes (tlv_of type id t) ∷ vs)
        × Taken tokens vs)

-- What the walk over these tokens leaves, if it begins in this shell.
pub record Walked (s : Shell) (tokens later : List (List ℕ)) (w' : Walk) : Type 0 where
  pub units : List (List ℕ)
  pub taken : Taken tokens units
  pub collected : Collected s.tlv_buff units w'.shell.tlv_buff
  pub few : length units ≤ length tokens
  pub cursor_eq : w'.shell.cmd_tree_cursor ≡ s.cmd_tree_cursor
  pub console_eq : w'.shell.console_name ≡ s.console_name
  pub sound : Sound w'.shell.params later
  pub arrived : is_complete w'.status ≡ true → Here w'.shell.params w'.param

lib_validation-ok :
    (type : LeafType) (value : List ℕ)
    → has_handler type ≡ true
    → (b : Bool) × (lib_validation type value ≡ ok b)
unfolding lib_validation
lib_validation-ok LeafType.int value e = (true, refl)
lib_validation-ok LeafType.string value e = (true, refl)
lib_validation-ok LeafType.ipv4 value e = (true, refl)
lib_validation-ok LeafType.float value e = (true, refl)
lib_validation-ok LeafType.ipv6 value e = (true, refl)
lib_validation-ok LeafType.boolean value e = (_, refl)
lib_validation-ok LeafType.invalid value e = cc
lib_validation-ok LeafType.leaf_max value e = cc

-- The holder of a leaf keeps its size.
hold_value-ok :
    (holder token : List ℕ)
    → length holder ≡ leaf_value_holder_size
    → length token < leaf_value_holder_size
    → Returns (λ holder'. length holder' ≡ leaf_value_holder_size) (hold_value holder token)
unfolding hold_value
hold_value-ok holder token whole short =
    let n : min (length token) leaf_value_holder_size ≡ length token = omega arith in
    rw
      (
        n,
        strncpy-ok holder token (omega (arith, whole)),
        terminate token (drop (length token) holder)
            (omega (arith, length-drop (length token) holder, whole)),
      )
      (omega (
        arith,
        length-append token (0 ∷ drop 1 (drop (length token) holder)),
        length-drop 1 (drop (length token) holder),
        length-drop (length token) holder,
        whole,
      ))

-- The buffer has room for this many TLVs more.
pub record HasRoom (b : SerBuff) (n : ℕ) : Type 0 where
  pub valid : IsValid b
  pub nonempty : 0 < b.size
  pub room : b.next + n * tlv_size ≤ 2 ^ 30

-- A shell after the value of the leaf `p` has been taken.
pub record Took (s : Shell) (p : ℕ) (l : Leaf) (token : List ℕ) (later : List (List ℕ)) (s' : Shell)
    : Type 0 where
  pub collected :
      Collected s.tlv_buff (tlv_bytes (tlv_of l.leaf_type l.leaf_id token) ∷ []) s'.tlv_buff
  pub cursor_eq : s'.cmd_tree_cursor ≡ s.cmd_tree_cursor
  pub console_eq : s'.console_name ≡ s.console_name
  pub sound : Sound s'.params later
  pub live : Here s'.params (some p)

take_leaf-Took :
    (junk : ℕ → ℕ) (s : Shell) (p : ℕ) (c : Param) (l : Leaf) (token : List ℕ)
    (later : List (List ℕ))
    → s.params p ≡ some c
    → c.cmd_type ≡ leaf l
    → Sound s.params later
    → length token < leaf_value_holder_size
    → HasRoom s.tlv_buff 1
    → Returns (Took s p l token later) (take_leaf junk p c l token s)
unfolding take_leaf
take_leaf-Took junk s p c l token later live e sound short room =
    let (handled, whole, small) = subst IsLeaf e (sound.leaves_are p c live) in
    let col = rw (leaf_tlv-tlv_of l.leaf_type l.leaf_id token small short) at (
      collect_leaf-Collected junk l token s.tlv_buff short small room.valid room.nonempty
        (omega (arith, room.room))) in
    rw (leaf_tlv-tlv_of l.leaf_type l.leaf_id token small short) (
      Returns-bind (λ holder'. length holder' ≡ leaf_value_holder_size) (Took s p l token later)
        (hold_value l.value_holder token) _ (hold_value-ok l.value_holder token whole short)
        (λ holder' whole'.
          let c' : Param = record c { cmd_type = leaf (record l { value_holder = holder' }) } in
          Returns-bind (Collected s.tlv_buff (tlv_bytes (tlv_of l.leaf_type l.leaf_id token) ∷ []))
            (Took s p l token later)
            (collect_tlv junk s.tlv_buff (tlv_of l.leaf_type l.leaf_id token)) _ col
            (λ b d. record {
              collected = d;
              cursor_eq = refl;
              console_eq = refl;
              sound =
                  Sound-put s.params p c c' live (λ f. ap (has_name f) e) (λ f. refl) refl later
                    sound (handled, whole', small);
              live = (c', put_param_same s.params p c');
            })))

module _ (s : Shell) (token : List ℕ) (later : List (List ℕ)) (sound : Sound s.params later)
    (room : HasRoom s.tlv_buff 1) where
  -- Where nothing is taken.
  pub passed :
      (param parent : Option ℕ) (mode : OpMode) (status : ParseStatus)
      → (is_complete status ≡ true → Here s.params param)
      → Walked s
          (token ∷ [])
          later
          (record { param = param; parent = parent; mode = mode; status = status; shell = s })
  passed param parent mode status arrived = record {
    units = [];
    taken = inl refl;
    collected = none_Collected s.tlv_buff room.valid;
    few = omega arith;
    cursor_eq = refl;
    console_eq = refl;
    sound = sound;
    arrived = arrived;
  }

module _ (junk : ℕ → ℕ) (p : ℕ) (c : Param) (token : List ℕ) (w : Walk) (later : List (List ℕ))
    (live : w.shell.params p ≡ some c) (sound : Sound w.shell.params later)
    (short : length token < leaf_value_holder_size) (room : HasRoom w.shell.tlv_buff 1) where
  pub arrive-Walked :
      (t : CmdType)
      → c.cmd_type ≡ t
      → Returns (Walked w.shell (token ∷ []) later) (arrive junk p c t token w)
  arrive-Walked (cmd name) e = passed w.shell token later sound room _ _ _ _ (λ _. (c, live))
  arrive-Walked (no_cmd name) e = passed w.shell token later sound room _ _ _ _ (λ _. (c, live))
  arrive-Walked (leaf l) e =
      let (handled, whole, small) = subst IsLeaf e (sound.leaves_are p c live) in
      let (b, valid) = lib_validation-ok l.leaf_type token handled in
      rw valid (elim (Bool-cases b) [
        | inr no_lib ↦
            rw no_lib (passed w.shell token later sound room _ _ _ _ (λ f. absurd (cc f)))
        | inl lib ↦ elim (Bool-cases (user_validation l.user_validation_cb_fn token)) [
          | inr no_user ↦
              rw (lib, no_user) (passed w.shell token later sound room _ _ _ _ (λ f. absurd (cc f)))
          | inl user ↦
              rw (lib, user)
                (Returns-bind (Took w.shell p l token later) (Walked w.shell (token ∷ []) later)
                  (take_leaf junk p c l token w.shell) _
                  (take_leaf-Took junk w.shell p c l token later live e sound short room)
                  (λ s' d. record {
                    units = tlv_bytes (tlv_of l.leaf_type l.leaf_id token) ∷ [];
                    taken = inr (l.leaf_type, l.leaf_id, [], refl, refl);
                    collected = d.collected;
                    few = omega arith;
                    cursor_eq = d.cursor_eq;
                    console_eq = d.console_eq;
                    sound = d.sound;
                    arrived = λ _. d.live;
                  }))
        ]
      ])
