-- ===== src/Shell/Leaves.antt =====
-- The buffer that is built afresh for a mode holds the leaf values on the way to it, in that order.
use tcpserver_lib.Base.{
  ℕ, zero, suc, ◌+◌, ◌*◌, ◌^◌, ◌≡◌, ◌≤◌, ◌<◌, refl, sym, ap, ap₂, ◌∙◌, true, false, some, List, [],
  ◌∷◌, ◌++◌, Outcome, ok, stop, ◌>>=◌, ◌==◌, if◌then◌else◌, length, length-append, All, All-append,
  concat, concat-append, append-nil, append_assoc, take_all, arith, Bool-cases, inl, inr, Returns,
  Returns-bind, Returns-mono,
}
use mathlib.Core.List.{reverse, reverse-cons, reverse-append}
use tcpserver_lib.Serialize.{SerBuff}
use tcpserver_lib.Serialize.Append.{IsValid, written, Appended}
use tcpserver_lib.Strings.{c_string, leaf_value_holder_size}
use tcpserver_lib.Tlv.{tlv_size, tlv_bytes, leaf_id_size, leaf_tlv, collect_tlv, reverse_tlvs}
use tcpserver_lib.Tlv.Value.{tlv_of, leaf_tlv-tlv_of, collect_tlv-Appended, length-tlv_bytes}
use tcpserver_lib.Tlv.Reverse.{Blocks, Reversed, reverse_tlvs-Reversed}
use tcpserver_lib.CmdTree.{Params, Param, CmdType, Leaf, cmd, leaf, no_cmd}
use tcpserver_lib.CmdTree.Hook.{Up}
use tcpserver_lib.Shell.{collect_param, collect_last, collect_up, build_cmd_tree_leaves_data}

-- The characters before the NUL.
abbrev pub string_of : List ℕ → List ℕ
string_of [] = []
string_of (c ∷ s) = if c == 0 then [] else c ∷ string_of s

-- The value of a leaf is a string in its holder, and its id fits a TLV; a "no" has no leaf to read.
abbrev pub Readable : CmdType → Type 0
Readable (cmd name) = Unit {0}
Readable (leaf l) =
    (c_string l.value_holder ≡ ok (string_of l.value_holder))
    × (length l.value_holder ≡ leaf_value_holder_size)
    × (length l.leaf_id ≤ leaf_id_size)
Readable (no_cmd name) = ⊥

-- The TLV of a leaf, and none for a command.
abbrev pub leaf_bytes : Leaf → List ℕ
leaf_bytes l = tlv_bytes (tlv_of l.leaf_type l.leaf_id (string_of l.value_holder))

abbrev pub units : CmdType → List (List ℕ)
units (cmd name) = []
units (leaf l) = leaf_bytes l ∷ []
units (no_cmd name) = []

abbrev pub units_of : List (ℕ × Param) → List (List ℕ)
units_of [] = []
units_of ((q, c) ∷ path) = units c.cmd_type ++ units_of path

units-le : (t : CmdType) → length (units t) ≤ 1
units-le (cmd name) = omega arith
units-le (leaf l) = omega arith
units-le (no_cmd name) = omega arith

string_of-lt : (s t : List ℕ) → c_string s ≡ ok t → length (string_of s) < length s
string_of-lt [] t e = cc
string_of-lt (c ∷ s) t e = elim (Bool-cases (c == 0)) [
  | inl nul ↦ rw nul (omega arith)
  | inr other ↦ rw other (more (string_of-lt s) (c_string s) refl (rw other at e))
]
  where
    more :
        ((u : List ℕ) → c_string s ≡ ok u → length (string_of s) < length s)
        → (r : Outcome (List ℕ)) → c_string s ≡ r
        → (r >>= λ u. ok (c ∷ u)) ≡ ok t
        → length (c ∷ string_of s) < length (c ∷ s)
    more ih (ok u) is e' = omega (arith, ih u is)
    more ih (stop w) is e' = cc

-- The buffer after these TLVs have been appended.
pub record Collected (b : SerBuff) (us : List (List ℕ)) (b' : SerBuff) : Type 0 where
  pub valid : IsValid b'
  pub bytes_eq : written b' ≡ written b ++ concat us
  pub next_eq : b'.next ≡ b.next + length us * tlv_size
  pub checkpoint_eq : b'.checkpoint ≡ b.checkpoint
  pub grown : b.size ≤ b'.size
  pub blocks : Blocks us

pub none_Collected : (b : SerBuff) → IsValid b → Collected b [] b
none_Collected b v = record {
  valid = v;
  bytes_eq = sym (append-nil (written b));
  next_eq = omega arith;
  checkpoint_eq = refl;
  grown = omega arith;
  blocks = tt;
}

pub Collected-append :
    (b b' b'' : SerBuff) (us vs : List (List ℕ))
    → Collected b us b'
    → Collected b' vs b''
    → Collected b (us ++ vs) b''
Collected-append b b' b'' us vs c d = record {
  valid = d.valid;
  bytes_eq =
      d.bytes_eq
      ∙ ap (λ t. t ++ concat vs) c.bytes_eq
      ∙ append_assoc (written b) (concat us) (concat vs)
      ∙ ap (λ t. written b ++ t) (sym (concat-append us vs));
  next_eq = omega (arith, length-append us vs, c.next_eq, d.next_eq);
  checkpoint_eq = d.checkpoint_eq ∙ c.checkpoint_eq;
  grown = omega (arith, c.grown, d.grown);
  blocks = All-append (λ u. length u ≡ tlv_size) us vs c.blocks d.blocks;
}

module _ (junk : ℕ → ℕ) where
  -- A TLV of a leaf with this value.
  pub collect_leaf-Collected :
      (l : Leaf) (value : List ℕ) (b : SerBuff)
      → length value < leaf_value_holder_size
      → length l.leaf_id ≤ leaf_id_size
      → IsValid b
      → 0 < b.size
      → b.next + tlv_size ≤ 2 ^ 30
      → Returns
          (Collected b (tlv_bytes (tlv_of l.leaf_type l.leaf_id value) ∷ []))
          (leaf_tlv l.leaf_type l.leaf_id value >>= collect_tlv junk b)
  collect_leaf-Collected l value b short small v pos room =
      let long = length-tlv_bytes l.leaf_type l.leaf_id value small (omega arith) in
      rw (leaf_tlv-tlv_of l.leaf_type l.leaf_id value small short) (
        Returns-mono (Appended b (tlv_bytes (tlv_of l.leaf_type l.leaf_id value)) tlv_size) _ _
          (collect_tlv-Appended junk l.leaf_type l.leaf_id value v small short pos room)
          (λ b' a. record {
            valid = a.valid;
            bytes_eq =
                a.bytes_eq
                ∙ ap (λ t. written b ++ t)
                    (take_all tlv_size (tlv_bytes (tlv_of l.leaf_type l.leaf_id value))
                        (omega (arith, long))
                      ∙ sym (append-nil (tlv_bytes (tlv_of l.leaf_type l.leaf_id value))));
            next_eq = omega (arith, a.next_eq);
            checkpoint_eq = a.checkpoint_eq;
            grown = a.grown;
            blocks = (long, tt);
          }))

  collect_param-Collected :
      (t : CmdType) (b : SerBuff)
      → Readable t
      → IsValid b
      → 0 < b.size
      → b.next + tlv_size ≤ 2 ^ 30
      → Returns (Collected b (units t)) (collect_param junk t b)
  collect_param-Collected (cmd name) b r v pos room = none_Collected b v
  collect_param-Collected (leaf l) b (is, whole, small) v pos room = rw is (
      collect_leaf-Collected l (string_of l.value_holder) b
        (omega (arith, string_of-lt l.value_holder (string_of l.value_holder) is, whole)) small v
        pos room)
  collect_param-Collected (no_cmd name) b r v pos room = absurd r

  collect_up-Collected :
      (k : ℕ) (h : Params) (src p : ℕ) (path : List (ℕ × Param)) (b : SerBuff)
      → Up h src p path
      → All (λ (q, c). Readable c.cmd_type) path
      → length path < k
      → IsValid b
      → 0 < b.size
      → b.next + length path * tlv_size ≤ 2 ^ 30
      → Returns (Collected b (units_of path)) (collect_up k junk h src p b)
  unfolding collect_up
  collect_up-Collected zero h src p path b up read enough v pos room =
      absurd (omega (arith, enough))
  collect_up-Collected (suc k) h src p [] b up read enough v pos room =
      let there : (p == src) ≡ true = ground (arith, up) in
      rw (there, collect_up) (none_Collected b v)
  collect_up-Collected (suc k) h src p ((q, c) ∷ path) b (same, out, at_q, (r, parent, up))
        (here, read) enough v pos room =
      let below : (p == src) ≡ false = ap (λ t. t == src) same ∙ out in
      let live : h p ≡ some c = ap h same ∙ at_q in
      rw (below, collect_up)
        (rw (live, parent)
          (Returns-bind (Collected b (units c.cmd_type)) (Collected b (units_of ((q, c) ∷ path)))
            (collect_param junk c.cmd_type b) (collect_up k junk h src r)
            (collect_param-Collected c.cmd_type b here v pos (omega (arith, room)))
            (λ b' d.
              Returns-mono (Collected b' (units_of path)) (Collected b (units_of ((q, c) ∷ path))) _
                (collect_up-Collected k h src r path b' up read (omega (arith, enough)) d.valid
                  (omega (arith, d.grown, pos))
                  (omega (arith, d.next_eq, units-le c.cmd_type, room)))
                (λ b'' d'. Collected-append b b' b'' (units c.cmd_type) (units_of path) d d'))))

-- Each parameter has one TLV at most, so their order is that of the parameters.
reverse-units : (t : CmdType) → reverse (units t) ≡ units t
reverse-units (cmd name) = refl
reverse-units (leaf l) = refl
reverse-units (no_cmd name) = refl

units_of-append :
    (path rest : List (ℕ × Param)) → units_of (path ++ rest) ≡ units_of path ++ units_of rest
units_of-append [] rest = refl
units_of-append ((q, c) ∷ path) rest =
    ap (λ t. units c.cmd_type ++ t) (units_of-append path rest)
    ∙ sym (append_assoc (units c.cmd_type) (units_of path) (units_of rest))

reverse-units_of : (path : List (ℕ × Param)) → reverse (units_of path) ≡ units_of (reverse path)
reverse-units_of [] = refl
reverse-units_of ((q, c) ∷ path) =
    reverse-append (units c.cmd_type) (units_of path)
    ∙ ap₂ (λ s t. s ++ t) (reverse-units_of path)
        (reverse-units c.cmd_type ∙ sym (append-nil (units c.cmd_type)))
    ∙ sym (units_of-append (reverse path) ((q, c) ∷ []))
    ∙ ap units_of (sym (reverse-cons (q, c) path))

length-units_of : (path : List (ℕ × Param)) → length (units_of path) ≤ length path
length-units_of [] = omega arith
length-units_of ((q, c) ∷ path) = omega (
  arith,
  length-append (units c.cmd_type) (units_of path),
  units-le c.cmd_type,
  length-units_of path,
)

length-reverse_units : (us : List (List ℕ)) → length (reverse us) ≡ length us
length-reverse_units [] = refl
length-reverse_units (u ∷ us) =
    ap length (reverse-cons u us)
    ∙ omega (arith, length-append (reverse us) (u ∷ []), length-reverse_units us)

-- The buffer holds the TLVs of the leaves among these, in this order, and nothing else.
pub record Rebuilt (path : List (ℕ × Param)) (b : SerBuff) : Type 0 where
  pub valid : IsValid b
  pub bytes_eq : written b ≡ concat (units_of path)
  pub next_eq : b.next ≡ length (units_of path) * tlv_size
  pub checkpoint_eq : b.checkpoint ≡ 0

module _ (junk : ℕ → ℕ) where
  collect_last-Collected :
      (t : CmdType) (b : SerBuff)
      → Readable t
      → IsValid b
      → 0 < b.size
      → b.next + tlv_size ≤ 2 ^ 30
      → Returns (Collected b (units t)) (collect_last junk t b)
  collect_last-Collected (cmd name) b r v pos room = none_Collected b v
  collect_last-Collected (leaf l) b r v pos room =
      collect_param-Collected junk (leaf l) b r v pos room
  collect_last-Collected (no_cmd name) b r v pos room = absurd r

  -- The links to parents lead from `dst` to `src`, and every leaf on the way, both ends included,
  -- holds a string and has an id that fits a TLV, with no negation among them. Then
  -- `build_cmd_tree_leaves_data` succeeds on more fuel than the way is long, on a valid buffer of a
  -- size other than 0: the buffer is valid and holds exactly the TLVs of these leaves, in the order
  -- from `src` down to `dst`, its offset is behind them and its checkpoint 0.
  pub build_cmd_tree_leaves_data-Rebuilt :
      (k : ℕ) (h : Params) (b : SerBuff) (src dst : ℕ) (c : Param) (path : List (ℕ × Param))
      → Up h src dst path
      → h src ≡ some c
      → All (λ (q, d). Readable d.cmd_type) path
      → Readable c.cmd_type
      → length path < k
      → length path * tlv_size + tlv_size ≤ 2 ^ 30
      → IsValid b
      → 0 < b.size
      → Returns
          (Rebuilt (reverse (path ++ ((src, c) ∷ []))))
          (build_cmd_tree_leaves_data k junk h b src dst)
  unfolding build_cmd_tree_leaves_data
  build_cmd_tree_leaves_data-Rebuilt k h b src dst c path up live read read' enough room v pos =
      let b0 : SerBuff = record b { next = 0; checkpoint = 0 } in
      let v0 : IsValid b0 = record {
        storage = v.storage;
        next_in = omega arith;
        checkpoint_in = omega arith;
      } in
      let all : List (ℕ × Param) = path ++ ((src, c) ∷ []) in
      Returns-bind (Collected b0 (units_of path)) (Rebuilt (reverse all)) _ _
        (collect_up-Collected junk k h src dst path b0 up read enough v0 pos (omega (arith, room)))
        (λ b1 d. rw live (
          Returns-bind (Collected b1 (units c.cmd_type)) (Rebuilt (reverse all))
            (collect_last junk c.cmd_type b1) reverse_tlvs
            (collect_last-Collected c.cmd_type b1 read' d.valid (omega (arith, d.grown, pos))
              (omega (arith, d.next_eq, length-units_of path, room)))
            (λ b2 d'.
              let e = Collected-append b0 b1 b2 (units_of path) (units c.cmd_type) d d' in
              Returns-mono (Reversed b2 (units_of path ++ units c.cmd_type)) (Rebuilt (reverse all))
                _
                (reverse_tlvs-Reversed (units_of path ++ units c.cmd_type) e.valid e.blocks
                  e.bytes_eq)
                (λ b3 r. record {
                  valid = r.valid;
                  bytes_eq = r.bytes_eq ∙ ap concat order;
                  next_eq =
                      r.next_eq
                      ∙ e.next_eq
                      ∙ omega (
                        arith,
                        ap length order,
                        length-reverse_units (units_of path ++ units c.cmd_type),
                      );
                  checkpoint_eq = r.checkpoint_eq ∙ e.checkpoint_eq;
                }))))
    where
      order :
          reverse (units_of path ++ units c.cmd_type) ≡ units_of (reverse (path ++ ((src, c) ∷ [])))
      order =
          ap reverse (
            ap (λ t. units_of path ++ t) (sym (append-nil (units c.cmd_type)))
            ∙ sym (units_of-append path ((src, c) ∷ [])))
          ∙ reverse-units_of (path ++ ((src, c) ∷ []))
