-- ===== src/Shell.antt =====
-- CommandParser/cmd_hier.c and clistd.c: the cursor that says which mode the user is in, the console's
-- name, and the buffer with the leaf values of the mode.
pub mod Build
pub mod DoMode
pub mod Extension
pub mod Init
pub mod Input
pub mod Leaves
pub mod Sound
pub mod Take
pub mod Top
pub mod Walk
mod Tests
use tcpserver_lib.Base.{
  ℕ, zero, suc, ◌+◌, ◌-◌, Bool, true, false, not, ◌&&◌, Option, none, some, List, [], ◌∷◌, ◌++◌,
  Outcome, ok, stop, memory, fuel, assertion, arithmetic, ◌>>=◌, ◌>>◌, deref, assert, ◌==◌, ltb,
  leb, if◌then◌else◌, length, replicate,
}
use tcpserver_lib.Serialize.{SerBuff, reset_serialize_buffer, mark_checkpoint_serialize_buffer}
use tcpserver_lib.Strings.{
  Tokens, tokenizer, get_token, string_space_trim, c_string, leaf_value_holder_size,
  cons_input_buffer_size, max_cmd_tree_depth,
}
use tcpserver_lib.Tlv.{Tlv, tlv_size, leaf_tlv, collect_tlv, reverse_tlvs}
use tcpserver_lib.CmdTree.{
  Params, Param, Leaf, CmdType, cmd, leaf, no_cmd, put_param, modify_param, root,
}

-- The global variables of the command line.
pub record Shell : Type 0 where
  pub params : Params
  pub cmd_tree_cursor : ℕ
  pub tlv_buff : SerBuff
  pub console_name : List ℕ
  pub tokens : Tokens

-- `op_mode`.
pub data OpMode : Type 0 where
  config_disable config_enable operational mode_unknown : OpMode

-- What is around the command line: what memory holds that `realloc` adds, what a callback of this
-- address does, and the user's answer where the `i`th token has more than one meaning.
pub record Environment : Type 0 where
  pub junk : ℕ → ℕ
  pub invoke : ℕ → ℕ → OpMode → Shell → Outcome Shell
  pub choice : ℕ → Option ℕ

unfoldable pub reset_cmd_tree_cursor : Shell → Shell
unfolding reset_serialize_buffer
reset_cmd_tree_cursor s = record s {
  cmd_tree_cursor = root;
  tlv_buff = reset_serialize_buffer s.tlv_buff;
}

unfoldable pub set_cmd_tree_cursor : ℕ → Shell → Shell
set_cmd_tree_cursor p s = record s { cmd_tree_cursor = p }

unfoldable pub is_user_in_cmd_mode : Shell → Bool
is_user_in_cmd_mode s = not (s.cmd_tree_cursor == root)

-- A string in `console_name`, with its NUL.
abbrev pub to_console : List ℕ → Outcome (List ℕ)
to_console name = if ltb (length name) cons_input_buffer_size then ok name else stop memory

-- `tokens[0]` after `tokenizer(console_name, '>', …)`, which may return NULL.
unfoldable pub device_name : ℕ → Shell → Outcome (List ℕ × Shell)
device_name k s = do
  (cnt, tokens) ← tokenizer k s.console_name 62 s.tokens
  assert_some cnt
  token ← get_token 0 tokens
  name ← c_string token
  ok (name, record s { tokens = tokens })
  where
    assert_some : ℕ → Outcome (Unit {0})
    assert_some zero = stop memory
    assert_some (suc n) = ok tt

-- `sprintf(console_name, "%s>", tokens[0])`.
unfoldable pub show_device_name : ℕ → Shell → Outcome Shell
unfolding device_name
show_device_name k s = do
  (name, s) ← device_name k s
  console ← to_console (name ++ (62 ∷ []))
  ok (record s { console_name = console })

-- The second token, trimmed, behind a blank.
abbrev pub second_token : ℕ → Tokens → Outcome (List ℕ)
second_token cnt tokens = if ltb 1 cnt then behind_blank else ok []
  where
    behind_blank : Outcome (List ℕ)
    behind_blank = do token ← get_token 1 tokens; t ← c_string token; ok (32 ∷ string_space_trim t)

unfoldable pub set_device_name : ℕ → List ℕ → Shell → Outcome Shell
set_device_name k cons_name s = do
  (cnt, tokens) ← old_tokens s.console_name
  second ← second_token cnt tokens
  console ← to_console ((cons_name ++ (62 ∷ [])) ++ second)
  ok (record s { console_name = console; tokens = tokens })
  where
    old_tokens : List ℕ → Outcome (ℕ × Tokens)
    old_tokens [] = ok (0, s.tokens)
    old_tokens (c ∷ name) = tokenizer k (c ∷ name) 62 s.tokens

-- What is appended for a parameter. A "no" is read as if it were a leaf: behind its name are zeros.
abbrev pub append_string : CmdType → Outcome (List ℕ)
append_string (cmd name) = ok name
append_string (leaf l) = c_string l.value_holder
append_string (no_cmd name) = ok []

-- The loop that fills `cmd_names` from its end.
unfoldable pub collect_names : ℕ → Params → ℕ → List (List ℕ) → Outcome (List (List ℕ))
collect_names zero h p names = stop fuel
collect_names (suc k) h p names = do
  assert (ltb (length names) max_cmd_tree_depth)
  c ← deref (h p)
  name ← append_string c.cmd_type
  q ← deref c.parent
  elim (q == root) [ true ↦ ok (name ∷ names) | false ↦ collect_names k h q (name ∷ names) ]

abbrev pub join : List (List ℕ) → List ℕ
join [] = []
join (name ∷ []) = name
join (name ∷ (next ∷ names)) = name ++ (45 ∷ join (next ∷ names))

unfoldable pub build_mode_console_name : ℕ → ℕ → Shell → Outcome Shell
unfolding device_name collect_names
build_mode_console_name k dst s = do
  assert (not (dst == root))
  (name, s) ← device_name k s
  names ← collect_names k s.params dst []
  console ← to_console ((name ++ (62 ∷ (32 ∷ []))) ++ join names)
  ok (record s { console_name = console })

-- `memset(GET_LEAF_VALUE_PTR(p), 0, LEAF_VALUE_HOLDER_SIZE)`; the name of a "no" has less room.
abbrev pub cleared : CmdType → Outcome CmdType
cleared (cmd name) = ok (cmd name)
cleared (leaf l) = ok (leaf (record l { value_holder = replicate leaf_value_holder_size 0 }))
cleared (no_cmd name) = stop memory

-- The loop of `goto_top_of_cmd_tree`.
unfoldable pub clear_leaves : ℕ → ℕ → Params → Outcome Params
clear_leaves zero p h = stop fuel
clear_leaves (suc k) p h = do
  c ← deref (h p)
  t ← cleared c.cmd_type
  q ← deref c.parent
  let h' = put_param p (record c { cmd_type = t }) h
  elim (q == root) [ true ↦ ok h' | false ↦ clear_leaves k q h' ]

unfoldable pub goto_top_of_cmd_tree : ℕ → ℕ → Shell → Outcome Shell
unfolding clear_leaves reset_cmd_tree_cursor show_device_name
goto_top_of_cmd_tree k p s = if p == root then ok s else top
  where
    top : Outcome Shell
    top = do
      h ← clear_leaves k p s.params
      show_device_name k (reset_cmd_tree_cursor (record s { params = h }))

-- `serialize_buffer_skip` by minus the size of a TLV: there is always room for it. An offset below 0
-- is out of the block.
unfoldable pub rewind_tlv : SerBuff → Outcome SerBuff
rewind_tlv b =
    if leb tlv_size b.next then ok (record b { next = b.next - tlv_size }) else stop memory

-- The leaf that the user leaves: its value is cleared and its TLV taken back.
abbrev pub forget_leaf : CmdType → ℕ → Param → Shell → Outcome Shell
forget_leaf (cmd name) p c s = ok s
forget_leaf (no_cmd name) p c s = ok s
forget_leaf (leaf l) p c s = do
  t ← cleared (leaf l)
  b ← rewind_tlv s.tlv_buff
  ok (record s {
    params = put_param p (record c { cmd_type = t }) s.params;
    tlv_buff = mark_checkpoint_serialize_buffer b;
  })

unfoldable pub go_one_level_up_cmd_tree : ℕ → ℕ → Shell → Outcome Shell
unfolding rewind_tlv set_cmd_tree_cursor show_device_name build_mode_console_name
    mark_checkpoint_serialize_buffer reset_serialize_buffer
go_one_level_up_cmd_tree k p s = if p == root then ok s else up
  where
    at_level : ℕ → Shell → Outcome Shell
    at_level q s = if q == root then at_root else build_mode_console_name k q s
      where
        at_root : Outcome Shell
        at_root = do
          s ← show_device_name k s
          ok (record s { tlv_buff = reset_serialize_buffer s.tlv_buff })

    up : Outcome Shell
    up = do
      c ← deref (s.params p)
      s ← forget_leaf c.cmd_type p c s
      q ← deref c.parent
      at_level q (set_cmd_tree_cursor q s)

-- A leaf is read as a TLV; the name of a "no" has less room than a leaf.
abbrev pub collect_param : (ℕ → ℕ) → CmdType → SerBuff → Outcome SerBuff
collect_param junk (cmd name) b = ok b
collect_param junk (leaf l) b = do
  value ← c_string l.value_holder
  t ← leaf_tlv l.leaf_type l.leaf_id value
  collect_tlv junk b t
collect_param junk (no_cmd name) b = stop memory

-- The last one is looked at only if it is a leaf.
abbrev pub collect_last : (ℕ → ℕ) → CmdType → SerBuff → Outcome SerBuff
collect_last junk (cmd name) b = ok b
collect_last junk (leaf l) b = collect_param junk (leaf l) b
collect_last junk (no_cmd name) b = ok b

-- The loop of `build_cmd_tree_leaves_data`.
unfoldable pub collect_up : ℕ → (ℕ → ℕ) → Params → ℕ → ℕ → SerBuff → Outcome SerBuff
collect_up zero junk h src p b = stop fuel
collect_up (suc k) junk h src p b = elim (p == src) [
  | true ↦ ok b
  | false ↦ do
    c ← deref (h p)
    b ← collect_param junk c.cmd_type b
    q ← deref c.parent
    collect_up k junk h src q b
]

unfoldable pub build_cmd_tree_leaves_data :
    ℕ → (ℕ → ℕ) → Params → SerBuff → (src dst : ℕ) → Outcome SerBuff
unfolding collect_up reset_serialize_buffer reverse_tlvs
build_cmd_tree_leaves_data k junk h b src dst = do
  b ← collect_up k junk h src dst (reset_serialize_buffer b)
  c ← deref (h src)
  b ← collect_last junk c.cmd_type b
  reverse_tlvs b
