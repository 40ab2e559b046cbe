-- ===== src/Shell/Build.antt =====
-- CommandParser/parser.c, build_tlv_buffer: the tokens lead through the tree, the leaf values among
-- them are collected, and the callback of the parameter they lead to is called. With the handlers of
-- clistd.c that it calls.
use tcpserver_lib.Base.{
  ℕ, zero, suc, ◌+◌, ◌/◌, ◌%◌, Bool, true, false, not, ◌&&◌, ◌||◌, Option, none, some, List, [],
  ◌∷◌, ◌++◌, Outcome, ok, stop, memory, fuel, ◌>>=◌, deref, ◌==◌, ltb, if◌then◌else◌, length,
  memcpy, min,
}
use tcpserver_lib.Serialize.{mark_checkpoint_serialize_buffer}
use tcpserver_lib.Strings.{
  Tokens, strncpy, tokenize, untokenize, re_init_tokens, max_cmd_tree_depth, leaf_value_holder_size,
}
use tcpserver_lib.Tlv.{
  Tlv, LeafType, int, string, ipv4, float, ipv6, boolean, invalid, leaf_max, leaf_tlv, collect_tlv,
  zero_tlv,
}
use tcpserver_lib.Tlv.Value.{padded}
use tcpserver_lib.CmdTree.{
  Params, Param, Leaf, CmdType, cmd, leaf, no_cmd, put_param, root, config, repeat,
  show_brief_extension, mode_param, suboptions_param, cmd_expansion_param, strncmp_eq,
  find_matching_param, get_current_branch_hook,
}
use tcpserver_lib.Shell.{
  Shell, OpMode, config_disable, config_enable, operational, mode_unknown, Environment,
  set_cmd_tree_cursor, build_mode_console_name,
}

-- `CMD_PARSE_STATUS`.
pub data ParseStatus : Type 0 where
  complete error invalid_leaf user_invalid_leaf cmd_not_found incomplete_command : ParseStatus
  multiple_matching_commands unknown : ParseStatus

-- "true", "false", "enable" and "disable".
abbrev pub true_string : List ℕ
true_string = 116 ∷ 114 ∷ 117 ∷ 101 ∷ []

abbrev pub false_string : List ℕ
false_string = 102 ∷ 97 ∷ 108 ∷ 115 ∷ 101 ∷ []

abbrev pub enable_string : List ℕ
enable_string = 101 ∷ 110 ∷ 97 ∷ 98 ∷ 108 ∷ 101 ∷ []

abbrev pub disable_string : List ℕ
disable_string = 100 ∷ 105 ∷ 115 ∷ 97 ∷ 98 ∷ 108 ∷ 101 ∷ []

-- `strncmp(s, word, strlen(word)) == 0`.
abbrev pub starts_with : List ℕ → List ℕ → Bool
starts_with s word = strncmp_eq s word (length word)

unfoldable pub boolean_validation_handler : List ℕ → Bool
boolean_validation_handler value = starts_with value true_string || starts_with value false_string

unfoldable pub enable_disable_validation_handler : List ℕ → Bool
enable_disable_validation_handler value =
    starts_with value enable_string || starts_with value disable_string

-- The handler in `leaf_handler_array`, which has a null entry for INVALID and none for LEAF_MAX.
unfoldable pub lib_validation : LeafType → List ℕ → Outcome Bool
unfolding boolean_validation_handler
lib_validation int value = ok true
lib_validation string value = ok true
lib_validation ipv4 value = ok true
lib_validation float value = ok true
lib_validation ipv6 value = ok true
lib_validation boolean value = ok (boolean_validation_handler value)
lib_validation invalid value = stop memory
lib_validation leaf_max value = stop memory

abbrev pub user_validation : Option (List ℕ → Bool) → List ℕ → Bool
user_validation none value = true
user_validation (some f) value = f value

-- The value of the leaf itself: a copy, and a NUL at the token's length.
unfoldable pub hold_value : List ℕ → List ℕ → Outcome (List ℕ)
hold_value holder token = do
  holder ← strncpy holder token (min (length token) leaf_value_holder_size)
  memcpy holder (length token) (0 ∷ []) 0 1

-- A valid leaf: its TLV is collected and its value kept.
unfoldable pub take_leaf : (ℕ → ℕ) → ℕ → Param → Leaf → List ℕ → Shell → Outcome Shell
unfolding hold_value
take_leaf junk p c l token s = do
  t ← leaf_tlv l.leaf_type l.leaf_id token
  holder ← hold_value l.value_holder token
  b ← collect_tlv junk s.tlv_buff t
  ok (record s {
    params =
        put_param p (record c { cmd_type = leaf (record l { value_holder = holder }) }) s.params;
    tlv_buff = b;
  })

-- Where the loop over the tokens stands, or how it has ended.
pub record Walk : Type 0 where
  pub param : Option ℕ
  pub parent : Option ℕ
  pub mode : OpMode
  pub status : ParseStatus
  pub shell : Shell

-- A token that leads to this parameter; the status is `complete` as long as the loop goes on.
abbrev pub arrive : (ℕ → ℕ) → ℕ → Param → CmdType → List ℕ → Walk → Outcome Walk
arrive junk p c (cmd name) token w = ok (record w { param = some p })
arrive junk p c (no_cmd name) token w = ok (record w { param = some p; mode = config_disable })
arrive junk p c (leaf l) token w = do
  valid ← lib_validation l.leaf_type token
  judged valid (user_validation l.user_validation_cb_fn token)
  where
    judged : Bool → Bool → Outcome Walk
    judged false user = ok (record w { param = some p; status = invalid_leaf })
    judged true false = ok (record w { param = some p; status = user_invalid_leaf })
    judged true true = do
      s ← take_leaf junk p c l token w.shell
      ok (record w { param = some p; shell = s })

abbrev pub arrive_at : (ℕ → ℕ) → Option ℕ → List ℕ → Walk → Outcome Walk
arrive_at junk none token w = ok (record w { param = none; status = cmd_not_found })
arrive_at junk (some p) token w = do
  c ← deref (w.shell.params p)
  arrive junk p c c.cmd_type token w

-- Where the loop begins.
abbrev pub from_cursor : Shell → Walk
from_cursor s = record {
  param = some s.cmd_tree_cursor;
  parent = none;
  mode = mode_unknown;
  status = complete;
  shell = s;
}

-- A round of the loop.
unfoldable pub walk_step : Environment → ℕ → List ℕ → Walk → Outcome Walk
walk_step env i token w = do
  p ← deref w.param
  q ← deref (w.shell.params p)
  found ← find_matching_param w.shell.params (env.choice i) q.options token
  arrive_at env.junk found token (record w { parent = some p })

abbrev pub is_complete : ParseStatus → Bool
is_complete complete = true
is_complete _ = false

-- The loop over the tokens, from the `i`th on.
unfoldable pub walk : Environment → ℕ → List (List ℕ) → Walk → Outcome Walk
unfolding walk_step
walk env i [] w = ok w
walk env i (token ∷ tokens) w = do
  w ← walk_step env i token w
  elim (is_complete w.status) [ true ↦ walk env (i + 1) tokens w | false ↦ ok w ]

-- `sprintf(…, "%d", n)`: an `int` has ten digits at most.
abbrev pub digits : ℕ → ℕ → List ℕ
digits zero n = []
digits (suc k) n = if ltb n 10 then (48 + n) ∷ [] else digits k (n / 10) ++ ((48 + n % 10) ∷ [])

abbrev pub print_code : Option ℕ → List ℕ
print_code none = 45 ∷ (49 ∷ [])
print_code (some n) = digits 10 n

-- "CMDCODE".
abbrev pub cmdcode_id : List ℕ
cmdcode_id = 67 ∷ 77 ∷ 68 ∷ 67 ∷ 79 ∷ 68 ∷ 69 ∷ []

abbrev pub command_code_tlv : Option ℕ → Tlv
command_code_tlv code = record {
  leaf_type = int;
  leaf_id = padded 32 cmdcode_id;
  value = padded leaf_value_holder_size (print_code code);
}

unfoldable pub collect_code : (ℕ → ℕ) → Option ℕ → Shell → Outcome Shell
collect_code junk code s = do
  b ← collect_tlv junk s.tlv_buff (command_code_tlv code)
  ok (record s { tlv_buff = b })

abbrev pub call : Environment → Option ℕ → ℕ → OpMode → Shell → Outcome Shell
call env none p mode s = stop memory
call env (some f) p mode s = env.invoke f p mode s

abbrev pub call_if : Environment → Option ℕ → ℕ → OpMode → Shell → Outcome Shell
call_if env none p mode s = ok s
call_if env (some f) p mode s = env.invoke f p mode s

unfoldable pub mode_enter_callback : Environment → ℕ → ℕ → OpMode → Shell → Outcome Shell
unfolding build_mode_console_name
mode_enter_callback env k p mode s = if p == root then ok s else entered
  where
    entered : Outcome Shell
    entered = do
      s ← build_mode_console_name k p (set_cmd_tree_cursor p s)
      c ← deref (s.params p)
      call_if env c.callback p mode s

-- The callback of a command that is a mode itself, "config".
unfoldable pub config_mode_enter_handler : ℕ → ℕ → Shell → Outcome Shell
unfolding build_mode_console_name mark_checkpoint_serialize_buffer
config_mode_enter_handler k p s = do
  s ← build_mode_console_name k p (set_cmd_tree_cursor p s)
  ok (record s { tlv_buff = mark_checkpoint_serialize_buffer s.tlv_buff })

-- But for what it prints.
unfoldable pub display_sub_options_callback : Environment → ℕ → Shell → Outcome Shell
display_sub_options_callback env p s = do c ← deref (s.params p); display c.disp_callback
  where
    display : Option ℕ → Outcome Shell
    display none = ok s
    display (some f) = do
      b ← collect_tlv env.junk s.tlv_buff zero_tlv
      env.invoke f p mode_unknown (record s { tlv_buff = b })

-- `dump_all_commands`, but for what it prints; `k` bounds the depth.
abbrev pub dump_name : ℕ → CmdType → Tokens → Outcome Tokens
dump_name index (cmd name) tokens = do
  tokens ← untokenize index tokens
  tokenize name (length name) index tokens
dump_name index (leaf l) tokens = do
  tokens ← untokenize index tokens
  tokenize (60 ∷ (l.leaf_id ++ (62 ∷ []))) (length l.leaf_id + 2) index tokens
dump_name index (no_cmd name) tokens = ok tokens

abbrev pub each_option :
    (Option ℕ → Tokens → Outcome Tokens) → List (Option ℕ) → Tokens → Outcome Tokens
each_option f [] tokens = ok tokens
each_option f (p ∷ options) tokens = do tokens ← f p tokens; each_option f options tokens

-- The children begin behind the three defaults.
abbrev pub children_of : CmdType → List (Option ℕ) → List (Option ℕ)
children_of (no_cmd name) options = []
children_of _ (a ∷ (b ∷ (e ∷ options))) = options
children_of _ options = []

unfoldable pub dump_all_commands : ℕ → Params → ℕ → Option ℕ → Tokens → Outcome Tokens
dump_all_commands zero h index p tokens = stop fuel
dump_all_commands (suc k) h index none tokens = ok tokens
dump_all_commands (suc k) h index (some p) tokens = do
  c ← deref (h p)
  tokens ← dump_name index c.cmd_type tokens
  each_option (dump_all_commands k h (index + 1)) (children_of c.cmd_type c.options) tokens

unfoldable pub display_cmd_expansion_callback : ℕ → ℕ → Shell → Outcome Shell
unfolding dump_all_commands
display_cmd_expansion_callback k p s = do
  tokens ← re_init_tokens max_cmd_tree_depth 0 s.tokens
  tokens ← dump_all_commands k s.params 0 (some p) tokens
  ok (record s { tokens = tokens })

abbrev pub is_callback : Option ℕ → Bool
is_callback none = false
is_callback (some f) = true

-- What a run of `build_tlv_buffer` returns and leaves.
abbrev pub Result : Type 0
Result = ParseStatus × Shell

abbrev pub with_complete : Outcome Shell → Outcome Result
with_complete r = do s ← r; ok (complete, s)

-- The mode in which an application's callback is called.
abbrev pub application_mode : Bool → OpMode → OpMode
application_mode true config_disable = config_disable
application_mode true _ = config_enable
application_mode false mode = operational

module _ (env : Environment) (k : ℕ) where
  -- "brief" behind a command.
  unfoldable pub run_brief : ℕ → Param → Option ℕ → Shell → Outcome Result
  unfolding collect_code
  run_brief p c none s = stop memory
  run_brief p c (some parent) s = do
    q ← deref (s.params parent)
    if not (is_callback q.callback) then ok (incomplete_command, s) else brief
    where
      brief : Outcome Result
      brief = do
        s ← call env c.callback p operational s
        q ← deref (s.params parent)
        s ← collect_code env.junk q.cmdcode s
        with_complete (call env q.callback parent operational s)

  -- "/" behind a command.
  unfoldable pub run_mode : Option ℕ → OpMode → Shell → Outcome Result
  unfolding collect_code mode_enter_callback mark_checkpoint_serialize_buffer
  run_mode none mode s = stop memory
  run_mode (some parent) mode s = do
    q ← deref (s.params parent)
    s ←
        collect_code env.junk q.cmdcode
          (record s { tlv_buff = mark_checkpoint_serialize_buffer s.tlv_buff })
    with_complete (mode_enter_callback env k parent (application_mode true mode) s)

  unfoldable pub run_application : ℕ → Param → OpMode → Shell → Outcome Result
  unfolding collect_code get_current_branch_hook
  run_application p c mode s = do
    hook ← get_current_branch_hook k s.params p
    s ← code hook
    with_complete (call env c.callback p (application_mode (hook == config) mode) s)
    where
      code : ℕ → Outcome Shell
      code hook =
          if not (hook == repeat) && not (p == config)
          then collect_code env.junk c.cmdcode s
          else ok s

  abbrev on_parent : Option ℕ → (ℕ → Outcome Shell) → Outcome Result
  on_parent none f = stop memory
  on_parent (some parent) f = with_complete (f parent)

  -- The tokens have led to a parameter with a callback.
  unfoldable pub run_complete : ℕ → Param → Walk → Outcome Result
  unfolding run_brief run_mode run_application display_sub_options_callback
      display_cmd_expansion_callback
  run_complete p c w =
      if p == show_brief_extension
      then run_brief p c w.parent w.shell
      else if p == suboptions_param
      then on_parent w.parent (λ parent. display_sub_options_callback env parent w.shell)
      else if p == mode_param
      then run_mode w.parent w.mode w.shell
      else if p == cmd_expansion_param
      then on_parent w.parent (λ parent. display_cmd_expansion_callback k parent w.shell)
      else run_application p c w.mode w.shell

  abbrev pub run_walk : Walk → Outcome Result
  run_walk w = if is_complete w.status then completed w.param else ok (w.status, w.shell)
    where
      completed : Option ℕ → Outcome Result
      completed none = stop memory
      completed (some p) = do
        c ← deref (w.shell.params p)
        if is_callback c.callback then run_complete p c w else ok (incomplete_command, w.shell)

  unfoldable pub build_tlv_buffer : List (List ℕ) → Shell → Outcome Result
  unfolding walk run_complete
  build_tlv_buffer tokens s = do w ← walk env 0 tokens (from_cursor s); run_walk w
