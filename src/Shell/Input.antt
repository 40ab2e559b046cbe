-- ===== src/Shell/Input.antt =====
-- CommandParser/parser.c: a line of input, and a file of them.
use tcpserver_lib.Base.{
  ℕ, zero, suc, Bool, true, false, not, ◌&&◌, Option, none, some, List, [], ◌∷◌, Outcome, ok, ◌>>=◌,
  ◌>>◌, deref, assert, ◌==◌, ltb, if◌then◌else◌, length,
}
use tcpserver_lib.Serialize.{
  reset_serialize_buffer, mark_checkpoint_serialize_buffer, restore_checkpoint_serialize_buffer,
}
use tcpserver_lib.Strings.{
  Tokens, tokenizer, get_token, re_init_tokens, max_cmd_tree_depth, c_string,
}
use tcpserver_lib.CmdTree.{root, config, do_hook, repeat, strncmp_eq, get_current_branch_hook}
use tcpserver_lib.Shell.{
  Shell, operational, Environment, set_cmd_tree_cursor, is_user_in_cmd_mode, goto_top_of_cmd_tree,
  go_one_level_up_cmd_tree, build_cmd_tree_leaves_data,
}
use tcpserver_lib.Shell.Build.{
  ParseStatus, complete, incomplete_command, Result, starts_with, build_tlv_buffer, call,
}

-- "do", "repeat", "cd..", "cd", "cls", "run", "ut", "config" and "load".
abbrev pub do_string : List ℕ
do_string = 100 ∷ 111 ∷ []

abbrev pub repeat_string : List ℕ
repeat_string = 114 ∷ 101 ∷ 112 ∷ 101 ∷ 97 ∷ 116 ∷ []

abbrev pub one_level_up_string : List ℕ
one_level_up_string = 99 ∷ 100 ∷ 46 ∷ 46 ∷ []

abbrev pub top_string : List ℕ
top_string = 99 ∷ 100 ∷ []

abbrev pub clear_screen_string : List ℕ
clear_screen_string = 99 ∷ 108 ∷ 115 ∷ []

abbrev pub run_string : List ℕ
run_string = 114 ∷ 117 ∷ 110 ∷ []

abbrev pub ut_string : List ℕ
ut_string = 117 ∷ 116 ∷ []

abbrev pub config_string : List ℕ
config_string = 99 ∷ 111 ∷ 110 ∷ 102 ∷ 105 ∷ 103 ∷ []

abbrev pub load_string : List ℕ
load_string = 108 ∷ 111 ∷ 97 ∷ 100 ∷ []

-- The strings in the entries from the `i`th on.
unfoldable pub read_tokens : (n i : ℕ) → Tokens → Outcome (List (List ℕ))
read_tokens zero i tokens = ok []
read_tokens (suc n) i tokens = do
  b ← get_token i tokens
  token ← c_string b
  rest ← read_tokens n (suc i) tokens
  ok (token ∷ rest)

-- The buffer at the end of a line: in a mode it goes back to the checkpoint.
unfoldable pub settle_buffer : Shell → Shell
unfolding is_user_in_cmd_mode restore_checkpoint_serialize_buffer reset_serialize_buffer
settle_buffer s = record s {
  tlv_buff =
      if is_user_in_cmd_mode s
      then restore_checkpoint_serialize_buffer s.tlv_buff
      else reset_serialize_buffer s.tlv_buff;
}

unfoldable pub settle : Shell → Outcome Shell
unfolding settle_buffer
settle s = do
  tokens ← re_init_tokens max_cmd_tree_depth 0 s.tokens
  ok (settle_buffer (record s { tokens = tokens }))

-- A line by the kind of its first token and the number of its tokens.
pub data Request : Type 0 where
  do_request repeat_request one_level_up top clear_screen run_ut load_config command : Request

-- The chain of tests of `parse_input_cmd`; `in_mode` says that the cursor is not at the root.
abbrev pub is_do : Bool → List ℕ → List (List ℕ) → Bool
is_do in_mode token rest = ltb 0 (length rest) && (strncmp_eq token do_string 2 && in_mode)

abbrev pub second_is : List ℕ → List (List ℕ) → Bool
second_is word [] = false
second_is word (token ∷ rest) = starts_with token word

unfoldable pub classify : Bool → List ℕ → List (List ℕ) → Request
classify in_mode token rest =
    if is_do in_mode token rest
    then do_request
    else if strncmp_eq token repeat_string (length token)
    then repeat_request
    else if starts_with token one_level_up_string && length rest == 0
    then one_level_up
    else if starts_with token top_string && length rest == 0
    then top
    else if starts_with token clear_screen_string && length rest == 0
    then clear_screen
    else if starts_with token run_string && (second_is ut_string rest && length rest == 3)
    then run_ut
    else if starts_with token config_string && (second_is load_string rest && length rest == 2)
    then load_config
    else command

-- What the line's work leaves, whether it was a repetition, and its status.
module _ (env : Environment) (k : ℕ) where
  -- "do" in the configuration mode: the command starts at the operational hook.
  unfoldable pub do_command : List (List ℕ) → Shell → Outcome Result
  unfolding get_current_branch_hook set_cmd_tree_cursor reset_serialize_buffer build_tlv_buffer
      build_cmd_tree_leaves_data mark_checkpoint_serialize_buffer
  do_command rest s = do
    hook ← get_current_branch_hook k s.params s.cmd_tree_cursor
    if not (hook == config) then ok (complete, s) else in_config
    where
      old_cursor : ℕ
      old_cursor = s.cmd_tree_cursor

      back : ParseStatus → Shell → Outcome Result
      back status s' = do
        b ← build_cmd_tree_leaves_data k env.junk s'.params s'.tlv_buff root old_cursor
        ok (
          status,
          record s' { cmd_tree_cursor = old_cursor; tlv_buff = mark_checkpoint_serialize_buffer b },
        )

      switched : ParseStatus → Shell → Outcome Result
      switched status s' = do
        hook ← get_current_branch_hook k s'.params s'.cmd_tree_cursor
        assert (not (hook == config))
        ok (status, s')

      in_config : Outcome Result
      in_config = do
        (status, s') ← build_tlv_buffer env k rest (record (set_cmd_tree_cursor do_hook s) {
          tlv_buff = reset_serialize_buffer s.tlv_buff;
        })
        if not (s'.cmd_tree_cursor == do_hook) then switched status s' else back status s'

  -- A line of a file. The tokenizer's fuel is `k` too.
  unfoldable pub file_line : List ℕ → Shell → Outcome Shell
  unfolding build_tlv_buffer read_tokens settle
  file_line line s = do
    (cnt, tokens) ← tokenizer k line 32 s.tokens
    args ← read_tokens cnt 0 tokens
    (status, s) ←
        build_tlv_buffer env k args
          (record s { tokens = tokens; tlv_buff = reset_serialize_buffer s.tlv_buff })
    settle s

  unfoldable pub file_lines : List (List ℕ) → Shell → Outcome Shell
  unfolding file_line
  file_lines [] s = ok s
  file_lines (line ∷ lines) s = do s ← file_line line s; file_lines lines s

  -- `lines` is what `fgets` returns of the file, `none` if it cannot be opened.
  unfoldable pub parse_file : Option (List (List ℕ)) → Shell → Outcome Shell
  unfolding file_lines
  parse_file none s = ok s
  parse_file (some lines) s =
      file_lines lines (record s { tlv_buff = reset_serialize_buffer s.tlv_buff })

  module _ (file : List ℕ → Option (List (List ℕ)))
      (run_test_case : List (List ℕ) → Shell → Outcome Shell) where
    abbrev pub third : List (List ℕ) → List ℕ
    third (a ∷ (b ∷ rest)) = b
    third _ = []

    -- The branches: the status, whether it was a repetition, and what is left.
    unfoldable pub serve_line : Request → List ℕ → List (List ℕ) → Shell → Outcome (Bool × Result)
    unfolding do_command goto_top_of_cmd_tree go_one_level_up_cmd_tree parse_file build_tlv_buffer
    serve_line do_request token rest s = do r ← do_command rest s; ok (false, r)
    serve_line repeat_request token rest s = do
      c ← deref (s.params repeat)
      s ← call env c.callback repeat operational s
      ok (true, (complete, s))
    serve_line one_level_up token rest s = do
      s ← go_one_level_up_cmd_tree k s.cmd_tree_cursor s
      ok (false, (complete, s))
    serve_line top token rest s = do
      s ← goto_top_of_cmd_tree k s.cmd_tree_cursor s
      ok (false, (complete, s))
    serve_line clear_screen token rest s = ok (false, (complete, s))
    serve_line run_ut token rest s = do s ← run_test_case rest s; ok (false, (complete, s))
    serve_line load_config token rest s = do
      s ← parse_file (file (third rest)) s
      ok (false, (complete, s))
    serve_line command token rest s = do r ← build_tlv_buffer env k (token ∷ rest) s; ok (false, r)

    abbrev pub on_tokens : List (List ℕ) → Shell → Outcome (Bool × Result)
    on_tokens [] s = ok (false, (incomplete_command, s))
    on_tokens (token ∷ rest) s = do
      (repeated, (status, s)) ←
          serve_line (classify (is_user_in_cmd_mode s) token rest) token rest s
      s ← settle s
      ok (repeated, (status, s))

    unfoldable pub parse_input_cmd : List ℕ → Shell → Outcome (Bool × Result)
    unfolding read_tokens classify serve_line settle
    parse_input_cmd input s = do
      (cnt, tokens) ← tokenizer k input 32 s.tokens
      args ← read_tokens cnt 0 tokens
      on_tokens args (record s { tokens = tokens })
