-- ===== src/Shell/Tests.antt =====
-- A configuration mode with a leaf, in which the operational command "show" is typed.
use tcpserver_lib.Base.{
  ℕ, ◌≡◌, refl, false, Option, none, some, List, [], ◌∷◌, ◌++◌, ok, ◌==◌, if◌then◌else◌, replicate,
  Returns, All, arith,
}
use mathlib.Core.List.{reverse}
use tcpserver_lib.Serialize.{init_serialized_buffer_of_defined_size}
use tcpserver_lib.Serialize.Append.{init-IsValid}
use tcpserver_lib.Strings.{init_token_array, leaf_value_holder_size}
use tcpserver_lib.Tlv.{int}
use tcpserver_lib.Tlv.Value.{padded}
use tcpserver_lib.CmdTree.{
  Params, Param, CmdType, cmd, leaf, root, config, do_hook, suboptions_param, cmd_expansion_param,
  find_matching_param, find_loop, is_cmd_string_match,
}
use tcpserver_lib.CmdTree.Hook.{Up}
use tcpserver_lib.Shell.{Shell, Environment, build_cmd_tree_leaves_data}
use tcpserver_lib.Shell.Build.{build_tlv_buffer, incomplete_command}
use tcpserver_lib.Shell.Input.{do_command}
use tcpserver_lib.Shell.Leaves.{Readable, Rebuilt, build_cmd_tree_leaves_data-Rebuilt}
use tcpserver_lib.Shell.DoMode.{Resumed, at_do_hook, do_command-Resumed}
use tcpserver_lib.Base.{◌>>=◌}
use tcpserver_lib.Tlv.{collect_tlv}
use tcpserver_lib.CmdTree.{show_brief_extension}
use tcpserver_lib.Shell.Build.{command_code_tlv}
use tcpserver_lib.Shell.Extension.{
  brief, get_show_extension_type, show_extension_param_handler,
  get_show_extension_type-show_extension_param_handler,
}
use mathlib.Core.Path.{subst}
use tcpserver_lib.Base.{Bool-cases, inl, inr}
use tcpserver_lib.Shell.{mode_unknown}
use tcpserver_lib.Shell.Build.{Walk, walk, complete}
use tcpserver_lib.Shell.Sound.{Sound, Options, IsLeaf}
use tcpserver_lib.Shell.Take.{Walked}
use tcpserver_lib.Shell.Walk.{walk-Walked}

abbrev param : CmdType → List (Option ℕ) → Option ℕ → Param
param type options parent = record {
  cmd_type = type;
  callback = none;
  is_hidden = false;
  help = [];
  options = options;
  parent = parent;
  disp_callback = none;
  cmdcode = none;
}

abbrev command : List ℕ → Option ℕ → Param
command name parent = param (cmd name) (replicate 16 none) parent

abbrev show_word : List ℕ
show_word = 115 ∷ 104 ∷ 111 ∷ 119 ∷ []

abbrev do_options : List (Option ℕ)
do_options =
    some suboptions_param
    ∷ some suboptions_param
    ∷ some cmd_expansion_param
    ∷ some 20
    ∷ replicate 12 none

-- The leaf holds "7".
abbrev port : Param
port =
    param
      (leaf (record {
        leaf_type = int;
        value_holder = padded leaf_value_holder_size (55 ∷ []);
        user_validation_cb_fn = none;
        leaf_id = 112 ∷ [];
      }))
      (replicate 16 none) (some config)

abbrev root_command : Param
root_command = command (82 ∷ []) none

abbrev config_command : Param
config_command = command (99 ∷ []) (some root)

abbrev tree : Params
tree q =
    if q == root
    then some root_command
    else if q == config
    then some config_command
    else if q == do_hook
    then some (param (cmd (68 ∷ [])) do_options none)
    else if q == suboptions_param
    then some (command (63 ∷ []) none)
    else if q == cmd_expansion_param
    then some (command (46 ∷ []) none)
    else if q == 20
    then some (command show_word (some root))
    else if q == 21
    then some port
    else none

abbrev surroundings : Environment
surroundings = record { junk = λ i. 0; invoke = λ f p mode s. ok s; choice = λ i. none }

abbrev shell : Shell
shell = record {
  params = tree;
  cmd_tree_cursor = 21;
  tlv_buff = init_serialized_buffer_of_defined_size 1024;
  console_name = 116 ∷ 62 ∷ [];
  tokens = init_token_array;
}

abbrev path : List (ℕ × Param)
path = (21, port) ∷ (config, config_command) ∷ []

path-Up : Up tree root 21 path
path-Up = (refl, refl, refl, (config, refl, (refl, refl, refl, (root, refl, refl))))

path-Readable : All (λ (q, c). Readable c.cmd_type) path
path-Readable = ((refl, refl, omega arith), (tt, tt))

build_cmd_tree_leaves_data-Rebuilt_example :
    Returns (Rebuilt (reverse (path ++ ((root, root_command) ∷ [])))) (
      build_cmd_tree_leaves_data 3
        (λ i. 0)
        tree
        (init_serialized_buffer_of_defined_size 1024)
        root
        21)
unfolding init_serialized_buffer_of_defined_size
build_cmd_tree_leaves_data-Rebuilt_example =
    build_cmd_tree_leaves_data-Rebuilt (λ i. 0) 3 tree (init_serialized_buffer_of_defined_size 1024)
      root 21 root_command path path-Up refl path-Readable tt (omega arith) (omega arith)
      (init-IsValid 1024).0 (omega arith)

-- "show" has no callback.
show_alone :
    build_tlv_buffer surroundings 3 (show_word ∷ []) (at_do_hook shell)
    ≡ ok (incomplete_command, at_do_hook shell)
unfolding build_tlv_buffer find_matching_param find_loop is_cmd_string_match
show_alone = refl

do_command-Resumed_example :
    Returns
      (Resumed incomplete_command
        (at_do_hook shell)
        21
        (reverse (path ++ ((root, root_command) ∷ []))))
      (do_command surroundings 3 (show_word ∷ []) shell)
unfolding init_serialized_buffer_of_defined_size
do_command-Resumed_example =
    do_command-Resumed surroundings 3 (show_word ∷ []) shell (at_do_hook shell) incomplete_command
      root_command path path refl path-Up (omega arith) refl show_alone refl (init-IsValid 1024).0
      (omega arith) path-Up refl path-Readable tt (omega arith) (omega arith)

-- A parameter with one leaf.
abbrev number : Param
number =
    param
      (leaf (record {
        leaf_type = int;
        value_holder = replicate leaf_value_holder_size 0;
        user_validation_cb_fn = none;
        leaf_id = 110 ∷ [];
      }))
      (replicate 16 none) (some 30)

abbrev number_options : List (Option ℕ)
number_options = some 31 ∷ replicate 15 none

abbrev set_number : Param
set_number = param (cmd (115 ∷ [])) number_options (some config)

abbrev small_tree : Params
small_tree p = if p == 30 then some set_number else if p == 31 then some number else none

small_tree-cases :
    (Q : Param → Type 0) (p : ℕ) (c : Param) → small_tree p ≡ some c → Q set_number → Q number → Q c
small_tree-cases Q p c live is is' = elim (Bool-cases (p == 30)) [
  | inl e ↦ let same : set_number ≡ c = cc (rw e at live) in subst Q same is
  | inr e ↦ elim (Bool-cases (p == 31)) [
    | inl e' ↦ let same : number ≡ c = cc (rw (e, e') at live) in subst Q same is'
    | inr e' ↦ absurd (cc (rw (e, e') at live))
  ]
]

small_tree-Sound : Sound small_tree ((55 ∷ []) ∷ [])
small_tree-Sound = record {
  options_are = λ p c live.
      small_tree-cases (λ d. Options small_tree ((55 ∷ []) ∷ []) d.options) p c live
        ((31, number) ∷ [], replicate 14 none, refl, (refl, tt), (omega arith, tt))
        ([], replicate 15 none, refl, tt, (omega arith, tt));
  leaves_are =
      λ p c live. small_tree-cases (λ d. IsLeaf d.cmd_type) p c live tt (refl, refl, omega arith);
}

abbrev start : Walk
start = record {
  param = some 30;
  parent = none;
  mode = mode_unknown;
  status = complete;
  shell = record shell { params = small_tree };
}

walk-Walked_example :
    Returns (Walked start.shell ((55 ∷ []) ∷ []) []) (walk surroundings 0 ((55 ∷ []) ∷ []) start)
unfolding init_serialized_buffer_of_defined_size
walk-Walked_example =
    walk-Walked surroundings 0 ((55 ∷ []) ∷ []) start (set_number, refl) small_tree-Sound
      (omega arith, tt)
      (record { valid = (init-IsValid 1024).0; nonempty = omega arith; room = omega arith })

get_show_extension_type-show_extension_param_handler_example :
    Returns
      (λ b. get_show_extension_type b ≡ ok brief)
      (show_extension_param_handler
          (λ i. 0)
          show_brief_extension
          (init_serialized_buffer_of_defined_size 1024)
        >>= λ b. collect_tlv (λ i. 0) b (command_code_tlv (some 5)))
unfolding init_serialized_buffer_of_defined_size
get_show_extension_type-show_extension_param_handler_example =
    get_show_extension_type-show_extension_param_handler (λ i. 0)
      (init_serialized_buffer_of_defined_size 1024) (some 5) 0 (init-IsValid 1024).0 (omega arith)
      refl (omega arith)
