-- ===== src/Shell/Init/Names.antt =====
-- The static variables and the callbacks of `init_libcli`, and its abbreviations.
use Prim.Native.Char.{code}
use Prim.Native.String.{String}
use tcpserver_lib.Base.{ℕ, Bool, true, Option, none, List, [], ◌∷◌, Outcome}
use tcpserver_lib.Tlv.{LeafType, invalid}
use tcpserver_lib.CmdTree.{Params, cmd_param, leaf_param, init_param, put_param, modify_param}

-- The bytes of a text.
abbrev pub codes : String → List ℕ
codes String.[] = []
codes (String.◌∷◌ c s) = code c ∷ codes s

-- The addresses of the other static variables; a word that another variable has is joined with that of
-- its parent (`ut`, `enable`), and so are `help`, `terminate` and `clear`.
abbrev pub show : ℕ
show = 8

abbrev pub show_help : ℕ
show_help = 9

abbrev pub show_history : ℕ
show_history = 10

abbrev pub no_of_commands : ℕ
no_of_commands = 11

abbrev pub show_resgistered : ℕ
show_resgistered = 12

abbrev pub show_resgistered_cmds : ℕ
show_resgistered_cmds = 13

abbrev pub debug : ℕ
debug = 14

abbrev pub debug_ut : ℕ
debug_ut = 15

abbrev pub debug_ut_enable : ℕ
debug_ut_enable = 16

abbrev pub debug_show : ℕ
debug_show = 17

abbrev pub debug_show_cmdtree : ℕ
debug_show_cmdtree = 18

abbrev pub load : ℕ
load = 19

abbrev pub file_name : ℕ
file_name = 20

abbrev pub supportsave : ℕ
supportsave = 21

abbrev pub supportsave_enable : ℕ
supportsave_enable = 22

abbrev pub clear_cmds : ℕ
clear_cmds = 23

abbrev pub run : ℕ
run = 24

abbrev pub run_terminate : ℕ
run_terminate = 25

abbrev pub run_ut : ℕ
run_ut = 26

abbrev pub ut_file_path : ℕ
ut_file_path = 27

abbrev pub tc_no : ℕ
tc_no = 28

abbrev pub config_console : ℕ
config_console = 29

abbrev pub config_console_name : ℕ
config_console_name = 30

abbrev pub config_console_name_name : ℕ
config_console_name_name = 31

abbrev pub cls : ℕ
cls = 32

abbrev pub exit_cmd : ℕ
exit_cmd = 33

abbrev pub end_cmd : ℕ
end_cmd = 34

-- The callbacks that the tree refers to.
pub data Callback : Type 0 where
  mode_enter_callback display_sub_options_callback display_cmd_expansion_callback show_help_handler
        show_history_callback show_resgistered_cmd_handler ut_test_handler show_cmd_tree
        config_mode_enter_handler load_file_handler supportsave_handler cli_terminate_handler
        repeat_last_command config_console_name_handler clear_screen_handler exit_cmd_handler
        end_cmd_handler show_extension_param_handler :
      Callback

-- A command, which starts a piece of the tree.
abbrev pub new_cmd : ℕ → List ℕ → Option ℕ → List ℕ → Params → Params
new_cmd p name callback help = put_param p (init_param cmd_param name callback none invalid [] help)

abbrev pub new_leaf :
    ℕ → List ℕ → Option ℕ → Option (List ℕ → Bool) → LeafType → List ℕ → List ℕ → Params → Params
new_leaf p name callback valid type id help =
    put_param p (init_param leaf_param name callback valid type id help)

-- `HIDE_PARAM`.
abbrev pub hide : ℕ → Params → Outcome Params
hide p = modify_param p (λ c. record c { is_hidden = true })
