-- ===== src/Shell/Init.antt =====
-- `init_libcli` of CommandParser/cmd_hier.c: the commands that the command line comes with. `at_address`
-- tells where the loader puts the callbacks. That CTRL-C gets a handler is left out.
pub mod Names
pub mod Sound
pub mod Started
pub mod Tested
mod Tests
use tcpserver_lib.Base.{
  ℕ, Option, none, some, List, [], ◌∷◌, Outcome, ok, stop, memory, ◌>>=◌, deref,
}
use tcpserver_lib.Serialize.{init_serialized_buffer_of_defined_size}
use tcpserver_lib.Strings.{init_token_array}
use tcpserver_lib.Tlv.{int, string}
use tcpserver_lib.CmdTree.{
  Params, init_param, put_param, set_param_cmd_code, libcli_register_param, root, do_hook, config,
  repeat, show_brief_extension, mode_param, suboptions_param, cmd_expansion_param,
}
use tcpserver_lib.Shell.{Shell, reset_cmd_tree_cursor, set_device_name}
use tcpserver_lib.Shell.Build.{enable_disable_validation_handler}
use tcpserver_lib.Shell.Init.Names.{
  codes, new_cmd, new_leaf, hide, Callback, show, show_help, show_history, no_of_commands,
  show_resgistered, show_resgistered_cmds, debug, debug_ut, debug_ut_enable, debug_show,
  debug_show_cmdtree, load, file_name, supportsave, supportsave_enable, clear_cmds, run,
  run_terminate, run_ut, ut_file_path, tc_no, config_console, config_console_name,
  config_console_name_name, cls, exit_cmd, end_cmd, config_mode_enter_handler, load_file_handler,
  config_console_name_handler, mode_enter_callback, show_help_handler, ut_test_handler,
  display_cmd_expansion_callback, supportsave_handler, repeat_last_command,
  show_extension_param_handler, show_resgistered_cmd_handler, cli_terminate_handler,
  end_cmd_handler, display_sub_options_callback, show_history_callback, show_cmd_tree,
  clear_screen_handler, exit_cmd_handler,
}

module _ (at_address : Callback → ℕ) where
  unfoldable pub init_capabilities : Params → Outcome Params
  unfolding init_param
  init_capabilities h = do
    let h =
        new_cmd mode_param (codes "/") (some (at_address mode_enter_callback)) (codes "ENTER MODE")
          h
    let h =
        new_cmd suboptions_param (codes "?") (some (at_address display_sub_options_callback))
          (codes "Sub-Options") h
    let h =
        new_cmd cmd_expansion_param (codes ".") (some (at_address display_cmd_expansion_callback))
          (codes "All possible Command expansions") h
    ok h

  unfoldable pub init_show : Params → Outcome Params
  unfolding init_param libcli_register_param set_param_cmd_code
  init_show h = do
    let h = new_cmd show (codes "show") none (codes "show cmds") h
    h ← libcli_register_param (some root) show h
    let h =
        new_cmd show_help (codes "help") (some (at_address show_help_handler))
          (codes "help how to use this CLI") h
    h ← libcli_register_param (some show) show_help h
    h ← set_param_cmd_code show_help 1 h
    let h =
        new_cmd show_history (codes "history") (some (at_address show_history_callback))
          (codes "Command history") h
    h ← libcli_register_param (some show) show_history h
    h ← set_param_cmd_code show_history 2 h
    let h =
        new_leaf no_of_commands (codes "N") (some (at_address show_history_callback)) none int
          (codes "N") (codes "No Of Commands to fetch") h
    h ← libcli_register_param (some show_history) no_of_commands h
    h ← set_param_cmd_code no_of_commands 3 h
    let h = new_cmd show_resgistered (codes "registered") none (codes "registered") h
    h ← libcli_register_param (some show) show_resgistered h
    let h =
        new_cmd show_resgistered_cmds (codes "commands")
          (some (at_address show_resgistered_cmd_handler)) (codes "commands") h
    h ← libcli_register_param (some show_resgistered) show_resgistered_cmds h
    h ← set_param_cmd_code show_resgistered_cmds 4 h
    ok h

  unfoldable pub init_debug : Params → Outcome Params
  unfolding init_param libcli_register_param set_param_cmd_code enable_disable_validation_handler
  init_debug h = do
    let h = new_cmd debug (codes "debug") none (codes "debug cmds") h
    h ← libcli_register_param (some root) debug h
    let h = new_cmd debug_ut (codes "ut") none (codes "debug ut") h
    h ← libcli_register_param (some debug) debug_ut h
    let h =
        new_leaf debug_ut_enable [] (some (at_address ut_test_handler))
          (some enable_disable_validation_handler) string (codes "ut-enable")
          (codes "enable | disable") h
    h ← libcli_register_param (some debug_ut) debug_ut_enable h
    h ← set_param_cmd_code debug_ut_enable 10 h
    let h = new_cmd debug_show (codes "show") none (codes "debug show commands") h
    h ← libcli_register_param (some debug) debug_show h
    let h =
        new_cmd debug_show_cmdtree (codes "cmdtree") (some (at_address show_cmd_tree))
          (codes "Display command tree") h
    h ← libcli_register_param (some debug_show) debug_show_cmdtree h
    h ← set_param_cmd_code debug_show_cmdtree 7 h
    ok h

  unfoldable pub init_config : Params → Outcome Params
  unfolding init_param libcli_register_param set_param_cmd_code
  init_config h = do
    let h =
        new_cmd config (codes "config") (some (at_address config_mode_enter_handler))
          (codes "config cmds") h
    h ← libcli_register_param (some root) config h
    let h = new_cmd load (codes "load") none (codes "load cmds") h
    h ← libcli_register_param (some config) load h
    let h =
        new_leaf file_name [] (some (at_address load_file_handler)) none string (codes "file-name")
          (codes "Name of the file") h
    h ← libcli_register_param (some load) file_name h
    h ← set_param_cmd_code file_name 8 h
    let h = new_cmd supportsave (codes "supportsave") none (codes "Collect Support Save Data") h
    h ← libcli_register_param (some config) supportsave h
    let h =
        new_cmd supportsave_enable (codes "enable") (some (at_address supportsave_handler))
          (codes "enable/disable Support Save Data Collection") h
    h ← libcli_register_param (some supportsave) supportsave_enable h
    h ← set_param_cmd_code supportsave_enable 5 h
    ok h

  unfoldable pub init_run : Params → Outcome Params
  unfolding init_param libcli_register_param set_param_cmd_code
  init_run h = do
    let h = new_cmd clear_cmds (codes "clear") none (codes "clear cmds") h
    h ← libcli_register_param (some root) clear_cmds h
    let h = new_cmd run (codes "run") none (codes "run cmds") h
    h ← libcli_register_param (some root) run h
    let h =
        new_cmd run_terminate (codes "term") (some (at_address cli_terminate_handler))
          (codes "Terminate appln") h
    h ← libcli_register_param (some run) run_terminate h
    let h = new_cmd run_ut (codes "ut") none (codes "Unit Test") h
    h ← libcli_register_param (some run) run_ut h
    let h =
        new_leaf ut_file_path [] none none string (codes "ut-file-name") (codes "UT file name") h
    h ← libcli_register_param (some run_ut) ut_file_path h
    let h =
        new_leaf tc_no [] (some (at_address ut_test_handler)) none int (codes "tc-no")
          (codes "Test Case Number") h
    h ← libcli_register_param (some ut_file_path) tc_no h
    h ← set_param_cmd_code tc_no 9 h
    ok h

  unfoldable pub init_repeat : Params → Outcome Params
  unfolding init_param libcli_register_param
  init_repeat h = do
    let h =
        new_cmd repeat (codes "repeat") (some (at_address repeat_last_command)) (codes "repeat") h
    h ← libcli_register_param (some root) repeat h
    ok h

  unfoldable pub init_console : Params → Outcome Params
  unfolding init_param libcli_register_param set_param_cmd_code
  init_console h = do
    let h = new_cmd config_console (codes "console") none (codes "console") h
    h ← libcli_register_param (some config) config_console h
    let h = new_cmd config_console_name (codes "name") none (codes "name") h
    h ← libcli_register_param (some config_console) config_console_name h
    let h =
        new_leaf config_console_name_name [] (some (at_address config_console_name_handler)) none
          string (codes "cons-name") (codes "Name of Console") h
    h ← libcli_register_param (some config_console_name) config_console_name_name h
    h ← set_param_cmd_code config_console_name_name 6 h
    ok h

  unfoldable pub init_zero_level : Params → Outcome Params
  unfolding init_param libcli_register_param
  init_zero_level h = do
    let h =
        new_cmd cls (codes "cls") (some (at_address clear_screen_handler)) (codes "clear screen") h
    h ← hide cls h
    h ← libcli_register_param none cls h
    let h =
        new_cmd exit_cmd (codes "cd..") (some (at_address exit_cmd_handler))
          (codes "Move One Level Up") h
    h ← hide exit_cmd h
    h ← libcli_register_param none exit_cmd h
    let h =
        new_cmd end_cmd (codes "cd") (some (at_address end_cmd_handler)) (codes "Goto Top level") h
    h ← hide end_cmd h
    h ← libcli_register_param none end_cmd h
    let h =
        new_cmd show_brief_extension (codes "brief")
          (some (at_address show_extension_param_handler)) (codes "brief output") h
    ok h

  -- The entries that `do` starts from, by a plain write to the array.
  abbrev pub do_hook_options : List (Option ℕ) → Outcome (List (Option ℕ))
  do_hook_options (a ∷ (b ∷ (e ∷ (s ∷ (d ∷ (c ∷ rest)))))) = ok (
      some suboptions_param
      ∷ (some suboptions_param
          ∷ (some cmd_expansion_param ∷ (some show ∷ (some debug ∷ (some clear_cmds ∷ rest))))))
  do_hook_options _ = stop memory

  unfoldable pub init_do_hook : Params → Outcome Params
  unfolding init_param
  init_do_hook h = do
    let h = new_cmd do_hook (codes "DO_HOOK") none (codes "operational commands shortcut") h
    c ← deref (h do_hook)
    options ← do_hook_options c.options
    ok (put_param do_hook (record c { options = options }) h)

  -- The commands, from the root to the extension "brief".
  unfoldable pub init_params : Params → Outcome Params
  unfolding init_show init_debug init_config init_run init_do_hook init_repeat init_console
      init_zero_level
  init_params h = do
    h ← init_show h
    h ← init_debug h
    h ← init_config h
    h ← init_run h
    h ← init_do_hook h
    h ← init_repeat h
    h ← init_console h
    init_zero_level h

  unfoldable pub init_libcli : ℕ → Shell → Outcome Shell
  unfolding init_param init_serialized_buffer_of_defined_size reset_cmd_tree_cursor set_device_name
      init_token_array init_capabilities init_params
  init_libcli k s = do
    let h = new_cmd root (codes "ROOT") none (codes "ROOT") s.params
    let s =
        reset_cmd_tree_cursor
          (record s { params = h; tlv_buff = init_serialized_buffer_of_defined_size 1024 })
    s ← set_device_name k (codes "tcp-server") s
    h ← init_capabilities s.params
    h ← init_params h
    ok (record s { params = h; tokens = init_token_array })
