-- ===== src/Shell/Init/Tests.antt =====
-- What `init_libcli` makes.
use tcpserver_lib.Base.{
  ℕ, ◌≡◌, refl, Option, none, some, List, [], Outcome, ok, ◌>>=◌, deref, ◌∷◌, Returns, arith,
}
use tcpserver_lib.Serialize.{init_serialized_buffer_of_defined_size}
use tcpserver_lib.Strings.{init_token_array}
use tcpserver_lib.CmdTree.{root, find_matching_param, find_loop, is_cmd_string_match}
use tcpserver_lib.Shell.{Shell, Environment}
use tcpserver_lib.Shell.Init.Sound.{blank}
use tcpserver_lib.Shell.Init.Started.{Started, init_libcli-Started}
use tcpserver_lib.Shell.Init.{init_libcli}
use tcpserver_lib.Shell.Init.Names.{codes, clear_cmds, debug_ut, debug}

-- Some memory.
abbrev memory_before : Shell
memory_before = record {
  params = λ p. none;
  cmd_tree_cursor = 0;
  tlv_buff = init_serialized_buffer_of_defined_size 0;
  console_name = [];
  tokens = init_token_array;
}

console_started :
    (do s ← init_libcli (λ c. 100) 3 (blank memory_before); ok s.console_name)
    ≡ ok (codes "tcp-server>")
unfolding init_libcli
console_started = refl

-- What a word below this parameter means.
looked_up : List ℕ → ℕ → Outcome (Option ℕ)
unfolding init_libcli find_matching_param find_loop is_cmd_string_match
looked_up word p = do
  s ← init_libcli (λ c. 100) 3 (blank memory_before)
  c ← deref (s.params p)
  find_matching_param s.params none c.options word

clear_found : looked_up (codes "clea") root ≡ ok (some clear_cmds)
unfolding looked_up
clear_found = refl

ut_found : looked_up (codes "ut") debug ≡ ok (some debug_ut)
unfolding looked_up
ut_found = refl

abbrev surroundings : Environment
surroundings = record { junk = λ i. 0; invoke = λ f p mode s. ok s; choice = λ i. none }

abbrev words : List (List ℕ)
words = codes "conf" ∷ codes "load" ∷ codes "topology" ∷ []

init_libcli-Started_example :
    Returns (Started surroundings words) (init_libcli (λ c. 100) 3 (blank memory_before))
init_libcli-Started_example =
    init_libcli-Started (λ c. 100) memory_before surroundings 3 words
      (omega arith, (omega arith, (omega arith, tt)))
      (omega arith, (omega arith, (omega arith, tt))) (omega arith)
