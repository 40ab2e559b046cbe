-- ===== src/CmdTree/Tests.antt =====
-- A tree with the commands "set", "setup" and "reset" below "config".
use tcpserver_lib.Base.{
  ℕ, zero, suc, ◌≡◌, refl, false, Option, none, some, List, [], ◌∷◌, ok, stop, memory, ◌==◌,
  if◌then◌else◌, replicate, Returns, arith,
}
use tcpserver_lib.CmdTree.{
  Params, Param, cmd, config, mode_param, suboptions_param, cmd_expansion_param,
  find_matching_param, libcli_register_param, support_cmd_negation, root,
}
use tcpserver_lib.CmdTree.Match.{
  Children, Live, entries, meant, find_matching_param-meant, find_matching_param-overrun,
}
use tcpserver_lib.CmdTree.Register.{Found, libcli_register_param-Found}
use tcpserver_lib.CmdTree.Negation.{Negated, support_cmd_negation-Negated}

abbrev set_word : List ℕ
set_word = 115 ∷ 101 ∷ 116 ∷ []

abbrev setup_word : List ℕ
setup_word = 115 ∷ 101 ∷ 116 ∷ 117 ∷ 112 ∷ []

abbrev reset_word : List ℕ
reset_word = 114 ∷ 101 ∷ 115 ∷ 101 ∷ 116 ∷ []

-- "se".
abbrev token : List ℕ
token = 115 ∷ 101 ∷ []

abbrev command : List ℕ → List (Option ℕ) → Option ℕ → Param
command name options parent = record {
  cmd_type = cmd name;
  callback = some 9;
  is_hidden = false;
  help = [];
  options = options;
  parent = parent;
  disp_callback = none;
  cmdcode = none;
}

abbrev fresh_command : List ℕ → Option ℕ → Param
fresh_command name parent = command name (replicate 16 none) parent

abbrev children : Children
children =
    (20, fresh_command set_word (some config)) ∷ (21, fresh_command setup_word (some config)) ∷ []

abbrev slash : Param
slash = fresh_command (47 ∷ []) none

abbrev question : Param
question = fresh_command (63 ∷ []) none

abbrev dot : Param
dot = fresh_command (46 ∷ []) none

abbrev options : Children
options = (mode_param, slash) ∷ (suboptions_param, question) ∷ (cmd_expansion_param, dot) ∷ children

abbrev config_command : Param
config_command = command (99 ∷ []) (entries options (none ∷ replicate 10 none)) (some root)

abbrev tree : Params
tree q =
    if q == mode_param
    then some slash
    else if q == suboptions_param
    then some question
    else if q == cmd_expansion_param
    then some dot
    else if q == config
    then some config_command
    else if q == 20
    then some (fresh_command set_word (some config))
    else if q == 21
    then some (fresh_command setup_word (some config))
    else if q == 22
    then some (fresh_command reset_word none)
    else none

options-Live : Live tree options
options-Live = (refl, (refl, (refl, (refl, (refl, tt)))))

find_matching_param-meant_example :
    find_matching_param tree (some 1) (entries options (none ∷ replicate 10 none)) token
    ≡ ok (meant (some 1) token options)
find_matching_param-meant_example =
    find_matching_param-meant tree (some 1) token options (replicate 10 none) options-Live
      (omega arith)

-- The user has chosen the second.
meant_setup : meant (some 1) token options ≡ some 21
meant_setup = refl

abbrev full : Children
full = replicate 16 (20, fresh_command set_word (some config))

full-Live : (n : ℕ) → Live tree (replicate n (20, fresh_command set_word (some config)))
full-Live zero = tt
full-Live (suc n) = (refl, full-Live n)

find_matching_param-overrun_example :
    find_matching_param tree none (entries full []) (120 ∷ []) ≡ stop memory
find_matching_param-overrun_example =
    find_matching_param-overrun tree none (120 ∷ []) full (full-Live 16) refl (omega arith)

libcli_register_param-Found_example :
    Returns
      (Found tree config 22 config_command
        (fresh_command reset_word none)
        options
        (replicate 10 none)
        none
        reset_word)
      (libcli_register_param (some config) 22 tree)
libcli_register_param-Found_example =
    libcli_register_param-Found tree (some config) 22 config_command (fresh_command reset_word none)
      options (replicate 10 none) none reset_word refl refl refl refl (omega arith) options-Live
      ((refl, refl), ((refl, refl), ((refl, refl), ((refl, refl), ((refl, refl), tt))))) refl refl
      (omega arith)

support_cmd_negation-Negated_example :
    Returns
      (Negated tree config 40 11 config_command
        ((mode_param, slash) ∷ (suboptions_param, question) ∷ (cmd_expansion_param, dot) ∷ [])
        children
        (replicate 10 none)
        none)
      (support_cmd_negation 1 none 40 11 config tree)
support_cmd_negation-Negated_example =
    support_cmd_negation-Negated 1 none 40 11 config tree config_command
      ((config, config_command) ∷ []) (mode_param, slash) (suboptions_param, question)
      (cmd_expansion_param, dot) children (replicate 10 none) refl
      (refl, refl, refl, (root, refl, refl)) (omega arith) refl refl refl options-Live
      (refl, (refl, (refl, (refl, (refl, tt)))))
      ((refl, refl), ((refl, refl), ((refl, refl), ((refl, refl), ((refl, refl), tt))))) refl refl
      (omega arith)
