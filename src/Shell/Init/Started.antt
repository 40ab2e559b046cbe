-- ===== src/Shell/Init/Started.antt =====
-- The command line after `init_libcli`: words at the root can be looked up.
use tcpserver_lib.Base.{ℕ, ◌≡◌, ◌≤◌, ◌<◌, refl, List, [], All, Returns, arith, some, length}
use tcpserver_lib.Serialize.{init_serialized_buffer_of_defined_size}
use tcpserver_lib.Serialize.Append.{init-IsValid}
use tcpserver_lib.Strings.{leaf_value_holder_size, max_cmd_tree_depth}
use tcpserver_lib.CmdTree.{root}
use tcpserver_lib.Shell.{Shell, Environment}
use tcpserver_lib.Shell.Build.{walk, from_cursor}
use tcpserver_lib.Shell.Sound.{Sound}
use tcpserver_lib.Shell.Take.{Walked, Here}
use tcpserver_lib.Shell.Walk.{walk-Walked}
use tcpserver_lib.Shell.Init.{init_libcli}
use tcpserver_lib.Shell.Init.Names.{Callback, codes}
use tcpserver_lib.Shell.Init.Tested.{NonEmpty}
use tcpserver_lib.Shell.Init.Sound.{blank, started, built, built-Sound}

-- The command line as it starts, where these words are typed.
pub record Started (env : Environment) (tokens : List (List ℕ)) (s : Shell) : Type 0 where
  pub sound : Sound s.params tokens
  pub cursor_eq : s.cmd_tree_cursor ≡ root
  pub console_eq : s.console_name ≡ codes "tcp-server>"
  pub buffer_eq : s.tlv_buff ≡ init_serialized_buffer_of_defined_size 1024
  pub walked : Returns (Walked s tokens []) (walk env 0 tokens (from_cursor s))

module _ (at : Callback → ℕ) (s : Shell) where
  root_lives : Here (built at s) (some root)
  unfolding init_libcli
  root_lives = (_, refl)

  -- Before the start the tree's memory and the console name hold zeros. Then `init_libcli` succeeds,
  -- wherever the callbacks are: the cursor is the root, the console name "tcp-server>", and the
  -- buffer an empty one of 1024 bytes. For at most 16 non-empty words of fewer than 64 characters,
  -- the tree is sound, in the sense of the look-up of tokens, and the loop over these words from the
  -- cursor succeeds: the buffer ends with TLVs that hold a subsequence of the words in their order,
  -- the tree is sound still, and if the status is complete the walk ends at a live parameter.
  pub init_libcli-Started :
      (env : Environment) (k : ℕ) (tokens : List (List ℕ))
      → All NonEmpty tokens
      → All (λ t. length t < leaf_value_holder_size) tokens
      → length tokens ≤ max_cmd_tree_depth
      → Returns (Started env tokens) (init_libcli at k (blank s))
  unfolding init_libcli
  init_libcli-Started env k tokens words short few = record {
    sound = built-Sound at s tokens words;
    cursor_eq = refl;
    console_eq = refl;
    buffer_eq = refl;
    walked =
        walk-Walked env 0 tokens (from_cursor (started at s)) root_lives
          (built-Sound at s tokens words) short
          (record {
            valid = (init-IsValid 1024).0;
            nonempty = omega arith;
            room = omega (arith, few);
          });
  }
