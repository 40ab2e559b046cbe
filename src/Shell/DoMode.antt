-- ===== src/Shell/DoMode.antt =====
-- "do" in the configuration mode: what stands behind it is run as an operational command, and the mode
-- is taken up again.
use tcpserver_lib.Base.{
  ℕ, ◌+◌, ◌*◌, ◌^◌, ◌≡◌, ◌≤◌, ◌<◌, refl, ap, ◌∙◌, true, false, some, List, [], ◌∷◌, ◌++◌, ok, ◌==◌,
  length, All, arith, Returns, Returns-bind, concat,
}
use mathlib.Core.List.{reverse}
use tcpserver_lib.Serialize.Append.{IsValid, written}
use tcpserver_lib.Tlv.{tlv_size}
use tcpserver_lib.CmdTree.{Param, root, config, do_hook}
use tcpserver_lib.CmdTree.Hook.{Up, last_of, get_current_branch_hook-last_of}
use tcpserver_lib.Shell.{Shell, Environment, build_cmd_tree_leaves_data}
use tcpserver_lib.Shell.Build.{ParseStatus, Result, build_tlv_buffer}
use tcpserver_lib.Shell.Input.{do_request, do_command, do_string, classify}
use tcpserver_lib.Shell.Leaves.{Readable, units_of, Rebuilt, build_cmd_tree_leaves_data-Rebuilt}

-- The shell in which the command behind "do" is run.
abbrev pub at_do_hook : Shell → Shell
at_do_hook s = record s {
  cmd_tree_cursor = do_hook;
  tlv_buff = record s.tlv_buff { next = 0; checkpoint = 0 };
}

-- The mode at this cursor is taken up again: the leaf values on the way to it are in the buffer, up to
-- the checkpoint, and all else is as the command has left it.
pub record Resumed (status : ParseStatus) (s' : Shell) (cursor : ℕ) (path : List (ℕ × Param))
    (r : Result) : Type 0 where
  pub status_eq : r.0 ≡ status
  pub cursor_eq : r.1.cmd_tree_cursor ≡ cursor
  pub bytes_eq : written r.1.tlv_buff ≡ concat (units_of path)
  pub checkpoint_eq : r.1.tlv_buff.checkpoint ≡ r.1.tlv_buff.next
  pub valid : IsValid r.1.tlv_buff
  pub kept : (r.1.params ≡ s'.params) × (r.1.console_name ≡ s'.console_name)

-- The cursor is below the configuration hook, the command behind "do" runs from the operational hook
-- to some status and leaves the cursor there, the buffer valid and of a size other than 0, and a way
-- from the old cursor to the root whose leaves can be read. Then, on enough fuel for the ways to the
-- root, the "do" command succeeds with that status: the cursor is the old one again, the buffer is
-- valid and holds exactly the TLVs of the leaves on the way from the root to it, with the checkpoint
-- behind them, and parameters and console name are as the command has left them.
pub do_command-Resumed :
    (env : Environment) (k : ℕ) (rest : List (List ℕ)) (s s' : Shell) (status : ParseStatus)
    (c : Param) (path path' : List (ℕ × Param))
    → (s.cmd_tree_cursor == root) ≡ false
    → Up s.params root s.cmd_tree_cursor path
    → length path ≤ k
    → last_of s.cmd_tree_cursor path ≡ config
    → build_tlv_buffer env k rest (at_do_hook s) ≡ ok (status, s')
    → s'.cmd_tree_cursor ≡ do_hook
    → IsValid s'.tlv_buff
    → 0 < s'.tlv_buff.size
    → Up s'.params root s.cmd_tree_cursor path'
    → s'.params root ≡ some c
    → All (λ (q, d). Readable d.cmd_type) path'
    → Readable c.cmd_type
    → length path' < k
    → length path' * tlv_size + tlv_size ≤ 2 ^ 30
    → Returns
        (Resumed status s' s.cmd_tree_cursor (reverse (path' ++ ((root, c) ∷ []))))
        (do_command env k rest s)
unfolding do_command
do_command-Resumed env k rest s s' status c path path' below up enough hook run stays v pos up' live
      read read' enough' room =
    let back : (s'.cmd_tree_cursor == do_hook) ≡ true = ground (arith, stays) in
    rw
      (get_current_branch_hook-last_of s.params s.cmd_tree_cursor path k below up enough
        ∙ ap ok hook)
      (rw run (
        rw back (
          Returns-bind (Rebuilt (reverse (path' ++ ((root, c) ∷ []))))
            (Resumed status s' s.cmd_tree_cursor (reverse (path' ++ ((root, c) ∷ []))))
            (build_cmd_tree_leaves_data k env.junk s'.params s'.tlv_buff root s.cmd_tree_cursor) _
            (build_cmd_tree_leaves_data-Rebuilt env.junk k s'.params s'.tlv_buff root
              s.cmd_tree_cursor c path' up' live read read' enough' room v pos)
            (λ b r. record {
              status_eq = refl;
              cursor_eq = refl;
              bytes_eq = r.bytes_eq;
              checkpoint_eq = refl;
              valid = record {
                storage = r.valid.storage;
                next_in = r.valid.next_in;
                checkpoint_in = r.valid.next_in;
              };
              kept = (refl, refl);
            }))))

-- In a mode, a command of two words or more whose first word begins with "do" is taken for a "do".
pub classify-do_prefix :
    (word : List ℕ) (second : List ℕ) (rest : List (List ℕ))
    → classify true (do_string ++ word) (second ∷ rest) ≡ do_request
unfolding classify
classify-do_prefix word second rest = ground arith
