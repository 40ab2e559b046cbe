-- ===== src/SvcMgr/Fds.antt =====
-- The descriptors that the thread gives to `select`.
use tcpserver_lib.Base.{
  ℕ, ◌≤◌, ◌≡◌, true, [], ◌∷◌, arith, ltb, if◌then◌else◌, Returns, Returns-bind, Returns-mono, All,
}
use tcpserver_lib.Client.{Heap}
use tcpserver_lib.Client.Heap.{RefCounted}
use tcpserver_lib.Client.Fds.{fd_setsize, SmallFds, small_at}
use tcpserver_lib.Db.{ClientDb}
use tcpserver_lib.Db.Refs.{IsHeld, head_live}
use tcpserver_lib.SvcMgr.{max_fd_from, copy_client_fd_to_fd_set}

-- If all references are accounted for and every client of a list is referenced as often as it is in
-- the list, and every descriptor is below `FD_SETSIZE`, the loop of `GetMaxFdSimple` and `CopyClientFDtoFDSet` both succeed on the list, and the
-- former's result is at least its start value and every descriptor of the latter.
pub max_fd_lem :
    (h : Heap) (n : ℕ → ℕ) (m : ℕ) (db : ClientDb)
    → RefCounted h n
    → IsHeld db n
    → SmallFds h
    → Returns
        (λ top. (m ≤ top) × Returns (All (λ fd. fd ≤ top)) (copy_client_fd_to_fd_set db h))
        (max_fd_from m db h)
max_fd_lem h n m [] counted held small = (omega arith, tt)
max_fd_lem h n m (p ∷ db) counted held small =
    let (c, live) = head_live h n p db counted held in
    let larger = if ltb m c.comm_fd then c.comm_fd else m in
    let fits : ltb c.comm_fd fd_setsize ≡ true = ground (arith, small_at h p c small live) in
    rw live (
      Returns-mono _ _ (max_fd_from larger db h)
        (max_fd_lem h n larger db counted (λ q. omega (arith, held q)) small)
        (λ top (le, rest). (
          ground (arith, le),
          Returns-bind (All (λ fd. fd ≤ top)) _ (copy_client_fd_to_fd_set db h) _ rest
              (λ fds low. rw fits (ground (arith, le), low)),
        )))
