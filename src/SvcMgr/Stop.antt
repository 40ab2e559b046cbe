-- ===== src/SvcMgr/Stop.antt =====
-- `Purge` and `Stop` of the service manager: it gives up the references of its list, and then reads
-- behind the list.
use tcpserver_lib.Base.{
  ℕ, zero, suc, ◌+◌, ◌≤◌, ◌≡◌, refl, [], ◌∷◌, stop, past_end, arith, Returns, Returns-bind,
  Returns-result, length,
}
use tcpserver_lib.Client.{Heap, multiplex_listen, unset_state, dereference}
use tcpserver_lib.Client.Heap.{RefCounted, Dropped, one, one_self, dereference-Dropped}
use tcpserver_lib.Db.{ClientDb}
use tcpserver_lib.Db.Refs.{count, RefCounted-cong}
use tcpserver_lib.Db.Purge.{IsDistinct, remove_absent, not_head}
use tcpserver_lib.SvcMgr.{TcpClientServiceManager, forget_client, forget_clients, stop_svc}
use tcpserver_lib.SvcMgr.Listen.{Counted, unset_state-RefCounted}

forget_client-RefCounted :
    (h : Heap) (n : ℕ → ℕ) (p : ℕ)
    → RefCounted h (λ q. n q + one p q)
    → Returns (λ h'. RefCounted h' n) (forget_client p h)
unfolding forget_client
forget_client-RefCounted h n p counted =
    Returns-bind (λ h'. RefCounted h' (λ q. n q + one p q)) _ (unset_state p multiplex_listen h) _
      (unset_state-RefCounted h (λ q. n q + one p q) p multiplex_listen counted
        (λ z. omega (arith, z, one_self p)))
      (λ h' r.
        Returns-bind (Dropped p n) _ (dereference p h') _ (dereference-Dropped h' n p r)
          (λ (alive, h'') d. d.0))

forget_clients-past_end :
    (h : Heap) (n : ℕ → ℕ) (db : ClientDb) (k : ℕ)
    → RefCounted h (λ q. n q + count q db)
    → IsDistinct db
    → length db ≤ k
    → forget_clients k db h ≡ stop past_end
unfolding forget_clients
forget_clients-past_end h n [] k counted distinct enough = refl
forget_clients-past_end h n (p ∷ db) zero counted distinct enough = absurd (omega arith)
forget_clients-past_end h n (p ∷ []) (suc k) counted distinct enough = refl
forget_clients-past_end h n (p ∷ (q ∷ db)) (suc k) counted distinct enough =
    let absent : count p (q ∷ db) ≡ 0 = omega (arith, distinct p, one_self p) in
    let (h', e, counted') =
      Returns-result (λ h'. RefCounted h' (λ r. n r + count r (q ∷ db))) (forget_client p h)
        (forget_client-RefCounted h (λ r. n r + count r (q ∷ db)) p
          (RefCounted-cong h _ _ counted (λ r. omega arith))) in
    rw (not_head p (q ∷ db) absent, remove_absent p db (omega (arith, absent)), e)
      (forget_clients-past_end h' n (q ∷ db) k counted' (λ r. omega (arith, distinct r))
        (omega arith))

-- If all references are accounted for and no client is in the manager's list twice, then `Stop` of
-- the service manager comes to a read of `Purge` through an iterator at the end of the list, and to
-- no failure before it: no assertion fails, no deleted object is used, and the fuel does not run
-- out.
pub stop_svc-past_end :
    (n : ℕ → ℕ) (s : TcpClientServiceManager)
    → Counted n s
    → IsDistinct s.tcp_client_db
    → stop_svc s ≡ stop past_end
unfolding stop_svc
stop_svc-past_end n s counted distinct =
    rw
      (forget_clients-past_end s.heap (λ q. n q + count q s.server_db) s.tcp_client_db
        (length s.tcp_client_db) counted distinct (omega arith))
      refl
