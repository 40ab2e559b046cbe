-- ===== src/Client/Threads.antt =====
-- Starting and stopping a client's threads keeps the account of references.
use tcpserver_lib.Base.{ℕ, ◌+◌, ◌≡◌, refl, true, false, none, some, arith, Returns, sym, ap, ◌∙◌}
use tcpserver_lib.Client.{
  assign, threaded, connect_in_progress, TcpClient, Heap, update, set_state, unset_state, reference,
  start_thread, stop_thread, stop_connector_thread,
}
use tcpserver_lib.Client.Heap.{
  RefCounted, Dropped, bit, one, change-RefCounted, eq_self, own_lem, one_self, update_same,
  dereference-Dropped,
}

-- If all references are accounted for and a live client has no thread, `StartThread` succeeds, the
-- object stays, and the new thread's reference is accounted for.
pub start_thread-RefCounted :
    (h : Heap) (n : ℕ → ℕ) (p : ℕ) (c : TcpClient)
    → RefCounted h n
    → h p ≡ some c
    → c.client_thread ≡ false
    → Returns (λ h'. RefCounted h' n × ((h' p ≡ none) → ⊥)) (start_thread p h)
unfolding start_thread set_state reference
start_thread-RefCounted h n p c counted live idle =
    let own : c.ref_count ≡ n p + (0 + bit c.active_connect_thread) =
      own_lem h n p c counted live ∙ ap (λ b. n p + (bit b + bit c.active_connect_thread)) idle in
    let started : TcpClient = record c {
      client_thread = true;
      state_flags = assign threaded true c.state_flags;
    } in
    rw (live, idle, eq_self p, eq_self p)
      (
        change-RefCounted h _ n n p (some (record started { ref_count = c.ref_count + 1 })) counted
            (rw (eq_self p) refl) (omega (arith, own)) (λ q e. (refl, rw e refl)),
        λ f. absurd (
            cc (
              sym (
                update_same
                  (update (update h p (some (record c { client_thread = true }))) p (some started))
                  p (some (record started { ref_count = c.ref_count + 1 })))
              ∙ f)),
      )

pub stop_thread-RefCounted :
    (h : Heap) (n : ℕ → ℕ) (p : ℕ) (c : TcpClient)
    → RefCounted h n
    → h p ≡ some c
    → c.client_thread ≡ true
    → Returns (Dropped p n) (stop_thread p h)
unfolding stop_thread unset_state
stop_thread-RefCounted h n p c counted live busy =
    let own : c.ref_count ≡ n p + (1 + bit c.active_connect_thread) =
      own_lem h n p c counted live ∙ ap (λ b. n p + (bit b + bit c.active_connect_thread)) busy in
    let stopped : TcpClient = record c {
      client_thread = false;
      state_flags = assign threaded false c.state_flags;
    } in
    rw (live, busy, eq_self p)
      (dereference-Dropped _ n p (
        change-RefCounted h _ n (λ q. n q + one p q) p (some stopped) counted (rw (eq_self p) refl)
          (omega (arith, own, one_self p)) (λ q e. (rw e (omega arith), rw e refl))))

-- If all references are accounted for and a live client has a connector thread,
-- `StopConnectorThread` succeeds, gives up the reference of that thread only, and reports that the
-- object is gone exactly if it has been deleted.
pub stop_connector_thread-RefCounted :
    (h : Heap) (n : ℕ → ℕ) (p : ℕ) (c : TcpClient)
    → RefCounted h n
    → h p ≡ some c
    → c.active_connect_thread ≡ true
    → Returns (Dropped p n) (stop_connector_thread p h)
unfolding stop_connector_thread unset_state
stop_connector_thread-RefCounted h n p c counted live busy =
    let own : c.ref_count ≡ n p + (bit c.client_thread + 1) =
      own_lem h n p c counted live ∙ ap (λ b. n p + (bit c.client_thread + bit b)) busy in
    let stopped : TcpClient = record c {
      active_connect_thread = false;
      state_flags = assign connect_in_progress false c.state_flags;
    } in
    rw (live, busy, eq_self p)
      (dereference-Dropped _ n p (
        change-RefCounted h _ n (λ q. n q + one p q) p (some stopped) counted (rw (eq_self p) refl)
          (omega (arith, own, one_self p)) (λ q e. (rw e (omega arith), rw e refl))))
