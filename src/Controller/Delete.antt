-- ===== src/Controller/Delete.antt =====
-- `ProcessClientDelete(TcpClient *)` for a client that has a thread of its own.
use tcpserver_lib.Base.{
  ℕ, ◌+◌, ◌-◌, ◌≤◌, ◌≡◌, refl, sym, ap, ◌∙◌, Bool, true, false, not, none, some, arith, ok, ◌>>=◌,
  ◌>>◌, deref, assert, ◌==◌, if◌then◌else◌, Returns, Returns-bind,
}
use mathlib.Core.Path.{subst}
use tcpserver_lib.Client.{
  TcpClient, Heap, StateBit, update, modify, assign, is_bit_set, is_state_set, unset_state,
  passive_opener, active_opener, multiplex_listen, threaded, reference, dereference, abort,
  stop_thread,
}
use tcpserver_lib.Client.Heap.{RefCounted, bit, update_same, own_lem}
use tcpserver_lib.Client.Connect.Refs.{Changed, modify-Changed, guarded}
use tcpserver_lib.Db.{ClientDb, remove, remove_client_from_db}
use tcpserver_lib.Db.Refs.{count}
use tcpserver_lib.Controller.{
  TcpServerController, with_heap, leave_db, leave_svc, leave_thread, leave_active,
  process_client_delete,
}

-- One object is gone, all others are as they were.
abbrev pub Gone : Heap → ℕ → Heap → Type 0
Gone h p h' = (h' p ≡ none) × ((q : ℕ) → (q == p) ≡ false → h' q ≡ h q)

is_state_set-ok :
    (p : ℕ) (b : StateBit) (h : Heap) (c : TcpClient)
    → h p ≡ some c
    → is_state_set p b h ≡ ok (is_bit_set b c.state_flags)
unfolding is_state_set
is_state_set-ok p b h c live = rw live refl

-- A reference is given up, and others are left.
dereference-Changed :
    (h0 h : Heap) (p : ℕ) (c : TcpClient)
    → Changed h0 p c h
    → 2 ≤ c.ref_count
    → Returns
        (λ (alive, h'). Changed h0 p (record c { ref_count = c.ref_count - 1 }) h')
        (dereference p h)
unfolding dereference
dereference-Changed h0 h p c (here, others) more =
    let positive : (c.ref_count == 0) ≡ false = ground (arith, more) in
    let left : (c.ref_count - 1 == 0) ≡ false = ground (arith, more) in
    rw here (rw (positive, left) (update_same h p _, λ q e. rw e (others q e)))

abort-ok :
    (h : Heap) (p : ℕ) (c : TcpClient)
    → h p ≡ some c
    → c.client_thread ≡ false
    → c.active_connect_thread ≡ false
    → c.ref_count ≡ 0
    → abort p h ≡ ok (update h p none)
unfolding abort
abort-ok h p c live idle unconnecting unreferenced =
    rw live (rw (idle, unconnecting, unreferenced) refl)

-- The last reference is given up.
dereference-Gone :
    (h0 h : Heap) (p : ℕ) (c : TcpClient)
    → Changed h0 p c h
    → c.ref_count ≡ 1
    → c.client_thread ≡ false
    → c.active_connect_thread ≡ false
    → Returns (λ (alive, h'). Gone h0 p h') (dereference p h)
unfolding dereference
dereference-Gone h0 h p c (here, others) last idle unconnecting =
    let positive : (c.ref_count == 0) ≡ false = ground (arith, last) in
    let none_left : (c.ref_count - 1 == 0) ≡ true = ground (arith, last) in
    let less : TcpClient = record c { ref_count = c.ref_count - 1 } in
    let h' = update h p (some less) in
    rw here (
      rw (positive, none_left)
        (subst
          (λ r.
            Returns {A = Bool × Heap} (λ (alive, h''). Gone h0 p h'')
              (r >>= λ h''. ok (false, h'')))
          (sym (
            abort-ok h' p less (update_same h p (some less)) idle unconnecting
              (omega (arith, last))))
          (update_same h' p none, λ q e. rw e (others q e))))

-- The client's thread is stopped, and its reference given up.
stop_thread-Changed :
    (h0 h : Heap) (p : ℕ) (c : TcpClient)
    → Changed h0 p c h
    → c.client_thread ≡ true
    → 2 ≤ c.ref_count
    → Returns
        (λ (alive, h').
          Changed h0 p
            (record c {
              client_thread = false;
              state_flags = assign threaded false c.state_flags;
              ref_count = c.ref_count - 1;
            })
            h')
        (stop_thread p h)
unfolding stop_thread unset_state
stop_thread-Changed h0 h p c (here, others) busy more =
    let c1 : TcpClient = record c { client_thread = false } in
    let c2 : TcpClient = record c1 { state_flags = assign threaded false c.state_flags } in
    subst
      (λ o.
        Returns {A = Bool × Heap}
          (λ (alive, h'). Changed h0 p (record c2 { ref_count = c.ref_count - 1 }) h')
          (do
            d ← deref o
            assert d.client_thread
            h1 ← modify p (λ d. record d { client_thread = false }) h
            h2 ← modify p (λ d. record d { state_flags = assign threaded false d.state_flags }) h1
            dereference p h2))
      (sym here)
      (guarded _ c.client_thread _ busy (
        Returns-bind (Changed h0 p c1) _ (modify p (λ d. record d { client_thread = false }) h) _
          (modify-Changed h0 h p c _ (here, others))
          (λ h1 ch1.
            Returns-bind (Changed h0 p c2) _
              (modify p (λ d. record d { state_flags = assign threaded false d.state_flags }) h1) _
              (modify-Changed h0 h1 p c1 _ ch1)
              (λ h2 ch2. dereference-Changed h0 h2 p c2 ch2 more))))

-- The server with these objects and this database.
abbrev pub with_db : Heap → ClientDb → TcpServerController → TcpServerController
with_db h db s = record s { svc = record s.svc { heap = h; server_db = db } }

-- A step's result: the client's object, and the rest of the server.
abbrev Stepped :
    Heap → ℕ → TcpClient → ClientDb → TcpServerController → TcpServerController → Type 0
Stepped h0 p c db s s' = Changed h0 p c s'.svc.heap × (s' ≡ with_db s'.svc.heap db s)

leave_db-Stepped :
    (h0 : Heap) (p : ℕ) (c : TcpClient) (s : TcpServerController)
    → Changed h0 p c s.svc.heap
    → c.state_flags.is_passive_opener ≡ true
    → 2 ≤ c.ref_count
    → Returns
        (Stepped h0 p (record c { ref_count = c.ref_count - 1 }) (remove p s.svc.server_db) s)
        (leave_db p s)
unfolding leave_db remove_client_from_db
leave_db-Stepped h0 p c s ch passive more =
    let is_passive = is_state_set-ok p passive_opener s.svc.heap c ch.0 ∙ ap ok passive in
    let left : TcpClient = record c { ref_count = c.ref_count - 1 } in
    let removed : Returns {A = ClientDb × Heap}
        (λ (db, h). (db ≡ remove p s.svc.server_db) × Changed h0 p left h)
        (remove_client_from_db p s.svc.server_db s.svc.heap) =
      Returns-bind (λ (alive, h). Changed h0 p left h)
        (λ (db, h). (db ≡ remove p s.svc.server_db) × Changed h0 p left h)
        (dereference p s.svc.heap) (λ (alive, h). ok (remove p s.svc.server_db, h))
        (dereference-Changed h0 s.svc.heap p c ch more) (λ (alive, h) ch'. (refl, ch')) in
    rw is_passive (
      Returns-bind (λ (db, h). (db ≡ remove p s.svc.server_db) × Changed h0 p left h)
        (Stepped h0 p left (remove p s.svc.server_db) s)
        (remove_client_from_db p s.svc.server_db s.svc.heap) (λ (db, h). ok (with_db h db s))
        removed (λ (db, h) (same, ch'). (ch', ap (λ d. with_db h d s) same)))

leave_svc-unlisted :
    (h0 : Heap) (p : ℕ) (c : TcpClient) (s : TcpServerController)
    → Changed h0 p c s.svc.heap
    → c.state_flags.is_multiplex_listen ≡ false
    → leave_svc p s ≡ ok s
unfolding leave_svc
leave_svc-unlisted h0 p c s ch unlisted =
    let not_listened = is_state_set-ok p multiplex_listen s.svc.heap c ch.0 ∙ ap ok unlisted in
    rw not_listened refl

leave_active-passive :
    (h0 : Heap) (p : ℕ) (c : TcpClient) (s : TcpServerController)
    → Changed h0 p c s.svc.heap
    → c.state_flags.is_active_opener ≡ false
    → leave_active p s ≡ ok s
unfolding leave_active
leave_active-passive h0 p c s ch passive =
    let not_active = is_state_set-ok p active_opener s.svc.heap c ch.0 ∙ ap ok passive in
    rw not_active refl

leave_thread-Stepped :
    (h0 : Heap) (p : ℕ) (c : TcpClient) (s : TcpServerController)
    → Changed h0 p c s.svc.heap
    → c.client_thread ≡ true
    → 2 ≤ c.ref_count
    → Returns
        (Stepped h0 p
          (record c {
            client_thread = false;
            state_flags = assign threaded false c.state_flags;
            ref_count = c.ref_count - 1;
          })
          s.svc.server_db
          s)
        (leave_thread p s)
unfolding leave_thread
leave_thread-Stepped h0 p c s ch busy more =
    let after : TcpClient = record c {
      client_thread = false;
      state_flags = assign threaded false c.state_flags;
      ref_count = c.ref_count - 1;
    } in
    let stopping : (deref (s.svc.heap p) >>= λ d.
    if not d.client_thread
    then ok s
    else (stop_thread p s.svc.heap >>= λ (alive, h). ok (with_heap h s)))
        ≡ (stop_thread p s.svc.heap >>= λ (alive, h). ok (with_heap h s)) =
      ap
        (λ o. deref o >>= λ d.
          if not d.client_thread
          then ok s
          else (stop_thread p s.svc.heap >>= λ (alive, h). ok (with_heap h s)))
        ch.0
      ∙ ap
          (λ b.
            if not b then ok s else (stop_thread p s.svc.heap >>= λ (alive, h). ok (with_heap h s)))
          busy in
    subst (Returns (Stepped h0 p after s.svc.server_db s)) (sym stopping) (
      Returns-bind (λ (alive, h). Changed h0 p after h) _ (stop_thread p s.svc.heap) _
        (stop_thread-Changed h0 s.svc.heap p c ch busy more) (λ (alive, h) ch'. (ch', refl)))

-- The client is deleted and out of the database, and nothing else has changed.
abbrev pub Deleted : ℕ → TcpServerController → TcpServerController → Type 0
Deleted p s s' =
    Gone s.svc.heap p s'.svc.heap × (s' ≡ with_db s'.svc.heap (remove p s.svc.server_db) s)

-- The accepted client, served by a thread of its own, with no reference but those of the database
-- and of the thread.
pub record IsThreaded (s : TcpServerController) (p : ℕ) (c : TcpClient) : Type 0 where
  pub live : s.svc.heap p ≡ some c
  pub thread : c.client_thread ≡ true
  pub connector : c.active_connect_thread ≡ false
  pub passive : c.state_flags.is_passive_opener ≡ true
  pub not_active : c.state_flags.is_active_opener ≡ false
  pub unlisted : c.state_flags.is_multiplex_listen ≡ false
  pub listed : count p s.svc.server_db ≡ 1

-- All references are accounted for, and the client is an accepted one, once in the database, that
-- has a thread of its own, is not in the service manager's list, and is not held by anyone but the
-- database and the thread. Then `ProcessClientDelete` succeeds with no failed assertion: the object
-- is deleted, the database is the one before without the client, and nothing else has changed.
pub process_client_delete-Deleted :
    (n : ℕ → ℕ) (s : TcpServerController) (p : ℕ) (c : TcpClient)
    → RefCounted s.svc.heap (λ q. n q + count q s.svc.server_db)
    → n p ≡ 0
    → IsThreaded s p c
    → Returns (Deleted p s) (process_client_delete p s)
unfolding process_client_delete reference
process_client_delete-Deleted n s p c counted unheld t =
    let h0 = s.svc.heap in
    let own : c.ref_count ≡ 2 = omega (
      arith,
      own_lem h0 (λ q. n q + count q s.svc.server_db) p c counted t.live,
      unheld,
      t.listed,
      ap bit t.thread,
      ap bit t.connector,
    ) in
    let c1 : TcpClient = record c { ref_count = c.ref_count + 1 } in
    let c2 : TcpClient = record c1 { ref_count = c1.ref_count - 1 } in
    let c3 : TcpClient = record c2 {
      client_thread = false;
      state_flags = assign threaded false c.state_flags;
      ref_count = c2.ref_count - 1;
    } in
    let db = remove p s.svc.server_db in
    Returns-bind (Changed h0 p c1) _ (modify p (λ d. record d { ref_count = d.ref_count + 1 }) h0) _
      (modify-Changed h0 h0 p c _ (t.live, λ q e. refl))
      (λ h1 ch1.
        Returns-bind (Stepped h0 p c2 db (with_heap h1 s)) _ (leave_db p (with_heap h1 s)) _
          (leave_db-Stepped h0 p c1 (with_heap h1 s) ch1 t.passive (omega (arith, own)))
          (λ s1 (ch2, e1). rw (leave_svc-unlisted h0 p c2 s1 ch2 t.unlisted) (
            Returns-bind (Stepped h0 p c3 s1.svc.server_db s1) _ (leave_thread p s1) _
              (leave_thread-Stepped h0 p c2 s1 ch2 t.thread (omega (arith, own)))
              (λ s3 (ch3, e3). rw (leave_active-passive h0 p c3 s3 ch3 t.not_active) (
                Returns-bind (λ (alive, h'). Gone h0 p h') _ (dereference p s3.svc.heap) _
                  (dereference-Gone h0 s3.svc.heap p c3 ch3 (omega (arith, own)) refl t.connector)
                  (λ (alive, h') gone.
                    (gone, ap (with_heap h') e3 ∙ ap (λ r. with_db h' r.svc.server_db r) e1)))))))
