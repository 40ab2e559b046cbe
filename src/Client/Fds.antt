-- ===== src/Client/Fds.antt =====
-- Descriptors that an `fd_set` has room for, and the methods that keep them.
use mathlib.Core.Path.{subst}
use tcpserver_lib.Base.{
  ℕ, ◌<◌, ◌≡◌, refl, inl, inr, Option, none, some, Bool-cases, ok, ◌>>=◌, deref, ◌==◌, Post,
  Post-bind, Post-then, assert, not, Bool, false, ◌-◌,
}
use tcpserver_lib.Client.{
  TcpClient, Heap, StateBit, update, modify, set_state, unset_state, reference, dereference, abort,
}

-- `FD_SETSIZE`.
abbrev pub fd_setsize : ℕ
fd_setsize = 1024

-- What may be an object has a descriptor below it.
abbrev IsSmall : Option TcpClient → Type 0
IsSmall none = Unit {0}
IsSmall (some c) = c.comm_fd < fd_setsize

abbrev pub SmallFds : Heap → Type 0
SmallFds h = (q : ℕ) → IsSmall (h q)

-- An object's descriptor.
pub small_at :
    (h : Heap) (p : ℕ) (c : TcpClient) → SmallFds h → h p ≡ some c → c.comm_fd < fd_setsize
small_at h p c small live = subst IsSmall live (small p)

update-SmallFds :
    (h : Heap) (p : ℕ) (o : Option TcpClient) → SmallFds h → IsSmall o → SmallFds (update h p o)
update-SmallFds h p o small is q = elim (Bool-cases (q == p)) [
  | inl e ↦ rw e is
  | inr e ↦ rw e (small q)
]

modify-SmallFds :
    (h : Heap) (p : ℕ) (f : TcpClient → TcpClient)
    → ((c : TcpClient) → (f c).comm_fd ≡ c.comm_fd)
    → SmallFds h
    → Post SmallFds (modify p f h)
modify-SmallFds h p f kept small = at_object (h p) (small p)
  where
    at_object :
        (o : Option TcpClient)
        → IsSmall o
        → Post SmallFds (deref o >>= λ c. ok (update h p (some (f c))))
    at_object none is = tt
    at_object (some c) is = update-SmallFds h p (some (f c)) small (rw (kept c) is)

pub set_state-SmallFds :
    (p : ℕ) (bit : StateBit) (h : Heap) → SmallFds h → Post SmallFds (set_state p bit h)
unfolding set_state
set_state-SmallFds p bit h = modify-SmallFds h p _ (λ c. refl)

pub unset_state-SmallFds :
    (p : ℕ) (bit : StateBit) (h : Heap) → SmallFds h → Post SmallFds (unset_state p bit h)
unfolding unset_state
unset_state-SmallFds p bit h = modify-SmallFds h p _ (λ c. refl)

pub reference-SmallFds : (p : ℕ) (h : Heap) → SmallFds h → Post SmallFds (reference p h)
unfolding reference
reference-SmallFds p h = modify-SmallFds h p _ (λ c. refl)

deref-IsSmall : (o : Option TcpClient) → IsSmall o → Post (λ c. c.comm_fd < fd_setsize) (deref o)
deref-IsSmall none is = tt
deref-IsSmall (some c) is = is

abort-SmallFds : (p : ℕ) (h : Heap) → SmallFds h → Post SmallFds (abort p h)
unfolding abort
abort-SmallFds p h small = Post-bind SmallFds (deref (h p)) _ (λ c.
    Post-bind SmallFds (assert (not c.client_thread)) _ (λ _.
      Post-bind SmallFds (assert (not c.active_connect_thread)) _ (λ _.
        Post-bind SmallFds (assert (c.ref_count == 0)) _ (λ _. update-SmallFds h p none small tt))))

gone-SmallFds :
    (p : ℕ) (h : Heap)
    → SmallFds h
    → Post {A = Bool × Heap} (λ (_, h'). SmallFds h') (abort p h >>= λ h'. ok (false, h'))
gone-SmallFds p h small =
    Post-then {B = Bool × Heap} SmallFds (λ (_, h'). SmallFds h') (abort p h) _
      (abort-SmallFds p h small) (λ h' s. s)

pub dereference-SmallFds :
    (p : ℕ) (h : Heap) → SmallFds h → Post (λ (_, h'). SmallFds h') (dereference p h)
unfolding dereference
dereference-SmallFds p h small =
    Post-then {B = Bool × Heap} (λ (c : TcpClient). c.comm_fd < fd_setsize) (λ (_, h'). SmallFds h')
      (deref (h p)) _ (deref-IsSmall (h p) (small p))
      (λ c is. elim (Bool-cases (c.ref_count == 0)) [
        | inl e ↦ rw e (gone-SmallFds p h small)
        | inr e ↦
            let less =
              update-SmallFds h p (some (record c { ref_count = c.ref_count - 1 })) small is in
            elim (Bool-cases (c.ref_count - 1 == 0)) [
              | inl e' ↦ rw (e, e') (gone-SmallFds p _ less)
              | inr e' ↦ rw (e, e') less
            ]
      ])
