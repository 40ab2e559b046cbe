-- ===== src/Client/Heap.antt =====
-- Reference counts: what every object's count stands for, and that the methods keep it.
use tcpserver_lib.Base.{
  ℕ, ◌+◌, ◌-◌, ◌≡◌, refl, Bool, true, false, none, some, Option, arith, ok, Returns, ◌==◌, ==_iff,
  Bool-cases, Option-cases, inl, inr, ap, ◌∙◌, ◌↔◌, ◌>>=◌, if◌then◌else◌,
}
use mathlib.Core.Path.{subst}
use tcpserver_lib.Client.{TcpClient, Heap, update, modify, reference, abort, dereference}

abbrev pub bit : Bool → ℕ
bit true = 1
bit false = 0

-- One reference to `p`.
abbrev pub one : ℕ → ℕ → ℕ
one p q = if q == p then 1 else 0

-- The references that the object's own threads hold.
abbrev pub threads : TcpClient → ℕ
threads c = bit c.client_thread + bit c.active_connect_thread

-- `n` references from elsewhere to what may be an object: none to a deleted one, and the count of
-- an object is that of its references.
abbrev pub Owned : Option TcpClient → ℕ → Type 0
Owned none n = n ≡ 0
Owned (some c) n = c.ref_count ≡ n + threads c

abbrev pub RefCounted : Heap → (ℕ → ℕ) → Type 0
RefCounted h n = (q : ℕ) → Owned (h q) (n q)

pub eq_self : (p : ℕ) → (p == p) ≡ true
eq_self p = ground arith

pub update_same : (h : Heap) (p : ℕ) (c : Option TcpClient) → update h p c p ≡ c
update_same h p c = rw (eq_self p) refl

-- Changing one object, in however many steps, to one that accounts for the references to it.
pub change-RefCounted :
    (h h' : Heap) (n m : ℕ → ℕ) (p : ℕ) (c : Option TcpClient)
    → RefCounted h n
    → h' p ≡ c
    → Owned c (m p)
    → ((q : ℕ) → (q == p) ≡ false → (m q ≡ n q) × (h' q ≡ h q))
    → RefCounted h' m
change-RefCounted h h' n m p c counted here own others q = elim (Bool-cases (q == p)) [
  | inl e ↦ rw ((==_iff q p).0 e, here) own
  | inr e ↦ rw ((others q e).0, (others q e).1) (counted q)
]

pub update-RefCounted :
    (h : Heap) (n m : ℕ → ℕ) (p : ℕ) (c : Option TcpClient)
    → RefCounted h n
    → Owned c (m p)
    → ((q : ℕ) → (q == p) ≡ false → m q ≡ n q)
    → RefCounted (update h p c) m
update-RefCounted h n m p c counted own others =
    change-RefCounted h (update h p c) n m p c counted (update_same h p c) own
      (λ q e. (others q e, rw e refl))

-- If all references are accounted for, `Reference` on a live client succeeds and adds one reference
-- to this client and none to another.
pub reference-RefCounted :
    (h : Heap) (n : ℕ → ℕ) (p : ℕ) (c : TcpClient)
    → RefCounted h n
    → h p ≡ some c
    → Returns (λ h'. RefCounted h' (λ q. n q + one p q)) (reference p h)
unfolding reference
reference-RefCounted h n p c counted live = rw live (
    update-RefCounted h n (λ q. n q + one p q) p _ counted
      (rw (eq_self p) (omega (arith, subst (λ o. Owned o (n p)) live (counted p))))
      (λ q e. rw e (omega arith)))

-- What is left after a reference to `p` is given up: the object if it is referenced still.
abbrev pub Dropped : ℕ → (ℕ → ℕ) → Bool × Heap → Type 0
Dropped p n (alive, h) = RefCounted h n × ((alive ≡ false) ↔ (h p ≡ none))

bit_zero : (b : Bool) → bit b ≡ 0 → b ≡ false
bit_zero true e = absurd (omega arith)
bit_zero false e = refl

pub own_lem :
    (h : Heap) (n : ℕ → ℕ) (p : ℕ) (c : TcpClient)
    → RefCounted h n
    → h p ≡ some c
    → c.ref_count ≡ n p + threads c
own_lem h n p c counted live = subst (λ o. Owned o (n p)) live (counted p)

abort-Dropped :
    (h : Heap) (n : ℕ → ℕ) (p : ℕ) (c : TcpClient)
    → RefCounted h n
    → h p ≡ some c
    → c.ref_count ≡ 0
    → Returns (Dropped p n) (abort p h >>= λ h'. ok (false, h'))
unfolding abort
abort-Dropped h n p c counted live zero_count =
    let own = own_lem h n p c counted live in
    let client = bit_zero c.client_thread (omega arith) in
    let connector = bit_zero c.active_connect_thread (omega arith) in
    rw (live, client, connector, zero_count)
      (
        update-RefCounted h n n p none counted (omega arith) (λ q e. refl),
        ((λ _. rw (eq_self p) refl), λ _. refl),
      )

pub one_self : (p : ℕ) → one p p ≡ 1
one_self p = rw (eq_self p) refl

-- The object after one reference less.
abbrev less : TcpClient → TcpClient
less c = record c { ref_count = c.ref_count - 1 }

less-RefCounted :
    (h : Heap) (n : ℕ → ℕ) (p : ℕ) (c : TcpClient)
    → RefCounted h (λ q. n q + one p q)
    → c.ref_count ≡ n p + 1 + threads c
    → RefCounted (update h p (some (less c))) n
less-RefCounted h n p c counted own =
    update-RefCounted h (λ q. n q + one p q) n p (some (less c)) counted (omega arith)
      (λ q e. rw e (omega arith))

-- If the count of every object is the number of references to it, one of which is now given up, then
-- `Dereference` succeeds, with no failed assertion in `Abort`; the counts are again the numbers of
-- references, and the call reports that the object is gone exactly if it has been deleted.
pub dereference-Dropped :
    (h : Heap) (n : ℕ → ℕ) (p : ℕ)
    → RefCounted h (λ q. n q + one p q)
    → Returns (Dropped p n) (dereference p h)
unfolding dereference
dereference-Dropped h n p counted = elim (Option-cases (h p)) [
  | inl e ↦ absurd (none_owned e (one_self p))
  | inr (c, e) ↦
      let own : c.ref_count ≡ n p + 1 + threads c =
        own_lem h (λ q. n q + one p q) p c counted e ∙ ap (λ k. n p + k + threads c) (one_self p) in
      let after = less-RefCounted h n p c counted own in
      let live = update_same h p (some (less c)) in
      let positive : (c.ref_count == 0) ≡ false = ground (arith, own) in
      rw (e, positive)
        (elim (Bool-cases (c.ref_count - 1 == 0)) [
          | inl z ↦ rw z (
              abort-Dropped (update h p (some (less c))) n p (less c) after live
                ((==_iff (c.ref_count - 1) 0).0 z))
          | inr z ↦ rw z (after, ((λ f. absurd (cc f)), (λ f. absurd (cc (f, live)))))
        ])
]
  where
    none_owned : h p ≡ none → one p p ≡ 1 → ⊥
    none_owned e one_eq =
        let own = subst (λ o. Owned o (n p + one p p)) e (counted p) in omega (arith, own, one_eq)

-- Changing other fields of an object.
pub modify-RefCounted :
    (h : Heap) (n : ℕ → ℕ) (p : ℕ) (c : TcpClient) (f : TcpClient → TcpClient)
    → RefCounted h n
    → h p ≡ some c
    → (f c).ref_count ≡ c.ref_count
    → threads (f c) ≡ threads c
    → Returns (λ h'. RefCounted h' n) (modify p f h)
modify-RefCounted h n p c f counted live same_count same_threads = rw live (
    update-RefCounted h n n p (some (f c)) counted
      (omega (arith, own_lem h n p c counted live, same_count, same_threads)) (λ q e. refl))
