-- ===== src/Db/Lookup.antt =====
-- Finding clients by address and port.
use tcpserver_lib.Base.{
  ◌<◌, arith, ℕ, ◌≡◌, refl, sym, ap, ap₂, ◌∙◌, inl, inr, Bool, true, false, ◌&&◌, Option, none,
  some, [], ◌∷◌, ◌++◌, ok, ◌>>=◌, deref, Returns, Returns-bind, Bool-cases, ◌==◌, ==_iff,
  if◌then◌else◌,
}
use tcpserver_lib.Client.{TcpClient, Heap, reference}
use tcpserver_lib.Client.Heap.{eq_self}
use tcpserver_lib.Client.Heap.{RefCounted}
use tcpserver_lib.Db.Refs.{count, IsHeld, head_live}
use tcpserver_lib.Db.{ClientDb, has_key, look_up_client_db, add_client_to_db}

-- The address and port of what may be an object.
abbrev pub key : Option TcpClient → Option (ℕ × ℕ)
key none = none
key (some c) = some (c.ip_addr, c.port_no)

-- Objects keep their addresses and ports.
abbrev pub SameKeys : Heap → Heap → Type 0
SameKeys h h' = (q : ℕ) → key (h q) ≡ key (h' q)

has_key_self : (c : TcpClient) → has_key c.ip_addr c.port_no c ≡ true
has_key_self c = rw (eq_self c.ip_addr, eq_self c.port_no) refl

-- The test as a function of the key.
abbrev key_matches : ℕ → ℕ → Option (ℕ × ℕ) → Bool
key_matches ip port none = false
key_matches ip port (some (a, b)) = (a == ip) && (b == port)

pub look_up-SameKeys :
    (ip port : ℕ) (db : ClientDb) (h h' : Heap)
    → SameKeys h h'
    → look_up_client_db ip port db h ≡ look_up_client_db ip port db h'
look_up-SameKeys ip port [] h h' same = refl
look_up-SameKeys ip port (p ∷ db) h h' same =
    step (h p) (h' p) (same p) (look_up-SameKeys ip port db h h' same)
  where
    step :
        (o o' : Option TcpClient)
        → key o ≡ key o'
        → look_up_client_db ip port db h ≡ look_up_client_db ip port db h'
        → (deref o >>= λ c.
            if has_key ip port c then ok (some p) else look_up_client_db ip port db h)
          ≡ (deref o' >>= λ c.
              if has_key ip port c then ok (some p) else look_up_client_db ip port db h')
    step none none k r = refl
    step none (some c) k r = absurd (cc k)
    step (some c) none k r = absurd (cc k)
    step (some c) (some d) k r =
        ap₂ (λ b t. if b then ok (some p) else t) (ap (key_matches ip port) k) r

pub look_up-append :
    (ip port p : ℕ) (c : TcpClient) (db : ClientDb) (h : Heap)
    → look_up_client_db ip port db h ≡ ok none
    → h p ≡ some c
    → has_key ip port c ≡ true
    → look_up_client_db ip port (db ++ (p ∷ [])) h ≡ ok (some p)
look_up-append ip port p c [] h e live match = rw (live, match) refl
look_up-append ip port p c (q ∷ db) h e live match =
    step (h q) (λ f. look_up-append ip port p c db h f live match) e
  where
    step :
        (o : Option TcpClient)
        → (look_up_client_db ip port db h ≡ ok none
            → look_up_client_db ip port (db ++ (p ∷ [])) h ≡ ok (some p))
        → (deref o >>= λ d.
            if has_key ip port d then ok (some q) else look_up_client_db ip port db h)
          ≡ ok none
        → (deref o >>= λ d.
            if has_key ip port d then ok (some q) else look_up_client_db ip port (db ++ (p ∷ [])) h)
          ≡ ok (some p)
    step none rest f = absurd (cc f)
    step (some d) rest f = elim (Bool-cases (has_key ip port d)) [
      | inl m ↦
          absurd
            (cc (sym (ap (λ b. if b then ok (some q) else look_up_client_db ip port db h) m) ∙ f))
      | inr m ↦
          rw m
            (rest (sym (ap (λ b. if b then ok (some q) else look_up_client_db ip port db h) m) ∙ f))
    ]

pub reference-SameKeys :
    (p : ℕ) (h : Heap) (c : TcpClient)
    → h p ≡ some c
    → Returns (λ h'. SameKeys h h') (reference p h)
unfolding reference
reference-SameKeys p h c live = rw live (λ q. elim (Bool-cases (q == p)) [
  | inl e ↦ rw (e, (==_iff q p).0 e, live) refl
  | inr e ↦ rw e refl
])

-- If no client of the database has the address and port of a live client, `AddClientToDB` succeeds,
-- the look-up of that address and port then finds the client, and no object's address or port
-- changes.
pub add_client_to_db-look_up :
    (p : ℕ) (db : ClientDb) (h : Heap) (c : TcpClient)
    → h p ≡ some c
    → look_up_client_db c.ip_addr c.port_no db h ≡ ok none
    → Returns
        (λ (db', h'). (look_up_client_db c.ip_addr c.port_no db' h' ≡ ok (some p)) × SameKeys h h')
        (add_client_to_db p db h)
unfolding add_client_to_db
add_client_to_db-look_up p db h c live fresh =
    rw (live, fresh)
      (Returns-bind (λ h'. SameKeys h h') _ (reference p h) _ (reference-SameKeys p h c live)
        (λ h' same. (
          sym (look_up-SameKeys c.ip_addr c.port_no (db ++ (p ∷ [])) h h' same)
              ∙ look_up-append c.ip_addr c.port_no p c db h fresh live (has_key_self c),
          same,
        )))

-- A client of the list is found under its address and port, if not another one that has them too.
pub look_up-hit :
    (h : Heap) (n : ℕ → ℕ) (p : ℕ) (c : TcpClient) (db : ClientDb)
    → RefCounted h n
    → IsHeld db n
    → h p ≡ some c
    → 0 < count p db
    → (found : ℕ) × (look_up_client_db c.ip_addr c.port_no db h ≡ ok (some found))
look_up-hit h n p c [] counted held live inside = absurd (omega arith)
look_up-hit h n p c (q ∷ db) counted held live inside =
    let (d, live') = head_live h n q db counted held in
    elim (Bool-cases (has_key c.ip_addr c.port_no d)) [
      | inl hit ↦ (q, rw (live', hit) refl)
      | inr miss ↦ elim (Bool-cases (p == q)) [
        | inl same ↦ absurd (
            cc (
              sym (has_key_self c)
              ∙ ap (λ o. key_matches c.ip_addr c.port_no (key o))
                  (sym live ∙ ap h ((==_iff p q).0 same) ∙ live')
              ∙ miss))
        | inr other ↦
            let (found, e) =
              look_up-hit h n p c db counted (λ k. omega (arith, held k)) live
                (omega (arith, ap {B = ℕ} (λ b. if b then 1 else 0) other)) in
            (found, rw (live', miss) e)
      ]
    ]
