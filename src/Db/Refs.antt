-- ===== src/Db/Refs.antt =====
-- The references that a list of clients holds, and the operations that take and give them up.
use tcpserver_lib.Base.{
  ℕ, ◌+◌, ◌≤◌, ◌≡◌, refl, sym, ap, ◌∙◌, inl, inr, false, some, List, [], ◌∷◌, ◌++◌, append-nil,
  append_assoc, arith, Returns, Returns-bind, Returns-mono, Bool-cases, Option-cases, ◌==◌, ==_iff,
  if◌then◌else◌,
}
use mathlib.Core.Path.{subst}
use tcpserver_lib.Client.{TcpClient, Heap, reference, dereference}
use tcpserver_lib.Client.Heap.{
  RefCounted, Owned, Dropped, one, one_self, eq_self, reference-RefCounted, dereference-Dropped,
}
use tcpserver_lib.Db.{ClientDb, remove, remove_client_from_db, copy_all_clients_to_list}

-- How many times `q` is in a list.
abbrev pub count : ℕ → List ℕ → ℕ
count q [] = 0
count q (p ∷ ps) = one p q + count q ps

pub count-append : (q : ℕ) (xs ys : List ℕ) → count q (xs ++ ys) ≡ count q xs + count q ys
count-append q [] ys = omega arith
count-append q (x ∷ xs) ys = omega (arith, count-append q xs ys)

pub count-remove :
    (p q : ℕ) (db : ClientDb) → count q (remove p db) ≡ (if q == p then 0 else count q db)
count-remove p q [] = elim (Bool-cases (q == p)) [ inl e ↦ rw e refl | inr e ↦ rw e refl ]
count-remove p q (x ∷ db) = ground (arith, count-remove p q db)

pub count-remove_self : (p : ℕ) (db : ClientDb) → count p (remove p db) ≡ 0
count-remove_self p db = count-remove p p db ∙ ap (λ b. if b then 0 else count p db) (eq_self p)

pub count-remove_other :
    (p q : ℕ) (db : ClientDb) → (q == p) ≡ false → count q (remove p db) ≡ count q db
count-remove_other p q db e = count-remove p q db ∙ ap (λ b. if b then 0 else count q db) e

pub RefCounted-cong :
    (h : Heap) (n m : ℕ → ℕ) → RefCounted h n → ((q : ℕ) → n q ≡ m q) → RefCounted h m
RefCounted-cong h n m counted same q = rw (sym (same q)) (counted q)

-- Whatever is referenced has not been deleted.
pub live_lem :
    (h : Heap) (n : ℕ → ℕ) (p : ℕ)
    → RefCounted h n
    → (n p ≡ 0 → ⊥)
    → (c : TcpClient) × (h p ≡ some c)
live_lem h n p counted held = elim (Option-cases (h p)) [
  | inl e ↦ absurd (held (subst (λ o. Owned o (n p)) e (counted p)))
  | inr live ↦ live
]

-- Each client of a list is counted among the references.
abbrev pub IsHeld : ClientDb → (ℕ → ℕ) → Type 0
IsHeld db n = (q : ℕ) → count q db ≤ n q

pub head_live :
    (h : Heap) (n : ℕ → ℕ) (p : ℕ) (db : ClientDb)
    → RefCounted h n
    → IsHeld (p ∷ db) n
    → (c : TcpClient) × (h p ≡ some c)
head_live h n p db counted held =
    live_lem h n p counted (λ z. absurd (omega (arith, z, held p, one_self p)))

-- If all references are accounted for, those of the database among them, and the client is once in
-- its list, `RemoveClientFromDB` succeeds, takes the client out of the list, and all references are
-- accounted for.
pub remove_client_from_db-RefCounted :
    (h : Heap) (n : ℕ → ℕ) (p : ℕ) (db : ClientDb)
    → RefCounted h (λ q. n q + count q db)
    → count p db ≡ 1
    → Returns
        (λ (db', h'). (db' ≡ remove p db) × RefCounted h' (λ q. n q + count q db'))
        (remove_client_from_db p db h)
unfolding remove_client_from_db
remove_client_from_db-RefCounted h n p db counted once =
    Returns-bind (Dropped p (λ q. n q + count q (remove p db))) _ (dereference p h) _
      (dereference-Dropped h (λ q. n q + count q (remove p db)) p
        (RefCounted-cong h (λ q. n q + count q db) _ counted (λ q. once_moved q)))
      (λ (alive, h') d. (refl, d.0))
  where
    once_moved : (q : ℕ) → n q + count q db ≡ n q + count q (remove p db) + one p q
    once_moved q = elim (Bool-cases (q == p)) [
      | inl e ↦ rw ((==_iff q p).0 e) (omega (arith, once, one_self p, count-remove_self p db))
      | inr e ↦ omega (arith, ap {B = ℕ} (λ b. if b then 1 else 0) e, count-remove_other p q db e)
    ]

-- If all references are accounted for, those of the target list among them, and the others hold each
-- client at least as often as it is in the database, `CopyAllClientsTolist` succeeds, appends the
-- database to the list, and accounts for the references of the longer list.
pub copy_all_clients_to_list-RefCounted :
    (h : Heap) (n : ℕ → ℕ) (db : ClientDb) (list : List ℕ)
    → RefCounted h (λ q. n q + count q list)
    → ((q : ℕ) → count q db ≤ n q)
    → Returns
        (λ (list', h'). (list' ≡ list ++ db) × RefCounted h' (λ q. n q + count q list'))
        (copy_all_clients_to_list db list h)
copy_all_clients_to_list-RefCounted h n [] list counted held = (sym (append-nil list), counted)
copy_all_clients_to_list-RefCounted h n (p ∷ db) list counted held =
    let (c, live) =
      live_lem h (λ q. n q + count q list) p counted
        (λ z. absurd (omega (arith, z, held p, one_self p))) in
    Returns-bind (λ h'. RefCounted h' (λ q. n q + count q list + one p q)) _ (reference p h) _
      (reference-RefCounted h (λ q. n q + count q list) p c counted live)
      (λ h' counted'.
        Returns-mono _ _ (copy_all_clients_to_list db (list ++ (p ∷ [])) h')
          (copy_all_clients_to_list-RefCounted h' n db (list ++ (p ∷ []))
            (RefCounted-cong h' _ _ counted' (λ q. omega (arith, count-append q list (p ∷ []))))
            (λ q. omega (arith, held q)))
          (λ (list', h'') (e, r). (e ∙ append_assoc list (p ∷ []) db, r)))
