-- ===== src/Db/Tests.antt =====
-- The database with one client.
use tcpserver_lib.Base.{
  ℕ, ◌+◌, ◌≡◌, refl, false, some, [], ◌∷◌, arith, ok, Returns, ◌==◌, if◌then◌else◌,
}
use tcpserver_lib.Client.{TcpClient}
use tcpserver_lib.Client.Heap.{RefCounted}
use tcpserver_lib.Client.Tests.{client, only}
use tcpserver_lib.Db.{ClientDb, look_up_client_db, add_client_to_db}
use tcpserver_lib.Db.Refs.{count, RefCounted-cong}
use tcpserver_lib.Db.Lookup.{SameKeys, add_client_to_db-look_up}

-- The database refers to the client, and `k` others do.
pub listed-RefCounted :
    (c : TcpClient) (k : ℕ) (db : ClientDb)
    → ((q : ℕ) → count q db ≡ (if q == 7 then count 7 db else 0))
    → RefCounted (only c) (λ q. if q == 7 then k + count 7 db else 0)
    → RefCounted (only c) (λ q. (if q == 7 then k else 0) + count q db)
listed-RefCounted c k db same counted =
    RefCounted-cong (only c) _ _ counted (λ q. ground (arith, same q))

pub single : (q : ℕ) → count q (7 ∷ []) ≡ (if q == 7 then 1 else 0)
single q = omega arith

add_client_to_db-look_up_example :
    Returns
      (λ (db', h').
        (look_up_client_db 10 20 db' h' ≡ ok (some 7)) × SameKeys (only (client 1 false false)) h')
      (add_client_to_db 7 [] (only (client 1 false false)))
add_client_to_db-look_up_example =
    add_client_to_db-look_up 7 [] (only (client 1 false false)) (client 1 false false) refl refl
