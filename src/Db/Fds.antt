-- ===== src/Db/Fds.antt =====
-- The operations on the list keep the clients' descriptors.
use tcpserver_lib.Base.{ℕ, Bool, [], ◌∷◌, ◌++◌, deref, assert, Post, Post-bind, Post-then}
use tcpserver_lib.Client.{Heap, reference, dereference}
use tcpserver_lib.Client.Fds.{SmallFds, reference-SmallFds, dereference-SmallFds}
use tcpserver_lib.Db.{
  ClientDb, is_none, look_up_client_db, add_client_to_db, remove_client_from_db,
  copy_all_clients_to_list,
}

abbrev Small : ClientDb × Heap → Type 0
Small (db, h) = SmallFds h

pub copy_all_clients_to_list-SmallFds :
    (db list : ClientDb) (h : Heap) → SmallFds h → Post Small (copy_all_clients_to_list db list h)
copy_all_clients_to_list-SmallFds [] list h small = small
copy_all_clients_to_list-SmallFds (p ∷ db) list h small =
    Post-then SmallFds Small (reference p h) _ (reference-SmallFds p h small)
      (λ h' small'. copy_all_clients_to_list-SmallFds db (list ++ (p ∷ [])) h' small')

pub remove_client_from_db-SmallFds :
    (p : ℕ) (db : ClientDb) (h : Heap) → SmallFds h → Post Small (remove_client_from_db p db h)
unfolding remove_client_from_db
remove_client_from_db-SmallFds p db h small =
    Post-then {A = Bool × Heap} (λ (_, h'). SmallFds h') Small (dereference p h) _
      (dereference-SmallFds p h small) (λ (_, h') small'. small')

pub add_client_to_db-SmallFds :
    (p : ℕ) (db : ClientDb) (h : Heap) → SmallFds h → Post Small (add_client_to_db p db h)
unfolding add_client_to_db
add_client_to_db-SmallFds p db h small = Post-bind Small (deref (h p)) _ (λ c.
    Post-bind Small (look_up_client_db c.ip_addr c.port_no db h) _ (λ found.
      Post-bind Small (assert (is_none found)) _ (λ _.
        Post-then SmallFds Small (reference p h) _ (reference-SmallFds p h small)
          (λ h' small'. small'))))
