-- ===== src/Db.antt =====
-- TcpClientDbManager.h and TcpClientDbManager.cpp: the list of the clients of a server. It holds a
-- reference to each. The lock around each operation makes it one step.
pub mod Fds
pub mod Refs
pub mod Tests
pub mod Lookup
pub mod Purge
use tcpserver_lib.Base.{
  ℕ, zero, suc, Bool, true, false, not, ◌&&◌, Option, none, some, List, [], ◌∷◌, ◌++◌, Outcome, ok,
  stop, past_end, ◌>>=◌, ◌>>◌, memory, fuel, deref, assert, ◌==◌, if◌then◌else◌,
}
use tcpserver_lib.Client.{TcpClient, Heap, reference, dereference, stop_thread}

-- The field `tcp_client_db`.
abbrev pub ClientDb : Type 0
ClientDb = List ℕ

-- `std::list::remove` removes every occurrence.
abbrev pub remove : ℕ → ClientDb → ClientDb
remove p [] = []
remove p (q ∷ db) = let rest = remove p db in if q == p then rest else q ∷ rest

abbrev pub has_key : ℕ → ℕ → TcpClient → Bool
has_key ip_addr port_no c = (c.ip_addr == ip_addr) && (c.port_no == port_no)

-- `LookUpClientDB`.
abbrev pub look_up_client_db : ℕ → ℕ → ClientDb → Heap → Outcome (Option ℕ)
look_up_client_db ip_addr port_no [] h = ok none
look_up_client_db ip_addr port_no (p ∷ db) h = do
  c ← deref (h p)
  let rest = look_up_client_db ip_addr port_no db h in
      if has_key ip_addr port_no c then ok (some p) else rest

abbrev pub is_none : Option ℕ → Bool
is_none none = true
is_none (some p) = false

unfoldable pub add_client_to_db : ℕ → ClientDb → Heap → Outcome (ClientDb × Heap)
add_client_to_db p db h = do
  c ← deref (h p)
  found ← look_up_client_db c.ip_addr c.port_no db h
  assert (is_none found)
  h' ← reference p h
  ok (db ++ (p ∷ []), h')

-- `RemoveClientFromDB(TcpClient *)`.
unfoldable pub remove_client_from_db : ℕ → ClientDb → Heap → Outcome (ClientDb × Heap)
remove_client_from_db p db h = do (alive, h') ← dereference p h; ok (remove p db, h')

-- `RemoveClientFromDB(uint32_t, uint16_t)`: the client, if there is one and it is not deleted.
unfoldable pub remove_key_from_db : ℕ → ℕ → ClientDb → Heap → Outcome (Option ℕ × ClientDb × Heap)
remove_key_from_db ip_addr port_no db h = do
  found ← look_up_client_db ip_addr port_no db h
  drop_found found
  where
    drop_found : Option ℕ → Outcome (Option ℕ × ClientDb × Heap)
    drop_found none = ok (none, db, h)
    drop_found (some p) = do
      (alive, h') ← dereference p h
      ok (if alive then some p else none, remove p db, h')

-- `CopyAllClientsTolist`, onto the end of `list`.
abbrev pub copy_all_clients_to_list : ClientDb → List ℕ → Heap → Outcome (List ℕ × Heap)
copy_all_clients_to_list [] list h = ok (list, h)
copy_all_clients_to_list (p ∷ db) list h = do
  h' ← reference p h
  copy_all_clients_to_list db (list ++ (p ∷ [])) h'

abbrev pub is_head : ℕ → ClientDb → Bool
is_head p [] = false
is_head p (q ∷ db) = q == p

-- The body of the loop in `Purge`.
unfoldable pub purge_client : ℕ → Heap → Outcome Heap
purge_client p h = do
  c ← deref (h p)
  (threaded, h') ← if c.client_thread then stop_thread p h else ok (true, h)
  (alive, h'') ← dereference p h'
  ok h''

-- What an iterator at the front of these leads to: `end()` leads to no element.
abbrev pub client_at : ClientDb → Outcome ℕ
client_at [] = stop past_end
client_at (p ∷ db) = ok p

-- `Purge`. The iterator is read where it begins and behind the client of each round, at the end of the
-- list too. It stands on the next element, which `remove` frees if it is the same client.
unfoldable pub purge : ℕ → ClientDb → Heap → Outcome (ClientDb × Heap)
purge k [] h = stop past_end
purge zero (p ∷ db) h = stop fuel
purge (suc k) (p ∷ db) h = do
  next ← client_at db
  h' ← purge_client p h
  rest ← if is_head p db then stop memory else ok (remove p db)
  purge k rest h'
