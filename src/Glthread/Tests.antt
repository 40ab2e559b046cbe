-- ===== src/Glthread/Tests.antt =====
-- The list 1, whose nodes are 2 and 3, and the node 4, which is in no list.
use tcpserver_lib.Base.{
  ℕ, ◌≡◌, refl, true, false, none, some, [], ◌∷◌, ok, Returns, ltb, arith, ◌==◌, if◌then◌else◌,
}
use tcpserver_lib.Glthread.{
  Nodes, get_glthread_list_count, dequeue_glthread_first, glthread_priority_insert,
}
use tcpserver_lib.Glthread.Chain.{Chain}
use tcpserver_lib.Glthread.Iterate.{get_glthread_list_count-length}
use tcpserver_lib.Glthread.Remove.{Dequeued, dequeue_glthread_first-Dequeued}
use tcpserver_lib.Glthread.Priority.{Inserted, glthread_priority_insert-Inserted}

abbrev store : Nodes
store q =
    if q == 1
    then some (record { left = none; right = some 2 })
    else if q == 2
    then some (record { left = some 1; right = some 3 })
    else if q == 3
    then some (record { left = some 2; right = none })
    else if q == 4
    then some (record { left = none; right = none })
    else none

store-Chain : Chain store none 1 (2 ∷ 3 ∷ [])
store-Chain = (refl, refl, (refl, refl, refl))

get_glthread_list_count-length_example : get_glthread_list_count 5 1 store ≡ ok 2
get_glthread_list_count-length_example =
    get_glthread_list_count-length store none 1 (2 ∷ 3 ∷ []) 5 store-Chain (omega arith)

dequeue_glthread_first-Dequeued_example :
    Returns (Dequeued store none 1 (2 ∷ 3 ∷ [])) (dequeue_glthread_first 1 store)
dequeue_glthread_first-Dequeued_example =
    dequeue_glthread_first-Dequeued store none 1 (2 ∷ 3 ∷ []) store-Chain

ltb_asym : (a b : ℕ) → ltb a b ≡ true → ltb b a ≡ false
ltb_asym a b less = ground arith

glthread_priority_insert-Inserted_example :
    Returns (Inserted ltb 1 (2 ∷ 3 ∷ []) 4) (glthread_priority_insert ltb 5 1 4 store)
glthread_priority_insert-Inserted_example =
    glthread_priority_insert-Inserted ltb store 1 (2 ∷ 3 ∷ []) 4 5
      (record { left = none; right = none }) ltb_asym store-Chain (refl, tt) refl refl (omega arith)
