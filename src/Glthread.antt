-- ===== src/Glthread.antt =====
-- CommandParser/gluethread/glthread.h and glthread.c: the doubly linked list whose links stand inside
-- the nodes. A list is its head, a node of its own, and what the right links lead to.
pub mod Chain
pub mod Insert
pub mod Iterate
pub mod Priority
pub mod Remove
mod Tests
use tcpserver_lib.Base.{
  ℕ, zero, suc, ◌+◌, Bool, true, false, not, ◌&&◌, Option, none, some, List, [], ◌∷◌, Outcome, ok,
  stop, memory, fuel, ◌>>=◌, ◌>>◌, deref, ◌==◌, if◌then◌else◌,
}

-- `glthread_t`. A null pointer is `none`.
pub record Glthread : Type 0 where
  pub left : Option ℕ
  pub right : Option ℕ

-- What each address holds.
abbrev pub Nodes : Type 0
Nodes = ℕ → Option Glthread

abbrev pub put : Nodes → ℕ → Glthread → Nodes
put h p g q = if q == p then some g else h q

abbrev pub set_left : ℕ → Option ℕ → Nodes → Outcome Nodes
set_left p l h = do g ← deref (h p); ok (put h p (record g { left = l }))

abbrev pub set_right : ℕ → Option ℕ → Nodes → Outcome Nodes
set_right p r h = do g ← deref (h p); ok (put h p (record g { right = r }))

unfoldable pub init_glthread : ℕ → Nodes → Outcome Nodes
init_glthread p h = do h ← set_left p none h; set_right p none h

abbrev pub is_null : Option ℕ → Bool
is_null none = true
is_null (some p) = false

-- `IS_GLTHREAD_LIST_EMPTY`.
abbrev pub is_list_empty : Glthread → Bool
is_list_empty g = is_null g.right && is_null g.left

-- `glthread_add_next` after its test of `right`.
abbrev pub link_next : Option ℕ → ℕ → ℕ → Nodes → Outcome Nodes
link_next none curr new h = do h ← set_right curr (some new) h; set_left new (some curr) h
link_next (some temp) curr new h = do
  h ← set_right curr (some new) h
  h ← set_left new (some curr) h
  h ← set_right new (some temp) h
  set_left temp (some new) h

unfoldable pub glthread_add_next : ℕ → ℕ → Nodes → Outcome Nodes
glthread_add_next curr new h = do g ← deref (h curr); link_next g.right curr new h

-- `glthread_add_before` after its test of `left`.
abbrev pub link_before : Option ℕ → ℕ → ℕ → Nodes → Outcome Nodes
link_before none curr new h = do
  h ← set_left new none h
  h ← set_right new (some curr) h
  set_left curr (some new) h
link_before (some temp) curr new h = do
  h ← set_right temp (some new) h
  h ← set_left new (some temp) h
  h ← set_right new (some curr) h
  set_left curr (some new) h

unfoldable pub glthread_add_before : ℕ → ℕ → Nodes → Outcome Nodes
glthread_add_before curr new h = do g ← deref (h curr); link_before g.left curr new h

-- `remove_glthread`, by the links of the node.
abbrev pub unlink : Option ℕ → Option ℕ → ℕ → Nodes → Outcome Nodes
unlink none none curr h = ok h
unlink none (some r) curr h = do h ← set_left r none h; set_right curr none h
unlink (some l) none curr h = do h ← set_right l none h; set_left curr none h
unlink (some l) (some r) curr h = do
  h ← set_right l (some r) h
  h ← set_left r (some l) h
  h ← set_left curr none h
  set_right curr none h

unfoldable pub remove_glthread : ℕ → Nodes → Outcome Nodes
remove_glthread curr h = do g ← deref (h curr); unlink g.left g.right curr h

-- The loops of ITERATE_GLTHREAD_BEGIN start from the right link of the head, and read the right link
-- of a node before their body.
unfoldable pub delete_from : ℕ → Option ℕ → Nodes → Outcome Nodes
delete_from k none h = ok h
delete_from zero (some p) h = stop fuel
delete_from (suc k) (some p) h = do
  g ← deref (h p)
  h' ← remove_glthread p h
  delete_from k g.right h'

unfoldable pub delete_glthread_list : ℕ → ℕ → Nodes → Outcome Nodes
delete_glthread_list k head h = do g ← deref (h head); delete_from k g.right h

-- The loop of `glthread_add_last`: the node before the end, if there is one.
unfoldable pub last_from : ℕ → Option ℕ → Option ℕ → Nodes → Outcome (Option ℕ)
last_from k none prev h = ok prev
last_from zero (some p) prev h = stop fuel
last_from (suc k) (some p) prev h = do g ← deref (h p); last_from k g.right (some p) h

abbrev pub or_else : Option ℕ → ℕ → ℕ
or_else none d = d
or_else (some p) d = p

unfoldable pub glthread_add_last : ℕ → ℕ → ℕ → Nodes → Outcome Nodes
glthread_add_last k head new h = do
  g ← deref (h head)
  prev ← last_from k g.right none h
  glthread_add_next (or_else prev head) new h

unfoldable pub count_from : ℕ → ℕ → Option ℕ → Nodes → Outcome ℕ
count_from k count none h = ok count
count_from zero count (some p) h = stop fuel
count_from (suc k) count (some p) h = do g ← deref (h p); count_from k (count + 1) g.right h

unfoldable pub get_glthread_list_count : ℕ → ℕ → Nodes → Outcome ℕ
get_glthread_list_count k head h = do g ← deref (h head); count_from k 0 g.right h

unfoldable pub dequeue_glthread_first : ℕ → Nodes → Outcome (Option ℕ × Nodes)
dequeue_glthread_first base h = do g ← deref (h base); first g.right
  where
    first : Option ℕ → Outcome (Option ℕ × Nodes)
    first none = ok (none, h)
    first (some temp) = do h' ← remove_glthread temp h; ok (some temp, h')

-- `before a b` says that `comp_fn` returns -1 for the data of the nodes `a` and `b`.
module _ (before : ℕ → ℕ → Bool) where
  -- The loop of `glthread_priority_insert`: the node behind which the new one goes.
  unfoldable pub place_from : ℕ → ℕ → Option ℕ → Option ℕ → Nodes → Outcome (Option ℕ)
  place_from k new none prev h = ok prev
  place_from zero new (some p) prev h = stop fuel
  place_from (suc k) new (some curr) prev h = do
    g ← deref (h curr)
    elim (before new curr) [ true ↦ ok prev | false ↦ place_from k new g.right (some curr) h ]

  -- A head with a left link only: the loop has no round, and the null pointer `prev` is followed.
  -- Else the list has one node, whose right link is null.
  abbrev pub insert_single : ℕ → ℕ → ℕ → Nodes → Outcome Nodes
  insert_single head only new h =
      if before new only then glthread_add_next head new h else glthread_add_next only new h

  abbrev pub insert_among : ℕ → ℕ → Option ℕ → ℕ → Nodes → Outcome Nodes
  insert_among k head none new h = stop memory
  insert_among k head (some first) new h = do
    g ← deref (h first)
    elim (is_null g.right) [
      | true ↦ insert_single head first new h
      | false ↦ do
        prev ← place_from k new (some first) none h
        glthread_add_next (or_else prev head) new h
    ]

  unfoldable pub glthread_priority_insert : ℕ → ℕ → ℕ → Nodes → Outcome Nodes
  glthread_priority_insert k head new h0 = do
    h ← init_glthread new h0
    g ← deref (h head)
    if is_list_empty g then glthread_add_next head new h else insert_among k head g.right new h
