-- ===== src/Glthread/Iterate.antt =====
-- The loops over a list: what they count, and where `glthread_add_last` puts a node.
use tcpserver_lib.Base.{
  ℕ, zero, suc, ◌+◌, ◌≤◌, ◌≡◌, refl, sym, ◌∙◌, ap, false, Option, none, some, List, [], ◌∷◌,
  append-nil, arith, ok, Returns, length,
}
use mathlib.Core.Path.{subst}
use tcpserver_lib.Glthread.{
  Nodes, count_from, get_glthread_list_count, last_from, or_else, glthread_add_last,
}
use tcpserver_lib.Glthread.Chain.{has, head_of, Chain, Chain-node}
use tcpserver_lib.Glthread.Insert.{last_of, Linked, glthread_add_next-Linked}

count_from-Chain :
    (h : Nodes) (l : Option ℕ) (p : ℕ) (xs : List ℕ) (k c : ℕ)
    → Chain h l p xs
    → length xs ≤ k
    → count_from k c (head_of xs) h ≡ ok (c + length xs)
unfolding count_from
count_from-Chain h l p [] k c chain enough = ap ok (omega arith)
count_from-Chain h l p (x ∷ xs) zero c chain enough = absurd (omega arith)
count_from-Chain h l p (x ∷ xs) (suc k) c chain enough =
    rw (Chain-node h (some p) x xs chain.2)
      (count_from-Chain h (some p) x xs k (c + 1) chain.2 (omega arith) ∙ ap ok (omega arith))

pub get_glthread_list_count-length :
    (h : Nodes) (l : Option ℕ) (head : ℕ) (xs : List ℕ) (k : ℕ)
    → Chain h l head xs
    → length xs ≤ k
    → get_glthread_list_count k head h ≡ ok (length xs)
unfolding get_glthread_list_count
get_glthread_list_count-length h l head xs k chain enough =
    rw (Chain-node h l head xs chain)
      (count_from-Chain h l head xs k 0 chain enough ∙ ap ok (omega arith))

-- The last node of a list, if it has one.
abbrev pub last_or : Option ℕ → List ℕ → Option ℕ
last_or prev [] = prev
last_or prev (x ∷ xs) = last_or (some x) xs

last_from-Chain :
    (h : Nodes) (l : Option ℕ) (p : ℕ) (xs : List ℕ) (k : ℕ) (prev : Option ℕ)
    → Chain h l p xs
    → length xs ≤ k
    → last_from k (head_of xs) prev h ≡ ok (last_or prev xs)
unfolding last_from
last_from-Chain h l p [] k prev chain enough = refl
last_from-Chain h l p (x ∷ xs) zero prev chain enough = absurd (omega arith)
last_from-Chain h l p (x ∷ xs) (suc k) prev chain enough =
    rw (Chain-node h (some p) x xs chain.2)
      (last_from-Chain h (some p) x xs k (some x) chain.2 (omega arith))

pub or_else-last_or :
    (prev : Option ℕ) (d : ℕ) (xs : List ℕ)
    → or_else (last_or prev xs) d ≡ last_of (or_else prev d) xs
or_else-last_or prev d [] = refl
or_else-last_or prev d (x ∷ xs) = or_else-last_or (some x) d xs

-- With fuel for the length of the list, `glthread_add_last` of a node with a null right link that is
-- not in it succeeds: the list ends with the new node, and every other node is as it was.
pub glthread_add_last-Linked :
    (h : Nodes) (l nl : Option ℕ) (head : ℕ) (xs : List ℕ) (new k : ℕ)
    → Chain h l head xs
    → has new (head ∷ xs) ≡ false
    → h new ≡ some (record { left = nl; right = none })
    → length xs ≤ k
    → Returns (Linked h l head xs new []) (glthread_add_last k head new h)
unfolding glthread_add_last
glthread_add_last-Linked h l nl head xs new k chain apart free enough =
    rw
      (
        Chain-node h l head xs chain,
        last_from-Chain h l head xs k none chain enough,
        or_else-last_or none head xs,
      )
      (glthread_add_next-Linked h l nl head xs [] new
        (subst (Chain h l head) (sym (append-nil xs)) chain)
        (subst (λ t. has new (head ∷ t) ≡ false) (sym (append-nil xs)) apart) free)
