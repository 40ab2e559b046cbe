-- ===== src/Db/Purge.antt =====
-- `Purge`: the database gives up every reference it holds, and its clients' threads end.
use tcpserver_lib.Base.{
  ℕ, zero, suc, ◌+◌, ◌≤◌, ◌≡◌, refl, ap, inl, inr, false, [], ◌∷◌, arith, ok, stop, past_end, ◌>>=◌,
  Returns, Returns-result, Returns-bind, Bool-cases, length,
}
use tcpserver_lib.Client.{Heap, stop_thread, dereference}
use tcpserver_lib.Client.Heap.{RefCounted, Dropped, one, one_self, dereference-Dropped}
use tcpserver_lib.Client.Threads.{stop_thread-RefCounted}
use tcpserver_lib.Db.{ClientDb, remove, is_head, purge_client, purge}
use tcpserver_lib.Db.Refs.{count, RefCounted-cong, live_lem}

pub purge_client-RefCounted :
    (h : Heap) (n : ℕ → ℕ) (p : ℕ)
    → RefCounted h (λ q. n q + one p q)
    → Returns (λ h'. RefCounted h' n) (purge_client p h)
unfolding purge_client
purge_client-RefCounted h n p counted =
    let (c, live) =
      live_lem h (λ q. n q + one p q) p counted (λ z. absurd (omega (arith, z, one_self p))) in
    rw live (elim (Bool-cases c.client_thread) [
      | inl busy ↦ rw busy (
          Returns-bind (Dropped p (λ q. n q + one p q)) _ (stop_thread p h) _
            (stop_thread-RefCounted h (λ q. n q + one p q) p c counted live busy)
            (λ (_, h') d. drop_last h' d.0))
      | inr idle ↦ rw idle (drop_last h counted)
    ])
  where
    drop_last :
        (h' : Heap)
        → RefCounted h' (λ q. n q + one p q)
        → Returns (λ h''. RefCounted h'' n) (dereference p h' >>= λ (_, h''). ok h'')
    drop_last h' counted' =
        Returns-bind (Dropped p n) _ (dereference p h') _ (dereference-Dropped h' n p counted')
          (λ (_, h'') d. d.0)

-- No client is in the list twice.
abbrev pub IsDistinct : ClientDb → Type 0
IsDistinct db = (q : ℕ) → count q db ≤ 1

pub remove_absent : (p : ℕ) (db : ClientDb) → count p db ≡ 0 → remove p db ≡ db
remove_absent p [] e = refl
remove_absent p (q ∷ db) e = ground (arith, ap (λ t. q ∷ t) (remove_absent p db (omega (arith, e))))

pub not_head : (p : ℕ) (db : ClientDb) → count p db ≡ 0 → is_head p db ≡ false
not_head p [] e = refl
not_head p (q ∷ db) e = ground (arith, e)

-- If all references are accounted for, those of the database among them, no client is in the list
-- twice, and the fuel is at least the number of clients, then what `Purge` comes to is the access to
-- what is behind the last element: no assertion fails before it, and the fuel does not run out.
pub purge-past_end :
    (h : Heap) (n : ℕ → ℕ) (db : ClientDb) (k : ℕ)
    → RefCounted h (λ q. n q + count q db)
    → IsDistinct db
    → length db ≤ k
    → purge k db h ≡ stop past_end
unfolding purge
purge-past_end h n [] k counted distinct enough = refl
purge-past_end h n (p ∷ db) zero counted distinct enough = absurd (omega arith)
purge-past_end h n (p ∷ []) (suc k) counted distinct enough = refl
purge-past_end h n (p ∷ (q ∷ db)) (suc k) counted distinct enough =
    let absent : count p (q ∷ db) ≡ 0 = omega (arith, distinct p, one_self p) in
    let (h', e, counted') =
      Returns-result (λ h'. RefCounted h' (λ r. n r + count r (q ∷ db))) (purge_client p h)
        (purge_client-RefCounted h (λ r. n r + count r (q ∷ db)) p
          (RefCounted-cong h _ _ counted (λ r. omega arith))) in
    rw (e, not_head p (q ∷ db) absent, remove_absent p db (omega (arith, absent)))
      (purge-past_end h' n (q ∷ db) k counted' (λ r. omega (arith, distinct r)) (omega arith))
