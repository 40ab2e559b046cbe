-- ===== src/Bcb/Queue.antt =====
-- What the ring promises: a queue of at most `cap` bytes, oldest first. A write is accepted whole
-- or not at all, and so is a read.
use tcpserver_lib.Base.{ℕ, ◌-◌, Bool, List, [], ◌++◌, ltb, ◌==◌, if◌then◌else◌, length, take, drop}

-- The count and the queue after a write of the first `n` bytes of `src`.
abbrev pub push : ℕ → List ℕ → List ℕ → ℕ → ℕ × List ℕ
push cap q src n =
    if length q == cap
    then (0, q)
    else if ltb (cap - length q) n
    then (0, q)
    else (n, q ++ take n src)

-- The count, the bytes and the queue after a read of `n` bytes, which `remove` takes out.
abbrev pub pull : List ℕ → ℕ → Bool → ℕ × List ℕ × List ℕ
pull q n remove =
    if ltb (length q) n then (0, [], q) else (n, take n q, if remove then drop n q else q)
