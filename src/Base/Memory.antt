-- ===== src/Base/Memory.antt =====
-- Blocks of bytes and `memcpy`.
use Prim.Native.Nat.{ℕ, ◌+◌, ◌-◌, ◌≤◌}
use mathlib.Core.Path.{◌≡◌}
use mathlib.Core.List.{List, ◌++◌}
use native.Mathlib.Omega.{arith}
use tcpserver_lib.Base.Tests.{ltb, leb, if◌then◌else◌}
use tcpserver_lib.Base.Results.{Outcome, ok, stop, memory}
use tcpserver_lib.Base.Lists.{
  length, get_elem?, take, drop, length-append, length-take, length-drop, get_elem?-append,
  get_elem?-take, get_elem?-drop,
}

-- `dst` with the bytes `xs` written from index `i` on.
abbrev pub splice : List ℕ → ℕ → List ℕ → List ℕ
splice dst i xs = take i dst ++ (xs ++ drop (i + length xs) dst)

-- `memcpy(dst + i, src + j, n)`, which faults where it leaves one of the two arrays.
abbrev pub memcpy : (dst : List ℕ) (i : ℕ) (src : List ℕ) (j n : ℕ) → Outcome (List ℕ)
memcpy dst i src j n =
    if leb (i + n) (length dst)
    then (if leb (j + n) (length src) then ok (splice dst i (take n (drop j src))) else stop memory)
    else stop memory

module _ (dst : List ℕ) (i : ℕ) (xs : List ℕ) (fits : i + length xs ≤ length dst) where
  pub length-splice : length (splice dst i xs) ≡ length dst
  length-splice = omega (
    arith,
    length-append (take i dst) (xs ++ drop (i + length xs) dst),
    length-append xs (drop (i + length xs) dst),
    length-take i dst,
    length-drop (i + length xs) dst,
  )

  pub get_elem?-splice :
      (k : ℕ)
      → get_elem? (splice dst i xs) k ≡ (
          if ltb k i
          then get_elem? dst k
          else if ltb k (i + length xs)
          then get_elem? xs (k - i)
          else get_elem? dst k)
  get_elem?-splice k = ground (
    arith,
    get_elem?-append (take i dst) (xs ++ drop (i + length xs) dst) k,
    get_elem?-append xs (drop (i + length xs) dst) (k - i),
    get_elem?-take i dst k,
    get_elem?-drop (i + length xs) dst (k - i - length xs),
    length-take i dst,
  )

-- A copy that stays inside both arrays succeeds.
pub memcpy-ok :
    (dst : List ℕ) (i : ℕ) (src : List ℕ) (j n : ℕ)
    → i + n ≤ length dst
    → j + n ≤ length src
    → memcpy dst i src j n ≡ ok (splice dst i (take n (drop j src)))
memcpy-ok dst i src j n h k = ground arith
