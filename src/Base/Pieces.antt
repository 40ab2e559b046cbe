-- ===== src/Base/Pieces.antt =====
-- Pieces of a block: read, and written over.
use Prim.Native.Nat.{ℕ, zero, suc, ◌+◌}
use mathlib.Core.Path.{◌≡◌, refl, sym, ap, ap₂, ◌∙◌}
use mathlib.Core.List.{List, [], ◌∷◌, ◌++◌, append_assoc}
use native.Mathlib.Omega.{arith}
use tcpserver_lib.Base.Results.{ok}
use tcpserver_lib.Base.Lists.{length, take, drop, length-append}
use tcpserver_lib.Base.Memory.{splice, memcpy, memcpy-ok}

-- Where a list begins with this one.
pub take-front {ℓ} : {A : Type ℓ} (a b : List A) (n : ℕ) → length a ≡ n → take n (a ++ b) ≡ a
take-front [] b zero e = refl
take-front [] b (suc n) e = absurd (omega (arith, e))
take-front (x ∷ a) b zero e = absurd (omega (arith, e))
take-front (x ∷ a) b (suc n) e = ap (λ t. x ∷ t) (take-front a b n (omega (arith, e)))

pub drop-front {ℓ} : {A : Type ℓ} (a b : List A) (n : ℕ) → length a ≡ n → drop n (a ++ b) ≡ b
drop-front [] b zero e = refl
drop-front [] b (suc n) e = absurd (omega (arith, e))
drop-front (x ∷ a) b zero e = absurd (omega (arith, e))
drop-front (x ∷ a) b (suc n) e = drop-front a b n (omega (arith, e))

-- A piece is read, and is written over by one of its length.
read-piece :
    (a x b : List ℕ) (i n : ℕ) → length a ≡ i → length x ≡ n → take n (drop i (a ++ (x ++ b))) ≡ x
read-piece a x b i n at long = ap (take n) (drop-front a (x ++ b) i at) ∙ take-front x b n long

write-piece :
    (a x y b : List ℕ) (i : ℕ)
    → length a ≡ i
    → length x ≡ length y
    → splice (a ++ (x ++ b)) i y ≡ a ++ (y ++ b)
write-piece a x y b i at same =
    ap₂ (λ s t. s ++ (y ++ t)) (take-front a (x ++ b) i at)
      (ap (drop (i + length y)) (sym (append_assoc a x b))
        ∙ drop-front (a ++ x) b (i + length y) (omega (arith, length-append a x, at, same)))

pub memcpy-piece :
    (a x b src : List ℕ) (y c d : List ℕ) (i j n : ℕ)
    → src ≡ c ++ (y ++ d)
    → length a ≡ i
    → length x ≡ n
    → length c ≡ j
    → length y ≡ n
    → memcpy (a ++ (x ++ b)) i src j n ≡ ok (a ++ (y ++ b))
memcpy-piece a x b src y c d i j n from at long at' long' = rw from (
    memcpy-ok (a ++ (x ++ b)) i (c ++ (y ++ d)) j n
      (omega (arith, length-append a (x ++ b), length-append x b, at, long))
      (omega (arith, length-append c (y ++ d), length-append y d, at', long'))
    ∙ ap ok (
        ap (λ t. splice (a ++ (x ++ b)) i t) (read-piece c y d j n at' long')
        ∙ write-piece a x y b i at (long ∙ sym long')))
