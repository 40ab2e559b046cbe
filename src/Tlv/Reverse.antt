-- ===== src/Tlv/Reverse.antt =====
-- The loop over the TLVs of a buffer puts them in the opposite order.
use tcpserver_lib.Base.{
  ℕ, zero, suc, ◌+◌, ◌-◌, ◌*◌, ◌/◌, ◌≡◌, refl, sym, ap, ◌∙◌, List, [], ◌∷◌, ◌++◌, arith, ok, ◌>>=◌,
  length, drop, concat, All, replicate, memcpy, memcpy-piece, take-front, length-append,
  append_assoc, concat-append, append-nil, leb, Returns, Bool-cases, inl, inr, take-append-drop,
  length-drop,
}
use mathlib.Core.List.{reverse, reverse-cons, reverse-append}
use tcpserver_lib.Serialize.{SerBuff}
use tcpserver_lib.Serialize.Append.{IsValid, written, length-written}
use tcpserver_lib.Tlv.{tlv_size, swap_tlv_units, swap_loop, reverse_tlvs}

-- Two blocks of TLV size change places.
swap_tlv_units_lem :
    (a x m y b : List ℕ) (i j : ℕ)
    → length a ≡ i * tlv_size
    → length x ≡ tlv_size
    → length y ≡ tlv_size
    → length a + (tlv_size + length m) ≡ j * tlv_size
    → swap_tlv_units (a ++ (x ++ (m ++ (y ++ b)))) i j ≡ ok (a ++ (y ++ (m ++ (x ++ b))))
unfolding swap_tlv_units
swap_tlv_units_lem a x m y b i j at long long' at' =
    ap
      (λ o. o >>= λ t. memcpy s (i * tlv_size) s (j * tlv_size) tlv_size >>= λ b'.
        memcpy b' (j * tlv_size) t 0 tlv_size)
      (memcpy-piece [] (replicate tlv_size 0) [] s x a (m ++ (y ++ b)) 0 (i * tlv_size) tlv_size
          refl refl refl at long
        ∙ ap ok (append-nil x))
    ∙ ap (λ o. o >>= λ b'. memcpy b' (j * tlv_size) x 0 tlv_size)
        (memcpy-piece a x (m ++ (y ++ b)) s y (a ++ (x ++ m)) b (i * tlv_size) (j * tlv_size)
          tlv_size regroup at long
          (omega (arith, length-append a (x ++ m), length-append x m, long, at')) long')
    ∙ ap (λ t. memcpy t (j * tlv_size) x 0 tlv_size) (regrouped y)
    ∙ memcpy-piece (a ++ (y ++ m)) y b x x [] [] (j * tlv_size) 0 tlv_size (sym (append-nil x))
        (omega (arith, length-append a (y ++ m), length-append y m, long', at')) long' refl long
    ∙ ap ok (sym (grouped y x))
  where
    s : List ℕ
    s = a ++ (x ++ (m ++ (y ++ b)))

    grouped : (u v : List ℕ) → a ++ (u ++ (m ++ (v ++ b))) ≡ (a ++ (u ++ m)) ++ (v ++ b)
    grouped u v =
        sym (append_assoc a (u ++ m) (v ++ b) ∙ ap (λ t. a ++ t) (append_assoc u m (v ++ b)))

    regroup : s ≡ (a ++ (x ++ m)) ++ (y ++ b)
    regroup = grouped x y

    regrouped : (u : List ℕ) → a ++ (u ++ (m ++ (y ++ b))) ≡ (a ++ (u ++ m)) ++ (y ++ b)
    regrouped u = grouped u y

-- Blocks of TLV size.
abbrev pub Blocks : List (List ℕ) → Type 0
Blocks = All (λ u. length u ≡ tlv_size)

length-Blocks : (us : List (List ℕ)) → Blocks us → length (concat us) ≡ length us * tlv_size
length-Blocks [] all = refl
length-Blocks (u ∷ us) (here, all) =
    omega (arith, length-append u (concat us), here, length-Blocks us all)

-- A list of two or more has a first, a last, and what is between.
ends :
    (us : List (List ℕ)) (k : ℕ)
    → length us / 2 ≡ suc k
    → Blocks us
    → (x : List ℕ) × (ms : List (List ℕ)) × (y : List ℕ) × (us ≡ x ∷ (ms ++ (y ∷ [])))
      × (length x ≡ tlv_size)
      × (length y ≡ tlv_size)
      × Blocks ms
ends [] k e all = absurd (omega (arith, e))
ends (x ∷ []) k e all = absurd (omega (arith, e))
ends (x ∷ (u ∷ us)) k e (here, (next, all)) =
    let (ms, y, eq, last, kept) = final u us next all in
    (x, ms, y, ap (λ t. x ∷ t) eq, here, last, kept)
  where
    final :
        (u : List ℕ) (us : List (List ℕ))
        → length u ≡ tlv_size
        → Blocks us
        → (ms : List (List ℕ)) × (y : List ℕ) × (u ∷ us ≡ ms ++ (y ∷ []))
          × (length y ≡ tlv_size)
          × Blocks ms
    final u [] here all = ([], u, refl, here, tt)
    final u (v ∷ us) here (next, all) =
        let (ms, y, eq, last, kept) = final v us next all in
        (u ∷ ms, y, ap (λ t. u ∷ t) eq, last, (here, kept))

reverse-ends :
    (x : List ℕ) (ms : List (List ℕ)) (y : List ℕ)
    → reverse (x ∷ (ms ++ (y ∷ []))) ≡ y ∷ (reverse ms ++ (x ∷ []))
reverse-ends x ms y =
    reverse-cons x (ms ++ (y ∷ [])) ∙ ap (λ t. t ++ (x ∷ [])) (reverse-append ms (y ∷ []))

concat-ends :
    (x : List ℕ) (ms : List (List ℕ)) (y b : List ℕ)
    → concat (x ∷ (ms ++ (y ∷ []))) ++ b ≡ x ++ (concat ms ++ (y ++ b))
concat-ends x ms y b =
    append_assoc x (concat (ms ++ (y ∷ []))) b
    ∙ ap (λ t. x ++ t)
        (ap (λ t. t ++ b) (concat-append ms (y ∷ []))
          ∙ append_assoc (concat ms) (y ++ []) b
          ∙ ap (λ t. concat ms ++ (t ++ b)) (append-nil y))

-- A short list reads the same both ways.
reverse-short : (us : List (List ℕ)) → length us / 2 ≡ 0 → reverse us ≡ us
reverse-short [] e = refl
reverse-short (x ∷ []) e = refl
reverse-short (x ∷ (y ∷ us)) e = absurd (omega (arith, e))

-- The rounds that are left reverse what lies between `i` and `j`.
swap_loop_lem :
    (k : ℕ) (a : List ℕ) (us : List (List ℕ)) (b : List ℕ) (i j : ℕ)
    → length us / 2 ≡ k
    → Blocks us
    → length a ≡ i * tlv_size
    → j ≡ i + length us - 1
    → swap_loop k i j (a ++ (concat us ++ b)) ≡ ok (a ++ (concat (reverse us) ++ b))
unfolding swap_loop
swap_loop_lem zero a us b i j half all at e = rw (reverse-short us half) refl
swap_loop_lem (suc k) a us b i j half all at e =
    let (x, ms, y, eq, long, long', all') = ends us k half all in
    let count : length us ≡ length ms + 2 =
      ap length eq ∙ omega (arith, length-append ms (y ∷ [])) in
    let ih =
      swap_loop_lem k (a ++ y) ms (x ++ b) (i + 1) (j - 1) (omega (arith, count, half)) all'
        (omega (arith, length-append a y, at, long')) (omega (arith, count, e)) in
    rw eq (
      ap (λ t. swap_tlv_units (a ++ t) i j >>= swap_loop k (i + 1) (j - 1)) (concat-ends x ms y b)
      ∙ ap (λ o. o >>= swap_loop k (i + 1) (j - 1))
          (swap_tlv_units_lem a x (concat ms) y b i j at long long'
            (omega (arith, length-Blocks ms all', at, e, count)))
      ∙ ap (swap_loop k (i + 1) (j - 1)) (sym (append_assoc a y (concat ms ++ (x ++ b))))
      ∙ ih
      ∙ ap ok (
          append_assoc a y (concat (reverse ms) ++ (x ++ b))
          ∙ ap (λ t. a ++ t)
              (sym
                (ap (λ t. concat t ++ b) (reverse-ends x ms y) ∙ concat-ends y (reverse ms) x b))))

-- The buffer after its TLVs have been reversed.
pub record Reversed (s : SerBuff) (us : List (List ℕ)) (s' : SerBuff) : Type 0 where
  pub valid : IsValid s'
  pub bytes_eq : written s' ≡ concat (reverse us)
  pub next_eq : s'.next ≡ s.next
  pub checkpoint_eq : s'.checkpoint ≡ s.checkpoint
  pub size_eq : s'.size ≡ s.size

length-concat-reverse :
    (us : List (List ℕ)) → Blocks us → length (concat (reverse us)) ≡ length (concat us)
length-concat-reverse [] all = refl
length-concat-reverse (u ∷ us) (here, all) =
    ap (λ t. length (concat t)) (reverse-cons u us)
    ∙ omega (
      arith,
      ap length (concat-append (reverse us) (u ∷ [])),
      length-append (concat (reverse us)) (u ++ []),
      length-append u [],
      length-append u (concat us),
      length-concat-reverse us all,
    )

pub reverse_tlvs-Reversed :
    {s : SerBuff} (us : List (List ℕ))
    → IsValid s
    → Blocks us
    → written s ≡ concat us
    → Returns (Reversed s us) (reverse_tlvs s)
unfolding reverse_tlvs
reverse_tlvs-Reversed {s} us v all is =
    let bytes : s.next ≡ length us * tlv_size =
      omega (arith, length-written v, ap length is, length-Blocks us all) in
    elim (Bool-cases (leb (2 * tlv_size) s.next)) [
      | inr few ↦ rw few (record {
        valid = v;
        bytes_eq = is ∙ ap concat (sym (reverse-short us (ground (arith, bytes))));
        next_eq = refl;
        checkpoint_eq = refl;
        size_eq = refl;
      })
      | inl more ↦
          let units : s.next / tlv_size ≡ length us = omega (arith, bytes) in
          let new = concat (reverse us) ++ drop s.next s.b in
          let run : swap_loop (s.next / tlv_size / 2) 0 (s.next / tlv_size - 1) s.b ≡ ok new =
            ap (swap_loop (s.next / tlv_size / 2) 0 (s.next / tlv_size - 1))
              (sym (take-append-drop s.next s.b) ∙ ap (λ t. t ++ drop s.next s.b) is)
            ∙ swap_loop_lem (s.next / tlv_size / 2) [] us (drop s.next s.b) 0
                (s.next / tlv_size - 1) (omega (arith, units)) all refl (omega (arith, units)) in
          let long : length (concat (reverse us)) ≡ s.next =
            omega (arith, length-concat-reverse us all, length-Blocks us all, bytes) in
          rw (more, run)
            (record {
              valid = record {
                storage = omega (
                  arith,
                  length-append (concat (reverse us)) (drop s.next s.b),
                  length-drop s.next s.b,
                  long,
                  v.storage,
                  v.next_in,
                );
                next_in = v.next_in;
                checkpoint_in = v.checkpoint_in;
              };
              bytes_eq = take-front (concat (reverse us)) (drop s.next s.b) s.next long;
              next_eq = refl;
              checkpoint_eq = refl;
              size_eq = refl;
            })
    ]
