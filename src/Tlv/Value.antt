-- ===== src/Tlv/Value.antt =====
-- A value that is put into a TLV is read back from it, if it fits.
use tcpserver_lib.Base.{
  ℕ, zero, suc, ◌+◌, ◌-◌, ◌≡◌, ◌≤◌, ◌<◌, ◌≢◌, refl, ap, ◌∙◌, List, [], ◌∷◌, ◌++◌, arith, Outcome,
  ok, stop, memory, ◌>>=◌, length, take, drop, All, replicate, memcpy, memcpy-piece,
  take-append-drop, length-take, length-replicate, ap₂, ◌^◌, splice, length-splice, sym,
  length-append, Returns, Bool-cases, inl, inr, min, leb, ◌==◌, false, take_all, length-drop,
}
use tcpserver_lib.Strings.{c_string, strncpy, leaf_value_holder_size}
use tcpserver_lib.Serialize.{SerBuff, serialize_string}
use tcpserver_lib.Serialize.Append.{IsValid, Appended, serialize_bytes-Appended}
use tcpserver_lib.Tlv.{
  leaf_tlv, Tlv, LeafType, tlv_size, tlv_bytes, leaf_id_size, prepare_tlv_from_leaf,
  put_value_in_tlv, tlv_copy_leaf_value, collect_tlv,
}

pub c_string-terminated : (s rest : List ℕ) → All (λ c. c ≢ 0) s → c_string (s ++ (0 ∷ rest)) ≡ ok s
c_string-terminated [] rest all = refl
c_string-terminated (c ∷ s) rest (here, all) = elim (Bool-cases (c == 0)) [
  | inl e ↦ absurd (here (ground (arith, e)))
  | inr e ↦ rw (c_string-terminated s rest all, e) refl
]

-- `strncpy` of exactly the characters of a string, and what it leaves.
pub strncpy-ok :
    (dst s : List ℕ)
    → length s ≤ length dst
    → strncpy dst s (length s) ≡ ok (s ++ drop (length s) dst)
strncpy-ok dst s fits =
    ap (λ t. memcpy t 0 (take (length s) s ++ replicate (length s - length s) 0) 0 (length s))
      (sym (take-append-drop (length s) dst))
    ∙ memcpy-piece [] (take (length s) dst) (drop (length s) dst)
        (take (length s) s ++ replicate (length s - length s) 0) s []
        (replicate (length s - length s) 0) 0 0 (length s)
        (ap (λ t. t ++ replicate (length s - length s) 0) (take_all (length s) s (omega arith)))
        refl (omega (arith, length-take (length s) dst)) refl refl

-- A NUL written behind the front of an array.
pub terminate :
    (s : List ℕ) (rest : List ℕ)
    → 0 < length rest
    → memcpy (s ++ rest) (length s) (0 ∷ []) 0 1 ≡ ok (s ++ (0 ∷ drop 1 rest))
terminate s [] some_left = absurd (omega (arith, some_left))
terminate s (r ∷ rest) some_left =
    memcpy-piece s (r ∷ []) rest (0 ∷ []) (0 ∷ []) [] [] (length s) 0 1 refl refl refl refl refl

-- The arrays of the struct have their sizes.
pub record IsTlv (t : Tlv) : Type 0 where
  pub id_length : length t.leaf_id ≡ leaf_id_size
  pub value_length : length t.value ≡ leaf_value_holder_size

pub put_value_in_tlv-ok :
    (t : Tlv) (val : List ℕ)
    → IsTlv t
    → length val < leaf_value_holder_size
    → put_value_in_tlv t val
      ≡ ok (record t { value = val ++ (0 ∷ drop 1 (drop (length val) t.value)) })
unfolding put_value_in_tlv
put_value_in_tlv-ok t val i short =
    let n : min leaf_value_holder_size (length val) ≡ length val = omega arith in
    rw
      (
        n,
        strncpy-ok t.value val (omega (arith, i.value_length)),
        terminate val (drop (length val) t.value)
            (omega (arith, length-drop (length val) t.value, i.value_length)),
      )
      refl

-- A value without a NUL, of fewer than 64 characters, that is put into a TLV is what
-- `tlv_copy_leaf_value` copies out of it, with a NUL behind it, into an array with room for both;
-- the rest of the array stays.
pub tlv_copy_leaf_value-put_value_in_tlv :
    (t : Tlv) (val dst : List ℕ)
    → IsTlv t
    → length val < leaf_value_holder_size
    → All (λ c. c ≢ 0) val
    → length val < length dst
    → (put_value_in_tlv t val >>= λ t'. tlv_copy_leaf_value t' dst)
      ≡ ok (val ++ (0 ∷ drop 1 (drop (length val) dst)))
unfolding tlv_copy_leaf_value
tlv_copy_leaf_value-put_value_in_tlv t val dst i short no_nul room =
    rw
      (
        put_value_in_tlv-ok t val i short,
        c_string-terminated val (drop 1 (drop (length val) t.value)) no_nul,
        strncpy-ok dst val (omega arith),
        terminate val (drop (length val) dst) (omega (arith, length-drop (length val) dst)),
      )
      refl

-- After a copy to the front of an array, a byte behind its end cannot be written.
past_end :
    {A : Type 0} (dst src : List ℕ) (n i : ℕ) (k : List ℕ → Outcome A)
    → length dst ≤ i
    → (memcpy dst 0 src 0 n >>= λ v. memcpy v i (0 ∷ []) 0 1 >>= k) ≡ stop memory
past_end dst src n i k end = elim (Bool-cases (leb (0 + n) (length dst))) [
  | inr out ↦ rw out refl
  | inl fits ↦ elim (Bool-cases (leb (0 + n) (length src))) [
    | inr out ↦ rw (fits, out) refl
    | inl given ↦
        let long : length (take n (drop 0 src)) ≡ n = ground (arith, length-take n src) in
        let same = length-splice dst 0 (take n (drop 0 src)) (ground (arith, long)) in
        let out : leb (i + 1) (length (splice dst 0 (take n (drop 0 src)))) ≡ false =
          ground (arith, same) in
        rw (fits, given, out) refl
  ]
]

-- A value of 64 characters or more is written past the end of the struct.
pub put_value_in_tlv-overflow :
    (t : Tlv) (val : List ℕ)
    → IsTlv t
    → leaf_value_holder_size ≤ length val
    → put_value_in_tlv t val ≡ stop memory
unfolding put_value_in_tlv
put_value_in_tlv-overflow t val i long =
    let n : min leaf_value_holder_size (length val) ≡ leaf_value_holder_size = omega arith in
    rw n (
      past_end t.value
        (take leaf_value_holder_size val ++ replicate (leaf_value_holder_size - length val) 0)
        leaf_value_holder_size leaf_value_holder_size _ (omega (arith, i.value_length)))

-- Zeros.
abbrev zeros : ℕ → List ℕ
zeros n = replicate n 0

drop-replicate : (n m : ℕ) → drop n (zeros m) ≡ zeros (m - n)
drop-replicate zero m = rw (zero_from m) refl
  where
    zero_from : (m : ℕ) → m - 0 ≡ m
    zero_from m = omega arith
drop-replicate (suc n) zero = rw none_left refl
  where
    none_left : 0 - suc n ≡ 0
    none_left = omega arith
drop-replicate (suc n) (suc m) =
    let e : suc m - suc n ≡ m - n = omega arith in rw e (drop-replicate n m)

-- A string in an array of this size, which was cleared before.
abbrev pub padded : ℕ → List ℕ → List ℕ
padded n s = s ++ replicate (n - length s) 0

length-padded : (n : ℕ) (s : List ℕ) → length s ≤ n → length (padded n s) ≡ n
length-padded n s fits =
    omega (
      arith,
      length-append s (replicate (n - length s) 0),
      length-replicate {A = ℕ} (n - length s) 0,
    )

-- The TLV of a leaf with this type, id and value.
abbrev pub tlv_of : LeafType → List ℕ → List ℕ → Tlv
tlv_of type id val = record {
  leaf_type = type;
  leaf_id = padded leaf_id_size id;
  value = padded leaf_value_holder_size val;
}

pub length-tlv_bytes :
    (type : LeafType) (id val : List ℕ)
    → length id ≤ leaf_id_size
    → length val ≤ leaf_value_holder_size
    → length (tlv_bytes (tlv_of type id val)) ≡ tlv_size
length-tlv_bytes type id val small short = omega (
  arith,
  length-append (padded leaf_id_size id) (padded leaf_value_holder_size val),
  length-padded leaf_id_size id small,
  length-padded leaf_value_holder_size val short,
)

pub leaf_tlv-tlv_of :
    (type : LeafType) (id val : List ℕ)
    → length id ≤ leaf_id_size
    → length val < leaf_value_holder_size
    → leaf_tlv type id val ≡ ok (tlv_of type id val)
unfolding prepare_tlv_from_leaf
leaf_tlv-tlv_of type id val small short =
    let n : min leaf_id_size (length id) ≡ length id = omega arith in
    rw
      (
        n,
        strncpy-ok (replicate leaf_id_size 0) id
            (omega (arith, length-replicate {A = ℕ} leaf_id_size 0)),
      )
      (put_value_in_tlv-ok _ val
          (record {
            id_length =
                ap (λ t. length (id ++ t)) (drop-replicate (length id) leaf_id_size)
                ∙ length-padded leaf_id_size id small;
            value_length = refl;
          })
          short
        ∙ ap₂ (λ u v. ok (record { leaf_type = type; leaf_id = id ++ u; value = val ++ v }))
            (drop-replicate (length id) leaf_id_size) holder)
  where
    holder :
        ◌≡◌ {A = List ℕ}
          (0 ∷ drop 1 (drop (length val) (zeros leaf_value_holder_size)))
          (zeros (leaf_value_holder_size - length val))
    holder =
        let left : leaf_value_holder_size - length val
            ≡ suc (leaf_value_holder_size - length val - 1) =
          omega arith in
        ap (λ t. 0 ∷ drop 1 t) (drop-replicate (length val) leaf_value_holder_size) ∙ rw left refl

-- Such a TLV is appended to a valid buffer.
pub collect_tlv-Appended :
    (junk : ℕ → ℕ) {s : SerBuff} (type : LeafType) (id val : List ℕ)
    → IsValid s
    → length id ≤ leaf_id_size
    → length val < leaf_value_holder_size
    → 0 < s.size
    → s.next + tlv_size ≤ 2 ^ 30
    → Returns
        (Appended s (tlv_bytes (tlv_of type id val)) tlv_size)
        (collect_tlv junk s (tlv_of type id val))
unfolding collect_tlv serialize_string
collect_tlv-Appended junk {s} type id val v small short pos room =
    serialize_bytes-Appended junk v (tlv_bytes (tlv_of type id val)) tlv_size
      (omega (arith, length-tlv_bytes type id val small (omega arith))) pos room

-- If the value has fewer than 64 characters, `put_value_in_tlv` succeeds and the arrays of the
-- struct keep their sizes; if it has 64 or more, it accesses memory out of bounds.
pub put_value_in_tlv-bounds :
    (t : Tlv) (val : List ℕ)
    → IsTlv t
    → (length val < leaf_value_holder_size → Returns IsTlv (put_value_in_tlv t val))
      × (leaf_value_holder_size ≤ length val → put_value_in_tlv t val ≡ stop memory)
put_value_in_tlv-bounds t val i = (
  λ short. rw (put_value_in_tlv-ok t val i short) (record {
    id_length = i.id_length;
    value_length = omega (
      arith,
      length-append val (0 ∷ drop 1 (drop (length val) t.value)),
      length-drop 1 (drop (length val) t.value),
      length-drop (length val) t.value,
      i.value_length,
    );
  }),
  put_value_in_tlv-overflow t val i,
)
