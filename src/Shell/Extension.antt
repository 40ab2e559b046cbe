-- ===== src/Shell/Extension.antt =====
-- CommandParser/cmd_hier.c and clistd.c: how the handler of a command learns that "brief" followed it.
use tcpserver_lib.Base.{
  ℕ, zero, suc, ◌+◌, ◌-◌, ◌*◌, ◌/◌, ◌%◌, ◌^◌, ◌≡◌, ◌≤◌, ◌<◌, refl, sym, ap, ◌∙◌, false, not, Option,
  none, some, List, [], ◌∷◌, ◌++◌, Outcome, ok, stop, assertion, ◌>>=◌, ◌==◌, if◌then◌else◌, length,
  take, drop, replicate, memcpy, arith, Returns, Returns-bind, Returns-mono, length-append,
  append_assoc, take-append-drop, length-take, memcpy-piece,
}
use tcpserver_lib.Serialize.{SerBuff, get_serialize_buffer_size}
use tcpserver_lib.Serialize.Append.{IsValid, written, Appended}
use tcpserver_lib.Strings.{strncpy, leaf_value_holder_size}
use tcpserver_lib.Tlv.{invalid, int, tlv_size, tlv_bytes, zero_tlv, put_value_in_tlv, collect_tlv}
use tcpserver_lib.Tlv.Value.{tlv_of, collect_tlv-Appended}
use tcpserver_lib.CmdTree.{show_brief_extension, strncmp_eq}
use tcpserver_lib.Shell.Build.{command_code_tlv, print_code, digits, cmdcode_id}
use tcpserver_lib.Shell.Init.Names.{codes}

-- `show_ext_t`.
pub data ShowExt : Type 0 where
  brief detail extensive no_extension : ShowExt

-- The struct at this place of the buffer is read; `strncmp` compares with the length of the constant.
unfoldable pub get_show_extension_type : SerBuff → Outcome ShowExt
unfolding get_serialize_buffer_size
get_show_extension_type s = if units == 0 then ok no_extension else look
  where
    units : ℕ
    units = get_serialize_buffer_size s / tlv_size

    place : ℕ
    place = if units == 1 then 0 else units - 2

    of_value : List ℕ → Outcome ShowExt
    of_value value =
        if strncmp_eq value (codes "SHOW_BRIEF") 10
        then ok brief
        else if strncmp_eq value (codes "SHOW_DETAIL") 11
        then ok detail
        else if strncmp_eq value (codes "SHOW_EXTENSIVE") 14
        then ok extensive
        else stop assertion

    of_tlv : List ℕ → Outcome ShowExt
    of_tlv t =
        if not (strncmp_eq (drop 4 t) (codes "SHOW_EXTENSIONS") 15)
        then ok no_extension
        else of_value (drop 36 t)

    look : Outcome ShowExt
    look = do t ← memcpy (replicate tlv_size 0) 0 s.b (place * tlv_size) tlv_size; of_tlv t

unfoldable pub show_extension_param_handler : (ℕ → ℕ) → ℕ → SerBuff → Outcome SerBuff
unfolding put_value_in_tlv
show_extension_param_handler junk p b = if p == show_brief_extension then collect else ok b
  where
    collect : Outcome SerBuff
    collect = do
      t ← put_value_in_tlv zero_tlv (codes "SHOW_BRIEF")
      id ← strncpy t.leaf_id (codes "SHOW_EXTENSIONS") 20
      collect_tlv junk b (record t { leaf_type = invalid; leaf_id = id })

abbrev brief_bytes : List ℕ
brief_bytes = tlv_bytes (tlv_of invalid (codes "SHOW_EXTENSIONS") (codes "SHOW_BRIEF"))

handler_lem :
    (junk : ℕ → ℕ) (b : SerBuff)
    → show_extension_param_handler junk show_brief_extension b
      ≡ collect_tlv junk b (tlv_of invalid (codes "SHOW_EXTENSIONS") (codes "SHOW_BRIEF"))
unfolding show_extension_param_handler
handler_lem junk b = refl

length-digits : (k n : ℕ) → length (digits k n) ≤ k
length-digits zero n = omega arith
length-digits (suc k) n =
    ground (arith, length-append (digits k (n / 10)) ((48 + n % 10) ∷ []), length-digits k (n / 10))

length-print_code : (code : Option ℕ) → length (print_code code) < leaf_value_holder_size
length-print_code none = omega arith
length-print_code (some n) = omega (arith, length-digits 10 n)

-- A buffer that ends with the TLV of "brief" and another one.
at_brief :
    (s : SerBuff) (m : ℕ) (before rest : List ℕ)
    → s.b ≡ before ++ (brief_bytes ++ rest)
    → length before ≡ m * tlv_size
    → s.next ≡ m * tlv_size + 2 * tlv_size
    → get_show_extension_type s ≡ ok brief
unfolding get_show_extension_type
at_brief s m before rest is at end =
    let n : s.next / tlv_size ≡ m + 2 = omega (arith, end) in
    let some_units : (m + 2 == 0) ≡ false = ground arith in
    let more : (m + 2 == 1) ≡ false = ground arith in
    let place : m + 2 - 2 ≡ m = omega arith in
    rw
      (
        n,
        some_units,
        more,
        place,
        memcpy-piece [] (replicate tlv_size 0) [] s.b brief_bytes before rest 0 (m * tlv_size)
            tlv_size is refl refl at refl,
      )
      refl

-- The buffer behind both.
bytes_are :
    (b b1 b2 : SerBuff) (code : List ℕ)
    → Appended b brief_bytes tlv_size b1
    → Appended b1 code tlv_size b2
    → b2.b ≡ written b ++ (brief_bytes ++ (take tlv_size code ++ drop b2.next b2.b))
bytes_are b b1 b2 code d e =
    sym (take-append-drop b2.next b2.b)
    ∙ ap (λ t. t ++ drop b2.next b2.b) (e.bytes_eq ∙ ap (λ t. t ++ take tlv_size code) d.bytes_eq)
    ∙ append_assoc (written b ++ brief_bytes) (take tlv_size code) (drop b2.next b2.b)
    ∙ append_assoc (written b) brief_bytes (take tlv_size code ++ drop b2.next b2.b)

-- A valid buffer of a size other than 0 holds whole TLVs and has room for two more, up to 2^30 bytes
-- in all. Then the handler of "brief" and, behind it, the collection of a command code succeed, and
-- `get_show_extension_type` finds the extension "brief" in what is left.
pub get_show_extension_type-show_extension_param_handler :
    (junk : ℕ → ℕ) (b : SerBuff) (code : Option ℕ) (m : ℕ)
    → IsValid b
    → 0 < b.size
    → b.next ≡ m * tlv_size
    → b.next + 2 * tlv_size ≤ 2 ^ 30
    → Returns
        (λ b2. get_show_extension_type b2 ≡ ok brief)
        (show_extension_param_handler junk show_brief_extension b >>= λ b1.
          collect_tlv junk b1 (command_code_tlv code))
get_show_extension_type-show_extension_param_handler junk b code m v pos whole room =
    rw (handler_lem junk b) (
      Returns-bind (Appended b brief_bytes tlv_size) (λ b2. get_show_extension_type b2 ≡ ok brief)
        (collect_tlv junk b (tlv_of invalid (codes "SHOW_EXTENSIONS") (codes "SHOW_BRIEF"))) _
        (collect_tlv-Appended junk invalid (codes "SHOW_EXTENSIONS") (codes "SHOW_BRIEF") v
          (omega arith) (omega arith) pos (omega (arith, room)))
        (λ b1 d.
          Returns-mono (Appended b1 (tlv_bytes (command_code_tlv code)) tlv_size)
            (λ b2. get_show_extension_type b2 ≡ ok brief)
            (collect_tlv junk b1 (command_code_tlv code))
            (collect_tlv-Appended junk int cmdcode_id (print_code code) d.valid (omega arith)
              (length-print_code code) (omega (arith, d.grown, pos))
              (omega (arith, d.next_eq, room)))
            (λ b2 e.
              at_brief b2 m (written b)
                (take tlv_size (tlv_bytes (command_code_tlv code)) ++ drop b2.next b2.b)
                (bytes_are b b1 b2 (tlv_bytes (command_code_tlv code)) d e)
                (omega (arith, length-take b.next b.b, v, whole))
                (omega (arith, e.next_eq, d.next_eq, whole)))))
