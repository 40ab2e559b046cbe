-- ===== src/Tlv.antt =====
-- CommandParser/cmdtlv.h: the leaf values of a command, one TLV each, in a serialization buffer. An
-- array of the struct is the list of its bytes, and a string that is read the list of its characters.
pub mod Reverse
pub mod Value
mod Tests
use tcpserver_lib.Base.{
  ℕ, zero, suc, ◌+◌, ◌-◌, ◌*◌, ◌/◌, ◌%◌, ◌^◌, List, [], ◌∷◌, ◌++◌, Outcome, ok, ◌>>=◌, length, take,
  drop, replicate, memcpy, min, Bool, true, false, not, ◌==◌, assert, ◌>>◌, stop, memory, leb,
  if◌then◌else◌,
}
use tcpserver_lib.Strings.{strncpy, c_string, leaf_value_holder_size, is_prefix}
use tcpserver_lib.Serialize.{SerBuff, serialize_string, get_serialize_buffer_size}

abbrev pub leaf_id_size : ℕ
leaf_id_size = 32

-- `leaf_type_t`.
pub data LeafType : Type 0 where
  int string ipv4 float ipv6 boolean invalid leaf_max : LeafType

abbrev pub leaf_code : LeafType → ℕ
leaf_code int = 0
leaf_code string = 1
leaf_code ipv4 = 2
leaf_code float = 3
leaf_code ipv6 = 4
leaf_code boolean = 5
leaf_code invalid = 6
leaf_code leaf_max = 7

-- `tlv_struct_t`, which is packed.
pub record Tlv : Type 0 where
  pub leaf_type : LeafType
  pub leaf_id : List ℕ
  pub value : List ℕ

-- The `sizeof` of it.
abbrev pub tlv_size : ℕ
tlv_size = 100

-- `memset(&tlv, 0, sizeof(tlv_struct_t))`.
abbrev pub zero_tlv : Tlv
zero_tlv = record {
  leaf_type = int;
  leaf_id = replicate leaf_id_size 0;
  value = replicate leaf_value_holder_size 0;
}

-- The struct in memory, on a little-endian host.
abbrev pub tlv_bytes : Tlv → List ℕ
tlv_bytes t = (leaf_code t.leaf_type ∷ 0 ∷ 0 ∷ 0 ∷ []) ++ (t.leaf_id ++ t.value)

-- What `prepare_tlv_from_leaf` reads of a leaf: its type and its id.
unfoldable pub prepare_tlv_from_leaf : LeafType → List ℕ → Tlv → Outcome Tlv
prepare_tlv_from_leaf type id t = do
  leaf_id ← strncpy t.leaf_id id (min leaf_id_size (length id))
  ok (record t { leaf_type = type; leaf_id = leaf_id })

unfoldable pub put_value_in_tlv : Tlv → List ℕ → Outcome Tlv
put_value_in_tlv t val = do
  value ← strncpy t.value val (min leaf_value_holder_size (length val))
  value ← memcpy value (min leaf_value_holder_size (length val)) (0 ∷ []) 0 1
  ok (record t { value = value })

-- `tlv_copy_leaf_value`, into an array `dst`.
unfoldable pub tlv_copy_leaf_value : Tlv → List ℕ → Outcome (List ℕ)
tlv_copy_leaf_value t dst = do
  s ← c_string t.value
  dst ← strncpy dst s (length s)
  memcpy dst (length s) (0 ∷ []) 0 1

unfoldable pub collect_tlv : (ℕ → ℕ) → SerBuff → Tlv → Outcome SerBuff
collect_tlv junk s t = serialize_string junk s (tlv_bytes t) tlv_size

-- The TLV that the command line makes of a leaf with this type, id and value.
abbrev pub leaf_tlv : LeafType → List ℕ → List ℕ → Outcome Tlv
leaf_tlv type id val = do t ← prepare_tlv_from_leaf type id zero_tlv; put_value_in_tlv t val

-- The structs are the `i`th and the `j`th of the buffer.
unfoldable pub swap_tlv_units : List ℕ → ℕ → ℕ → Outcome (List ℕ)
swap_tlv_units b i j = do
  t ← memcpy (replicate tlv_size 0) 0 b (i * tlv_size) tlv_size
  b ← memcpy b (i * tlv_size) b (j * tlv_size) tlv_size
  memcpy b (j * tlv_size) t 0 tlv_size

-- `for(; i < (tlv_units >> 1); i++, j--)`, with the rounds that are left.
unfoldable pub swap_loop : ℕ → ℕ → ℕ → List ℕ → Outcome (List ℕ)
swap_loop zero i j b = ok b
swap_loop (suc k) i j b = do b ← swap_tlv_units b i j; swap_loop k (i + 1) (j - 1) b

-- The end of `build_cmd_tree_leaves_data`: the TLVs are put in the opposite order.
unfoldable pub reverse_tlvs : SerBuff → Outcome SerBuff
unfolding get_serialize_buffer_size
reverse_tlvs s = if leb (2 * tlv_size) (get_serialize_buffer_size s) then reversed else ok s
  where
    units : ℕ
    units = get_serialize_buffer_size s / tlv_size

    reversed : Outcome SerBuff
    reversed = do b ← swap_loop (units / 2) 0 (units - 1) s.b; ok (record s { b = b })
