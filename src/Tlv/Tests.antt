-- ===== src/Tlv/Tests.antt =====
-- The value "57" in a TLV that holds zeros, and one that is too long.
use tcpserver_lib.Base.{ℕ, ◌≡◌, ◌≤◌, ◌<◌, refl, List, [], ◌∷◌, stop, memory, length, Returns}
use tcpserver_lib.Strings.{leaf_value_holder_size}
use tcpserver_lib.Tlv.{zero_tlv, put_value_in_tlv}
use tcpserver_lib.Tlv.Value.{IsTlv, put_value_in_tlv-bounds}

abbrev value : List ℕ
value = 53 ∷ 55 ∷ []

abbrev destination : List ℕ
destination = 1 ∷ 2 ∷ 3 ∷ 4 ∷ []

zero_tlv-IsTlv : IsTlv zero_tlv
zero_tlv-IsTlv = record { id_length = refl; value_length = refl }

put_value_in_tlv-bounds_example :
    (length value < leaf_value_holder_size → Returns IsTlv (put_value_in_tlv zero_tlv value))
    × (leaf_value_holder_size ≤ length value → put_value_in_tlv zero_tlv value ≡ stop memory)
put_value_in_tlv-bounds_example = put_value_in_tlv-bounds zero_tlv value zero_tlv-IsTlv
