-- ===== src/Flow/Blob.antt =====
-- odp/flow.go: BlobFlowKey, a key and its mask as opaque bytes, and what InPortFlowKey and
-- EthernetFlowKey add to it.
use go_odp.Prelude.{
  ℕ, ◌+◌, ◌*◌, ◌/◌, ◌==◌, List, [], ◌∷◌, ◌++◌, Bool, true, not, ◌&&◌, Option, none, some, Result,
  ok, err, wrong_length, mask_without_value, if◌then◌else◌, length, take, drop, replicate, write_at,
  bit_and, bit_xor,
}
use go_odp.Memory.{u32_bytes, uint32_at}
use go_odp.Builder.{NlMsgBuilder, put_slice_attr}
use go_odp.Tunnel.{all_bytes}

pub record BlobFlowKey : Type 0 where
  pub typ : ℕ
  pub key_mask : List ℕ

unfoldable pub new_blob_flow_key : ℕ → ℕ → BlobFlowKey
new_blob_flow_key typ size = record {
  typ = typ;
  key_mask = replicate size 0 ++ replicate size 0xff;
}

-- The methods `key` and `mask`.
abbrev pub blob_key : BlobFlowKey → List ℕ
blob_key key = take (length key.key_mask / 2) key.key_mask

abbrev pub blob_mask : BlobFlowKey → List ℕ
blob_mask key = drop (length key.key_mask / 2) key.key_mask

unfoldable pub put_blob_key : BlobFlowKey → NlMsgBuilder → NlMsgBuilder
unfolding put_slice_attr
put_blob_key key = put_slice_attr key.typ (blob_key key)

unfoldable pub put_blob_mask : BlobFlowKey → NlMsgBuilder → NlMsgBuilder
unfolding put_slice_attr
put_blob_mask key = put_slice_attr key.typ (blob_mask key)

unfoldable pub blob_ignored : BlobFlowKey → Bool
unfolding all_bytes
blob_ignored key = all_bytes (blob_mask key) 0

-- The loop of Equals: the masks byte by byte, and the keys under the mask. The lists have one length.
unfoldable pub same_masked : List ℕ → List ℕ → List ℕ → List ℕ → Bool
same_masked (m ∷ amask) (n ∷ bmask) (x ∷ akey) (y ∷ bkey) =
    m == n && bit_and (bit_xor x y) m == 0 && same_masked amask bmask akey bkey
same_masked _ _ _ _ = true

unfoldable pub blob_equals : BlobFlowKey → BlobFlowKey → Bool
unfolding same_masked
blob_equals a b =
    let size = length a.key_mask / 2 in
    a.typ == b.typ
    && length b.key_mask == length a.key_mask
    && same_masked (drop size a.key_mask) (drop size b.key_mask) a.key_mask b.key_mask

-- The bytes of a slice that may be nil.
abbrev pub bytes_of : Option (List ℕ) → List ℕ
bytes_of none = []
bytes_of (some bytes) = bytes

unfoldable pub parse_blob_flow_key : ℕ → Option (List ℕ) → Option (List ℕ) → ℕ → Result BlobFlowKey
unfolding all_bytes
parse_blob_flow_key typ key mask size =
    let masked = write_at size (bytes_of mask) (replicate (size * 2) 0) in
    if not (length (bytes_of mask) == size)
    then err (wrong_length typ (length (bytes_of mask)))
    else elim key [
      | some bytes ↦
          if not (length bytes == size)
          then err (wrong_length typ (length bytes))
          else ok (record { typ = typ; key_mask = write_at 0 bytes masked })
      | none ↦
          if not (all_bytes (bytes_of mask) 0)
          then err (mask_without_value typ)
          else ok (record { typ = typ; key_mask = masked })
    ]

-- Any mask that is not all ones is taken as all zeros; the code overwrites the slice.
unfoldable pub parse_in_port_blob : ℕ → Option (List ℕ) → Option (List ℕ) → Result BlobFlowKey
unfolding parse_blob_flow_key
parse_in_port_blob typ key mask =
    let zeroed = replicate (length (bytes_of mask)) 0 in
    let used = if not (all_bytes (bytes_of mask) 0xff) then some zeroed else mask in
    parse_blob_flow_key typ key used 4

-- OVS_KEY_ATTR_IN_PORT and OVS_KEY_ATTR_ETHERNET of odp/syscall.go.
abbrev pub ovs_key_attr_in_port : ℕ
ovs_key_attr_in_port = 3

abbrev pub ovs_key_attr_ethernet : ℕ
ovs_key_attr_ethernet = 4

abbrev pub sizeof_ovs_key_ethernet : ℕ
sizeof_ovs_key_ethernet = 12

unfoldable pub new_in_port_flow_key : ℕ → BlobFlowKey
unfolding new_blob_flow_key
new_in_port_flow_key vport =
    let fk = new_blob_flow_key ovs_key_attr_in_port 4 in
    record fk { key_mask = write_at 0 (u32_bytes vport) fk.key_mask }

-- The method VportID.
unfoldable pub vport_id : BlobFlowKey → Result ℕ
unfolding uint32_at
vport_id k = uint32_at (blob_key k) (blob_mask k) 0

unfoldable pub new_ethernet_flow_key : BlobFlowKey
unfolding new_blob_flow_key
new_ethernet_flow_key = new_blob_flow_key ovs_key_attr_ethernet sizeof_ovs_key_ethernet

-- OvsKeyEthernet is the source address and then the destination address, of 6 bytes each.
unfoldable pub set_masked_eth_src : List ℕ → List ℕ → BlobFlowKey → BlobFlowKey
set_masked_eth_src addr mask fk =
    let half = length fk.key_mask / 2 in
    record fk { key_mask = write_at half mask (write_at 0 addr fk.key_mask) }

unfoldable pub set_masked_eth_dst : List ℕ → List ℕ → BlobFlowKey → BlobFlowKey
set_masked_eth_dst addr mask fk =
    let half = length fk.key_mask / 2 in
    record fk { key_mask = write_at (half + 6) mask (write_at 6 addr fk.key_mask) }

unfoldable pub set_eth_src : List ℕ → BlobFlowKey → BlobFlowKey
unfolding set_masked_eth_src
set_eth_src addr = set_masked_eth_src addr (replicate 6 0xff)

unfoldable pub set_eth_dst : List ℕ → BlobFlowKey → BlobFlowKey
unfolding set_masked_eth_dst
set_eth_dst addr = set_masked_eth_dst addr (replicate 6 0xff)
