-- ===== src/Bluetooth/Encode.antt =====
-- src/bluetoothManager.h and .cpp: the messages to the phones as bytes.
use eie4_mesh_network.Prelude.{List, [], length, replicate, take, ℕ, ◌++◌, ◌∷◌}
use eie4_mesh_network.Bluetooth.{BleMessageType, ack_failed, ack_success, code, pubkey_resp}
use eie4_mesh_network.Packet.Bytes.{bytes32}

-- `encodeMessage`
unfoldable pub encode_message : BleMessageType → ℕ → ℕ → List ℕ → ℕ → List ℕ
encode_message kind to from payload id =
    code kind ∷ bytes32 id ++ (bytes32 to ++ (bytes32 from ++ payload))

-- `ids` in little-endian order, one after the other.
unfoldable pub encode_ids : List ℕ → List ℕ
encode_ids [] = []
encode_ids (id ∷ ids) = bytes32 id ++ encode_ids ids

unfoldable pub encode_list_response : BleMessageType → List ℕ → List ℕ
encode_list_response kind ids =
    code kind ∷ replicate 8 0 ++ (bytes32 (length ids) ++ encode_ids ids)

unfoldable pub encode_ack : ℕ → List ℕ
encode_ack id = code ack_success ∷ bytes32 id

unfoldable pub encode_ack_failure : ℕ → List ℕ
encode_ack_failure id = code ack_failed ∷ bytes32 id

-- The source reads 32 bytes of the key.
unfoldable pub encode_pub_key : ℕ → List ℕ → List ℕ
encode_pub_key user key = code pubkey_resp ∷ bytes32 user ++ (replicate 4 0 ++ take 32 key)
