-- ===== src/Bluetooth/RoundTrip.antt =====
-- src/bluetoothManager.cpp: what `encodeMessage` writes is what `processIncomingMessage` reads.
use eie4_mesh_network.Prelude.{
  All, List, [], arith, drop, get_or, length, some, suc, true, zero, ℕ, ◌*◌, ◌<◌, ◌∷◌, ◌≡◌,
}
use eie4_mesh_network.Bluetooth.{BleMessageType, has_pkt, parse, parse_as, parse_from, type_of-code}
use eie4_mesh_network.Bluetooth.Encode.{encode_ids, encode_message}
use eie4_mesh_network.Packet.Bytes.{read32, word32-bytes32}

-- A message with a packet id, encoded and then parsed, has the type, the id, the addresses and the
-- payload that went in, if the id and the addresses are 32-bit numbers.
pub parse-encode_message :
    (t : BleMessageType) (to from : ℕ) (payload : List ℕ) (id : ℕ)
    → has_pkt t ≡ true
    → to < 4294967296
    → from < 4294967296
    → id < 4294967296
    → parse (encode_message t to from payload id)
      ≡ some (record { kind = t; pkt_id = id; dest = to; sender = from; body = payload })
unfolding parse parse_as parse_from encode_message
parse-encode_message t to from payload id p ht hf hi =
    rw (type_of-code t)
      (rw p (ground (arith, word32-bytes32 to ht, word32-bytes32 from hf, word32-bytes32 id hi)))

-- The bytes of the ids start with the id at the position.
pub read32-encode_ids :
    (ids : List ℕ) (i : ℕ)
    → i < length ids
    → All (λ id. id < 4294967296) ids
    → read32 (drop (4 * i) (encode_ids ids)) 0 ≡ get_or ids i 0
unfolding encode_ids
read32-encode_ids [] i h b = absurd (omega arith)
read32-encode_ids (id ∷ ids) zero h b = word32-bytes32 id b.0
read32-encode_ids (id ∷ ids) (suc i) h b =
    let e : 4 * suc i ≡ suc (suc (suc (suc (4 * i)))) = omega arith in
    rw e (read32-encode_ids ids i (omega arith) b.1)
