-- ===== src/Router/Transmit/Nonce.antt =====
-- src/aodvRouter.h: which packets have the same nonce.
use eie4_mesh_network.Prelude.{List, ap, drop, get_or, sym, take, ℕ, ◌<◌, ◌↔◌, ◌∙◌, ◌≡◌}
use eie4_mesh_network.Packet.{BaseHeader}
use eie4_mesh_network.Packet.Bytes.{bytes32, read32, word32-bytes32}
use eie4_mesh_network.Packet.RoundTrip.{BaseHeaderInRange}
use eie4_mesh_network.Router.Transmit.{build_nonce}

word-eq : (n m : ℕ) → n < 4294967296 → m < 4294967296 → bytes32 n ≡ bytes32 m → n ≡ m
word-eq n m hn hm p =
    sym (word32-bytes32 n hn) ∙ ap (λ (l : List ℕ). read32 l 0) p ∙ word32-bytes32 m hm

-- Two headers of a packet have the same nonce exactly when they agree in origin, packet id, hop
-- count and type, whatever their other fields are.
pub build_nonce-eq_iff :
    (h k : BaseHeader)
    → BaseHeaderInRange h
    → BaseHeaderInRange k
    → (build_nonce h ≡ build_nonce k) ↔ (
        (h.origin_node_id ≡ k.origin_node_id)
        × (h.packet_id ≡ k.packet_id)
        × (h.hop_count ≡ k.hop_count)
        × (h.packet_type ≡ k.packet_type))
unfolding build_nonce
build_nonce-eq_iff h k vh vk = (
  λ p. (
    word-eq h.origin_node_id k.origin_node_id vh.origin_node_id vk.origin_node_id (ap (take 4) p),
    word-eq h.packet_id k.packet_id vh.packet_id vk.packet_id
        (ap (λ (l : List ℕ). take 4 (drop 4 l)) p),
    ap (λ (l : List ℕ). get_or l 8 0) p,
    ap (λ (l : List ℕ). get_or l 9 0) p,
  ),
  λ q. rw (q.0, q.1, q.2, q.3),
)
