-- ===== src/Router/Acks/Reports.antt =====
-- src/aodvRouter.cpp: the report of packets that got no ACK waits for no ACK itself.
use eie4_mesh_network.Prelude.{
  Bool-cases, List, Option-cases, [], arith, bit_and, inl, inr, length, ltb, refl, true, ℕ, ◌&&◌,
  ◌++◌, ◌+◌, ◌==◌, ◌∙◌, ◌∷◌, ◌≡◌,
}
use eie4_mesh_network.Exec.{for_each, methods}
use eie4_mesh_network.Packet.{BaseHeader, broadcast_addr, pkt_data, pkt_user_msg, req_ack}
use eie4_mesh_network.Packet.Serialise.{
  base_header_bytes, deserialise_base_header, deserialise_data_header, deserialise_user_msg_header,
}
use eie4_mesh_network.Router.Acks.{report_failure}
use eie4_mesh_network.Router.Send.{fresh_header, send_rerr}
use eie4_mesh_network.Router.State.{
  AckBufferEntry, Publication, Router, enqueue_tx_packet, fault, next_random, notify, packet,
  publish,
}
use eie4_mesh_network.Router.Transmit.{
  encrypt_packet, enqueue_packet, header_out, is_connected, keep_for_ack, max_packet, tag_len,
  transmit_packet, transmit_sealed,
}

-- What the report of a failure leaves alone.
abbrev pub Same : Router → Router → Type 0
Same r s = (s.ack_buffer ≡ r.ack_buffer) × (s.env ≡ r.env)

keep_for_ack-Same :
    (h : BaseHeader) (bytes : List ℕ) (r : Router)
    → (bit_and h.flags req_ack == 0) ≡ true
    → Same r (keep_for_ack h bytes r).1
unfolding keep_for_ack methods
keep_for_ack-Same h bytes r e = rw e (elim (Bool-cases (h.dest_node_id == broadcast_addr)) [
  | inl b ↦ rw b (refl, refl)
  | inr b ↦ rw b (refl, refl)
])

enqueue_packet-Same :
    (h : BaseHeader) (cipher tag : List ℕ) (r : Router)
    → (bit_and h.flags req_ack == 0) ≡ true
    → Same r (enqueue_packet h cipher tag r).1
unfolding enqueue_packet enqueue_tx_packet methods
enqueue_packet-Same h cipher tag r e = elim (Bool-cases (r.env.accepts r.attempts)) [
  | inl a ↦ rw a (keep_for_ack-Same h _ _ e)
  | inr a ↦ rw a (refl, refl)
]

transmit_sealed-Same :
    (h : BaseHeader) (text : List ℕ) (r : Router)
    → (bit_and h.flags req_ack == 0) ≡ true
    → Same r (transmit_sealed h text r).1
unfolding transmit_sealed fault methods
transmit_sealed-Same h text r e = elim (Bool-cases (ltb max_packet (length text))) [
  | inl a ↦ rw a (refl, refl)
  | inr a ↦ elim (Bool-cases (ltb max_packet (20 + length text + tag_len))) [
    | inl b ↦ rw a (rw b (refl, refl))
    | inr b ↦ rw a (
        rw b (elim (Option-cases (encrypt_packet h text r)) [
          | inl c ↦ rw (c, methods) (refl, refl)
          | inr (s, c) ↦ rw (c, methods) (enqueue_packet-Same h s.0 s.1 r e)
        ]))
  ]
]

publish-Same : (p : Publication) (r : Router) → Same r (publish p r).1
unfolding publish
publish-Same p r = ground arith

transmit_packet-Same :
    (h : BaseHeader) (ext payload : List ℕ) (r : Router)
    → (bit_and (header_out h).flags req_ack == 0) ≡ true
    → Same r (transmit_packet h ext payload r).1
unfolding transmit_packet methods
transmit_packet-Same h ext payload r e =
    elim (Bool-cases (is_connected r.mqtt && ltb max_packet (20 + length ext + length payload))) [
      | inl a ↦ rw a (refl, refl)
      | inr a ↦
          let p = packet h.packet_id (base_header_bytes h ++ (ext ++ payload)) in
          let (b, v) = publish-Same p r in
          let (b', v') = transmit_sealed-Same (header_out h) (ext ++ payload) (publish p r).1 e in
          rw a (b' ∙ b, v' ∙ v)
    ]

send_rerr-Same :
    (broken origin dest id : ℕ) (r : Router) → Same r (send_rerr broken origin dest id r).1
unfolding send_rerr fresh_header next_random header_out methods
send_rerr-Same broken origin dest id r = transmit_packet-Same _ _ _ _ refl

report_failure-Same : (e : ℕ × AckBufferEntry) (r : Router) → Same r (report_failure e r).1
unfolding report_failure notify methods
report_failure-Same (pid, ent) r =
    let bh = (deserialise_base_header ent.packet).0 in
    let dh = (deserialise_data_header ent.packet 20).0 in
    let uh = (deserialise_user_msg_header ent.packet 20).0 in
    elim (Bool-cases (bh.packet_type == pkt_data)) [
      | inl a ↦ rw a (send_rerr-Same r.my_node_id bh.origin_node_id dh.final_dest_id pid r)
      | inr a ↦ elim (Bool-cases (bh.packet_type == pkt_user_msg)) [
        | inl b ↦ rw a (rw b (send_rerr-Same r.my_node_id bh.origin_node_id uh.to_node_id pid r))
        | inr b ↦ rw a (rw b (refl, refl))
      ]
    ]

pub reports-Same :
    (es : List (ℕ × AckBufferEntry)) (r : Router) → Same r (for_each es report_failure r).1
unfolding methods
reports-Same [] r = (refl, refl)
reports-Same (e ∷ es) r =
    let (b, v) = report_failure-Same e r in
    let (b', v') = reports-Same es (report_failure e r).1 in (b' ∙ b, v' ∙ v)
