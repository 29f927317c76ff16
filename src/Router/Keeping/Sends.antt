-- ===== src/Router/Keeping/Sends.antt =====
-- src/aodvRouter.cpp: the methods that send keep every invariant.
use eie4_mesh_network.Prelude.{
  Bool-cases, List, Option-cases, arith, false, inl, inr, length, length-append, ltb, ltb→le, some,
  ℕ, ◌++◌, ◌+◌, ◌==◌, ◌≡◌, ◌≤◌,
}
use eie4_mesh_network.Crypto.{aes_gcm_encrypt_lengths}
use eie4_mesh_network.Exec.{gets, match_option, pure, skip, ◌>>=◌}
use eie4_mesh_network.Exec.Keeps.{
  Keeps, Keeps-bind, Keeps-gets, Keeps-if, Keeps-match, Keeps-modify, Keeps-pure, Keeps-skip,
  Keeps-when, keeps_rules,
}
use eie4_mesh_network.Packet.{BaseHeader}
use eie4_mesh_network.Packet.Serialise.{base_header_bytes}
use eie4_mesh_network.Router.Flush.{
  flush_data_entry, flush_data_queue, flush_move_req_buffer, flush_user_route_buffer,
}
use eie4_mesh_network.Router.Invariant.{Invariant}
use eie4_mesh_network.Router.Keeping.{
  Keeps-add_move_req, Keeps-add_pending_user_route_message, Keeps-add_user_message,
  Keeps-get_gut_entry, Keeps-get_route, Keeps-insert_data_buffer, Keeps-malloc, Keeps-next_random,
  Keeps-pop_data_buffer, Keeps-pop_move_req, Keeps-pop_pending_user_route_messages, Keeps-publish,
}
use eie4_mesh_network.Router.Send.{
  fresh_header, packet_id_or_fresh, send_ack, send_data_to, send_pub_key_resp, send_rerr, send_rrep,
  send_rreq, send_uerr, send_urep, send_ureq,
}
use eie4_mesh_network.Router.Send.Users.{
  route_user_message, send_move_user_req, send_to_gateway, send_user_message, send_user_packet,
}
use eie4_mesh_network.Router.State.{DataBufferEntry, Router, enqueue_tx_packet, malloc, next_random}
use eie4_mesh_network.Router.Table.{get_route}
use eie4_mesh_network.Router.Transmit.{
  build_nonce, encrypt_packet, enqueue_packet, keep_for_ack, max_packet, store_ack_packet, tag_len,
  transmit_packet, transmit_sealed,
}
use eie4_mesh_network.Router.Transmit.Wire.{length-base_header_bytes}

module _ {P : Router → Type 0} (inv : Invariant P) where
  pub Keeps-store_ack_packet :
      (id : ℕ) (bytes : List ℕ) (hop : ℕ)
      → length bytes ≤ 255
      → Keeps P (store_ack_packet id bytes hop)
  unfolding store_ack_packet
  Keeps-store_ack_packet id bytes hop h =
      Keeps-bind malloc _ (Keeps-malloc inv)
        (λ b. Keeps-when b _ (Keeps-modify _ (λ r. inv.stores_ack id hop bytes r h)))

  pub Keeps-keep_for_ack :
      (h : BaseHeader) (bytes : List ℕ) → length bytes ≤ 255 → Keeps P (keep_for_ack h bytes)
  unfolding keep_for_ack
  Keeps-keep_for_ack h bytes l = Keeps-when _ _ (
      Keeps-bind (get_route h.dest_node_id) _ (Keeps-get_route inv h.dest_node_id) (λ o.
        Keeps-match o skip _ Keeps-skip
          (λ re. Keeps-store_ack_packet h.packet_id bytes re.next_hop l)))

  pub Keeps-enqueue_packet :
      (h : BaseHeader) (cipher tag : List ℕ)
      → length (base_header_bytes h ++ (cipher ++ tag)) ≤ 255
      → Keeps P (enqueue_packet h cipher tag)
  unfolding enqueue_packet
  Keeps-enqueue_packet h cipher tag l =
      Keeps-bind (enqueue_tx_packet (base_header_bytes h ++ (cipher ++ tag))) _
        (record { at = λ r. inv.enqueues (base_header_bytes h ++ (cipher ++ tag)) r l })
        (λ b. Keeps-when b _ (Keeps-keep_for_ack h _ l))

  sealed_le :
      (h : BaseHeader) (plain cipher tag : List ℕ) (r : Router)
      → P r
      → ltb max_packet (20 + length plain + tag_len) ≡ false
      → encrypt_packet h plain r ≡ some (cipher, tag)
      → length (base_header_bytes h ++ (cipher ++ tag)) ≤ 255
  unfolding encrypt_packet
  sealed_le h plain cipher tag r p small e =
      let (lc, lt) =
        aes_gcm_encrypt_lengths r.env.lib (build_nonce h) (base_header_bytes h) plain 8 cipher tag
          (inv.gcm r p) e in
      omega (
        arith,
        ltb→le 255 (20 + length plain + 8) small,
        length-base_header_bytes h,
        length-append (base_header_bytes h) (cipher ++ tag),
        length-append cipher tag,
      )

  encrypted_keeps :
      (h : BaseHeader) (plain : List ℕ) (r : Router)
      → P r
      → ltb max_packet (20 + length plain + tag_len) ≡ false
      → P (match_option (encrypt_packet h plain r) skip (λ s. enqueue_packet h s.0 s.1) r).1
  unfolding match_option skip
  encrypted_keeps h plain r p small = elim (Option-cases (encrypt_packet h plain r)) [
    | inl e ↦ rw (e, match_option) p
    | inr (s, e) ↦
        rw (e, match_option)
          ((Keeps-enqueue_packet h s.0 s.1 (sealed_le h plain s.0 s.1 r p small e)).at r p)
  ]

  pub Keeps-transmit_sealed : (h : BaseHeader) (plain : List ℕ) → Keeps P (transmit_sealed h plain)
  unfolding transmit_sealed gets ◌>>=◌
  Keeps-transmit_sealed h plain = record {
    at = λ r p. elim (Bool-cases (ltb max_packet (length plain))) [
      | inl e ↦ rw e (inv.faults r p)
      | inr e ↦ rw e (elim (Bool-cases (ltb max_packet (20 + length plain + tag_len))) [
        | inl o ↦ rw o ((Keeps-skip {P = P}).at r p)
        | inr o ↦ rw o (encrypted_keeps h plain r p o)
      ])
    ];
  }

  pub Keeps-transmit_packet :
      (h : BaseHeader) (ext payload : List ℕ) → Keeps P (transmit_packet h ext payload)
  unfolding transmit_packet
  Keeps-transmit_packet h ext payload =
      search (keeps_rules, Keeps-publish inv, Keeps-transmit_sealed)

  pub Keeps-fresh_header : (d o t : ℕ) → Keeps P (fresh_header d o t)
  unfolding fresh_header
  Keeps-fresh_header d o t =
      Keeps-bind (gets (λ r. r.my_node_id)) _ (Keeps-gets _)
        (λ me. Keeps-bind next_random _ (Keeps-next_random inv) (λ id. Keeps-pure _))

  pub Keeps-send_rreq : (d : ℕ) → Keeps P (send_rreq d)
  unfolding send_rreq
  Keeps-send_rreq d = search (keeps_rules, Keeps-fresh_header, Keeps-transmit_packet)

  pub Keeps-send_rrep : (o d n h : ℕ) → Keeps P (send_rrep o d n h)
  unfolding send_rrep
  Keeps-send_rrep o d n h = search (keeps_rules, Keeps-fresh_header, Keeps-transmit_packet)

  pub Keeps-send_rerr : (b o d p : ℕ) → Keeps P (send_rerr b o d p)
  unfolding send_rerr
  Keeps-send_rerr b o d p = search (keeps_rules, Keeps-fresh_header, Keeps-transmit_packet)

  pub Keeps-send_ureq : (u : ℕ) → Keeps P (send_ureq u)
  unfolding send_ureq
  Keeps-send_ureq u = search (keeps_rules, Keeps-fresh_header, Keeps-transmit_packet)

  pub Keeps-send_urep : (o d u n l h : ℕ) → Keeps P (send_urep o d u n l h)
  unfolding send_urep
  Keeps-send_urep o d u n l h = search (keeps_rules, Keeps-fresh_header, Keeps-transmit_packet)

  pub Keeps-send_uerr : (u n o p h : ℕ) → Keeps P (send_uerr u n o p h)
  unfolding send_uerr
  Keeps-send_uerr u n o p h = search (keeps_rules, Keeps-fresh_header, Keeps-transmit_packet)

  pub Keeps-send_ack : (d p : ℕ) → Keeps P (send_ack d p)
  unfolding send_ack
  Keeps-send_ack d p = search (keeps_rules, Keeps-fresh_header, Keeps-transmit_packet)

  pub Keeps-send_pub_key_resp : (d t o : ℕ) (k : List ℕ) → Keeps P (send_pub_key_resp d t o k)
  unfolding send_pub_key_resp
  Keeps-send_pub_key_resp d t o k = search (keeps_rules, Keeps-fresh_header, Keeps-transmit_packet)

  pub Keeps-send_data_to : (n d : ℕ) (b : List ℕ) (id f : ℕ) → Keeps P (send_data_to n d b id f)
  unfolding send_data_to
  Keeps-send_data_to n d b id f = search (keeps_rules, Keeps-transmit_packet)

  pub Keeps-packet_id_or_fresh : (id : ℕ) → Keeps P (packet_id_or_fresh id)
  unfolding packet_id_or_fresh
  Keeps-packet_id_or_fresh id =
      Keeps-if (id == 0) next_random (pure id) (Keeps-next_random inv) (Keeps-pure id)

  pub Keeps-send_user_packet :
      (n d f t : ℕ) (m : List ℕ) (id k : ℕ) → Keeps P (send_user_packet n d f t m id k)
  unfolding send_user_packet
  Keeps-send_user_packet n d f t m id k = search (keeps_rules, Keeps-transmit_packet)

  pub Keeps-route_user_message :
      (n f t : ℕ) (m : List ℕ) (id k : ℕ) → Keeps P (route_user_message n f t m id k)
  unfolding route_user_message
  Keeps-route_user_message n f t m id k =
      search
        (
          keeps_rules,
          Keeps-get_route inv,
          Keeps-malloc,
          Keeps-add_pending_user_route_message inv,
          Keeps-send_rreq,
          Keeps-send_user_packet,
        )
        depth 8

  pub Keeps-send_to_gateway :
      (f t : ℕ) (m : List ℕ) (id k : ℕ) → Keeps P (send_to_gateway f t m id k)
  unfolding send_to_gateway
  Keeps-send_to_gateway f t m id k = search (keeps_rules, Keeps-route_user_message)

  pub Keeps-send_user_message :
      (f t : ℕ) (m : List ℕ) (id k : ℕ) → Keeps P (send_user_message f t m id k)
  unfolding send_user_message
  Keeps-send_user_message f t m id k =
      search
        (
          keeps_rules,
          Keeps-packet_id_or_fresh,
          Keeps-send_to_gateway,
          Keeps-get_gut_entry inv,
          Keeps-malloc,
          Keeps-add_user_message inv,
          Keeps-send_ureq,
          Keeps-route_user_message,
        )
        depth 10

  pub Keeps-send_move_user_req : (u n : ℕ) → Keeps P (send_move_user_req u n)
  unfolding send_move_user_req
  Keeps-send_move_user_req u n =
      search
        (
          keeps_rules,
          Keeps-get_route inv,
          Keeps-add_move_req inv,
          Keeps-send_rreq,
          Keeps-fresh_header,
          Keeps-transmit_packet,
        )
        depth 8

  pub Keeps-flush_data_entry : (d : ℕ) (e : DataBufferEntry) → Keeps P (flush_data_entry d e)
  unfolding flush_data_entry
  Keeps-flush_data_entry d e =
      search
        (
          keeps_rules,
          Keeps-get_route inv,
          Keeps-insert_data_buffer inv,
          Keeps-packet_id_or_fresh,
          Keeps-send_data_to,
        )
        depth 8

  pub Keeps-flush_data_queue : (d : ℕ) → Keeps P (flush_data_queue d)
  unfolding flush_data_queue
  Keeps-flush_data_queue d = search (keeps_rules, Keeps-pop_data_buffer inv, Keeps-flush_data_entry)

  pub Keeps-flush_move_req_buffer : (n : ℕ) → Keeps P (flush_move_req_buffer n)
  unfolding flush_move_req_buffer
  Keeps-flush_move_req_buffer n =
      search (keeps_rules, Keeps-pop_move_req inv, Keeps-send_move_user_req)

  pub Keeps-flush_user_route_buffer : (n : ℕ) → Keeps P (flush_user_route_buffer n)
  unfolding flush_user_route_buffer
  Keeps-flush_user_route_buffer n =
      search (keeps_rules, Keeps-pop_pending_user_route_messages inv, Keeps-send_user_message)
