-- ===== src/Router/Transmit/Succeeds.antt =====
-- src/aodvRouter.cpp: when `transmitPacket` queues a packet.
use eie4_mesh_network.Prelude.{
  List, ap, arith, false, length, length-append, le→ltb, ltb, some, true, ℕ, ◌&&◌, ◌++◌, ◌+◌, ◌∙◌,
  ◌∷◌, ◌≡◌, ◌≤◌,
}
use eie4_mesh_network.Exec.{methods}
use eie4_mesh_network.Packet.{BaseHeader}
use eie4_mesh_network.Packet.Serialise.{base_header_bytes}
use eie4_mesh_network.Router.State.{Publication, Router, enqueue_tx_packet, packet, publish}
use eie4_mesh_network.Router.Transmit.{
  encrypt_packet, enqueue_packet, header_out, is_connected, max_packet, transmit_packet,
  transmit_sealed,
}
use eie4_mesh_network.Router.Transmit.Wire.{
  encrypt_packet-env, env-publish, sealed_bytes, transmitted-keep_for_ack, transmitted-publish,
}

accepts-publish :
    (p : Publication) (r : Router)
    → r.env.accepts r.attempts ≡ true
    → (publish p r).1.env.accepts (publish p r).1.attempts ≡ true
unfolding publish
accepts-publish p r h = ground arith

transmitted-sealed :
    (h : BaseHeader) (plain cipher tag : List ℕ) (r : Router)
    → length plain ≤ 227
    → encrypt_packet h plain r ≡ some (cipher, tag)
    → r.env.accepts r.attempts ≡ true
    → (transmit_sealed h plain r).1.transmitted
      ≡ (base_header_bytes h ++ (cipher ++ tag)) ∷ r.transmitted
unfolding transmit_sealed enqueue_packet enqueue_tx_packet methods
transmitted-sealed h plain cipher tag r l e a =
    rw (le→ltb 255 (length plain) (omega arith), le→ltb 255 (20 + length plain + 8) (omega arith))
      (rw (e, methods) (rw a (transmitted-keep_for_ack h _ _)))

-- A packet whose headers and payload behind the base header have 227 bytes at most is queued for
-- the radio, sealed, if the encryption succeeds and the radio's queue takes it.
pub transmit_packet_lem :
    (h : BaseHeader) (ext payload cipher tag : List ℕ) (r : Router)
    → length (ext ++ payload) ≤ 227
    → encrypt_packet (header_out h) (ext ++ payload) r ≡ some (cipher, tag)
    → r.env.accepts r.attempts ≡ true
    → (transmit_packet h ext payload r).1.transmitted ≡ sealed_bytes h cipher tag ∷ r.transmitted
unfolding transmit_packet sealed_bytes methods
transmit_packet_lem h ext payload cipher tag r l e a =
    let p = packet h.packet_id (base_header_bytes h ++ (ext ++ payload)) in
    let small : ltb max_packet (20 + length ext + length payload) ≡ false =
      le→ltb 255 (20 + length ext + length payload) (omega (arith, length-append ext payload)) in
    let ready : is_connected r.mqtt && false ≡ false = ground arith in
    rw small (
      rw ready (
        transmitted-sealed (header_out h) (ext ++ payload) cipher tag (publish p r).1 l
          (encrypt_packet-env (header_out h) (ext ++ payload) (publish p r).1 r (env-publish p r)
            ∙ e)
          (accepts-publish p r a)
        ∙ ap (◌∷◌ (sealed_bytes h cipher tag)) (transmitted-publish p r)))
