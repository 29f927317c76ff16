-- ===== src/Router/Transmit/Wire.antt =====
-- src/aodvRouter.cpp: the bytes that `transmitPacket` puts on the air.
use eie4_mesh_network.Prelude.{
  Bool, Bool-cases, List, Option-cases, ap, arith, bit_and, bit_or, false, inl, inr, length, ltb,
  not, refl, some, suc, sym, true, zero, ℕ, ◌&&◌, ◌++◌, ◌+◌, ◌<◌, ◌==◌, ◌∙◌, ◌∷◌, ◌≡◌, ◌⊎◌,
}
use eie4_mesh_network.Crypto.{aes_gcm_encrypt}
use eie4_mesh_network.Exec.{match_option, methods}
use eie4_mesh_network.Packet.{BaseHeader}
use eie4_mesh_network.Packet.RoundTrip.{BaseHeaderInRange}
use eie4_mesh_network.Packet.Serialise.{base_header_bytes}
use eie4_mesh_network.Router.State.{
  Env, Publication, Router, enqueue_tx_packet, fault, malloc, packet, publish,
}
use eie4_mesh_network.Router.Table.{get_route}
use eie4_mesh_network.Router.Transmit.{
  build_nonce, encrypt_packet, enqueue_packet, header_out, is_connected, keep_for_ack, max_packet,
  store_ack_packet, transmit_packet, transmit_sealed,
}

check_flags : (ℕ → Bool) → ℕ → Bool
check_flags ok zero = true
check_flags ok (suc f) = check_flags ok f && ok f

check_flags_at : (ok : ℕ → Bool) (f n : ℕ) → f < n → check_flags ok n ≡ true → ok f ≡ true
unfolding check_flags
check_flags_at ok f (suc n) lt e = ground (arith, check_flags_at ok f n)
check_flags_at ok f zero lt e = absurd (omega arith)

-- The flag can be taken off, is seen, and leaves a byte.
flag_kept : ℕ → Bool
flag_kept f =
    bit_and (bit_or f 0x80) 0x7f == f
    && not (bit_and (bit_or f 0x80) 0x80 == 0)
    && ltb (bit_or f 0x80) 256

flag_table : check_flags flag_kept 128 ≡ true
unfolding check_flags flag_kept
flag_table = refl

-- Setting the encryption flag can be seen and undone.
pub flag_bits :
    (f : ℕ)
    → f < 128
    → (bit_and (bit_or f 0x80) 0x7f ≡ f)
      × ((bit_and (bit_or f 0x80) 0x80 == 0) ≡ false)
      × (bit_or f 0x80 < 256)
unfolding flag_kept
flag_bits f h = ground (arith, check_flags_at flag_kept f 128 h flag_table)

-- The bytes that `transmitPacket` queues for a header and a plain text.
unfoldable pub sealed_bytes : BaseHeader → List ℕ → List ℕ → List ℕ
sealed_bytes h cipher tag = base_header_bytes (header_out h) ++ (cipher ++ tag)

pub length-base_header_bytes : (h : BaseHeader) → length (base_header_bytes h) ≡ 20
unfolding base_header_bytes
length-base_header_bytes h = refl

pub header_out-InRange :
    (h : BaseHeader) → BaseHeaderInRange h → h.flags < 128 → BaseHeaderInRange (header_out h)
unfolding header_out
header_out-InRange h v f = record {
  dest_node_id = v.dest_node_id;
  prev_hop_id = v.prev_hop_id;
  origin_node_id = v.origin_node_id;
  packet_id = v.packet_id;
  packet_type = v.packet_type;
  flags = (flag_bits h.flags f).2;
  hop_count = v.hop_count;
  reserved = v.reserved;
}

pub transmitted-keep_for_ack :
    (h : BaseHeader) (bytes : List ℕ) (r : Router)
    → (keep_for_ack h bytes r).1.transmitted ≡ r.transmitted
unfolding keep_for_ack methods get_route store_ack_packet malloc
transmitted-keep_for_ack h bytes r = ground arith

-- What one call may add to the queue of the radio.
abbrev pub Queues : BaseHeader → List ℕ → Router → Router → Type 0
Queues hdr plain r r' =
    (r'.transmitted ≡ r.transmitted)
    ⊎ ((cipher : List ℕ) × (tag : List ℕ) × (encrypt_packet hdr plain r ≡ some (cipher, tag))
        × (r'.transmitted ≡ (base_header_bytes hdr ++ (cipher ++ tag)) ∷ r.transmitted))

enqueue_packet_cases :
    (h : BaseHeader) (cipher tag : List ℕ) (r : Router)
    → ((enqueue_packet h cipher tag r).1.transmitted ≡ r.transmitted)
      ⊎ ((enqueue_packet h cipher tag r).1.transmitted
          ≡ (base_header_bytes h ++ (cipher ++ tag)) ∷ r.transmitted)
unfolding enqueue_packet methods enqueue_tx_packet
enqueue_packet_cases h cipher tag r = elim (Bool-cases (r.env.accepts r.attempts)) [
  | inl e ↦ inr (rw e (transmitted-keep_for_ack h _ _))
  | inr e ↦ inl (rw e)
]

transmit_sealed-Queues :
    (h : BaseHeader) (plain : List ℕ) (r : Router) → Queues h plain r (transmit_sealed h plain r).1
unfolding transmit_sealed methods fault
transmit_sealed-Queues h plain r = elim (Bool-cases (ltb 255 (length plain))) [
  | inl e ↦ inl (rw e)
  | inr e ↦ elim (Bool-cases (ltb 255 (20 + length plain + 8))) [
    | inl o ↦ inl (rw (e, o))
    | inr o ↦
        rw (e, o)
          (elim (Option-cases (encrypt_packet h plain r)) [
            | inl n ↦ rw (n, match_option) (inl refl)
            | inr (s, n) ↦
                rw (n, match_option)
                  (elim (enqueue_packet_cases h s.0 s.1 r) [
                    | inl q ↦ inl q
                    | inr q ↦ inr (s.0, s.1, refl, q)
                  ])
          ])
  ]
]

pub env-publish : (p : Publication) (r : Router) → (publish p r).1.env ≡ r.env
unfolding publish
env-publish p r = ground arith

pub transmitted-publish :
    (p : Publication) (r : Router) → (publish p r).1.transmitted ≡ r.transmitted
unfolding publish
transmitted-publish p r = ground arith

pub encrypt_packet-env :
    (hdr : BaseHeader) (plain : List ℕ) (s r : Router)
    → s.env ≡ r.env
    → encrypt_packet hdr plain s ≡ encrypt_packet hdr plain r
unfolding encrypt_packet
encrypt_packet-env hdr plain s r e =
    ap (λ (v : Env). aes_gcm_encrypt v.lib (build_nonce hdr) (base_header_bytes hdr) plain 8) e

Queues-of :
    (hdr : BaseHeader) (plain : List ℕ) (s r r' : Router)
    → s.env ≡ r.env
    → s.transmitted ≡ r.transmitted
    → Queues hdr plain s r'
    → Queues hdr plain r r'
Queues-of hdr plain s r r' e t (inl same) = inl (same ∙ t)
Queues-of hdr plain s r r' e t (inr (cipher, tag, sealed, q)) = inr (
  cipher,
  tag,
  sym (encrypt_packet-env hdr plain s r e) ∙ sealed,
  q ∙ ap (◌∷◌ (base_header_bytes hdr ++ (cipher ++ tag))) t,
)

-- `transmitPacket` queues nothing, or one packet: the sealed one.
pub transmit_packet-Queues :
    (h : BaseHeader) (ext payload : List ℕ) (r : Router)
    → Queues (header_out h) (ext ++ payload) r (transmit_packet h ext payload r).1
unfolding transmit_packet methods
transmit_packet-Queues h ext payload r =
    let p = packet h.packet_id (base_header_bytes h ++ (ext ++ payload)) in
    elim (Bool-cases (is_connected r.mqtt && ltb max_packet (20 + length ext + length payload))) [
      | inl e ↦ inl (rw e)
      | inr e ↦ rw e (
          Queues-of (header_out h) (ext ++ payload) (publish p r).1 r
            (transmit_sealed (header_out h) (ext ++ payload) (publish p r).1).1 (env-publish p r)
            (transmitted-publish p r)
            (transmit_sealed-Queues (header_out h) (ext ++ payload) (publish p r).1))
    ]
