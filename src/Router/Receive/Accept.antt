-- ===== src/Router/Receive/Accept.antt =====
-- src/aodvRouter.cpp: sealing a packet at one router and opening it at another.
use mathlib.Core.List.{append_assoc}
use eie4_mesh_network.Prelude.{
  List, [], ap, arith, bit_and, drop, drop-append_self, false, get_or, inl, inr, length,
  length-append, length-take, le→ltb, refl, some, suc, sym, take, take-append_self, zero, ℕ, ◌++◌,
  ◌+◌, ◌-◌, ◌<◌, ◌==◌, ◌∙◌, ◌∷◌, ◌≡◌, ◌≢◌, ◌≤◌,
}
use eie4_mesh_network.Crypto.{IsGcm, aes_gcm_decrypt-encrypt, aes_gcm_encrypt_lengths}
use eie4_mesh_network.Packet.{BaseHeader, flag_encrypted}
use eie4_mesh_network.Packet.Bytes.{drop-write, write}
use eie4_mesh_network.Packet.RoundTrip.{BaseHeaderInRange, deserialise-base_header_bytes}
use eie4_mesh_network.Packet.Serialise.{base_header_bytes, deserialise_base_header}
use eie4_mesh_network.Router.Receive.{
  RadioPacket, cipher_of, decrypt_packet, decrypted, header_in, open_packet, tag_of,
}
use eie4_mesh_network.Router.State.{Router}
use eie4_mesh_network.Router.Transmit.{build_nonce, encrypt_packet, header_out, transmit_packet}
use eie4_mesh_network.Router.Transmit.Wire.{
  flag_bits, header_out-InRange, length-base_header_bytes, sealed_bytes, transmit_packet-Queues,
}

header_in-header_out : (h : BaseHeader) → h.flags < 128 → header_in (header_out h) ≡ h
unfolding header_in header_out
header_in-header_out h f = ap (λ (x : ℕ). record h { flags = x }) (flag_bits h.flags f).0

header_out_flag :
    (h : BaseHeader) → h.flags < 128 → (bit_and (header_out h).flags flag_encrypted == 0) ≡ false
unfolding header_out
header_out_flag h f = (flag_bits h.flags f).1

take-append_3 :
    (h c t s : List ℕ) (n k : ℕ)
    → length h ≡ n
    → length c ≡ k
    → take k (drop n ((h ++ (c ++ t)) ++ s)) ≡ c
take-append_3 h c t s n k hn hk =
    rw
      (
        ← hn,
        ← hk,
        append_assoc h (c ++ t) s,
        drop-append_self h ((c ++ t) ++ s),
        append_assoc c t s,
      )
      (take-append_self c (t ++ s))

tag-append_3 :
    (h c t s : List ℕ) (n k : ℕ)
    → length h + length c ≡ n
    → length t ≡ k
    → take k (drop n ((h ++ (c ++ t)) ++ s)) ≡ t
tag-append_3 h c t s n k hn hk =
    let regroup : (h ++ (c ++ t)) ++ s ≡ (h ++ c) ++ (t ++ s) =
      rw (append_assoc h (c ++ t) s, append_assoc c t s, append_assoc h c (t ++ s)) in
    let e : length (h ++ c) ≡ n = length-append h c ∙ hn in
    rw (← e, ← hk, regroup, drop-append_self (h ++ c) (t ++ s)) (take-append_self t s)

-- A radio packet whose buffer begins with the bytes, with stale bytes behind them.
abbrev pub received : List ℕ → List ℕ → RadioPacket
received bytes stale = record { bytes = bytes ++ stale; len = length bytes }

open_packet_encrypted :
    (p : RadioPacket) (r : Router) (bh : BaseHeader) (plain : List ℕ)
    → (deserialise_base_header p.bytes).0 ≡ bh
    → 28 ≤ p.len
    → (bit_and bh.flags flag_encrypted == 0) ≡ false
    → decrypt_packet bh p r ≡ some plain
    → open_packet p r ≡ some (header_in bh, decrypted bh p plain)
unfolding open_packet
open_packet_encrypted p r bh plain e l f d =
    rw (e, le→ltb p.len 20 (omega arith), f, le→ltb p.len 28 l, d)

drop-take-append_le :
    (n m : ℕ) (xs ys : List ℕ) → n ≤ length xs → n ≤ m → drop m (take n xs ++ ys) ≡ drop (m - n) ys
drop-take-append_le zero m xs ys h k = let e : m - zero ≡ m = omega arith in rw e
drop-take-append_le (suc n) zero xs ys h k = absurd (omega arith)
drop-take-append_le (suc n) (suc m) [] ys h k = absurd (omega arith)
drop-take-append_le (suc n) (suc m) (x ∷ xs) ys h k =
    let e : suc m - suc n ≡ m - n = omega arith in
    rw e (drop-take-append_le n m xs ys (omega arith) (omega arith))

drop_two : (k : ℕ) (xs : List ℕ) → drop 2 (drop k xs) ≡ drop (suc (suc k)) xs
drop_two zero xs = refl
drop_two (suc k) [] = refl
drop_two (suc k) (x ∷ xs) = drop_two k xs

-- The flags byte lies before the payload.
drop-write_flags :
    (xs : List ℕ) (f : ℕ) → 17 ≤ length xs → drop 20 (write xs 17 (f ∷ [])) ≡ drop 20 xs
unfolding write
drop-write_flags xs f h =
    drop-take-append_le 17 20 xs (f ∷ drop 18 xs) h (omega arith) ∙ drop_two 18 xs

length-write : (xs : List ℕ) (n : ℕ) (bs : List ℕ) → n ≤ length xs → n ≤ length (write xs n bs)
unfolding write
length-write xs n bs h =
    omega (arith, length-append (take n xs) (bs ++ drop (n + length bs) xs), length-take n xs)

-- The payload of a decrypted packet is the plain text.
payload-decrypted :
    (bh : BaseHeader) (p : RadioPacket) (plain : List ℕ)
    → 20 ≤ length p.bytes
    → take ((decrypted bh p plain).len - 20) (drop 20 (decrypted bh p plain).bytes) ≡ plain
unfolding decrypted
payload-decrypted bh p plain h =
    let e : 20 + length plain - 20 ≡ length plain = omega arith in
    rw
      (
        drop-write_flags (write p.bytes 20 plain) (header_in bh).flags
            (omega (arith, length-write p.bytes 20 plain h)),
        drop-write p.bytes 20 plain h,
        e,
      )
      (take-append_self plain (drop (20 + length plain) p.bytes))

encrypt_lengths :
    (r : Router) (ho : BaseHeader) (plain c t : List ℕ)
    → IsGcm r.env.lib
    → encrypt_packet ho plain r ≡ some (c, t)
    → (length c ≡ length plain) × (length t ≡ 8)
unfolding encrypt_packet
encrypt_lengths r ho plain c t gcm sealed =
    aes_gcm_encrypt_lengths r.env.lib (build_nonce ho) (base_header_bytes ho) plain 8 c t gcm sealed

cipher_of-received :
    (b c t stale : List ℕ)
    → length b ≡ 20
    → length t ≡ 8
    → cipher_of (received (b ++ (c ++ t)) stale) ≡ c
unfolding cipher_of
cipher_of-received b c t stale hb ht =
    take-append_3 b c t stale 20 (length (b ++ (c ++ t)) - 20 - 8) hb
      (omega (arith, length-append b (c ++ t), length-append c t))

tag_of-received :
    (b c t stale : List ℕ) → length t ≡ 8 → tag_of (received (b ++ (c ++ t)) stale) ≡ t
unfolding tag_of
tag_of-received b c t stale ht =
    tag-append_3 b c t stale (length (b ++ (c ++ t)) - 8) 8
      (omega (arith, length-append b (c ++ t), length-append c t)) ht

decrypt_packet-received :
    (receiver sender : Router) (ho : BaseHeader) (plain c t stale : List ℕ)
    → IsGcm receiver.env.lib
    → sender.env.lib ≡ receiver.env.lib
    → length t ≡ 8
    → encrypt_packet ho plain sender ≡ some (c, t)
    → decrypt_packet ho (received (base_header_bytes ho ++ (c ++ t)) stale) receiver ≡ some plain
unfolding decrypt_packet encrypt_packet
decrypt_packet-received receiver sender ho plain c t stale gcm same ht sealed =
    rw
      (
        cipher_of-received (base_header_bytes ho) c t stale (length-base_header_bytes ho) ht,
        tag_of-received (base_header_bytes ho) c t stale ht,
        append_assoc (base_header_bytes ho) (c ++ t) stale,
        let e : take 20 (base_header_bytes ho ++ ((c ++ t) ++ stale)) ≡ base_header_bytes ho =
              rw (← length-base_header_bytes ho)
                (take-append_self (base_header_bytes ho) ((c ++ t) ++ stale)) in
            e,
      )
      (aes_gcm_decrypt-encrypt receiver.env.lib (build_nonce ho) (base_header_bytes ho) plain 8 c t
        gcm (rw (← same) sealed))

open_packet-sealed_bytes :
    (sender receiver : Router) (h : BaseHeader) (plain cipher tag stale : List ℕ)
    → IsGcm receiver.env.lib
    → sender.env.lib ≡ receiver.env.lib
    → BaseHeaderInRange h
    → h.flags < 128
    → encrypt_packet (header_out h) plain sender ≡ some (cipher, tag)
    → (p : RadioPacket) × (open_packet (received (sealed_bytes h cipher tag) stale) receiver
        ≡ some (h, p))
      × (take (p.len - 20) (drop 20 p.bytes) ≡ plain)
      × (p.len ≡ 20 + length plain)
unfolding sealed_bytes decrypted
open_packet-sealed_bytes sender receiver h plain cipher tag stale gcm same v f sealed =
    let ho = header_out h in
    let p = received (sealed_bytes h cipher tag) stale in
    let (lc, lt) = encrypt_lengths sender ho plain cipher tag (rw same gcm) sealed in
    let len : length (sealed_bytes h cipher tag) ≡ 20 + (length cipher + 8) = omega (
      arith,
      length-base_header_bytes ho,
      length-append (base_header_bytes ho) (cipher ++ tag),
      length-append cipher tag,
    ) in
    let head : (deserialise_base_header p.bytes).0 ≡ ho =
      rw (append_assoc (base_header_bytes ho) (cipher ++ tag) stale) (
        ap (λ x. x.0)
          (deserialise-base_header_bytes ho ((cipher ++ tag) ++ stale)
            (header_out-InRange h v f))) in
    (
      decrypted ho p plain,
      open_packet_encrypted p receiver ho plain head (omega arith) (header_out_flag h f)
            (decrypt_packet-received receiver sender ho plain cipher tag stale gcm same lt sealed)
          ∙ ap (λ x. some (x, decrypted ho p plain)) (header_in-header_out h f),
      payload-decrypted ho p plain (omega (arith, length-append (sealed_bytes h cipher tag) stale)),
      refl,
    )

cons-ne {ℓ} : {A : Type ℓ} (x : A) (xs : List A) → x ∷ xs ≢ xs
cons-ne x xs e = absurd (omega (arith, ap length e))

cons_head {ℓ} : {A : Type ℓ} (d x y : A) (xs : List A) → x ∷ xs ≡ y ∷ xs → x ≡ y
cons_head d x y xs e = ap (λ l. get_or l 0 d) e

-- Whatever packet `transmitPacket` queues for a header and its payload, a router with the same
-- cryptographic library that receives these bytes, with any stale bytes behind them in its buffer,
-- opens to the same header and the same payload, of the same length. The header's fields fit their types, its
-- encryption flag is not set, and the library does what GCM promises.
pub open_packet-transmit_packet :
    (sender receiver : Router) (h : BaseHeader) (ext payload bytes stale : List ℕ)
    → IsGcm receiver.env.lib
    → sender.env.lib ≡ receiver.env.lib
    → BaseHeaderInRange h
    → h.flags < 128
    → (transmit_packet h ext payload sender).1.transmitted ≡ bytes ∷ sender.transmitted
    → (p : RadioPacket) × (open_packet (received bytes stale) receiver ≡ some (h, p))
      × (take (p.len - 20) (drop 20 p.bytes) ≡ ext ++ payload)
      × (p.len ≡ 20 + length (ext ++ payload))
unfolding sealed_bytes
open_packet-transmit_packet sender receiver h ext payload bytes stale gcm same v f queued =
    elim (transmit_packet-Queues h ext payload sender) [
      | inl none_queued ↦ absurd (cons-ne bytes sender.transmitted (sym queued ∙ none_queued))
      | inr (cipher, tag, sealed, q) ↦
          rw (cons_head [] bytes (sealed_bytes h cipher tag) sender.transmitted (sym queued ∙ q)) (
            open_packet-sealed_bytes sender receiver h (ext ++ payload) cipher tag stale gcm same v
              f sealed)
    ]
