-- ===== src/Arp/Reply.antt =====
-- The reply, field by field.
use esp_hosted.Prelude.{
  ℕ, zero, suc, ◌+◌, ◌*◌, ◌/◌, ◌%◌, ◌<◌, ◌≡◌, refl, ap, ◌∙◌, true, List, [], ◌∷◌, ◌++◌, some, take,
  put, arith, length, ◌≤◌,
}
use esp_hosted.Arp.{
  hton_short, hton_long, bytes_short, bytes_long, read_short, read_long, same_bytes, is_same_buff,
  set_ipaddr, get_ipaddr, get_opcode, set_opcode, get_protocol, swap_ip_addresses,
  change_mac_addresses, is_arp_packet, is_arp_pkt_for_me, arp_req_handler,
}

pub record Mac : Type 0 where
  pub m0 : ℕ
  pub m1 : ℕ
  pub m2 : ℕ
  pub m3 : ℕ
  pub m4 : ℕ
  pub m5 : ℕ

pub record Ip : Type 0 where
  pub i0 : ℕ
  pub i1 : ℕ
  pub i2 : ℕ
  pub i3 : ℕ

pub record IsIp (a : Ip) : Type 0 where
  pub b0 : a.i0 < 256
  pub b1 : a.i1 < 256
  pub b2 : a.i2 < 256
  pub b3 : a.i3 < 256

abbrev pub mac_bytes : Mac → List ℕ
mac_bytes m = m.m0 ∷ m.m1 ∷ m.m2 ∷ m.m3 ∷ m.m4 ∷ m.m5 ∷ []

-- The address as a number in the processor's order.
abbrev pub ip_number : Ip → ℕ
ip_number a = a.i0 * 16777216 + a.i1 * 65536 + a.i2 * 256 + a.i3

abbrev pub ip_bytes : Ip → List ℕ
ip_bytes a = a.i0 ∷ a.i1 ∷ a.i2 ∷ a.i3 ∷ []

-- An ARP packet for IPv4 over Ethernet; `hw` stands for the eight bytes from the protocol on that
-- no answer changes.
pub record ArpPacket : Type 0 where
  pub dst : Mac
  pub src : Mac
  pub hw : Mac
  pub opcode : ℕ
  pub sender_mac : Mac
  pub sender_ip : Ip
  pub target_mac : Mac
  pub target_ip : Ip

abbrev pub packet : ArpPacket → List ℕ → List ℕ
packet p rest =
    mac_bytes p.dst
    ++ (mac_bytes p.src
        ++ (8
            ∷ 6
            ∷ (mac_bytes p.hw
                ++ ((p.opcode / 256)
                    ∷ (p.opcode % 256)
                    ∷ (mac_bytes p.sender_mac
                        ++ (ip_bytes p.sender_ip
                            ++ (mac_bytes p.target_mac ++ (ip_bytes p.target_ip ++ rest))))))))

get_ipaddr_word :
    (a : Ip) → IsIp a → hton_long (a.i0 + 256 * a.i1 + 65536 * a.i2 + 16777216 * a.i3) ≡ ip_number a
unfolding hton_long
get_ipaddr_word a v = ground (arith, v.b0, v.b1, v.b2, v.b3)

byte_0 : (a : Ip) → IsIp a → hton_long (ip_number a) % 256 ≡ a.i0
unfolding hton_long
byte_0 a v = omega (arith, v.b0, v.b1, v.b2, v.b3)

byte_1 : (a : Ip) → IsIp a → hton_long (ip_number a) / 256 % 256 ≡ a.i1
unfolding hton_long
byte_1 a v = omega (arith, v.b0, v.b1, v.b2, v.b3)

byte_2 : (a : Ip) → IsIp a → hton_long (ip_number a) / 65536 % 256 ≡ a.i2
unfolding hton_long
byte_2 a v = omega (arith, v.b0, v.b1, v.b2, v.b3)

byte_3 : (a : Ip) → IsIp a → hton_long (ip_number a) / 16777216 % 256 ≡ a.i3
unfolding hton_long
byte_3 a v = omega (arith, v.b0, v.b1, v.b2, v.b3)

pub bytes_of_ip : (a : Ip) → IsIp a → bytes_long (hton_long (ip_number a)) ≡ ip_bytes a
unfolding bytes_long
bytes_of_ip a v = cc (byte_0 a v, byte_1 a v, byte_2 a v, byte_3 a v)

same_bytes_self : (n : ℕ) (b : List ℕ) → n ≤ length b → same_bytes n b b ≡ true
unfolding same_bytes
same_bytes_self zero b h = refl
same_bytes_self (suc n) [] h = ground arith
same_bytes_self (suc n) (x ∷ b) h = ground (arith, same_bytes_self n b (omega arith))

module _ (p : ArpPacket) (v : IsIp p.sender_ip) (w : IsIp p.target_ip) where
  sender_of : (rest : List ℕ) → get_ipaddr (packet p rest) 28 ≡ ip_number p.sender_ip
  unfolding get_ipaddr read_long
  sender_of rest = get_ipaddr_word p.sender_ip v

  target_of : (rest : List ℕ) → get_ipaddr (packet p rest) 38 ≡ ip_number p.target_ip
  unfolding get_ipaddr read_long
  target_of rest = get_ipaddr_word p.target_ip w

  for_me : (rest : List ℕ) → is_arp_pkt_for_me (ip_number p.target_ip) (packet p rest) ≡ true
  unfolding is_arp_pkt_for_me is_same_buff bytes_long
  for_me rest =
      ap (λ x. same_bytes 4 (bytes_long x) (bytes_long (ip_number p.target_ip))) (target_of rest)
      ∙ same_bytes_self 4 (bytes_long (ip_number p.target_ip)) (omega arith)

  set_target :
      (a : Ip)
      → IsIp a
      → set_ipaddr (packet p []) 38 (ip_number a) ≡ packet (record p { target_ip = a }) []
  unfolding set_ipaddr
  set_target a u = ap (λ b. put (packet p []) 38 b) (bytes_of_ip a u)

  set_sender :
      (a : Ip)
      → IsIp a
      → set_ipaddr (packet p []) 28 (ip_number a) ≡ packet (record p { sender_ip = a }) []
  unfolding set_ipaddr
  set_sender a u = ap (λ b. put (packet p []) 28 b) (bytes_of_ip a u)

swap_lem :
    (p : ArpPacket)
    → IsIp p.sender_ip
    → IsIp p.target_ip
    → swap_ip_addresses (packet p [])
      ≡ packet (record p { sender_ip = p.target_ip; target_ip = p.sender_ip }) []
unfolding swap_ip_addresses
swap_lem p v w =
    ap (λ x. set_ipaddr (set_ipaddr (packet p []) 38 x) 28 (get_ipaddr (packet p []) 38))
      (sender_of p v w [])
    ∙ ap (λ x. set_ipaddr (set_ipaddr (packet p []) 38 (ip_number p.sender_ip)) 28 x)
        (target_of p v w [])
    ∙ ap (λ s. set_ipaddr s 28 (ip_number p.target_ip)) (set_target p v w p.sender_ip v)
    ∙ set_sender (record p { target_ip = p.sender_ip }) v v p.target_ip w

-- What the answer to a request is.
abbrev pub reply_to : Mac → ArpPacket → ArpPacket
reply_to self p = record {
  dst = p.src;
  src = self;
  hw = p.hw;
  opcode = 2;
  sender_mac = self;
  sender_ip = p.target_ip;
  target_mac = p.src;
  target_ip = p.sender_ip;
}

change_lem :
    (p : ArpPacket) (self : Mac)
    → change_mac_addresses (packet p []) (mac_bytes self)
      ≡ packet (record p { dst = p.src; src = self; sender_mac = self; target_mac = p.src }) []
unfolding change_mac_addresses
change_lem p self = refl

accepted :
    (p : ArpPacket) (rest : List ℕ) → is_arp_packet (packet (record p { opcode = 1 }) rest) ≡ 1
unfolding is_arp_packet get_protocol get_opcode hton_short read_short
accepted p rest = refl

answer_lem :
    (src_ip : ℕ) (src_mac pkt : List ℕ) (pkt_len : ℕ)
    → is_arp_packet pkt ≡ 1
    → is_arp_pkt_for_me src_ip pkt ≡ true
    → 0 < pkt_len
    → arp_req_handler src_ip src_mac (some pkt) pkt_len
      ≡ some
          (change_mac_addresses (swap_ip_addresses (set_opcode (take 42 pkt) 2)) src_mac, pkt_len)
unfolding arp_req_handler
answer_lem src_ip src_mac pkt pkt_len a b z = ground (arith, a, b, z)

set_opcode_lem :
    (p : ArpPacket) (rest : List ℕ)
    → set_opcode (take 42 (packet (record p { opcode = 1 }) rest)) 2
      ≡ packet (record p { opcode = 2 }) []
unfolding set_opcode hton_short bytes_short
set_opcode_lem p rest = refl

-- A request for the address of the device is answered by the 42-byte packet that is addressed to
-- the Ethernet source of the request, comes from the device, has the reply opcode, and has the
-- protocol addresses swapped; the announced length is that of the request.
pub arp_req_handler-reply :
    (p : ArpPacket) (self : Mac) (rest : List ℕ) (pkt_len : ℕ)
    → IsIp p.sender_ip
    → IsIp p.target_ip
    → 0 < pkt_len
    → arp_req_handler
        (ip_number p.target_ip)
        (mac_bytes self)
        (some (packet (record p { opcode = 1 }) rest))
        pkt_len
      ≡ some (packet (reply_to self p) [], pkt_len)
arp_req_handler-reply p self rest pkt_len v w z =
    let q : ArpPacket = record p { opcode = 1 } in
    let q2 : ArpPacket = record p { opcode = 2 } in
    let e : change_mac_addresses (swap_ip_addresses (packet q2 [])) (mac_bytes self)
        ≡ packet (reply_to self p) [] =
      ap (λ s. change_mac_addresses s (mac_bytes self)) (swap_lem q2 v w)
      ∙ change_lem (record q2 { sender_ip = p.target_ip; target_ip = p.sender_ip }) self in
    answer_lem (ip_number p.target_ip) (mac_bytes self) (packet q rest) pkt_len (accepted p rest)
      (for_me q v w rest) z
    ∙ ap (λ s. some (change_mac_addresses (swap_ip_addresses s) (mac_bytes self), pkt_len))
        (set_opcode_lem p rest)
    ∙ ap (λ s. some (s, pkt_len)) e
