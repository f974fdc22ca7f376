-- ===== src/Arp.antt =====
-- esp_hosted_fg/host/stm32/app/data/arp_server_stub.c: the answer to an ARP request, with the byte
-- order functions of host/stm32/common/common.c, `is_same_buff` of common/util.c and `stream_set`
-- and `stream_get` of app/app_main_api.c beside it. A packet is the memory from `pkt` on; the
-- processor is little-endian.
pub mod Reply
use esp_hosted.Prelude.{
  ℕ, zero, suc, ◌+◌, ◌*◌, ◌/◌, ◌%◌, Bool, true, false, not, List, [], ◌∷◌, ◌++◌, Option, none, some,
  take, drop, put, ltb, ◌==◌, ◌&&◌, ◌||◌, if◌then◌else◌,
}

-- `hton_short`, which is `ntoh_short` too.
unfoldable pub hton_short : ℕ → ℕ
hton_short x = x % 256 * 256 + x / 256 % 256

-- `hton_long`, which is `ntoh_long` too.
unfoldable pub hton_long : ℕ → ℕ
hton_long x =
    x / 16777216 % 256 + x / 65536 % 256 * 256 + x / 256 % 256 * 65536 + x % 256 * 16777216

-- The bytes of a number in memory, and the number read from memory.
unfoldable pub bytes_short : ℕ → List ℕ
bytes_short x = (x % 256) ∷ (x / 256 % 256) ∷ []

unfoldable pub bytes_long : ℕ → List ℕ
bytes_long x = (x % 256) ∷ (x / 256 % 256) ∷ (x / 65536 % 256) ∷ (x / 16777216 % 256) ∷ []

-- The rest of the memory is not read.
unfoldable pub read_short : List ℕ → ℕ
read_short (a ∷ b ∷ rest) = a + 256 * b
read_short short = 0

unfoldable pub read_long : List ℕ → ℕ
read_long (a ∷ b ∷ c ∷ d ∷ rest) = a + 256 * b + 65536 * c + 16777216 * d
read_long short = 0

-- `stream_set` and `stream_get`
abbrev stream_set : List ℕ → List ℕ → ℕ → List ℕ
stream_set stream val offset = put stream offset val

abbrev stream_get : List ℕ → ℕ → List ℕ
stream_get stream offset = drop offset stream

-- The loop of `is_same_buff`, and the function; a null pointer is `none`.
unfoldable pub same_bytes : ℕ → List ℕ → List ℕ → Bool
same_bytes zero b1 b2 = true
same_bytes (suc len) (a ∷ b1) (b ∷ b2) =
    let rest = same_bytes len b1 b2 in if a == b then rest else false
same_bytes (suc len) b1 b2 = false

unfoldable pub is_same_buff : Option (List ℕ) → Option (List ℕ) → ℕ → Bool
unfolding same_bytes
is_same_buff none none len = len == 0
is_same_buff none (some b2) len = false
is_same_buff (some b1) none len = false
is_same_buff (some b1) (some b2) len = same_bytes len b1 b2

abbrev offset_dst_mac : ℕ
offset_dst_mac = 0

abbrev offset_src_mac : ℕ
offset_src_mac = 6

abbrev offset_protocol : ℕ
offset_protocol = 12

abbrev offset_opcode : ℕ
offset_opcode = 20

abbrev offset_src_repeat_mac : ℕ
offset_src_repeat_mac = 22

abbrev offset_src_ip : ℕ
offset_src_ip = 28

abbrev offset_dst_repeat_mac : ℕ
offset_dst_repeat_mac = 32

abbrev offset_dst_ip : ℕ
offset_dst_ip = 38

-- PROTOCOL_ARP, ARP_REQ, ARP_REPLY, MAX_MSG_TYPE_ARPING, ARPING_MAX_PKT_SIZE
abbrev protocol_arp : ℕ
protocol_arp = 2054

abbrev arp_reply : ℕ
arp_reply = 2

abbrev max_msg_type : ℕ
max_msg_type = 3

abbrev max_pkt_size : ℕ
max_pkt_size = 42

-- `arping_set_ipaddr` and `arping_get_ipaddr`, at the offset that the type chooses.
unfoldable pub set_ipaddr : List ℕ → ℕ → ℕ → List ℕ
unfolding hton_long bytes_long
set_ipaddr stream offset ip = stream_set stream (bytes_long (hton_long ip)) offset

unfoldable pub get_ipaddr : List ℕ → ℕ → ℕ
unfolding hton_long read_long
get_ipaddr stream offset = hton_long (read_long (stream_get stream offset))

-- `arping_get_opcode`, `arping_set_opcode` and `arping_get_protocol`
unfoldable pub get_opcode : List ℕ → ℕ
unfolding hton_short read_short
get_opcode stream = hton_short (read_short (stream_get stream offset_opcode))

unfoldable pub set_opcode : List ℕ → ℕ → List ℕ
unfolding hton_short bytes_short
set_opcode stream opcode = stream_set stream (bytes_short (hton_short opcode)) offset_opcode

unfoldable pub get_protocol : List ℕ → ℕ
unfolding hton_short read_short
get_protocol stream = hton_short (read_short (stream_get stream offset_protocol))

-- `arping_swap_ip_addresses`
unfoldable pub swap_ip_addresses : List ℕ → List ℕ
unfolding set_ipaddr get_ipaddr
swap_ip_addresses stream =
    let in_src_ip = get_ipaddr stream offset_src_ip in
    let in_dst_ip = get_ipaddr stream offset_dst_ip in
    set_ipaddr (set_ipaddr stream offset_dst_ip in_src_ip) offset_src_ip in_dst_ip

-- `arping_change_mac_addresses`; `rsp_mac` points into the stream, and each address written is read
-- from there.
unfoldable pub change_mac_addresses : List ℕ → List ℕ → List ℕ
change_mac_addresses stream self_mac =
    let s1 = stream_set stream (take 6 (stream_get stream offset_src_mac)) offset_dst_mac in
    let s2 = stream_set s1 (take 6 (stream_get s1 offset_src_mac)) offset_dst_repeat_mac in
    stream_set (stream_set s2 self_mac offset_src_mac) self_mac offset_src_repeat_mac

-- `is_arp_packet`: the opcode as a `uint8_t`, or 0.
unfoldable pub is_arp_packet : List ℕ → ℕ
unfolding get_protocol get_opcode
is_arp_packet pkt =
    if get_protocol pkt == protocol_arp
    then (if ltb (get_opcode pkt) max_msg_type then get_opcode pkt else 0)
    else 0

-- `is_arp_pkt_for_me`
unfoldable pub is_arp_pkt_for_me : ℕ → List ℕ → Bool
unfolding get_ipaddr is_same_buff bytes_long
is_arp_pkt_for_me src_ip pkt =
    is_same_buff (some (bytes_long (get_ipaddr pkt offset_dst_ip))) (some (bytes_long src_ip)) 4

-- `arp_req_handler`, but for the line that is printed: the response and its announced length. The
-- memory that `malloc` gives is asserted.
unfoldable pub arp_req_handler : ℕ → List ℕ → Option (List ℕ) → ℕ → Option (List ℕ × ℕ)
unfolding is_arp_packet is_arp_pkt_for_me set_opcode swap_ip_addresses change_mac_addresses
arp_req_handler src_ip src_mac none pkt_len = none
arp_req_handler src_ip src_mac (some pkt) pkt_len =
    if pkt_len == 0
    then none
    else if is_arp_packet pkt == 0
    then none
    else if not (is_arp_pkt_for_me src_ip pkt)
    then none
    else if is_arp_packet pkt == arp_reply
    then none
    else some (
      change_mac_addresses (swap_ip_addresses (set_opcode (take max_pkt_size pkt) 2)) src_mac,
      pkt_len,
    )
