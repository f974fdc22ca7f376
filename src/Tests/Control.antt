-- ===== src/Tests/Control.antt =====
-- A control request and its response, the framing of both, and an ARP request.
use esp_hosted.Prelude.{
  ◌≤◌, ◌<◌, ◌⊎◌, ℕ, ◌≡◌, refl, Bool, true, List, [], ◌∷◌, Option, none, some, length, map, arith,
}
use esp_hosted.IpText.{
  ipv4_addr_aton, ipv4_addr_ntoa, get_ipaddr_from_str, dotted, collect, concoct,
}
use esp_hosted.IpText.RoundTrip.{
  dotted_text, octets, reversed, print_then_read, ipv4_addr_ntoa-aton,
}
use esp_hosted.Slave.{RxData, no_data, rx_frames, serial_write_data, frame_of}
use esp_hosted.Slave.Fragments.{all_taken}
use esp_hosted.Reasm.{reset, reasm_frames}
use esp_hosted.Serial.{Dev, write_dev}
use esp_hosted.Serial.Fragments.{calm}
use esp_hosted.Tlv.{
  transport_pserial_send, writes, heap_overflow, Parser, compose_tlv, ep_name_resp, parse_request,
  host_parse_tlv, t_data,
}
use esp_hosted.Tlv.Memory.{mem}
use esp_hosted.Tlv.RoundTrip.{parse_request-transport_pserial_send}
use esp_hosted.Pserial.{SerialArg, task_step, parse_protobuf_req}
use esp_hosted.Pserial.RoundTrip.{control_round_trip}
use esp_hosted.Arp.{arp_req_handler, hton_long}
use esp_hosted.Arp.Reply.{
  Mac, Ip, ip_number, mac_bytes, ArpPacket, packet, reply_to, arp_req_handler-reply, IsIp,
}
use esp_hosted.Tests.Ring.{around}

abbrev junk : ℕ → ℕ
junk i = 255

parse_request-transport_pserial_send_example :
    ((msg : List ℕ) × (2 ≤ 65521)
      × (transport_pserial_send true true (8 ∷ 1 ∷ []) ≡ writes msg)
      × (parse_request 3 (mem msg junk) (length msg) ≡ some (ep_name_resp, 8 ∷ 1 ∷ [])))
    ⊎ ((65521 < 2) × (transport_pserial_send true true (8 ∷ 1 ∷ []) ≡ heap_overflow))
parse_request-transport_pserial_send_example =
    parse_request-transport_pserial_send (8 ∷ 1 ∷ []) junk (omega arith) (omega arith)

-- A message of four bytes whose data block announces ten.
abbrev short_message : ℕ → ℕ
short_message i = mem (t_data ∷ 10 ∷ 0 ∷ 7 ∷ []) junk i

abbrev at_start : Parser
at_start = record { pos = 0; total_len = 4; epname = []; payload = none }

abbrev echo : List ℕ → ℕ → List ℕ → Option (List ℕ)
echo epname session input = some input

abbrev accepts : List ℕ → Bool
accepts msg = true

abbrev device : Dev
device = record { rb = around; ref_count = 1; seq_num = 3; priv = true }

abbrev request : List ℕ
request = 8 ∷ 1 ∷ 16 ∷ []

control_round_trip_example :
    (msg : List ℕ) × (r : RxData) × (arg : SerialArg) × (transport_pserial_send true true request
      ≡ writes msg)
    × (rx_frames no_data (write_dev calm device msg).2 ≡ some r)
    × (parse_protobuf_req true 0 r ≡ some arg)
    × (task_step echo accepts true junk 3 300 309 r arg
        ≡ (no_data, some (record { ok = true; sent = some (compose_tlv ep_name_resp request) })))
    × (reasm_frames reset
          (map frame_of (serial_write_data all_taken 9 (compose_tlv ep_name_resp request)).1)
        ≡ (reset, compose_tlv ep_name_resp request ∷ []))
    × (host_parse_tlv (mem (compose_tlv ep_name_resp request) junk) ≡ some (length request))
control_round_trip_example =
    control_round_trip echo accepts junk 300 309 0 (omega arith) device 9 request request refl
      (omega arith) (omega arith) refl (omega arith)

abbrev mac_of : ℕ → Mac
mac_of n = record { m0 = 2; m1 = 0; m2 = 0; m3 = 0; m4 = 0; m5 = n }

abbrev ip_of : ℕ → Ip
ip_of n = record { i0 = 192; i1 = 168; i2 = 1; i3 = n }

abbrev who_has : ArpPacket
who_has = record {
  dst = mac_of 255;
  src = mac_of 1;
  hw = mac_of 4;
  opcode = 1;
  sender_mac = mac_of 1;
  sender_ip = ip_of 206;
  target_mac = mac_of 0;
  target_ip = ip_of 233;
}

arp_req_handler-reply_example :
    arp_req_handler
      (ip_number (ip_of 233))
      (mac_bytes (mac_of 9))
      (some (packet who_has (0 ∷ 0 ∷ [])))
      44
    ≡ some (packet (reply_to (mac_of 9) who_has) [], 44)
arp_req_handler-reply_example =
    arp_req_handler-reply who_has (mac_of 9) (0 ∷ 0 ∷ []) 44
      (record { b0 = omega arith; b1 = omega arith; b2 = omega arith; b3 = omega arith })
      (record { b0 = omega arith; b1 = omega arith; b2 = omega arith; b3 = omega arith })
      (omega arith)

-- 192.168.4.1, in the processor's order
print_then_read_example :
    (text : List ℕ) × (ipv4_addr_ntoa 3232236545 16 ≡ some text)
    × (text ≡ dotted_text (octets 3232236545))
    × (get_ipaddr_from_str text ≡ some 3232236545)
print_then_read_example = print_then_read 3232236545 16 (omega arith) (omega arith)

abbrev gateway : Ip
gateway = record { i0 = 192; i1 = 168; i2 = 4; i3 = 1 }

gateway-IsIp : IsIp gateway
gateway-IsIp = record { b0 = omega arith; b1 = omega arith; b2 = omega arith; b3 = omega arith }

ipv4_addr_ntoa-aton_example :
    (nw : ℕ) × (ipv4_addr_aton (dotted_text gateway) ≡ some nw)
    × (ipv4_addr_ntoa nw 16 ≡ some (dotted_text (reversed gateway)))
ipv4_addr_ntoa-aton_example = ipv4_addr_ntoa-aton gateway 16 gateway-IsIp (omega arith)

-- "10.0x1f.9 ": a hexadecimal part, a last part of 16 bits, and a space behind it.
three_parts :
    ipv4_addr_aton (49 ∷ 48 ∷ 46 ∷ 48 ∷ 120 ∷ 49 ∷ 102 ∷ 46 ∷ 57 ∷ 32 ∷ []) ≡ some 151002890
unfolding ipv4_addr_aton dotted collect concoct hton_long
three_parts = refl

-- "08": digits of an octal number are not checked.
octal_eight : ipv4_addr_aton (48 ∷ 56 ∷ []) ≡ some 134217728
unfolding ipv4_addr_aton dotted collect concoct hton_long
octal_eight = refl
