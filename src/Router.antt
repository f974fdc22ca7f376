-- ===== src/Router.antt =====
-- esp_hosted_fg/esp/esp_driver/network_adapter/main/nw_split_router.c and
-- esp_hosted_lwip_src_port_hook.h: which network stack gets a packet that the coprocessor receives
-- from the access point. Reading the headers is lwip's: a packet is what its macros find. The port
-- ranges and the bridges of the configuration are a record; the time, lwip's open ports and whether
-- the host sleeps are input.
pub mod Ports
pub mod Reserved
pub mod Awake
pub mod Cached
use esp_hosted.Prelude.{
  ℕ, zero, suc, ◌+◌, ◌-◌, ◌*◌, ◌%◌, ◌/◌, ◌^◌, Bool, true, false, not, List, [], ◌∷◌, ◌++◌, length,
  take, ltb, leb, ◌==◌, ◌&&◌, ◌||◌, if◌then◌else◌,
}
use esp_hosted.Tlv.{list_eq}

-- `MAX_ALLOWED_TCP_SRC_PORTS` and its three likes
abbrev pub max_ports : ℕ
max_ports = 10

-- The ports of one kind, and whether they were initialized.
pub record PortTable : Type 0 where
  pub ports : List ℕ
  pub initialized : Bool

abbrev pub is_digit : ℕ → Bool
is_digit c = leb 48 c && leb c 57

-- `atoi` of digits
unfoldable pub atoi_from : ℕ → List ℕ → ℕ
atoi_from acc [] = acc
atoi_from acc (c ∷ cs) = atoi_from (acc * 10 + (c - 48)) cs

abbrev pub atoi : List ℕ → ℕ
atoi digits = atoi_from 0 digits

-- `port_buf[port_buf_idx++] = c`, and the index that is put back from 5 to 4. The buffer is what
-- stands below the index.
unfoldable pub push_digit : List ℕ → ℕ → List ℕ
push_digit buf c = if leb 5 (length (buf ++ c ∷ [])) then take 4 (buf ++ c ∷ []) else buf ++ c ∷ []

-- The loop over the string, and the port behind the last comma.
unfoldable pub parse_ports : List ℕ → List ℕ → List ℕ → List ℕ
parse_ports [] buf ports = if length buf == 0 then ports else ports ++ (atoi buf % 65536) ∷ []
parse_ports (c ∷ str) buf ports =
    let digit = parse_ports str (push_digit buf c) ports in
    let comma = parse_ports str [] (ports ++ (atoi buf % 65536) ∷ []) in
    let other = parse_ports str buf ports in
    let stop = if length buf == 0 then ports else ports ++ (atoi buf % 65536) ∷ [] in
    if leb max_ports (length ports)
    then stop
    else if is_digit c
    then digit
    else if c == 44 && not (length buf == 0)
    then comma
    else other

-- `init_allowed_ports`, with the static flag of its kind. The string is empty for a null pointer.
unfoldable pub init_allowed_ports : PortTable → List ℕ → PortTable
init_allowed_ports t [] = if t.initialized then t else record t { ports = [] }
init_allowed_ports t (c ∷ str) =
    if t.initialized then t else record { ports = parse_ports (c ∷ str) [] []; initialized = true }

-- The four tables.
pub record Allowed : Type 0 where
  pub tcp_src : PortTable
  pub tcp_dst : PortTable
  pub udp_src : PortTable
  pub udp_dst : PortTable

-- `init_allowed_tcp_ports` and `init_allowed_udp_ports` skip an empty string.
abbrev pub init_if_given : PortTable → List ℕ → PortTable
init_if_given t [] = t
init_if_given t (c ∷ str) = init_allowed_ports t (c ∷ str)

-- `configure_host_static_port_forwarding_rules`
unfoldable pub configure : Allowed → List ℕ → List ℕ → List ℕ → List ℕ → Allowed
configure a tcp_src tcp_dst udp_src udp_dst = record {
  tcp_src = init_if_given a.tcp_src tcp_src;
  tcp_dst = init_if_given a.tcp_dst tcp_dst;
  udp_src = init_if_given a.udp_src udp_src;
  udp_dst = init_if_given a.udp_dst udp_dst;
}

-- `is_tcp_src_port_allowed` and its three likes
unfoldable pub port_in : ℕ → List ℕ → Bool
port_in port [] = false
port_in port (p ∷ ps) = port == p || port_in port ps

-- `tcp_cache`, `udp_cache`
pub record Cache : Type 0 where
  pub last_check_time : ℕ
  pub last_result : Bool
  pub last_port : ℕ

-- `is_local_tcp_port_open` and `is_local_udp_port_open`. `now` is in units of 1024 microseconds,
-- `open_ports` are lwip's.
unfoldable pub is_local_port_open : Cache → ℕ → List ℕ → ℕ → Bool × Cache
is_local_port_open c now open_ports port =
    let found = port_in port open_ports in
    if c.last_port == port && ltb ((now + 2 ^ 64 - c.last_check_time) % 2 ^ 64) 1000
    then (c.last_result, record c { last_check_time = now })
    else (found, record { last_check_time = now; last_result = found; last_port = port })

-- `hosted_l2_bridge`
pub data Bridge : Type 0 where
  slave_lwip host_lwip both_lwip invalid : Bridge

-- `ENSURE_PORT_RANGE`
unfoldable pub ensure_port_range : ℕ → ℕ → ℕ → ℕ
ensure_port_range port lo hi =
    if leb lo port && leb port hi then port else port % (hi - lo + 1) + lo

pub record Config : Type 0 where
  pub default_bridge : Bridge
  pub dhcp_bridge : Bridge
  pub remote_tcp : ℕ → Bool
  pub local_tcp : ℕ → Bool
  pub remote_udp : ℕ → Bool
  pub local_udp : ℕ → Bool

-- `IS_LOCAL_TCP_PORT` and its likes, for a range of the configuration.
abbrev in_range : ℕ → ℕ → ℕ → Bool
in_range lo hi port = leb lo port && leb port hi

-- What the macros of lwip find in a packet. A TCP segment has its ports, its window, and the bytes
-- behind its header.
pub data L4 : Type 0 where
  tcp : ℕ → ℕ → ℕ → List ℕ → L4
  udp : ℕ → ℕ → L4
  icmp_echo icmp_reply icmp_other other_l4 : L4

pub data L3 : Type 0 where
  ip : L4 → L3
  arp_request arp_other other_l3 : L3

-- The first byte of the destination address, and what follows the Ethernet header.
pub record Packet : Type 0 where
  pub dest_first : ℕ
  pub l3 : L3

pub record Env : Type 0 where
  pub power_saving : Bool
  pub now : ℕ
  pub tcp_open : List ℕ
  pub udp_open : List ℕ

pub record Router : Type 0 where
  pub allowed : Allowed
  pub tcp_cache : Cache
  pub udp_cache : Cache

abbrev iperf_port : ℕ
iperf_port = 5001

abbrev pub mqtt_port : ℕ
mqtt_port = 1883

abbrev dhcp_client_port : ℕ
dhcp_client_port = 68

-- WAKEUP_HOST_STRING, "wakeup-host"
abbrev wakeup_string : List ℕ
wakeup_string = 119 ∷ 97 ∷ 107 ∷ 101 ∷ 117 ∷ 112 ∷ 45 ∷ 104 ∷ 111 ∷ 115 ∷ 116 ∷ []

-- `host_mqtt_wakeup_triggered`
unfoldable pub mqtt_wakeup : List ℕ → ℕ → Bool
mqtt_wakeup payload payload_length =
    leb 11 payload_length && list_eq (take 11 payload) wakeup_string

module _ (cfg : Config) (env : Env) where
  -- The part of the TCP branch behind the iperf test.
  unfoldable pub route_tcp_rest : ℕ → ℕ → ℕ → List ℕ → Bridge
  route_tcp_rest src dst wnd payload =
      if cfg.remote_tcp dst
      then (if env.power_saving
          then (if src == mqtt_port && mqtt_wakeup payload wnd then host_lwip else invalid)
          else host_lwip)
      else if cfg.local_tcp dst
      then slave_lwip
      else cfg.default_bridge

  -- `proto == IP_PROTO_TCP`
  unfoldable pub route_tcp : Router → ℕ → ℕ → ℕ → List ℕ → Bridge × Router
  route_tcp r src dst wnd payload =
      let (is_open, c) = is_local_port_open r.tcp_cache env.now env.tcp_open dst in
      let r' = record r { tcp_cache = c } in
      if port_in src r.allowed.tcp_src.ports || port_in dst r.allowed.tcp_dst.ports
      then (host_lwip, r)
      else if dst == iperf_port
      then (if is_open
          then (slave_lwip, r')
          else if not env.power_saving
          then (host_lwip, r')
          else (route_tcp_rest src dst wnd payload, r'))
      else (route_tcp_rest src dst wnd payload, r)

  -- The part of the UDP branch behind the iperf test.
  unfoldable pub route_udp_rest : ℕ → Bridge
  route_udp_rest dst =
      if dst == dhcp_client_port
      then cfg.dhcp_bridge
      else if cfg.remote_udp dst
      then (if env.power_saving then invalid else host_lwip)
      else if cfg.local_udp dst
      then slave_lwip
      else cfg.default_bridge

  -- `proto == IP_PROTO_UDP`
  unfoldable pub route_udp : Router → ℕ → ℕ → Bridge × Router
  route_udp r src dst =
      let (is_open, c) = is_local_port_open r.udp_cache env.now env.udp_open dst in
      let r' = record r { udp_cache = c } in
      if port_in src r.allowed.udp_src.ports || port_in dst r.allowed.udp_dst.ports
      then (host_lwip, r)
      else if dst == iperf_port
      then (if is_open
          then (slave_lwip, r')
          else if not env.power_saving
          then (host_lwip, r')
          else (route_udp_rest dst, r'))
      else (route_udp_rest dst, r)

  -- An ICMP echo reply, or an ARP packet that is no request.
  abbrev route_reply : Bridge
  route_reply = if env.power_saving then slave_lwip else both_lwip

  -- `ETHTYPE_IP` and `ETHTYPE_ARP`
  unfoldable pub route_l4 : Router → L4 → Bridge × Router
  route_l4 r (tcp src dst wnd payload) = route_tcp r src dst wnd payload
  route_l4 r (udp src dst) = route_udp r src dst
  route_l4 r icmp_echo = (slave_lwip, r)
  route_l4 r icmp_reply = (route_reply, r)
  route_l4 r icmp_other = (cfg.default_bridge, r)
  route_l4 r other_l4 = (cfg.default_bridge, r)

  unfoldable pub route_l3 : Router → L3 → Bridge × Router
  route_l3 r (ip l4) = route_l4 r l4
  route_l3 r arp_request = (slave_lwip, r)
  route_l3 r arp_other = (route_reply, r)
  route_l3 r other_l3 = (cfg.default_bridge, r)

  -- `filter_and_route_packet`
  unfoldable pub route : Router → Packet → Bridge × Router
  route r p = if p.dest_first % 2 == 1 then (slave_lwip, r) else route_l3 r p.l3
