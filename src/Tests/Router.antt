-- ===== src/Tests/Router.antt =====
-- The router with one reserved port, and the strings that reserve ports.
use esp_hosted.Prelude.{
  inl, inr, ℕ, ◌≡◌, ◌≢◌, ◌≤◌, ◌⊎◌, refl, Bool, true, false, List, [], ◌∷◌, length, arith,
}
use esp_hosted.Router.{
  atoi_from, PortTable, init_allowed_ports, max_ports, Cache, port_in, slave_lwip, host_lwip,
  both_lwip, invalid, Config, Packet, ip, tcp, Env, Router, route,
}
use esp_hosted.Router.Ports.{
  AllBelow, AllShort, comma_list, ports_of, init_allowed_ports-bounds,
  init_allowed_ports-comma_list,
}
use esp_hosted.Router.Cached.{Query, IsDense}
use esp_hosted.Router.Awake.{reserved_l3, wakes_l3, awake-route, asleep-route}
use esp_hosted.Router.Reserved.{Lists, AreLists, IsListed, rules, configure-route}

abbrev empty : PortTable
empty = record { ports = []; initialized = false }

abbrev never : ℕ → Bool
never port = false

abbrev config : Config
config = record {
  default_bridge = slave_lwip;
  dhcp_bridge = slave_lwip;
  remote_tcp = never;
  local_tcp = never;
  remote_udp = never;
  local_udp = never;
}

abbrev cache : Cache
cache = record { last_check_time = 0; last_result = false; last_port = 0 }

abbrev router : Router
router = record {
  allowed = record {
    tcp_src = empty;
    tcp_dst = record { ports = 22 ∷ []; initialized = true };
    udp_src = empty;
    udp_dst = empty;
  };
  tcp_cache = cache;
  udp_cache = cache;
}

abbrev env : Bool → Env
env asleep = record { power_saving = asleep; now = 5000; tcp_open = []; udp_open = [] }

abbrev ssh : Packet
ssh = record { dest_first = 2; l3 = ip (tcp 40000 22 100 []) }

awake-route_example : (route config (env false) router ssh).0 ≢ invalid
awake-route_example = awake-route config (env false) router ssh (ground arith) (ground arith) refl

asleep-route_example :
    ((route config (env true) router ssh).0 ≢ both_lwip)
    × (((route config (env true) router ssh).0 ≢ host_lwip)
        ⊎ ((reserved_l3 router ssh.l3 ≡ true) ⊎ (wakes_l3 config ssh.l3 ≡ true)))
asleep-route_example = asleep-route config (env true) router ssh refl refl refl

ssh_reserved : reserved_l3 router ssh.l3 ≡ true
unfolding port_in
ssh_reserved = refl

-- "8080" for TCP sources, "22" and "5201" for TCP destinations, nothing for UDP.
abbrev lists : Lists
lists = record {
  tcp_src = (56 ∷ 48 ∷ 56 ∷ 48 ∷ []) ∷ [];
  tcp_dst = (50 ∷ 50 ∷ []) ∷ (53 ∷ 50 ∷ 48 ∷ 49 ∷ []) ∷ [];
  udp_src = [];
  udp_dst = [];
}

lists-AreLists : AreLists lists
lists-AreLists = record {
  tcp_src = (ground arith, omega arith);
  tcp_dst = (ground arith, omega arith);
  udp_src = (tt, omega arith);
  udp_dst = (tt, omega arith);
}

ssh-IsListed : IsListed lists ssh.l3
unfolding atoi_from
ssh-IsListed = inr (inl refl)

configure-route_example :
    (route config (env true) (record router { allowed = rules lists }) ssh).0 ≡ host_lwip
configure-route_example =
    configure-route config (env true) router lists ssh lists-AreLists ssh-IsListed (omega arith)

-- "65535,22"
abbrev five_digits : List ℕ
five_digits = 54 ∷ 53 ∷ 53 ∷ 51 ∷ 53 ∷ 44 ∷ 50 ∷ 50 ∷ []

init_allowed_ports-bounds_example :
    let t = init_allowed_ports empty five_digits in
    (length t.ports ≤ max_ports) × AllBelow 10000 t.ports
init_allowed_ports-bounds_example = init_allowed_ports-bounds five_digits

-- "22" and "5201"
abbrev two_ports : List (List ℕ)
two_ports = (50 ∷ 50 ∷ []) ∷ (53 ∷ 50 ∷ 48 ∷ 49 ∷ []) ∷ []

two_ports-AllShort : AllShort two_ports
two_ports-AllShort = ground arith

init_allowed_ports-comma_list_example :
    init_allowed_ports empty (comma_list two_ports)
    ≡ record { ports = ports_of two_ports; initialized = true }
init_allowed_ports-comma_list_example =
    init_allowed_ports-comma_list two_ports two_ports-AllShort (omega arith) (omega arith)

-- The port opens after the first test.
abbrev queries : List Query
queries = (500, []) ∷ (1400, 5001 ∷ []) ∷ (2300, 5001 ∷ []) ∷ []

abbrev iperf_cache : Cache
iperf_cache = record { last_check_time = 0; last_result = false; last_port = 5001 }

queries-IsDense : IsDense 0 queries
queries-IsDense = ground arith
