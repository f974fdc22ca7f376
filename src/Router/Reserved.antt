-- ===== src/Router/Reserved.antt =====
-- The lists of reserved ports in the configuration, main/nw_split_router.c, and the packets that the
-- router gives to the host for them.
use esp_hosted.Prelude.{
  ℕ, ◌%◌, ◌<◌, ◌≤◌, ◌≡◌, ◌⊎◌, inl, inr, refl, ap, ◌∙◌, Bool, true, false, ◌||◌, List, [], ◌∷◌,
  length, arith,
}
use esp_hosted.Router.{
  PortTable, max_ports, atoi, init_allowed_ports, init_if_given, Allowed, configure, port_in,
  host_lwip, Config, Env, Router, Packet, L3, tcp, udp, icmp_echo, icmp_reply, icmp_other, other_l4,
  ip, arp_request, arp_other, other_l3, route,
}
use esp_hosted.Router.Ports.{
  AllShort, comma_list, ports_of, init_allowed_ports-comma_list, comma_list-pos,
}
use esp_hosted.Router.Awake.{reserved_l3, reserved-route}

-- Nothing is configured yet.
abbrev pub no_table : PortTable
no_table = record { ports = []; initialized = false }

abbrev pub no_rules : Allowed
no_rules = record { tcp_src = no_table; tcp_dst = no_table; udp_src = no_table; udp_dst = no_table }

-- The digits of the ports of the four lists.
pub record Lists : Type 0 where
  pub tcp_src : List (List ℕ)
  pub tcp_dst : List (List ℕ)
  pub udp_src : List (List ℕ)
  pub udp_dst : List (List ℕ)

abbrev pub IsList : List (List ℕ) → Type 0
IsList ds = AllShort ds × (length ds ≤ max_ports)

pub record AreLists (c : Lists) : Type 0 where
  pub tcp_src : IsList c.tcp_src
  pub tcp_dst : IsList c.tcp_dst
  pub udp_src : IsList c.udp_src
  pub udp_dst : IsList c.udp_dst

-- The rules after `configure_host_static_port_forwarding_rules` of the four strings.
abbrev pub rules : Lists → Allowed
rules c =
    configure no_rules (comma_list c.tcp_src) (comma_list c.tcp_dst) (comma_list c.udp_src)
      (comma_list c.udp_dst)

-- A port is one of a list, by its digits.
abbrev pub HasPort : List (List ℕ) → ℕ → Type 0
HasPort [] port = ⊥
HasPort (d ∷ ds) port = (port ≡ atoi d % 65536) ⊎ HasPort ds port

-- A packet with a port of the list for its protocol and direction.
abbrev pub IsListed : Lists → L3 → Type 0
IsListed c (ip (tcp src dst wnd payload)) = HasPort c.tcp_src src ⊎ HasPort c.tcp_dst dst
IsListed c (ip (udp src dst)) = HasPort c.udp_src src ⊎ HasPort c.udp_dst dst
IsListed c other = ⊥

port_in-ports_of :
    (ds : List (List ℕ)) (port : ℕ) → HasPort ds port → port_in port (ports_of ds) ≡ true
unfolding port_in
port_in-ports_of [] port h = absurd h
port_in-ports_of (d ∷ ds) port (inl e) = ground (arith, e)
port_in-ports_of (d ∷ ds) port (inr h) = ground (arith, port_in-ports_of ds port h)

given :
    (str : List ℕ) → 0 < length str → init_if_given no_table str ≡ init_allowed_ports no_table str
given [] h = absurd (omega (arith, h))
given (c ∷ str) h = refl

ports-comma_list :
    (ds : List (List ℕ)) → IsList ds → (init_if_given no_table (comma_list ds)).ports ≡ ports_of ds
ports-comma_list [] h = refl
ports-comma_list (d ∷ ds) h =
    ap (λ t. t.ports)
      (given (comma_list (d ∷ ds)) (comma_list-pos (d ∷ ds) h.0 (omega arith))
        ∙ init_allowed_ports-comma_list (d ∷ ds) h.0 (omega arith) h.1)

in_table :
    (ds : List (List ℕ)) (port : ℕ)
    → IsList ds
    → HasPort ds port
    → port_in port (init_if_given no_table (comma_list ds)).ports ≡ true
in_table ds port l h = ap (port_in port) (ports-comma_list ds l) ∙ port_in-ports_of ds port h

either : (x y : Bool) → (x ≡ true) ⊎ (y ≡ true) → (x || y) ≡ true
either true y h = refl
either false y (inl e) = absurd (ground (arith, e))
either false y (inr e) = e

reserved :
    (c : Lists) (v : AreLists c) (r : Router) (l3 : L3)
    → IsListed c l3
    → reserved_l3 (record r { allowed = rules c }) l3 ≡ true
unfolding configure
reserved c v r (ip (tcp src dst wnd payload)) (inl h) =
    either _ _ (inl (in_table c.tcp_src src v.tcp_src h))
reserved c v r (ip (tcp src dst wnd payload)) (inr h) =
    either _ _ (inr (in_table c.tcp_dst dst v.tcp_dst h))
reserved c v r (ip (udp src dst)) (inl h) = either _ _ (inl (in_table c.udp_src src v.udp_src h))
reserved c v r (ip (udp src dst)) (inr h) = either _ _ (inr (in_table c.udp_dst dst v.udp_dst h))
reserved c v r (ip icmp_echo) h = absurd h
reserved c v r (ip icmp_reply) h = absurd h
reserved c v r (ip icmp_other) h = absurd h
reserved c v r (ip other_l4) h = absurd h
reserved c v r arp_request h = absurd h
reserved c v r arp_other h = absurd h
reserved c v r other_l3 h = absurd h

-- When the four strings of the configuration are lists of at most ten ports of one to four digits
-- with commas between them, or empty, a unicast packet that has one of these ports, as its source or
-- destination and for its protocol as the list says, goes to the host alone, whether the host
-- sleeps or not and whichever ports are open on the coprocessor.
pub configure-route :
    (cfg : Config) (env : Env) (r : Router) (c : Lists) (p : Packet)
    → AreLists c
    → IsListed c p.l3
    → p.dest_first % 2 ≡ 0
    → (route cfg env (record r { allowed = rules c }) p).0 ≡ host_lwip
configure-route cfg env r c p v h e =
    ap (λ x. x.0)
      (reserved-route cfg env (record r { allowed = rules c }) p e (reserved c v r p.l3 h))
