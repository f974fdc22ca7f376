-- ===== src/Router/Awake.antt =====
-- What the router does with a packet while the host is awake, and while it sleeps.
use native.Mathlib.Nat.{mod-lt}
use esp_hosted.Prelude.{
  ℕ, ◌+◌, ◌%◌, ◌≤◌, ◌≡◌, ◌≢◌, ◌⊎◌, refl, Bool, true, false, ◌||◌, ◌==◌, arith, ◌-◌,
}
use mathlib.Core.Bool.{◌&&◌}
use esp_hosted.Router.{
  slave_lwip, host_lwip, both_lwip, invalid, Config, Env, Router, Packet, L3, L4, tcp, udp,
  icmp_echo, icmp_reply, icmp_other, other_l4, ip, arp_request, arp_other, other_l3, mqtt_port,
  mqtt_wakeup, port_in, route_tcp_rest, route_tcp, route_udp_rest, route_udp, route_l4, route_l3,
  route, ensure_port_range,
}

-- A packet that the reserved ports give to the host.
abbrev pub reserved_l3 : Router → L3 → Bool
reserved_l3 r (ip (tcp src dst wnd payload)) =
    port_in src r.allowed.tcp_src.ports || port_in dst r.allowed.tcp_dst.ports
reserved_l3 r (ip (udp src dst)) =
    port_in src r.allowed.udp_src.ports || port_in dst r.allowed.udp_dst.ports
reserved_l3 r other = false

-- A message of the MQTT broker that asks to wake the host.
abbrev pub wakes_l3 : Config → L3 → Bool
wakes_l3 cfg (ip (tcp src dst wnd payload)) =
    cfg.remote_tcp dst && (src == mqtt_port && mqtt_wakeup payload wnd)
wakes_l3 cfg other = false

module _ (cfg : Config) (env : Env) (r : Router) where
  awake_l4 :
      (l4 : L4)
      → cfg.default_bridge ≢ invalid
      → cfg.dhcp_bridge ≢ invalid
      → env.power_saving ≡ false
      → (route_l4 cfg env r l4).0 ≢ invalid
  unfolding route_l4 route_tcp route_tcp_rest route_udp route_udp_rest
  awake_l4 (tcp src dst wnd payload) d h p = ground arith
  awake_l4 (udp src dst) d h p = ground arith
  awake_l4 icmp_echo d h p = ground arith
  awake_l4 icmp_reply d h p = ground arith
  awake_l4 icmp_other d h p = d
  awake_l4 other_l4 d h p = d

  awake_l3 :
      (l3 : L3)
      → cfg.default_bridge ≢ invalid
      → cfg.dhcp_bridge ≢ invalid
      → env.power_saving ≡ false
      → (route_l3 cfg env r l3).0 ≢ invalid
  unfolding route_l3
  awake_l3 (ip l4) d h p = awake_l4 l4 d h p
  awake_l3 arp_request d h p = ground arith
  awake_l3 arp_other d h p = ground arith
  awake_l3 other_l3 d h p = d

  -- While the host is awake no packet is dropped, provided that the configured bridges drop none.
  pub awake-route :
      (p : Packet)
      → cfg.default_bridge ≢ invalid
      → cfg.dhcp_bridge ≢ invalid
      → env.power_saving ≡ false
      → (route cfg env r p).0 ≢ invalid
  unfolding route
  awake-route p d h s = ground (arith, awake_l3 p.l3 d h s)

  asleep_l4 :
      (l4 : L4)
      → cfg.default_bridge ≡ slave_lwip
      → cfg.dhcp_bridge ≡ slave_lwip
      → env.power_saving ≡ true
      → ((route_l4 cfg env r l4).0 ≢ both_lwip)
        × (((route_l4 cfg env r l4).0 ≢ host_lwip)
            ⊎ ((reserved_l3 r (ip l4) ≡ true) ⊎ (wakes_l3 cfg (ip l4) ≡ true)))
  unfolding route_l4 route_tcp route_tcp_rest route_udp route_udp_rest
  asleep_l4 (tcp src dst wnd payload) d h p = (ground arith, ground arith)
  asleep_l4 (udp src dst) d h p = (ground arith, ground arith)
  asleep_l4 icmp_echo d h p = (ground arith, ground arith)
  asleep_l4 icmp_reply d h p = (ground arith, ground arith)
  asleep_l4 icmp_other d h p = (ground arith, ground arith)
  asleep_l4 other_l4 d h p = (ground arith, ground arith)

  asleep_l3 :
      (l3 : L3)
      → cfg.default_bridge ≡ slave_lwip
      → cfg.dhcp_bridge ≡ slave_lwip
      → env.power_saving ≡ true
      → ((route_l3 cfg env r l3).0 ≢ both_lwip)
        × (((route_l3 cfg env r l3).0 ≢ host_lwip)
            ⊎ ((reserved_l3 r l3 ≡ true) ⊎ (wakes_l3 cfg l3 ≡ true)))
  unfolding route_l3
  asleep_l3 (ip l4) d h p = asleep_l4 l4 d h p
  asleep_l3 arp_request d h p = (ground arith, ground arith)
  asleep_l3 arp_other d h p = (ground arith, ground arith)
  asleep_l3 other_l3 d h p = (ground arith, ground arith)

  -- With the coprocessor as the configured default, and with DHCP left to it, a packet goes to a sleeping host only if one of
  -- its ports is reserved for the host, or if it is the MQTT message that asks to wake the host;
  -- and it goes to the host alone.
  pub asleep-route :
      (p : Packet)
      → cfg.default_bridge ≡ slave_lwip
      → cfg.dhcp_bridge ≡ slave_lwip
      → env.power_saving ≡ true
      → ((route cfg env r p).0 ≢ both_lwip)
        × (((route cfg env r p).0 ≢ host_lwip)
            ⊎ ((reserved_l3 r p.l3 ≡ true) ⊎ (wakes_l3 cfg p.l3 ≡ true)))
  unfolding route
  asleep-route p d h s =
      let (never, only) = asleep_l3 p.l3 d h s in (ground (arith, never), ground (arith, only))

  reserved_lem : (l3 : L3) → reserved_l3 r l3 ≡ true → route_l3 cfg env r l3 ≡ (host_lwip, r)
  unfolding route_l3 route_l4 route_tcp route_udp
  reserved_lem (ip (tcp src dst wnd payload)) h = rw h refl
  reserved_lem (ip (udp src dst)) h = rw h refl
  reserved_lem (ip icmp_echo) h = cc
  reserved_lem (ip icmp_reply) h = cc
  reserved_lem (ip icmp_other) h = cc
  reserved_lem (ip other_l4) h = cc
  reserved_lem arp_request h = cc
  reserved_lem arp_other h = cc
  reserved_lem other_l3 h = cc

  -- A unicast packet on a port that is reserved for the host goes to the host, asleep or not.
  pub reserved-route :
      (p : Packet)
      → p.dest_first % 2 ≡ 0
      → reserved_l3 r p.l3 ≡ true
      → route cfg env r p ≡ (host_lwip, r)
  unfolding route
  reserved-route p e h = ground (arith, reserved_lem p.l3 h)

-- The port that a socket is bound to lies in the configured range, whatever port was asked for.
ensure_port_range_bounds :
    (port lo hi : ℕ)
    → lo ≤ hi
    → (lo ≤ ensure_port_range port lo hi) × (ensure_port_range port lo hi ≤ hi)
unfolding ensure_port_range
ensure_port_range_bounds port lo hi h =
    (ground arith, ground (arith, mod-lt port {m = hi - lo + 1} (omega arith)))
