-- ===== src/Router/Cached.antt =====
-- The cache of the test whether a local port is open.
use esp_hosted.Prelude.{ℕ, ◌+◌, ◌^◌, ◌≤◌, ◌<◌, ◌≡◌, ◌≢◌, refl, Bool, List, [], ◌∷◌, arith, ap, ◌⊎◌}
use esp_hosted.Router.{Cache, port_in, is_local_port_open}

-- Tests of one port, each with its time and the ports that are open then.
abbrev pub Query : Type 0
Query = ℕ × List ℕ

abbrev pub answers : Cache → ℕ → List Query → List Bool
answers c port [] = []
answers c port ((now, open_ports) ∷ qs) =
    let (a, c') = is_local_port_open c now open_ports port in a ∷ answers c' port qs

-- Every query follows the one before it by less than 1000 time units.
abbrev pub IsDense : ℕ → List Query → Type 0
IsDense t [] = Unit
IsDense t ((now, open_ports) ∷ qs) = (t ≤ now) × (now < t + 1000) × (now < 2 ^ 64) × IsDense now qs

abbrev pub all_same : Bool → List Query → List Bool
all_same b [] = []
all_same b (q ∷ qs) = b ∷ all_same b qs

hit :
    (c : Cache) (now : ℕ) (open_ports : List ℕ)
    → c.last_check_time ≤ now
    → now < c.last_check_time + 1000
    → now < 2 ^ 64
    → is_local_port_open c now open_ports c.last_port
      ≡ (c.last_result, record c { last_check_time = now })
unfolding is_local_port_open
hit c now open_ports a b h = ground arith

-- A hit renews the time of the entry, so the one second never ends for a port that is asked for
-- often enough: all the answers are the cached one, whatever ports open or close meanwhile.
pub stale_answers :
    (c : Cache) (qs : List Query)
    → IsDense c.last_check_time qs
    → answers c c.last_port qs ≡ all_same c.last_result qs
stale_answers c [] d = refl
stale_answers c ((now, open_ports) ∷ qs) d =
    rw (hit c now open_ports d.0 d.1 d.2)
      (ap (λ t. c.last_result ∷ t) (stale_answers (record c { last_check_time = now }) qs d.3))

-- For another port, or after a second without a test, the answer is lwip's and is remembered.
fresh_answer :
    (c : Cache) (now : ℕ) (open_ports : List ℕ) (port : ℕ)
    → (c.last_port ≢ port) ⊎ (c.last_check_time + 1000 ≤ now)
    → c.last_check_time ≤ now
    → now < 2 ^ 64
    → is_local_port_open c now open_ports port ≡ (
      port_in port open_ports,
      record { last_check_time = now; last_result = port_in port open_ports; last_port = port },
    )
unfolding is_local_port_open
fresh_answer c now open_ports port h a b = ground arith
