-- ===== src/SdioHost/Flow.antt =====
-- The credits of the SDIO link: the coprocessor counts the receive buffers it has granted, the host
-- those it has used, both modulo 4096, and the host never uses more than were granted.
use mathlib.Core.Path.{subst}
use native.Mathlib.Decide.{dec_le}
use esp_hosted.Prelude.{
  ℕ, zero, suc, ◌+◌, ◌-◌, ◌/◌, ◌%◌, ◌≤◌, ◌<◌, ◌≡◌, ◌⊎◌, inl, inr, refl, sym, Bool, true, false,
  Option, none, some, leb, if◌then◌else◌, arith, Option-cases, not, ◌==◌, ◌&&◌,
}
use esp_hosted.SdioHost.{
  get_tx_buffer_num, probe_credits, is_sdio_write_buffer_available, max_write_retries, Credits,
  try_send,
}

-- The link as it really is, with counters that do not wrap, beside the fields of the host.
pub record Link : Type 0 where
  pub granted : ℕ
  pub used : ℕ
  pub credits : Credits

-- Less than a turn of the counters is outstanding.
pub record IsSafe (l : Link) : Type 0 where
  pub counts : l.credits.tx_buffer_count ≡ l.used % 4096
  pub covered : l.credits.buf_available + l.used ≤ l.granted
  pub recent : l.granted < l.used + 4096

-- An answer to a probe: none, or the token register when `n` buffers have been granted.
abbrev pub IsAnswer : ℕ → Option ℕ → Type 0
IsAnswer n none = Unit
IsAnswer n (some token) = token / 65536 % 4096 ≡ n % 4096

-- A round of the host's sender; meanwhile the coprocessor grants more, as `seen i` at the i-th probe.
pub data Step (l : Link) : Link → Type 0 where
  sends :
      (needed granted' : ℕ) (probe : ℕ → Option ℕ) (seen : ℕ → ℕ) (bus : Bool)
      → l.granted ≤ granted'
      → granted' < l.used + 4096
      → ((i : ℕ) → IsAnswer (seen i) (probe i) × ((l.granted ≤ seen i) × (seen i ≤ granted')))
      → Step l (record {
        granted = granted';
        used = if (try_send probe bus needed l.credits).0 then l.used + needed else l.used;
        credits = (try_send probe bus needed l.credits).1;
      })

pub data Reach (l : Link) : Link → Type 0 where
  here : Reach l l
  next : {m n : Link} → Reach l m → Step m n → Reach l n

get_tx_buffer_num-exact :
    (token used n : ℕ)
    → token / 65536 % 4096 ≡ n % 4096
    → used ≤ n
    → n < used + 4096
    → get_tx_buffer_num token (used % 4096) ≡ n - used
unfolding get_tx_buffer_num
get_tx_buffer_num-exact token used n e h k = omega arith

probe-none :
    (probe : ℕ → Option ℕ) (count needed i retry available : ℕ)
    → probe i ≡ none
    → available < needed
    → probe_credits probe count needed i (suc retry) available
      ≡ probe_credits probe count needed (i + 1) retry available
unfolding probe_credits
probe-none probe count needed i retry available e h = ground (arith, e)

probe-some :
    (probe : ℕ → Option ℕ) (count needed i retry available token : ℕ)
    → probe i ≡ some token
    → get_tx_buffer_num token count < needed
    → probe_credits probe count needed i (suc retry) available
      ≡ probe_credits probe count needed (i + 1) retry (get_tx_buffer_num token count)
unfolding probe_credits
probe-some probe count needed i retry available token e h = ground (arith, e)

probe_ends :
    (probe : ℕ → Option ℕ) (count needed i retry available token : ℕ)
    → probe i ≡ some token
    → needed ≤ get_tx_buffer_num token count
    → probe_credits probe count needed i (suc retry) available
      ≡ (suc retry, get_tx_buffer_num token count)
unfolding probe_credits
probe_ends probe count needed i retry available token e h = ground (arith, e)

module _ (used granted' needed : ℕ) (probe : ℕ → Option ℕ) (seen : ℕ → ℕ) where
  IsCovered : ℕ × ℕ → Type 0
  IsCovered r = (r.1 + used ≤ granted') × ((r.0 ≡ 0) ⊎ (needed ≤ r.1))

  probe_credits-IsCovered :
      (i retry available : ℕ)
      → ((j : ℕ) → IsAnswer (seen j) (probe j) × ((used ≤ seen j) × (seen j ≤ granted')))
      → granted' < used + 4096
      → available + used ≤ granted'
      → available < needed
      → IsCovered (probe_credits probe (used % 4096) needed i retry available)
  unfolding IsCovered probe_credits
  probe_credits-IsCovered i zero available a r c l = (c, inl refl)
  probe_credits-IsCovered i (suc retry) available a r c l = elim (Option-cases (probe i)) [
    | inl e ↦
        rw (probe-none probe (used % 4096) needed i retry available e l)
          (probe_credits-IsCovered (i + 1) retry available a r c l)
    | inr (token, e) ↦
        let ans : token / 65536 % 4096 ≡ seen i % 4096 = subst (IsAnswer (seen i)) e (a i).0 in
        let n : get_tx_buffer_num token (used % 4096) ≡ seen i - used =
          get_tx_buffer_num-exact token used (seen i) ans (a i).1.0 (omega (arith, (a i).1.1)) in
        elim (dec_le needed (seen i - used)) [
          | yes k ↦
              rw
                (probe_ends probe (used % 4096) needed i retry available token e (omega (arith, n)))
                (omega (arith, n, (a i).1.1, (a i).1.0), inr (omega (arith, n)))
          | no k ↦
              rw
                (probe-some probe (used % 4096) needed i retry available token e (omega (arith, n)))
                (probe_credits-IsCovered (i + 1) retry (get_tx_buffer_num token (used % 4096)) a r
                  (omega (arith, n, (a i).1.1, (a i).1.0)) (omega (arith, n)))
        ]
  ]

  -- What the test for credit leaves, for each of its answers.
  IsTested : Bool × ℕ → Type 0
  IsTested r =
      ((r.0 ≡ true) × (r.1 + needed + used ≤ granted')) ⊎ ((r.0 ≡ false) × (r.1 + used ≤ granted'))

  test-enough :
      (available : ℕ)
      → needed ≤ available
      → is_sdio_write_buffer_available probe (used % 4096) needed available
        ≡ (true, available - needed)
  unfolding is_sdio_write_buffer_available
  test-enough available h = ground arith

  test-probes :
      (available n m : ℕ)
      → available < needed
      → probe_credits probe (used % 4096) needed 0 max_write_retries available ≡ (n, m)
      → is_sdio_write_buffer_available probe (used % 4096) needed available
        ≡ (not (n == 0), if leb needed m then m - needed else m)
  unfolding is_sdio_write_buffer_available
  test-probes available n m h e = ground (arith, e)

  tested :
      (n m : ℕ)
      → m + used ≤ granted'
      → (n ≡ 0) ⊎ (needed ≤ m)
      → IsTested (not (n == 0), if leb needed m then m - needed else m)
  unfolding IsTested
  tested n m c d = ground arith

  test-IsTested :
      (available : ℕ)
      → ((j : ℕ) → IsAnswer (seen j) (probe j) × ((used ≤ seen j) × (seen j ≤ granted')))
      → granted' < used + 4096
      → available + used ≤ granted'
      → IsTested (is_sdio_write_buffer_available probe (used % 4096) needed available)
  unfolding IsTested IsCovered
  test-IsTested available a r c = elim (dec_le needed available) [
    | yes k ↦ rw (test-enough available k) (inl (refl, omega arith))
    | no k ↦
        let v : IsCovered (probe_credits probe (used % 4096) needed 0 max_write_retries available) =
          probe_credits-IsCovered 0 max_write_retries available a r c (omega arith) in
        rw (test-probes available _ _ (omega arith) refl) (tested _ _ v.0 v.1)
  ]

try_send-tested :
    (probe : ℕ → Option ℕ) (bus b : Bool) (needed m : ℕ) (c : Credits)
    → is_sdio_write_buffer_available probe c.tx_buffer_count needed c.buf_available ≡ (b, m)
    → try_send probe bus needed c ≡ (
      b && bus,
      record {
        tx_buffer_count =
            if b && bus then (c.tx_buffer_count + needed) % 4096 else c.tx_buffer_count;
        buf_available = m;
      },
    )
unfolding try_send
try_send-tested probe bus b needed m c e = ground (arith, e)

after-IsSafe :
    (l : Link) (granted' needed m : ℕ) (b bus : Bool) (probe : ℕ → Option ℕ) (seen : ℕ → ℕ)
    → IsSafe l
    → l.granted ≤ granted'
    → granted' < l.used + 4096
    → IsTested l.used granted' needed probe seen (b, m)
    → IsSafe (record {
      granted = granted';
      used = if b && bus then l.used + needed else l.used;
      credits = record {
        tx_buffer_count =
            if b && bus
            then (l.credits.tx_buffer_count + needed) % 4096
            else l.credits.tx_buffer_count;
        buf_available = m;
      };
    })
unfolding IsTested
after-IsSafe l granted' needed m b bus probe seen v up near t = ground arith

Step-IsSafe : {l m : Link} → Step l m → IsSafe l → IsSafe m
Step-IsSafe {l} (sends needed granted' probe seen bus up near a) v =
    let r =
      is_sdio_write_buffer_available probe l.credits.tx_buffer_count needed
        l.credits.buf_available in
    let t : IsTested l.used granted' needed probe seen r =
      subst
        (λ k.
          IsTested l.used granted' needed probe seen
            (is_sdio_write_buffer_available probe k needed l.credits.buf_available))
        (sym v.counts)
        (test-IsTested l.used granted' needed probe seen l.credits.buf_available
          (λ j. ((a j).0, (omega (arith, (a j).1.0, v.covered), (a j).1.1))) near
          (omega (arith, v.covered))) in
    rw (try_send-tested probe bus r.0 needed r.1 l.credits refl)
      (after-IsSafe l granted' needed r.1 r.0 bus probe seen v up near t)

-- Whatever the coprocessor grants meanwhile, however often its register cannot be read, and whether
-- or not a transfer fails, the host has never used more receive buffers than were granted, and its
-- wrapping count agrees with the true one, as long as less than 4096 are outstanding.
pub Reach-IsSafe : {l m : Link} → Reach l m → IsSafe l → IsSafe m
Reach-IsSafe here v = v
Reach-IsSafe (next r s) v = Step-IsSafe s (Reach-IsSafe r v)
