-- ===== src/Tlv/Overrun.antt =====
-- A length field that announces more bytes than there are.
use esp_hosted.Prelude.{ℕ, ◌+◌, ◌-◌, ◌%◌, ◌^◌, ◌<◌, ◌≡◌, refl, some, arith}
use esp_hosted.Tlv.{Parser, t_data, len_at, advance, parse_round}

-- `parse_tlv` does not compare a length with the bytes that are left. If a data block announces
-- more than there are, the round succeeds, the count of bytes left wraps to a larger value, and the
-- next round reads behind the end of the message.
pub parse_round_overrun :
    (m : ℕ → ℕ) (s : Parser) (stop : ℕ)
    → m s.pos ≡ t_data
    → stop ≡ s.pos + s.total_len
    → s.total_len < len_at m s.pos + 3
    → len_at m s.pos < 65536
    → s.total_len < 2 ^ 32
    → (s' : Parser) × (parse_round m s ≡ some s')
      × (s'.payload ≡ some (s.pos + 3, len_at m s.pos))
      × (stop < s'.pos)
      × (s.total_len < s'.total_len)
unfolding parse_round advance
parse_round_overrun m s stop t e more small room = (
  record s {
    pos = s.pos + 3 + len_at m s.pos;
    total_len = (s.total_len + 2 ^ 32 - (len_at m s.pos + 3) % 2 ^ 32) % 2 ^ 32;
    payload = some (s.pos + 3, len_at m s.pos);
  },
  ground arith,
  refl,
  omega arith,
  omega arith,
)
