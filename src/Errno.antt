-- ===== src/Errno.antt =====
-- What a driver function of the Linux host returns: a count, or a negative errno.
use esp_hosted.Prelude.{ℕ, Bool, true, ◌==◌}

pub data Errno : Type 0 where
  eagain erestartsys efault einval enodev ebusy enomem : Errno

pub data Ret : Type 0 where
  done : ℕ → Ret
  fail : Errno → Ret

-- `ret <= 0`
abbrev stops : Ret → Bool
stops (done n) = n == 0
stops (fail e) = true
