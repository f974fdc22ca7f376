-- ===== src/Tests/Ring.antt =====
-- The ring buffer of four bytes, and data that goes around its end.
use esp_hosted.Prelude.{◌≡◌, refl, List, [], ◌∷◌, some, arith}
use esp_hosted.Fifo
use esp_hosted.Fifo.{Op, write, read}
use esp_hosted.Ring.{Rb, init}
use esp_hosted.Ring.Segments.{IsValid}
use esp_hosted.Ring.Refine.{run, run_refines}

-- It holds 40 and 10: the data goes around the end.
abbrev pub around : Rb
around = record { buf = 10 ∷ 20 ∷ 30 ∷ 40 ∷ []; size = 4; rp = 3; wp = 1 }

pub around-IsValid : IsValid around
around-IsValid = record {
  storage = refl;
  small = omega arith;
  rp_in = omega arith;
  wp_in = omega arith;
}

abbrev calls : List Op
calls = write (7 ∷ 8 ∷ 9 ∷ []) ∷ read 2 ∷ read 5 ∷ read 1 ∷ []

run_refines_example : run around calls ≡ Fifo.run 3 (40 ∷ 10 ∷ []) calls
run_refines_example = run_refines calls around around-IsValid

abbrev fresh : Rb
fresh = record { buf = 5 ∷ 6 ∷ []; size = 2; rp = 0; wp = 0 }

fresh_lem : init (some (5 ∷ 6 ∷ [])) 2 ≡ some fresh
unfolding init
fresh_lem = refl
