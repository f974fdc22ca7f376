-- ===== src/IpText/Number.antt =====
-- Decimal numbers of one byte, as esp_hosted_fg/host/stm32/common/util.c prints and reads them.
use esp_hosted.Prelude.{
  ℕ, zero, suc, ◌+◌, ◌-◌, ◌*◌, ◌/◌, ◌%◌, ◌≤◌, ◌<◌, ◌≡◌, ◌≢◌, refl, sym, ap, ◌∙◌, true, List, [],
  ◌∷◌, ◌++◌, ltb, if◌then◌else◌, arith,
}
use native.Mathlib.Decide.{dec_lt}
use mathlib.Core.Path.{subst}
use esp_hosted.Router.{is_digit}
use esp_hosted.IpText.{peek, base_of, collect, number}

-- The decimal form of a byte, without leading zeros.
abbrev pub decimal : ℕ → List ℕ
decimal b =
    if ltb b 10
    then (48 + b) ∷ []
    else if ltb b 100
    then (48 + b / 10) ∷ (48 + b % 10) ∷ []
    else (48 + b / 100) ∷ (48 + b / 10 % 10) ∷ (48 + b % 10) ∷ []

-- A text at which a number ends.
pub record IsStop (r : List ℕ) : Type 0 where
  pub no_x : peek r ≢ 120
  pub no_X : peek r ≢ 88
  pub stops : (base val : ℕ) → collect base val r ≡ (val, r)

pub end-IsStop : IsStop []
unfolding collect
end-IsStop = record {
  no_x = λ e. ground (arith, e);
  no_X = λ e. ground (arith, e);
  stops = λ base val. refl;
}

pub dot-IsStop : (r : List ℕ) → IsStop (46 ∷ r)
unfolding collect
dot-IsStop r = record {
  no_x = λ e. ground (arith, e);
  no_X = λ e. ground (arith, e);
  stops = λ base val. ground arith;
}

collect_digit :
    (d v : ℕ) (cs : List ℕ)
    → d < 10
    → collect 10 v ((48 + d) ∷ cs) ≡ collect 10 ((v * 10 + d) % 4294967296) cs
unfolding collect
collect_digit d v cs h =
    ap
      (λ t. if t then collect 10 ((v * 10 + (48 + d - 48)) % 4294967296) cs else (v, (48 + d) ∷ cs))
      (digit_is d h)
    ∙ ap (λ n. collect 10 ((v * 10 + n) % 4294967296) cs) (omega arith)
  where
    digit_is : (d : ℕ) → d < 10 → is_digit (48 + d) ≡ true
    digit_is d h = ground (arith, h)

collect_last :
    (d v : ℕ) (r : List ℕ)
    → IsStop r
    → d < 10
    → collect 10 v ((48 + d) ∷ r) ≡ ((v * 10 + d) % 4294967296, r)
collect_last d v r s h = collect_digit d v r h ∙ s.stops 10 ((v * 10 + d) % 4294967296)

base_of_digit :
    (d : ℕ) (cs : List ℕ) → 0 < d → d < 10 → base_of ((48 + d) ∷ cs) ≡ (10, (48 + d) ∷ cs)
base_of_digit d cs h k = ground (arith, h)

base_of_zero : (r : List ℕ) → IsStop r → base_of (48 ∷ r) ≡ (8, r)
base_of_zero r s = ground (arith, s.no_x, s.no_X)

number_one : (d : ℕ) (r : List ℕ) → IsStop r → d < 10 → number ((48 + d) ∷ r) ≡ (d, r)
number_one zero r s h = ap (λ b. collect b.0 0 b.1) (base_of_zero r s) ∙ s.stops 8 0
number_one (suc d) r s h =
    ap (λ b. collect b.0 0 b.1) (base_of_digit (suc d) r (omega arith) h)
    ∙ collect_last (suc d) 0 r s h
    ∙ ap (λ v. (v, r)) (omega (arith, h))

number_more : (d : ℕ) (cs : List ℕ) → 0 < d → d < 10 → number ((48 + d) ∷ cs) ≡ collect 10 d cs
number_more d cs h k =
    ap (λ b. collect b.0 0 b.1) (base_of_digit d cs h k)
    ∙ collect_digit d 0 cs k
    ∙ ap (λ v. collect 10 v cs) (omega (arith, k))

-- The three lengths of the decimal form.
pub decimal_cases :
    (P : List ℕ → Type 0) (b : ℕ)
    → (b < 10 → P ((48 + b) ∷ []))
    → (10 ≤ b → b < 100 → P ((48 + b / 10) ∷ (48 + b % 10) ∷ []))
    → (100 ≤ b → P ((48 + b / 100) ∷ (48 + b / 10 % 10) ∷ (48 + b % 10) ∷ []))
    → P (decimal b)
decimal_cases P b x y z = elim (dec_lt b 10) [
  | yes h ↦ subst P (sym (one h)) (x h)
  | no h ↦ elim (dec_lt b 100) [
    | yes k ↦ subst P (sym (two h k)) (y (omega (arith, h)) k)
    | no k ↦ subst P (sym (three k)) (z (omega (arith, k)))
  ]
]
  where
    one : b < 10 → decimal b ≡ (48 + b) ∷ []
    one h = ground (arith, h)

    two : ¬ (b < 10) → b < 100 → decimal b ≡ (48 + b / 10) ∷ (48 + b % 10) ∷ []
    two h k = ground (arith, h, k)

    three : ¬ (b < 100) → decimal b ≡ (48 + b / 100) ∷ (48 + b / 10 % 10) ∷ (48 + b % 10) ∷ []
    three h = ground (arith, h)

-- The decimal form of a byte is read back, up to where it ends.
pub number-decimal : (b : ℕ) (r : List ℕ) → b < 256 → IsStop r → number (decimal b ++ r) ≡ (b, r)
number-decimal b r h s =
    decimal_cases (λ t. number (t ++ r) ≡ (b, r)) b (λ k. number_one b r s k) two three
  where
    two : 10 ≤ b → b < 100 → number ((48 + b / 10) ∷ (48 + b % 10) ∷ r) ≡ (b, r)
    two k l =
        number_more (b / 10) ((48 + b % 10) ∷ r) (omega (arith, k)) (omega (arith, l))
        ∙ collect_last (b % 10) (b / 10) r s (omega arith)
        ∙ ap (λ v. (v, r)) (omega (arith, l))

    middle : 100 ≤ b → (b / 100 * 10 + b / 10 % 10) % 4294967296 ≡ b / 10
    middle k = omega (arith, h)

    three : 100 ≤ b → number ((48 + b / 100) ∷ (48 + b / 10 % 10) ∷ (48 + b % 10) ∷ r) ≡ (b, r)
    three k =
        number_more (b / 100) ((48 + b / 10 % 10) ∷ (48 + b % 10) ∷ r) (omega (arith, k))
          (omega (arith, h))
        ∙ collect_digit (b / 10 % 10) (b / 100) ((48 + b % 10) ∷ r) (omega arith)
        ∙ ap (λ v. collect 10 v ((48 + b % 10) ∷ r)) (middle k)
        ∙ collect_last (b % 10) (b / 10) r s (omega arith)
        ∙ ap (λ v. (v, r)) (omega (arith, h))
