-- ===== src/IpText/Print.antt =====
-- What a round of `ipv4_addr_ntoa` in esp_hosted_fg/host/stm32/common/util.c adds to the text.
use esp_hosted.Prelude.{
  ℕ, suc, ◌+◌, ◌/◌, ◌%◌, ◌≤◌, ◌<◌, ◌≡◌, refl, sym, ap, ◌∙◌, List, [], ◌∷◌, ◌++◌, some, length,
  length-append, append_assoc, arith, append-nil,
}
use esp_hosted.IpText.{inv_digits, put_char, put_digits, put_byte}
use esp_hosted.IpText.Number.{decimal, decimal_cases}

inv_last : (fuel v : ℕ) → v < 10 → inv_digits (suc fuel) v ≡ (48 + v) ∷ []
unfolding inv_digits
inv_last fuel v h = ground (arith, h)

inv_more :
    (fuel v : ℕ) → 10 ≤ v → inv_digits (suc fuel) v ≡ (48 + v % 10) ∷ inv_digits fuel (v / 10)
unfolding inv_digits
inv_more fuel v h = ground (arith, h)

put_room :
    (buflen c : ℕ) (buf : List ℕ)
    → length buf < buflen
    → put_char buflen c (some buf) ≡ some (buf ++ (c ∷ []))
unfolding put_char
put_room buflen c buf h = ground (arith, h)

abbrev rev : List ℕ → List ℕ
rev [] = []
rev (c ∷ cs) = rev cs ++ (c ∷ [])

length-rev : (cs : List ℕ) → length (rev cs) ≡ length cs
length-rev [] = refl
length-rev (c ∷ cs) = omega (arith, length-rev cs, length-append (rev cs) (c ∷ []))

put_digits-rev :
    (buflen : ℕ) (inv buf : List ℕ)
    → length buf + length inv ≤ buflen
    → put_digits buflen inv (some buf) ≡ some (buf ++ rev inv)
put_digits-rev buflen [] buf h = ap some (sym (append-nil buf))
put_digits-rev buflen (c ∷ inv) buf h =
    ap (put_char buflen c) (put_digits-rev buflen inv buf (omega (arith, h)))
    ∙ put_room buflen c (buf ++ rev inv)
        (omega (arith, h, length-append buf (rev inv), length-rev inv))
    ∙ ap some (append_assoc buf (rev inv) (c ∷ []))

put_inv :
    (buflen b : ℕ) (inv buf : List ℕ)
    → inv_digits 3 b ≡ inv
    → length buf + length inv < buflen
    → put_byte buflen b (some buf) ≡ some (buf ++ (rev inv ++ (46 ∷ [])))
put_inv buflen b inv buf e h =
    ap (λ i. put_char buflen 46 (put_digits buflen i (some buf))) e
    ∙ put_digits-rev buflen (46 ∷ inv) buf (omega (arith, h))

-- A byte and a dot behind the text, when there is room for four characters.
pub put_byte-decimal :
    (buflen b : ℕ) (buf : List ℕ)
    → b < 256
    → length buf + 4 ≤ buflen
    → put_byte buflen b (some buf) ≡ some (buf ++ (decimal b ++ (46 ∷ [])))
put_byte-decimal buflen b buf h r =
    decimal_cases (λ t. put_byte buflen b (some buf) ≡ some (buf ++ (t ++ (46 ∷ [])))) b
      (λ k. put_inv buflen b ((48 + b) ∷ []) buf (inv_last 2 b k) (omega (arith, r)))
      (λ k l.
        put_inv buflen b ((48 + b % 10) ∷ (48 + b / 10) ∷ []) buf (two k l) (omega (arith, r)))
      (λ k.
        put_inv buflen b ((48 + b % 10) ∷ (48 + b / 10 % 10) ∷ (48 + b / 100) ∷ []) buf (three k)
          (omega (arith, r)))
  where
    two : 10 ≤ b → b < 100 → inv_digits 3 b ≡ (48 + b % 10) ∷ (48 + b / 10) ∷ []
    two k l = inv_more 2 b k ∙ ap (λ t. (48 + b % 10) ∷ t) (inv_last 1 (b / 10) (omega (arith, l)))

    hundreds : b / 10 / 10 ≡ b / 100
    hundreds = omega arith

    three : 100 ≤ b → inv_digits 3 b ≡ (48 + b % 10) ∷ (48 + b / 10 % 10) ∷ (48 + b / 100) ∷ []
    three k =
        inv_more 2 b (omega (arith, k))
        ∙ ap (λ t. (48 + b % 10) ∷ t)
            (inv_more 1 (b / 10) (omega (arith, k))
              ∙ ap (λ t. (48 + b / 10 % 10) ∷ t)
                  (inv_last 0 (b / 10 / 10) (omega (arith, h)) ∙ ap (λ n. (48 + n) ∷ []) hundreds))

pub length-decimal : (b : ℕ) → (0 < length (decimal b)) × (length (decimal b) ≤ 3)
length-decimal b =
    decimal_cases (λ t. (0 < length t) × (length t ≤ 3)) b (λ k. (omega arith, omega arith))
      (λ k l. (omega arith, omega arith)) (λ k. (omega arith, omega arith))
