-- ===== src/Router/Ports.antt =====
-- The parser of the list of reserved ports.
use esp_hosted.Prelude.{
  ℕ, zero, suc, ◌+◌, ◌%◌, ◌≤◌, ◌<◌, ◌≡◌, refl, sym, ap, ◌∙◌, true, false, not, List, [], ◌∷◌, ◌++◌,
  append-nil, append_assoc, length, length-append, length-take, take, leb, ◌==◌, ◌&&◌,
  if◌then◌else◌, Bool-cases, inl, inr, arith, if_elim,
}
use esp_hosted.Router.{
  PortTable, max_ports, is_digit, atoi, atoi_from, push_digit, parse_ports, init_allowed_ports,
}

length-snoc : (xs : List ℕ) (x : ℕ) → length (xs ++ x ∷ []) ≡ suc (length xs)
length-snoc xs x = omega (arith, length-append xs (x ∷ []))

-- The array of ten ports is never written behind its end, whatever the string holds.
length-parse_ports :
    (str buf ports : List ℕ)
    → length ports ≤ max_ports
    → (length ports ≡ max_ports → length buf ≡ 0)
    → length (parse_ports str buf ports) ≤ max_ports
unfolding parse_ports
length-parse_ports [] buf ports h e = ground (arith, length-snoc ports (atoi buf % 65536))
length-parse_ports (c ∷ str) buf ports h e = ground (
  arith,
  length-snoc ports (atoi buf % 65536),
  length-parse_ports str (push_digit buf c) ports h,
  length-parse_ports str [] (ports ++ (atoi buf % 65536) ∷ []),
  length-parse_ports str buf ports h e,
)

-- Every byte is a decimal digit.
abbrev AllDigits : List ℕ → Type 0
AllDigits [] = Unit
AllDigits (c ∷ cs) = (48 ≤ c) × (c ≤ 57) × AllDigits cs

abbrev pub AllBelow : ℕ → List ℕ → Type 0
AllBelow n [] = Unit
AllBelow n (x ∷ xs) = (x < n) × AllBelow n xs

AllBelow-snoc : (n : ℕ) (xs : List ℕ) (x : ℕ) → AllBelow n xs → x < n → AllBelow n (xs ++ x ∷ [])
AllBelow-snoc n [] x a h = (h, tt)
AllBelow-snoc n (y ∷ xs) x a h = (a.0, AllBelow-snoc n xs x a.1 h)

AllDigits-snoc : (xs : List ℕ) (x : ℕ) → AllDigits xs → 48 ≤ x → x ≤ 57 → AllDigits (xs ++ x ∷ [])
AllDigits-snoc [] x a h k = (h, k, tt)
AllDigits-snoc (y ∷ xs) x a h k = (a.0, a.1, AllDigits-snoc xs x a.2 h k)

AllDigits-take : (n : ℕ) (xs : List ℕ) → AllDigits xs → AllDigits (take n xs)
AllDigits-take zero xs a = tt
AllDigits-take (suc n) [] a = tt
AllDigits-take (suc n) (x ∷ xs) a = (a.0, a.1, AllDigits-take n xs a.2)

-- A number of at most four digits.
atoi-lt : (buf : List ℕ) → AllDigits buf → length buf ≤ 4 → atoi buf % 65536 < 10000
unfolding atoi_from
atoi-lt [] a h = omega arith
atoi-lt (c ∷ []) a h = omega arith
atoi-lt (c ∷ d ∷ []) a h = omega arith
atoi-lt (c ∷ d ∷ e ∷ []) a h = omega arith
atoi-lt (c ∷ d ∷ e ∷ f ∷ []) a h = omega arith
atoi-lt (c ∷ d ∷ e ∷ f ∷ g ∷ r) a h = absurd (omega arith)

push_digit-lem :
    (buf : List ℕ) (c : ℕ)
    → AllDigits buf
    → is_digit c ≡ true
    → AllDigits (push_digit buf c) × (length (push_digit buf c) ≤ 4)
unfolding push_digit
push_digit-lem buf c a h = elim (Bool-cases (leb 5 (length (buf ++ c ∷ [])))) [
  | inl e ↦ rw e (
    AllDigits-take 4 (buf ++ c ∷ []) (AllDigits-snoc buf c a (ground arith) (ground arith)),
    omega (arith, length-take 4 (buf ++ c ∷ [])),
  )
  | inr e ↦ rw e (AllDigits-snoc buf c a (ground arith) (ground arith), ground arith)
]

last_port :
    (buf ports : List ℕ)
    → AllDigits buf
    → length buf ≤ 4
    → AllBelow 10000 ports
    → AllBelow 10000 (if length buf == 0 then ports else ports ++ (atoi buf % 65536) ∷ [])
last_port buf ports d n a =
    if_elim (AllBelow 10000) (length buf == 0) ports (ports ++ (atoi buf % 65536) ∷ []) (λ e. a)
      (λ e. AllBelow-snoc 10000 ports (atoi buf % 65536) a (atoi-lt buf d n))

parse_ports-AllBelow :
    (str buf ports : List ℕ)
    → AllDigits buf
    → length buf ≤ 4
    → AllBelow 10000 ports
    → AllBelow 10000 (parse_ports str buf ports)
unfolding parse_ports
parse_ports-AllBelow [] buf ports d n a = last_port buf ports d n a
parse_ports-AllBelow (c ∷ str) buf ports d n a =
    if_elim (AllBelow 10000) (leb max_ports (length ports)) _ _ (λ full. last_port buf ports d n a)
      (λ room.
        if_elim (AllBelow 10000) (is_digit c) _ _
          (λ digit.
            let (d', n') = push_digit-lem buf c d digit in
            parse_ports-AllBelow str (push_digit buf c) ports d' n' a)
          (λ other.
            if_elim (AllBelow 10000) (c == 44 && not (length buf == 0)) _ _
              (λ comma.
                parse_ports-AllBelow str [] (ports ++ (atoi buf % 65536) ∷ []) tt (omega arith)
                  (AllBelow-snoc 10000 ports (atoi buf % 65536) a (atoi-lt buf d n)))
              (λ skip. parse_ports-AllBelow str buf ports d n a)))

-- Whatever the string holds, at most ten ports are stored in the array of ten, and every stored port
-- is below 10000: a reserved port of five digits is never taken over as it is written.
pub init_allowed_ports-bounds :
    (str : List ℕ)
    → let t = init_allowed_ports (record { ports = []; initialized = false }) str in
      (length t.ports ≤ max_ports) × AllBelow 10000 t.ports
unfolding init_allowed_ports
init_allowed_ports-bounds [] = (omega arith, tt)
init_allowed_ports-bounds (c ∷ str) = (
  length-parse_ports (c ∷ str) [] [] (omega arith) (λ e. omega arith),
  parse_ports-AllBelow (c ∷ str) [] [] tt (omega arith) tt,
)

-- Once the ports of a kind are initialized, a further configuration changes nothing.
init_allowed_ports_once :
    (t : PortTable) (str : List ℕ) → t.initialized ≡ true → init_allowed_ports t str ≡ t
unfolding init_allowed_ports
init_allowed_ports_once t [] e = rw e refl
init_allowed_ports_once t (c ∷ str) e = rw e refl

-- The digits of one port, one to four of them.
abbrev IsShort : List ℕ → Type 0
IsShort d = AllDigits d × (0 < length d) × (length d ≤ 4)

abbrev pub AllShort : List (List ℕ) → Type 0
AllShort [] = Unit
AllShort (d ∷ ds) = IsShort d × AllShort ds

-- The ports written one behind the other, with a comma between them.
abbrev pub comma_list : List (List ℕ) → List ℕ
comma_list [] = []
comma_list (d ∷ []) = d
comma_list (d ∷ e ∷ ds) = d ++ 44 ∷ comma_list (e ∷ ds)

abbrev pub ports_of : List (List ℕ) → List ℕ
ports_of [] = []
ports_of (d ∷ ds) = (atoi d % 65536) ∷ ports_of ds

one_digit :
    (c : ℕ) (str buf ports : List ℕ)
    → 48 ≤ c
    → c ≤ 57
    → length buf < 4
    → length ports < max_ports
    → parse_ports (c ∷ str) buf ports ≡ parse_ports str (buf ++ c ∷ []) ports
unfolding parse_ports push_digit
one_digit c str buf ports lo hi n room = ground (arith, length-snoc buf c)

-- Digits that fit the buffer are put into it.
step_digits :
    (d rest buf ports : List ℕ)
    → AllDigits d
    → length buf + length d ≤ 4
    → length ports < max_ports
    → parse_ports (d ++ rest) buf ports ≡ parse_ports rest (buf ++ d) ports
step_digits [] rest buf ports a n room = ap (λ b. parse_ports rest b ports) (sym (append-nil buf))
step_digits (c ∷ d) rest buf ports a n room =
    one_digit c (d ++ rest) buf ports a.0 a.1 (omega arith) room
    ∙ step_digits d rest (buf ++ c ∷ []) ports a.2 (omega (arith, length-snoc buf c)) room
    ∙ ap (λ b. parse_ports rest b ports) (append_assoc buf (c ∷ []) d)

step_comma :
    (str buf ports : List ℕ)
    → 0 < length buf
    → length ports < max_ports
    → parse_ports (44 ∷ str) buf ports ≡ parse_ports str [] (ports ++ (atoi buf % 65536) ∷ [])
unfolding parse_ports
step_comma str buf ports n room = ground arith

parse_nothing : (ports : List ℕ) → parse_ports [] [] ports ≡ ports
unfolding parse_ports
parse_nothing ports = refl

parse_end :
    (buf ports : List ℕ)
    → 0 < length buf
    → parse_ports [] buf ports ≡ ports ++ (atoi buf % 65536) ∷ []
unfolding parse_ports
parse_end buf ports h = ground arith

pub comma_list-pos : (ds : List (List ℕ)) → AllShort ds → 0 < length ds → 0 < length (comma_list ds)
comma_list-pos [] a h = absurd (omega arith)
comma_list-pos (d ∷ []) a h = a.0.1
comma_list-pos (d ∷ e ∷ ds) a h = omega (arith, a.0.1, length-append d (44 ∷ comma_list (e ∷ ds)))

init_nonempty :
    (str : List ℕ)
    → 0 < length str
    → init_allowed_ports (record { ports = []; initialized = false }) str
      ≡ record { ports = parse_ports str [] []; initialized = true }
unfolding init_allowed_ports
init_nonempty [] h = absurd (omega arith)
init_nonempty (c ∷ str) h = refl

parse_comma_list :
    (ds : List (List ℕ)) (ports : List ℕ)
    → AllShort ds
    → length ports + length ds ≤ max_ports
    → parse_ports (comma_list ds) [] ports ≡ ports ++ ports_of ds
parse_comma_list [] ports a n = parse_nothing ports ∙ sym (append-nil ports)
parse_comma_list (d ∷ []) ports a n =
    ap (λ s. parse_ports s [] ports) (sym (append-nil d))
    ∙ step_digits d [] [] ports a.0.0 (omega (arith, a.0.2)) (omega arith)
    ∙ parse_end d ports a.0.1
parse_comma_list (d ∷ e ∷ ds) ports a n =
    step_digits d (44 ∷ comma_list (e ∷ ds)) [] ports a.0.0 (omega (arith, a.0.2)) (omega arith)
    ∙ step_comma (comma_list (e ∷ ds)) d ports a.0.1 (omega arith)
    ∙ parse_comma_list (e ∷ ds) (ports ++ (atoi d % 65536) ∷ []) a.1
        (omega (arith, length-snoc ports (atoi d % 65536)))
    ∙ append_assoc ports ((atoi d % 65536) ∷ []) (ports_of (e ∷ ds))

-- A string of at most ten ports of one to four digits each, separated by commas, is stored as these
-- ports in their order.
pub init_allowed_ports-comma_list :
    (ds : List (List ℕ))
    → AllShort ds
    → 0 < length ds
    → length ds ≤ max_ports
    → init_allowed_ports (record { ports = []; initialized = false }) (comma_list ds)
      ≡ record { ports = ports_of ds; initialized = true }
init_allowed_ports-comma_list ds a pos n =
    init_nonempty (comma_list ds) (comma_list-pos ds a pos)
    ∙ ap (λ ps. record { ports = ps; initialized = true }) (parse_comma_list ds [] a (omega arith))
