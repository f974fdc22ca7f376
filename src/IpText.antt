-- ===== src/IpText.antt =====
-- esp_hosted_fg/host/stm32/common/util.c: `ipv4_addr_aton`, `ipv4_addr_ntoa` and
-- `get_ipaddr_from_str`. A text is the list of its characters, with '\0' behind its end; `u_long`
-- has 32 bits and the processor is little-endian.
pub mod Number
pub mod Print
pub mod RoundTrip
use esp_hosted.Prelude.{
  ℕ, zero, suc, ◌+◌, ◌-◌, ◌*◌, ◌/◌, ◌%◌, Bool, true, false, List, [], ◌∷◌, ◌++◌, Option, none, some,
  ltb, leb, ◌==◌, ◌&&◌, ◌||◌, not, length, take, if◌then◌else◌,
}
use esp_hosted.Arp.{hton_long, bytes_long}
use esp_hosted.Router.{is_digit}

abbrev is_lower : ℕ → Bool
is_lower c = leb 97 c && leb c 122

-- A letter of a hexadecimal number; digits are looked for before it.
abbrev is_hex_letter : ℕ → Bool
is_hex_letter c = (leb 97 c && leb c 102) || (leb 65 c && leb c 70)

abbrev is_space : ℕ → Bool
is_space c = (leb 9 c && leb c 13) || (c == 32)

-- `*cp`
abbrev pub peek : List ℕ → ℕ
peek [] = 0
peek (c ∷ cs) = c

abbrev step_over : List ℕ → List ℕ
step_over [] = []
step_over (c ∷ cs) = cs

-- The base behind a leading zero, and where the number begins.
abbrev base_after_zero : List ℕ → ℕ × List ℕ
base_after_zero cs = if (peek cs == 120) || (peek cs == 88) then (16, step_over cs) else (8, cs)

abbrev pub base_of : List ℕ → ℕ × List ℕ
base_of cs = if peek cs == 48 then base_after_zero (step_over cs) else (10, cs)

-- `while ((c = *cp) != '\0')`: the value, and the text behind the number.
unfoldable pub collect : ℕ → ℕ → List ℕ → ℕ × List ℕ
collect base val [] = (val, [])
collect base val (c ∷ cs) =
    let digit = collect base ((val * base + (c - 48)) % 4294967296) cs in
    let letter =
      collect base ((val * 16 + (c + 10 - (if is_lower c then 97 else 65))) % 4294967296) cs in
    if is_digit c then digit else if (base == 16) && is_hex_letter c then letter else (val, c ∷ cs)

-- The number at the beginning of a text.
abbrev pub number : List ℕ → ℕ × List ℕ
number cs = let b = base_of cs in collect b.0 0 b.1

-- `for (;;)`, with the number of parts that may still be stored: the last value, the parts before it
-- and the rest of the text.
unfoldable pub dotted : ℕ → List ℕ → List ℕ → Option (ℕ × List ℕ × List ℕ)
dotted zero parts cs =
    if peek (number cs).1 == 46 then none else some ((number cs).0, parts, (number cs).1)
dotted (suc room) parts cs =
    let rest = dotted room (parts ++ ((number cs).0 ∷ [])) (step_over (number cs).1) in
    if peek (number cs).1 == 46
    then if ltb 255 (number cs).0 then none else rest
    else some ((number cs).0, parts, (number cs).1)

-- `switch (n)`; the parts stand in bits that the last value does not have.
unfoldable pub concoct : List ℕ → ℕ → Option ℕ
concoct [] val = some val
concoct (a ∷ []) val = if ltb 16777215 val then none else some (val + a * 16777216)
concoct (a ∷ b ∷ []) val = if ltb 65535 val then none else some (val + a * 16777216 + b * 65536)
concoct (a ∷ b ∷ c ∷ []) val =
    if ltb 255 val then none else some (val + a * 16777216 + b * 65536 + c * 256)
concoct (a ∷ b ∷ c ∷ d ∷ more) val = some val

-- What follows the loop.
abbrev pub concoct_checked : Option (ℕ × List ℕ × List ℕ) → Option ℕ
concoct_checked none = none
concoct_checked (some (val, parts, rest)) =
    if not (peek rest == 0) && not (is_space (peek rest)) then none else concoct parts val

-- `hton_long`, or `ntoh_long`, of a result
abbrev pub swapped : Option ℕ → Option ℕ
swapped none = none
swapped (some val) = some (hton_long val)

-- `ipv4_addr_aton`: none is the result 0.
unfoldable pub ipv4_addr_aton : List ℕ → Option ℕ
ipv4_addr_aton cp = swapped (concoct_checked (dotted 3 [] cp))

-- `get_ipaddr_from_str`: none is STM_FAIL.
unfoldable pub get_ipaddr_from_str : List ℕ → Option ℕ
get_ipaddr_from_str ip_s = swapped (ipv4_addr_aton ip_s)

-- `do ... while (*ap)`: the digits, the last first, on fuel; three are enough for a byte.
unfoldable pub inv_digits : ℕ → ℕ → List ℕ
inv_digits zero ap = []
inv_digits (suc fuel) ap =
    let rest = inv_digits fuel (ap / 10) in (48 + ap % 10) ∷ (if ap / 10 == 0 then [] else rest)

-- `if (len++ >= buflen) return NULL; *rp++ = ...`
unfoldable pub put_char : ℕ → ℕ → Option (List ℕ) → Option (List ℕ)
put_char buflen c none = none
put_char buflen c (some buf) = if leb buflen (length buf) then none else some (buf ++ (c ∷ []))

-- `while (i--)`
abbrev pub put_digits : ℕ → List ℕ → Option (List ℕ) → Option (List ℕ)
put_digits buflen [] buf = buf
put_digits buflen (c ∷ inv) buf = put_char buflen c (put_digits buflen inv buf)

-- A round of `for (n = 0; n < 4; n++)`.
abbrev pub put_byte : ℕ → ℕ → Option (List ℕ) → Option (List ℕ)
put_byte buflen ap buf = put_char buflen 46 (put_digits buflen (inv_digits 3 ap) buf)

abbrev pub put_bytes : ℕ → List ℕ → Option (List ℕ) → Option (List ℕ)
put_bytes buflen [] buf = buf
put_bytes buflen (b ∷ bs) buf = put_bytes buflen bs (put_byte buflen b buf)

-- `*--rp = 0`: the text without its last dot.
abbrev pub end_text : Option (List ℕ) → Option (List ℕ)
end_text none = none
end_text (some buf) = some (take (length buf - 1) buf)

-- `ipv4_addr_ntoa`: none is NULL.
unfoldable pub ipv4_addr_ntoa : ℕ → ℕ → Option (List ℕ)
ipv4_addr_ntoa addr buflen = end_text (put_bytes buflen (bytes_long (hton_long addr)) (some []))
