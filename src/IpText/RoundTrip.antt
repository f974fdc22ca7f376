-- ===== src/IpText/RoundTrip.antt =====
-- Printing and reading an address, esp_hosted_fg/host/stm32/common/util.c.
use esp_hosted.Prelude.{
  ℕ, suc, ◌+◌, ◌*◌, ◌/◌, ◌%◌, ◌≤◌, ◌<◌, ◌≡◌, refl, sym, ap, ◌∙◌, List, [], ◌∷◌, ◌++◌, Option, none,
  some, ltb, length, length-append, append_assoc, append-nil, if◌then◌else◌, arith, take,
  take-length-append,
}
use esp_hosted.Arp.{hton_long}
use esp_hosted.Arp.Reply.{Ip, IsIp, ip_number, ip_bytes, bytes_of_ip}
use esp_hosted.IpText.{
  swapped, number, dotted, concoct, concoct_checked, ipv4_addr_aton, get_ipaddr_from_str, put_bytes,
  put_byte, end_text, ipv4_addr_ntoa,
}
use esp_hosted.IpText.Number.{decimal, end-IsStop, dot-IsStop, number-decimal}
use esp_hosted.IpText.Print.{put_byte-decimal, length-decimal}

-- Four decimal numbers between dots.
abbrev pub dotted_text : Ip → List ℕ
dotted_text a =
    decimal a.i0 ++ (46 ∷ (decimal a.i1 ++ (46 ∷ (decimal a.i2 ++ (46 ∷ decimal a.i3)))))

dotted_more :
    (room v : ℕ) (parts cs r : List ℕ)
    → number cs ≡ (v, 46 ∷ r)
    → v < 256
    → dotted (suc room) parts cs ≡ dotted room (parts ++ (v ∷ [])) r
unfolding dotted
dotted_more room v parts cs r e h = rw e (small (dotted room (parts ++ (v ∷ [])) r) h)
  where
    small : (y : Option (ℕ × List ℕ × List ℕ)) → v < 256 → (if ltb 255 v then none else y) ≡ y
    small y h = ground (arith, h)

dotted_end :
    (v : ℕ) (parts cs : List ℕ) → number cs ≡ (v, []) → dotted 0 parts cs ≡ some (v, parts, [])
unfolding dotted
dotted_end v parts cs e = rw e refl

module _ (a : Ip) (v : IsIp a) where
  dotted-text : dotted 3 [] (dotted_text a) ≡ some (a.i3, a.i0 ∷ a.i1 ∷ a.i2 ∷ [], [])
  dotted-text =
      dotted_more 2 a.i0 [] (dotted_text a)
        (decimal a.i1 ++ (46 ∷ (decimal a.i2 ++ (46 ∷ decimal a.i3))))
        (number-decimal a.i0 (46 ∷ (decimal a.i1 ++ (46 ∷ (decimal a.i2 ++ (46 ∷ decimal a.i3)))))
          v.b0 (dot-IsStop (decimal a.i1 ++ (46 ∷ (decimal a.i2 ++ (46 ∷ decimal a.i3))))))
        v.b0
      ∙ dotted_more 1 a.i1 (a.i0 ∷ [])
          (decimal a.i1 ++ (46 ∷ (decimal a.i2 ++ (46 ∷ decimal a.i3))))
          (decimal a.i2 ++ (46 ∷ decimal a.i3))
          (number-decimal a.i1 (46 ∷ (decimal a.i2 ++ (46 ∷ decimal a.i3))) v.b1
            (dot-IsStop (decimal a.i2 ++ (46 ∷ decimal a.i3))))
          v.b1
      ∙ dotted_more 0 a.i2 (a.i0 ∷ a.i1 ∷ []) (decimal a.i2 ++ (46 ∷ decimal a.i3)) (decimal a.i3)
          (number-decimal a.i2 (46 ∷ decimal a.i3) v.b2 (dot-IsStop (decimal a.i3))) v.b2
      ∙ dotted_end a.i3 (a.i0 ∷ a.i1 ∷ a.i2 ∷ []) (decimal a.i3)
          (ap number (sym (append-nil (decimal a.i3))) ∙ number-decimal a.i3 [] v.b3 end-IsStop)

  concoct-ip : concoct (a.i0 ∷ a.i1 ∷ a.i2 ∷ []) a.i3 ≡ some (ip_number a)
  unfolding concoct
  concoct-ip = whole (a.i3 + a.i0 * 16777216 + a.i1 * 65536 + a.i2 * 256) ∙ ap some (omega arith)
    where
      whole : (n : ℕ) → (if ltb 255 a.i3 then none else some n) ≡ some n
      whole n = ground (arith, v.b3)

  -- The text of an address is read as the address, in network order.
  pub ipv4_addr_aton-text : ipv4_addr_aton (dotted_text a) ≡ some (hton_long (ip_number a))
  unfolding ipv4_addr_aton
  ipv4_addr_aton-text = ap (λ t. swapped (concoct_checked t)) dotted-text ∙ ap swapped concoct-ip

  hton_twice : hton_long (hton_long (ip_number a)) ≡ ip_number a
  unfolding hton_long
  hton_twice = omega (arith, v.b0, v.b1, v.b2, v.b3)

  get_ipaddr-text : get_ipaddr_from_str (dotted_text a) ≡ some (ip_number a)
  unfolding get_ipaddr_from_str
  get_ipaddr-text = ap swapped ipv4_addr_aton-text ∙ ap some hton_twice

end_text-dot : (t : List ℕ) → end_text (some (t ++ (46 ∷ []))) ≡ some t
end_text-dot t =
    ap (λ n. some (take n (t ++ (46 ∷ [])))) (omega (arith, length-append t (46 ∷ [])))
    ∙ ap some (take-length-append t (46 ∷ []))

short : (t : List ℕ) (b : ℕ) → length (t ++ (decimal b ++ (46 ∷ []))) ≤ length t + 4
short t b = omega (
  arith,
  length-append t (decimal b ++ (46 ∷ [])),
  length-append (decimal b) (46 ∷ []),
  (length-decimal b).1,
)

module _ (a : Ip) (v : IsIp a) (buflen : ℕ) (r : 16 ≤ buflen) where
  abbrev one_byte : List ℕ
  one_byte = decimal a.i0 ++ (46 ∷ [])

  abbrev two_bytes : List ℕ
  two_bytes = one_byte ++ (decimal a.i1 ++ (46 ∷ []))

  abbrev three_bytes : List ℕ
  three_bytes = two_bytes ++ (decimal a.i2 ++ (46 ∷ []))

  put_all :
      put_bytes buflen (ip_bytes a) (some []) ≡ some (three_bytes ++ (decimal a.i3 ++ (46 ∷ [])))
  put_all =
      ap (λ t. put_byte buflen a.i3 (put_byte buflen a.i2 (put_byte buflen a.i1 t)))
        (put_byte-decimal buflen a.i0 [] v.b0 (omega (arith, r)))
      ∙ ap (λ t. put_byte buflen a.i3 (put_byte buflen a.i2 t))
          (put_byte-decimal buflen a.i1 one_byte v.b1 (omega (arith, r, short [] a.i0)))
      ∙ ap (λ t. put_byte buflen a.i3 t)
          (put_byte-decimal buflen a.i2 two_bytes v.b2
            (omega (arith, r, short [] a.i0, short one_byte a.i1)))
      ∙ put_byte-decimal buflen a.i3 three_bytes v.b3
          (omega (arith, r, short [] a.i0, short one_byte a.i1, short two_bytes a.i2))

  regroup : three_bytes ++ (decimal a.i3 ++ (46 ∷ [])) ≡ dotted_text a ++ (46 ∷ [])
  regroup = simp (append_assoc)

  ntoa-text : ipv4_addr_ntoa (ip_number a) buflen ≡ some (dotted_text a)
  unfolding ipv4_addr_ntoa
  ntoa-text =
      ap (λ bs. end_text (put_bytes buflen bs (some []))) (bytes_of_ip a v)
      ∙ ap end_text put_all
      ∙ ap (λ t. end_text (some t)) regroup
      ∙ end_text-dot (dotted_text a)

-- The octets of a number.
abbrev pub octets : ℕ → Ip
octets x = record { i0 = x / 16777216; i1 = x / 65536 % 256; i2 = x / 256 % 256; i3 = x % 256 }

octets-IsIp : (x : ℕ) → x < 4294967296 → IsIp (octets x)
octets-IsIp x h = record {
  b0 = omega (arith, h);
  b1 = omega (arith, h);
  b2 = omega (arith, h);
  b3 = omega (arith, h);
}

ip_number-octets : (x : ℕ) → ip_number (octets x) ≡ x
ip_number-octets x = omega arith

-- Every 32-bit address is printed into a buffer of 16 bytes or more, as four decimal numbers
-- between dots, and get_ipaddr_from_str reads the same address from the text.
pub print_then_read :
    (addr buflen : ℕ)
    → addr < 4294967296
    → 16 ≤ buflen
    → (text : List ℕ) × (ipv4_addr_ntoa addr buflen ≡ some text)
      × (text ≡ dotted_text (octets addr))
      × (get_ipaddr_from_str text ≡ some addr)
print_then_read addr buflen h r = (
  dotted_text (octets addr),
  ap (λ x. ipv4_addr_ntoa x buflen) (sym (ip_number-octets addr))
      ∙ ntoa-text (octets addr) (octets-IsIp addr h) buflen r,
  refl,
  get_ipaddr-text (octets addr) (octets-IsIp addr h) ∙ ap some (ip_number-octets addr),
)

abbrev pub reversed : Ip → Ip
reversed a = record { i0 = a.i3; i1 = a.i2; i2 = a.i1; i3 = a.i0 }

-- ipv4_addr_aton reads an address in network order, and ipv4_addr_ntoa prints what it gets in the
-- order of the processor: the text of an address that is read by the one and printed by the other
-- has its four numbers in the opposite order.
pub ipv4_addr_ntoa-aton :
    (a : Ip) (buflen : ℕ)
    → IsIp a
    → 16 ≤ buflen
    → (nw : ℕ) × (ipv4_addr_aton (dotted_text a) ≡ some nw)
      × (ipv4_addr_ntoa nw buflen ≡ some (dotted_text (reversed a)))
unfolding hton_long
ipv4_addr_ntoa-aton a buflen v r = (
  hton_long (ip_number a),
  ipv4_addr_aton-text a v,
  ap (λ x. ipv4_addr_ntoa x buflen) (hton_long-ip a v)
      ∙ ntoa-text (reversed a) (record { b0 = v.b3; b1 = v.b2; b2 = v.b1; b3 = v.b0 }) buflen r,
)
  where
    hton_long-ip : (a : Ip) → IsIp a → hton_long (ip_number a) ≡ ip_number (reversed a)
    hton_long-ip a v = omega (arith, v.b0, v.b1, v.b2, v.b3)
