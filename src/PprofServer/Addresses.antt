-- ===== src/PprofServer/Addresses.antt =====
-- IP addresses as texts: `net.ParseIP`, which is `netip.ParseAddr` without zones, and
-- `IP.IsLoopback`, for isLoopback of internal/http/pprofserver/server.go.
use Prim.Native.Char.{Char, code}
use service_courier_platform.Prelude.{
  ℕ, zero, suc, ◌+◌, ◌-◌, ◌*◌, ◌/◌, ◌≡◌, refl, String, Bool, true, false, not, ◌&&◌, ◌||◌, List, [],
  ◌∷◌, ◌++◌, length, take, drop, is_empty, Option, none, some, eqb, ltb, leb, if◌then◌else◌,
}
use service_courier_platform.Domain.{is_digit}
use service_courier_platform.Middleware.{is_char}

-- The four octets, or the eight groups.
pub data Ip : Type 0 where
  v4 v6 : List ℕ → Ip

-- The octets after those in `fields`, the last one first: `n` is what the `len` digits before make.
octets : ℕ → ℕ → List ℕ → String → Option (List ℕ)
octets n len fields String.[] =
    if eqb len 0 || not (eqb (length fields) 3) then none else some (n ∷ fields)
octets n len fields (String.◌∷◌ c s) =
    let next = n * 10 + (code c - b'0') in
    let digit = is_digit c in
    let rest =
      octets (if digit then next else 0) (if digit then suc len else 0)
        (if digit then fields else n ∷ fields) s in
    if digit
    then if (eqb len 1 && eqb n 0) || ltb 255 next then none else rest
    else if is_char b'.' c
    then if eqb len 0 || leb 3 (length fields) then none else rest
    else none

rev : List ℕ → List ℕ → List ℕ
rev [] ys = ys
rev (x ∷ xs) ys = rev xs (x ∷ ys)

in_order : Option (List ℕ) → Option (List ℕ)
unfolding rev
in_order none = none
in_order (some xs) = some (rev xs [])

-- `parseIPv4`.
parse_ipv4 : String → Option (List ℕ)
unfolding octets in_order
parse_ipv4 s = in_order (octets 0 0 [] s)

-- The value of a hexadecimal digit, where it is one.
hex_value : Char → Option ℕ
hex_value c =
    if is_digit c
    then some (code c - b'0')
    else if leb b'a' (code c) && leb (code c) b'f'
    then some (code c - b'a' + 10)
    else if leb b'A' (code c) && leb (code c) b'F'
    then some (code c - b'A' + 10)
    else none

-- The hexadecimal digits at the start: their value, their number, and the rest.
hex_run : ℕ → ℕ → String → ℕ × ℕ × String
hex_run v k String.[] = (v, k, String.[])
hex_run v k (String.◌∷◌ c s) =
    let rest = hex_run (v * 16 + elim (hex_value c) [ none ↦ 0 | some d ↦ d ]) (suc k) s in
    elim (hex_value c) [ none ↦ (v, k, String.◌∷◌ c s) | some d ↦ rest ]

-- What follows a group: nothing, a mistake, a dot, or more groups, with an ellipsis before them or
-- without one.
pub data Next : Type 0 where
  finished mistake dotted : Next
  group : Bool → String → Next

after_colon : String → Next
after_colon String.[] = mistake
after_colon (String.◌∷◌ c s) = if is_char b':' c then group true s else group false (String.◌∷◌ c s)

after_group : String → Next
unfolding after_colon
after_group String.[] = finished
after_group (String.◌∷◌ c s) =
    if is_char b'.' c then dotted else if is_char b':' c then after_colon s else mistake

zeros : ℕ → List ℕ
zeros zero = []
zeros (suc n) = 0 ∷ zeros n

-- The eight groups, from those read (the last one first) and the place of the ellipsis.
expand : List ℕ → Option ℕ → Option (List ℕ)
unfolding rev zeros
expand groups none = if eqb (length groups) 8 then some (rev groups []) else none
expand groups (some at) =
    if ltb (length groups) 8
    then some (take at (rev groups []) ++ (zeros (8 - length groups) ++ drop at (rev groups [])))
    else none

-- The two groups of an IPv4 address at the end.
embedded : List ℕ → Option ℕ → Option (List ℕ) → Option (List ℕ)
unfolding expand
embedded groups ellipsis (some (a ∷ b ∷ c ∷ d ∷ [])) =
    expand ((c * 256 + d) ∷ (a * 256 + b) ∷ groups) ellipsis
embedded groups ellipsis _ = none

no_ellipsis : Option ℕ → Bool
no_ellipsis none = true
no_ellipsis (some _) = false

-- The loop of `parseIPv6` with `left` more groups at most.
groups_from : ℕ → List ℕ → Option ℕ → String → Option (List ℕ)
unfolding hex_run hex_value after_group expand embedded no_ellipsis
groups_from zero groups ellipsis s = none
groups_from (suc left) groups ellipsis s =
    let (v, k, rest) = hex_run 0 0 s in
    if eqb k 0 || ltb 4 k then none else (elim (after_group rest) [
      | finished ↦ expand (v ∷ groups) ellipsis
      | mistake ↦ none
      | dotted ↦
          if (no_ellipsis ellipsis && not (eqb (length groups) 6)) || ltb 6 (length groups)
          then none
          else embedded groups ellipsis (parse_ipv4 s)
      | group doubled t ↦
          let place = if doubled then some (suc (length groups)) else ellipsis in
          if doubled && not (no_ellipsis ellipsis)
          then none
          else if doubled && is_empty t
          then expand (v ∷ groups) place
          else groups_from left (v ∷ groups) place t
    ])

-- `parseIPv6`, which may start with the ellipsis.
from_ellipsis : String → Option (List ℕ)
unfolding groups_from
from_ellipsis String.[] = expand [] (some 0)
from_ellipsis (String.◌∷◌ c s) = groups_from 8 [] (some 0) (String.◌∷◌ c s)

cut_ellipsis : String → Option String
cut_ellipsis (String.◌∷◌ c (String.◌∷◌ d s)) =
    if is_char b':' c && is_char b':' d then some s else none
cut_ellipsis _ = none

parse_ipv6 : String → Option (List ℕ)
unfolding groups_from from_ellipsis cut_ellipsis
parse_ipv6 s = elim (cut_ellipsis s) [ none ↦ groups_from 8 [] none s | some t ↦ from_ellipsis t ]

as_v4 : Option (List ℕ) → Option Ip
as_v4 none = none
as_v4 (some xs) = some (v4 xs)

as_v6 : Option (List ℕ) → Option Ip
as_v6 none = none
as_v6 (some xs) = some (v6 xs)

-- The first of the characters that tell the two kinds apart decides.
by_mark : String → String → Option Ip
unfolding as_v4 as_v6
by_mark whole String.[] = none
by_mark whole (String.◌∷◌ c s) =
    let rest = by_mark whole s in
    if is_char b'.' c
    then as_v4 (parse_ipv4 whole)
    else if is_char b':' c
    then as_v6 (parse_ipv6 whole)
    else if is_char b'%' c
    then none
    else rest

-- `net.ParseIP`. No text with a zone is one.
unfoldable pub parse_ip : String → Option Ip
unfolding by_mark parse_ipv4 parse_ipv6
parse_ip s = by_mark s s

-- `IP.IsLoopback`: 127.0.0.0/8, also as an IPv6 address that stands for one of IPv4, and ::1.
unfoldable pub ip_is_loopback : Ip → Bool
ip_is_loopback (v4 (a ∷ _)) = eqb a 127
ip_is_loopback (v6 (a ∷ b ∷ c ∷ d ∷ e ∷ f ∷ g ∷ h ∷ [])) =
    if eqb a 0 && (eqb b 0 && (eqb c 0 && (eqb d 0 && eqb e 0)))
    then (eqb f 0xffff && eqb (g / 256) 127) || (eqb f 0 && (eqb g 0 && eqb h 1))
    else false
ip_is_loopback _ = false

parse_ip_test :
    (parse_ip "127.0.0.1" ≡ some (v4 (127 ∷ 0 ∷ 0 ∷ 1 ∷ [])))
    × (parse_ip "127.0.0.01" ≡ none)
    × (parse_ip "1.2.3" ≡ none)
    × (parse_ip "1.2.3.256" ≡ none)
    × (parse_ip "::1" ≡ some (v6 (0 ∷ 0 ∷ 0 ∷ 0 ∷ 0 ∷ 0 ∷ 0 ∷ 1 ∷ [])))
    × (parse_ip "::ffff:127.0.0.1" ≡ some (v6 (0 ∷ 0 ∷ 0 ∷ 0 ∷ 0 ∷ 0xffff ∷ 0x7f00 ∷ 1 ∷ [])))
    × (parse_ip "1:2:3:4:5:6:7:8:" ≡ none)
    × (parse_ip "fe80::Ab:0%lo" ≡ none)
    × (parse_ip "fe80::Ab:0" ≡ some (v6 (0xfe80 ∷ 0 ∷ 0 ∷ 0 ∷ 0 ∷ 0 ∷ 0xab ∷ 0 ∷ [])))
    × (parse_ip "localhost" ≡ none)
unfolding parse_ip
parse_ip_test = (refl, refl, refl, refl, refl, refl, refl, refl, refl, refl)
