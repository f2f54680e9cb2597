-- ===== src/Cidr.antt =====
-- `net.ParseIP`, `IP.To4` and `net.ParseCIDR` of Go's library, with `none` for a failure.
pub mod Networks
use tinkerbell_hegel.Prelude.{
  ℕ, zero, suc, ◌+◌, ◌-◌, ◌*◌, ◌/◌, ◌%◌, Bool, true, false, ◌&&◌, ◌||◌, not, List, [], ◌∷◌, ◌++◌,
  Option, none, some, ◌==◌, ltb, leb, length, take, drop, if◌then◌else◌, ◌≡◌, refl,
}
use tinkerbell_hegel.Strings.{Str, has_byte}
use tinkerbell_hegel.Strconv.{is_digit}
use tinkerbell_hegel.Net.{index_byte}
use tinkerbell_hegel.Options.{◌>>=◌, ◌>>◌, guard}
use tinkerbell_hegel.Netip.{Addr, v4, v6, bit_len, zeros, parse_addr}

-- `Addr.As16`
unfoldable pub as16 : Addr → List ℕ
unfolding zeros
as16 (v4 bytes) = zeros 10 ++ (255 ∷ 255 ∷ bytes)
as16 (v6 bytes) = bytes

-- `net.ParseIP`, with `none` for nil
unfoldable pub parse_ip : Str → Option (List ℕ)
unfolding parse_addr as16
parse_ip s = do a ← parse_addr s; some (as16 a)

abbrev pub all_zero : List ℕ → Bool
all_zero [] = true
all_zero (b ∷ bs) = b == 0 && all_zero bs

-- `IP.To4` of 16 bytes
abbrev last_four : List ℕ → Option (List ℕ)
last_four (a ∷ b ∷ bytes) = if a == 255 && b == 255 then some bytes else none
last_four bytes = none

unfoldable pub to4 : List ℕ → Option (List ℕ)
to4 ip = if all_zero (take 10 ip) then last_four (drop 10 ip) else none

-- `dtoi`: a number below 0xFFFFFF, if the text is its digits and nothing else
unfoldable pub dtoi_digits : Str → ℕ → Option ℕ
dtoi_digits [] n = some n
dtoi_digits (c ∷ s) n =
    if is_digit c
    then if ltb (n * 10 + (c - b'0')) 0xFFFFFF then dtoi_digits s (n * 10 + (c - b'0')) else none
    else none

unfoldable pub dtoi : Str → Option ℕ
unfolding dtoi_digits
dtoi [] = none
dtoi (c ∷ s) = dtoi_digits (c ∷ s) 0

-- `net.ParseCIDR`: the address and the length of the prefix
unfoldable pub parse_cidr : Str → Option (Addr × ℕ)
unfolding index_byte parse_addr dtoi
parse_cidr s = do
  i ← index_byte s b'/'
  a ← parse_addr (take i s)
  n ← dtoi (drop (suc i) s)
  guard (leb n (bit_len a))
  some (a, n)
