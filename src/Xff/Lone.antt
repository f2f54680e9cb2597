-- ===== src/Xff/Lone.antt =====
-- A lone address as an entry.
use tinkerbell_hegel.Prelude.{Bool, true, false, [], ◌∷◌, ◌≡◌, refl, ap, ◌∙◌, some, if◌then◌else◌}
use tinkerbell_hegel.Strings.{Str}
use tinkerbell_hegel.Strings.Split.{split_of_Lacks}
use tinkerbell_hegel.Errors.{ok}
use tinkerbell_hegel.Cidr.{to4, parse_cidr}
use tinkerbell_hegel.Netip.{Addr, v4, v6, bit_len, is_some, parse_addr}
use tinkerbell_hegel.Netip.Chars.{parse_addr-IsAddrText}
use tinkerbell_hegel.Cidr.Networks.{IsAddrText-IsNetText}
use tinkerbell_hegel.Xff.{entry_of, parse_entries, parse}
use tinkerbell_hegel.Xff.Parsed.{parse_entries_added}
use tinkerbell_hegel.Xff.Entries.{
  lone_prefix, lone_text, parse_cidr-lone_text, entry_of_address, trim_space_of_net,
  IsNetText-Lacks,
}

-- An IPv4 address that is written as one of IPv6: `::ffff:` in front of its bytes.
abbrev pub is_mapped : Addr → Bool
is_mapped (v4 bytes) = false
is_mapped (v6 bytes) = is_some (to4 bytes)

lone_prefix-is_mapped : (a : Addr) → lone_prefix a ≡ (if is_mapped a then 32 else bit_len a)
lone_prefix-is_mapped (v4 bytes) = refl
lone_prefix-is_mapped (v6 bytes) = refl

parse-lone_text :
    (s : Str) (a : Addr)
    → parse_addr s ≡ some a
    → (parse s ≡ ok (lone_text s a ∷ [])) × (parse_cidr (lone_text s a) ≡ some (a, lone_prefix a))
unfolding parse parse_entries
parse-lone_text s a h =
    let plain = IsAddrText-IsNetText s (parse_addr-IsAddrText s h) in
    let trimmed = trim_space_of_net s plain in
    (
      rw (split_of_Lacks s b',' (IsNetText-Lacks s plain)) (
          parse_entries_added s [] [] (some (lone_text s a))
            (ap entry_of trimmed ∙ entry_of_address s a h)),
      parse_cidr-lone_text s a h,
    )

-- An address alone is parsed as the network of just that address, unless it is an IPv4 address
-- that is written as one of IPv6.
pub parse-alone :
    (s : Str) (a : Addr)
    → parse_addr s ≡ some a
    → is_mapped a ≡ false
    → (e : Str) × (parse s ≡ ok (e ∷ [])) × (parse_cidr e ≡ some (a, bit_len a))
parse-alone s a h plain =
    let (parsed, net) = parse-lone_text s a h in
    (lone_text s a, parsed, rw (net, lone_prefix-is_mapped a, plain) refl)

-- An IPv4 address alone that is written as one of IPv6 is parsed as a network of 2 ^ 96 addresses: its
-- prefix has 32 of the 128 bits.
pub parse-mapped :
    (s : Str) (a : Addr)
    → parse_addr s ≡ some a
    → is_mapped a ≡ true
    → (e : Str) × (parse s ≡ ok (e ∷ [])) × (parse_cidr e ≡ some (a, 32)) × (bit_len a ≡ 128)
parse-mapped s (v4 bytes) h mapped = cc
parse-mapped s (v6 bytes) h mapped =
    let (parsed, net) = parse-lone_text s (v6 bytes) h in
    (lone_text s (v6 bytes), parsed, rw (net, mapped) refl, refl)
