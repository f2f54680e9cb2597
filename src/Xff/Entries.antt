-- ===== src/Xff/Entries.antt =====
-- The entries that `Parse` gives: each is a network, and they are read as they stand.
use tinkerbell_hegel.Prelude.{
  ℕ, ◌≤◌, true, false, List, [], ◌∷◌, ◌++◌, ◌≡◌, ◌⊎◌, inl, inr, refl, arith, some, if◌then◌else◌,
  Bool-cases, Option-cases,
}
use tinkerbell_hegel.Strings.{Str, codes, str_eq}
use tinkerbell_hegel.Strings.Split.{Lacks}
use tinkerbell_hegel.Errors.{ok}
use tinkerbell_hegel.Net.{index_byte}
use tinkerbell_hegel.Cidr.{as16, parse_ip, to4, dtoi, parse_cidr}
use tinkerbell_hegel.Netip.{Addr, v4, v6, bit_len, hex_value, is_some, parse_by, parse_addr, zeros}
use tinkerbell_hegel.Cidr.Networks.{
  is_net_byte, IsNetText, parse_cidr-append, parse_cidr_bounded, parse_cidr_of_address,
}
use tinkerbell_hegel.Netip.Bytes.{IsSized}
use tinkerbell_hegel.Xff.{
  is_white, white_width, trim_from, trim_left, trim_right, trim_space, suffix_of, entry_of,
}

-- The text is a network, of an address of 4 or 16 bytes and a prefix that is no longer than it.
abbrev pub IsNetwork : Str → Type 0
IsNetwork e = (net : Addr × ℕ) × (parse_cidr e ≡ some net) × IsSized net.0 × (net.1 ≤ bit_len net.0)

-- The length that `Parse` puts behind a lone address.
abbrev pub lone_prefix : Addr → ℕ
lone_prefix (v4 bytes) = 32
lone_prefix (v6 bytes) = if is_some (to4 bytes) then 32 else 128

unfoldable pub lone_text : Str → Addr → Str
lone_text s a = s ++ suffix_of (to4 (as16 a))

to4-as16 : (bytes : List ℕ) → to4 (as16 (v4 bytes)) ≡ some bytes
unfolding to4 as16 zeros
to4-as16 bytes = refl

pub parse_cidr-lone_text :
    (s : Str) (a : Addr)
    → parse_addr s ≡ some a
    → parse_cidr (lone_text s a) ≡ some (a, lone_prefix a)
unfolding lone_text dtoi
parse_cidr-lone_text s (v4 bytes) h =
    rw (to4-as16 bytes) (parse_cidr-append s (codes "32") (v4 bytes) 32 h refl refl)
parse_cidr-lone_text s (v6 bytes) h = elim (Option-cases (to4 bytes)) [
  | inl other ↦
      unfold as16 in rw other (parse_cidr-append s (codes "128") (v6 bytes) 128 h refl refl)
  | inr (b, mapped) ↦
      unfold as16 in rw mapped (parse_cidr-append s (codes "32") (v6 bytes) 32 h refl refl)
]

-- An entry is appended as it stands if it is a network, and with a length behind it if it is an
-- address.
pub entry_of-cases :
    (s e : Str)
    → entry_of s ≡ ok (some e)
    → ((e ≡ s) × (net : Addr × ℕ) × (parse_cidr s ≡ some net))
      ⊎ ((a : Addr) × (parse_addr s ≡ some a) × (e ≡ lone_text s a))
unfolding entry_of lone_text parse_ip
entry_of-cases s e h = elim (Bool-cases (str_eq s [])) [
  | inl empty ↦ cc (rw empty at h)
  | inr filled ↦ elim (Option-cases (parse_cidr s)) [
    | inr (net, c) ↦ inl (ground (arith, rw (filled, c) at h), net, c)
    | inl other ↦ elim (Option-cases (parse_addr s)) [
      | inl neither ↦ cc (rw (filled, other, neither) at h)
      | inr (a, p) ↦ inr (a, p, ground (arith, rw (filled, other, p) at h))
    ]
  ]
]

pub entry_of-IsNetwork : (s e : Str) → entry_of s ≡ ok (some e) → IsNetwork e
entry_of-IsNetwork s e h =
    let read : (net : Addr × ℕ) × (parse_cidr e ≡ some net) = elim (entry_of-cases s e h) [
      | inl (same, net, c) ↦ (net, rw same c)
      | inr (a, p, same) ↦ ((a, lone_prefix a), rw same (parse_cidr-lone_text s a p))
    ] in
    let (sized, short) = parse_cidr_bounded e read.0.0 read.0.1 read.1 in
    (read.0, read.1, sized, short)

-- A network is appended as it stands.
pub entry_of_network :
    (e : Str) {net : Addr × ℕ} → parse_cidr e ≡ some net → entry_of e ≡ ok (some e)
unfolding entry_of parse_cidr index_byte str_eq
entry_of_network [] h = cc
entry_of_network (c ∷ e) h = rw h refl

-- An address is no network, since it has no slash.
pub entry_of_address :
    (s : Str) (a : Addr) → parse_addr s ≡ some a → entry_of s ≡ ok (some (lone_text s a))
unfolding entry_of lone_text parse_ip parse_addr parse_by str_eq
entry_of_address [] a h = cc
entry_of_address (c ∷ s) a h = rw (parse_cidr_of_address (c ∷ s) h, h) refl

-- No white space begins with a byte of a network.
is_white_of_net : (c : ℕ) (s : Str) → is_net_byte c ≡ true → is_white (c ∷ s) ≡ false
unfolding hex_value
is_white_of_net c [] h = ground arith
is_white_of_net c (d ∷ []) h = ground arith
is_white_of_net c (d ∷ e ∷ []) h = ground arith
is_white_of_net c (d ∷ e ∷ f ∷ s) h = refl

white_width_of_net : (c : ℕ) (s : Str) → is_net_byte c ≡ true → white_width (c ∷ s) ≡ 0
white_width_of_net c [] h = rw (is_white_of_net c [] h) refl
white_width_of_net c (d ∷ []) h = rw (is_white_of_net c [] h, is_white_of_net c (d ∷ []) h) refl
white_width_of_net c (d ∷ e ∷ s) h =
    rw (is_white_of_net c [] h, is_white_of_net c (d ∷ []) h, is_white_of_net c (d ∷ e ∷ []) h) refl

trim_left_of_net : (s : Str) → IsNetText s → trim_left s ≡ s
unfolding trim_left trim_from
trim_left_of_net [] h = refl
trim_left_of_net (c ∷ s) h = rw (white_width_of_net c s (ground (arith, h))) refl

trim_right_of_net : (s : Str) → IsNetText s → trim_right s ≡ s
unfolding trim_right
trim_right_of_net [] h = refl
trim_right_of_net (c ∷ s) h =
    rw (trim_right_of_net s (ground (arith, h)), is_white_of_net c s (ground (arith, h))) refl

pub trim_space_of_net : (s : Str) → IsNetText s → trim_space s ≡ s
unfolding trim_space
trim_space_of_net s h = rw (trim_left_of_net s h) (trim_right_of_net s h)

-- A comma neither.
pub IsNetText-Lacks : (s : Str) → IsNetText s → Lacks b',' s
unfolding hex_value
IsNetText-Lacks [] h = tt
IsNetText-Lacks (c ∷ s) h = (ground (arith, h), IsNetText-Lacks s (ground (arith, h)))
