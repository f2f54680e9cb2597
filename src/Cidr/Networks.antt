-- ===== src/Cidr/Networks.antt =====
-- Networks: the text of one, and a lone address as one.
use tinkerbell_hegel.Prelude.{
  ℕ, suc, ◌+◌, ◌-◌, ◌*◌, ◌≤◌, Bool, true, ◌&&◌, ◌||◌, List, [], ◌∷◌, ◌++◌, ◌≡◌, refl, arith, none,
  some, ◌==◌, leb, take, drop, all,
}
use tinkerbell_hegel.Strings.{Str}
use tinkerbell_hegel.Strings.Split.{Lacks}
use tinkerbell_hegel.Net.{index_byte}
use tinkerbell_hegel.Net.Index.{index_byte-append, take-append, drop-suc-append, take-drop_of_index}
use tinkerbell_hegel.Options.{>>=-eq-some, guard-eq-some}
use tinkerbell_hegel.Cidr.{dtoi_digits, dtoi, parse_cidr}
use tinkerbell_hegel.Netip.{Addr, bit_len, hex_value, parse_addr}
use tinkerbell_hegel.Netip.Bytes.{IsSized}
use tinkerbell_hegel.Netip.Sizes.{parse_addr-IsSized}
use tinkerbell_hegel.Netip.Chars.{is_addr_byte, IsAddrText, parse_addr-IsAddrText}

-- the bytes of an address, or the slash in front of a prefix length
abbrev pub is_net_byte : ℕ → Bool
is_net_byte c = is_addr_byte c || c == b'/'

abbrev pub IsNetText : Str → Type 0
IsNetText s = all is_net_byte s ≡ true

all-append {ℓ} :
    {A : Type ℓ} (p : A → Bool) (xs ys : List A) → all p (xs ++ ys) ≡ (all p xs && all p ys)
all-append p [] ys = refl
all-append p (x ∷ xs) ys = ground (arith, all-append p xs ys)

pub IsAddrText-IsNetText : (s : Str) → IsAddrText s → IsNetText s
IsAddrText-IsNetText [] h = refl
IsAddrText-IsNetText (c ∷ s) h = ground (arith, IsAddrText-IsNetText s)

dtoi_digits-IsNetText : (s : Str) (n : ℕ) {m : ℕ} → dtoi_digits s n ≡ some m → IsNetText s
unfolding dtoi_digits hex_value
dtoi_digits-IsNetText [] n h = refl
dtoi_digits-IsNetText (c ∷ s) n {m} h =
    ground (arith, dtoi_digits-IsNetText s (n * 10 + (c - b'0')) {m = m})

dtoi-IsNetText : (s : Str) {m : ℕ} → dtoi s ≡ some m → IsNetText s
unfolding dtoi
dtoi-IsNetText [] h = refl
dtoi-IsNetText (c ∷ s) h = dtoi_digits-IsNetText (c ∷ s) 0 h

-- A network is written in the bytes of an address and slashes.
pub parse_cidr-IsNetText : (s : Str) {net : Addr × ℕ} → parse_cidr s ≡ some net → IsNetText s
unfolding parse_cidr
parse_cidr-IsNetText s h =
    let (i, e, h1) = >>=-eq-some (index_byte s b'/') _ h in
    let (a, parsed, h2) = >>=-eq-some (parse_addr (take i s)) _ h1 in
    let (n, length_read, _) = >>=-eq-some (dtoi (drop (suc i) s)) _ h2 in
    let before = IsAddrText-IsNetText (take i s) (parse_addr-IsAddrText (take i s) parsed) in
    let after = dtoi-IsNetText (drop (suc i) s) length_read in
    rw
      (
        take-drop_of_index s b'/' i e,
        all-append is_net_byte (take i s) (b'/' ∷ drop (suc i) s),
        before,
        after,
      )
      refl

IsAddrText-Lacks : (s : Str) → IsAddrText s → Lacks b'/' s
unfolding hex_value
IsAddrText-Lacks [] h = tt
IsAddrText-Lacks (c ∷ s) h = (ground arith, IsAddrText-Lacks s (ground arith))

-- An address with a slash and a length behind it is the network of that length.
pub parse_cidr-append :
    (s m : Str) (a : Addr) (n : ℕ)
    → parse_addr s ≡ some a
    → dtoi m ≡ some n
    → leb n (bit_len a) ≡ true
    → parse_cidr (s ++ b'/' ∷ m) ≡ some (a, n)
unfolding parse_cidr
parse_cidr-append s m a n parsed length_read small =
    rw
      (
        index_byte-append s m b'/' (IsAddrText-Lacks s (parse_addr-IsAddrText s parsed)),
        take-append s (b'/' ∷ m),
        drop-suc-append s m b'/',
        parsed,
        length_read,
        small,
      )
      refl

-- A network has an address of its size, and a prefix that is no longer than it.
pub parse_cidr_bounded :
    (s : Str) (a : Addr) (n : ℕ) → parse_cidr s ≡ some (a, n) → IsSized a × (n ≤ bit_len a)
unfolding parse_cidr
parse_cidr_bounded s a n h =
    let (i, _, h1) = >>=-eq-some (index_byte s b'/') _ h in
    let (b, parsed, h2) = >>=-eq-some (parse_addr (take i s)) _ h1 in
    let (m, _, h3) = >>=-eq-some (dtoi (drop (suc i) s)) _ h2 in
    let (small, same) = guard-eq-some (leb m (bit_len b)) (some (b, m)) h3 in
    let address : b ≡ a = cc in
    let length_ : m ≡ n = cc in
    rw (← address, ← length_) (parse_addr-IsSized (take i s) b parsed, ground arith)

index_byte_of_Lacks : (s : Str) (b : ℕ) → Lacks b s → index_byte s b ≡ none
unfolding index_byte
index_byte_of_Lacks [] b _ = refl
index_byte_of_Lacks (c ∷ s) b (hc, hs) = ground (arith, index_byte_of_Lacks s b hs)

-- An address is no network.
pub parse_cidr_of_address : (s : Str) {a : Addr} → parse_addr s ≡ some a → parse_cidr s ≡ none
unfolding parse_cidr
parse_cidr_of_address s h =
    rw (index_byte_of_Lacks s b'/' (IsAddrText-Lacks s (parse_addr-IsAddrText s h))) refl
