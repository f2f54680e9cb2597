-- ===== src/Net/HostPort.antt =====
-- The addresses that `SplitHostPort` takes apart.
use tinkerbell_hegel.Prelude.{
  ℕ, suc, ◌+◌, Bool-cases, ◌==◌, inl, inr, false, [], ◌∷◌, ◌++◌, ◌≡◌, refl, arith, none, some,
  length, length-append,
}
use tinkerbell_hegel.Strings.{Str, has_byte, has_prefix}
use tinkerbell_hegel.Strings.Split.{Lacks}
use tinkerbell_hegel.Errors.{ok}
use tinkerbell_hegel.Net.Index.{index_byte-append, take-append, drop-append, drop-suc-append}
use tinkerbell_hegel.Net.{last_index_byte, remote_addr_ip}

has_byte-Lacks : (s : Str) (b : ℕ) → Lacks b s → has_byte s b ≡ false
unfolding has_byte
has_byte-Lacks [] b h = refl
has_byte-Lacks (c ∷ s) b (p, h) = ground (arith, has_byte-Lacks s b h)

has_byte-append_Lacks : (s t : Str) (b : ℕ) → Lacks b s → has_byte (s ++ t) b ≡ has_byte t b
unfolding has_byte
has_byte-append_Lacks [] t b h = refl
has_byte-append_Lacks (c ∷ s) t b (p, h) = ground (arith, has_byte-append_Lacks s t b h)

pub Lacks-has_byte : (s : Str) (b : ℕ) → has_byte s b ≡ false → Lacks b s
unfolding has_byte
Lacks-has_byte [] b h = tt
Lacks-has_byte (c ∷ s) b h = elim (Bool-cases (c == b)) [
  | inl same ↦ cc
  | inr other ↦ (λ e. ground arith, Lacks-has_byte s b (ground arith))
]

last_index_byte-none : (s : Str) (b : ℕ) → Lacks b s → last_index_byte s b ≡ none
unfolding last_index_byte
last_index_byte-none [] b h = refl
last_index_byte-none (c ∷ s) b (p, h) = ground (arith, last_index_byte-none s b h)

last_index_byte-append :
    (s t : Str) (b : ℕ) → Lacks b t → last_index_byte (s ++ b ∷ t) b ≡ some (length s)
unfolding last_index_byte
last_index_byte-append [] t b h = ground (arith, last_index_byte-none t b h)
last_index_byte-append (c ∷ s) t b h = ground (arith, last_index_byte-append s t b h)

-- No colon and no bracket: what a host or port holds.
abbrev pub IsBare : Str → Type 0
IsBare s = Lacks b':' s × Lacks b'[' s × Lacks b']' s

has_prefix-bare : (host t : Str) → Lacks b'[' host → has_prefix (host ++ b':' ∷ t) b'[' ≡ false
unfolding has_prefix
has_prefix-bare [] t h = refl
has_prefix-bare (c ∷ host) t (p, h) = ground arith

-- `host:port` gives `host`, where neither part has a colon or a bracket.
pub remote_addr_ip-plain :
    (host port : Str) → IsBare host → IsBare port → remote_addr_ip (host ++ b':' ∷ port) ≡ ok host
unfolding remote_addr_ip
remote_addr_ip-plain host port h p = ground (
  arith,
  last_index_byte-append host port b':' p.0,
  has_prefix-bare host port h.1,
  take-append host (b':' ∷ port),
  has_byte-Lacks host b':' h.0,
  has_byte-append_Lacks host (b':' ∷ port) b'[' h.1,
  has_byte-Lacks port b'[' p.1,
  has_byte-append_Lacks host (b':' ∷ port) b']' h.2,
  has_byte-Lacks port b']' p.2,
)

length-bracketed :
    (host port : Str) → length (host ++ b']' ∷ b':' ∷ port) ≡ length host + length port + 2
length-bracketed host port = omega (arith, length-append host (b']' ∷ b':' ∷ port))

last_index_byte-bracketed :
    (host port : Str)
    → Lacks b':' port
    → last_index_byte (host ++ b']' ∷ b':' ∷ port) b':' ≡ some (suc (length host))
unfolding last_index_byte
last_index_byte-bracketed [] port h = ground (arith, last_index_byte-none port b':' h)
last_index_byte-bracketed (c ∷ host) port h = ground (arith, last_index_byte-bracketed host port h)

-- `[host]:port` gives `host`, which may have colons and no bracket.
pub remote_addr_ip-bracketed :
    (host port : Str)
    → Lacks b'[' host
    → Lacks b']' host
    → IsBare port
    → remote_addr_ip (b'[' ∷ host ++ b']' ∷ b':' ∷ port) ≡ ok host
unfolding remote_addr_ip has_byte
remote_addr_ip-bracketed host port h k p = ground (
  arith,
  length-bracketed host port,
  last_index_byte-bracketed host port p.0,
  index_byte-append host (b':' ∷ port) b']' k,
  take-append host (b']' ∷ b':' ∷ port),
  drop-suc-append host (b':' ∷ port) b']',
  drop-append host (b']' ∷ b':' ∷ port),
  has_byte-append_Lacks host (b']' ∷ b':' ∷ port) b'[' h,
  has_byte-Lacks port b'[' p.1,
  has_byte-Lacks port b']' p.2,
)
