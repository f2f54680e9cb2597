-- ===== src/Net.antt =====
-- `net.SplitHostPort` of Go's library, and internal/http/request, which calls it.
pub mod Exact
pub mod HostPort
pub mod Index
use tinkerbell_hegel.Prelude.{
  ℕ, zero, suc, ◌+◌, Bool, true, false, List, [], ◌∷◌, ◌++◌, Option, none, some, length, get_or,
  take, drop, ◌==◌, if◌then◌else◌,
}
use tinkerbell_hegel.Strings.{Str, codes, has_byte, has_prefix}
use tinkerbell_hegel.Errors.{GoError, text, Result, ok, err, ◌>>=◌}

abbrev bump : Option ℕ → Option ℕ
bump none = none
bump (some i) = some (suc i)

-- `bytealg.IndexByteString`, with `none` for -1
unfoldable pub index_byte : Str → ℕ → Option ℕ
index_byte [] b = none
index_byte (c ∷ s) b = let later = bump (index_byte s b) in if c == b then some 0 else later

-- `bytealg.LastIndexByteString`
unfoldable pub last_index_byte : Str → ℕ → Option ℕ
last_index_byte [] b = none
last_index_byte (c ∷ s) b = elim (last_index_byte s b) [
  | some i ↦ some (suc i)
  | none ↦ if c == b then some 0 else none
]

-- `(&AddrError{Err: why, Addr: addr})`, by its message
abbrev addr_error : Str → Str → Result (Str × Str)
addr_error addr why = err (text (codes "address " ++ (addr ++ (codes ": " ++ why))))

missing_port : Str
missing_port = codes "missing port in address"

too_many_colons : Str
too_many_colons = codes "too many colons in address"

-- from the test for '[' to the end
host_port_end : Str → Str → (i j k : ℕ) → Result (Str × Str)
host_port_end hostport host i j k =
    if has_byte (drop j hostport) b'['
    then addr_error hostport (codes "unexpected '[' in address")
    else if has_byte (drop k hostport) b']'
    then addr_error hostport (codes "unexpected ']' in address")
    else ok (host, drop (suc i) hostport)

-- the branch for a host in brackets, with its last colon at `i`
pub bracketed_host : Str → ℕ → Result (Str × Str)
unfolding host_port_end
bracketed_host hostport i = elim (index_byte hostport b']') [
  | none ↦ addr_error hostport (codes "missing ']' in address")
  | some end ↦
      if suc end == length hostport
      then addr_error hostport missing_port
      else if suc end == i
      then host_port_end hostport (drop 1 (take end hostport)) i 1 (suc end)
      else if get_or hostport (suc end) 0 == b':'
      then addr_error hostport too_many_colons
      else addr_error hostport missing_port
]

pub plain_host : Str → ℕ → Result (Str × Str)
unfolding host_port_end
plain_host hostport i =
    if has_byte (take i hostport) b':'
    then addr_error hostport too_many_colons
    else host_port_end hostport (take i hostport) i 0 0

unfoldable pub split_host_port : Str → Result (Str × Str)
unfolding bracketed_host plain_host index_byte last_index_byte has_byte has_prefix missing_port
    too_many_colons
split_host_port hostport = elim (last_index_byte hostport b':') [
  | none ↦ addr_error hostport missing_port
  | some i ↦ if has_prefix hostport b'[' then bracketed_host hostport i else plain_host hostport i
]

-- `RemoteAddrIP`
unfoldable pub remote_addr_ip : Str → Result Str
unfolding split_host_port
remote_addr_ip remote_addr = do (addr, port) ← split_host_port remote_addr; ok addr
