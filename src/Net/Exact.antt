-- ===== src/Net/Exact.antt =====
-- Which texts `SplitHostPort` takes apart, and into what.
use tinkerbell_hegel.Prelude.{
  ℕ, suc, Bool-cases, ◌==◌, ◌⊎◌, ◌↔◌, inl, inr, true, false, [], ◌∷◌, ◌++◌, ◌≡◌, ◌≢◌, refl, ap,
  subst, sym, ◌∙◌, arith, none, some, Option-cases, length, get_or, take, drop, All-split,
}
use tinkerbell_hegel.Strings.{Str, has_byte, has_prefix}
use tinkerbell_hegel.Strings.Split.{Lacks}
use tinkerbell_hegel.Errors.{Result, ok, Result-cases}
use tinkerbell_hegel.Net.Index.{take-drop_of_index}
use tinkerbell_hegel.Net.HostPort.{
  IsBare, Lacks-has_byte, remote_addr_ip-plain, remote_addr_ip-bracketed,
}
use tinkerbell_hegel.Net.{
  index_byte, last_index_byte, bracketed_host, plain_host, split_host_port, remote_addr_ip,
}

-- The text is `host:port`, or `[host]:port`, where only a host in brackets may have colons, and no part
-- has a bracket.
abbrev pub IsHostPort : Str → Str → Str → Type 0
IsHostPort host port s =
    IsBare port
    × (((s ≡ host ++ b':' ∷ port) × IsBare host)
        ⊎ ((s ≡ b'[' ∷ host ++ b']' ∷ b':' ∷ port) × Lacks b'[' host × Lacks b']' host))

Lacks-of_last_index : (s : Str) (b : ℕ) → last_index_byte s b ≡ none → Lacks b s
unfolding last_index_byte
Lacks-of_last_index [] b h = tt
Lacks-of_last_index (c ∷ s) b h = elim (Option-cases (last_index_byte s b)) [
  | inr (i, e) ↦ cc (rw e at h)
  | inl absent ↦ (λ same. ground (arith, absent, h), Lacks-of_last_index s b absent)
]

take-drop_of_last_index :
    (s : Str) (b i : ℕ)
    → last_index_byte s b ≡ some i
    → (s ≡ take i s ++ b ∷ drop (suc i) s) × Lacks b (drop (suc i) s)
unfolding last_index_byte
take-drop_of_last_index [] b i h = cc
take-drop_of_last_index (c ∷ s) b i h = elim (Option-cases (last_index_byte s b)) [
  | inr (k, e) ↦
      let next : i ≡ suc k = ground (arith, e, h) in
      let (parts, lacks) = take-drop_of_last_index s b k e in rw next (ap (◌∷◌ c) parts, lacks)
  | inl absent ↦
      let here : i ≡ 0 = ground (arith, absent, h) in
      let same : c ≡ b = ground (arith, absent, h) in
      rw (here, same) (refl, Lacks-of_last_index s b absent)
]

Lacks-take_of_index : (s : Str) (b i : ℕ) → index_byte s b ≡ some i → Lacks b (take i s)
unfolding index_byte
Lacks-take_of_index [] b i h = cc
Lacks-take_of_index (c ∷ s) b i h = elim (Bool-cases (c == b)) [
  | inl here ↦ let first : i ≡ 0 = ground (arith, here, h) in rw first tt
  | inr other ↦ elim (Option-cases (index_byte s b)) [
    | inl absent ↦ cc (rw (other, absent) at h)
    | inr (k, e) ↦
        let next : i ≡ suc k = ground (arith, other, e, h) in
        rw next (λ same. ground (arith, other), Lacks-take_of_index s b k e)
  ]
]

ok_injective : (a b : Str × Str) → ◌≡◌ {A = Result (Str × Str)} (ok a) (ok b) → a ≡ b
ok_injective a b e = cc

-- `has_byte` of a text whose parts are known.
Lacks-parts :
    (s p t : Str) (b c : ℕ) → has_byte s b ≡ false → s ≡ p ++ c ∷ t → Lacks b p × Lacks b t
Lacks-parts s p t b c h e =
    let (before, after) =
      All-split (λ x. x ≢ b) p (c ∷ t) (subst (Lacks b) e (Lacks-has_byte s b h)) in
    (before, after.1)

plain_host-IsHostPort :
    (s host port : Str) (i : ℕ)
    → last_index_byte s b':' ≡ some i
    → plain_host s i ≡ ok (host, port)
    → IsHostPort host port s
unfolding plain_host
plain_host-IsHostPort s host port i found h = elim (Bool-cases (has_byte (take i s) b':')) [
  | inl colons ↦ cc (rw (colons, plain_host) at h)
  | inr one ↦ elim (Bool-cases (has_byte s b'[')) [
    | inl opened ↦ cc (rw (one, opened, plain_host) at h)
    | inr unopened ↦ elim (Bool-cases (has_byte s b']')) [
      | inl closes ↦ cc (rw (one, unopened, closes, plain_host) at h)
      | inr unclosed ↦
          let (parts, last) = take-drop_of_last_index s b':' i found in
          let (open_host, open_port) = Lacks-parts s _ _ b'[' b':' unopened parts in
          let (close_host, close_port) = Lacks-parts s _ _ b']' b':' unclosed parts in
          let one_colon = Lacks-has_byte (take i s) b':' one in
          subst (λ p. IsHostPort p.0 p.1 s)
            (ok_injective (take i s, drop (suc i) s) (host, port)
              (rw (one, unopened, unclosed, plain_host) at h))
            ((last, open_port, close_port), inl (parts, (one_colon, open_host, close_host)))
    ]
  ]
]

drop_of_last_index :
    (s : Str) (b i : ℕ) → last_index_byte s b ≡ some i → drop i s ≡ b ∷ drop (suc i) s
unfolding last_index_byte
drop_of_last_index [] b i h = cc
drop_of_last_index (c ∷ s) b i h = elim (Option-cases (last_index_byte s b)) [
  | inr (k, e) ↦ let next : i ≡ suc k = ground (arith, e, h) in rw next (drop_of_last_index s b k e)
  | inl absent ↦
      let here : i ≡ 0 = ground (arith, absent, h) in
      let same : c ≡ b = ground (arith, absent, h) in rw (here, same) refl
]

bracketed_parts :
    (r : Str) (k i : ℕ)
    → index_byte r b']' ≡ some k
    → last_index_byte (b'[' ∷ r) b':' ≡ some i
    → i ≡ suc (suc k)
    → has_byte r b'[' ≡ false
    → has_byte (drop (suc k) r) b']' ≡ false
    → IsHostPort (take k r) (drop i r) (b'[' ∷ r)
bracketed_parts r k i closes found at_end unopened unclosed =
    let parts = take-drop_of_index r b']' k closes in
    let after : drop (suc k) r ≡ b':' ∷ drop i r =
      rw at_end (rw at_end at (drop_of_last_index (b'[' ∷ r) b':' i found)) in
    let (open_host, (_, open_port)) =
      All-split (λ x. x ≢ b'[') (take k r) _
        (subst (Lacks b'[') (parts ∙ ap (λ t. take k r ++ b']' ∷ t) after)
          (Lacks-has_byte r b'[' unopened)) in
    let (_, close_port) =
      subst (Lacks b']') after (Lacks-has_byte (drop (suc k) r) b']' unclosed) in
    (
      ((take-drop_of_last_index (b'[' ∷ r) b':' i found).1, open_port.1, close_port),
      inr (
        ap (λ t. b'[' ∷ t) (parts ∙ ap (λ t. take k r ++ b']' ∷ t) after),
        open_host,
        Lacks-take_of_index r b']' k closes,
      ),
    )

bracketed_host-IsHostPort :
    (r host port : Str) (i : ℕ)
    → last_index_byte (b'[' ∷ r) b':' ≡ some i
    → bracketed_host (b'[' ∷ r) i ≡ ok (host, port)
    → IsHostPort host port (b'[' ∷ r)
unfolding bracketed_host index_byte
bracketed_host-IsHostPort r host port i found h = elim (Option-cases (index_byte r b']')) [
  | inl unclosed ↦ cc (rw (unclosed, bracketed_host) at h)
  | inr (k, closes) ↦ elim (Bool-cases (suc (suc k) == length (b'[' ∷ r))) [
    | inl ends ↦ cc (rw (closes, ends, bracketed_host) at h)
    | inr goes_on ↦ elim (Bool-cases (suc (suc k) == i)) [
      | inr apart ↦ elim (Bool-cases (get_or (b'[' ∷ r) (suc (suc k)) 0 == b':')) [
        | inl colon ↦ cc (rw (closes, goes_on, apart, colon, bracketed_host) at h)
        | inr other ↦ cc (rw (closes, goes_on, apart, other, bracketed_host) at h)
      ]
      | inl next ↦ elim (Bool-cases (has_byte r b'[')) [
        | inl opened ↦ cc (rw (closes, goes_on, next, opened, bracketed_host) at h)
        | inr unopened ↦ elim (Bool-cases (has_byte (drop (suc k) r) b']')) [
          | inl closed ↦ cc (rw (closes, goes_on, next, unopened, closed, bracketed_host) at h)
          | inr unclosed ↦
              let at_end : i ≡ suc (suc k) = ground (arith, next) in
              subst (λ p. IsHostPort p.0 p.1 (b'[' ∷ r))
                (ok_injective (take k r, drop i r) (host, port)
                  (rw (closes, goes_on, next, unopened, unclosed, bracketed_host) at h))
                (bracketed_parts r k i closes found at_end unopened unclosed)
        ]
      ]
    ]
  ]
]

split_host_port-IsHostPort :
    (s host port : Str) → split_host_port s ≡ ok (host, port) → IsHostPort host port s
unfolding split_host_port has_prefix
split_host_port-IsHostPort s host port h = elim (Option-cases (last_index_byte s b':')) [
  | inl absent ↦ cc (rw (absent, split_host_port) at h)
  | inr (i, found) ↦ elim (Bool-cases (has_prefix s b'[')) [
    | inr plain ↦
        plain_host-IsHostPort s host port i found (rw (found, plain, split_host_port) at h)
    | inl bracketed ↦ go s bracketed found (rw (found, bracketed, split_host_port) at h)
  ]
]
  where
    go :
        (t : Str) {i : ℕ}
        → has_prefix t b'[' ≡ true
        → last_index_byte t b':' ≡ some i
        → bracketed_host t i ≡ ok (host, port)
        → IsHostPort host port t
    go [] p f b = cc
    go (c ∷ r) {i = i} p f b =
        let same : c ≡ b'[' = ground (arith, p) in
        subst
          (λ x.
            last_index_byte (x ∷ r) b':' ≡ some i
            → bracketed_host (x ∷ r) i ≡ ok (host, port)
            → IsHostPort host port (x ∷ r))
          (sym same) (bracketed_host-IsHostPort r host port i) f b

-- `RemoteAddrIP` gives a host just where the address is `host:port` or `[host]:port`, where the
-- port has no colon, neither part has a bracket, and a host that is not in brackets has no colon.
pub remote_addr_ip_iff :
    (s host : Str) → (remote_addr_ip s ≡ ok host) ↔ ((port : Str) × IsHostPort host port s)
unfolding remote_addr_ip
remote_addr_ip_iff s host = (
  λ h. elim (Result-cases (split_host_port s)) [
    | inl (e, failed) ↦ cc (rw (failed, remote_addr_ip) at h)
    | inr ((host', port), split) ↦
        let same : host' ≡ host = ground (arith, rw (split, remote_addr_ip) at h) in
        (
          port,
          subst (λ x. IsHostPort x port s) same (split_host_port-IsHostPort s host' port split),
        )
  ],
  λ (port, (bare, shape)). elim shape [
    | inl (e, bare_host) ↦ rw e (remote_addr_ip-plain host port bare_host bare)
    | inr (e, open_host, close_host) ↦
        rw e (remote_addr_ip-bracketed host port open_host close_host bare)
  ],
)
