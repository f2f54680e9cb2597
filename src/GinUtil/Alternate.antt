-- ===== src/GinUtil/Alternate.antt =====
-- The alternate of an endpoint differs from it by one trailing slash.
use tinkerbell_hegel.Prelude.{
  true, false, ◌++◌, ◌≡◌, ◌≢◌, ap, sym, ◌∙◌, Bool-cases, inl, inr, ◌⊎◌, append_assoc,
}
use tinkerbell_hegel.Strings.{Str, codes, has_suffix, trim_suffix}
use tinkerbell_hegel.Strings.Suffix.{has_suffix-snoc, trim_suffix-snoc, trim_suffix_lem}
use tinkerbell_hegel.GinUtil.{alternate_endpoint}

-- One of the two is the other with a slash behind it: the endpoint, just if it ends in a slash.
pub alternate_endpoint_lem :
    (e : Str)
    → ((has_suffix e b'/' ≡ true) × (e ≡ alternate_endpoint e ++ codes "/"))
      ⊎ ((has_suffix e b'/' ≡ false) × (alternate_endpoint e ≡ e ++ codes "/"))
unfolding alternate_endpoint
alternate_endpoint_lem e = elim (Bool-cases (has_suffix e b'/')) [
  | inl slash ↦ inl (slash, rw slash (trim_suffix_lem e b'/' slash))
  | inr plain ↦ inr (plain, rw plain)
]

pub alternate_endpoint-plain :
    (e : Str) → has_suffix e b'/' ≡ false → alternate_endpoint e ≡ e ++ codes "/"
unfolding alternate_endpoint
alternate_endpoint-plain e plain = rw plain

pub alternate_endpoint-slash : (e : Str) → alternate_endpoint (e ++ codes "/") ≡ e
unfolding alternate_endpoint
alternate_endpoint-slash e = rw (has_suffix-snoc e b'/') (trim_suffix-snoc e b'/')

ends_in_two :
    (e : Str)
    → e ≡ alternate_endpoint e ++ codes "/"
    → has_suffix (alternate_endpoint e) b'/' ≡ true
    → (p : Str) × (e ≡ p ++ codes "//")
ends_in_two e a again =
    let p = trim_suffix (alternate_endpoint e) b'/' in
    let shorter : alternate_endpoint e ≡ p ++ codes "/" = trim_suffix_lem _ b'/' again in
    (p, a ∙ ap (λ s. s ++ codes "/") shorter ∙ append_assoc p (codes "/") (codes "/"))

-- Taking the alternate twice gives the endpoint back, unless it ends in two slashes.
pub alternate_endpoint_involutive :
    (e : Str) → ((p : Str) → e ≢ p ++ codes "//") → alternate_endpoint (alternate_endpoint e) ≡ e
alternate_endpoint_involutive e h = elim (alternate_endpoint_lem e) [
  | inr (plain, a) ↦ rw a (alternate_endpoint-slash e)
  | inl (slash, a) ↦ elim (Bool-cases (has_suffix (alternate_endpoint e) b'/')) [
    | inl again ↦ let (p, q) = ends_in_two e a again in absurd (h p q)
    | inr plain ↦ alternate_endpoint-plain (alternate_endpoint e) plain ∙ sym a
  ]
]
