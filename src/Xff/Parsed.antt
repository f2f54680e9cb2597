-- ===== src/Xff/Parsed.antt =====
-- The lists that `Parse` gives.
use tinkerbell_hegel.Prelude.{
  Bool, true, false, ◌||◌, if◌then◌else◌, List, [], ◌∷◌, ◌++◌, ◌≡◌, ◌⊎◌, inl, inr, refl, ap, subst,
  ◌∙◌, arith, Option, none, some, All, All-append, append-nil, append_assoc, Bool-cases,
  Option-cases,
}
use tinkerbell_hegel.Strings.{Str, codes, str_eq, split, join}
use tinkerbell_hegel.Strings.Split.{Lacks, split-join}
use tinkerbell_hegel.Errors.{text, Result, ok, err, Result-cases}
use tinkerbell_hegel.Cidr.{parse_ip, parse_cidr}
use tinkerbell_hegel.Netip.{is_some, parse_addr}
use tinkerbell_hegel.Cidr.Networks.{parse_cidr-IsNetText}
use tinkerbell_hegel.Xff.{
  trim_left, trim_right, trim_space, entry_of, appended, parse_entries, parse,
}
use tinkerbell_hegel.Xff.Entries.{
  IsNetwork, entry_of-IsNetwork, entry_of_network, trim_space_of_net, IsNetText-Lacks,
}

parse_entries-IsNetwork :
    (entries result : List Str) {parsed : List Str}
    → All IsNetwork result
    → parse_entries entries result ≡ ok parsed
    → All IsNetwork parsed
unfolding parse_entries
parse_entries-IsNetwork [] result i h = subst (All IsNetwork) (ground (arith, h)) i
parse_entries-IsNetwork (entry ∷ entries) result i h =
    elim (Result-cases (entry_of (trim_space entry))) [
      | inl (e, refused) ↦ cc (rw refused at h)
      | inr (none, added) ↦ parse_entries-IsNetwork entries result i (rw added at h)
      | inr (some e, added) ↦
          parse_entries-IsNetwork entries (result ++ e ∷ [])
            (All-append IsNetwork result (e ∷ []) i
              (entry_of-IsNetwork (trim_space entry) e added, tt))
            (rw added at h)
    ]

-- What `Parse` gives is a list of networks: each entry is the text of an address, of 4 or 16 bytes that
-- fit into 8 bits, and of a prefix that is no longer than the address.
pub parse-IsNetwork :
    (trusted_proxies : Str) (parsed : List Str)
    → parse trusted_proxies ≡ ok parsed
    → All IsNetwork parsed
unfolding parse
parse-IsNetwork trusted_proxies parsed h =
    parse_entries-IsNetwork (split trusted_proxies b',') [] tt h

-- An entry that is read adds what it gives.
pub parse_entries_added :
    (entry : Str) (entries result : List Str) (added : Option Str)
    → entry_of (trim_space entry) ≡ ok added
    → parse_entries (entry ∷ entries) result ≡ parse_entries entries (appended result added)
unfolding parse_entries
parse_entries_added entry entries result added h = rw h refl

parse_entries_networks :
    (es result : List Str) → All IsNetwork es → parse_entries es result ≡ ok (result ++ es)
unfolding parse_entries
parse_entries_networks [] result _ = rw (append-nil result) refl
parse_entries_networks (e ∷ es) result ((net, c, _, _), i) =
    let trimmed = trim_space_of_net e (parse_cidr-IsNetText e c) in
    parse_entries_added e es result (some e) (ap entry_of trimmed ∙ entry_of_network e c)
    ∙ (parse_entries_networks es (result ++ e ∷ []) i ∙ ap ok (append_assoc result (e ∷ []) es))

networks-Lacks : (es : List Str) → All IsNetwork es → All (Lacks b',') es
networks-Lacks [] _ = tt
networks-Lacks (e ∷ es) ((net, c, _, _), i) =
    (IsNetText-Lacks e (parse_cidr-IsNetText e c), networks-Lacks es i)

-- Networks behind one another, with commas between them, are parsed as those networks.
pub parse-join : (es : List Str) → All IsNetwork es → parse (join es b',') ≡ ok es
unfolding parse
parse-join [] _ =
    unfold join split parse_entries trim_space trim_left trim_right entry_of str_eq in refl
parse-join (e ∷ es) i =
    rw (split-join (e ∷ es) b',' (cc) (networks-Lacks (e ∷ es) i))
      (parse_entries_networks (e ∷ es) [] i)

-- Parsing what `Parse` gave, with commas between the entries, gives it again.
pub parse-join-parse :
    (trusted_proxies : Str) (parsed : List Str)
    → parse trusted_proxies ≡ ok parsed
    → parse (join parsed b',') ≡ ok parsed
parse-join-parse trusted_proxies parsed h =
    parse-join parsed (parse-IsNetwork trusted_proxies parsed h)

-- Whether an entry is empty, a network or an address, white space apart.
abbrev pub is_accepted : Str → Bool
is_accepted entry =
    let cidr = trim_space entry in
    str_eq cidr [] || is_some (parse_cidr cidr) || is_some (parse_addr cidr)

abbrev pub first_refused : List Str → Option Str
first_refused [] = none
first_refused (entry ∷ entries) = if is_accepted entry then first_refused entries else some entry

entry_of-is_accepted :
    (entry : Str)
    → ((is_accepted entry ≡ true) × (added : Option Str) × (entry_of (trim_space entry) ≡ ok added))
      ⊎ ((is_accepted entry ≡ false)
          × (entry_of (trim_space entry)
              ≡ err (text (codes "invalid cidr or ip: " ++ trim_space entry))))
unfolding entry_of parse_ip
entry_of-is_accepted entry = elim (Bool-cases (str_eq (trim_space entry) [])) [
  | inl empty ↦ inl (rw empty (refl, none, refl))
  | inr filled ↦ elim (Option-cases (parse_cidr (trim_space entry))) [
    | inr (net, c) ↦ inl (rw (filled, c) (refl, _, refl))
    | inl other ↦ elim (Option-cases (parse_addr (trim_space entry))) [
      | inr (a, p) ↦ inl (rw (filled, other, p) (refl, _, refl))
      | inl neither ↦ inr (rw (filled, other, neither) (refl, refl))
    ]
  ]
]

abbrev Outcome : List Str → Result (List Str) → Type 0
Outcome entries r =
    ((first_refused entries ≡ none) × (parsed : List Str) × (r ≡ ok parsed))
    ⊎ ((entry : Str) × (first_refused entries ≡ some entry)
        × (r ≡ err (text (codes "invalid cidr or ip: " ++ trim_space entry))))

parse_entries-Outcome : (entries result : List Str) → Outcome entries (parse_entries entries result)
unfolding parse_entries
parse_entries-Outcome [] result = inl (refl, result, refl)
parse_entries-Outcome (entry ∷ entries) result = elim (entry_of-is_accepted entry) [
  | inl (fine, added, e) ↦ rw (fine, e) (parse_entries-Outcome entries (appended result added))
  | inr (refused, e) ↦ inr (entry, rw refused refl, rw e refl)
]

-- `Parse` succeeds if each entry is empty, a network or an address, white space apart; otherwise
-- it fails, and the error names the first entry that is none of these.
pub parse-first_refused :
    (trusted_proxies : Str)
    → ((first_refused (split trusted_proxies b',') ≡ none)
        × (parsed : List Str) × (parse trusted_proxies ≡ ok parsed))
      ⊎ ((entry : Str) × (first_refused (split trusted_proxies b',') ≡ some entry)
          × (parse trusted_proxies ≡ err (text (codes "invalid cidr or ip: " ++ trim_space entry))))
unfolding parse
parse-first_refused trusted_proxies = parse_entries-Outcome (split trusted_proxies b',') []
