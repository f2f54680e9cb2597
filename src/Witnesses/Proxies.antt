-- ===== src/Witnesses/Proxies.antt =====
-- The trusted proxies.
use tinkerbell_hegel.Prelude.{true, List, [], ◌∷◌, ◌++◌, ◌⊎◌, none, some, ◌≡◌, refl, All}
use tinkerbell_hegel.Strings.{Str, codes, str_eq, has_byte, split, join}
use tinkerbell_hegel.Errors.{text, ok, err}
use tinkerbell_hegel.Cidr.{to4, parse_cidr}
use tinkerbell_hegel.Netip.{Addr, v4, v6, bit_len, parse_addr}
use tinkerbell_hegel.Xff.{parse, trim_space}
use tinkerbell_hegel.Xff.Entries.{IsNetwork}
use tinkerbell_hegel.Xff.Parsed.{
  parse-IsNetwork, parse-join-parse, first_refused, parse-first_refused,
}
use tinkerbell_hegel.Xff.Lone.{is_mapped, parse-alone, parse-mapped}

abbrev proxies : Str
proxies = codes "10.0.0.0/8, 192.168.0.1"

abbrev networks : List Str
networks = codes "10.0.0.0/8" ∷ codes "192.168.0.1/32" ∷ []

proxies-parse : parse proxies ≡ ok networks
unfolding parse str_eq has_byte
proxies-parse = refl

parse-IsNetwork_example : All IsNetwork networks
parse-IsNetwork_example = parse-IsNetwork proxies networks proxies-parse

parse-join-parse_example : parse (join networks b',') ≡ ok networks
parse-join-parse_example = parse-join-parse proxies networks proxies-parse

abbrev wrong : Str
wrong = codes "10.0.0.0/8,,256.0.0.1 ,x"

parse-first_refused_example :
    ((first_refused (split wrong b',') ≡ none) × (parsed : List Str) × (parse wrong ≡ ok parsed))
    ⊎ ((entry : Str) × (first_refused (split wrong b',') ≡ some entry)
        × (parse wrong ≡ err (text (codes "invalid cidr or ip: " ++ trim_space entry))))
parse-first_refused_example = parse-first_refused wrong

lone_parsed : parse_addr (codes "192.168.0.1") ≡ some (v4 (192 ∷ 168 ∷ 0 ∷ 1 ∷ []))
unfolding parse_addr
lone_parsed = refl

parse-alone_example :
    (e : Str) × (parse (codes "192.168.0.1") ≡ ok (e ∷ []))
    × (parse_cidr e ≡ some (v4 (192 ∷ 168 ∷ 0 ∷ 1 ∷ []), 32))
parse-alone_example =
    parse-alone (codes "192.168.0.1") (v4 (192 ∷ 168 ∷ 0 ∷ 1 ∷ [])) lone_parsed refl

abbrev mapped_address : Addr
mapped_address = v6 (0 ∷ 0 ∷ 0 ∷ 0 ∷ 0 ∷ 0 ∷ 0 ∷ 0 ∷ 0 ∷ 0 ∷ 255 ∷ 255 ∷ 10 ∷ 0 ∷ 0 ∷ 1 ∷ [])

mapped_parsed : parse_addr (codes "::ffff:10.0.0.1") ≡ some mapped_address
unfolding parse_addr has_byte
mapped_parsed = refl

mapped_tested : is_mapped mapped_address ≡ true
unfolding to4
mapped_tested = refl

parse-mapped_example :
    (e : Str) × (parse (codes "::ffff:10.0.0.1") ≡ ok (e ∷ []))
    × (parse_cidr e ≡ some (mapped_address, 32))
    × (bit_len mapped_address ≡ 128)
parse-mapped_example =
    parse-mapped (codes "::ffff:10.0.0.1") mapped_address mapped_parsed mapped_tested
