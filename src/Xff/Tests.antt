-- ===== src/Xff/Tests.antt =====
-- The cases of xff_test.go, and white space beyond ASCII.
use tinkerbell_hegel.Prelude.{[], ◌∷◌, ◌++◌, ◌≡◌, refl}
use tinkerbell_hegel.Strings.{codes, str_eq, has_byte}
use tinkerbell_hegel.Errors.{text, ok, err}
use tinkerbell_hegel.Xff.{parse}

six :
    parse (codes "2001:db8::ff00:42:8329,192.179.0.0/15, 192.178.1.2,2001:db8::ffff:42:8329/50")
    ≡ ok (
        codes "2001:db8::ff00:42:8329/128"
        ∷ codes "192.179.0.0/15"
        ∷ codes "192.178.1.2/32"
        ∷ codes "2001:db8::ffff:42:8329/50"
        ∷ [])
unfolding parse str_eq has_byte
six = refl

full :
    parse (codes "2001:db8:0:0:0:ff00:42:8329") ≡ ok (codes "2001:db8:0:0:0:ff00:42:8329/128" ∷ [])
unfolding parse str_eq has_byte
full = refl

empty_entries :
    parse (codes " 192.168.0.0/16,, ,192.168.0.1")
    ≡ ok (codes "192.168.0.0/16" ∷ codes "192.168.0.1/32" ∷ [])
unfolding parse str_eq has_byte
empty_entries = refl

invalid_v4 :
    parse (codes "256.256.256.256") ≡ err (text (codes "invalid cidr or ip: 256.256.256.256"))
unfolding parse str_eq has_byte
invalid_v4 = refl

invalid_cidr :
    parse (codes "128.128.128.0/256") ≡ err (text (codes "invalid cidr or ip: 128.128.128.0/256"))
unfolding parse str_eq has_byte
invalid_cidr = refl

mapped :
    parse (codes "::ffff:10.0.0.1,::,::1")
    ≡ ok (codes "::ffff:10.0.0.1/32" ∷ codes "::/128" ∷ codes "::1/128" ∷ [])
unfolding parse str_eq has_byte
mapped = refl

-- a space that does not break in front of the entry, and one of an ideograph behind it
wide_spaces :
    parse (0xC2 ∷ 0xA0 ∷ codes " 192.178.1.2" ++ 0xE3 ∷ 0x80 ∷ 0x80 ∷ [])
    ≡ ok (codes "192.178.1.2/32" ∷ [])
unfolding parse str_eq has_byte
wide_spaces = refl
