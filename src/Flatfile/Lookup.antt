-- ===== src/Flatfile/Lookup.antt =====
-- Which instance the flatfile backend returns for an address.
use tinkerbell_hegel.Prelude.{List, [], ◌∷◌, ◌≡◌, ◌∙◌, arith, Option, none, some, if◌then◌else◌}
use tinkerbell_hegel.Strings.{Str, str_eq}
use tinkerbell_hegel.Errors.{Result, ok, err, sentinel, instance_not_found}
use tinkerbell_hegel.GoMap.{GoMap, lookup, put, lookup-put}
use tinkerbell_hegel.Ec2
use tinkerbell_hegel.Flatfile.{
  Instance, add_instances, new_backend, get_ec2_instance, to_ec2_instance,
}

abbrev address : Instance → Str
address i = i.metadata.ipv4.public_

-- The last instance of the file with the address.
abbrev pub last_at : Str → List Instance → Option Instance
last_at ip [] = none
last_at ip (i ∷ is) = elim (last_at ip is) [
  | some later ↦ some later
  | none ↦ if str_eq (address i) ip then some i else none
]

abbrev or_before : Option Instance → Option Instance → Option Instance
or_before (some i) found = some i
or_before none found = found

lookup-add_instances :
    (is : List Instance) (m : GoMap Instance) (ip : Str)
    → lookup ip (add_instances is m) ≡ or_before (last_at ip is) (lookup ip m)
unfolding add_instances
lookup-add_instances [] m ip = ground arith
lookup-add_instances (i ∷ is) m ip =
    ground (arith, lookup-add_instances is (put (address i) i m) ip, lookup-put (address i) ip i m)

or_before-none : (o : Option Instance) → or_before o none ≡ o
or_before-none o = ground arith

lookup-last_at :
    (is : List Instance) (ip : Str) → lookup ip (new_backend is).instances ≡ last_at ip is
unfolding new_backend lookup
lookup-last_at is ip = lookup-add_instances is [] ip ∙ or_before-none (last_at ip is)

abbrev pub found_or : Option Instance → Result Ec2.Instance
found_or none = err (sentinel instance_not_found)
found_or (some i) = ok (to_ec2_instance i)

-- The backend returns the last instance of the file that has the address, converted, and
-- `ErrInstanceNotFound` where there is none.
pub get_ec2_instance-last_at :
    (is : List Instance) (ip : Str)
    → get_ec2_instance (new_backend is) ip ≡ found_or (last_at ip is)
unfolding get_ec2_instance
get_ec2_instance-last_at is ip = ground (arith, lookup-last_at is ip)
