-- ===== src/StaticRoute/Listing.antt =====
-- The children of a route: sorted, with a slash behind each child that is a parent itself.
use mathlib.Core.List.{map}
use tinkerbell_hegel.Prelude.{
  true, false, List, [], ◌∷◌, ◌++◌, ◌≡◌, ◌≢◌, ◌↔◌, ◌⊎◌, inl, inr, refl, sym, ap, ◌∙◌, arith,
  Bool-cases, if◌then◌else◌, append-nil, append_assoc,
}
use tinkerbell_hegel.Strings.{Str, codes, str_eq, join}
use tinkerbell_hegel.Strings.Order.{str_eq_iff, str_eq_refl}
use tinkerbell_hegel.Strings.Split.{Lacks}
use tinkerbell_hegel.Strings.Members.{contains, IsDistinct}
use tinkerbell_hegel.GoMap.{has_key}
use tinkerbell_hegel.Sort.{sort_strings}
use tinkerbell_hegel.Sort.Ascending.{IsAscending, contains-sort_strings, sort_strings-IsAscending}
use tinkerbell_hegel.StaticRoute.{UnorderedSet, set_range, Builder, append_child, route_of}

-- what `Build` lists for a child of `p`
abbrev pub entry : Builder → Str → Str → Str
entry b p c = if has_key (join (p ∷ c ∷ []) b'/') b then c ++ codes "/" else c

set_range-append_child :
    (b : Builder) (p : Str) (s : UnorderedSet) (acc : List Str)
    → set_range s (append_child b p) acc ≡ acc ++ map (entry b p) s
unfolding set_range append_child
set_range-append_child b p [] acc = sym (append-nil acc)
set_range-append_child b p (c ∷ s) acc =
    set_range-append_child b p s (acc ++ entry b p c ∷ [])
    ∙ append_assoc acc (entry b p c ∷ []) (map (entry b p) s)

pub children-route_of :
    (b : Builder) (p : Str) (s : UnorderedSet)
    → (route_of b p s).children ≡ sort_strings (map (entry b p) s)
unfolding route_of
children-route_of b p s = ap sort_strings (set_range-append_child b p s [])

module _ (f : Str → Str) where
  contains-map_sound :
      (x : Str) (s : List Str)
      → contains x (map f s) ≡ true
      → (c : Str) × (contains c s ≡ true) × (f c ≡ x)
  unfolding contains
  contains-map_sound x [] h = cc
  contains-map_sound x (y ∷ ys) h = elim (Bool-cases (str_eq (f y) x)) [
    | inl e ↦ (y, rw (str_eq_refl y) refl, (str_eq_iff (f y) x).0 e)
    | inr n ↦ let (c, m, e) = contains-map_sound x ys (rw n at h) in (c, ground arith, e)
  ]

  contains-map_complete :
      (c : Str) (s : List Str) → contains c s ≡ true → contains (f c) (map f s) ≡ true
  unfolding contains
  contains-map_complete c [] h = cc
  contains-map_complete c (y ∷ ys) h =
      ground (arith, contains-map_complete c ys, str_eq_iff y c, str_eq_refl (f c))

  pub contains-map_iff :
      (x : Str) (s : List Str)
      → (contains x (map f s) ≡ true) ↔ ((c : Str) × (contains c s ≡ true) × (f c ≡ x))
  contains-map_iff x s =
      (contains-map_sound x s, λ (c, m, e). rw e at (contains-map_complete c s m))

-- Texts without a slash are told apart after a slash is added to some of them.
slash-inj : (c d : Str) → Lacks b'/' c → Lacks b'/' d → c ++ codes "/" ≡ d ++ codes "/" → c ≡ d
slash-inj [] [] h k e = refl
slash-inj [] (y ∷ d) h (p, k) e = absurd (p (ground arith))
slash-inj (x ∷ c) [] (p, h) k e = absurd (p (ground arith))
slash-inj (x ∷ c) (y ∷ d) (p, h) (q, k) e = ground (arith, slash-inj c d h k)

slash-ne : (c d : Str) → Lacks b'/' d → c ++ codes "/" ≢ d
slash-ne [] [] h e = cc
slash-ne [] (y ∷ d) (p, h) e = p (ground arith)
slash-ne (x ∷ c) [] h e = cc
slash-ne (x ∷ c) (y ∷ d) (p, h) e = ground (arith, slash-ne c d h)

entry_inj :
    (b : Builder) (p c d : Str) → Lacks b'/' c → Lacks b'/' d → entry b p c ≡ entry b p d → c ≡ d
entry_inj b p c d h k e = ground (arith, slash-inj c d h k, slash-ne c d k, slash-ne d c h)

map-entry-IsDistinct :
    (b : Builder) (p : Str) (s : UnorderedSet)
    → IsDistinct s
    → ((c : Str) → contains c s ≡ true → Lacks b'/' c)
    → IsDistinct (map (entry b p) s)
unfolding contains
map-entry-IsDistinct b p [] h l = tt
map-entry-IsDistinct b p (c ∷ s) (n, h) l = (
  apart (Bool-cases (contains (entry b p c) (map (entry b p) s))),
  map-entry-IsDistinct b p s h below,
)
  where
    below : (d : Str) → contains d s ≡ true → Lacks b'/' d
    below d m = l d (ground arith)

    apart :
        (contains (entry b p c) (map (entry b p) s) ≡ true)
          ⊎ (contains (entry b p c) (map (entry b p) s) ≡ false)
        → contains (entry b p c) (map (entry b p) s) ≡ false
    apart (inr absent) = absent
    apart (inl there) =
        let (d, m, e) = contains-map_sound (entry b p) (entry b p c) s there in
        let same = entry_inj b p d c (below d m) (l c (rw (str_eq_refl c) refl)) e in
        cc (n, m, ap (λ (x : Str). contains x s) same)

module _ (b : Builder) (p : Str) (s : UnorderedSet) where
  -- Whatever the order of the set, the children are ascending.
  pub children-IsAscending :
      IsDistinct s
      → ((c : Str) → contains c s ≡ true → Lacks b'/' c)
      → IsAscending (route_of b p s).children
  children-IsAscending h l =
      rw (children-route_of b p s) (sort_strings-IsAscending _ (map-entry-IsDistinct b p s h l))

  pub contains-children_iff :
      (x : Str)
      → (contains x (route_of b p s).children ≡ true)
        ↔ ((c : Str) × (contains c s ≡ true) × (entry b p c ≡ x))
  contains-children_iff x =
      rw (children-route_of b p s, contains-sort_strings x (map (entry b p) s))
        (contains-map_iff (entry b p) x s)
