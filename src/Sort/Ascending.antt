-- ===== src/Sort/Ascending.antt =====
-- Sorting gives an ascending list with the same elements, and an ascending list is determined by
-- its elements.
use tinkerbell_hegel.Prelude.{
  true, false, List, [], ◌∷◌, ◌≡◌, refl, ap, ap₂, ◌∙◌, arith, ◌||◌, Bool-cases, inl, inr,
}
use tinkerbell_hegel.Strings.{Str, str_eq, str_less}
use tinkerbell_hegel.Strings.Order.{
  str_eq_iff, str_eq_refl, str_less_trans, str_less_total, str_less_irrefl, str_less_asymm,
}
use tinkerbell_hegel.Strings.Members.{contains, IsDistinct}
use tinkerbell_hegel.Sort.{sort_insert, sort_strings}

-- Every element is after `a`.
abbrev pub IsBefore : Str → List Str → Type 0
IsBefore a [] = Unit
IsBefore a (x ∷ xs) = (str_less a x ≡ true) × IsBefore a xs

-- Each element is before all later ones; so none occurs twice.
abbrev pub IsAscending : List Str → Type 0
IsAscending [] = Unit
IsAscending (x ∷ xs) = IsBefore x xs × IsAscending xs

IsBefore-trans : (a b : Str) (xs : List Str) → str_less a b ≡ true → IsBefore b xs → IsBefore a xs
IsBefore-trans a b [] h k = tt
IsBefore-trans a b (x ∷ xs) h (p, k) = (str_less_trans a b x h p, IsBefore-trans a b xs h k)

abbrev insert_string : Str → List Str → List Str
insert_string = sort_insert (λ s. s)

contains-insert_string :
    (x a : Str) (xs : List Str) → contains x (insert_string a xs) ≡ (str_eq a x || contains x xs)
unfolding sort_insert contains
contains-insert_string x a [] = refl
contains-insert_string x a (y ∷ ys) = ground (arith, contains-insert_string x a ys)

pub contains-sort_strings : (x : Str) (xs : List Str) → contains x (sort_strings xs) ≡ contains x xs
unfolding sort_strings contains
contains-sort_strings x [] = refl
contains-sort_strings x (y ∷ ys) =
    contains-insert_string x y (sort_strings ys)
    ∙ ap (λ b. str_eq y x || b) (contains-sort_strings x ys)

IsBefore-insert :
    (b a : Str) (xs : List Str)
    → str_less b a ≡ true
    → IsBefore b xs
    → IsBefore b (insert_string a xs)
unfolding sort_insert
IsBefore-insert b a [] h k = (h, tt)
IsBefore-insert b a (y ∷ ys) h (p, k) = elim (Bool-cases (str_less y a)) [
  | inl lt ↦ rw lt (p, IsBefore-insert b a ys h k)
  | inr ge ↦ rw ge (h, (p, k))
]

insert_string-IsAscending :
    (a : Str) (xs : List Str)
    → contains a xs ≡ false
    → IsAscending xs
    → IsAscending (insert_string a xs)
unfolding sort_insert contains
insert_string-IsAscending a [] n h = (tt, tt)
insert_string-IsAscending a (y ∷ ys) n (p, h) = elim (Bool-cases (str_less y a)) [
  | inl lt ↦ rw lt (IsBefore-insert y a ys lt p, insert_string-IsAscending a ys (ground arith) h)
  | inr ge ↦
      let first : str_less a y ≡ true = ground (arith, str_less_total a y, str_eq_iff y a) in
      rw ge ((first, IsBefore-trans a y ys first p), (p, h))
]

pub sort_strings-IsAscending : (xs : List Str) → IsDistinct xs → IsAscending (sort_strings xs)
unfolding sort_strings
sort_strings-IsAscending [] h = tt
sort_strings-IsAscending (x ∷ xs) (n, h) =
    insert_string-IsAscending x (sort_strings xs) (contains-sort_strings x xs ∙ n)
      (sort_strings-IsAscending xs h)

not-contains_of_IsBefore : (a : Str) (xs : List Str) → IsBefore a xs → contains a xs ≡ false
unfolding contains
not-contains_of_IsBefore a [] h = refl
not-contains_of_IsBefore a (x ∷ xs) (p, h) =
    ground
      (arith, str_eq_iff x a, not-contains_of_IsBefore a xs h, str_less_irrefl a, str_less_irrefl x)

less_of_contains :
    (a x : Str) (xs : List Str) → IsBefore a xs → contains x xs ≡ true → str_less a x ≡ true
unfolding contains
less_of_contains a x [] h m = cc
less_of_contains a x (y ∷ ys) (p, h) m = elim (Bool-cases (str_eq y x)) [
  | inl e ↦ rw ((str_eq_iff y x).0 e) at p
  | inr n ↦ less_of_contains a x ys h (ground arith)
]

-- Two ascending lists with the same members are equal.
pub IsAscending-eq_of_contains :
    (xs ys : List Str)
    → IsAscending xs
    → IsAscending ys
    → ((x : Str) → contains x xs ≡ contains x ys)
    → xs ≡ ys
unfolding contains
IsAscending-eq_of_contains [] [] _ _ _ = refl
IsAscending-eq_of_contains [] (y ∷ ys) _ _ same = ground (arith, same y, str_eq_refl y)
IsAscending-eq_of_contains (x ∷ xs) [] _ _ same = ground (arith, same x, str_eq_refl x)
IsAscending-eq_of_contains (x ∷ xs) (y ∷ ys) (p, h) (q, k) same =
    ap₂ ◌∷◌ heads (IsAscending-eq_of_contains xs ys h k rest)
  where
    heads : x ≡ y
    heads = ground (
      arith,
      same x,
      same y,
      str_eq_refl x,
      str_eq_refl y,
      str_eq_iff x y,
      str_eq_iff y x,
      less_of_contains x y xs p,
      less_of_contains y x ys q,
      str_less_asymm x y,
    )

    rest : (z : Str) → contains z xs ≡ contains z ys
    rest z = ground (
      arith,
      same z,
      heads,
      str_eq_iff x z,
      str_eq_iff y z,
      not-contains_of_IsBefore x xs p,
      not-contains_of_IsBefore y ys q,
    )
