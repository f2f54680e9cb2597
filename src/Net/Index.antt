-- ===== src/Net/Index.antt =====
-- The first of a byte in a text, and the text around it.
use tinkerbell_hegel.Prelude.{
  ℕ, suc, [], ◌∷◌, ◌++◌, ◌≡◌, refl, ap, arith, some, length, take, drop, ◌==◌, Bool-cases,
  Option-cases, inl, inr,
}
use tinkerbell_hegel.Strings.{Str}
use tinkerbell_hegel.Strings.Split.{Lacks}
use tinkerbell_hegel.Net.{index_byte}

pub index_byte-append :
    (s t : Str) (b : ℕ) → Lacks b s → index_byte (s ++ b ∷ t) b ≡ some (length s)
unfolding index_byte
index_byte-append [] t b h = ground arith
index_byte-append (c ∷ s) t b (p, h) = ground (arith, index_byte-append s t b h)

pub take-append : (s t : Str) → take (length s) (s ++ t) ≡ s
take-append [] [] = refl
take-append [] (c ∷ t) = refl
take-append (c ∷ s) t = ap (◌∷◌ c) (take-append s t)

pub drop-append : (s t : Str) → drop (length s) (s ++ t) ≡ t
drop-append [] t = refl
drop-append (c ∷ s) t = drop-append s t

pub drop-suc-append : (s t : Str) (b : ℕ) → drop (suc (length s)) (s ++ b ∷ t) ≡ t
drop-suc-append [] t b = refl
drop-suc-append (c ∷ s) t b = drop-suc-append s t b

pub take-drop_of_index :
    (s : Str) (b i : ℕ) → index_byte s b ≡ some i → s ≡ take i s ++ b ∷ drop (suc i) s
unfolding index_byte
take-drop_of_index [] b i h = cc
take-drop_of_index (c ∷ s) b i h = elim (Bool-cases (c == b)) [
  | inl here ↦ ground (arith, here, h)
  | inr other ↦ elim (Option-cases (index_byte s b)) [
    | inl absent ↦ cc (rw (other, absent) at h)
    | inr (k, e) ↦
        let next : i ≡ suc k = ground (arith, other, e, h) in
        rw next (ap (◌∷◌ c) (take-drop_of_index s b k e))
  ]
]
