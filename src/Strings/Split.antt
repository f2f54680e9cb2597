-- ===== src/Strings/Split.antt =====
-- Splitting and joining undo one another.
use tinkerbell_hegel.Prelude.{ℕ, List, [], ◌∷◌, ◌++◌, ◌≡◌, ◌≢◌, refl, ap, ◌∙◌, arith, All}
use tinkerbell_hegel.Strings.{Str, onto_head, split, join}

-- No byte of the text is `b`.
abbrev pub Lacks : ℕ → Str → Type 0
Lacks b = All (λ c. c ≢ b)

pub split-ne-nil : (s : Str) (sep : ℕ) → split s sep ≢ []
unfolding split
split-ne-nil [] sep = cc
split-ne-nil (c ∷ s) sep = ground (arith, split-ne-nil s sep)

join-onto_head :
    (c : ℕ) (ps : List Str) (sep : ℕ) → ps ≢ [] → join (onto_head c ps) sep ≡ c ∷ join ps sep
unfolding join
join-onto_head c [] sep h = absurd (h refl)
join-onto_head c (p ∷ []) sep h = refl
join-onto_head c (p ∷ q ∷ ps) sep h = refl

join-nil-cons : (ps : List Str) (sep : ℕ) → ps ≢ [] → join ([] ∷ ps) sep ≡ sep ∷ join ps sep
unfolding join
join-nil-cons [] sep h = absurd (h refl)
join-nil-cons (p ∷ ps) sep h = refl

pub join-split : (s : Str) (sep : ℕ) → join (split s sep) sep ≡ s
unfolding split
join-split [] sep = unfold join in refl
join-split (c ∷ s) sep = ground (
  arith,
  join-split s sep,
  split-ne-nil s sep,
  join-onto_head c (split s sep) sep,
  join-nil-cons (split s sep) sep,
)

onto_head-Lacks :
    (c : ℕ) (ps : List Str) (sep : ℕ)
    → c ≢ sep
    → All (Lacks sep) ps
    → All (Lacks sep) (onto_head c ps)
onto_head-Lacks c [] sep h _ = ((h, tt), tt)
onto_head-Lacks c (p ∷ ps) sep h (hp, hps) = ((h, hp), hps)

pub split-Lacks : (s : Str) (sep : ℕ) → All (Lacks sep) (split s sep)
unfolding split
split-Lacks [] sep = (tt, tt)
split-Lacks (c ∷ s) sep = ground (arith, split-Lacks s sep, onto_head-Lacks c (split s sep) sep)

-- A text without the separator is its only part.
pub split_of_Lacks : (p : Str) (sep : ℕ) → Lacks sep p → split p sep ≡ p ∷ []
unfolding split
split_of_Lacks [] sep _ = refl
split_of_Lacks (c ∷ p) sep (hc, hp) = ground (arith, split_of_Lacks p sep hp)

split-append : (p s : Str) (sep : ℕ) → Lacks sep p → split (p ++ sep ∷ s) sep ≡ p ∷ split s sep
unfolding split
split-append [] s sep _ = ground arith
split-append (c ∷ p) s sep (hc, hp) = ground (arith, split-append p s sep hp)

pub split-join :
    (ps : List Str) (sep : ℕ) → ps ≢ [] → All (Lacks sep) ps → split (join ps sep) sep ≡ ps
unfolding join
split-join [] sep h _ = absurd (h refl)
split-join (p ∷ []) sep h (hp, _) = split_of_Lacks p sep hp
split-join (p ∷ q ∷ ps) sep h (hp, hps) =
    split-append p (join (q ∷ ps) sep) sep hp ∙ ap (◌∷◌ p) (split-join (q ∷ ps) sep (cc) hps)
