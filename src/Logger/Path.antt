-- ===== src/Logger/Path.antt =====
-- The path that is logged tells the parts of the URL apart.
use tinkerbell_hegel.Prelude.{ℕ, [], ◌∷◌, ◌++◌, ◌≡◌, ◌≢◌, refl, arith, ◌==◌, if◌then◌else◌}
use tinkerbell_hegel.Strings.{Str, str_eq}
use tinkerbell_hegel.Strings.Split.{Lacks}
use tinkerbell_hegel.Logger.{Url, path_of}

-- The text before the first of a byte, and the text behind it.
unfoldable pub cut : ℕ → Str → Str × Str
cut b [] = ([], [])
cut b (c ∷ s) = let rest = cut b s in if c == b then ([], s) else (c ∷ rest.0, rest.1)

-- The parts of the URL, read from the path that is logged.
abbrev pub read_path : Str → Url
read_path s =
    let (before, raw_fragment) = cut b'#' s in
    let (path, raw_query) = cut b'?' before in
    record { path = path; raw_query = raw_query; raw_fragment = raw_fragment }

-- what `path_of` writes for a part
abbrev part : ℕ → Str → Str
part b [] = []
part b (c ∷ s) = b ∷ c ∷ s

cut-part : (b : ℕ) (s t : Str) → Lacks b s → cut b (s ++ part b t) ≡ (s, t)
unfolding cut
cut-part b [] [] h = refl
cut-part b [] (c ∷ t) h = ground arith
cut-part b (c ∷ s) t (n, h) = ground (arith, cut-part b s t h)

if-part : (b : ℕ) (s : Str) → (if str_eq s [] then [] else (b ∷ []) ++ s) ≡ part b s
unfolding str_eq
if-part b [] = refl
if-part b (c ∷ s) = refl

Lacks-part : (b c : ℕ) (s t : Str) → b ≢ c → Lacks c s → Lacks c t → Lacks c (s ++ part b t)
Lacks-part b c [] [] n h k = tt
Lacks-part b c [] (x ∷ t) n h k = (n, k)
Lacks-part b c (x ∷ s) t n (m, h) k = (m, Lacks-part b c s t n h k)

-- The URL is read back from the path that is logged, where the path has no `?` and neither the path
-- nor the query has a `#`.
pub read_path-path_of :
    (u : Url)
    → Lacks b'?' u.path
    → Lacks b'#' u.path
    → Lacks b'#' u.raw_query
    → read_path (path_of u) ≡ u
unfolding path_of
read_path-path_of u h k l =
    rw (if-part b'?' u.raw_query, if-part b'#' u.raw_fragment)
      (rw
        (
          cut-part b'#' (u.path ++ part b'?' u.raw_query) u.raw_fragment
              (Lacks-part b'?' b'#' u.path u.raw_query (λ e. omega arith) k l),
          cut-part b'?' u.path u.raw_query h,
        )
        refl)
