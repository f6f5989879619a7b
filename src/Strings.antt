-- ===== src/Strings.antt =====
-- The functions of Go's `strings` and `path` that the source calls, on bytes.
use mathlib.Core.List.{reverse}
use samogon.Base.{
  Text, ◌==◌, ℕ, Bool, true, false, ◌&&◌, ◌||◌, List, [], ◌∷◌, ◌++◌, if◌then◌else◌, Option, none,
  some, eqb, drop, length,
}

abbrev pub slash : ℕ
slash = b'/'

abbrev pub dot : ℕ
dot = b'.'

-- `strings.HasPrefix`
unfoldable pub has_prefix : Text → Text → Bool
has_prefix s [] = true
has_prefix [] (c ∷ p) = false
has_prefix (d ∷ s) (c ∷ p) = eqb d c && has_prefix s p

-- `strings.TrimPrefix`
unfoldable pub trim_prefix : Text → Text → Text
unfolding has_prefix
trim_prefix s p = if has_prefix s p then drop (length p) s else s

-- `strings.Contains`
unfoldable pub contains : Text → Text → Bool
unfolding has_prefix
contains [] p = has_prefix [] p
contains (c ∷ s) p = has_prefix (c ∷ s) p || contains s p

-- `strings.Index(s, "/")` with both sides of the cut: what stands before the first slash and, if
-- there is a slash, what stands behind it.
unfoldable pub cut : Text → Text × Option Text
cut [] = ([], none)
cut (c ∷ s) = let (a, b) = cut s in if eqb c slash then ([], some s) else (c ∷ a, b)

-- `strings.Split(s, "/")`
unfoldable pub split_slash : Text → List Text
split_slash [] = [] ∷ []
split_slash (c ∷ s) = elim (split_slash s) [
  | [] ↦ []
  | part ∷ parts ↦ if eqb c slash then [] ∷ (part ∷ parts) else (c ∷ part) ∷ parts
]

-- `strings.Join(parts, "/")`
unfoldable pub join : List Text → Text
join [] = []
join (p ∷ []) = p
join (p ∷ q ∷ ps) = p ++ (slash ∷ join (q ∷ ps))

-- `strings.TrimLeft(s, "/")`, `strings.TrimRight(s, "/")` and `strings.Trim(s, "/")`
unfoldable pub trim_left : Text → Text
trim_left [] = []
trim_left (c ∷ s) = let rest = trim_left s in if eqb c slash then rest else c ∷ s

unfoldable pub trim_right : Text → Text
trim_right [] = []
trim_right (c ∷ s) = elim (trim_right s) [
  | [] ↦ if eqb c slash then [] else c ∷ []
  | d ∷ r ↦ c ∷ (d ∷ r)
]

unfoldable pub trim : Text → Text
unfolding trim_left trim_right
trim s = trim_right (trim_left s)

abbrev pub last : List Text → Text
last [] = []
last (p ∷ []) = p
last (p ∷ q ∷ ps) = last (q ∷ ps)

-- `path.Base`
unfoldable pub base : Text → Text
unfolding trim_right split_slash
base p =
    if p == []
    then dot ∷ []
    else let q = last (split_slash (trim_right p)) in if q == [] then slash ∷ [] else q

-- The walk of `path.Clean` over the parts of a rooted path: empty parts and "." are skipped and
-- ".." takes back the part before it. `stack` holds the parts kept, the last one first.
unfoldable pub clean_parts : List Text → List Text → List Text
clean_parts [] stack = stack
clean_parts (p ∷ ps) stack = clean_parts ps (
    if p == [] || p == dot ∷ []
    then stack
    else if p == dot ∷ dot ∷ []
    then drop 1 stack
    else p ∷ stack)

-- `path.Clean("/" + p)`
unfoldable pub clean_rooted : Text → Text
unfolding split_slash clean_parts join
clean_rooted p = slash ∷ join (reverse (clean_parts (split_slash p) []))
