-- ===== src/Base/Text.antt =====
-- Texts that the program walks, as lists of bytes, with what it uses of Go's package `strings`
-- (on ASCII: white space is tab to carriage return and the blank, letters are A to Z).
use Prim.Native.Char.{code}
use sagiri_guard.Base.Tests.{leb, nat_eq, if◌then◌else◌}
use sagiri_guard.Base.Lists.{any, is_nil}
use Prim.Native.Nat.{ℕ, ◌+◌}
use Prim.Native.String.{String}
use mathlib.Core.Path.{◌≡◌, refl}
use mathlib.Core.Logic.{◌↔◌}
use mathlib.Core.Bool.{Bool, true, false, ◌&&◌, ◌||◌}
use mathlib.Core.List.{List, [], ◌∷◌, ◌++◌}
use native.Mathlib.Omega.{arith}

abbrev pub Text : Type 0
Text = List ℕ

-- the bytes of a literal
abbrev pub lit : String → Text
lit String.[] = []
lit (String.◌∷◌ c s) = code c ∷ lit s

unfoldable pub text_eq : Text → Text → Bool
text_eq [] [] = true
text_eq [] (d ∷ t) = false
text_eq (c ∷ s) [] = false
text_eq (c ∷ s) (d ∷ t) = nat_eq c d && text_eq s t

pub text_eq_refl : (s : Text) → text_eq s s ≡ true
unfolding text_eq
text_eq_refl [] = refl
text_eq_refl (c ∷ s) = ground (arith, text_eq_refl s)

pub text_eq→eq : (s t : Text) → text_eq s t ≡ true → s ≡ t
unfolding text_eq
text_eq→eq [] [] h = refl
text_eq→eq [] (d ∷ t) h = cc
text_eq→eq (c ∷ s) [] h = cc
text_eq→eq (c ∷ s) (d ∷ t) h = ground (arith, text_eq→eq s t)

pub text_eq_iff : (s t : Text) → (text_eq s t ≡ true) ↔ (s ≡ t)
text_eq_iff s t = (text_eq→eq s t, λ e. rw (← e) (text_eq_refl s))

-- whether the text is among those of the list
unfoldable pub elem : Text → List Text → Bool
elem k [] = false
elem k (t ∷ ts) = text_eq k t || elem k ts

-- unicode.IsSpace, on ASCII
abbrev pub is_space : ℕ → Bool
is_space c = leb 9 c && leb c 13 || nat_eq c 32

unfoldable pub trim_left : Text → Text
trim_left [] = []
trim_left (c ∷ s) = let rest = trim_left s in if is_space c then rest else c ∷ s

unfoldable pub trim_right : Text → Text
trim_right [] = []
trim_right (c ∷ s) = let rest = trim_right s in if is_space c && is_nil rest then [] else c ∷ rest

-- strings.TrimSpace
unfoldable pub trim_space : Text → Text
unfolding trim_left trim_right
trim_space s = trim_right (trim_left s)

abbrev pub is_upper : ℕ → Bool
is_upper c = leb 65 c && leb c 90

abbrev pub lower : ℕ → ℕ
lower c = if is_upper c then c + 32 else c

-- strings.ToLower
unfoldable pub to_lower : Text → Text
to_lower [] = []
to_lower (c ∷ s) = lower c ∷ to_lower s

-- strings.HasPrefix(s, prefix)
unfoldable pub has_prefix : Text → Text → Bool
has_prefix s [] = true
has_prefix [] (d ∷ p) = false
has_prefix (c ∷ s) (d ∷ p) = nat_eq c d && has_prefix s p

-- strings.Contains(s, substr)
unfoldable pub contains : Text → Text → Bool
unfolding has_prefix
contains [] p = is_nil p
contains (c ∷ s) p = has_prefix (c ∷ s) p || contains s p

-- strings.HasSuffix(s, suffix)
unfoldable pub has_suffix : Text → Text → Bool
unfolding text_eq
has_suffix [] p = is_nil p
has_suffix (c ∷ s) p = text_eq (c ∷ s) p || has_suffix s p

-- the first segment of a split, put before the others
abbrev pub onto_first : ℕ → List Text → List Text
onto_first c [] = (c ∷ []) ∷ []
onto_first c (t ∷ ts) = (c ∷ t) ∷ ts

-- strings.Split(s, sep), for a separator of one byte
unfoldable pub split : ℕ → Text → List Text
split sep [] = [] ∷ []
split sep (c ∷ s) = let rest = split sep s in if nat_eq c sep then [] ∷ rest else onto_first c rest

-- strings.Join(elems, sep)
unfoldable pub join : ℕ → List Text → Text
join sep [] = []
join sep (t ∷ []) = t
join sep (t ∷ u ∷ ts) = t ++ (sep ∷ join sep (u ∷ ts))

-- No byte of the text passes the test of upper case.
pub to_lower-any-is_upper : (s : Text) → any is_upper (to_lower s) ≡ false
unfolding to_lower
to_lower-any-is_upper [] = refl
to_lower-any-is_upper (c ∷ s) = ground (arith, to_lower-any-is_upper s)

pub has_prefix-any :
    (p : ℕ → Bool) (s t : Text) → has_prefix s t ≡ true → any p t ≡ true → any p s ≡ true
unfolding has_prefix
has_prefix-any p s [] h k = cc
has_prefix-any p [] (d ∷ t) h k = cc
has_prefix-any p (c ∷ s) (d ∷ t) h k = ground (arith, has_prefix-any p s t)

-- What a text contains has no byte that the text has not.
pub contains-any :
    (p : ℕ → Bool) (s t : Text) → contains s t ≡ true → any p t ≡ true → any p s ≡ true
unfolding contains
contains-any p [] [] h k = k
contains-any p [] (d ∷ t) h k = cc
contains-any p (c ∷ s) t h k = ground (arith, has_prefix-any p (c ∷ s) t, contains-any p s t)

-- A text contains itself.
pub has_prefix_refl : (s : Text) → has_prefix s s ≡ true
unfolding has_prefix
has_prefix_refl [] = refl
has_prefix_refl (c ∷ s) = ground (arith, has_prefix_refl s)

pub contains_refl : (s : Text) → contains s s ≡ true
unfolding contains
contains_refl [] = refl
contains_refl (c ∷ s) = rw (has_prefix_refl (c ∷ s))

pub split-ne-nil : (sep : ℕ) (s : Text) → is_nil (split sep s) ≡ false
unfolding split
split-ne-nil sep [] = refl
split-ne-nil sep (c ∷ s) = ground arith

join-onto_first :
    (sep c : ℕ) (ts : List Text) → is_nil ts ≡ false → join sep (onto_first c ts) ≡ c ∷ join sep ts
unfolding join
join-onto_first sep c [] h = cc
join-onto_first sep c (t ∷ []) h = refl
join-onto_first sep c (t ∷ u ∷ ts) h = refl

join-empty_first :
    (sep : ℕ) (ts : List Text) → is_nil ts ≡ false → join sep ([] ∷ ts) ≡ sep ∷ join sep ts
unfolding join
join-empty_first sep [] h = cc
join-empty_first sep (t ∷ ts) h = refl

-- Joining the parts of a split gives the text back.
pub join-split : (sep : ℕ) (s : Text) → join sep (split sep s) ≡ s
unfolding split
join-split sep [] = unfold join in refl
join-split sep (c ∷ s) = ground (
  arith,
  join-split sep s,
  split-ne-nil sep s,
  join-onto_first sep c (split sep s),
  join-empty_first sep (split sep s),
)

-- Trimming leaves no white space at the front.
pub trim_left_idem : (s : Text) → trim_left (trim_left s) ≡ trim_left s
unfolding trim_left
trim_left_idem [] = refl
trim_left_idem (c ∷ s) = ground (arith, trim_left_idem s)
