-- ===== src/Segments/Laws.antt =====
-- Segments of logical paths: what they look like, and that the backend reads what the agent writes.
use mathlib.Core.Bool.{false≢true}
use mathlib.Core.Path.{subst}
use sagiri_guard.Base.{
  length, ◌≤◌, ℕ, suc, ◌≡◌, refl, sym, ap, ◌∙◌, Bool, true, false, Bool-cases, inl, inr, ◌||◌, ◌&&◌,
  List, [], ◌∷◌, ◌++◌, if◌then◌else◌, nat_eq, is_nil, any, All, All-append, Option, none, some, ◌⊎◌,
  arith,
}
use sagiri_guard.Base.Text.{
  Text, lit, text_eq, is_space, trim_left, trim_right, trim_space, trim_left_idem, split, join,
  onto_first,
}
use sagiri_guard.Segments.{
  slash, trimmed, Filepath, split_segments, below_root, from_root, is_under, search_roots,
  build_logical_segments, agent_segments, last_or, split_path,
}

abbrev pub has_byte : ℕ → Text → Bool
has_byte b = any (λ c. nat_eq c b)

-- a segment is not empty, has no slash, and no white space at its ends
abbrev pub IsSegment : Text → Type 0
IsSegment s = (is_nil s ≡ false) × ((has_byte slash s ≡ false) × (trim_space s ≡ s))

no_byte : (a b : Bool) → (a || b) ≡ false → (a ≡ false) × (b ≡ false)
no_byte a b h = ground arith

trim_left-no_byte : (b : ℕ) (s : Text) → has_byte b s ≡ false → has_byte b (trim_left s) ≡ false
unfolding trim_left
trim_left-no_byte b [] h = refl
trim_left-no_byte b (c ∷ s) h =
    let parts = no_byte (nat_eq c b) (has_byte b s) h in
    elim (Bool-cases (is_space c)) [ inl e ↦ rw e (trim_left-no_byte b s parts.1) | inr e ↦ rw e h ]

trim_right-no_byte : (b : ℕ) (s : Text) → has_byte b s ≡ false → has_byte b (trim_right s) ≡ false
unfolding trim_right
trim_right-no_byte b [] h = refl
trim_right-no_byte b (c ∷ s) h =
    let parts = no_byte (nat_eq c b) (has_byte b s) h in
    elim (Bool-cases (is_space c && is_nil (trim_right s))) [
      | inl e ↦ rw e
      | inr e ↦ rw (e, parts.0) (trim_right-no_byte b s parts.1)
    ]

trim_right_idem : (s : Text) → trim_right (trim_right s) ≡ trim_right s
unfolding trim_right
trim_right_idem [] = refl
trim_right_idem (c ∷ s) =
    let ih = trim_right_idem s in
    elim (Bool-cases (is_space c && is_nil (trim_right s))) [ inl e ↦ rw e | inr e ↦ rw (e, ih, e) ]

length-trim_left : (s : Text) → length (trim_left s) ≤ length s
unfolding trim_left
length-trim_left [] = omega arith
length-trim_left (c ∷ s) = ground (arith, length-trim_left s)

-- a text that trimming at the front leaves alone keeps that when it is trimmed at the end
trim_left-trim_right : (s : Text) → trim_left s ≡ s → trim_left (trim_right s) ≡ trim_right s
unfolding trim_left trim_right
trim_left-trim_right [] h = refl
trim_left-trim_right (c ∷ s) h = elim (Bool-cases (is_space c)) [
  | inl e ↦
      let shorter = length-trim_left s in
      let same : length (trim_left s) ≡ suc (length s) = ap length (rw e at h) in
      absurd (omega arith)
  | inr e ↦ rw (e, e)
]

trim_space_idem : (s : Text) → trim_space (trim_space s) ≡ trim_space s
unfolding trim_space
trim_space_idem s =
    ap trim_right (trim_left-trim_right (trim_left s) (trim_left_idem s))
    ∙ trim_right_idem (trim_left s)

onto_first-no_byte :
    (b c : ℕ) (ts : List Text)
    → nat_eq c b ≡ false
    → All (λ t. has_byte b t ≡ false) ts
    → All (λ t. has_byte b t ≡ false) (onto_first c ts)
onto_first-no_byte b c [] h k = (rw h, tt)
onto_first-no_byte b c (t ∷ ts) h k = (rw h k.0, k.1)

split-no_byte : (b : ℕ) (s : Text) → All (λ t. has_byte b t ≡ false) (split b s)
unfolding split
split-no_byte b [] = (refl, tt)
split-no_byte b (c ∷ s) =
    let ih = split-no_byte b s in
    elim (Bool-cases (nat_eq c b)) [
      | inl e ↦ rw e (refl, ih)
      | inr e ↦ rw e (onto_first-no_byte b c (split b s) e ih)
    ]

trim_space-no_byte : (b : ℕ) (s : Text) → has_byte b s ≡ false → has_byte b (trim_space s) ≡ false
unfolding trim_space
trim_space-no_byte b s h = trim_right-no_byte b (trim_left s) (trim_left-no_byte b s h)

trimmed_more :
    (part : Text) (parts : List Text)
    → is_nil (trim_space part) ≡ false
    → trimmed (part ∷ parts) ≡ trim_space part ∷ trimmed parts
unfolding trimmed
trimmed_more part parts e = rw e

trimmed-IsSegment :
    (parts : List Text) → All (λ t. has_byte slash t ≡ false) parts → All IsSegment (trimmed parts)
unfolding trimmed
trimmed-IsSegment [] h = tt
trimmed-IsSegment (part ∷ parts) h =
    let ih = trimmed-IsSegment parts h.1 in
    elim (Bool-cases (is_nil (trim_space part))) [
      | inl e ↦ rw e ih
      | inr e ↦
          subst (All IsSegment) (sym (trimmed_more part parts e))
            ((e, (trim_space-no_byte slash part h.0, trim_space_idem part)), ih)
    ]

-- For all functions of package filepath and all paths: each segment of the path is not empty, has no
-- slash, and has no white space at its ends.
split_segments-IsSegment : (F : Filepath) (p : Text) → All IsSegment (split_segments F p)
unfolding split_segments
split_segments-IsSegment F p = elim (Bool-cases (is_nil p)) [
  | inl e ↦ rw e tt
  | inr e ↦
      subst (All IsSegment)
        (ap (λ b. if b then [] else trimmed (split slash (F.to_slash p))) (sym e))
        (trimmed-IsSegment (split slash (F.to_slash p)) (split-no_byte slash (F.to_slash p)))
]

split_clean : (b : ℕ) (s : Text) → has_byte b s ≡ false → split b s ≡ s ∷ []
unfolding split
split_clean b [] h = refl
split_clean b (c ∷ s) h =
    let parts = no_byte (nat_eq c b) (has_byte b s) h in rw (parts.0, split_clean b s parts.1)

same_byte : (b : ℕ) → nat_eq b b ≡ true
same_byte b = ground arith

split_first :
    (b : ℕ) (s rest : Text) → has_byte b s ≡ false → split b (s ++ (b ∷ rest)) ≡ s ∷ split b rest
unfolding split
split_first b [] rest h = rw (same_byte b)
split_first b (c ∷ s) rest h =
    let parts = no_byte (nat_eq c b) (has_byte b s) h in rw (parts.0, split_first b s rest parts.1)

-- splitting what was joined gives the segments back
split-join :
    (t : Text) (ts : List Text)
    → All IsSegment (t ∷ ts)
    → split slash (join slash (t ∷ ts)) ≡ t ∷ ts
unfolding join
split-join t [] h = split_clean slash t h.0.1.0
split-join t (u ∷ ts) h =
    split_first slash t (join slash (u ∷ ts)) h.0.1.0 ∙ ap (λ l. t ∷ l) (split-join u ts h.1)

trimmed_segments : (ts : List Text) → All IsSegment ts → trimmed ts ≡ ts
unfolding trimmed
trimmed_segments [] h = refl
trimmed_segments (t ∷ ts) h = rw (h.0.1.1, h.0.0) (ap (λ l. t ∷ l) (trimmed_segments ts h.1))

join-not_nil : (t : Text) (ts : List Text) → is_nil t ≡ false → is_nil (join slash (t ∷ ts)) ≡ false
unfolding join
join-not_nil t [] h = h
join-not_nil [] (u ∷ ts) h = absurd (false≢true (sym h))
join-not_nil (c ∷ t) (u ∷ ts) h = refl

-- the name of a root is empty or a segment
abbrev pub IsRootName : Text → Type 0
IsRootName s = (is_nil s ≡ true) ⊎ IsSegment s

below_root-IsSegment :
    (F : Filepath) (root rel : Text)
    → IsRootName (F.base root)
    → All IsSegment (below_root F root rel)
below_root-IsSegment F root rel h =
    let names : List Text = if is_nil (F.base root) then [] else F.base root ∷ [] in
    let name : All IsSegment names = root_name (F.base root) h in
    elim (text_eq rel (lit "."))
      as (λ b.
        All IsSegment (if b then names else names ++ trimmed (split slash (F.to_slash rel)))) [
          | true ↦ name
          | false ↦ All-append IsSegment names (trimmed (split slash (F.to_slash rel))) name (
              trimmed-IsSegment (split slash (F.to_slash rel))
                (split-no_byte slash (F.to_slash rel)))
        ]
  where
    root_name : (s : Text) → IsRootName s → All IsSegment (if is_nil s then [] else s ∷ [])
    root_name [] n = tt
    root_name (c ∷ s) (inl n) = absurd (false≢true n)
    root_name (c ∷ s) (inr n) = (n, tt)

from_root-IsSegment :
    (F : Filepath) (p root : Text) (o : Option Text)
    → IsRootName (F.base root)
    → All IsSegment (from_root F p root o)
from_root-IsSegment F p root none h = split_segments-IsSegment F p
from_root-IsSegment F p root (some rel) h = below_root-IsSegment F root rel h

-- the name of every monitored root is empty or a segment
abbrev pub NamesRoots : Filepath → List Text → Type 0
NamesRoots F roots = All (λ root. (a : Text) → F.abs root ≡ some a → IsRootName (F.base a)) roots

All-if :
    (b : Bool) (xs ys : List Text)
    → All IsSegment xs
    → All IsSegment ys
    → All IsSegment (if b then xs else ys)
All-if true xs ys h k = h
All-if false xs ys h k = k

search_roots-IsSegment :
    (F : Filepath) (roots : List Text) (p path : Text)
    → NamesRoots F roots
    → All IsSegment (search_roots F roots p path)
unfolding search_roots
search_roots-IsSegment F [] p path h = split_segments-IsSegment F p
search_roots-IsSegment F (root ∷ roots) p path h =
    let rest = search_roots-IsSegment F roots p path h.1 in
    All-if (is_nil (trim_space root)) _ _ rest (found (F.abs root) refl rest)
  where
    found :
        (o : Option Text)
        → F.abs root ≡ o
        → All IsSegment (search_roots F roots p path)
        → All IsSegment (elim o [
          | none ↦ search_roots F roots p path
          | some a ↦
              if is_under F path a
              then from_root F p a (F.rel a path)
              else search_roots F roots p path
        ])
    found none e r = r
    found (some a) e r =
        All-if (is_under F path a) _ _ (from_root-IsSegment F p a (F.rel a path) (h.0 a e)) r

build_logical_segments-IsSegment :
    (F : Filepath) (roots : List Text) (p : Text)
    → NamesRoots F roots
    → All IsSegment (build_logical_segments F roots p)
unfolding build_logical_segments
build_logical_segments-IsSegment F roots p h =
    All-if (is_nil roots || is_nil (trim_space p)) _ _ (split_segments-IsSegment F p)
      (found (F.abs p))
  where
    found :
        (o : Option Text)
        → All IsSegment
            (elim o [ none ↦ split_segments F p | some path ↦ search_roots F roots p path ])
    found none = split_segments-IsSegment F p
    found (some path) = search_roots-IsSegment F roots p path h

agent_segments-IsSegment :
    (F : Filepath) (roots : List Text) (p : Text)
    → NamesRoots F roots
    → All IsSegment (agent_segments F roots p)
unfolding agent_segments
agent_segments-IsSegment F roots p h =
    All-if (is_nil (build_logical_segments F roots p)) _ _ (split_segments-IsSegment F p)
      (build_logical_segments-IsSegment F roots p h)

-- For all functions of package filepath on the agent, monitored roots whose names are empty or
-- segments (not a slash, and no white space at the ends), a backend whose ToSlash leaves texts as
-- they are, and paths with at least one segment: the backend splits the logical path that the agent
-- sends, its segments below the roots joined by slashes, into the agent's segments, and takes the
-- last as the name.
pub backend_agrees :
    (F : Filepath) (roots : List Text) (to_slash : Text → Text) (p name t : Text) (ts : List Text)
    → NamesRoots F roots
    → ((x : Text) → to_slash x ≡ x)
    → agent_segments F roots p ≡ t ∷ ts
    → split_path to_slash (join slash (agent_segments F roots p)) name
      ≡ (agent_segments F roots p, last_or name (agent_segments F roots p))
unfolding split_path
backend_agrees F roots to_slash p name t ts named same e =
    let good : All IsSegment (t ∷ ts) =
      subst (All IsSegment) e (agent_segments-IsSegment F roots p named) in
    let parts : trimmed (split slash (to_slash (join slash (t ∷ ts)))) ≡ t ∷ ts =
      ap (λ x. trimmed (split slash x)) (same (join slash (t ∷ ts)))
      ∙ (ap trimmed (split-join t ts good) ∙ trimmed_segments (t ∷ ts) good) in
    rw e (rw (join-not_nil t ts good.0.0, parts))
