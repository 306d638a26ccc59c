-- ===== src/Firewall/Lines.antt =====
-- Writing lines to the hosts file and scanning them again.
use sagiri_guard.Base.{
  ℕ, ◌≡◌, refl, ap, sym, ◌∙◌, Bool, false, List, [], ◌∷◌, ◌++◌, map, arith, is_nil, any, All,
  any-append,
}
use mathlib.Core.Path.{ap₂}
use mathlib.Core.List.{append_assoc, map-append}
use sagiri_guard.Base.Text.{Text, onto_first}
use sagiri_guard.Firewall.{is_newline, is_cr, raw_lines, drop_cr, scan_lines, unlines}

-- No byte of the text passes the test.
abbrev pub Free : (ℕ → Bool) → Text → Type 0
Free p s = any p s ≡ false

-- A line that a write and a scan give back as it was.
abbrev pub IsClean : Text → Type 0
IsClean l = Free is_newline l × Free is_cr l

-- what the next scan makes of lines that are written
unfoldable pub reread : List Text → List Text
reread ls = scan_lines (unlines ls)

onto_first-append :
    (c : ℕ) (xs ys : List Text)
    → is_nil xs ≡ false
    → onto_first c (xs ++ ys) ≡ onto_first c xs ++ ys
onto_first-append c [] ys h = cc
onto_first-append c (x ∷ xs) ys h = refl

raw_lines-ne-nil : (a : Text) → is_nil (raw_lines (a ++ (10 ∷ []))) ≡ false
unfolding raw_lines
raw_lines-ne-nil [] = refl
raw_lines-ne-nil (c ∷ a) = ground arith

raw_lines-append :
    (a b : Text) → raw_lines (a ++ (10 ∷ b)) ≡ raw_lines (a ++ (10 ∷ [])) ++ raw_lines b
unfolding raw_lines
raw_lines-append [] b = refl
raw_lines-append (c ∷ a) b = ground (
  arith,
  raw_lines-append a b,
  raw_lines-ne-nil a,
  onto_first-append c (raw_lines (a ++ (10 ∷ []))) (raw_lines b),
)

raw_lines-line : (l : Text) → Free is_newline l → raw_lines (l ++ (10 ∷ [])) ≡ l ∷ []
unfolding raw_lines
raw_lines-line [] h = refl
raw_lines-line (c ∷ l) h = ground (arith, raw_lines-line l)

raw_lines-unlines-append :
    (ls : List Text) (t : Text)
    → raw_lines (unlines ls ++ t) ≡ raw_lines (unlines ls) ++ raw_lines t
unfolding unlines
raw_lines-unlines-append [] t = unfold raw_lines in refl
raw_lines-unlines-append (l ∷ ls) t = simp (
  append_assoc,
  raw_lines-append l (unlines ls ++ t),
  raw_lines-append l (unlines ls),
  raw_lines-unlines-append ls t,
)

unlines-append : (xs ys : List Text) → unlines (xs ++ ys) ≡ unlines xs ++ unlines ys
unfolding unlines
unlines-append [] ys = refl
unlines-append (l ∷ ls) ys =
    rw (unlines-append ls ys) (sym (append_assoc l (10 ∷ unlines ls) (unlines ys)))

pub reread-append : (xs ys : List Text) → reread (xs ++ ys) ≡ reread xs ++ reread ys
unfolding reread scan_lines
reread-append xs ys = simp (unlines-append, raw_lines-unlines-append xs (unlines ys), map-append)

drop_cr-of_Free : (l : Text) → Free is_cr l → drop_cr l ≡ l
unfolding drop_cr
drop_cr-of_Free [] h = refl
drop_cr-of_Free (c ∷ l) h = ground (arith, drop_cr-of_Free l)

pub reread-line : (l : Text) → IsClean l → reread (l ∷ []) ≡ l ∷ []
unfolding reread scan_lines unlines
reread-line l h = rw (raw_lines-line l h.0) (ap (λ x. x ∷ []) (drop_cr-of_Free l h.1))

-- Clean lines come back as they were.
pub reread-of_clean : (ls : List Text) → All IsClean ls → reread ls ≡ ls
reread-of_clean [] h = unfold reread scan_lines unlines raw_lines in refl
reread-of_clean (l ∷ ls) h =
    reread-append (l ∷ []) ls ∙ ap₂ (λ x y. x ++ y) (reread-line l h.0) (reread-of_clean ls h.1)

any-onto_first :
    (p : ℕ → Bool) (c : ℕ) (ts : List Text)
    → p c ≡ false
    → All (Free p) ts
    → All (Free p) (onto_first c ts)
any-onto_first p c [] h k = (rw h, tt)
any-onto_first p c (t ∷ ts) h k = (rw h k.0, k.1)

any-raw_lines : (p : ℕ → Bool) (s : Text) → Free p s → All (Free p) (raw_lines s)
unfolding raw_lines
any-raw_lines p [] h = tt
any-raw_lines p (c ∷ s) h = ground (arith, any-raw_lines p s, any-onto_first p c (raw_lines s))

any-drop_cr : (p : ℕ → Bool) (l : Text) → Free p l → Free p (drop_cr l)
unfolding drop_cr
any-drop_cr p [] h = refl
any-drop_cr p (c ∷ l) h = ground (arith, any-drop_cr p l)

All-map-drop_cr : (p : ℕ → Bool) (ls : List Text) → All (Free p) ls → All (Free p) (map drop_cr ls)
All-map-drop_cr p [] h = tt
All-map-drop_cr p (l ∷ ls) h = (any-drop_cr p l h.0, All-map-drop_cr p ls h.1)

any-unlines : (p : ℕ → Bool) (ls : List Text) → p 10 ≡ false → All (Free p) ls → Free p (unlines ls)
unfolding unlines
any-unlines p [] e h = refl
any-unlines p (l ∷ ls) e h = any-append p l (10 ∷ unlines ls) ∙ ground (arith, any-unlines p ls)

-- No line that is scanned again has a byte that the written lines have not, newlines apart.
pub any-reread :
    (p : ℕ → Bool) (ls : List Text) → p 10 ≡ false → All (Free p) ls → All (Free p) (reread ls)
unfolding reread scan_lines
any-reread p ls e h =
    All-map-drop_cr p (raw_lines (unlines ls)) (any-raw_lines p (unlines ls) (any-unlines p ls e h))
