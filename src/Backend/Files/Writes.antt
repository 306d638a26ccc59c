-- ===== src/Backend/Files/Writes.antt =====
-- Writes at offsets, one behind the other.
use mathlib.Core.List.{append_assoc, append-nil}
use sagiri_guard.Base.{ℕ, zero, suc, ◌≡◌, refl, ap, sym, ◌∙◌, [], ◌∷◌, ◌++◌, length, drop}
use sagiri_guard.Base.Text.{Text}
use sagiri_guard.Backend.Files.{write_at}

drop-nil : (n : ℕ) → drop {A = ℕ} n [] ≡ []
drop-nil zero = refl
drop-nil (suc n) = refl

drop-append : (b c s : Text) → drop (length c) (drop (length b) s) ≡ drop (length (b ++ c)) s
drop-append [] c s = refl
drop-append (x ∷ b) c [] = drop-nil (length c)
drop-append (x ∷ b) c (y ∷ s) = drop-append b c s

write_at-start : (b c r : Text) → write_at (length b) c (b ++ r) ≡ b ++ (c ++ drop (length c) r)
unfolding write_at
write_at-start [] c r = refl
write_at-start (x ∷ b) c r = ap (λ l. x ∷ l) (write_at-start b c r)

-- A write right behind a first one.
pub write_at-append :
    (b c s : Text) → write_at (length b) c (write_at 0 b s) ≡ write_at 0 (b ++ c) s
write_at-append b c s =
    unfold write_at in
    (write_at-start b c (drop (length b) s)
      ∙ ap (λ l. b ++ (c ++ l)) (drop-append b c s)
      ∙ sym (append_assoc b c (drop (length (b ++ c)) s)))

-- A first write over a file that is no longer than the bytes leaves just the bytes.
pub write_at_whole : (b : Text) → write_at 0 b [] ≡ b
unfolding write_at
write_at_whole b = ap (λ l. b ++ l) (drop-nil (length b)) ∙ append-nil b
