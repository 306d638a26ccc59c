-- ===== src/Backend/Transfer/Client.antt =====
-- agent/internal/backup/backup.go: the loop of `UploadFile`, which reads the file in buffers and
-- sends each as a chunk, with one more attempt when a send fails. The number of an attempt says
-- whether it succeeds; a failed one delivers nothing. A read of a regular file fills the buffer
-- but at the end. Fuel above the length of the file is enough.
use mathlib.Core.Path.{subst}
use sagiri_guard.Base.{
  ℕ, zero, suc, ◌+◌, ◌%◌, ◌^◌, ◌<◌, ◌≡◌, refl, sym, ap, ◌∙◌, Bool, true, false, List, [], ◌∷◌, ◌++◌,
  Option, none, some, if◌then◌else◌, length, take, drop, is_nil, is_some, length-append,
  take-append-drop, arith,
}
use sagiri_guard.Base.Text.{Text}

-- the attempt that delivers a chunk, and the number of the next attempt
unfoldable pub delivered_by : (ℕ → Bool) → ℕ → Option ℕ
delivered_by sends k =
    if sends k then some (suc k) else if sends (suc k) then some (suc (suc k)) else none

abbrev pub sent_chunk : ℕ × Text → List (ℕ × Text) × Bool → List (ℕ × Text) × Bool
sent_chunk c (cs, b) = (c ∷ cs, b)

-- The chunks that arrive, and whether the loop ends at the end of the file.
unfoldable pub upload_loop : ℕ → ℕ → (ℕ → Bool) → ℕ → ℕ → Text → List (ℕ × Text) × Bool
unfolding delivered_by
upload_loop zero size sends k offset rest = ([], false)
upload_loop (suc fuel) size sends k offset rest =
    if is_nil rest
    then ([], true)
    else let chunk = take size rest in
      elim (delivered_by sends k) [
        | none ↦ ([], false)
        | some k' ↦
            sent_chunk (offset, chunk)
              (upload_loop fuel size sends k' ((offset + length chunk) % 2 ^ 32) (drop size rest))
      ]

-- the chunks laid out one behind the other, from an offset to the end of the text
abbrev pub Laid : ℕ → Text → List (ℕ × Text) → Type 0
Laid offset rest [] = rest ≡ []
Laid offset rest ((o, chunk) ∷ cs) =
    (o ≡ offset)
    × (is_nil chunk ≡ false)
    × (r : Text) × (rest ≡ chunk ++ r)
    × Laid (offset + length chunk) r cs

-- What a loop that ends well sends is laid out.
abbrev pub Ends : ℕ → Text → List (ℕ × Text) × Bool → Type 0
Ends offset rest r = r.1 ≡ true → Laid offset rest r.0

pub Ends-if :
    (offset : ℕ) (rest : Text) (b : Bool) (x y : List (ℕ × Text) × Bool)
    → (b ≡ true → Ends offset rest x)
    → (b ≡ false → Ends offset rest y)
    → Ends offset rest (if b then x else y)
Ends-if offset rest true x y p q = p refl
Ends-if offset rest false x y p q = q refl

Ends-attempt :
    (offset : ℕ) (rest : Text) (o : Option ℕ) (f : ℕ → List (ℕ × Text) × Bool)
    → ((k : ℕ) → Ends offset rest (f k))
    → Ends offset rest (elim o [ none ↦ ([], false) | some k ↦ f k ])
Ends-attempt offset rest none f h = λ e. ground arith
Ends-attempt offset rest (some k) f h = h k

chunk-not-nil :
    (size : ℕ) (rest : Text) → 0 < size → is_nil rest ≡ false → is_nil (take size rest) ≡ false
chunk-not-nil zero rest h n = ground arith
chunk-not-nil (suc size) [] h n = n
chunk-not-nil (suc size) (c ∷ rest) h n = refl

pub length-take-drop :
    (size : ℕ) (rest : Text) → length (take size rest) + length (drop size rest) ≡ length rest
length-take-drop size rest =
    sym (length-append (take size rest) (drop size rest)) ∙ ap length (take-append-drop size rest)

pub Ends-sent :
    (size offset : ℕ) (rest : Text) (r : List (ℕ × Text) × Bool)
    → 0 < size
    → is_nil rest ≡ false
    → Ends (offset + length (take size rest)) (drop size rest) r
    → Ends offset rest (sent_chunk (offset, take size rest) r)
Ends-sent size offset rest (cs, b) h n l e =
    (refl, chunk-not-nil size rest h n, drop size rest, sym (take-append-drop size rest), l e)

pub nil_of : (rest : Text) → is_nil rest ≡ true → rest ≡ []
nil_of [] h = refl
nil_of (c ∷ rest) h = ground arith

pub upload_loop-Ends :
    (fuel size : ℕ) (sends : ℕ → Bool) (k offset : ℕ) (rest : Text)
    → 0 < size
    → offset + length rest < 2 ^ 32
    → Ends offset rest (upload_loop fuel size sends k offset rest)
unfolding upload_loop
upload_loop-Ends zero size sends k offset rest h b = λ e. ground arith
upload_loop-Ends (suc fuel) size sends k offset rest h b =
    Ends-if offset rest (is_nil rest) _ _ (λ n e. nil_of rest n)
      (λ n. Ends-attempt offset rest _ _ (λ k'. Ends-sent size offset rest _ h n (
        let len = length-take-drop size rest in
        let next : (offset + length (take size rest)) % 2 ^ 32 ≡ offset + length (take size rest) =
          omega (arith, len) in
        subst
          (λ o.
            Ends (offset + length (take size rest)) (drop size rest)
              (upload_loop fuel size sends k' o (drop size rest)))
          (sym next)
          (upload_loop-Ends fuel size sends k' (offset + length (take size rest)) (drop size rest) h
            (omega (arith, len))))))

some-of :
    (o : Option ℕ) (f : ℕ → List (ℕ × Text) × Bool)
    → is_some o ≡ true
    → ((k : ℕ) → (f k).1 ≡ true)
    → (elim o as (λ _. List (ℕ × Text) × Bool) [ none ↦ ([], false) | some k ↦ f k ]).1 ≡ true
some-of none f e h = ground arith
some-of (some k) f e h = h k

pub end-if :
    (b : Bool) (y : List (ℕ × Text) × Bool)
    → (b ≡ false → y.1 ≡ true)
    → (if b then ([], true) else y).1 ≡ true
end-if true y h = refl
end-if false y h = h refl

pub shorter :
    (size : ℕ) (rest : Text)
    → 0 < size
    → is_nil rest ≡ false
    → length (drop size rest) < length rest
shorter zero rest h n = omega (arith, h)
shorter (suc size) [] h n = ground arith
shorter (suc size) (c ∷ rest) h n = let len = length-take-drop size rest in omega (arith, len)

-- The loop comes to the end of the file on fuel above the file's length, with a buffer that is not
-- empty, if of any two attempts in a row at least one succeeds.
pub upload_loop-ends :
    (fuel size : ℕ) (sends : ℕ → Bool) (k offset : ℕ) (rest : Text)
    → 0 < size
    → length rest < fuel
    → ((j : ℕ) → is_some (delivered_by sends j) ≡ true)
    → (upload_loop fuel size sends k offset rest).1 ≡ true
unfolding upload_loop
upload_loop-ends zero size sends k offset rest h f d = ground arith
upload_loop-ends (suc fuel) size sends k offset rest h f d = end-if (is_nil rest) _ (λ n.
    some-of _ _ (d k) (λ k'.
      let s = shorter size rest h n in
      upload_loop-ends fuel size sends k' ((offset + length (take size rest)) % 2 ^ 32)
        (drop size rest) h (omega (arith, s)) d))
