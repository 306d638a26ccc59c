-- ===== src/Monitor/Windows/Buffer.antt =====
-- agent/internal/monitor/file_monitor.go: the loop over a buffer reads the notices that Windows
-- wrote into it. `encode` follows the documented layout of FILE_NOTIFY_INFORMATION: the distance
-- to the next notice, the action and the length of the name, four bytes each, then the name, and
-- padding before the next notice.
use sagiri_guard.Base.{
  ℕ, zero, suc, ◌+◌, ◌*◌, ◌/◌, ◌%◌, ◌≤◌, ◌<◌, ◌≡◌, refl, sym, ap, ◌∙◌, false, List, [], ◌∷◌, ◌++◌,
  some, String, if◌then◌else◌, nat_eq, ltb, length, length-append, take, drop, is_nil, arith,
}
use sagiri_guard.Monitor.Windows.{
  PendingRename, Paths, Step, Read, handle_notice, uint32, code_units, decode_utf16, read_notices,
  after_step,
}
use sagiri_guard.Monitor.Windows.Renames.{Notice, run_notices}
use mathlib.Core.List.{append-nil}

-- the bytes of a number, which is below 2^32 (a greater one shows in the last)
abbrev pub le32 : ℕ → List ℕ
le32 n = (n % 256) ∷ (n / 256 % 256) ∷ (n / 65536 % 256) ∷ (n / 16777216) ∷ []

-- a notice as Windows writes it: an action, the code units of a name, and the bytes behind the name
-- that Windows leaves so that the next notice stands at a multiple of four
pub record Written : Type 0 where
  pub action : ℕ
  pub units : List ℕ
  pub padding : List ℕ

abbrev pub unit_bytes : List ℕ → List ℕ
unit_bytes [] = []
unit_bytes (u ∷ us) = (u % 256) ∷ (u / 256) ∷ unit_bytes us

abbrev pub entry_bytes : ℕ → Written → List ℕ
entry_bytes next w =
    le32 next ++ (le32 w.action ++ (le32 (length (unit_bytes w.units)) ++ unit_bytes w.units))

-- the distance to the next notice
abbrev pub distance : Written → ℕ
distance w = 12 + length (unit_bytes w.units) + length w.padding

-- a buffer of notices, each behind the padding of the one before it
unfoldable pub encode : Written → List Written → List ℕ
encode w [] = entry_bytes 0 w ++ w.padding
encode w (v ∷ vs) = entry_bytes (distance w) w ++ (w.padding ++ encode v vs)

-- the notice that is read for what Windows wrote
unfoldable pub notice : Paths → String → ℕ → Written → Notice
notice P target at w = record {
  action = w.action;
  path = P.clean (P.join target (if is_nil w.units then "" else P.decode w.units));
  at = at;
}

-- the notices that are read, from the n-th on
unfoldable pub notices : Paths → String → (ℕ → ℕ) → ℕ → List Written → List Notice
unfolding notice
notices P target clock n [] = []
notices P target clock n (w ∷ ws) = notice P target (clock n) w ∷ notices P target clock (suc n) ws

uint32-le32 : (n : ℕ) (rest : List ℕ) → uint32 (le32 n ++ rest) ≡ n
unfolding uint32
uint32-le32 n rest = omega arith

code_units-unit_bytes : (us : List ℕ) → code_units (unit_bytes us) ≡ us
unfolding code_units
code_units-unit_bytes [] = refl
code_units-unit_bytes (u ∷ us) =
    let first : (u % 256) + 256 * (u / 256) ≡ u = omega arith in
    rw (first, code_units-unit_bytes us)

decode_utf16-unit_bytes :
    (P : Paths) (us : List ℕ)
    → decode_utf16 P (unit_bytes us) ≡ (if is_nil us then "" else P.decode us)
unfolding decode_utf16
decode_utf16-unit_bytes P [] = refl
decode_utf16-unit_bytes P (u ∷ us) = ap P.decode (code_units-unit_bytes (u ∷ us))

take-append : (xs ys : List ℕ) → take (length xs) (xs ++ ys) ≡ xs
take-append [] ys = refl
take-append (x ∷ xs) ys = ap (λ l. x ∷ l) (take-append xs ys)

drop-append : (xs ys : List ℕ) → drop (length xs) (xs ++ ys) ≡ ys
drop-append [] ys = refl
drop-append (x ∷ xs) ys = drop-append xs ys

drop-drop : (m n : ℕ) (xs : List ℕ) → drop (m + n) xs ≡ drop n (drop m xs)
drop-drop zero n xs = let e : 0 + n ≡ n = omega arith in rw e
drop-drop (suc m) zero [] = let e : suc m + 0 ≡ suc m = omega arith in rw e
drop-drop (suc m) (suc n) [] = let e : suc m + suc n ≡ suc (m + suc n) = omega arith in rw e
drop-drop (suc m) n (x ∷ xs) =
    let e : suc m + n ≡ suc (m + n) = omega arith in rw e (drop-drop m n xs)

length-drop : (m : ℕ) (xs : List ℕ) → m ≤ length xs → m + length (drop m xs) ≡ length xs
length-drop zero xs h = omega arith
length-drop (suc m) [] h = omega arith
length-drop (suc m) (x ∷ xs) h = let ih = length-drop m xs (omega arith) in omega arith

read_round :
    (P : Paths) (fuel : ℕ) (target : String) (clock : ℕ → ℕ) (n : ℕ) (bytes : List ℕ) (offset : ℕ)
    (q : List PendingRename) (next : ℕ) (w : Written) (rest : List ℕ)
    → drop offset bytes ≡ entry_bytes next w ++ rest
    → offset ≤ length bytes
    → read_notices P (suc fuel) target clock n bytes offset q ≡ (
        let m : Notice = notice P target (clock n) w in
        let step : Step = handle_notice P m.action m.path m.at q in
        if nat_eq next 0
        then (step.0, some step.1)
        else after_step step.0
            (read_notices P fuel target clock (suc n) bytes (offset + next) step.1))
unfolding read_notices notice
read_round P fuel target clock n bytes offset q next w rest e h =
    let units : List ℕ = unit_bytes w.units in
    let total : offset + length (entry_bytes next w ++ rest) ≡ length bytes =
      ap (λ l. offset + length l) (sym e) ∙ length-drop offset bytes h in
    let size : length (entry_bytes next w ++ rest) ≡ 12 + (length units + length rest) =
      (let l : length (units ++ rest) ≡ length units + length rest = length-append units rest in
        omega arith) in
    let g1 : ltb (length bytes) offset ≡ false = ground arith in
    let g2 : ltb (length (entry_bytes next w ++ rest)) 12 ≡ false = ground arith in
    let g3 : ltb (length bytes) (offset + 12 + length units) ≡ false = ground arith in
    rw (
      e,
      uint32-le32 next (le32 w.action ++ (le32 (length units) ++ (units ++ rest))),
      uint32-le32 w.action (le32 (length units) ++ (units ++ rest)),
      uint32-le32 (length units) (units ++ rest),
      take-append units rest,
      decode_utf16-unit_bytes P w.units,
      g1,
      g2,
      g3,
    )

length-entry_bytes :
    (next : ℕ) (w : Written) → length (entry_bytes next w) ≡ 12 + length (unit_bytes w.units)
length-entry_bytes next w = omega arith

drop_entry :
    (next : ℕ) (w : Written) (rest : List ℕ)
    → drop (distance w) (entry_bytes next w ++ (w.padding ++ rest)) ≡ rest
drop_entry next w rest =
    let head : ℕ = 12 + length (unit_bytes w.units) in
    drop-drop head (length w.padding) (entry_bytes next w ++ (w.padding ++ rest))
    ∙ (ap (drop (length w.padding)) (
          drop-drop 12 (length (unit_bytes w.units)) (entry_bytes next w ++ (w.padding ++ rest))
          ∙ drop-append (unit_bytes w.units) (w.padding ++ rest))
        ∙ drop-append w.padding rest)

-- a buffer is longer than the number of its notices
length-encode : (w : Written) (ws : List Written) → length ws < length (encode w ws)
unfolding encode
length-encode w [] =
    let parts = length-append (entry_bytes 0 w) w.padding in
    let size = length-entry_bytes 0 w in omega arith
length-encode w (v ∷ vs) =
    let ih = length-encode v vs in
    let parts = length-append (entry_bytes (distance w) w) (w.padding ++ encode v vs) in
    let more = length-append w.padding (encode v vs) in
    let size = length-entry_bytes (distance w) w in omega arith

-- a buffer that is read to its end
abbrev pub emitted : Step → Read
emitted step = (step.0, some step.1)

read_after :
    (P : Paths) (fuel : ℕ) (target : String) (clock : ℕ → ℕ) (n : ℕ) (bytes : List ℕ) (offset : ℕ)
    (q : List PendingRename) (w : Written) (ws : List Written)
    → drop offset bytes ≡ encode w ws
    → offset ≤ length bytes
    → length ws < fuel
    → read_notices P fuel target clock n bytes offset q
      ≡ emitted (run_notices P (notices P target clock n (w ∷ ws)) q)
unfolding encode notices run_notices
read_after P zero target clock n bytes offset q w ws e h k = absurd (omega arith)
read_after P (suc fuel) target clock n bytes offset q w [] e h k =
    let round = read_round P fuel target clock n bytes offset q 0 w w.padding e h in
    let m : Notice = notice P target (clock n) w in
    let step : Step = handle_notice P m.action m.path m.at q in
    round ∙ ap (λ l. (l, some step.1)) (sym (append-nil step.0))
read_after P (suc fuel) target clock n bytes offset q w (v ∷ vs) e h k =
    let next : ℕ = distance w in
    let size = length-entry_bytes next w in
    let total : offset + length (entry_bytes next w ++ (w.padding ++ encode v vs)) ≡ length bytes =
      ap (λ l. offset + length l) (sym e) ∙ length-drop offset bytes h in
    let parts = length-append (entry_bytes next w) (w.padding ++ encode v vs) in
    let more = length-append w.padding (encode v vs) in
    let round =
      read_round P fuel target clock n bytes offset q next w (w.padding ++ encode v vs) e h in
    let behind : drop (offset + next) bytes ≡ encode v vs =
      drop-drop offset next bytes ∙ (ap (drop next) e ∙ drop_entry next w (encode v vs)) in
    let m : Notice = notice P target (clock n) w in
    let step : Step = handle_notice P m.action m.path m.at q in
    let ih =
      read_after P fuel target clock (suc n) bytes (offset + next) step.1 v vs behind (omega arith)
        (omega arith) in
    let far : nat_eq next 0 ≡ false = ground arith in round ∙ rw far (ap (after_step step.0) ih)

-- For all path functions, targets, clocks, notices (at least one) and queues: reading the buffer
-- that holds the notices in the layout of Windows, with any padding between them, does not panic,
-- and gives the events and the queue of handling the notices one after another, each with the action
-- and the name that were written and the time at which it is read.
pub buffer_read :
    (P : Paths) (target : String) (clock : ℕ → ℕ) (q : List PendingRename) (w : Written)
    (ws : List Written)
    → read_notices P (suc (length (encode w ws))) target clock 0 (encode w ws) 0 q
      ≡ emitted (run_notices P (notices P target clock 0 (w ∷ ws)) q)
buffer_read P target clock q w ws =
    read_after P (suc (length (encode w ws))) target clock 0 (encode w ws) 0 q w ws refl
      (omega arith) (let l = length-encode w ws in omega arith)
