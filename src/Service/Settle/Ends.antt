-- ===== src/Service/Settle/Ends.antt =====
-- agent/internal/service/service.go: at which round waitForStableFile ends, and why.
use sagiri_guard.Base.{
  ◌⊎◌, ℕ, zero, suc, ◌+◌, ◌*◌, ◌≤◌, ◌<◌, ◌≡◌, refl, ap, ◌∙◌, Bool, true, false, ◌&&◌, Bool-cases,
  List, [], ◌∷◌, inl, inr, Option, none, some, if◌then◌else◌, nat_eq, ltb, leb, arith,
}
use sagiri_guard.Service.Settle.{
  Stat, missing, unreadable, directory, file, World, Settled, ready, stat_failed, is_directory,
  not_ready, late, Seen, Round, end, again, look, continued, wait_until, wait_for_stable_file,
}

-- the time after the k-th sleep, where each lasts half a second
pub clock : ℕ → World → ℕ → ℕ
clock start W zero = start
clock start W (suc k) = (clock start W k + W.elapsed k) + 500000000

clock_after : (start : ℕ) (W : World) (k : ℕ) → start + k * 500000000 ≤ clock start W k
unfolding clock
clock_after start W zero = omega arith
clock_after start W (suc k) = let ih = clock_after start W k in omega arith

-- what the file system has answered before a round, the newest first
pub seen_stats : World → ℕ → List Stat
seen_stats W zero = []
seen_stats W (suc k) = W.stat k ∷ seen_stats W k

-- how often a file of a size was seen last; rounds in which it was missing do not count
pub sightings : ℕ → List Stat → ℕ
sightings n [] = 0
sightings n (missing ∷ xs) = sightings n xs
sightings n (unreadable ∷ xs) = 0
sightings n (directory ∷ xs) = 0
sightings n (file m ∷ xs) = let rest = suc (sightings n xs) in if nat_eq m n then rest else 0

-- what the loop knows, a size and how often it was seen again, is what it has seen
abbrev Knows : World → ℕ → Option ℕ → ℕ → Type 0
Knows W k none p = (p ≡ 0) × ((n : ℕ) → sightings n (seen_stats W k) ≡ 0)
Knows W k (some n) p = sightings n (seen_stats W k) ≡ suc p

-- What an end at a round says. Ready: the file could be opened, and its size was the same in the
-- last three rounds that found it, or the time was up. Not ready: the time was up and the file could
-- not be opened.
abbrev pub Verdict : ℕ → World → ℕ → Settled → Type 0
Verdict start W k ready =
    (W.can_open k ≡ true)
    × (((n : ℕ) × (W.stat k ≡ file n) × (3 ≤ sightings n (seen_stats W (suc k))))
        ⊎ (start + 15000000000 ≤ clock start W k + W.elapsed k))
Verdict start W k stat_failed = W.stat k ≡ unreadable
Verdict start W k is_directory = W.stat k ≡ directory
Verdict start W k not_ready =
    (W.can_open k ≡ false) × (start + 15000000000 ≤ clock start W k + W.elapsed k)

-- a round before the deadline ends as it should, or sleeps and knows what it saw
abbrev Looked : ℕ → World → ℕ → Round → Type 0
Looked start W k (end r) = Verdict start W k r
Looked start W k (again slept s) = (slept ≡ 500000000) × Knows W (suc k) s.last_size s.stable_passes

-- one size is seen last
other_size :
    (xs : List Stat) (n m p : ℕ) → sightings n xs ≡ suc p → nat_eq m n ≡ false → sightings m xs ≡ 0
unfolding sightings
other_size [] n m p e d = refl
other_size (missing ∷ xs) n m p e d = other_size xs n m p e d
other_size (unreadable ∷ xs) n m p e d = refl
other_size (directory ∷ xs) n m p e d = refl
other_size (file s ∷ xs) n m p e d = ground arith

nat_eq_of : (m n : ℕ) → nat_eq m n ≡ true → m ≡ n
nat_eq_of m n h = ground arith

last_and : (a b : Bool) → (a && b) ≡ true → b ≡ true
last_and a b h = ground arith

Looked-file :
    (start : ℕ) (W : World) (k size : ℕ) (last : Option ℕ) (p : ℕ)
    → W.stat k ≡ file size
    → Knows W k last p
    → Looked start W k
        (look (file size) (W.can_open k) (record { last_size = last; stable_passes = p }))
unfolding look sightings seen_stats
Looked-file start W k size none p e known =
    let zero_before = known.1 size in (refl, rw e (ground arith))
Looked-file start W k size (some n) p e known = elim (Bool-cases (nat_eq size n)) [
  | inl q ↦ elim (Bool-cases (leb 2 (suc p) && W.can_open k)) [
    | inl r ↦
        rw (q, r)
          (
            last_and (leb 2 (suc p)) (W.can_open k) r,
            inl (n, e ∙ ap file (nat_eq_of size n q), rw (e, q) (rw known (ground arith))),
          )
    | inr r ↦ rw (q, r) (refl, rw (e, q) (ap suc known))
  ]
  | inr q ↦
      let before = other_size (seen_stats W k) n size p known q in rw q (refl, rw e (ground arith))
]

look_lem :
    (start : ℕ) (W : World) (k : ℕ) (x : Stat) (s : Seen)
    → W.stat k ≡ x
    → Knows W k s.last_size s.stable_passes
    → Looked start W k (look x (W.can_open k) s)
unfolding look
look_lem start W k missing s e known = (refl, still_known s.last_size s.stable_passes known)
  where
    still_known : (last : Option ℕ) (p : ℕ) → Knows W k last p → Knows W (suc k) last p
    still_known none p h = unfold seen_stats sightings in (h.0, λ n. rw e (h.1 n))
    still_known (some n) p h = unfold seen_stats sightings in rw e h
look_lem start W k unreadable s e known = e
look_lem start W k directory s e known = e
look_lem start W k (file size) s e known =
    Looked-file start W k size s.last_size s.stable_passes e known

-- The wait ends exactly at a round: with fuel for it, and not before.
abbrev pub EndsAt : ℕ → World → ℕ → (ℕ → Option Settled) → ℕ → Type 0
EndsAt start W k run j =
    (r : Settled) × (run j ≡ none) × (run (suc j) ≡ some r) × Verdict start W k r

late_lem :
    (start : ℕ) (W : World) (k : ℕ) (b : Bool)
    → W.can_open k ≡ b
    → start + 15000000000 ≤ clock start W k + W.elapsed k
    → Verdict start W k (late b)
late_lem start W k true e h = (e, inr h)
late_lem start W k false e h = (e, h)

-- the loop from a round on, where `run` is the loop on fuel
module _ (start : ℕ) (W : World) where
  abbrev from_round : ℕ → Seen → ℕ → Option Settled
  from_round k s fuel = wait_until fuel (start + 15000000000) W k (clock start W k) s

  at_once :
      (k : ℕ) (s : Seen) (r : Settled)
      → from_round k s 1 ≡ some r
      → Verdict start W k r
      → EndsAt start W (k + 0) (from_round k s) 0
  unfolding wait_until
  at_once k s r e v = let same : k + 0 ≡ k = omega arith in (r, refl, e, rw same v)

  late_round :
      (k : ℕ) (s : Seen)
      → ltb (clock start W k + W.elapsed k) (start + 15000000000) ≡ false
      → EndsAt start W (k + 0) (from_round k s) 0
  unfolding wait_until
  late_round k s e =
      at_once k s (late (W.can_open k)) (rw e)
        (late_lem start W k (W.can_open k) refl (ground arith))

  abbrev continued_round : ℕ → Seen → ℕ → Option Settled
  continued_round k s fuel =
      continued
        (λ slept s'.
          wait_until fuel (start + 15000000000) W (suc k) ((clock start W k + W.elapsed k) + slept)
            s')
        (look (W.stat k) (W.can_open k) s)

  early_step :
      (k : ℕ) (s : Seen) (fuel : ℕ)
      → ltb (clock start W k + W.elapsed k) (start + 15000000000) ≡ true
      → from_round k s (suc fuel) ≡ continued_round k s fuel
  unfolding wait_until
  early_step k s fuel e = rw e

  early_round :
      (k : ℕ) (s : Seen) (r : Round)
      → ltb (clock start W k + W.elapsed k) (start + 15000000000) ≡ true
      → look (W.stat k) (W.can_open k) s ≡ r
      → Looked start W k r
      → ((s' : Seen)
          → Knows W (suc k) s'.last_size s'.stable_passes
          → (j : ℕ) × (suc k + j ≤ 30) × EndsAt start W (suc k + j) (from_round (suc k) s') j)
      → k ≤ 30
      → (j : ℕ) × (k + j ≤ 30) × EndsAt start W (k + j) (from_round k s) j
  early_round k s (end r) early e v rest l =
      (0, omega arith, at_once k s r (early_step k s 0 early ∙ rw e) v)
  early_round k s (again slept s') early e v rest l =
      let (j, m, q) = rest s' v.1 in
      let move : suc k + j ≡ k + suc j = omega arith in
      let one : (fuel : ℕ) → from_round k s (suc fuel) ≡ from_round (suc k) s' fuel = λ fuel.
        ◌∙◌ {b = continued_round k s fuel} (early_step k s fuel early)
          (rw (e, v.0) (same_round k fuel s')) in
      (suc j, omega arith, (q.0, one j ∙ q.1, one (suc j) ∙ q.2, rw (← move) q.3))
    where
      same_round :
          (k fuel : ℕ) (s' : Seen)
          → wait_until fuel
              (start + 15000000000)
              W
              (suc k)
              ((clock start W k + W.elapsed k) + 500000000)
              s'
            ≡ from_round (suc k) s' fuel
      same_round k fuel s' = unfold clock in refl

  ends_from :
      (left k : ℕ) (s : Seen)
      → k + left ≡ 31
      → Knows W k s.last_size s.stable_passes
      → k ≤ 30
      → (j : ℕ) × (k + j ≤ 30) × EndsAt start W (k + j) (from_round k s) j
  ends_from zero k s f known l = absurd (omega arith)
  ends_from (suc left) k s f known l =
      elim (Bool-cases (ltb (clock start W k + W.elapsed k) (start + 15000000000))) [
        | inl early ↦
            early_round k s (look (W.stat k) (W.can_open k) s) early refl
              (look_lem start W k (W.stat k) s refl known)
              (λ s' known'. ends_from left (suc k) s' (omega arith) known' (
                let c = clock_after start W k in
                let b : clock start W k + W.elapsed k < start + 15000000000 = ground arith in
                omega arith))
              l
        | inr over ↦ (0, omega arith, late_round k s over)
      ]

-- Whatever the file system answers and however long its calls take, the wait for a stable file ends
-- at one of the first 31 rounds. At that round: it fails if the file is unreadable, or is a
-- directory; it says ready only if the file could be opened and either had the same size in the last
-- three rounds that found it, or the time was up; it says not ready only if the time was up and the
-- file could not be opened.
pub wait_settles :
    (start : ℕ) (W : World)
    → (k : ℕ) × (k ≤ 30) × EndsAt start W k (λ fuel. wait_for_stable_file fuel start W) k
unfolding wait_for_stable_file clock
wait_settles start W =
    let first : Seen = record { last_size = none; stable_passes = 0 } in
    let (j, m, q) =
      ends_from start W 31 0 first (omega arith) (unfold seen_stats sightings in (refl, λ n. refl))
        (omega arith) in
    let same : 0 + j ≡ j = omega arith in (j, omega arith, rw same at q)
