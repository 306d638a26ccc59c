-- ===== src/Base/Table.antt =====
-- A table of the database behind gorm: what a query returns and what a write leaves, as far as the
-- program relies on it. The database is not part of the repository, so it is an interface; any
-- call may fail, and a call that fails changes nothing.
use sagiri_guard.Base.Tests.{if◌then◌else◌, nat_eq}
use sagiri_guard.Base.Lists.{select, All}
use Prim.Native.Nat.{ℕ, suc, max, ◌≤◌, ◌<◌}
use mathlib.Core.Path.{◌≡◌}
use mathlib.Core.Bool.{Bool, false}
use mathlib.Core.Option.{Option, some}
use mathlib.Core.List.{List, [], ◌∷◌, ◌++◌, map}
use native.Mathlib.Omega.{arith}

-- `key` is the primary key, and `fill` the row with a key that the database has given it.
pub record Table (Row : Type 0) (key : Row → ℕ) (fill : ℕ → Row → Row) : Type 1 where
  pub State : Type 0
  -- the rows, in the order of the primary key
  pub rows : State → List Row
  -- `Where(p).Find(&out)`, in the order of the primary key
  pub find : (Row → Bool) → State → Option (List Row)
  -- `Create(&row)`
  pub create : Row → State → Option (ℕ × State)
  -- `Where(p).Updates(f)`
  pub update : (Row → Bool) → (Row → Row) → State → Option State
  pub find_rows :
      (p : Row → Bool) (s : State) (out : List Row) → find p s ≡ some out → out ≡ select p (rows s)
  pub create_rows :
      (r : Row) (s t : State) (n : ℕ)
      → create r s ≡ some (n, t)
      → rows t ≡ rows s ++ (fill n r ∷ [])
  pub create_fresh :
      (r : Row) (s t : State) (n : ℕ)
      → create r s ≡ some (n, t)
      → All (λ x. nat_eq (key x) n ≡ false) (rows s)
  pub update_rows :
      (p : Row → Bool) (f : Row → Row) (s t : State)
      → update p f s ≡ some t
      → rows t ≡ map (λ r. if p r then f r else r) (rows s)

module _ {Row : Type 0} (key : Row → ℕ) where
  -- a number above every key
  abbrev pub next_key : List Row → ℕ
  next_key [] = 0
  next_key (r ∷ rs) = max (suc (key r)) (next_key rs)

  pub next_key_above :
      (rs : List Row) (n : ℕ) → next_key rs ≤ n → All (λ x. nat_eq (key x) n ≡ false) rs
  next_key_above [] n h = tt
  next_key_above (r ∷ rs) n h = (differs (key r) n (omega arith), next_key_above rs n (omega arith))
    where
      differs : (a b : ℕ) → a < b → nat_eq a b ≡ false
      differs a b h = ground arith

  pub next_key_fresh : (rs : List Row) → All (λ x. nat_eq (key x) (next_key rs) ≡ false) rs
  next_key_fresh rs = next_key_above rs (next_key rs) (omega arith)

pub eq_of_some-eq : {A : Type 0} {a b : A} → some a ≡ some b → b ≡ a
eq_of_some-eq e = cc

module _ {Row : Type 0} (key : Row → ℕ) (fill : ℕ → Row → Row) where
  pub created_rows :
      (r : Row) (s t : List Row) (n : ℕ)
      → ◌≡◌ {A = Option (ℕ × List Row)}
          (some (next_key key s, s ++ (fill (next_key key s) r ∷ [])))
          (some (n, t))
      → t ≡ s ++ (fill n r ∷ [])
  created_rows r s t n e = ground arith

  pub created_fresh :
      (r : Row) (s t : List Row) (n : ℕ)
      → ◌≡◌ {A = Option (ℕ × List Row)}
          (some (next_key key s, s ++ (fill (next_key key s) r ∷ [])))
          (some (n, t))
      → All (λ x. nat_eq (key x) n ≡ false) s
  created_fresh r s t n e =
      let q : next_key key s ≡ n = ground arith in rw q at (next_key_fresh key s)

  -- A table that never fails, kept as its rows.
  abbrev pub list_table : Table Row key fill
  list_table = record {
    State = List Row;
    rows = λ s. s;
    find = λ p s. some (select p s);
    create = λ r s. some (next_key key s, s ++ (fill (next_key key s) r ∷ []));
    update = λ p f s. some (map (λ r. if p r then f r else r) s);
    find_rows = λ p s out e. eq_of_some-eq e;
    create_rows = created_rows;
    create_fresh = created_fresh;
    update_rows = λ p f s t e. eq_of_some-eq e;
  }
