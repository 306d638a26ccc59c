-- ===== src/Backend/Backup/Newest.antt =====
-- The version numbers that `FinalizeUpload` hands out.
use mathlib.Core.Path.{subst}
use sagiri_guard.Base.{
  ℕ, suc, ◌<◌, ◌≡◌, refl, ap, ◌∙◌, Bool, true, false, List, [], ◌∷◌, ◌++◌, Option, none, some,
  String, if◌then◌else◌, ltb, select, select-append, select-yes, All, arith, eq_refl,
}
use sagiri_guard.Base.Table.{Table}
use sagiri_guard.Backend.Backup.{Paths, BackupSession}
use sagiri_guard.Backend.Backup.Versions.{
  BackupVersion, key, fill, of_path, max_version, newest, newest_from, next_version, create_version,
  get_version,
}
use sagiri_guard.Backend.Backup.Finalize.{version_row}

below_max : (vs : List BackupVersion) (n : ℕ) → max_version vs < n → All (λ v. v.version < n) vs
unfolding max_version
below_max [] n h = tt
below_max (v ∷ vs) n h = (omega (arith, h), below_max vs n (omega (arith, h)))

ltb_yes : (a b : ℕ) → a < b → ltb a b ≡ true
ltb_yes a b h = ground arith

pick_below :
    (b : Bool) (v w : BackupVersion) (n : ℕ)
    → v.version < n
    → w.version < n
    → (if b then v else w).version < n
pick_below true v w n h k = h
pick_below false v w n h k = k

next_of :
    (o : Option (List BackupVersion)) (n : ℕ)
    → (elim o as (λ _. Option ℕ) [ none ↦ none | some vs ↦ some (suc (max_version vs)) ]) ≡ some n
    → (vs : List BackupVersion) × (o ≡ some vs) × (suc (max_version vs) ≡ n)
next_of none n e = ground arith
next_of (some vs) n e = (vs, refl, ground arith)

created_of :
    (S : Type 0) (o : Option (ℕ × S)) (t : S)
    → (elim o as (λ _. Option S) [ none ↦ none | some r ↦ some r.1 ]) ≡ some t
    → (k : ℕ) × (o ≡ some (k, t))
created_of S none t e = ground arith
created_of S (some (k, u)) t e =
    (k, ap (λ o. elim o as (λ _. Option (ℕ × S)) [ none ↦ none | some x ↦ some (k, x) ]) e)

newest_from-last :
    (best r : BackupVersion) (vs : List BackupVersion)
    → best.version < r.version
    → max_version vs < r.version
    → newest_from best (vs ++ (r ∷ [])) ≡ r
unfolding newest_from max_version
newest_from-last best r [] h m = ap (λ b. if b then r else best) (ltb_yes best.version r.version h)
newest_from-last best r (v ∷ vs) h m =
    let b = ltb best.version v.version in
    newest_from-last (if b then v else best) r vs
      (pick_below b v best r.version (omega (arith, m)) h) (omega (arith, m))

newest-last :
    (r : BackupVersion) (vs : List BackupVersion)
    → max_version vs < r.version
    → newest (vs ++ (r ∷ [])) ≡ some r
unfolding newest newest_from max_version
newest-last r [] m = refl
newest-last r (v ∷ vs) m =
    ap (λ b. some b) (newest_from-last v r vs (omega (arith, m)) (omega (arith, m)))

module _ (paths : Paths) (T : Table BackupVersion key fill) where
  of_path-own :
      (s : BackupSession) (n k : ℕ)
      → of_path s.device_id s.logical_path (fill k (version_row paths T s n)) ≡ true
  of_path-own s n k = rw (eq_refl s.device_id, eq_refl s.logical_path) refl

  next_version-max :
      (device path : String) (t : T.State) (n : ℕ)
      → next_version T device path t ≡ some n
      → max_version (select (of_path device path) (T.rows t)) < n
  unfolding next_version
  next_version-max device path t n e =
      let (vs, q, m) = next_of (T.find (of_path device path) t) n e in
      let rows = T.find_rows (of_path device path) t vs q in
      subst (λ l. max_version l < n) rows (omega (arith, m))

  -- When an upload's version is stored under the next number, this number is above that of every
  -- earlier version of the device's path, and `Get` of the latest version gives the stored one, if
  -- the query of the path's versions works afterwards.
  pub stored_version_latest :
      (s : BackupSession) (t t' : T.State) (n : ℕ) (out : List BackupVersion)
      → next_version T s.device_id s.logical_path t ≡ some n
      → create_version T (version_row paths T s n) t ≡ some t'
      → T.find (of_path s.device_id s.logical_path) t' ≡ some out
      → All (λ v. v.version < n) (select (of_path s.device_id s.logical_path) (T.rows t))
        × (k : ℕ) × (get_version T s.device_id s.logical_path 0 t'
            ≡ some (some (fill k (version_row paths T s n))))
  unfolding create_version get_version
  stored_version_latest s t t' n out e c f =
      let p = of_path s.device_id s.logical_path in
      let row = version_row paths T s n in
      let (k, q) = created_of T.State (T.create row t) t' c in
      let above = next_version-max s.device_id s.logical_path t n e in
      let rows : out ≡ select p (T.rows t) ++ (fill k row ∷ []) =
        T.find_rows p t' out f
        ∙ ap (λ l. select p l) (T.create_rows row t t' k q)
        ∙ select-append p (T.rows t) (fill k row ∷ [])
        ∙ ap (λ l. select p (T.rows t) ++ l) (select-yes p (fill k row) [] (of_path-own s n k)) in
      (
        below_max (select p (T.rows t)) n above,
        k,
        ap
              (λ o. elim o as (λ _. Option (Option BackupVersion)) [
                | none ↦ none
                | some vs ↦ some (newest vs)
              ])
              f
            ∙ ap (λ l. some (newest l)) rows
            ∙ ap (λ o. some o) (newest-last (fill k row) (select p (T.rows t)) above),
      )
