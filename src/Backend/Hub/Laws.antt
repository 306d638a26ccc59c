-- ===== src/Backend/Hub/Laws.antt =====
-- Registration of connections, and what a send has done when it returns.
use sagiri_guard.Base.{
  ℕ, ◌≡◌, refl, ap, sym, ◌∙◌, Bool, true, false, ◌||◌, List, [], ◌∷◌, ◌++◌, Option, none, some,
  String, ◌==◌, eq_iff, eq_refl, is_nil, ltb, length, if◌then◌else◌, arith, inl, inr, ◌⊎◌, All,
  All-append, All-weaken, Bool-cases,
}
use mathlib.Core.Bool.{false≢true}
use mathlib.Core.List.{append_assoc, append-nil}
use sagiri_guard.Base.Text.{Text}
use sagiri_guard.Base.Map.{lookup, insert, lookup-insert, lookup-delete}
use sagiri_guard.Backend.Hub.{
  Hub, Net, SendError, registry_get, same_client, register, unregister, send, send_frame,
  client_send_command, send_cached, keep_error, send_to_device, send_registered, after_first,
  no_device, empty_payload, send_failed, max_payload,
}

-- After a device has connected again on another socket, the disconnect of the old socket leaves
-- the new registration; the disconnect of the new socket removes it; other devices keep theirs.
pub unregister-register :
    (device other : String) (c d : Option ℕ) (h : Hub)
    → lookup other (unregister device c (register device d h))
      ≡ (if device == other then if same_client d c then none else some d else lookup other h)
unfolding unregister register
unregister-register device other c d h = ground (
  arith,
  lookup-insert device device d h,
  lookup-insert device other d h,
  lookup-delete device other (insert device d h),
  eq_refl device,
  eq_iff device other,
)

-- what no send changes
abbrev pub Same : Net → Net → Type 0
Same n n' = (n'.registry ≡ n.registry) × (n'.reachable ≡ n.reachable)

-- the frame went whole to one socket, and no other went whole
abbrev pub Delivered : ℕ → Text → Net → Net → Type 0
Delivered fd bytes n n' = (n'.sent ≡ n.sent ++ ((fd, bytes) ∷ [])) × Same n n'

-- no frame went whole
abbrev pub Unsent : Net → Net → Type 0
Unsent n n' = (n'.sent ≡ n.sent) × Same n n'

-- where a send may go: the socket that the registry has, or the one that the hub has kept
abbrev pub Candidate : String → Hub → Net → ℕ → Type 0
Candidate device h n fd = (registry_get device n ≡ some fd) ⊎ (lookup device h ≡ some (some fd))

-- The frames that were cut off are on such sockets that cannot be reached.
abbrev pub Tears : (ℕ → Type 0) → Net → Net → Type 0
Tears At n n' =
    (ks : List (ℕ × ℕ)) × (n'.torn ≡ n.torn ++ ks)
    × All (λ k. At k.0 × (n.reachable k.0 ≡ false)) ks

-- A payload that fits into a frame.
abbrev pub Fits : Text → Type 0
Fits b = (is_nil b ≡ false) × (ltb max_payload (length b) ≡ false)

-- How a send ended, whose sockets may be such: one whole frame on one of them; or an error, no whole
-- frame, and no socket that can be reached, if the payload fits.
abbrev pub Sends : (ℕ → Type 0) → Text → Net → Option SendError × Net → Type 0
Sends At bytes n (none, n') = (fd : ℕ) × At fd × Delivered fd bytes n n' × Tears At n n'
Sends At bytes n (some e, n') =
    Unsent n n' × Tears At n n' × (Fits bytes → (fd : ℕ) → At fd → n.reachable fd ≡ false)

abbrev pub Sent : String → Text → Hub → Net → Option SendError × Net → Type 0
Sent device bytes h n r = Sends (Candidate device h n) bytes n r

module _ (At : ℕ → Type 0) (bytes : Text) (n : Net) where
  no-Tears : Tears At n n
  no-Tears = ([], sym (append-nil n.torn), tt)

  refused : (e : SendError) → (Fits bytes → ⊥) → Sends At bytes n (some e, n)
  refused e no_fit = ((refl, (refl, refl)), no-Tears, λ f. absurd (no_fit f))

  nowhere : (e : SendError) → ((fd : ℕ) → At fd → ⊥) → Sends At bytes n (some e, n)
  nowhere e no_fd = ((refl, (refl, refl)), no-Tears, λ f fd a. absurd (no_fd fd a))

  Sends-if :
      (b : Bool) (e : SendError) (r : Option SendError × Net)
      → (b ≡ true → Sends At bytes n (some e, n))
      → Sends At bytes n r
      → Sends At bytes n (if b then (some e, n) else r)
  Sends-if true e r f s = f refl
  Sends-if false e r f s = s

  send_frame_lem :
      (fd : ℕ) → At fd → ((x : ℕ) → At x → x ≡ fd) → Sends At bytes n (send_frame fd bytes n)
  unfolding send_frame
  send_frame_lem fd at only = elim (Bool-cases (is_nil bytes || ltb max_payload (length bytes))) [
    | inl e ↦ rw e (refused send_failed (λ f. let a = f.0 in let b = f.1 in ground arith))
    | inr e ↦ elim (Bool-cases (n.reachable fd)) [
      | inl r ↦ rw (e, r) (fd, at, (refl, (refl, refl)), no-Tears)
      | inr r ↦
          rw (e, r)
            (
              (refl, (refl, refl)),
              ((fd, n.takes fd) ∷ [], refl, ((at, r), tt)),
              λ f x a. ap n.reachable (only x a) ∙ r,
            )
    ]
  ]

  client_send_lem :
      (fd : ℕ)
      → At fd
      → ((x : ℕ) → At x → x ≡ fd)
      → Sends At bytes n (client_send_command (some fd) bytes n)
  unfolding client_send_command
  client_send_lem fd at only =
      Sends-if (is_nil bytes) empty_payload (send_frame fd bytes n)
        (λ e. refused empty_payload (λ f. false≢true (sym f.0 ∙ e))) (send_frame_lem fd at only)

module _ (device : String) (bytes : Text) (n : Net) where
  -- the socket that the registry has
  abbrev Registered : ℕ → Type 0
  Registered fd = registry_get device n ≡ some fd

  registry_outcome :
      (o : Option ℕ)
      → registry_get device n ≡ o
      → Sends Registered bytes n (send_registered o bytes n)
  unfolding send_registered
  registry_outcome none g = nowhere Registered bytes n send_failed (λ fd a. cc)
  registry_outcome (some fd) g = send_frame_lem Registered bytes n fd g (λ x a. cc)

  -- a device without a name is not in the registry
  unregistered : (fd : ℕ) → (device == "") ≡ true → Registered fd → ⊥
  unfolding registry_get
  unregistered fd e a = let f : none ≡ some fd = rw e at a in cc

  send_to_device_lem : Sends Registered bytes n (send_to_device device bytes n)
  unfolding send_to_device
  send_to_device_lem =
      Sends-if Registered bytes n (device == "") no_device _
        (λ e. nowhere Registered bytes n no_device (λ fd a. unregistered fd e a))
        (Sends-if Registered bytes n (is_nil bytes) empty_payload _
          (λ e. refused Registered bytes n empty_payload (λ f. false≢true (sym f.0 ∙ e)))
          (registry_outcome (registry_get device n) refl))

  -- the socket that the hub has kept
  abbrev Kept : Hub → ℕ → Type 0
  Kept h fd = lookup device h ≡ some (some fd)

  cached_outcome :
      (h : Hub) (m : Net) (e : SendError) (c : Option (Option ℕ))
      → lookup device h ≡ c
      → Sends (Kept h) bytes m (send_cached c e bytes m)
  unfolding send_cached
  cached_outcome h m e none g = nowhere (Kept h) bytes m e (λ fd a. cc)
  cached_outcome h m e (some none) g = nowhere (Kept h) bytes m e (λ fd a. cc)
  cached_outcome h m e (some (some fd)) g =
      keep (client_send_command (some fd) bytes m)
        (client_send_lem (Kept h) bytes m fd g (λ x a. cc))
    where
      keep :
          (r : Option SendError × Net)
          → Sends (Kept h) bytes m r
          → Sends (Kept h) bytes m (keep_error e r)
      keep (none, m') s = s
      keep (some x, m') s = s

  -- the tears of both attempts
  both_tear :
      (h : Hub) (m m' : Net)
      → Unsent n m
      → Tears Registered n m
      → Tears (Kept h) m m'
      → Tears (Candidate device h n) n m'
  both_tear h m m' u (ks, e, a) (ls, q, b) = (
    ks ++ ls,
    q ∙ (ap (λ l. l ++ ls) e ∙ append_assoc n.torn ks ls),
    All-append (λ k. Candidate device h n k.0 × (n.reachable k.0 ≡ false)) ks ls
        (All-weaken (λ k. Registered k.0 × (n.reachable k.0 ≡ false)) _ (λ k p. (inl p.0, p.1)) ks
          a)
        (All-weaken (λ k. Kept h k.0 × (m.reachable k.0 ≡ false)) _
          (λ k p. (inr p.0, sym (ap (λ f. f k.0) u.1.1) ∙ p.1)) ls b),
  )

  second_outcome :
      (h : Hub) (e : SendError) (m : Net) (r : Option SendError × Net)
      → Sends Registered bytes n (some e, m)
      → Sends (Kept h) bytes m r
      → Sent device bytes h n r
  second_outcome h e m (none, m') (u, t, none_left) (fd, at, d, t') = (
    fd,
    inr at,
    (d.0 ∙ ap (λ l. l ++ ((fd, bytes) ∷ [])) u.0, (d.1.0 ∙ u.1.0, d.1.1 ∙ u.1.1)),
    both_tear h m m' u t t',
  )
  second_outcome h e m (some x, m') (u, t, none_left) (v, t', none_left') = (
    (v.0 ∙ u.0, (v.1.0 ∙ u.1.0, v.1.1 ∙ u.1.1)),
    both_tear h m m' u t t',
    λ f fd c. elim c [
      | inl a ↦ none_left f fd a
      | inr a ↦ sym (ap (λ g. g fd) u.1.1) ∙ none_left' f fd a
    ],
  )

  after_first_lem :
      (h : Hub) (r : Option SendError × Net)
      → Sends Registered bytes n r
      → Sent device bytes h n (after_first (lookup device h) bytes r)
  unfolding after_first
  after_first_lem h (none, m) (fd, at, d, (ks, e, a)) = (
    fd,
    inl at,
    d,
    (
      ks,
      e,
      All-weaken (λ k. Registered k.0 × (n.reachable k.0 ≡ false)) _ (λ k p. (inl p.0, p.1)) ks a,
    ),
  )
  after_first_lem h (some e, m) f =
      second_outcome h e m (send_cached (lookup device h) e bytes m) f
        (cached_outcome h m e (lookup device h) refl)

-- A send that returns no error has put exactly one whole frame, the payload, on a socket of the
-- device: the one of the registry or the one that the hub has kept. A send that fails has put no
-- whole frame anywhere, and if the payload fits into a frame then none of these sockets could be
-- reached. In both cases the frames that were cut off on the way are on such sockets that cannot be
-- reached, and the registry is as it was.
pub send_outcome :
    (device : String) (bytes : Text) (h : Hub) (n : Net)
    → Sent device bytes h n (send device bytes h n)
unfolding send
send_outcome device bytes h n =
    after_first_lem device bytes n h (send_to_device device bytes n)
      (send_to_device_lem device bytes n)
