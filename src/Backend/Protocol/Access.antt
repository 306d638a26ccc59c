-- ===== src/Backend/Protocol/Access.antt =====
-- Who is authorized: logins and disconnects.
use sagiri_guard.Base.{
  ℕ, ◌≤◌, ◌≡◌, refl, sym, ◌∙◌, ◌⊎◌, none, Bool, true, false, not, ◌&&◌, ◌||◌, Option, some, String,
  ◌==◌, if◌then◌else◌, arith, eq_iff, eq_refl, Bool-cases, inl, inr,
}
use mathlib.Core.Bool.{false≢true}
use sagiri_guard.Base.Strings.{dots}
use sagiri_guard.Base.Map.{
  Map, lookup, insert, delete, lookup-insert, lookup-delete, lookup-insert_same,
}
use sagiri_guard.Backend.Hub.{register}
use sagiri_guard.Backend.Transfer.{is_authorized, token_of}
use sagiri_guard.Backend.Protocol.{
  Controller, accepts_token, claims_fit, looks_like_jwt, with_token, handle_login_frame,
  handle_disconnect,
}

-- authorization in a map of tokens
abbrev has_token : String → Map String → Bool
has_token device m = if device == "" then false else not (token_of (lookup device m) == "")

has_token-insert :
    (device token other : String) (m : Map String)
    → (device == "") ≡ false
    → (token == "") ≡ false
    → has_token other (insert device token m) ≡ (device == other || has_token other m)
has_token-insert device token other m n t =
    rw (lookup-insert device other token m) (elim (Bool-cases (device == other)) [
      | inl e ↦ let same = (eq_iff device other).0 e in rw⁻¹ same (rw (eq_refl device, n, t) refl)
      | inr e ↦ rw e refl
    ])

or_and_true : (a d : Bool) → (a || d) ≡ ((a && true) || d)
or_and_true a d = ground arith

or_and_false : (a d : Bool) → d ≡ ((a && false) || d)
or_and_false a d = ground arith

and_assoc : (a b d e : Bool) → ((a && (b && d)) || e) ≡ ((a && b && d) || e)
and_assoc a b d e = ground arith

if_same : (b d : Bool) → (if b then false else false) ≡ (false && d)
if_same b d = ground arith

has_token-delete :
    (device other : String) (m : Map String)
    → has_token other (delete device m) ≡ (not (device == other) && has_token other m)
has_token-delete device other m =
    rw (lookup-delete device other m) (elim (Bool-cases (device == other)) [
      | inl e ↦ rw e (if_same (other == "") (has_token other m))
      | inr e ↦ rw e refl
    ])

tokens_after :
    {V : Type 0} (b : Bool) (other device token : String) (c : Controller V)
    → (device == "") ≡ false
    → (b ≡ true → (token == "") ≡ false)
    → has_token other (if b then with_token device token c else c).transfer.device_tokens
      ≡ ((device == other && b) || has_token other c.transfer.device_tokens)
tokens_after true other device token c n t =
    has_token-insert device token other c.transfer.device_tokens n (t refl)
    ∙ or_and_true (device == other) _
tokens_after false other device token c n t = or_and_false (device == other) _

token_there : (b d : Bool) → (not b && d) ≡ true → b ≡ false
token_there b d h = ground arith

hub_after :
    {V : Type 0} (signer : Option (String → Option String)) (client : Option ℕ)
    (device token : String) (c : Controller V)
    → (device == "") ≡ false
    → lookup device (handle_login_frame signer client device token c).hub ≡ some client
unfolding handle_login_frame register
hub_after signer client device token c n = rw n (lookup-insert_same device client _)

and_first : (a b e d : Bool) → b ≡ true → ((a && not b && e) || d) ≡ d
and_first a b e d h = ground arith

and_last : (a b e d : Bool) → e ≡ false → ((a && not b && e) || d) ≡ d
and_last a b e d h = ground arith

login_tokens :
    {V : Type 0} (signer : Option (String → Option String)) (client : Option ℕ)
    (device token other : String) (c : Controller V)
    → (device == "") ≡ false
    → is_authorized other (handle_login_frame signer client device token c).transfer ≡ (
        (device == other && not (token == "") && accepts_token signer token device)
        || is_authorized other c.transfer)
unfolding handle_login_frame register is_authorized
login_tokens signer client device token other c n = rw n (
    tokens_after (not (token == "") && accepts_token signer token device) other device token c n
      (token_there (token == "") (accepts_token signer token device))
    ∙ and_assoc (device == other) _ _ _)

-- The token is refused: there is a signer, the token has at least two dots, and it does not parse,
-- or the device that it claims is neither empty nor the frame's.
abbrev pub Refused : Option (String → Option String) → String → String → Type 0
Refused none token device = ⊥
Refused (some parse) token device =
    (2 ≤ dots token)
    × ((parse token ≡ none)
        ⊎ ((claimed : String) × (parse token ≡ some claimed)
            × ((claimed == "") ≡ false)
            × ((claimed == device) ≡ false)))

-- a token's claims that do not fit
abbrev Unfit : Option String → String → Type 0
Unfit o device =
    (o ≡ none)
    ⊎ ((claimed : String) × (o ≡ some claimed)
        × ((claimed == "") ≡ false)
        × ((claimed == device) ≡ false))

claims_fit-Unfit :
    (o : Option String) (device : String) → Unfit o device → claims_fit o device ≡ false
claims_fit-Unfit o device (inl e) = rw e refl
claims_fit-Unfit o device (inr (claimed, e, n, d)) = rw (e, n, d) refl

claims_fit-cases :
    (o : Option String) (device : String) → (claims_fit o device ≡ true) ⊎ Unfit o device
claims_fit-cases none device = inr (inl refl)
claims_fit-cases (some claimed) device = elim (Bool-cases (claimed == "")) [
  | inl e ↦ inl (rw e refl)
  | inr e ↦ elim (Bool-cases (claimed == device)) [
    | inl d ↦ inl (rw (e, d) refl)
    | inr d ↦ inr (inr (claimed, refl, e, d))
  ]
]

short_not_jwt : (token : String) → looks_like_jwt token ≡ true → 2 ≤ dots token
unfolding looks_like_jwt
short_not_jwt token h = ground arith

dots_jwt : (token : String) → (token == "") ≡ false → 2 ≤ dots token → looks_like_jwt token ≡ true
unfolding looks_like_jwt
dots_jwt token n h = ground arith

accepts_token-Refused :
    (signer : Option (String → Option String)) (token device : String)
    → (token == "") ≡ false
    → Refused signer token device
    → accepts_token signer token device ≡ false
unfolding accepts_token
accepts_token-Refused none token device n m = absurd m
accepts_token-Refused (some parse) token device n (d, u) =
    rw (dots_jwt token n d) (claims_fit-Unfit (parse token) device u)

accepts_token-accepted :
    (signer : Option (String → Option String)) (token device : String)
    → (Refused signer token device → ⊥)
    → accepts_token signer token device ≡ true
unfolding accepts_token
accepts_token-accepted none token device m = refl
accepts_token-accepted (some parse) token device m = elim (Bool-cases (looks_like_jwt token)) [
  | inl j ↦ elim (claims_fit-cases (parse token) device) [
    | inl f ↦ rw j f
    | inr u ↦ absurd (m (short_not_jwt token j, u))
  ]
  | inr j ↦ rw j refl
]

-- After a login frame with a device id, the hub has the connection, and all other devices are
-- authorized as before. The device is authorized as before when the token is empty or refused: there
-- is a signer, the token has two dots or more, and it does not parse, or it claims a device that is
-- neither empty nor the frame's. With any other token the device is authorized.
pub login_authorizes :
    {V : Type 0} (signer : Option (String → Option String)) (client : Option ℕ)
    (device token : String) (c : Controller V)
    → (device == "") ≡ false
    → let c' = handle_login_frame signer client device token c in
      (lookup device c'.hub ≡ some client)
      × ((other : String)
          → (device == other) ≡ false
          → is_authorized other c'.transfer ≡ is_authorized other c.transfer)
      × (((token == "") ≡ true) ⊎ Refused signer token device
          → is_authorized device c'.transfer ≡ is_authorized device c.transfer)
      × ((token == "") ≡ false
          → (Refused signer token device → ⊥)
          → is_authorized device c'.transfer ≡ true)
login_authorizes signer client device token c n =
    let after = λ (other : String). login_tokens signer client device token other c n in
    (
      hub_after signer client device token c n,
      λ other d. after other ∙ rw d refl,
      λ m. after device ∙ elim (Bool-cases (token == "")) [
        | inl e ↦ and_first (device == device) _ _ _ e
        | inr e ↦ elim m [
          | inl x ↦ absurd (false≢true (sym e ∙ x))
          | inr x ↦
              and_last (device == device) _ _ _ (accepts_token-Refused signer token device e x)
        ]
      ],
      λ e m.
          after device ∙ rw (eq_refl device, e, accepts_token-accepted signer token device m) refl,
    )

-- After a disconnect of a device with an id the device is not authorized, and any other device is
-- authorized as before.
pub disconnect_revokes :
    {V : Type 0} (client : Option ℕ) (device other : String) (c : Controller V)
    → (device == "") ≡ false
    → is_authorized other (handle_disconnect client device c).transfer
      ≡ (not (device == other) && is_authorized other c.transfer)
unfolding handle_disconnect is_authorized
disconnect_revokes client device other c n =
    rw n (has_token-delete device other c.transfer.device_tokens)
