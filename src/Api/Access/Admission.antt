-- ===== src/Api/Access/Admission.antt =====
-- Which headers the middlewares admit.
use event_pool.Prelude.{
  ◌≡◌, refl, ap, ◌∙◌, ◌≢◌, ◌↔◌, ◌⊎◌, inl, inr, [], ◌∷◌, ◌++◌, true, false, not, none, some, length,
  drop, if◌then◌else◌, text_eq, text_eq_iff, Bool-cases,
}
use event_pool.Text.{Text, has_prefix, trim_prefix, to_lower}
use event_pool.Text.Laws.{has_prefix-append, has_prefix-drop}
use event_pool.Grpc.Auth.{
  Claims, Parsed, failed, token, Parser, Checked, accepted, invalid_token, invalid_claims, bearer,
}
use event_pool.Api.Access.{Gate, denied, admitted, is_missing, auth_middleware, secret_middleware}

-- The header is the secret, or carries it behind `Bearer `.
abbrev pub Carries : Text → Text → Type 0
Carries auth_header given =
    (auth_header ≡ bearer ++ given)
    ⊎ ((has_prefix auth_header bearer ≡ false) × (auth_header ≡ given))

compared :
    (secret given : Text)
    → (if not (text_eq given secret) then denied else admitted none) ≡ admitted none
    → given ≡ secret
compared secret given h = elim (Bool-cases (text_eq given secret)) [
  | inl same ↦ (text_eq_iff given secret).0 same
  | inr other ↦ cc (rw other at h)
]

text_eq_self : (t : Text) → text_eq t t ≡ true
text_eq_self t = (text_eq_iff t t).1 refl

secret_middleware-Carries :
    (secret auth_header : Text)
    → is_missing auth_header ≡ false
    → (secret_middleware secret auth_header ≡ admitted none) ↔ Carries auth_header secret
unfolding secret_middleware
secret_middleware-Carries secret auth_header there = (forth, back)
  where
    forth : secret_middleware secret auth_header ≡ admitted none → Carries auth_header secret
    forth h = elim (Bool-cases (has_prefix auth_header bearer)) [
      | inr p ↦ inr (p, compared secret auth_header (rw (there, p, secret_middleware) at h))
      | inl p ↦
          let behind = drop (length bearer) auth_header in
          let whole : auth_header ≡ bearer ++ behind = has_prefix-drop auth_header bearer p in
          let same = compared secret behind (rw (there, p, secret_middleware) at h) in
          inl (whole ∙ ap (λ t. bearer ++ t) same)
    ]

    back : Carries auth_header secret → secret_middleware secret auth_header ≡ admitted none
    back (inl e) =
        let p : has_prefix auth_header bearer ≡ true =
          ap (λ t. has_prefix t bearer) e ∙ has_prefix-append bearer secret in
        let t : drop (length bearer) auth_header ≡ secret = ap (drop (length bearer)) e in
        rw (there, p, t, text_eq_self secret, secret_middleware)
    back (inr (p, e)) =
        let same : text_eq auth_header secret ≡ true = (text_eq_iff auth_header secret).1 e in
        rw (there, p, same, secret_middleware)

-- A request passes exactly where its header is not empty and is the secret, or is the secret behind
-- `Bearer `; a header with that prefix counts only by what stands behind it.
pub secret_middleware-admits :
    (secret auth_header : Text)
    → (secret_middleware secret auth_header ≡ admitted none)
      ↔ ((auth_header ≢ []) × Carries auth_header secret)
unfolding secret_middleware
secret_middleware-admits secret [] = (λ h. cc, λ (h, c). absurd (h refl))
secret_middleware-admits secret (c ∷ cs) =
    let (forth, back) = secret_middleware-Carries secret (c ∷ cs) refl in
    (λ h. (λ e. cc, forth h), λ (n, h). back h)

-- The bare token of a header.
abbrev pub bare : Text → Text
bare auth_header =
    if has_prefix auth_header bearer then trim_prefix auth_header bearer else auth_header

-- What the middleware makes of the library's answer.
abbrev gate_of : Parsed → Gate
gate_of parsed =
    let c : Checked = elim parsed [
      | failed ↦ invalid_token
      | token claims valid ↦ if valid then accepted claims else invalid_claims
    ] in
    elim c [ accepted claims ↦ admitted (some (to_lower claims.address)) | _ ↦ denied ]

checks :
    (parsed : Parsed) (address : Text)
    → gate_of parsed ≡ admitted (some address)
    → (claims : Claims) × (parsed ≡ token claims true) × (to_lower claims.address ≡ address)
checks failed address h = cc
checks (token claims true) address h = (claims, refl, ap address_of h)
  where
    address_of : Gate → Text
    address_of (admitted (some a)) = a
    address_of _ = []
checks (token claims false) address h = cc

-- A request passes with an address exactly where its header is not empty, the library parses its
-- token, with or without `Bearer ` before it, to valid claims, and the address is that of the claims
-- in lower case. The revoked tokens of Redis are not asked for.
pub auth_middleware-admits :
    (parse : Parser) (jwt_secret auth_header address : Text)
    → (auth_middleware parse jwt_secret auth_header ≡ admitted (some address)) ↔ (
        (auth_header ≢ [])
        × ((claims : Claims) × (parse (bare auth_header) jwt_secret ≡ token claims true)
            × (to_lower claims.address ≡ address)))
unfolding auth_middleware
auth_middleware-admits parse jwt_secret [] address = (λ h. cc, λ (h, c). absurd (h refl))
auth_middleware-admits parse jwt_secret (c ∷ cs) address = (
  λ h. (λ e. cc, checks (parse (bare (c ∷ cs)) jwt_secret) address h),
  λ (n, (claims, e, q)). ap gate_of e ∙ ap (λ a. admitted (some a)) q,
)
