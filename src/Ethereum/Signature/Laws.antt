-- ===== src/Ethereum/Signature/Laws.antt =====
-- Which signatures are accepted, and what of them is hashed.
use mathlib.Core.Option
use event_pool.Prelude.{
  ℕ, zero, suc, ◌<◌, ◌≡◌, refl, sym, ap, ◌↔◌, ◌⊎◌, inl, inr, List, [], ◌∷◌, ◌++◌, map, true, false,
  none, some, length, take, arith, All, Bool-cases, Option-cases,
}
use event_pool.Text.{
  Text, has_suffix, trim_suffix, contains, cut, index, split_two, split, join, remove_spaces,
}
use event_pool.Text.Laws.{
  Lacks, Lacks-append_left, Lacks-append_right, cut-joins, cut-some, join-split, split-Lacks,
  trim_suffix-append, index-cut, take-append, remove_spaces-Lacks,
}
use event_pool.Text.Suffixes.{has_suffix-behind}
use event_pool.Ethereum.Signature.{
  open_paren, close_paren, comma, space, indexed, strip_param, canonical_sig, parse_event_signature,
  extract_event_name,
}

strip_param-id : (p : Text) → Lacks indexed p → Lacks space p → strip_param p ≡ p
unfolding strip_param
strip_param-id p h k = rw (h, k)

map-strip_param :
    (ps : List Text) → All (Lacks indexed) ps → All (Lacks space) ps → map strip_param ps ≡ ps
map-strip_param [] h k = refl
map-strip_param (p ∷ ps) h k = rw (strip_param-id p h.0 k.0, map-strip_param ps h.1 k.1)

-- The text is what stands before the parenthesis, the parameters, and the closing one.
module _ (s name rest : Text) (e : cut s open_paren ≡ some (name, rest))
    (h : has_suffix s close_paren ≡ true) where
  rest_closes : has_suffix rest close_paren ≡ true
  rest_closes =
      has_suffix-behind name b'(' b')' rest (λ q. omega arith)
        (rw (cut-joins s b'(' [] name rest e).0 at h)

  sig-append : s ≡ name ++ (open_paren ++ (trim_suffix rest close_paren ++ close_paren))
  sig-append =
      rw (trim_suffix-append rest close_paren rest_closes) (cut-joins s b'(' [] name rest e).0

canonical_sig-eq :
    (s name rest : Text)
    → cut s open_paren ≡ some (name, rest)
    → contains s open_paren ≡ true
    → has_suffix s close_paren ≡ true
    → canonical_sig s
      ≡ some (
          name
          ++ (open_paren
              ++ (join (map strip_param (split (trim_suffix rest close_paren) comma)) comma
                  ++ close_paren)))
unfolding canonical_sig
canonical_sig-eq s name rest e c h = rw (c, h, split_two, e)

canonical_sig-needs :
    (s : Text)
    → ((contains s open_paren ≡ true) × (has_suffix s close_paren ≡ true))
      ⊎ (canonical_sig s ≡ none)
unfolding canonical_sig
canonical_sig-needs s = elim (Bool-cases (contains s open_paren)) [
  | inl c ↦ elim (Bool-cases (has_suffix s close_paren)) [
    | inl h ↦ inl (c, h)
    | inr h ↦ inr (rw (c, h))
  ]
  | inr c ↦ inr (rw c)
]

-- A signature is accepted exactly when, without its spaces, it has an opening parenthesis and ends
-- with a closing one.
pub parse_event_signature-accepts :
    (keccak_hex : Text → Text) (sig : Text)
    → ((h : Text) × (parse_event_signature keccak_hex sig ≡ some h)) ↔ (
        (contains (remove_spaces sig) open_paren ≡ true)
        × (has_suffix (remove_spaces sig) close_paren ≡ true))
unfolding parse_event_signature
parse_event_signature-accepts keccak_hex sig = (
  λ (h, e). elim (canonical_sig-needs (remove_spaces sig)) [
    | inl p ↦ p
    | inr q ↦ cc (rw (q, parse_event_signature) at e)
  ],
  λ (c, e).
      let ((name, rest), cuts) = cut-some (remove_spaces sig) b'(' [] c in
      let r = canonical_sig-eq (remove_spaces sig) name rest cuts c e in
      (_, ap (Option.map keccak_hex) r),
)

-- A signature none of whose parameters is indexed is hashed whole, without its spaces: a parameter's
-- name is joined to its type, not dropped.
pub parse_event_signature-plain :
    (keccak_hex : Text → Text) (sig : Text)
    → contains (remove_spaces sig) open_paren ≡ true
    → has_suffix (remove_spaces sig) close_paren ≡ true
    → contains (remove_spaces sig) indexed ≡ false
    → parse_event_signature keccak_hex sig ≡ some (keccak_hex (remove_spaces sig))
unfolding parse_event_signature
parse_event_signature-plain keccak_hex sig c h n =
    let s = remove_spaces sig in
    let ((name, rest), e) = cut-some s b'(' [] c in
    let params = trim_suffix rest close_paren in
    let whole = sig-append s name rest e h in
    let inner : (w : Text) → Lacks w s → Lacks w params = λ w l.
      Lacks-append_left w params close_paren
        (Lacks-append_right w open_paren _ (Lacks-append_right w name _ (rw whole at l))) in
    let kept : map strip_param (split params comma) ≡ split params comma =
      map-strip_param (split params comma) (split-Lacks indexed params b',' [] (inner indexed n))
        (split-Lacks space params b',' [] (inner space (remove_spaces-Lacks sig))) in
    rw (canonical_sig-eq s name rest e c h, kept, join-split params b',' [], parse_event_signature)
      (ap (λ t. some (keccak_hex t)) (sym whole))

taken :
    (i : ℕ) (a t name : Text)
    → suc i ≡ length a
    → some (take (suc i) (a ++ t)) ≡ some name
    → a ≡ name
taken i a t name n h = cc (take-append a t, ap (λ k. take k (a ++ t)) n)

-- The event's name that is extracted is not empty, holds no parenthesis, and stands before the
-- first parenthesis of a text that ends with a closing one.
pub extract_event_name-eq_some :
    (sig name : Text)
    → extract_event_name sig ≡ some name
    → (rest : Text) × (sig ≡ name ++ (open_paren ++ rest))
      × (contains name open_paren ≡ false)
      × (0 < length name)
      × (has_suffix sig close_paren ≡ true)
unfolding extract_event_name
extract_event_name-eq_some sig name h = elim (Option-cases (index sig open_paren)) [
  | inl e ↦ cc (rw (e, extract_event_name) at h)
  | inr (zero, e) ↦ cc (rw (e, extract_event_name) at h)
  | inr (suc i, e) ↦ elim (Bool-cases (has_suffix sig close_paren)) [
    | inr q ↦ cc (rw (e, q, extract_event_name) at h)
    | inl q ↦
        let (a, b, cuts, count) = index-cut sig open_paren e in
        let (whole, _, lacks) = cut-joins sig b'(' [] a b cuts in
        let same : a ≡ name =
          taken i a ((open_paren ++ b)) name count
            (rw whole at (rw (e, q, extract_event_name) at h)) in
        (b, rw same at whole, rw same at lacks, omega (arith, ap length same), q)
  ]
]
