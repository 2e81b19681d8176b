-- ===== src/Grpc/Handler/Panics.antt =====
-- On which signatures `VerifySignature` panics.
use event_pool.Prelude.{
  ℕ, zero, suc, ◌≤◌, ◌≡◌, ◌↔◌, refl, List, [], ◌∷◌, none, some, arith, length, get_elem?,
}
use event_pool.Text.{Text}
use event_pool.Grpc.Handler.{Signatures, verify_signature, recovery_id_offset, lower_recovery_id}

get_elem?-none : (xs : List ℕ) (i : ℕ) → (get_elem? xs i ≡ none) ↔ (length xs ≤ i)
get_elem?-none [] i = (λ e. omega arith, λ h. refl)
get_elem?-none (x ∷ xs) zero = (λ e. cc, λ h. absurd (omega (arith, h)))
get_elem?-none (x ∷ xs) (suc i) =
    let (forth, back) = get_elem?-none xs i in
    (λ e. omega (arith, forth e), λ h. back (omega (arith, h)))

lower_recovery_id-none :
    (signature : List ℕ)
    → (lower_recovery_id signature ≡ none) ↔ (length signature ≤ recovery_id_offset)
lower_recovery_id-none signature = ground (arith, get_elem?-none signature recovery_id_offset)

out_of_range :
    (lib : Signatures) (from_address message signature_hex : Text)
    → verify_signature lib from_address message signature_hex ≡ none
    → (signature : List ℕ) × (lib.decode signature_hex ≡ some signature)
      × (get_elem? signature recovery_id_offset ≡ none)
unfolding verify_signature
out_of_range lib from_address message signature_hex e = ground arith

-- `VerifySignature` panics exactly on a text that decodes to 64 bytes or fewer.
pub verify_signature_panics :
    (lib : Signatures) (from_address message signature_hex : Text)
    → (verify_signature lib from_address message signature_hex ≡ none) ↔ (
        (signature : List ℕ) × (lib.decode signature_hex ≡ some signature)
        × (length signature ≤ recovery_id_offset))
unfolding verify_signature
verify_signature_panics lib from_address message signature_hex = (
  λ h.
      let (signature, e, out) = out_of_range lib from_address message signature_hex h in
      (signature, e, (get_elem?-none signature recovery_id_offset).0 out),
  λ (signature, e, h).
      let short = (lower_recovery_id-none signature).1 h in rw (e, short, verify_signature) refl,
)
