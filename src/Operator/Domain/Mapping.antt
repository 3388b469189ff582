-- ===== src/Operator/Domain/Mapping.antt =====
-- The names of operator/internal/controller/domain_controller.go: a Certificate's event finds the
-- Domain that the Certificate was named after.
use orkano.Prelude.{
  ◌≡◌, ap, inl, inr, ℕ, Text, text_eq, text_eq_iff, text_eq_refl, is_empty, [], ◌∷◌, ◌++◌, some,
  false, Bool-cases, arith, length, length-append,
}
use orkano.Operator.Domain.{
  Domain, ref_of, apps_namespace, tls_secret_name, cut_suffix, map_certificate_to_domain,
}

longer_ne : (c : ℕ) (s suffix : Text) → text_eq (c ∷ (s ++ suffix)) suffix ≡ false
longer_ne c s suffix = elim (Bool-cases (text_eq (c ∷ (s ++ suffix)) suffix)) [
  | inr e ↦ e
  | inl e ↦
      let same : c ∷ (s ++ suffix) ≡ suffix = (text_eq_iff (c ∷ (s ++ suffix)) suffix).0 e in
      absurd (omega (arith, ap length same, length-append {0} s suffix))
]

cut_suffix-append :
    (p : Text) (c : ℕ) (suffix : Text) → cut_suffix (c ∷ suffix) (p ++ c ∷ suffix) ≡ some p
unfolding cut_suffix
cut_suffix-append [] c suffix = ground (arith, text_eq_refl (c ∷ suffix))
cut_suffix-append (b ∷ p) c suffix =
    ground (arith, longer_ne b p (c ∷ suffix), cut_suffix-append p c suffix)

-- The event of a Certificate in the Apps' namespace that has the name of a Domain's TLS secret
-- reconciles that Domain, and no other.
pub map_certificate_to_domain-tls_secret_name :
    (d : Domain)
    → d.namespace ≡ apps_namespace
    → is_empty d.name ≡ false
    → map_certificate_to_domain d.namespace (tls_secret_name d) ≡ ref_of d ∷ []
unfolding map_certificate_to_domain tls_secret_name
map_certificate_to_domain-tls_secret_name d here named = ground (
  arith,
  (text_eq_iff d.namespace apps_namespace).1 here,
  cut_suffix-append d.name b'-' (b't' ∷ b'l' ∷ b's' ∷ []),
)
