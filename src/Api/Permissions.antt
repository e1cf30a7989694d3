-- ===== src/Api/Permissions.antt =====
-- Which calls internal/api/rbac.go lets through.
use logs_tracker.Prelude.{
  String, ◌≡◌, ◌≢◌, inl, inr, ap, ap₂, subst, true, Bool-cases, Option, none, some, List, [], ◌∷◌,
  suc, Occurs, arith, str_eq, eq_iff,
}
use logs_tracker.Api.{
  Permission, has_permission, served, check_permission, rbac_middleware, trim_prefix,
}

has_permission-Occurs :
    (perms : List Permission) (p : Permission) → has_permission perms p ≡ true → Occurs p perms
unfolding has_permission
has_permission-Occurs [] p e = cc
has_permission-Occurs (q ∷ perms) p e = elim (Bool-cases (str_eq q p)) [
  | inl t ↦ (let same : q ≡ p = ground (arith, eq_iff q p) in (0, ap some same))
  | inr f ↦ let (i, h) = has_permission-Occurs perms p (rw (has_permission, f) at e) in (suc i, h)
]

check_permission-served :
    (required : Permission) (o : Option (String × List Permission)) (caller : String)
    (perms : List Permission)
    → check_permission required o ≡ served caller perms
    → (o ≡ some (caller, perms)) × Occurs required perms
unfolding check_permission
check_permission-served required none caller perms e = cc
check_permission-served required (some (c, ps)) caller perms e =
    elim (Bool-cases (has_permission ps required)) [
      | inr f ↦ cc (rw (check_permission, f) at e)
      | inl t ↦
          let same : served c ps ≡ served caller perms = (rw (check_permission, t) at e) in
          let c_is : c ≡ caller = cc in
          let ps_is : ps ≡ perms = cc in
          (
            ap some (ap₂ (λ x y. (x, y)) c_is ps_is),
            subst (Occurs required) ps_is (has_permission-Occurs ps required t),
          )
    ]

-- The handler is called for a caller only if the header is not empty, the validator knows its token
-- as that caller's, and the required permission is one of the token's.
pub rbac_middleware-served :
    (trim_space : String → String) (validate : String → Option (String × List Permission))
    (required : Permission) (header caller : String) (perms : List Permission)
    → rbac_middleware trim_space validate required header ≡ served caller perms
    → (header ≢ "")
      × (validate (trim_space (trim_prefix header "Bearer ")) ≡ some (caller, perms))
      × Occurs required perms
unfolding rbac_middleware
rbac_middleware-served trim_space validate required header caller perms e =
    elim (Bool-cases (str_eq header "")) [
      | inl t ↦ cc (rw (rbac_middleware, t) at e)
      | inr f ↦
          let nonempty : header ≢ "" = λ q. ground (arith, eq_iff header "") in
          let (valid, holds) =
            check_permission-served required (validate (trim_space (trim_prefix header "Bearer ")))
              caller perms (rw (rbac_middleware, f) at e) in
          (nonempty, valid, holds)
    ]
