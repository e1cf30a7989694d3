-- ===== src/Commands/ApiServer/Tokens.antt =====
-- Who is served by the server of cmd/apiserver/main.go: its two tokens.
use logs_tracker.Prelude.{
  String, ◌≡◌, ◌⊎◌, inl, inr, ap, sym, ◌∙◌, subst, Bool-cases, Option, Option-cases, none, some,
  List, [], Occurs, str_eq, eq_iff,
}
use logs_tracker.Prelude.Dict.{Dict, get, put, get-put}
use logs_tracker.Signing.{LocalKeyManager}
use logs_tracker.Alerting.{MemorySink}
use logs_tracker.Api.{Permission, validate_token, trim_prefix}
use logs_tracker.Api.Server.{Request, Backend, serve}
use logs_tracker.Api.Server.Guarded.{wanted, serve_lem}
use logs_tracker.Commands.{or_default}
use logs_tracker.Commands.ApiServer.{World, Flags, permissions_of, tokens, backend, listens, start}
use logs_tracker.Commands.ApiServer.Listening.{start-listens}

validate_token-get :
    (m : Dict (List Permission)) (token caller : String) (perms : List Permission)
    → validate_token m token ≡ some (caller, perms)
    → get token m ≡ some perms
unfolding validate_token
validate_token-get m token caller perms e = elim (Option-cases (get token m)) [
  | inl n ↦ cc (rw (validate_token, n) at e)
  | inr (ps, h) ↦
      let same : some ("service", ps) ≡ some (caller, perms) = rw (validate_token, h) at e in
      let perms_same : ps ≡ perms = cc in h ∙ ap some perms_same
]

none-some : {A : Type 0} {a : A} → none ≡ some a → ⊥
none-some e = cc

tokens-cases :
    (admin app token : String) (perms : List Permission)
    → get token (tokens admin app) ≡ some perms
    → (token ≡ admin) ⊎ ((token ≡ app) × (permissions_of "app_service" ≡ perms))
unfolding tokens get
tokens-cases admin app token perms e = elim (Bool-cases (str_eq app token)) [
  | inl t ↦
      let found =
        rw
          (
            get-put token app (permissions_of "app_service")
                (put admin (permissions_of "admin") []),
            t,
          )
          at e in
      inr (sym ((eq_iff app token).0 t), cc)
  | inr f ↦ elim (Bool-cases (str_eq admin token)) [
    | inl t ↦ inl (sym ((eq_iff admin token).0 t))
    | inr g ↦
        let lost =
          rw
            (
              get-put token app (permissions_of "app_service")
                  (put admin (permissions_of "admin") []),
              f,
              get-put token admin (permissions_of "admin") [],
              g,
            )
            at e in
        absurd (none-some lost)
  ]
]

module _ (w : World) (f : Flags) where
  abbrev pub admin_token : String
  admin_token = or_default "admin-secret-token" f.admin_token

  abbrev pub app_token : String
  app_token = or_default "app-service-token" f.app_token

  abbrev pub token_of : Request → String
  token_of q = w.trim_space (trim_prefix q.authorization "Bearer ")

  -- The caller has the administrator's token, or the application's, which allows it.
  abbrev pub IsKnown : Request → Permission → Type 0
  IsKnown q p =
      (token_of q ≡ admin_token)
      ⊎ ((token_of q ≡ app_token) × Occurs p (permissions_of "app_service"))

  backend-IsKnown :
      (url : String) (m : LocalKeyManager) (q : Request) (sink : Option MemorySink) (p : Permission)
      → wanted (serve (backend w url admin_token app_token m) q sink).1 ≡ some p
      → IsKnown q p
  unfolding backend
  backend-IsKnown url m q sink p e =
      elim (serve_lem (backend w url admin_token app_token m) q sink) [
        | inl (public, same) ↦ absurd (none-some (sym public ∙ e))
        | inr (r, (caller, perms, valid, holds), (wants, kept)) ↦
            let same : r ≡ p = (let both : some r ≡ some p = sym wants ∙ e in cc) in
            elim (tokens-cases admin_token app_token (token_of q) perms
              (validate_token-get _ _ caller perms valid)) [
                | inl t ↦ inl t
                | inr (t, role) ↦
                    inr (t, subst (Occurs p) (sym role) (subst (λ x. Occurs x perms) same holds))
              ]
      ]

  -- An answer that wants a permission is given only for the administrator's token, or for the
  -- application's token if its role has the permission.
  pub start-IsKnown :
      (s : Backend) (sink : MemorySink) (q : Request) (now : Option MemorySink) (p : Permission)
      → start w f ≡ listens s sink
      → wanted (serve s q now).1 ≡ some p
      → IsKnown q p
  start-IsKnown s sink q now p e wants =
      let (url, m, built, fresh) = start-listens w f s sink e in
      backend-IsKnown url m q now p
        (subst (λ x. wanted (serve x q now).1 ≡ some p) (sym built) wants)
