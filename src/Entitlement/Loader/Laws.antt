-- ===== src/Entitlement/Loader/Laws.antt =====
-- What `Load` guarantees (pkg/entitlement/loader.go).
use Prim.Native.String
use basecheck_agent.Prelude.{
  subst, ◌==◌, ℕ, String, true, false, not, ◌&&◌, ◌||◌, ◌≡◌, ◌≢◌, refl, Option, Option-cases,
  Bool-cases, none, some, Result, Result-cases, ok, err, List, arith, eq_iff, inl, inr, str_eq,
}
use basecheck_agent.Prelude.Dict.{lookup}
use basecheck_agent.Entitlement.{
  Strings, Entitlement, EntitlementError, signature_required, is_expired_at, validate,
  is_bound_to_agent,
}
use basecheck_agent.Entitlement.Verify.{Crypto, verify}
use basecheck_agent.Entitlement.Loader.{
  refuses_http, Response, failed, unreadable, response, load, load_local, load_remote, cached,
  load_from_cache, load_from_server, LoaderConfig, LoaderEnv, Files, decode, admit,
  check_entitlement, parse_and_verify, load_from_file, load_from_cache, read_response,
  load_from_server, cached, load_local, load_remote, load, Response, failed, unreadable, response,
}

module _ {Key RsaKey : Type 0} (s : Strings) (c : Crypto Key RsaKey) (l : LoaderConfig) where
  -- Valid fields, the agent's own entitlement, and a signature that verifies.
  abbrev pub IsTrusted : Entitlement → Type 0
  IsTrusted e =
      (validate s e ≡ none)
      × ((l.agent_id ≢ "" → is_bound_to_agent s e l.agent_id ≡ true)
          × (l.allow_insecure_signature ≡ false → verify s c l.public_key e ≡ none))

  abbrev pub TrustedResult : Result EntitlementError Entitlement → Type 0
  TrustedResult (ok e) = IsTrusted e
  TrustedResult (err x) = Unit

  abbrev pub TrustedOption : Option Entitlement → Type 0
  TrustedOption (some e) = IsTrusted e
  TrustedOption none = Unit

  -- Of what `Load` returns.
  abbrev pub TrustedLoad : Result EntitlementError (Option Entitlement) → Type 0
  TrustedLoad (ok o) = TrustedOption o
  TrustedLoad (err x) = Unit

  abbrev answer : LoaderEnv → Response
  answer env = env.respond (String.◌++◌ (s.trim_suffix l.server_url "/") "/api/agent/entitlement")

  admit-TrustedResult : (e : Entitlement) → validate s e ≡ none → TrustedResult (admit s c l e)
  unfolding admit
  admit-TrustedResult e h =
      elim (Bool-cases (not (str_eq l.agent_id "") && not (is_bound_to_agent s e l.agent_id))) [
        | inl b ↦ rw b tt
        | inr b ↦
            let bound : l.agent_id ≢ "" → is_bound_to_agent s e l.agent_id ≡ true =
              λ named. ground (arith, b, named, eq_iff l.agent_id "") in
            elim (Bool-cases l.allow_insecure_signature) [
              | inl i ↦ rw (b, i) (h, (bound, λ off. cc))
              | inr i ↦ elim (Option-cases (verify s c l.public_key e)) [
                | inl v ↦ rw (b, i, v) (h, (bound, λ _. v))
                | inr (x, v) ↦ rw (b, i, v) tt
              ]
            ]
      ]

  check_entitlement-TrustedResult : (e : Entitlement) → TrustedResult (check_entitlement s c l e)
  unfolding check_entitlement
  check_entitlement-TrustedResult e = elim (Option-cases (validate s e)) [
    | inl v ↦ rw (v, TrustedResult) (admit-TrustedResult e v)
    | inr (x, v) ↦ rw (v, TrustedResult) tt
  ]

  parse_and_verify-TrustedResult :
      (env : LoaderEnv) (bytes : List ℕ) → TrustedResult (parse_and_verify s c l env bytes)
  unfolding parse_and_verify
  parse_and_verify-TrustedResult env bytes = elim (Option-cases (decode env bytes)) [
    | inl d ↦ rw (d, TrustedResult) tt
    | inr (e, d) ↦ rw (d, TrustedResult) (check_entitlement-TrustedResult e)
  ]

  load_from_file-TrustedResult :
      (env : LoaderEnv) (files : Files) (path : String)
      → TrustedResult (load_from_file s c l env files path)
  unfolding load_from_file
  load_from_file-TrustedResult env files path = elim (Bool-cases (env.read_fails path)) [
    | inl r ↦ rw r tt
    | inr r ↦ elim (Option-cases (lookup path files)) [
      | inl f ↦ rw (r, f) tt
      | inr (bytes, f) ↦ rw (r, f) (parse_and_verify-TrustedResult env bytes)
    ]
  ]

  read_response-TrustedResult :
      (env : LoaderEnv) (r : Response) → TrustedResult (read_response s c l env r)
  unfolding read_response
  read_response-TrustedResult env failed = tt
  read_response-TrustedResult env (unreadable code) = elim (Bool-cases (code == 404)) [
    | inl h ↦ rw h tt
    | inr h ↦ rw h tt
  ]
  read_response-TrustedResult env (response code body) = elim (Bool-cases (code == 404)) [
    | inl h ↦ rw h tt
    | inr h ↦ elim (Bool-cases (code == 200)) [
      | inl g ↦ rw (h, g) (parse_and_verify-TrustedResult env body)
      | inr g ↦ rw (h, g) tt
    ]
  ]

  load_from_cache-TrustedResult :
      (env : LoaderEnv) (files : Files) → TrustedResult (load_from_cache s c l env files)
  unfolding load_from_cache
  load_from_cache-TrustedResult env files = elim (Bool-cases (str_eq l.cache_path "")) [
    | inl h ↦ rw h tt
    | inr h ↦
        rw h (load_from_file-TrustedResult env files (env.join l.cache_path "entitlement.yaml"))
  ]

  pub load_from_server-TrustedResult :
      (env : LoaderEnv) → TrustedResult (load_from_server s c l env)
  unfolding load_from_server read_response parse_and_verify decode
  load_from_server-TrustedResult env = elim (Bool-cases (str_eq l.server_url "")) [
    | inl u ↦ rw u tt
    | inr u ↦ elim (Bool-cases (str_eq l.agent_token "")) [
      | inl t ↦ rw (u, t) tt
      | inr t ↦ elim (Bool-cases (refuses_http s l.server_url l.allow_insecure_transport)) [
        | inl i ↦ rw (u, t, i) tt
        | inr i ↦ elim (Bool-cases env.request_fails) [
          | inl q ↦ rw (u, t, i, q) tt
          | inr q ↦ rw (u, t, i, q) (read_response-TrustedResult env (answer env))
        ]
      ]
    ]
  ]

  cached-TrustedOption : (env : LoaderEnv) (files : Files) → TrustedOption (cached s c l env files)
  unfolding cached
  cached-TrustedOption env files = elim (Bool-cases (str_eq l.cache_path "")) [
    | inl h ↦ rw h tt
    | inr h ↦ elim (Result-cases (load_from_cache s c l env files)) [
      | inr (x, r) ↦ rw (h, r) tt
      | inl (e, r) ↦ elim (Bool-cases (is_expired_at e env.now)) [
        | inl x ↦ rw (h, r, x) tt
        | inr x ↦ rw (h, r, x) (subst TrustedResult r (load_from_cache-TrustedResult env files))
      ]
    ]
  ]

  load_local-TrustedLoad :
      (env : LoaderEnv) (files : Files) → TrustedLoad (load_local s c l env files)
  unfolding load_local
  load_local-TrustedLoad env files =
      elim (Result-cases (load_from_file s c l env files l.local_path)) [
        | inl (e, r) ↦
            rw (r, TrustedLoad)
              (subst TrustedResult r (load_from_file-TrustedResult env files l.local_path))
        | inr (x, r) ↦ rw (r, TrustedLoad) tt
      ]

  load_remote-TrustedLoad :
      (env : LoaderEnv) (files : Files) → TrustedLoad (load_remote s c l env files).0
  unfolding load_remote
  load_remote-TrustedLoad env files =
      elim (Bool-cases (str_eq l.server_url "" || str_eq l.agent_token "")) [
        | inl h ↦ rw h tt
        | inr h ↦ elim (Result-cases (load_from_server s c l env)) [
          | inl (e, r) ↦ rw (h, r) (subst TrustedResult r (load_from_server-TrustedResult env))
          | inr (x, r) ↦ rw (h, r) tt
        ]
      ]

  -- Whatever the file, the cache or the server hold, an entitlement that `Load` returns has valid
  -- fields, is bound to this agent if the agent has an ID, and carries a signature that verifies
  -- under the configured key unless signatures are switched off; plain HTTP changes nothing of this.
  pub load-TrustedLoad : (env : LoaderEnv) (files : Files) → TrustedLoad (load s c l env files).0
  unfolding load
  load-TrustedLoad env files =
      elim (Bool-cases (not l.allow_insecure_signature && str_eq (s.trim_space l.public_key) "")) [
        | inl k ↦ rw k tt
        | inr k ↦ elim (Bool-cases (not (str_eq l.local_path ""))) [
          | inl p ↦ rw (k, p) (load_local-TrustedLoad env files)
          | inr p ↦ elim (Option-cases (cached s c l env files)) [
            | inl o ↦ rw (k, p, o) (load_remote-TrustedLoad env files)
            | inr (e, o) ↦ rw (k, p, o) (subst TrustedOption o (cached-TrustedOption env files))
          ]
        ]
      ]

  -- Without a public key, and with signatures not switched off, `Load` fails before it looks at any
  -- source, and leaves the files as they are.
  pub load_without_key :
      (env : LoaderEnv) (files : Files)
      → s.trim_space l.public_key ≡ ""
      → l.allow_insecure_signature ≡ false
      → load s c l env files ≡ (err signature_required, files)
  unfolding load
  load_without_key env files k i = rw (i, k) refl
