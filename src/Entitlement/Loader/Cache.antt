-- ===== src/Entitlement/Loader/Cache.antt =====
-- The cache of entitlements between two runs (pkg/entitlement/loader.go).
use basecheck_agent.Prelude.{
  ℕ, String, true, false, not, ◌&&◌, ◌||◌, ◌≡◌, ◌≢◌, refl, ap, subst, ◌∙◌, Bool-cases, none, some,
  ok, List, arith, eq_iff, inl, inr, str_eq,
}
use basecheck_agent.Prelude.Dict.{lookup, insert, lookup-insert}
use basecheck_agent.Entitlement.{Strings, Entitlement, is_expired_at, is_bound_to_agent}
use basecheck_agent.Entitlement.Verify.{Crypto}
use basecheck_agent.Entitlement.Loader.{
  LoaderConfig, LoaderEnv, Files, decode, admit, check_entitlement, parse_and_verify,
  load_from_file, load_from_cache, load_from_server, save_to_cache, cached, load_remote, load,
}
use basecheck_agent.Entitlement.Loader.Laws.{
  IsTrusted, TrustedResult, load_from_server-TrustedResult,
}

module _ {Key RsaKey : Type 0} (s : Strings) (c : Crypto Key RsaKey) (l : LoaderConfig) where
  abbrev pub cache_file : LoaderEnv → String
  cache_file env = env.join l.cache_path "entitlement.yaml"

  -- The cache can be written in one run.
  pub record CanSave (env : LoaderEnv) (e : Entitlement) (bytes : List ℕ) : Type 0 where
    pub makes_directory : env.mkdir_fails ≡ false
    pub encodes : env.marshal e ≡ some bytes
    pub writes : env.write_failure ≡ none

  found_written :
      (path : String) (bytes : List ℕ) (files : Files)
      → lookup path (insert path bytes files) ≡ some bytes
  found_written path bytes files =
      let here = lookup-insert path path bytes files in ground (arith, here, eq_iff path path)

  save_to_cache-written :
      (env : LoaderEnv) (files : Files) (e : Entitlement) (bytes : List ℕ)
      → str_eq l.cache_path "" ≡ false
      → CanSave env e bytes
      → save_to_cache s c l env files e ≡ insert (cache_file env) bytes files
  unfolding save_to_cache
  save_to_cache-written env files e bytes p h =
      let d = h.makes_directory in let m = h.encodes in let w = h.writes in rw (p, d, m, w) refl

  admit_trusted : (e : Entitlement) → IsTrusted s c l e → admit s c l e ≡ ok e
  unfolding admit
  admit_trusted e (_, (bound, signed)) =
      let ours : (not (str_eq l.agent_id "") && not (is_bound_to_agent s e l.agent_id)) ≡ false =
        ground (arith, bound, eq_iff l.agent_id "") in
      elim (Bool-cases l.allow_insecure_signature) [
        | inl i ↦ rw (ours, i) refl
        | inr i ↦ let v = signed i in rw (ours, i, v) refl
      ]

  trusted_accepted :
      (env : LoaderEnv) (bytes : List ℕ) (e : Entitlement)
      → IsTrusted s c l e
      → decode env bytes ≡ some e
      → parse_and_verify s c l env bytes ≡ ok e
  unfolding parse_and_verify check_entitlement
  trusted_accepted env bytes e h d =
      let v = h.0 in rw (d, v, parse_and_verify, check_entitlement) (admit_trusted e h)

  cached_after_save :
      (env : LoaderEnv) (files : Files) (e : Entitlement) (bytes : List ℕ)
      → str_eq l.cache_path "" ≡ false
      → lookup (cache_file env) files ≡ some bytes
      → env.read_fails (cache_file env) ≡ false
      → parse_and_verify s c l env bytes ≡ ok e
      → is_expired_at e env.now ≡ false
      → cached s c l env files ≡ some e
  unfolding cached load_from_cache load_from_file
  cached_after_save env files e bytes p f r parsed fresh = rw (p, r, f, parsed, fresh) refl

  load_from_cached :
      (env : LoaderEnv) (files : Files) (e : Entitlement)
      → (not l.allow_insecure_signature && str_eq (s.trim_space l.public_key) "") ≡ false
      → str_eq l.local_path "" ≡ true
      → cached s c l env files ≡ some e
      → load s c l env files ≡ (ok (some e), files)
  unfolding load
  load_from_cached env files e k p h = rw (k, p, h) refl

  load_from_remote :
      (env : LoaderEnv) (files : Files) (e : Entitlement)
      → (not l.allow_insecure_signature && str_eq (s.trim_space l.public_key) "") ≡ false
      → str_eq l.local_path "" ≡ true
      → cached s c l env files ≡ none
      → (str_eq l.server_url "" || str_eq l.agent_token "") ≡ false
      → load_from_server s c l env ≡ ok e
      → load s c l env files ≡ (ok (some e), save_to_cache s c l env files e)
  unfolding load load_remote
  load_from_remote env files e k p h u r = rw (k, p, h, u, r) refl

  -- An entitlement that one run downloads and saves is the one a later run loads, whatever the
  -- server then answers, if the saved bytes decode to it, the file can be read and it has not
  -- expired. The loader has a public key or needs none, no local path, a cache and a server.
  pub load-load :
      (env later : LoaderEnv) (files : Files) (e : Entitlement) (bytes : List ℕ)
      → (not l.allow_insecure_signature && str_eq (s.trim_space l.public_key) "") ≡ false
      → l.local_path ≡ ""
      → l.cache_path ≢ ""
      → l.server_url ≢ ""
      → l.agent_token ≢ ""
      → cached s c l env files ≡ none
      → load_from_server s c l env ≡ ok e
      → CanSave env e bytes
      → cache_file later ≡ cache_file env
      → later.read_fails (cache_file later) ≡ false
      → decode later bytes ≡ some e
      → is_expired_at e later.now ≡ false
      → (load s c l later (load s c l env files).1).0 ≡ ok (some e)
  load-load env later files e bytes k p cache url token miss served saved same readable decoded
        fresh =
      let named : str_eq l.cache_path "" ≡ false = ground (arith, cache, eq_iff l.cache_path "") in
      let server : (str_eq l.server_url "" || str_eq l.agent_token "") ≡ false =
        ground (arith, url, token, eq_iff l.server_url "", eq_iff l.agent_token "") in
      let unset : str_eq l.local_path "" ≡ true = ground (arith, p, eq_iff l.local_path "") in
      let trusted : IsTrusted s c l e =
        subst (TrustedResult s c l) served (load_from_server-TrustedResult s c l env) in
      let first : (load s c l env files).1 ≡ insert (cache_file env) bytes files =
        ap (λ r. r.1) (load_from_remote env files e k unset miss server served)
        ∙ save_to_cache-written env files e bytes named saved in
      let found : lookup (cache_file later) (load s c l env files).1 ≡ some bytes =
        rw (same, first) (found_written (cache_file env) bytes files) in
      let hit =
        cached_after_save later (load s c l env files).1 e bytes named found readable
          (trusted_accepted later bytes e trusted decoded) fresh in
      ap (λ r. r.0) (load_from_cached later (load s c l env files).1 e k unset hit)
