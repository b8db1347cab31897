-- ===== src/Entitlement/Loader.antt =====
-- The sources of an entitlement (pkg/entitlement/loader.go): a local file, the cache, the server.
-- `Files` is the file system, from paths to contents. The file system's errors, the decoders and
-- the server answer through a `LoaderEnv`.
pub mod Cache
pub mod Laws
use Prim.Native.String
use basecheck_agent.Prelude.{
  ℕ, String, Bool, true, false, not, ◌&&◌, ◌||◌, Option, none, some, List, Result, ok, err,
  if◌then◌else◌, str_eq, ◌==◌,
}
use basecheck_agent.Prelude.Dict.{Dict, lookup, insert}
use basecheck_agent.Entitlement.{
  Strings, Entitlement, EntitlementError, Time, agent_mismatch, not_found, load_failed,
  parse_failed, insecure_http, signature_required, local_path_not_found, is_expired_at, validate,
  is_bound_to_agent,
}
use basecheck_agent.Entitlement.Verify.{Crypto, verify}

pub record LoaderConfig : Type 0 where
  pub local_path : String
  pub cache_path : String
  pub server_url : String
  pub agent_token : String
  pub agent_id : String
  pub public_key : String
  pub allow_insecure_transport : Bool
  pub allow_insecure_signature : Bool

abbrev pub Files : Type 0
Files = Dict (List ℕ)

-- What the HTTP client gave: an error, a response whose body cannot be read, or one with its body.
pub data Response : Type 0 where
  failed : Response
  unreadable : ℕ → Response
  response : ℕ → List ℕ → Response

pub record LoaderEnv : Type 0 where
  pub now : Time
  -- an error of reading a file, other than that it does not exist
  pub read_fails : String → Bool
  -- `filepath.Join`
  pub join : String → String → String
  -- `json.Unmarshal` into the zero entitlement: what it has filled in, and whether there was no error
  pub json : List ℕ → Entitlement × Bool
  -- `yaml.Unmarshal` on top of that
  pub yaml : List ℕ → Entitlement → Option Entitlement
  pub marshal : Entitlement → Option (List ℕ)
  pub mkdir_fails : Bool
  -- a failed write, with what the file holds after it if it was touched
  pub write_failure : Option (Option (List ℕ))
  pub request_fails : Bool
  -- the answer to a GET of a URL
  pub respond : String → Response

-- `security.ValidateHTTPS`, true for an error.
unfoldable pub refuses_http : Strings → String → Bool → Bool
refuses_http s url allow_http = not allow_http && s.has_prefix (s.trim_space url) "http://"

-- JSON first, then YAML.
unfoldable pub decode : LoaderEnv → List ℕ → Option Entitlement
decode env bytes = let (e, valid) = env.json bytes in if valid then some e else env.yaml bytes e

-- A file that was asked for and is not there is an error of the configuration.
abbrev pub local_error : EntitlementError → EntitlementError
local_error x = elim x [ not_found ↦ local_path_not_found | y ↦ y ]

module _ {Key RsaKey : Type 0} (s : Strings) (c : Crypto Key RsaKey) (l : LoaderConfig) where
  -- The binding and the signature of a decoded entitlement whose fields are valid. With signatures
  -- off, a bad one is only a warning.
  unfoldable pub admit : Entitlement → Result EntitlementError Entitlement
  admit e =
      if not (str_eq l.agent_id "") && not (is_bound_to_agent s e l.agent_id)
      then err agent_mismatch
      else if l.allow_insecure_signature
      then ok e
      else elim (verify s c l.public_key e) [ some x ↦ err x | none ↦ ok e ]

  unfoldable pub check_entitlement : Entitlement → Result EntitlementError Entitlement
  check_entitlement e = elim (validate s e) [ some x ↦ err x | none ↦ admit e ]

  unfoldable pub parse_and_verify : LoaderEnv → List ℕ → Result EntitlementError Entitlement
  parse_and_verify env bytes = elim (decode env bytes) [
    | none ↦ err parse_failed
    | some e ↦ check_entitlement e
  ]

  unfoldable pub load_from_file : LoaderEnv → Files → String → Result EntitlementError Entitlement
  load_from_file env files path =
      if env.read_fails path then err load_failed else elim (lookup path files) [
        | none ↦ err not_found
        | some bytes ↦ parse_and_verify env bytes
      ]

  unfoldable pub load_from_cache : LoaderEnv → Files → Result EntitlementError Entitlement
  load_from_cache env files =
      if str_eq l.cache_path ""
      then err not_found
      else load_from_file env files (env.join l.cache_path "entitlement.yaml")

  unfoldable pub read_response : LoaderEnv → Response → Result EntitlementError Entitlement
  read_response env failed = err load_failed
  read_response env (unreadable code) = if code == 404 then err not_found else err load_failed
  read_response env (response code body) =
      if code == 404
      then err not_found
      else if code == 200
      then parse_and_verify env body
      else err load_failed

  unfoldable pub load_from_server : LoaderEnv → Result EntitlementError Entitlement
  load_from_server env =
      if str_eq l.server_url ""
      then err load_failed
      else if str_eq l.agent_token ""
      then err load_failed
      else if refuses_http s l.server_url l.allow_insecure_transport
      then err insecure_http
      else if env.request_fails
      then err load_failed
      else read_response env
          (env.respond (String.◌++◌ (s.trim_suffix l.server_url "/") "/api/agent/entitlement"))

  -- The files afterwards; an error of the cache is only a warning.
  unfoldable pub save_to_cache : LoaderEnv → Files → Entitlement → Files
  save_to_cache env files e =
      if str_eq l.cache_path "" || env.mkdir_fails
      then files
      else let path = env.join l.cache_path "entitlement.yaml" in
        elim (env.marshal e) [
          | none ↦ files
          | some bytes ↦ elim env.write_failure [
            | none ↦ insert path bytes files
            | some o ↦ elim o [ none ↦ files | some left ↦ insert path left files ]
          ]
        ]

  -- The cached entitlement, unless it has expired.
  unfoldable pub cached : LoaderEnv → Files → Option Entitlement
  cached env files = if str_eq l.cache_path "" then none else elim (load_from_cache env files) [
    | err _ ↦ none
    | ok e ↦ if is_expired_at e env.now then none else some e
  ]

  -- What `Load` returns, and the files afterwards; `ok none` is the free mode.
  abbrev pub Loaded : Type 0
  Loaded = Result EntitlementError (Option Entitlement) × Files

  unfoldable pub load_local : LoaderEnv → Files → Result EntitlementError (Option Entitlement)
  load_local env files = elim (load_from_file env files l.local_path) [
    | ok e ↦ ok (some e)
    | err x ↦ err (local_error x)
  ]

  unfoldable pub load_remote : LoaderEnv → Files → Loaded
  load_remote env files =
      if str_eq l.server_url "" || str_eq l.agent_token ""
      then (ok none, files)
      else elim (load_from_server env) [
        | ok e ↦ (ok (some e), save_to_cache env files e)
        | err _ ↦ (ok none, files)
      ]

  unfoldable pub load : LoaderEnv → Files → Loaded
  load env files =
      if not l.allow_insecure_signature && str_eq (s.trim_space l.public_key) ""
      then (err signature_required, files)
      else if not (str_eq l.local_path "")
      then (load_local env files, files)
      else elim (cached env files) [ some e ↦ (ok (some e), files) | none ↦ load_remote env files ]
