-- ===== src/Control/Fetch.antt =====
-- Where a control set comes from (pkg/controlset/fetcher.go): local files, or the backend with the
-- cache behind it. A set is a parameter with the functions that are used of it; the files, the
-- request and the verification of signatures are inputs, and the payload always marshals.
pub mod Laws
use basecheck_agent.Prelude.{
  ℕ, ◌-◌, Bool, not, ◌&&◌, String, str_eq, Option, none, some, length, ltb, if◌then◌else◌,
}
use basecheck_agent.Text.{Text, text, text_eq, is_empty, drop, take}
use basecheck_agent.Entitlement.{Strings, Entitlement, Time}
use basecheck_agent.Entitlement.Pack.{Metadata, check_pack_entitlement}

-- What is used of a control set `A`: its signature, whether a signature verifies for it, the
-- metadata, and the evidence queries that are added for a type of system.
pub record Sets (A : Type 0) : Type 0 where
  pub signature_b64 : A → Text
  pub verifies : A → Text → Bool
  pub metadata : A → Metadata
  pub enrich : A → Text → A

pub record Fetcher : Type 0 where
  pub source : String
  pub require_signatures : Bool
  pub entitlement : Option Entitlement

-- The backend's answer: it cannot be used securely, cannot be reached or answers with another
-- status than 200, cannot be read, or is a set with its signature.
pub data Answer (A : Type 0) : Type 0 where
  insecure : Answer A
  unavailable : Answer A
  unreadable : Answer A
  received : A → Option Text → Answer A

-- The set that a local file holds, that of the cache, each if it loads and is valid, and the answer.
pub record Origins (A : Type 0) : Type 0 where
  pub local : Option A
  pub cache : Option A
  pub answer : Answer A

-- `len(s) > len(suffix) && s[len(s)-len(suffix):] == suffix`
abbrev pub ends_longer : Text → Text → Bool
ends_longer s suffix =
    ltb (length suffix) (length s) && text_eq (drop (length s - length suffix) s) suffix

abbrev pub without_suffix : Text → Text → Text
without_suffix s suffix = take (length s - length suffix) s

unfoldable pub system_type_of : Text → Text
system_type_of db_type =
    if ends_longer db_type (text "-discovery")
    then without_suffix db_type (text "-discovery")
    else if ends_longer db_type (text "-policy")
    then without_suffix db_type (text "-policy")
    else if ends_longer db_type (text "-licensing")
    then without_suffix db_type (text "-licensing")
    else db_type

module _ {A : Type 0} (sets : Sets A) (fetcher : Fetcher) where
  -- The signature check of a set that was loaded from a file.
  unfoldable pub admit_loaded : A → Option A
  admit_loaded set =
      if not (is_empty (sets.signature_b64 set))
      then if not (sets.verifies set (sets.signature_b64 set)) && fetcher.require_signatures
        then none
        else some set
      else if fetcher.require_signatures
      then none
      else some set

  -- `fetchFromLocal`, and `loadFromCacheIgnoreExpiry`, for the set of their file.
  unfoldable pub load_signed : Option A → Option A
  load_signed none = none
  load_signed (some set) = admit_loaded set

  unfoldable pub admit_received : A → Option Text → Option A
  admit_received set none = if fetcher.require_signatures then none else some set
  admit_received set (some signature) =
      if not (sets.verifies set signature) && fetcher.require_signatures then none else some set

  -- The set that is saved to the cache is the one that is returned for a reply.
  unfoldable pub fetch_from_http : Answer A → Option A → Option A
  fetch_from_http insecure cache = none
  fetch_from_http unavailable cache = load_signed cache
  fetch_from_http unreadable cache = none
  fetch_from_http (received set signature) cache = admit_received set signature

  unfoldable pub fetch_from_source : Origins A → Option A
  fetch_from_source origins =
      if str_eq fetcher.source "local"
      then load_signed origins.local
      else if str_eq fetcher.source "http"
      then fetch_from_http origins.answer origins.cache
      else none

  unfoldable pub fetch_control_set : Strings → Time → Origins A → Text → Option A
  fetch_control_set strings now origins db_type = elim (fetch_from_source origins) [
    | none ↦ none
    | some set ↦ elim (check_pack_entitlement strings now fetcher.entitlement (sets.metadata set)) [
      | some e ↦ none
      | none ↦ some (sets.enrich set (system_type_of db_type))
    ]
  ]
