-- ===== src/Siem/Event/Identity.antt =====
-- `ComputeFingerprint` and `SetFingerprint` of pkg/siem/event.go. Parameters from Go's libraries:
-- `digest` is SHA-256 in hexadecimal, cut to 32 digits; `normalize` is `strings.ToLower` of
-- `strings.TrimSpace`; `bytes` is the conversion of a string to its bytes. What is written to the
-- hash is one list of bytes, in which a zero byte stands between two fields.
use Prim.Native.String
use basecheck_agent.Prelude.{
  ℕ, String, Bool, not, ◌||◌, none, some, List, [], ◌∷◌, ◌++◌, map, if◌then◌else◌, str_eq,
}
use basecheck_agent.Siem.Event.{Event}

-- Fields with a zero byte between two of them.
abbrev pub zero_separated : List (List ℕ) → List ℕ
zero_separated [] = []
zero_separated (x ∷ []) = x
zero_separated (x ∷ (y ∷ r)) = x ++ 0 ∷ zero_separated (y ∷ r)

module _ (normalize : String → String) where
  abbrev pub has_structured_evidence : String → String → String → String → String → Bool
  has_structured_evidence schema object attribute role user =
      not (str_eq (normalize schema) "")
      || (not (str_eq (normalize object) "")
          || (not (str_eq (normalize attribute) "")
              || (not (str_eq (normalize role) "") || not (str_eq (normalize user) ""))))

  -- The fields that are hashed, in order; the title only where nothing else identifies the issue.
  unfoldable pub identity :
      String → String → String → String → String → String → String → String → List String
  identity control system schema object attribute role user title =
      normalize control
      ∷ normalize system
      ∷ normalize schema
      ∷ normalize object
      ∷ normalize attribute
      ∷ normalize role
      ∷ normalize user
      ∷ (if has_structured_evidence schema object attribute role user
          then []
          else normalize title ∷ [])

  module _ (bytes : String → List ℕ) (digest : List ℕ → String) where
    unfoldable pub compute_fingerprint :
        String → String → String → String → String → String → String → String → String
    compute_fingerprint control system schema object attribute role user title = digest (
        zero_separated
          (map bytes (identity control system schema object attribute role user title)))

    -- Missing evidence counts as five empty fields.
    unfoldable pub event_fingerprint : Event → String
    event_fingerprint e = elim e.evidence [
      | none ↦ compute_fingerprint e.control_code e.system_id "" "" "" "" "" e.finding_title
      | some v ↦
          compute_fingerprint e.control_code e.system_id v.schema_name v.object_name
            v.attribute_name v.role_name v.user_name e.finding_title
    ]

    unfoldable pub set_fingerprint : Event → Event
    set_fingerprint e =
        let f = event_fingerprint e in
        record e { fingerprint = f; finding_id = String.◌++◌ "find-" f }
