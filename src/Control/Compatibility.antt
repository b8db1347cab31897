-- ===== src/Control/Compatibility.antt =====
-- Whether a control set may run on this agent and database (pkg/controlset/compatibility.go).
pub mod Order
pub mod Laws
use basecheck_agent.Prelude.{
  ℕ, zero, suc, ◌+◌, Bool, true, false, not, ◌&&◌, ◌||◌, ℤ, pos, negsuc, Option, none, some, List,
  [], ◌∷◌, length, get_elem?, any, ltb, ◌==◌, if◌then◌else◌,
}
use basecheck_agent.Text.{Text, text, is_empty, lower, contains, split, trim_space}
use basecheck_agent.Text.Numbers.{atoi}

-- The fields of a control set that are checked.
pub record Requirements : Type 0 where
  pub agent_min_version : Text
  pub agent_max_version : Text
  pub database_versions : List Text

-- The errors without their texts.
pub data Incompatibility : Type 0 where
  agent_too_old : Incompatibility
  agent_too_new : Incompatibility
  database_unsupported : Incompatibility

-- The results -1, 0 and 1.
pub data Comparison : Type 0 where
  less : Comparison
  same : Comparison
  greater : Comparison

unfoldable pub version_segment : List Text → ℕ → ℤ
version_segment parts i = elim (get_elem? parts i) [
  | none ↦ pos 0
  | some part ↦ elim (atoi (trim_space part)) [ none ↦ pos 0 | some n ↦ n ]
]

abbrev pub int_eq : ℤ → ℤ → Bool
int_eq (pos a) (pos b) = a == b
int_eq (pos a) (negsuc b) = false
int_eq (negsuc a) (pos b) = false
int_eq (negsuc a) (negsuc b) = a == b

abbrev pub int_ltb : ℤ → ℤ → Bool
int_ltb (pos a) (pos b) = ltb a b
int_ltb (pos a) (negsuc b) = false
int_ltb (negsuc a) (pos b) = true
int_ltb (negsuc a) (negsuc b) = ltb b a

-- The loop over the segments from one on.
unfoldable pub compare_from : ℕ → ℕ → List Text → List Text → Comparison
compare_from zero i a b = same
compare_from (suc rounds) i a b =
    let rest = compare_from rounds (suc i) a b in
    let x = version_segment a i in
    let y = version_segment b i in
    if not (int_eq x y) then if int_ltb x y then less else greater else rest

abbrev pub version_parts : Text → List Text
version_parts version = split (trim_space version) (text ".")

abbrev pub longer : List Text → List Text → ℕ
longer a b = if ltb (length a) (length b) then length b else length a

unfoldable pub compare_versions : Text → Text → Comparison
compare_versions a b =
    let x = version_parts a in let y = version_parts b in compare_from (longer x y) 0 x y

-- Whether a declared version is a part of the one that the database reports.
abbrev pub declares : Text → Text → Bool
declares database declared =
    let trimmed = trim_space declared in
    not (is_empty trimmed) && contains (lower database) (lower trimmed)

abbrev pub is_less : Comparison → Bool
is_less comparison = elim comparison [ less ↦ true | _ ↦ false ]

abbrev pub is_greater : Comparison → Bool
is_greater comparison = elim comparison [ greater ↦ true | _ ↦ false ]

abbrev pub has_none : List Text → Bool
has_none list = elim list [ [] ↦ true | x ∷ xs ↦ false ]

unfoldable pub check_compatibility : Requirements → Text → Text → Option Incompatibility
check_compatibility r agent database =
    let lowest = trim_space r.agent_min_version in
    let highest = trim_space r.agent_max_version in
    let versions = r.database_versions in
    if not (is_empty lowest) && is_less (compare_versions agent lowest)
    then some agent_too_old
    else if not (is_empty highest) && is_greater (compare_versions agent highest)
    then some agent_too_new
    else if not (has_none versions)
        && (not (is_empty (trim_space database)) && not (any (declares database) versions))
    then some database_unsupported
    else none
