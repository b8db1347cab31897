-- ===== src/Siem/Examples/Events.antt =====
-- Examples for validation and fingerprints.
use mathlib.Core.Path.{ap₂}
use text.Mathlib.TextEquality.{Char-path}
use basecheck_agent.Prelude.{ℕ, String, ◌≡◌, refl, true, List, length, if◌then◌else◌, ◌==◌}
use basecheck_agent.Siem.Event.Validation.{is_valid, validate}
use basecheck_agent.Siem.Event.Fingerprint.{Finding}
use basecheck_agent.Siem.Samples.{first_event, codes}

sample_valid : is_valid (λ s. s) first_event ≡ true
unfolding validate
sample_valid = refl

codes_injective : (s t : String) → codes s ≡ codes t → s ≡ t
codes_injective String.[] String.[] e = refl
codes_injective String.[] (String.◌∷◌ d t) e = cc
codes_injective (String.◌∷◌ c s) String.[] e = cc
codes_injective (String.◌∷◌ c s) (String.◌∷◌ d t) e =
    let head = Char-path c d (cc) in let rest = codes_injective s t (cc) in ap₂ String.◌∷◌ head rest

abbrev finding : String → Finding
finding title = record {
  control = "c";
  system = "s";
  schema = "";
  object = "o";
  attribute = "";
  role = "";
  user = "u";
  title = title;
}

-- A toy digest that keeps the two sample findings apart.
abbrev digest : List ℕ → String
digest bytes = if length bytes == 10 then "x" else "y"
