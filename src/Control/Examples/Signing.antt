-- ===== src/Control/Examples/Signing.antt =====
-- Tests of the signed form of a control set, and the theorems about it applied to concrete sets.
use basecheck_agent.Prelude.{
  ℕ, ◌+◌, ◌-◌, ◌≡◌, refl, true, false, none, some, List, [], ◌∷◌, map, arith, Bool, ap, sym, ◌∙◌,
}
use mathlib.Core.List.{Permᴰ}
use mathlib.Core.List.Permᴰ
use basecheck_agent.Text.{
  Text, text, text_eq, text_ltb, trim_left, trim_right, trim_space, is_space, is_empty,
}
use basecheck_agent.Text.Laws.{text_eq_iff}
use basecheck_agent.Text.Order.{keys_ltb, insert_by, sort_by}
use basecheck_agent.Control.Canonical.{
  ControlProcedure, Evidence, Control, ControlSet, canonical_control_set, canonical_control,
}
use basecheck_agent.Control.Canonical.Laws.{
  IsReordered, IsSameControl, canonical_control_set-reordered,
}
use basecheck_agent.Control.Canonical.Coverage.{
  test_of, query_of, RunsIn, CapturesIn, canonical_control_set-RunsIn,
}
use basecheck_agent.Control.Canonical.Verify.{
  Crypto, create_canonical_payload, verify_control_set_signature, sign_canonical_payload,
  encode_public_key_pkix,
}
use basecheck_agent.Control.Canonical.Verify.Laws.{
  with_signature, IsSigner, verify_control_set_signature-reordered,
  verify_control_set_signature-sign,
}

abbrev first_test : ControlProcedure
first_test = record {
  procedure_id = text "p1";
  system_type = text "postgres";
  system_applicability = [];
  execution_mode = [];
  tests = text "select 1 ";
  criteria = [];
}

abbrev second_test : ControlProcedure
second_test = record first_test { procedure_id = text "p2"; tests = text "select 2" }

abbrev logins : Evidence
logins = record {
  type = text "log";
  description = [];
  sql = text "select 3";
  source_mode = [];
  source_path = text "a";
}

abbrev first : Control
first = record {
  control_id = text "1";
  control_code = text "C1";
  category = [];
  title = text "T";
  description = [];
  procedures = first_test ∷ second_test ∷ [];
  remediation = record { summary = []; steps = []; remediation_sql = [] };
  evidence_capture = logins ∷ [];
}

abbrev first_turned : Control
first_turned = record first { procedures = second_test ∷ first_test ∷ [] }

abbrev second : Control
second = record first { control_code = text "B1"; procedures = []; evidence_capture = [] }

abbrev set : ControlSet
set = record {
  metadata = record {
    control_set_id = text "s";
    control_set_version = text "1";
    database_type = text "postgres";
    control_set_type = [];
    database_versions = text "15" ∷ text "14" ∷ [];
    tier = text "free";
    signature = record { algorithm = []; public_key_id = []; signature_b64 = text "qq" };
  };
  compatibility = record {
    agent_min_version = [];
    agent_max_version = [];
    requires_privileges = [];
  };
  controls = first ∷ second ∷ [];
}

abbrev turned : ControlSet
turned = record set {
  metadata = record set.metadata { database_versions = text "14" ∷ text "15" ∷ [] };
  controls = second ∷ first_turned ∷ [];
}

-- The controls under their codes, and the trimmed tests under the IDs of their procedures.
sorted_test :
    map
      (λ (c : Control). c.control_code)
      (sort_by (λ (c : Control). c.control_code ∷ []) set.controls)
    ≡ text "B1" ∷ text "C1" ∷ []
unfolding sort_by insert_by keys_ltb text_ltb text_eq
sorted_test = refl

-- The ID of a control with a code is not signed.
unsigned_test : canonical_control (record first { control_id = text "2" }) ≡ canonical_control first
unfolding canonical_control trim_left trim_right
unsigned_test = refl

head_differs : (c d : Text) (s t : List Text) → text_eq c d ≡ false → ¬ (c ∷ s ≡ d ∷ t)
head_differs c d s t h e = let same : c ≡ d = cc in let y = (text_eq_iff c d).1 same in absurd (cc)

same_second : IsSameControl second second
same_second = record {
  rest = refl;
  procedures = Permᴰ.nil;
  evidence = Permᴰ.nil;
  procedure_keys = tt;
  evidence_keys = tt;
}

same_first : IsSameControl first first_turned
unfolding trim_left trim_right text_eq
same_first = record {
  rest = refl;
  procedures = Permᴰ.swap refl refl;
  evidence = Permᴰ.refl (logins ∷ []);
  procedure_keys =
      ((λ e. absurd (head_differs (text "p1") (text "p2") [] [] refl e), tt), (tt, tt));
  evidence_keys = (tt, tt);
}

set-IsReordered : IsReordered set turned
unfolding trim_left trim_right text_eq
set-IsReordered = record {
  metadata = refl;
  versions = Permᴰ.swap refl refl;
  compatibility = refl;
  privileges = Permᴰ.nil;
  between = second ∷ first ∷ [];
  moved = Permᴰ.swap refl refl;
  same = (same_second, (same_first, tt));
  keys = (
    (λ e. absurd (head_differs (text "C1") (text "B1") (text "1" ∷ []) (text "1" ∷ []) refl e), tt),
    (tt, tt),
  );
}

abbrev shift : ℕ → ℕ
shift c = c + 65

abbrev unshift : ℕ → ℕ
unshift c = c - 65

-- A cipher for the tests: the signature of a hash is the hash, and Base64 adds 65 to each byte.
abbrev crypto : Crypto Bool Bool
crypto = record {
  encode = λ k. some k.control_set_id;
  decode_base64 = λ s. some (map unshift s);
  encode_base64 = map shift;
  parse_public_key = λ s. some true;
  marshal_public_key = λ k. elim k [ true ↦ some (text "k") | false ↦ none ];
  sha256 = λ s. s;
  verifies = λ k hash signature. text_eq hash signature;
  sign = λ k hash. some hash;
}

verify_control_set_signature-reordered_example :
    (create_canonical_payload crypto set ≡ create_canonical_payload crypto turned)
    × (verify_control_set_signature crypto (text "k") set
        ≡ verify_control_set_signature crypto (text "k") turned)
verify_control_set_signature-reordered_example =
    verify_control_set_signature-reordered crypto (text "k") set turned set-IsReordered

unshift-shift : (s : Text) → map unshift (map shift s) ≡ s
unshift-shift [] = refl
unshift-shift (c ∷ s) = ground (arith, unshift-shift s)

shifted_right : (s : Text) → trim_right is_space (map shift s) ≡ map shift s
unfolding trim_right
shifted_right [] = refl
shifted_right (c ∷ s) = ground (arith, shifted_right s)

shifted : (s : Text) → trim_space (map shift s) ≡ map shift s
unfolding trim_left
shifted [] = shifted_right []
shifted (c ∷ s) =
    let e : trim_left is_space (map shift (c ∷ s)) ≡ map shift (c ∷ s) = ground arith in
    ap (trim_right is_space) e ∙ shifted_right (c ∷ s)

marshaled :
    (key : Bool) (der : Text)
    → crypto.marshal_public_key key ≡ some der
    → (true ≡ key) × (is_empty (map shift der) ≡ false)
marshaled true der e =
    (refl, let f : text "k" ≡ der = cc in ap (λ d. is_empty (map shift d)) (sym f))
marshaled false der e = absurd (cc)

signer : IsSigner crypto (λ k. true)
signer = record {
  decode_encode = λ bytes. ap some (unshift-shift bytes);
  unspaced = shifted;
  parse_marshal = λ key der e. let (k, filled) = marshaled key der e in (ap some k, filled);
  verifies_signed = λ key hash signature e. (text_eq_iff hash signature).1 (cc);
}

-- The ID of the set, the payload of the cipher, signed and in Base64.
set_payload : create_canonical_payload crypto set ≡ some (text "s")
unfolding create_canonical_payload canonical_control_set trim_left trim_right
set_payload = refl

set_signature : sign_canonical_payload crypto (text "s") true ≡ some (180 ∷ [])
unfolding sign_canonical_payload
set_signature = refl

set_key : encode_public_key_pkix crypto true ≡ some (172 ∷ [])
unfolding encode_public_key_pkix
set_key = refl

verify_control_set_signature-sign_example :
    verify_control_set_signature crypto (172 ∷ []) (with_signature set (180 ∷ [])) ≡ none
verify_control_set_signature-sign_example =
    verify_control_set_signature-sign crypto (λ k. true) true set (text "s") (180 ∷ []) (172 ∷ [])
      signer set_payload set_signature set_key

same_form : canonical_control_set set ≡ canonical_control_set turned
same_form = canonical_control_set-reordered set turned set-IsReordered

canonical_control_set-RunsIn_example :
    (RunsIn (test_of first_test) set → RunsIn (test_of first_test) turned)
    × (CapturesIn (query_of logins) set → CapturesIn (query_of logins) turned)
canonical_control_set-RunsIn_example =
    canonical_control_set-RunsIn set turned (test_of first_test) (query_of logins) same_form
