-- ===== src/Config/Laws.antt =====
-- The configurations that Validate accepts (pkg/config/config.go).
use basecheck_agent.Prelude.{
  ◌≡◌, ◌↔◌, ◌⊎◌, refl, Bool, true, false, not, Option, none, some, List, [], ◌∷◌, map, All, inl,
  inr, arith, ℕ, if◌then◌else◌,
}
use basecheck_agent.Text.{Text, text, is_empty, equal_fold, trim_space}
use basecheck_agent.Config.Named.{Fault}
use basecheck_agent.Config.Named.Laws.{IsDistinct}
use basecheck_agent.Config.Database.{DatabaseConfig, DatabaseFault, is_blank, validate_databases}
use basecheck_agent.Config.Database.Laws.{IsUsable, validate_databases_iff}
use basecheck_agent.Config.Validation.{
  ActiveValidationIdentity, ActiveValidationTarget, TargetFault, validate_identities,
  validate_targets,
}
use basecheck_agent.Config.Validation.Laws.{
  IsReachable, validate_identities_iff, validate_targets_iff,
}
use basecheck_agent.Config.Siem.{SiemFault, Url, validate_siem}
use basecheck_agent.Config.Check.{
  Config, ConfigFault, no_databases, database_fault, identity_fault, target_fault, siem_fault,
  is_siem_only, validate_presence, validate_output, validate,
}

-- Databases, identities and targets with names of their own, of which each is usable; and SIEM
-- settings that are in order, where the output is for the SIEM alone.
abbrev pub IsAccepted : (Text → Option Url) → Config → Type 0
IsAccepted parse_url c =
    ((¬ (c.databases ≡ [])) ⊎ (equal_fold (trim_space c.control_sets.source) (text "http") ≡ true))
    × (All (λ (db : DatabaseConfig). (is_empty db.name ≡ false) × IsUsable db) c.databases
        × (IsDistinct (map (λ (db : DatabaseConfig). db.name) c.databases)
            × (All (λ (i : ActiveValidationIdentity). is_blank i.name ≡ false)
                  c.active_validation.identities
                × (IsDistinct (
                      map (λ (i : ActiveValidationIdentity). i.name) c.active_validation.identities)
                    × (All
                          (λ (t : ActiveValidationTarget).
                            (is_blank t.name ≡ false) × IsReachable c.security.allow_http t)
                          c.active_validation.targets
                        × (IsDistinct (
                              map (λ (t : ActiveValidationTarget). t.name)
                                c.active_validation.targets)
                            × (is_siem_only c ≡ true
                                → validate_siem parse_url c.security.allow_http c.output.siem
                                  ≡ none)))))))

presence_iff :
    (dbs : List DatabaseConfig) (backend : Bool)
    → ((elim dbs [ [] ↦ if not backend then some no_databases else none | db ∷ rest ↦ none ])
        ≡ none)
      ↔ ((¬ (dbs ≡ [])) ⊎ (backend ≡ true))
presence_iff [] true = (λ h. inr refl, λ h. refl)
presence_iff [] false =
    (λ h. absurd (cc), λ h. elim h [ inl n ↦ absurd (n refl) | inr e ↦ absurd (cc) ])
presence_iff (db ∷ dbs) backend = (λ h. inl (λ e. absurd (cc)), λ h. refl)

output_iff :
    (only : Bool) (fault : Option SiemFault)
    → ((if only then elim fault [ none ↦ none | some f ↦ some (siem_fault f) ] else none) ≡ none)
      ↔ (only ≡ true → fault ≡ none)
output_iff true none = (λ h e. refl, λ h. refl)
output_iff true (some f) = (λ h. absurd (cc), λ h. absurd (let e = h refl in cc))
output_iff false fault = (λ h e. absurd (cc), λ h. refl)

-- The checks of the parts, in a row.
parts_iff :
    (p : Option ConfigFault) (d : Option (ℕ × Fault DatabaseFault))
    (i t : Option (ℕ × Fault TargetFault)) (o : Option ConfigFault)
    → ((elim p [
      | some fault ↦ some fault
      | none ↦ elim d [
        | some fault ↦ some (database_fault fault)
        | none ↦ elim i [
          | some fault ↦ some (identity_fault fault)
          | none ↦ elim t [ some fault ↦ some (target_fault fault) | none ↦ o ]
        ]
      ]
    ])
        ≡ none)
      ↔ ((p ≡ none) × ((d ≡ none) × ((i ≡ none) × ((t ≡ none) × (o ≡ none)))))
parts_iff p d i t o = ground arith

-- `Validate` accepts a configuration exactly if it has a database, or its control sets come from the
-- backend; its databases have names that differ, known types, and either a file or a login on a port
-- of TCP, with a database where the type needs one, as another than SYS and not as SYSDBA, and with
-- log sources of different names; the identities and targets of active validation have names that
-- differ, and each target paths below the root and HTTPS unless HTTP is allowed; and, where the SIEM
-- is the only output, its settings are in order.
pub validate_iff :
    (parse_url : Text → Option Url) (c : Config)
    → (validate parse_url c ≡ none) ↔ IsAccepted parse_url c
unfolding validate validate_presence validate_output
validate_iff parse_url c =
    let source = equal_fold (trim_space c.control_sets.source) (text "http") in
    let siem = validate_siem parse_url c.security.allow_http c.output.siem in
    let (split, join) =
      parts_iff (validate_presence c) (validate_databases c.databases)
        (validate_identities c.active_validation.identities)
        (validate_targets c.security.allow_http c.active_validation.targets)
        (validate_output parse_url c) in
    let (presence, presence_back) = presence_iff c.databases source in
    let (databases, databases_back) = validate_databases_iff c.databases in
    let (identities, identities_back) = validate_identities_iff c.active_validation.identities in
    let (targets, targets_back) =
      validate_targets_iff c.security.allow_http c.active_validation.targets in
    let (output, output_back) = output_iff (is_siem_only c) siem in
    (
      λ h.
          let (p, (d, (i, (t, o)))) = split h in
          let (dbs, db_names) = databases d in
          let (ids, id_names) = identities i in
          let (ts, t_names) = targets t in
          (presence p, (dbs, (db_names, (ids, (id_names, (ts, (t_names, output o))))))),
      λ (p, (dbs, (db_names, (ids, (id_names, (ts, (t_names, o))))))). join (
        presence_back p,
        (
          databases_back (dbs, db_names),
          (identities_back (ids, id_names), (targets_back (ts, t_names), output_back o)),
        ),
      ),
    )
