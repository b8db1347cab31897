-- ===== src/Config/Database/Laws.antt =====
-- The databases that the configuration may name (pkg/config/config.go).
use basecheck_agent.Prelude.{
  ℕ, ℤ, pos, negsuc, ◌≤◌, ◌≡◌, ◌↔◌, ◌⊎◌, refl, Bool, Bool-cases, true, false, not, ◌&&◌, Option,
  none, some, List, map, any, All, All-map, sym, ◌∙◌, inl, inr, arith, if◌then◌else◌,
}
use basecheck_agent.Text.{Text, text, text_eq, is_empty, equal_fold, trim_space}
use basecheck_agent.Text.Laws.{text_eq_iff}
use basecheck_agent.Config.Named.{Fault}
use basecheck_agent.Config.Named.Laws.{IsDistinct, validate_list_iff}
use basecheck_agent.Config.Database.{
  LogSourceConfig, DatabaseConfig, DatabaseFault, LogSourceFault, missing_log_source_type,
  missing_log_source_path, invalid_database_type, missing_sqlite_path, missing_postgres_database,
  log_source_fault, is_blank, database_types, type_of, is_type, is_zero, is_port, is_alert_log,
  is_postgres, validate_log_source, validate_log_sources, validate_network, validate_oracle,
  validate_specific, validate_database, validate_databases,
}

-- A log source with a name, a type, and a path unless the alert log can do without.
abbrev pub IsReadable : Text → LogSourceConfig → Type 0
IsReadable type source =
    (is_blank source.name ≡ false)
    × ((is_blank source.type ≡ false)
        × ((is_blank source.path ≡ false) ⊎ (is_alert_log type source ≡ true)))

-- A port that TCP has.
abbrev pub IsPort : ℤ → Type 0
IsPort p = (n : ℕ) × (p ≡ pos n) × ((1 ≤ n) × (n ≤ 65535))

-- A place to log in to, and nobody's SYS or SYSDBA.
abbrev pub IsLogin : DatabaseConfig → Type 0
IsLogin db =
    (is_blank db.host ≡ false)
    × (IsPort db.port
        × ((is_blank db.username ≡ false)
            × ((is_type db (text "oracle") ≡ true
                  → ((is_empty db.service_name ≡ false) ⊎ (is_empty db.sid ≡ false))
                    × ((equal_fold (trim_space db.username) (text "sys") ≡ false)
                        × (db.as_sysdba ≡ false)))
                × (is_postgres db ≡ true → is_empty db.database ≡ false))))

-- A file, or a login with log sources of different names.
abbrev pub IsUsable : DatabaseConfig → Type 0
IsUsable db =
    (any (is_type db) database_types ≡ true)
    × (((is_type db (text "sqlite") ≡ true) × (is_blank db.database ≡ false))
        ⊎ ((is_type db (text "sqlite") ≡ false)
            × (IsLogin db
                × (All (IsReadable (type_of db)) db.log_sources
                    × IsDistinct (map (λ (s : LogSourceConfig). s.name) db.log_sources)))))

is_port_iff : (p : ℤ) → (is_port p ≡ true) ↔ IsPort p
is_port_iff (pos n) = (
  λ h. (n, refl, (ground (arith, h), ground (arith, h))),
  λ (m, e, (low, high)). ground (arith, e, low, high),
)
is_port_iff (negsuc n) = (λ h. absurd (ground (arith, h)), λ (m, e, _). absurd (cc))

-- A port has not the value for a missing one.
is_port-is_zero : (p : ℤ) → is_port p ≡ true → is_zero p ≡ false
is_port-is_zero (pos n) h = ground (arith, h)
is_port-is_zero (negsuc n) h = refl

-- A test in a row of tests that has to be passed.
guard_iff {ℓ} :
    {F : Type ℓ} (b : Bool) (fault : F) (rest : Option F)
    → ((if b then some fault else rest) ≡ none) ↔ ((b ≡ false) × (rest ≡ none))
guard_iff true fault rest = (λ h. absurd (ground (arith, h)), λ (e, r). absurd (cc))
guard_iff false fault rest = (λ h. (refl, h), λ (e, r). r)

or_iff : (a b : Bool) → (a && not b ≡ false) ↔ ((a ≡ false) ⊎ (b ≡ true))
or_iff a b = ground arith

validate_log_source_iff :
    (type : Text) (source : LogSourceConfig)
    → ((is_blank source.name ≡ false) × (validate_log_source type source ≡ none))
      ↔ IsReadable type source
unfolding validate_log_source
validate_log_source_iff type source =
    let (pass, back) = guard_iff (is_blank source.type) missing_log_source_type (
      if is_blank source.path && not (is_alert_log type source)
      then some missing_log_source_path
      else none) in
    let (pass_path, back_path) =
      guard_iff {F = LogSourceFault} (is_blank source.path && not (is_alert_log type source))
        missing_log_source_path none in
    let (split, join) = or_iff (is_blank source.path) (is_alert_log type source) in
    (
      λ (named, h). let (t, r) = pass h in (named, (t, split (pass_path r).0)),
      λ (named, (t, p)). (named, back (t, back_path (join p, refl))),
    )

pub All-iff {ℓ κ} :
    {A : Type ℓ} {P Q : A → Type κ} (xs : List A) → ((x : A) → P x ↔ Q x) → All P xs ↔ All Q xs
All-iff xs f = (All-map xs (λ x. (f x).0), All-map xs (λ x. (f x).1))

validate_log_sources_iff :
    (type : Text) (sources : List LogSourceConfig)
    → (validate_log_sources type sources ≡ none)
      ↔ (All (IsReadable type) sources × IsDistinct (map (λ (s : LogSourceConfig). s.name) sources))
unfolding validate_log_sources
validate_log_sources_iff type sources =
    let (sound, complete) =
      validate_list_iff (λ (s : LogSourceConfig). s.name) (λ (s : LogSourceConfig). is_blank s.name)
        (validate_log_source type) sources in
    let (each, back) = All-iff sources (validate_log_source_iff type) in
    (
      λ h. let (all, distinct) = sound h in (each all, distinct),
      λ (all, distinct). complete (back all, distinct),
    )

validate_network_iff :
    (db : DatabaseConfig)
    → (validate_network db ≡ none)
      ↔ ((is_blank db.host ≡ false) × ((is_port db.port ≡ true) × (is_blank db.username ≡ false)))
unfolding validate_network
validate_network_iff db = elim (Bool-cases (is_port db.port)) [
  | inl y ↦
      let z = is_port-is_zero db.port y in
      (λ h. ground (arith, h, y, z), λ (a, (b, c)). ground (arith, a, c, y, z))
  | inr w ↦ (λ h. absurd (ground (arith, h, w)), λ (a, (b, c)). absurd (cc))
]

validate_oracle_iff :
    (db : DatabaseConfig)
    → (validate_oracle db ≡ none) ↔ (
        ((is_empty db.service_name ≡ false) ⊎ (is_empty db.sid ≡ false))
        × ((equal_fold (trim_space db.username) (text "sys") ≡ false) × (db.as_sysdba ≡ false)))
unfolding validate_oracle
validate_oracle_iff db = ground arith

-- Two texts are not both the same text.
text_eq_exclusive : (t u v : Text) → ¬ (u ≡ v) → text_eq t u ≡ true → text_eq t v ≡ false
text_eq_exclusive t u v differ h = elim (Bool-cases (text_eq t v)) [
  | inr w ↦ w
  | inl y ↦ absurd (differ (sym ((text_eq_iff t u).0 h) ∙ (text_eq_iff t v).0 y))
]

is_postgres-is_oracle :
    (db : DatabaseConfig) → is_postgres db ≡ true → is_type db (text "oracle") ≡ false
is_postgres-is_oracle db h = elim (Bool-cases (is_type db (text "postgres"))) [
  | inl y ↦ text_eq_exclusive (type_of db) (text "postgres") (text "oracle") (λ e. absurd (cc)) y
  | inr w ↦
      text_eq_exclusive (type_of db) (text "supabase") (text "oracle") (λ e. absurd (cc))
        (ground (arith, h, w))
]

specific_iff :
    (o p e : Bool) (v : Option DatabaseFault)
    → (p ≡ true → o ≡ false)
    → ((if o then v else if p && e then some missing_postgres_database else none) ≡ none)
      ↔ ((o ≡ true → v ≡ none) × (p ≡ true → e ≡ false))
specific_iff true true e v h = absurd (let k = h refl in cc)
specific_iff true false e v h = (λ k. (λ i. k, λ i. absurd (cc)), λ (k, l). k refl)
specific_iff false true true v h = (λ k. absurd (cc), λ (k, l). absurd (let m = l refl in cc))
specific_iff false true false v h = (λ k. (λ i. absurd (cc), λ i. refl), λ k. refl)
specific_iff false false e v h = (λ k. (λ i. absurd (cc), λ i. absurd (cc)), λ k. refl)

validate_specific_iff :
    (db : DatabaseConfig)
    → (validate_specific db ≡ none) ↔ (
        (is_type db (text "oracle") ≡ true → validate_oracle db ≡ none)
        × (is_postgres db ≡ true → is_empty db.database ≡ false))
unfolding validate_specific
validate_specific_iff db =
    specific_iff (is_type db (text "oracle")) (is_postgres db) (is_empty db.database)
      (validate_oracle db) (is_postgres-is_oracle db)

-- The checks in a row of a database behind a network.
rest_iff :
    (n s : Option DatabaseFault) (l : Option (ℕ × Fault LogSourceFault))
    → ((elim n [
      | some fault ↦ some fault
      | none ↦ elim s [
        | some fault ↦ some fault
        | none ↦ elim l [ some fault ↦ some (log_source_fault fault) | none ↦ none ]
      ]
    ])
        ≡ none)
      ↔ ((n ≡ none) × ((s ≡ none) × (l ≡ none)))
rest_iff n s l = ground arith

kind_iff :
    {P : Type 0} (known file blank : Bool) (rest : Option DatabaseFault)
    → (rest ≡ none) ↔ P
    → ((if not known
          then some invalid_database_type
          else if file
          then (if blank then some missing_sqlite_path else none)
          else rest)
        ≡ none)
      ↔ ((known ≡ true) × (((file ≡ true) × (blank ≡ false)) ⊎ ((file ≡ false) × P)))
kind_iff known file blank rest (f, g) = ground (arith, f, g)

validate-IsLogin_iff :
    (db : DatabaseConfig)
    → ((validate_network db ≡ none) × (validate_specific db ≡ none)) ↔ IsLogin db
validate-IsLogin_iff db =
    let (network, network_back) = validate_network_iff db in
    let (specific, specific_back) = validate_specific_iff db in
    let (oracle, oracle_back) = validate_oracle_iff db in
    let (port, port_back) = is_port_iff db.port in
    (
      λ (n, s).
          let (host, (p, user)) = network n in
          let (o, pg) = specific s in (host, (port p, (user, (λ e. oracle (o e), pg)))),
      λ (host, (p, (user, (o, pg)))).
          (network_back (host, (port_back p, user)), specific_back (λ e. oracle_back (o e), pg)),
    )

validate_database_iff : (db : DatabaseConfig) → (validate_database db ≡ none) ↔ IsUsable db
unfolding validate_database
validate_database_iff db =
    let (login, login_back) = validate-IsLogin_iff db in
    let (logs, logs_back) = validate_log_sources_iff (type_of db) db.log_sources in
    let network = validate_network db in
    let specific = validate_specific db in
    let sources = validate_log_sources (type_of db) db.log_sources in
    let (split, join) = rest_iff network specific sources in
    kind_iff (any (is_type db) database_types) (is_type db (text "sqlite")) (is_blank db.database) _
      (
        λ h. let (n, (s, l)) = split h in (login (n, s), logs l),
        λ (u, l). let (n, s) = login_back u in join (n, (s, logs_back l)),
      )

pub validate_databases_iff :
    (dbs : List DatabaseConfig)
    → (validate_databases dbs ≡ none) ↔ (
        All (λ (db : DatabaseConfig). (is_empty db.name ≡ false) × IsUsable db) dbs
        × IsDistinct (map (λ (db : DatabaseConfig). db.name) dbs))
unfolding validate_databases
validate_databases_iff dbs =
    let (sound, complete) =
      validate_list_iff (λ (db : DatabaseConfig). db.name)
        (λ (db : DatabaseConfig). is_empty db.name) validate_database dbs in
    let (each, back) =
      All-iff
        {P = λ (db : DatabaseConfig). (is_empty db.name ≡ false) × (validate_database db ≡ none)}
        {Q = λ (db : DatabaseConfig). (is_empty db.name ≡ false) × IsUsable db} dbs
        (λ db. let (f, g) = validate_database_iff db in (λ (n, v). (n, f v), λ (n, v). (n, g v))) in
    (
      λ h. let (all, distinct) = sound h in (each all, distinct),
      λ (all, distinct). complete (back all, distinct),
    )
