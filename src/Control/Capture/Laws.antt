-- ===== src/Control/Capture/Laws.antt =====
-- Watermarks move only under a lease (pkg/controlset/executor.go).
use basecheck_agent.Prelude.{
  ◌≡◌, refl, subst, ◌⊎◌, inl, inr, Bool-cases, true, false, not, ◌&&◌, ◌==◌, Option, Option-cases,
  none, some, Result, ok, err, List, [], arith,
}
use basecheck_agent.Text.{Text, text, text_eq, is_empty, trim_space}
use basecheck_agent.Text.Laws.{text_eq_iff}
use basecheck_agent.Control.Watermark.Conditions.{Watermark, Datum}
use basecheck_agent.Control.Capture.{
  Lease, Evidence, Executor, Reply, Backend, LeaseError, unavailable, Acquired, store, keyed,
  accept_lease, read_reply, request_lease, acquire_evidence_lease, capture_mode, key_of,
  empty_result, CaptureResult, query, plan_of, run_plan, execute_evidence_capture,
}

-- A lease with a token, for the source of a key.
abbrev pub IsFor : Text → Lease → Type 0
IsFor key lease =
    (is_empty (trim_space lease.lease_token) ≡ false) × (trim_space lease.source_key ≡ key)

-- Every lease that is kept is for the source it is kept for.
abbrev pub IsKept : Executor → Type 0
IsKept executor = (key : Text) (lease : Lease) → executor.leases key ≡ some lease → IsFor key lease

-- What an attempt leaves behind.
abbrev IsSafe : Text → Acquired → Type 0
IsSafe key acquired =
    IsKept acquired.1 × ((lease : Lease) → acquired.0 ≡ ok (some lease) → IsFor key lease)

store-IsKept :
    (executor : Executor) (key : Text) (lease : Lease)
    → IsKept executor
    → IsFor key lease
    → IsKept (store executor key lease)
store-IsKept executor key lease kept h k l e = elim (Bool-cases (text_eq k key)) [
  | inl y ↦
      let same_key = (text_eq_iff k key).0 y in
      let same_lease : lease ≡ l = ground (arith, y, e) in
      rw same_key (subst (IsFor key) same_lease h)
  | inr n ↦ kept k l (ground (arith, n, e))
]

error-IsSafe :
    (executor : Executor) (key : Text) → IsKept executor → IsSafe key (err unavailable, executor)
error-IsSafe executor key kept = (kept, λ lease e. absurd (cc))

keyed_token : (key : Text) (lease : Lease) → (keyed key lease).lease_token ≡ lease.lease_token
unfolding keyed
keyed_token key lease = elim (Bool-cases (is_empty (trim_space lease.source_key))) [
  | inl y ↦ rw (y, keyed) refl
  | inr n ↦ rw (n, keyed) refl
]

granted-IsSafe :
    (executor : Executor) (key : Text) (lease : Lease)
    → IsKept executor
    → IsFor key lease
    → IsSafe key (ok (some lease), store executor key lease)
granted-IsSafe executor key lease kept h = (
  store-IsKept executor key lease kept h,
  λ l e. let same : lease ≡ l = cc in subst (IsFor key) same h,
)

accept_lease-IsSafe :
    (executor : Executor) (key : Text) (lease : Lease)
    → IsKept executor
    → IsSafe key (accept_lease executor key lease)
unfolding accept_lease
accept_lease-IsSafe executor key lease kept =
    elim (Bool-cases (is_empty (trim_space lease.lease_token))) [
      | inl y ↦ rw (y, accept_lease) (error-IsSafe executor key kept)
      | inr n ↦ elim (Bool-cases (text_eq (trim_space (keyed key lease).source_key) key)) [
        | inr d ↦ rw (n, d, accept_lease) (error-IsSafe executor key kept)
        | inl e ↦
            let token = keyed_token key lease in
            rw (n, e, accept_lease)
              (granted-IsSafe executor key (keyed key lease) kept
                (rw token n, (text_eq_iff (trim_space (keyed key lease).source_key) key).0 e))
      ]
    ]

read_reply-IsSafe :
    (executor : Executor) (key : Text) (reply : Reply)
    → IsKept executor
    → IsSafe key (read_reply executor key reply)
unfolding read_reply
read_reply-IsSafe executor key reply kept = elim (Bool-cases (reply.status_code == 409)) [
  | inl y ↦ simp (y, read_reply) (kept, λ lease e. absurd (cc))
  | inr n ↦ elim (Bool-cases (reply.status_code == 200)) [
    | inr d ↦ simp (n, d, read_reply) (error-IsSafe executor key kept)
    | inl o ↦ elim (Option-cases reply.decoded) [
      | inl e ↦ simp (n, o, e, read_reply) (error-IsSafe executor key kept)
      | inr (lease, e) ↦ simp (n, o, e, read_reply) (accept_lease-IsSafe executor key lease kept)
    ]
  ]
]

acquire_evidence_lease-IsSafe :
    (executor : Executor) (backend : Backend) (mode key : Text)
    → IsKept executor
    → IsSafe key (acquire_evidence_lease executor backend mode key)
unfolding acquire_evidence_lease request_lease
acquire_evidence_lease-IsSafe executor backend mode key kept =
    elim (Bool-cases (text_eq mode (text "activity"))) [
      | inl y ↦ rw (y, acquire_evidence_lease) (kept, λ lease e. absurd (cc))
      | inr n ↦ elim (Option-cases (executor.leases key)) [
        | inr (lease, e) ↦
            simp (n, e, acquire_evidence_lease)
              (kept, λ l f. let same : lease ≡ l = cc in subst (IsFor key) same (kept key lease e))
        | inl e ↦ elim (Bool-cases backend.insecure) [
          | inl i ↦
              simp (n, e, i, acquire_evidence_lease, request_lease) (error-IsSafe executor key kept)
          | inr s ↦ elim (Option-cases backend.reply) [
            | inl r ↦
                simp (n, e, s, r, acquire_evidence_lease, request_lease)
                  (error-IsSafe executor key kept)
            | inr (reply, r) ↦
                simp (n, e, s, r, acquire_evidence_lease, request_lease)
                  (read_reply-IsSafe executor key reply kept)
          ]
        ]
      ]
    ]

-- A watermark comes with the lease of the source, and a source that is skipped has no rows.
abbrev pub IsUnderLease : Text → CaptureResult → Type 0
IsUnderLease key result =
    ((result.watermark ≡ [])
      ⊎ ((is_empty (trim_space result.lease_token) ≡ false) × (trim_space result.source_key ≡ key)))
    × (result.skipped ≡ true → result.data_rows ≡ [])

module _ (decode : Text → Option Watermark) (encode : List (Text × Datum) → Option Text) where
  module _ (executor : Executor) (database : Text → Option (List Watermark)) (evidence : Evidence)
      (mode key : Text) where
    unleased-IsUnderLease :
        (sql : Text)
        → IsUnderLease key (
            run_plan decode encode executor database evidence
              (empty_result mode key)
              (query sql none))
    unfolding run_plan
    unleased-IsUnderLease sql = elim (Option-cases (database sql)) [
      | inl e ↦ simp (e, run_plan) (inl refl, λ h. absurd (cc))
      | inr (rows, e) ↦ simp (e, run_plan) (inl refl, λ h. absurd (cc))
    ]

    leased-IsUnderLease :
        (sql : Text) (lease : Lease)
        → IsFor key lease
        → IsUnderLease key (
            run_plan decode encode executor database evidence
              (empty_result mode key)
              (query sql (some lease)))
    unfolding run_plan
    leased-IsUnderLease sql lease h = elim (Option-cases (database sql)) [
      | inl e ↦ simp (e, run_plan) (inr h, λ k. absurd (cc))
      | inr (rows, e) ↦ simp (e, run_plan) (inr h, λ k. absurd (cc))
    ]

    planned-IsUnderLease :
        (lease : Result LeaseError (Option Lease))
        → ((l : Lease) → lease ≡ ok (some l) → IsFor key l)
        → IsUnderLease key (
            run_plan decode encode executor database evidence
              (empty_result mode key)
              (plan_of decode encode executor evidence lease))
    unfolding run_plan plan_of
    planned-IsUnderLease (err e) h = unleased-IsUnderLease _
    planned-IsUnderLease (ok none) h = (inl refl, λ k. refl)
    planned-IsUnderLease (ok (some lease)) h = leased-IsUnderLease _ lease (h lease refl)

  -- If every lease that the executor keeps has a token and is for its source, that is so after a
  -- capture, whatever the backend and the database answer. A result that carries a new watermark
  -- carries a token and the key of its source, and a source that is skipped gives no rows.
  pub execute_evidence_capture-IsUnderLease :
      (hash : Text → Text) (executor : Executor) (backend : Backend)
      (database : Text → Option (List Watermark)) (evidence : Evidence)
      → IsKept executor
      → (let (result, after) =
            execute_evidence_capture decode encode hash executor backend database evidence in
          IsKept after × IsUnderLease (key_of hash executor evidence) result)
  unfolding execute_evidence_capture
  execute_evidence_capture-IsUnderLease hash executor backend database evidence kept =
      let mode = capture_mode evidence in
      let key = key_of hash executor evidence in
      let safe = acquire_evidence_lease-IsSafe executor backend mode key kept in
      elim (Bool-cases (is_empty (trim_space evidence.sql))) [
        | inl y ↦ simp (y, execute_evidence_capture) (kept, (inl refl, λ k. absurd (cc)))
        | inr n ↦
            elim (Bool-cases
              (executor.use_ingestion_state && not (text_eq mode (text "activity")))) [
                | inl u ↦
                    simp (n, u, execute_evidence_capture)
                      (
                        safe.0,
                        planned-IsUnderLease executor database evidence mode key
                            (acquire_evidence_lease executor backend mode key).0 safe.1,
                      )
                | inr d ↦
                    simp (n, d, execute_evidence_capture)
                      (kept, unleased-IsUnderLease executor database evidence mode key evidence.sql)
              ]
      ]
