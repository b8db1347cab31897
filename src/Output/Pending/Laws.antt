-- ===== src/Output/Pending/Laws.antt =====
-- No result is lost on its way to the backend (pkg/output/output.go).
use basecheck_agent.Prelude.{
  ℕ, suc, ◌+◌, ◌≤◌, ◌≡◌, ◌≢◌, refl, ap, ◌⊎◌, inl, inr, Bool, not, ◌&&◌, none, List, [], ◌∷◌, length,
  keep, ◌==◌, ==_iff, arith, Bool-cases, Option-cases,
}
use mathlib.Core.List.{Memᴰ}
use basecheck_agent.Text.{Text, is_empty, text_eq}
use basecheck_agent.Config.Validation.{is_insecure_url}
use basecheck_agent.Output.Pending.{
  PendingFile, total_size, ensure_queue_capacity, Disk, Stored, queue_result, Posted, not_made,
  no_answer, answered, write_to_http,
}

pub Posted-cases :
    (p : Posted) → (p ≡ not_made) ⊎ ((p ≡ no_answer) ⊎ ((status : ℕ) × (p ≡ answered status)))
Posted-cases not_made = inl refl
Posted-cases no_answer = inr (inl refl)
Posted-cases (answered status) = inr (inr (status, refl))

-- The directory is within its limits.
abbrev pub IsWithin : List PendingFile → Type 0
IsWithin files = (length files ≤ 200) × (total_size files ≤ 536870912)

keep-smaller :
    (p : PendingFile → Bool) (files : List PendingFile)
    → (length (keep p files) ≤ length files) × (total_size (keep p files) ≤ total_size files)
keep-smaller p [] = (omega arith, omega arith)
keep-smaller p (file ∷ files) =
    let (l, t) = keep-smaller p files in
    elim (Bool-cases (p file)) [
      | inl y ↦ rw (y, keep) (omega (arith, l), omega (arith, t))
      | inr n ↦ rw (n, keep) (omega (arith, l), omega (arith, t))
    ]

room :
    (inspected : Bool) (size : ℕ) (files : List PendingFile)
    → ensure_queue_capacity inspected size files ≡ none
    → (suc (length files) ≤ 200) × (size + total_size files ≤ 536870912)
unfolding ensure_queue_capacity
room inspected size files h = (ground (arith, h), ground (arith, h))

-- A result is queued, within the limits, or there is an error and nothing has changed.
queue_result-IsKept :
    (disk : Disk) (file : PendingFile) (files : List PendingFile)
    → IsWithin files
    → (let s = queue_result disk file files in
        IsWithin s.files
        × (((s.fault ≡ none) × Memᴰ file s.files) ⊎ ((s.fault ≢ none) × (s.files ≡ files))))
unfolding queue_result
queue_result-IsKept disk file files h = elim (Bool-cases disk.has_directory) [
  | inr n ↦ rw n (h, inr (λ k. cc, refl))
  | inl y ↦ elim (Option-cases (ensure_queue_capacity disk.inspected (length file.content) files)) [
    | inr (e, full) ↦ rw (y, full) (h, inr (λ k. cc, refl))
    | inl fits ↦ elim (Bool-cases (disk.written && disk.renamed)) [
      | inr n ↦ rw (y, fits, n) (h, inr (λ k. cc, refl))
      | inl w ↦
          let (count, size) = room disk.inspected (length file.content) files fits in
          let (fewer, less) = keep-smaller (λ other. not (text_eq other.name file.name)) files in
          rw (y, fits, w)
            ((omega (arith, count, fewer), omega (arith, size, less)), inl (refl, Memᴰ.head refl))
    ]
  ]
]

-- The result is accepted or in the directory, or there is an error and nothing has changed.
abbrev pub IsKept : Posted → PendingFile → List PendingFile → Stored → Type 0
IsKept posted file files s =
    IsWithin s.files
    × (((s.fault ≡ none) × (((posted ≡ answered 200) × (s.files ≡ files)) ⊎ Memᴰ file s.files))
        ⊎ ((s.fault ≢ none) × (s.files ≡ files)))

-- The directory stays within 200 files and 512 MB. Without an error, the result has been accepted by
-- the backend or is in the directory; with one, the directory is as it was.
pub write_to_http-IsKept :
    (url : Text) (allow_http offline : Bool) (posted : Posted) (disk : Disk) (file : PendingFile)
    (files : List PendingFile)
    → IsWithin files
    → IsKept posted file files (write_to_http url allow_http offline posted disk file files)
unfolding write_to_http
write_to_http-IsKept url allow_http offline posted disk file files h =
    let (within, kept) = queue_result-IsKept disk file files h in
    let queued : (p : Posted) → IsKept p file files (queue_result disk file files) =
      λ p. (within, elim kept [ inl (fine, m) ↦ inl (fine, inr m) | inr failed ↦ inr failed ]) in
    elim (Bool-cases (is_empty url)) [
      | inl y ↦ rw (y, write_to_http) (h, inr (λ k. cc, refl))
      | inr n ↦ elim (Bool-cases (is_insecure_url url allow_http)) [
        | inl y ↦ rw (n, y, write_to_http) (h, inr (λ k. cc, refl))
        | inr s ↦ elim (Bool-cases offline) [
          | inl y ↦ rw (n, s, y, write_to_http) (queued posted)
          | inr o ↦ elim (Posted-cases posted) [
            | inl e ↦ rw (n, s, o, e, write_to_http) (h, inr (λ k. cc, refl))
            | inr (inl e) ↦ rw (n, s, o, e, write_to_http) (queued no_answer)
            | inr (inr (status, e)) ↦ elim (Bool-cases (status == 200)) [
              | inl y ↦
                  rw (n, s, o, e, y, write_to_http)
                    (h, inl (refl, inl (ap answered ((==_iff status 200).0 y), refl)))
              | inr w ↦ rw (n, s, o, e, w, write_to_http) (queued (answered status))
            ]
          ]
        ]
      ]
    ]
