-- ===== src/Output/Pending/Draining.antt =====
-- No pending file is deleted without an answer, and which ones go (pkg/output/output.go).
use basecheck_agent.Prelude.{
  ℕ, zero, suc, ◌+◌, ◌≤◌, ◌≡◌, ◌≢◌, subst, refl, sym, ap, ◌∙◌, ◌⊎◌, inl, inr, Bool, true, false,
  ◌&&◌, Option, none, some, List, [], ◌∷◌, ◌++◌, length, leb, ltb, ◌==◌, ==_iff, arith, Bool-cases,
  All,
}
use mathlib.Core.List.{Permᴰ}
use mathlib.Core.List.Permᴰ
use basecheck_agent.Text.{Text, is_empty}
use basecheck_agent.Text.Order.{sort_by}
use basecheck_agent.Text.Order.Sort.{sort_by-perm}
use basecheck_agent.Config.Validation.{is_insecure_url}
use basecheck_agent.Output.Pending.Laws.{Posted-cases}
use basecheck_agent.Output.Pending.{
  PendingFile, OutputFault, total_size, answered, Upload, Uploaded, stopped, upload_file,
  upload_from, file_key, upload_pending, missing_url, insecure_url,
}

-- A file that is uploaded and deleted was read, and the backend has answered with 200.
abbrev pub IsConfirmed : Upload → PendingFile → Type 0
IsConfirmed env file =
    (env.readable file ≡ true) × ((env.posted file ≡ answered 200) × (env.deleted file ≡ true))

-- At most ten files are uploaded, of at most 50 MB, if not of one file alone.
abbrev pub IsSmall : ℕ → ℕ → List PendingFile → Type 0
IsSmall attempts bytes removed =
    (removed ≡ [])
    ⊎ ((attempts + length removed ≤ 10)
        × ((bytes + total_size removed ≤ 52428800) ⊎ ((attempts ≡ 0) × (length removed ≡ 1))))

pub record IsUpload (env : Upload) (attempts bytes : ℕ) (files : List PendingFile) (u : Uploaded)
    : Type 0 where
  pub whole : u.removed ++ u.remaining ≡ files
  pub confirmed : All (IsConfirmed env) u.removed
  pub small : IsSmall attempts bytes u.removed

stopped-IsUpload :
    (env : Upload) (attempts bytes : ℕ) (files : List PendingFile) (fault : Option OutputFault)
    → IsUpload env attempts bytes files (stopped fault files)
stopped-IsUpload env attempts bytes files fault = record {
  whole = refl;
  confirmed = tt;
  small = inl refl;
}

alone :
    (attempts bytes : ℕ) (file : PendingFile)
    → leb 10 attempts ≡ false
    → ltb 0 attempts && ltb 52428800 (bytes + length file.content) ≡ false
    → IsSmall attempts bytes (file ∷ [])
alone zero bytes file few light = inr (omega arith, inr (refl, refl))
alone (suc n) bytes file few light = inr (ground (arith, few), inl (ground (arith, light)))

larger :
    (attempts bytes : ℕ) (file : PendingFile) (removed : List PendingFile)
    → leb 10 attempts ≡ false
    → ltb 0 attempts && ltb 52428800 (bytes + length file.content) ≡ false
    → IsSmall (suc attempts) (bytes + length file.content) removed
    → IsSmall attempts bytes (file ∷ removed)
larger attempts bytes file removed few light (inl e) =
    subst (λ r. IsSmall attempts bytes (file ∷ r)) (sym e) (alone attempts bytes file few light)
larger attempts bytes file removed few light (inr (n, inl b)) =
    inr (omega (arith, n), inl (omega (arith, b)))
larger attempts bytes file removed few light (inr (n, inr (z, _))) = absurd (omega (arith, z))

both : (a b : Bool) → a && b ≡ true → (a ≡ true) × (b ≡ true)
both true b h = (refl, h)
both false b h = absurd (cc)

upload_file-IsUpload :
    (env : Upload) (attempts bytes : ℕ) (file : PendingFile) (files : List PendingFile)
    (rest : Uploaded)
    → leb 10 attempts ≡ false
    → env.readable file ≡ true
    → ltb 0 attempts && ltb 52428800 (bytes + length file.content) ≡ false
    → IsUpload env (suc attempts) (bytes + length file.content) files rest
    → IsUpload env attempts bytes (file ∷ files) (upload_file env file files rest)
unfolding upload_file
upload_file-IsUpload env attempts bytes file files rest few read light h =
    elim (Posted-cases (env.posted file)) [
      | inl e ↦ rw (e, upload_file) (stopped-IsUpload env attempts bytes (file ∷ files) _)
      | inr (inl e) ↦ rw (e, upload_file) (stopped-IsUpload env attempts bytes (file ∷ files) none)
      | inr (inr (status, e)) ↦ elim (Bool-cases (status == 200 && env.deleted file)) [
        | inr n ↦ rw (e, n, upload_file) (stopped-IsUpload env attempts bytes (file ∷ files) none)
        | inl y ↦
            let (ok, gone) = both (status == 200) (env.deleted file) y in
            rw (e, y, upload_file)
              record {
                whole = ap (λ fs. file ∷ fs) h.whole;
                confirmed =
                    ((read, (e ∙ ap answered ((==_iff status 200).0 ok), gone)), h.confirmed);
                small = larger attempts bytes file rest.removed few light h.small;
              }
      ]
    ]

upload_from-IsUpload :
    (env : Upload) (attempts bytes : ℕ) (files : List PendingFile)
    → IsUpload env attempts bytes files (upload_from env attempts bytes files)
unfolding upload_from
upload_from-IsUpload env attempts bytes [] = stopped-IsUpload env attempts bytes [] none
upload_from-IsUpload env attempts bytes (file ∷ files) = elim (Bool-cases (leb 10 attempts)) [
  | inl y ↦ rw y (stopped-IsUpload env attempts bytes (file ∷ files) none)
  | inr few ↦ elim (Bool-cases (env.readable file)) [
    | inr n ↦ rw (few, n) (stopped-IsUpload env attempts bytes (file ∷ files) _)
    | inl read ↦ elim (Bool-cases (ltb 0 attempts && ltb 52428800 (bytes + length file.content))) [
      | inl y ↦ rw (few, read, y) (stopped-IsUpload env attempts bytes (file ∷ files) none)
      | inr light ↦
          rw (few, read, light)
            (upload_file-IsUpload env attempts bytes file files _ few read light
              (upload_from-IsUpload env (suc attempts) (bytes + length file.content) files))
    ]
  ]
]

-- What an upload leaves of the pending files.
abbrev pub IsDrained : Upload → List PendingFile → Uploaded → Type 0
IsDrained env files u =
    Permᴰ (u.removed ++ u.remaining) files
    × (((later : List PendingFile) × (u.removed ++ later ≡ sort_by file_key files))
        × (All (IsConfirmed env) u.removed
            × ((length u.removed ≤ 10)
                × ((total_size u.removed ≤ 52428800) ⊎ (length u.removed ≡ 1)))))

bounds_of :
    (removed : List PendingFile)
    → IsSmall 0 0 removed
    → (length removed ≤ 10) × ((total_size removed ≤ 52428800) ⊎ (length removed ≡ 1))
bounds_of removed (inl e) =
    subst (λ r. (length r ≤ 10) × ((total_size r ≤ 52428800) ⊎ (length r ≡ 1))) (sym e)
      (omega arith, inl (omega arith))
bounds_of removed (inr (n, inl b)) = (omega (arith, n), inl (omega (arith, b)))
bounds_of removed (inr (n, inr (_, one))) = (omega (arith, n), inr one)

-- An upload deletes the first of the pending files in the order of their names, ten of them at most,
-- and 50 MB at most if not one file alone; each was read, and answered with 200. All others stay.
pub upload_pending-IsDrained :
    (url : Text) (allow_http : Bool) (env : Upload) (files : List PendingFile)
    → IsDrained env files (upload_pending url allow_http env files)
unfolding upload_pending
upload_pending-IsDrained url allow_http env files =
    let sorted = sort_by file_key files in
    let u = upload_from env 0 0 sorted in
    let all_stay : (fault : Option OutputFault) → IsDrained env files (stopped fault files) =
      λ fault. (Permᴰ.refl files, ((sorted, refl), (tt, (omega arith, inl (omega arith))))) in
    let up = upload_from-IsUpload env 0 0 sorted in
    let drained : IsDrained env files u = (
      subst (λ fs. Permᴰ fs files) (sym up.whole) (Permᴰ.symm (sort_by-perm file_key files)),
      ((u.remaining, up.whole), (up.confirmed, bounds_of u.removed up.small)),
    ) in
    elim (Bool-cases (is_empty url)) [
      | inl y ↦ rw (y, upload_pending) (all_stay (some missing_url))
      | inr n ↦ elim (Bool-cases (is_insecure_url url allow_http)) [
        | inl y ↦ rw (n, y, upload_pending) (all_stay (some insecure_url))
        | inr s ↦ rw (n, s, upload_pending) drained
      ]
    ]

blocked :
    (env : Upload) (removed rest : List PendingFile) (first : PendingFile)
    (later : List PendingFile)
    → removed ++ rest ≡ first ∷ later
    → All (IsConfirmed env) removed
    → env.posted first ≢ answered 200
    → removed ≡ []
blocked env [] rest first later e confirmed refused = refl
blocked env (file ∷ removed) rest first later e ((_, (sent, _)), _) refused =
    let same : file ≡ first = cc in
    absurd (refused (subst (λ f. env.posted f ≡ answered 200) same sent))

-- While the first pending file is not answered with 200, no file is deleted.
pub upload_pending_blocked :
    (url : Text) (allow_http : Bool) (env : Upload) (first : PendingFile)
    (files later : List PendingFile)
    → sort_by file_key files ≡ first ∷ later
    → env.posted first ≢ answered 200
    → (upload_pending url allow_http env files).removed ≡ []
upload_pending_blocked url allow_http env first files later e refused =
    let (perm, ((rest, whole), (confirmed, bounds))) =
      upload_pending-IsDrained url allow_http env files in
    blocked env (upload_pending url allow_http env files).removed rest first later (whole ∙ e)
      confirmed refused
