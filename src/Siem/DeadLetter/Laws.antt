-- ===== src/Siem/DeadLetter/Laws.antt =====
-- The dead-letter file is a log from which only the oldest entries go (pkg/siem/deadletter.go).
use basecheck_agent.Prelude.{
  ◌*◌, ◌≤◌, ◌≡◌, refl, sym, ap, ◌∙◌, ◌⊎◌, inl, inr, Option, none, some, List, [], ◌∷◌, ◌++◌, length,
  length-append, subst, ltb, arith, Bool-cases, Option-cases, append-nil, append_assoc,
}
use basecheck_agent.Text.{Text, take}
use basecheck_agent.Siem.Syslog.Laws.{take-IsStart}
use basecheck_agent.Siem.DeadLetter.{
  DeadLetter, DeadLetterFault, Attempt, contents, Written, closed, rotated, check_rotate, appended,
  append_line, write_rotated, write_entry, write_all_entries, not_opened,
}

-- The bytes of both files, the old one first.
abbrev pub held : DeadLetter → Text
held d = d.old ++ contents d.current

-- What one write may add to a log: the whole line of the entry if there is no error, and a first part
-- of it, which can be empty, if there is one.
abbrev pub Adds : Attempt → Option DeadLetterFault → Text → Type 0
Adds io fault added =
    ((added ≡ []) × (fault ≡ none → ⊥))
    ⊎ ((line : Text) × (io.line ≡ some line)
        × (((rest : Text) × (line ≡ added ++ rest)) × (fault ≡ none → added ≡ line)))

-- The log that the writes make: an append-only text.
abbrev pub Logs : List Attempt → List (Option DeadLetterFault) → Text → Type 0
Logs [] [] log = log ≡ []
Logs [] (fault ∷ faults) log = ⊥
Logs (io ∷ ios) [] log = ⊥
Logs (io ∷ ios) (fault ∷ faults) log =
    (added : Text) × (later : Text) × ((log ≡ added ++ later)
      × (Adds io fault added × Logs ios faults later))

-- The files hold a log but for its oldest part, and at least as much of it as a file may grow to, if
-- anything is gone.
abbrev pub Holds : DeadLetter → Text → Type 0
Holds d log =
    (dropped : Text) × ((log ≡ dropped ++ held d)
      × ((dropped ≡ []) ⊎ (d.max_size_mb * 1048576 ≤ length (held d))))

rotation-cases :
    (io : Attempt) (d : DeadLetter)
    → ((check_rotate io d).state ≡ d)
      ⊎ (((check_rotate io d).state ≡ closed d)
          ⊎ ((bytes : Text) × ((d.current ≡ some bytes)
                × ((d.max_size_mb * 1048576 ≤ length bytes)
                    × ((check_rotate io d).state ≡ rotated d bytes)))))
unfolding check_rotate
rotation-cases io d = elim (Option-cases d.current) [
  | inl e ↦ elim (Bool-cases io.inspected) [
    | inr n ↦ inl (simp (e, n, check_rotate))
    | inl y ↦ inl (simp (e, y, check_rotate))
  ]
  | inr (bytes, e) ↦ elim (Bool-cases io.inspected) [
    | inr n ↦ inl (simp (e, n, check_rotate))
    | inl y ↦ elim (Bool-cases (ltb (length bytes) (d.max_size_mb * 1048576))) [
      | inl s ↦ inl (simp (e, y, s, check_rotate))
      | inr w ↦ elim (Bool-cases io.renamed) [
        | inl r ↦ inr (inr (bytes, (e, (ground (arith, w), simp (e, y, w, r, check_rotate)))))
        | inr r ↦ inr (inl (simp (e, y, w, r, check_rotate)))
      ]
    ]
  ]
]

rotated-Holds :
    (d : DeadLetter) (log bytes : Text)
    → d.current ≡ some bytes
    → d.max_size_mb * 1048576 ≤ length bytes
    → Holds d log
    → Holds (rotated d bytes) log
rotated-Holds d log bytes e big (dropped, (h, _)) =
    let all : held (rotated d bytes) ≡ bytes = append-nil bytes in
    (
      dropped ++ d.old,
      (
        h
            ∙ ap (λ c. dropped ++ (d.old ++ contents c)) e
            ∙ sym (append_assoc dropped d.old bytes)
            ∙ ap (λ t. (dropped ++ d.old) ++ t) (sym all),
        inr (subst (λ t. d.max_size_mb * 1048576 ≤ length t) (sym all) big),
      ),
    )

check_rotate-Holds :
    (io : Attempt) (d : DeadLetter) (log : Text) → Holds d log → Holds (check_rotate io d).state log
check_rotate-Holds io d log h = elim (rotation-cases io d) [
  | inl e ↦ subst (λ s. Holds s log) (sym e) h
  | inr (inl e) ↦ subst (λ s. Holds s log) (sym e) h
  | inr (inr (bytes, (is, (big, e)))) ↦
      subst (λ s. Holds s log) (sym e) (rotated-Holds d log bytes is big h)
]

appended-Holds :
    (d : DeadLetter) (log bytes : Text) → Holds d log → Holds (appended d bytes) (log ++ bytes)
appended-Holds d log bytes (dropped, (h, kept)) =
    let more : held d ++ bytes ≡ held (appended d bytes) =
      append_assoc d.old (contents d.current) bytes in
    (
      dropped,
      (
        ap (λ t. t ++ bytes) h ∙ append_assoc dropped (held d) bytes ∙ ap (λ t. dropped ++ t) more,
        elim kept [
          | inl e ↦ inl e
          | inr big ↦ inr (
              subst (λ t. d.max_size_mb * 1048576 ≤ length t) more
                (omega (arith, big, length-append (held d) bytes)))
        ],
      ),
    )

-- What comes of one write: what it adds to the log, and that the files hold it.
abbrev pub IsLogged : Attempt → Text → Written → Type 0
IsLogged io log w = (added : Text) × (Adds io w.fault added × Holds w.state (log ++ added))

failed :
    (io : Attempt) (log : Text) (d : DeadLetter) (fault : DeadLetterFault)
    → Holds d log
    → IsLogged io log (record { fault = some fault; state = d })
failed io log d fault h = ([], (inl (refl, λ k. cc), subst (Holds d) (sym (append-nil log)) h))

append_line-IsLogged :
    (io : Attempt) (d : DeadLetter) (log : Text) → Holds d log → IsLogged io log (append_line io d)
unfolding append_line
append_line-IsLogged io d log h = elim (Option-cases io.line) [
  | inl e ↦ rw (e, append_line) ([], (inl (refl, λ k. cc), appended-Holds d log [] h))
  | inr (line, e) ↦ elim (Option-cases io.cut) [
    | inl c ↦
        rw (e, c, append_line)
          (
            line,
            (
              inr (line, refl, (([], sym (append-nil line)), λ k. refl)),
              appended-Holds d log line h,
            ),
          )
    | inr (n, c) ↦
        let (rest, split) = take-IsStart n line in
        rw (e, c, append_line)
          (
            take n line,
            (
              inr (line, refl, ((rest, split), λ k. absurd (cc))),
              appended-Holds d log (take n line) h,
            ),
          )
  ]
]

write_rotated-IsLogged :
    (io : Attempt) (d : DeadLetter) (log : Text)
    → Holds d log
    → IsLogged io log (write_rotated io d)
unfolding write_rotated
write_rotated-IsLogged io d log h = elim (Bool-cases d.is_open) [
  | inl y ↦ simp (y, write_rotated) (append_line-IsLogged io d log h)
  | inr n ↦ elim (Bool-cases io.opened) [
    | inl y ↦ simp (n, y, write_rotated) (append_line-IsLogged io d log h)
    | inr m ↦ simp (n, m, write_rotated) (failed io log d not_opened h)
  ]
]

write_entry-IsLogged :
    (io : Attempt) (d : DeadLetter) (log : Text) → Holds d log → IsLogged io log (write_entry io d)
unfolding write_entry
write_entry-IsLogged io d log h =
    let held_on = check_rotate-Holds io d log h in
    elim (Option-cases (check_rotate io d).fault) [
      | inl e ↦
          rw (e, write_entry) (write_rotated-IsLogged io (check_rotate io d).state log held_on)
      | inr (fault, e) ↦
          rw (e, write_entry)
            (
              [],
              (
                inl (refl, λ k. cc),
                subst (Holds (check_rotate io d).state) (sym (append-nil log)) held_on,
              ),
            )
    ]

-- The dead-letter file refines an append-only log: whatever the file system does, a series of writes
-- adds to the log, in order, the whole line of every entry whose write has no error, and of one with
-- an error a first part, which can be empty; and the files hold the log but for its oldest part, and
-- at least as many bytes of it as the limit, if anything is gone.
pub write_all_entries-refines :
    (ios : List Attempt) (d : DeadLetter) (log : Text)
    → Holds d log
    → (let (faults, state) = write_all_entries ios d in
        (added : Text) × (Logs ios faults added × Holds state (log ++ added)))
unfolding write_all_entries
write_all_entries-refines [] d log h = ([], (refl, subst (Holds d) (sym (append-nil log)) h))
write_all_entries-refines (io ∷ ios) d log h =
    let (added, (adds, holds)) = write_entry-IsLogged io d log h in
    let (later, (logs, after)) =
      write_all_entries-refines ios (write_entry io d).state (log ++ added) holds in
    (
      added ++ later,
      (
        (added, later, (refl, (adds, logs))),
        subst (Holds (write_all_entries ios (write_entry io d).state).1)
            (append_assoc log added later) after,
      ),
    )
