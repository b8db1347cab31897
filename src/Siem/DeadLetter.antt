-- ===== src/Siem/DeadLetter.antt =====
-- The dead-letter file (pkg/siem/deadletter.go): its bytes and those of the file that it is rotated
-- to. The errors of the file system and the JSON of an entry are inputs; no other process writes to
-- the two files.
pub mod Laws
use basecheck_agent.Prelude.{
  ℕ, ◌*◌, ℤ, is_nonpos, to_ℕ, Bool, true, false, not, Option, none, some, List, [], ◌∷◌, ◌++◌,
  length, if◌then◌else◌, ltb,
}
use basecheck_agent.Text.{Text, text, is_empty, take}

pub record DeadLetterConfig : Type 0 where
  pub path : Text
  pub max_size_mb : ℤ

-- The handler, whether it holds the file open, the file, if there is one, and the old file.
pub record DeadLetter : Type 0 where
  pub path : Text
  pub max_size_mb : ℕ
  pub is_open : Bool
  pub current : Option Text
  pub old : Text

-- `NewDeadLetter` on the files that are there.
unfoldable pub new_dead_letter : DeadLetterConfig → Option Text → Text → DeadLetter
new_dead_letter cfg current old = record {
  path = if is_empty cfg.path then text ".cache/siem-dead-letter.jsonl" else cfg.path;
  max_size_mb = if is_nonpos cfg.max_size_mb then 100 else to_ℕ cfg.max_size_mb;
  is_open = false;
  current = current;
  old = old;
}

pub data DeadLetterFault : Type 0 where
  uninspected : DeadLetterFault
  not_rotated : DeadLetterFault
  not_opened : DeadLetterFault
  not_marshalled : DeadLetterFault
  not_written : DeadLetterFault

-- What one write meets: whether the file can be inspected, renamed and opened, the line of the
-- entry, if it has one, and how many of its bytes are written if not all are.
pub record Attempt : Type 0 where
  pub inspected : Bool
  pub renamed : Bool
  pub opened : Bool
  pub line : Option Text
  pub cut : Option ℕ

abbrev pub contents : Option Text → Text
contents none = []
contents (some bytes) = bytes

pub record Written : Type 0 where
  pub fault : Option DeadLetterFault
  pub state : DeadLetter

abbrev pub closed : DeadLetter → DeadLetter
closed d = record d { is_open = false }

-- The file becomes the old one.
abbrev pub rotated : DeadLetter → Text → DeadLetter
rotated d bytes = record d { is_open = false; current = none; old = bytes }

-- `checkRotate`; that there is no file counts as inspected.
unfoldable pub check_rotate : Attempt → DeadLetter → Written
check_rotate io d = elim d.current [
  | none ↦
      if io.inspected
      then record { fault = none; state = d }
      else record { fault = some uninspected; state = d }
  | some bytes ↦
      if not io.inspected
      then record { fault = some uninspected; state = d }
      else if ltb (length bytes) (d.max_size_mb * 1048576)
      then record { fault = none; state = d }
      else if io.renamed
      then record { fault = none; state = rotated d bytes }
      else record { fault = some not_rotated; state = closed d }
]

abbrev pub appended : DeadLetter → Text → DeadLetter
appended d bytes = record d { is_open = true; current = some (contents d.current ++ bytes) }

-- The write to the open file.
unfoldable pub append_line : Attempt → DeadLetter → Written
append_line io d = elim io.line [
  | none ↦ record { fault = some not_marshalled; state = appended d [] }
  | some line ↦ elim io.cut [
    | some n ↦ record { fault = some not_written; state = appended d (take n line) }
    | none ↦ record { fault = none; state = appended d line }
  ]
]

-- The part of `Write` behind the rotation.
unfoldable pub write_rotated : Attempt → DeadLetter → Written
write_rotated io d =
    let result = append_line io d in
    if d.is_open
    then result
    else if io.opened
    then result
    else record { fault = some not_opened; state = d }

-- `Write`
unfoldable pub write_entry : Attempt → DeadLetter → Written
write_entry io d =
    let rotation = check_rotate io d in
    elim rotation.fault [ some e ↦ rotation | none ↦ write_rotated io rotation.state ]

-- `Close`
unfoldable pub close : DeadLetter → DeadLetter
close d = closed d

-- The faults of a series of writes, and the handler behind it.
unfoldable pub write_all_entries :
    List Attempt → DeadLetter → List (Option DeadLetterFault) × DeadLetter
write_all_entries [] d = ([], d)
write_all_entries (io ∷ ios) d =
    let w = write_entry io d in
    let (faults, state) = write_all_entries ios w.state in (w.fault ∷ faults, state)
