-- ===== src/Output/Examples.antt =====
-- The theorems about pending results applied to concrete files.
use basecheck_agent.Prelude.{ℕ, ◌≡◌, ◌≢◌, ap, refl, true, false, [], ◌∷◌, arith}
use basecheck_agent.Text.{Text, text, text_eq, text_ltb, drop_prefix, trim_left, trim_right}
use basecheck_agent.Text.Order.{sort_by, insert_by, keys_ltb}
use basecheck_agent.Config.Validation.{is_insecure_url}
use basecheck_agent.Output.Pending.{
  PendingFile, Disk, Posted, not_made, no_answer, answered, write_to_http, Upload, upload_pending,
  queue_result, upload_from, upload_file, ensure_queue_capacity,
}
use basecheck_agent.Output.Pending.Laws.{IsKept, write_to_http-IsKept}
use basecheck_agent.Output.Pending.Draining.{IsDrained, upload_pending-IsDrained}

abbrev named : Text → PendingFile
named name = record { name = name; content = text "{}" }

abbrev older : PendingFile
older = named (text "audit-1.json")

abbrev newer : PendingFile
newer = named (text "audit-2.json")

abbrev working : Disk
working = record { has_directory = true; inspected = true; written = true; renamed = true }

abbrev url : Text
url = text "https://b"

-- The backend finds a file too large.
abbrev picky : Upload
picky = record { readable = λ f. true; posted = λ f. answered 413; deleted = λ f. true }

abbrev status_of : Posted → ℕ
status_of not_made = 0
status_of no_answer = 0
status_of (answered status) = status

abbrev willing : Upload
willing = record { readable = λ f. true; posted = λ f. answered 200; deleted = λ f. true }

-- Of both files that are taken none is left.
emptied : (upload_pending url false willing (newer ∷ older ∷ [])).removed ≡ older ∷ newer ∷ []
unfolding upload_pending upload_from upload_file is_insecure_url sort_by insert_by keys_ltb
    trim_left trim_right drop_prefix text_eq text_ltb
emptied = refl

-- A refused result joins the one that waits.
joined :
    (write_to_http url false false (answered 503) working newer (older ∷ [])).files
    ≡ newer ∷ older ∷ []
unfolding write_to_http queue_result ensure_queue_capacity is_insecure_url trim_left trim_right
    drop_prefix text_eq text_ltb
joined = refl

in_order : sort_by (λ (f : PendingFile). f.name ∷ []) (newer ∷ older ∷ []) ≡ older ∷ newer ∷ []
unfolding sort_by insert_by keys_ltb text_eq text_ltb
in_order = refl

write_to_http-IsKept_example :
    IsKept
      (answered 503)
      newer
      (older ∷ [])
      (write_to_http url false false (answered 503) working newer (older ∷ []))
write_to_http-IsKept_example =
    write_to_http-IsKept url false false (answered 503) working newer (older ∷ [])
      (omega arith, omega arith)

upload_pending-IsDrained_example :
    IsDrained willing (newer ∷ older ∷ []) (upload_pending url false willing (newer ∷ older ∷ []))
upload_pending-IsDrained_example = upload_pending-IsDrained url false willing (newer ∷ older ∷ [])

refused : picky.posted older ≢ answered 200
refused e = let codes : 413 ≡ 200 = ap status_of e in omega (arith, codes)
