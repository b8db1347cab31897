-- ===== src/Siem/Output/Close/Laws.antt =====
-- Whose errors Close reports (pkg/siem/output.go).
use basecheck_agent.Prelude.{
  ◌≡◌, ◌↔◌, ◌⊎◌, ◌∙◌, refl, sym, ap, Option, none, some, List, Option-cases, inl, inr,
}
use basecheck_agent.Siem.Fault.{Fault}
use basecheck_agent.Siem.Queue.Store.{Codec, File}
use basecheck_agent.Siem.Dedup.{DedupEntry, Deduplicator}
use basecheck_agent.Siem.Dedup.Store.{DedupEnv, close, persist_change}
use basecheck_agent.Siem.Dedup.Contract.{IsSound}
use basecheck_agent.Siem.Output.{Output, OutputFlushed, with_step, flush_output}
use basecheck_agent.Siem.Output.Close.{
  CloseEnv, Closed, first_error, close_dedup, close_components, close_output,
}

close_iff :
    (env : DedupEnv) (d : Deduplicator) (file : List DedupEntry)
    → ((close env d file).result ≡ none) ↔ IsSound env
unfolding close persist_change
close_iff env d file = elim (Option-cases env.lock) [
  | inr (e, l) ↦ rw (l, close, persist_change) (λ h. cc, λ h. cc)
  | inl l ↦ elim (Option-cases env.read) [
    | inr (e, r) ↦ rw (l, r, close, persist_change) (λ h. cc, λ h. cc)
    | inl r ↦ elim (Option-cases env.write) [
      | inr (e, w) ↦ rw (l, r, w, close, persist_change) (λ h. cc, λ h. cc)
      | inl w ↦ rw (l, r, w, close, persist_change) (λ h. (refl, refl, refl), λ h. refl)
    ]
  ]
]

-- The deduplicator, if there is one, writes its file, and the others close without an error.
abbrev pub ClosesWell : CloseEnv → Output → Type 0
ClosesWell env o =
    ((o.dedup ≡ none) ⊎ IsSound env.persisting)
    × ((env.dead_letter ≡ none) × (env.destination ≡ none))

close_dedup-none : (env : DedupEnv) (o : Output) → o.dedup ≡ none → close_dedup env o ≡ (o, none)
unfolding close_dedup
close_dedup-none env o h = simp (h, close_dedup)

close_dedup-some :
    (env : DedupEnv) (o : Output) (d : Deduplicator)
    → o.dedup ≡ some d
    → close_dedup env o
      ≡ (with_step o (close env d o.dedup_file), (close env d o.dedup_file).result)
unfolding close_dedup
close_dedup-some env o d h = simp (h, close_dedup)

close_dedup_iff :
    (env : DedupEnv) (o : Output)
    → ((close_dedup env o).1 ≡ none) ↔ ((o.dedup ≡ none) ⊎ IsSound env)
close_dedup_iff env o = elim (Option-cases o.dedup) [
  | inl off ↦
      (λ _. inl off, λ _. ap (λ (p : Output × Option Fault). p.1) (close_dedup-none env o off))
  | inr (d, on) ↦
      let same = ap (λ (p : Output × Option Fault). p.1) (close_dedup-some env o d on) in
      let (sound, fine) = close_iff env d o.dedup_file in
      (
        λ h. inr (sound (sym same ∙ h)),
        λ h. elim h [ inl off ↦ absurd (cc) | inr calm ↦ same ∙ fine calm ],
      )
]

first_error_iff :
    (a b c : Option Fault) → (first_error a b c ≡ none) ↔ ((a ≡ none) × ((b ≡ none) × (c ≡ none)))
unfolding first_error
first_error_iff (some e) b c = (λ h. cc, λ h. cc)
first_error_iff none (some e) c = (λ h. cc, λ h. cc)
first_error_iff none none (some e) = (λ h. cc, λ h. cc)
first_error_iff none none none = (λ h. (refl, (refl, refl)), λ h. refl)

close_dedup-queue_file :
    (env : DedupEnv) (o : Output) → (close_dedup env o).0.queue_file ≡ o.queue_file
close_dedup-queue_file env o = elim (Option-cases o.dedup) [
  | inl off ↦ ap (λ (p : Output × Option Fault). p.0.queue_file) (close_dedup-none env o off)
  | inr (d, on) ↦ ap (λ (p : Output × Option Fault). p.0.queue_file) (close_dedup-some env o d on)
]

-- Close reports an error exactly if the deduplicator cannot write its file, or the dead-letter file or
-- the destination fails to close. The error of its final flush makes no difference, and what that
-- flush has left in the queue's file stays there.
pub close_output_iff :
    (c : Codec) (env : CloseEnv) (o : Output) (meanwhile : File → File) (f : OutputFlushed)
    → flush_output c env.flushing o meanwhile ≡ some f
    → (r : Closed) × (close_output c env o meanwhile ≡ some r)
      × (r.output.queue_file ≡ f.output.queue_file)
      × ((r.error ≡ none) ↔ ClosesWell env f.output)
unfolding close_output close_components
close_output_iff c env o meanwhile f flushed =
    let (split, join) =
      first_error_iff (close_dedup env.persisting f.output).1 env.dead_letter env.destination in
    let (open_, close_) = close_dedup_iff env.persisting f.output in
    (
      close_components env f.output,
      rw (flushed, close_output) refl,
      close_dedup-queue_file env.persisting f.output,
      (λ h. let (dedup, others) = split h in (open_ dedup, others), λ h. join (close_ h.0, h.1)),
    )
