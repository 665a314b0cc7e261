-- ===== src/Sqs/Handler/Batches/Answers.antt =====
-- About the batches of sqs/handler.rs: the entries of an answer.
use Prim.Native.String.{len}
use mathlib.Core.Path.{subst}
use mathlib.Core.List.Perm
use mathlib.Core.List.{Perm, perm_middle}
use lclq.Common.{ℕ, suc, String, ◌≡◌, refl, inl, inr, List, [], ◌∷◌, ◌++◌, map, ltb, Bool-cases}
use lclq.Error.{Result, ok, err}
use lclq.Sqs.Handler.{Outside, Readings}
use lclq.Sqs.Handler.Batches.{
  Outcome, successful, failed, push_outcome, process, sent_entry, send_entry, handled, delete_entry,
  change_entry, too_long, timeout_refused,
}
use lclq.Sqs.Request.Batch.{
  SendMessageBatchEntry, DeleteMessageBatchEntry, ChangeVisibilityBatchEntry,
}
use lclq.Sqs.Response.Lists.{BatchErrorEntry}
use lclq.Storage.{StorageBackend}
use lclq.Types.{Message}
use lclq.Validation.{sqs_max_message_size}

-- The IDs of an answer, of its successful entries first.
abbrev pub answered_ids {ℓ} :
    {R : Type ℓ} → (R → String) → List R × List BatchErrorEntry → List String
answered_ids id_of (rs, es) = map id_of rs ++ map (λ e. e.id) es

abbrev outcome_id {ℓ} : {R : Type ℓ} → (R → String) → Outcome R → String
outcome_id id_of (successful r) = id_of r
outcome_id id_of (failed e) = e.id

push_outcome-Perm {ℓ} :
    {R : Type ℓ} (id_of : R → String) (outcome : Outcome R) (lists : List R × List BatchErrorEntry)
    (ids : List String)
    → Perm (answered_ids id_of lists) ids
    → Perm (answered_ids id_of (push_outcome outcome lists)) (outcome_id id_of outcome ∷ ids)
push_outcome-Perm id_of (successful r) (rs, es) ids p = Perm.cons (id_of r) p
push_outcome-Perm id_of (failed e) (rs, es) ids p =
    Perm.trans (perm_middle (map id_of rs) (map (λ x. x.id) es)) (Perm.cons e.id p)

process-Perm {ℓ κ μ} :
    {Entry : Type ℓ} {R : Type κ} {State : Type μ} (id_of : R → String) (entry_id : Entry → String)
    (one : ℕ → Entry → State → Outcome R × State)
    → ((k : ℕ) (entry : Entry) (s : State) → outcome_id id_of ((one k entry s).0) ≡ entry_id entry)
    → (k : ℕ) (entries : List Entry) (s : State)
    → Perm (answered_ids id_of ((process one k entries s).0)) (map entry_id entries)
unfolding process
process-Perm id_of entry_id one h k [] s = Perm.refl _
process-Perm id_of entry_id one h k (entry ∷ rest) s =
    subst
      (λ i.
        Perm
          (answered_ids id_of
            (push_outcome ((one k entry s).0) ((process one (suc k) rest ((one k entry s).1)).0)))
          (i ∷ map entry_id rest))
      (h k entry s)
      (push_outcome-Perm id_of ((one k entry s).0) _ (map entry_id rest)
        (process-Perm id_of entry_id one h (suc k) rest ((one k entry s).1)))

module _ {State : Type 0} (backend : StorageBackend State) (outside : Outside)
    (readings : Readings) where
  sent_entry-id :
      (entry : SendMessageBatchEntry) (x : Result Message × State)
      → outcome_id (λ r. r.id) ((sent_entry backend outside readings entry x).0) ≡ entry.id
  unfolding sent_entry
  sent_entry-id entry (ok m, s) = refl
  sent_entry-id entry (err e, s) = refl

  send_entry-id :
      (queue_name : String) (k : ℕ) (entry : SendMessageBatchEntry) (s : State)
      → outcome_id (λ r. r.id) ((send_entry backend outside readings queue_name k entry s).0)
        ≡ entry.id
  unfolding send_entry too_long
  send_entry-id queue_name k entry s =
      elim (Bool-cases (ltb sqs_max_message_size (len entry.message_body))) [
        | inl t ↦ rw (send_entry, t) refl
        | inr t ↦ rw (send_entry, t) (sent_entry-id entry _)
      ]

  handled-id :
      (entry_id : String) (x : Result (Unit {0}) × State)
      → outcome_id (λ i. i) ((handled backend outside readings entry_id x).0) ≡ entry_id
  unfolding handled
  handled-id entry_id (ok _, s) = refl
  handled-id entry_id (err e, s) = refl

  delete_entry-id :
      (queue_name : String) (k : ℕ) (entry : DeleteMessageBatchEntry) (s : State)
      → outcome_id (λ i. i) ((delete_entry backend outside readings queue_name k entry s).0)
        ≡ entry.id
  unfolding delete_entry
  delete_entry-id queue_name k entry s = handled-id entry.id _

  change_entry-id :
      (queue_name : String) (k : ℕ) (entry : ChangeVisibilityBatchEntry) (s : State)
      → outcome_id (λ i. i) ((change_entry backend outside readings queue_name k entry s).0)
        ≡ entry.id
  unfolding change_entry timeout_refused
  change_entry-id queue_name k entry s = elim (Bool-cases (ltb 43200 entry.visibility_timeout)) [
    | inl t ↦ rw (change_entry, t) refl
    | inr t ↦ rw (change_entry, t) (handled-id entry.id _)
  ]

  -- The batches of sends, deletions and changes of visibility answer each entry once: the IDs of
  -- the successful and of the failed entries are together those of the request.
  pub process-answers :
      (queue_name : String) (s : State) (sends : List SendMessageBatchEntry)
      (deletes : List DeleteMessageBatchEntry) (changes : List ChangeVisibilityBatchEntry)
      → Perm
          (answered_ids
            (λ r. r.id)
            ((process (send_entry backend outside readings queue_name) 0 sends s).0))
          (map (λ entry. entry.id) sends)
        × Perm
            (answered_ids
              (λ i. i)
              ((process (delete_entry backend outside readings queue_name) 0 deletes s).0))
            (map (λ entry. entry.id) deletes)
        × Perm
            (answered_ids
              (λ i. i)
              ((process (change_entry backend outside readings queue_name) 0 changes s).0))
            (map (λ entry. entry.id) changes)
  process-answers queue_name s sends deletes changes = (
    process-Perm _ _ _ (send_entry-id queue_name) 0 sends s,
    process-Perm _ _ _ (delete_entry-id queue_name) 0 deletes s,
    process-Perm _ _ _ (change_entry-id queue_name) 0 changes s,
  )
