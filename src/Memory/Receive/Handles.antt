-- ===== src/Memory/Receive/Handles.antt =====
-- About the loops of `receive_messages` in storage/memory.rs: the handles under which the loop over
-- the chosen messages puts them in flight.
use mathlib.Core.List.Perm
use mathlib.Core.List.{Perm, perm_middle, perm-append_left_iff}
use lclq.Common.{
  ℕ, ◌+◌, ◌++◌, String, ◌≡◌, ◌≢◌, refl, sym, ◌∙◌, inl, inr, List, [], ◌∷◌, none, some, length,
  arith, Option-cases, eq_iff,
}
use lclq.Common.Predicates.{All, All-imp}
use lclq.Common.HashMap
use lclq.Common.HashMap.{HashMap, get-insert, length-insert_new}
use lclq.Types.{DateTime, QueueConfig}
use lclq.Storage.{ReceivedMessage}
use lclq.Receipt.{ReceiptCodec, generate_receipt_handle}
use lclq.Receipt.Authentic.{generate_receipt_handle_inj}
use lclq.Memory.State.{InFlightMessage}
use lclq.Memory.Receive.Selection.{Indexed}
use lclq.Memory.Receive.Indices.{Apart}
use lclq.Memory.Receive.Removal.{deliver}
use lclq.Memory.Receive.Delivery.{results, handed_out_as, dead_letter_as}
use lclq.Memory.Receive.Contents.{taken_contents, gone, take_message-Perm}
use lclq.Memory.Receive.{dlq_target, Taking, delivered, take_message}

-- The entry that a message handed out has in the map.
abbrev pub IsTracked : DateTime → HashMap InFlightMessage → ReceivedMessage → Type 0
IsTracked expires m rm =
    HashMap.get rm.receipt_handle m
    ≡ some (record { message = rm.message; visibility_expires_at = expires })

module _ (codec : ReceiptCodec) (queue_id : String) (config : QueueConfig) (nonce : ℕ → String)
    (expires : DateTime) where
  pub length-results :
      (xs : List Indexed)
      → length (results (handed_out_as codec queue_id config nonce) xs)
          + length (results (dead_letter_as codec queue_id config nonce) xs)
        ≡ length xs
  length-results [] = refl
  length-results (x ∷ xs) = ground (arith, length-results xs)

  abbrev pub handle_of : Indexed → String
  handle_of (i, m) = generate_receipt_handle codec queue_id (m.message).id (nonce i)

  abbrev go : Taking → List Indexed → Taking
  go = deliver codec queue_id config expires nonce

  abbrev take_one : Taking → Indexed → Taking
  take_one t (i, m) = take_message codec queue_id config expires (nonce i) (delivered m) t

  -- A delivery touches no other handle.
  take_one_ne :
      (t : Taking) (e : Indexed) (h : String)
      → handle_of e ≢ h
      → HashMap.get h (take_one t e).in_flight ≡ HashMap.get h t.in_flight
  unfolding take_message
  take_one_ne t (i, m) h ne = ground (
    arith,
    eq_iff (handle_of (i, m)) h,
    get-insert (handle_of (i, m)) h
        (record { message = delivered m; visibility_expires_at = expires }) t.in_flight,
  )

  deliver_ne :
      (t : Taking) (xs : List Indexed) (h : String)
      → All (λ e. handle_of e ≢ h) xs
      → HashMap.get h (go t xs).in_flight ≡ HashMap.get h t.in_flight
  unfolding deliver
  deliver_ne t [] h a = refl
  deliver_ne t (e ∷ xs) h a = deliver_ne (take_one t e) xs h a.1 ∙ take_one_ne t e h a.0

  module _ (distinct : (i j : ℕ) → nonce i ≡ nonce j → i ≡ j) where
    handles_ne : (e e' : Indexed) → e.0 ≢ e'.0 → handle_of e' ≢ handle_of e
    handles_ne e e' ne p =
        ne (distinct e.0 e'.0 (sym (generate_receipt_handle_inj codec _ _ _ _ _ _ p)))

    abbrev entry_of : Indexed → InFlightMessage
    entry_of (i, m) = record { message = delivered m; visibility_expires_at = expires }

    take_one-get :
        (t : Taking) (e : Indexed)
        → dlq_target config (delivered e.1) ≡ none
        → HashMap.get (handle_of e) (take_one t e).in_flight ≡ some (entry_of e)
    unfolding take_message
    take_one-get t (i, m) h = rw (h, take_message) (HashMap.get-insert_self _ _ _)

    deliver-get_head :
        (t : Taking) (e : Indexed) (xs : List Indexed)
        → Apart (e ∷ xs)
        → dlq_target config (delivered e.1) ≡ none
        → HashMap.get (handle_of e) (go (take_one t e) xs).in_flight ≡ some (entry_of e)
    deliver-get_head t e xs a h =
        deliver_ne (take_one t e) xs (handle_of e)
          (All-imp (λ e'. e.0 ≢ e'.0) _ (handles_ne e) xs a.0)
        ∙ take_one-get t e h

    abbrev handed : List Indexed → List ReceivedMessage
    handed = results (handed_out_as codec queue_id config nonce)

    handed-cons_none :
        (e : Indexed) (xs : List Indexed)
        → dlq_target config (delivered e.1) ≡ none
        → handed (e ∷ xs)
          ≡ (record { message = delivered e.1; receipt_handle = handle_of e }) ∷ handed xs
    handed-cons_none (i, m) xs h = ground arith

    handed-cons_some :
        (e : Indexed) (xs : List Indexed) (target : String)
        → dlq_target config (delivered e.1) ≡ some target
        → handed (e ∷ xs) ≡ handed xs
    handed-cons_some (i, m) xs target h = ground arith

    pub deliver-IsTracked :
        (t : Taking) (xs : List Indexed)
        → Apart xs
        → All (IsTracked expires (go t xs).in_flight) (handed xs)
    unfolding deliver
    deliver-IsTracked t [] a = tt
    deliver-IsTracked t (e ∷ xs) a =
        let rest = deliver-IsTracked (take_one t e) xs a.1 in
        elim (Option-cases (dlq_target config (delivered e.1))) [
          | inl kept ↦ rw (handed-cons_none e xs kept) (deliver-get_head t e xs a kept, rest)
          | inr (target, moved) ↦ rw (handed-cons_some e xs target moved) rest
        ]

    -- Handles that are not in the map yet.
    abbrev pub Unused : Taking → List Indexed → Type 0
    Unused t = All (λ e. HashMap.get (handle_of e) t.in_flight ≡ none)

    Unused-take_one :
        (t : Taking) (e : Indexed) (xs : List Indexed)
        → Apart (e ∷ xs)
        → Unused t xs
        → Unused (take_one t e) xs
    Unused-take_one t e [] a u = tt
    Unused-take_one t e (x ∷ xs) a u = (
      take_one_ne t e (handle_of x) (λ p. handles_ne e x a.0.0 (sym p)) ∙ u.0,
      Unused-take_one t e xs (a.0.1, a.1.1) u.1,
    )

    pub deliver-Perm :
        (t : Taking) (xs : List Indexed)
        → Apart xs
        → Unused t xs
        → Perm (gone (go t xs)) (taken_contents xs ++ gone t)
    unfolding deliver
    deliver-Perm t [] a u = Perm.refl _
    deliver-Perm t (e ∷ xs) a u =
        Perm.trans (deliver-Perm (take_one t e) xs a.1 (Unused-take_one t e xs a u.1)) (
          Perm.trans
            ((perm-append_left_iff (taken_contents xs)).1
              (take_message-Perm codec queue_id config expires (nonce e.0) e.1 t u.0))
            (perm_middle (taken_contents xs) (gone t)))

    take_one-length :
        (t : Taking) (e : Indexed)
        → HashMap.get (handle_of e) t.in_flight ≡ none
        → length (take_one t e).in_flight ≡ length t.in_flight + length (handed (e ∷ []))
    unfolding take_message
    take_one-length t (i, m) u =
        ground (arith, length-insert_new (handle_of (i, m)) (entry_of (i, m)) t.in_flight)

    length-handed_cons :
        (e : Indexed) (xs : List Indexed)
        → length (handed (e ∷ xs)) ≡ length (handed (e ∷ [])) + length (handed xs)
    length-handed_cons e xs = ground arith

    pub deliver-length :
        (t : Taking) (xs : List Indexed)
        → Apart xs
        → Unused t xs
        → length (go t xs).in_flight ≡ length t.in_flight + length (handed xs)
    unfolding deliver
    deliver-length t [] a u = omega arith
    deliver-length t (e ∷ xs) a u = omega (
      arith,
      deliver-length (take_one t e) xs a.1 (Unused-take_one t e xs a u.1),
      take_one-length t e u.0,
      length-handed_cons e xs,
    )
