-- ===== src/Server/Order/Flush.antt =====
-- What the loop of apply_completion in src/server/server.cpp does to the output.
use distributed_data_store.Prelude.{
  ℕ, zero, suc, ◌-◌, ◌≡◌, refl, Bool, true, ◌||◌, Option, none, some, List, [], ◌∷◌, Bytes, length,
  ltb, Bool-cases, inl, inr, ◌⊎◌,
}
use distributed_data_store.Server.Connection.{Connection}
use distributed_data_store.Server.Loop.{
  find_response, erase_response, overflow, replied, flush_responses,
}
use distributed_data_store.Server.Order.Added.{==_refl}

-- What the loop of apply_completion changes: a connection that was given up stays so.
pub record Flushed (c d : Connection) : Type 0 where
  pub output : Bytes
  pub pending : List (ℕ × Bytes)
  pub next : ℕ
  pub closing : Bool
  pub read_closed : Bool
  pub same : d ≡ record c {
    output = output;
    pending_responses = pending;
    next_response_seq = next;
    closing = closing;
    read_closed = read_closed;
  }
  pub still : c.closing ≡ true → closing ≡ true

same-Flushed : (c : Connection) → Flushed c c
same-Flushed c = record {
  output = c.output;
  pending = c.pending_responses;
  next = c.next_response_seq;
  closing = c.closing;
  read_closed = c.read_closed;
  same = refl;
  still = λ h. h;
}

overflow-Flushed : (c : Connection) → Flushed c (overflow c)
unfolding overflow
overflow-Flushed c = record {
  output = c.output;
  pending = [];
  next = c.next_response_seq;
  closing = true;
  read_closed = true;
  same = refl;
  still = λ h. refl;
}

replied-Flushed : (payload : Bytes) (c d : Connection) → Flushed (replied payload c) d → Flushed c d
replied-Flushed payload c d f = record {
  output = f.output;
  pending = f.pending;
  next = f.next;
  closing = f.closing;
  read_closed = f.read_closed;
  same = f.same;
  still = f.still;
}

Option-cases {ℓ} : {A : Type ℓ} (x : Option A) → (x ≡ none) ⊎ ((a : A) × (x ≡ some a))
Option-cases none = inl refl
Option-cases (some a) = inr (a, refl)

pub flush_responses-Flushed :
    (fuel limit : ℕ) (c : Connection) → Flushed c (flush_responses fuel limit c)
unfolding flush_responses
flush_responses-Flushed zero limit c = same-Flushed c
flush_responses-Flushed (suc fuel) limit c =
    elim (Option-cases (find_response c.next_response_seq c.pending_responses)) [
      | inl nothing ↦ rw (flush_responses, nothing) (same-Flushed c)
      | inr (payload, found) ↦
          elim (Bool-cases
            (ltb limit (length c.output) || ltb (limit - length c.output) (length payload))) [
              | inl large ↦ rw (flush_responses, found, large) (overflow-Flushed c)
              | inr small ↦
                  rw (flush_responses, found, small)
                    (replied-Flushed payload c (flush_responses fuel limit (replied payload c))
                      (flush_responses-Flushed fuel limit (replied payload c)))
            ]
    ]

flush_responses-none :
    (fuel limit : ℕ) (c : Connection)
    → find_response c.next_response_seq c.pending_responses ≡ none
    → flush_responses fuel limit c ≡ c
unfolding flush_responses
flush_responses-none zero limit c nothing = refl
flush_responses-none (suc fuel) limit c nothing = rw (flush_responses, nothing) refl

-- With one reply that is next, the loop appends it or gives the connection up.
pub flush_responses-next :
    (fuel limit : ℕ) (payload : Bytes) (c : Connection)
    → c.pending_responses ≡ (c.next_response_seq, payload) ∷ []
    → (flush_responses (suc fuel) limit c ≡ overflow c)
      ⊎ (flush_responses (suc fuel) limit c ≡ replied payload c)
unfolding flush_responses find_response erase_response
flush_responses-next fuel limit payload c one =
    let equal = ==_refl c.next_response_seq in
    let found : find_response c.next_response_seq c.pending_responses ≡ some payload =
      rw (one, equal) refl in
    let left : erase_response c.next_response_seq c.pending_responses ≡ [] = rw (one, equal) refl in
    elim (Bool-cases
      (ltb limit (length c.output) || ltb (limit - length c.output) (length payload))) [
        | inl large ↦ inl (rw (flush_responses, found, large) refl)
        | inr small ↦ inr (
            rw (flush_responses, found, small)
              (flush_responses-none fuel limit (replied payload c) (rw left refl)))
      ]
