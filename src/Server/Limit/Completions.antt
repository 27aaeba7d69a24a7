-- ===== src/Server/Limit/Completions.antt =====
-- Applying completions, and the number of connections.
use distributed_data_store.Prelude.{
  ℕ, zero, suc, ◌≤◌, ◌≡◌, refl, Option, none, some, ◌⊎◌, List, [], ◌∷◌, length, ◌==◌, Bool-cases,
  inl, inr, arith, ap,
}
use distributed_data_store.Store.{Platform}
use distributed_data_store.Persistence.Result.{Result, ok}
use distributed_data_store.Commands.Registry.{Outside}
use distributed_data_store.Server.Connection.{Connection, Completion, Shared}
use distributed_data_store.Server.Traffic.{update_interest}
use distributed_data_store.Server.Loop.{
  Connections, Server, find_fd, put_fd, erase_fd, find_id, close_connection, is_done, put_back,
  complete_on, close_or_update, apply_completion, apply_all, drain_loop,
}
use distributed_data_store.Server.Round.{for_fd}
use distributed_data_store.Server.Order.{Ensures, bind-Ensures}
use distributed_data_store.Server.Limit.{
  HasLimit, KeepsLimit, update_interest-KeepsLimit, complete_on-KeepsLimit,
}

-- The limit is m, and at most m connections are open.
pub record IsLimited (m : ℕ) (s : Server) : Type 0 where
  pub limit : HasLimit m s.shared
  pub few : length s.connections ≤ m

put_fd-length : (fd : ℕ) (c : Connection) (cs : Connections) → length (put_fd fd c cs) ≡ length cs
unfolding put_fd
put_fd-length fd c [] = refl
put_fd-length fd c ((other, d) ∷ rest) = elim (Bool-cases (other == fd)) [
  | inl own ↦ rw own refl
  | inr away ↦ rw away (ap (λ (n : ℕ). suc n) (put_fd-length fd c rest))
]

erase_fd-length : (fd : ℕ) (cs : Connections) → length (erase_fd fd cs) ≤ length cs
unfolding erase_fd
erase_fd-length fd [] = omega arith
erase_fd-length fd ((other, d) ∷ rest) = elim (Bool-cases (other == fd)) [
  | inl own ↦ rw own (omega arith)
  | inr away ↦ rw away (omega (arith, erase_fd-length fd rest))
]

pub Option-cases {ℓ} : {A : Type ℓ} (x : Option A) → (x ≡ none) ⊎ ((a : A) × (x ≡ some a))
Option-cases none = inl refl
Option-cases (some a) = inr (a, refl)

pub List-cases {ℓ} :
    {A : Type ℓ} (xs : List A) → (xs ≡ []) ⊎ ((x : A) × (rest : List A) × (xs ≡ x ∷ rest))
List-cases [] = inl refl
List-cases (x ∷ rest) = inr (x, rest, refl)

pub put_back-IsLimited :
    (m fd : ℕ) (s : Server) (c : Connection) (sh : Shared)
    → IsLimited m s
    → HasLimit m sh
    → IsLimited m (put_back fd s (c, sh))
put_back-IsLimited m fd s c sh limited h = record {
  limit = h;
  few = omega (arith, put_fd-length fd c s.connections, limited.few);
}

pub close_connection-IsLimited :
    (m fd : ℕ) (s : Server) → IsLimited m s → IsLimited m (close_connection fd s)
unfolding close_connection
close_connection-IsLimited m fd s limited = elim (Option-cases (find_fd fd s.connections)) [
  | inl none_there ↦ rw (close_connection, none_there) limited
  | inr (c, found) ↦
      rw (close_connection, found)
        (record {
          limit = limited.limit;
          few = omega (arith, erase_fd-length fd s.connections, limited.few);
        })
]

pub for_fd-IsLimited :
    (m fd : ℕ) (f : Connection → Shared → Result Server) (s : Server)
    → ((c : Connection) → Ensures (IsLimited m) (f c s.shared))
    → IsLimited m s
    → Ensures (IsLimited m) (for_fd fd f s)
unfolding for_fd
for_fd-IsLimited m fd f s kept limited = elim (Option-cases (find_fd fd s.connections)) [
  | inl none_there ↦ rw (Ensures, for_fd, none_there) limited
  | inr (c, found) ↦ rw (for_fd, found) (kept c)
]

module _ (platform : Platform) (outside : ℕ → Outside) (m : ℕ) where
  pub close_or_update-IsLimited :
      (fd : ℕ) (s : Server) (c : Connection) (sh : Shared)
      → IsLimited m s
      → HasLimit m sh
      → Ensures (IsLimited m) (close_or_update platform outside fd s (c, sh))
  unfolding close_or_update
  close_or_update-IsLimited fd s c sh limited h = elim (Bool-cases (is_done c)) [
    | inl done ↦
        rw (Ensures, done)
          (close_connection-IsLimited m fd (put_back fd s (c, sh))
            (put_back-IsLimited m fd s c sh limited h))
    | inr going ↦
        rw (Ensures, going)
          (bind-Ensures (KeepsLimit m) (IsLimited m) (update_interest platform outside c sh)
            (λ r. ok (put_back fd s r)) (update_interest-KeepsLimit platform outside m c sh h)
            (λ (d, sh') k. put_back-IsLimited m fd s d sh' limited k))
  ]

  apply_completion-IsLimited :
      (completion : Completion) (s : Server)
      → IsLimited m s
      → Ensures (IsLimited m) (apply_completion platform outside completion s)
  unfolding apply_completion
  apply_completion-IsLimited completion s limited =
      elim (Option-cases (find_id completion.connection_id s.connections)) [
        | inl none_there ↦ rw (Ensures, apply_completion, none_there) limited
        | inr ((fd, c), found) ↦
            rw (apply_completion, found)
              (bind-Ensures (KeepsLimit m) (IsLimited m)
                (complete_on platform outside completion c s.shared)
                (close_or_update platform outside fd s)
                (complete_on-KeepsLimit platform outside m completion c s.shared limited.limit)
                (λ (d, sh') k. close_or_update-IsLimited fd s d sh' limited k))
      ]

  apply_all-IsLimited :
      (completions : List Completion) (s : Server)
      → IsLimited m s
      → Ensures (IsLimited m) (apply_all platform outside completions s)
  unfolding apply_all
  apply_all-IsLimited [] s limited = limited
  apply_all-IsLimited (completion ∷ rest) s limited =
      bind-Ensures (IsLimited m) (IsLimited m) (apply_completion platform outside completion s)
        (apply_all platform outside rest) (apply_completion-IsLimited completion s limited)
        (λ s' k. apply_all-IsLimited rest s' k)

  pub drain_loop-IsLimited :
      (fuel : ℕ) (s : Server)
      → IsLimited m s
      → Ensures (IsLimited m) (drain_loop platform outside fuel s)
  unfolding drain_loop
  drain_loop-IsLimited zero s limited = limited
  drain_loop-IsLimited (suc fuel) s limited = elim (List-cases s.shared.completions) [
    | inl e ↦ rw (Ensures, drain_loop, e) limited
    | inr (completion, rest, e) ↦
        let s' : Server = record s { shared = record s.shared { completions = [] } } in
        rw (drain_loop, e)
          (bind-Ensures (IsLimited m) (IsLimited m)
            (apply_all platform outside (completion ∷ rest) s') (drain_loop platform outside fuel)
            (apply_all-IsLimited (completion ∷ rest) s'
              (record { limit = limited.limit; few = limited.few }))
            (λ u k. drain_loop-IsLimited fuel u k))
  ]
