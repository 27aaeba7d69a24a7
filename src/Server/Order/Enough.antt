-- ===== src/Server/Order/Enough.antt =====
-- The loop of queue_parsed_commands in src/server/server.cpp, and its bound.
use distributed_data_store.Prelude.{
  ℕ, zero, suc, ◌<◌, ◌≡◌, refl, sym, ap, subst, Bool, true, ◌&&◌, List, [], ◌∷◌, length, ltb,
  if◌then◌else◌, arith, Bool-cases, inl, inr,
}
use distributed_data_store.Store.{Platform}
use distributed_data_store.Protocol.RespValue.{RespValue}
use distributed_data_store.Protocol.Parser.{next}
use distributed_data_store.Persistence.Result.{Result, ok, err, bind}
use distributed_data_store.Commands.Registry.{Outside}
use distributed_data_store.Util.ThreadPool.{try_submit}
use distributed_data_store.Server.Connection.{
  QueuedCommand, Connection, Job, Shared, parsed_request, queue_saturated, submit_or_run,
  launch_front, launch_strand, queued, enqueue_command, queue_parsed, queue_parsed_commands,
}
use distributed_data_store.Server.Order.{Ensures, bind-Ensures}
use distributed_data_store.Server.Order.Parsing.{parsed_request-shrunk, Parsed-cases, next-Shrinks}

Parses : Connection → Connection × Shared → Type 0
Parses c (d, sh) = d.parser ≡ c.parser

bind-cong {ℓ κ} :
    {A : Type ℓ} {B : Type κ} (P : A → Type 0) (m : Result A) (f g : A → Result B)
    → Ensures P m
    → ((a : A) → P a → f a ≡ g a)
    → bind m f ≡ bind m g
bind-cong P (ok a) f g h same = same a h
bind-cong P (err e) f g h same = refl

-- No condition.
Anything : Shared → Type 0
Anything sh = Unit

anything : (r : Result Shared) → Ensures Anything r
unfolding Anything
anything (ok sh) = tt
anything (err e) = tt

module _ (platform : Platform) (outside : ℕ → Outside) where
  launch_front-parser :
      (queue : List QueuedCommand) (c : Connection) (sh : Shared)
      → Ensures (Parses c) (launch_front platform outside queue c sh)
  unfolding launch_front Parses
  launch_front-parser [] c sh = refl
  launch_front-parser (item ∷ queue) c sh =
      let job : Job = record { connection_id = c.connection_id; item = item } in
      bind-Ensures Anything (Parses c)
        (submit_or_run platform outside job (try_submit job sh.pool) sh)
        (λ sh'. ok (record c { command_queue = queue; strand_running = true }, sh'))
        (anything (submit_or_run platform outside job (try_submit job sh.pool) sh)) (λ sh' u. refl)

  enqueue_command-parser :
      (request : RespValue) (c : Connection) (sh : Shared)
      → Ensures (Parses c) (enqueue_command platform outside request c sh)
  unfolding enqueue_command launch_strand Parses
  enqueue_command-parser request c sh = elim (Bool-cases c.strand_running) [
    | inl runs ↦
        subst
          (λ (b : Bool). Ensures (Parses c) (
            if b
            then ok (queued request c, sh)
            else launch_strand platform outside (queued request c) sh))
          (sym runs) refl
    | inr rests ↦
        subst
          (λ (b : Bool). Ensures (Parses c) (
            if b
            then ok (queued request c, sh)
            else launch_strand platform outside (queued request c) sh))
          (sym rests) (launch_front-parser (queued request c).command_queue (queued request c) sh)
  ]

  queue_parsed-same :
      (f g : ℕ) (c : Connection) (sh : Shared)
      → length c.parser.buffer < f
      → length c.parser.buffer < g
      → queue_parsed platform outside f c sh ≡ queue_parsed platform outside g c sh
  unfolding queue_parsed Parses
  queue_parsed-same zero g c sh h k = absurd (omega (arith, h))
  queue_parsed-same (suc f) zero c sh h k = absurd (omega (arith, k))
  queue_parsed-same (suc f) (suc g) c sh h k =
      elim (Bool-cases (queue_saturated sh && ltb 0 c.inflight)) [
        | inl full ↦ rw (queue_parsed, full) refl
        | inr room ↦
            let c' : Connection = record c { parser = (next c.parser).1 } in
            elim (Parsed-cases (parsed_request (next c.parser).0)) [
              | inl e ↦ rw (queue_parsed, room, e) refl
              | inr (inl e) ↦ rw (queue_parsed, room, e) refl
              | inr (inr (request, e)) ↦
                  let shorter =
                    parsed_request-shrunk (length c.parser.buffer) (next c.parser) request e
                      (next-Shrinks c.parser) in
                  rw (queue_parsed, room, e)
                    (bind-cong (Parses c') (enqueue_command platform outside request c' sh)
                      (λ (d, sh'). queue_parsed platform outside f d sh')
                      (λ (d, sh'). queue_parsed platform outside g d sh')
                      (enqueue_command-parser request c' sh)
                      (λ (d, sh') same.
                        let buffer = ap (λ p. length p.buffer) same in
                        queue_parsed-same f g d sh' (omega (arith, buffer, shorter, h))
                          (omega (arith, buffer, shorter, k))))
            ]
      ]

  -- The loop of queue_parsed_commands ends: with any number of rounds above the length of the
  -- buffer, more rounds make no difference.
  pub queue_parsed-enough :
      (fuel : ℕ) (c : Connection) (sh : Shared)
      → length c.parser.buffer < fuel
      → queue_parsed platform outside fuel c sh ≡ queue_parsed_commands platform outside c sh
  unfolding queue_parsed_commands
  queue_parsed-enough fuel c sh h =
      queue_parsed-same fuel (suc (length c.parser.buffer)) c sh h (omega arith)
