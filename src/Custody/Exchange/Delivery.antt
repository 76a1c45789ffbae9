-- ===== src/Custody/Exchange/Delivery.antt =====
-- A successful exchange has delivered the whole input and kept within the output limit.
use mathlib.Core.Path.{subst}
use sacrysty.Prelude.{
  ℕ, ◌≤◌, ◌≡◌, refl, ap, sym, ◌∙◌, min, Bool, true, false, List, [], ◌∷◌, ◌++◌, Bytes, length, take,
  drop, arith, if◌then◌else◌, Bool-cases, inl, inr,
}
use sacrysty.ProcessGroups.{
  Posix, Popen, Outcome, returned, raised, stalled, leader_exited_unreaped, sleep, poll_interval,
}
use sacrysty.Custody.Exchange.{
  Stream, stdout, stderr, accepts, write_blocks, write_fails, offers, read_blocks, read_fails,
  Ready, stdin_ready, stream_ready, Round, ExchangeError, Pipes, opened, Progress, next, stop,
  chunk_bytes, is_open, write_chunk, read_chunk, on_event, on_events, Exchange, exchanged, failed,
  unfinished, all_closed, Pause, go_on, give_up, pause, await_exit, turn, exchange_loop,
  bounded_communicate,
}
use sacrysty.Custody.Exchange.Pieces.{take-add, take-take, take_all, length-take-drop}

module _ (input : Bytes) (max_output : ℕ) where
  -- The pipes in every turn.
  pub record IsWithin (p : Pipes) : Type 0 where
    pub offset_within : p.input_offset ≤ length input
    pub delivery : p.delivered ≡ take p.input_offset input
    pub finished : p.stdin_open ≡ false → p.input_offset ≡ length input
    pub out_within : length p.out ≤ max_output
    pub err_within : length p.err ≤ max_output

  abbrev StaysWithin : Progress → Type 0
  StaysWithin (next p) = IsWithin p
  StaysWithin (stop e) = Unit

  StaysWithin-if :
      (b : Bool) (x y : Progress) → StaysWithin x → StaysWithin y → StaysWithin (if b then x else y)
  StaysWithin-if true x y h k = h
  StaysWithin-if false x y h k = k

  write_chunk-IsWithin :
      (n : ℕ) (p : Pipes) → IsWithin p → IsWithin (write_chunk input max_output n p)
  unfolding write_chunk
  write_chunk-IsWithin n p w =
      let chunk = take chunk_bytes (drop p.input_offset input) in
      let written = min n (length chunk) in
      let room = length-take-drop chunk_bytes p.input_offset input w.offset_within in
      record {
        offset_within = omega (arith, room);
        delivery =
            ap (λ t. p.delivered ++ t)
              (take-take written chunk_bytes (drop p.input_offset input) (omega arith))
            ∙ (ap (λ t. t ++ take written (drop p.input_offset input)) w.delivery
                ∙ sym (take-add p.input_offset written input));
        finished = λ closed. ground arith;
        out_within = w.out_within;
        err_within = w.err_within;
      }

  read_chunk-StaysWithin :
      (stream : Stream) (available : Bytes) (p : Pipes)
      → IsWithin p
      → StaysWithin (read_chunk input max_output stream available p)
  unfolding read_chunk
  read_chunk-StaysWithin stdout available p w = ground arith
  read_chunk-StaysWithin stderr available p w = ground arith

  on_event-StaysWithin :
      (e : Ready) (p : Pipes) → IsWithin p → StaysWithin (on_event input max_output e p)
  unfolding on_event
  on_event-StaysWithin (stdin_ready (accepts n)) p w =
      StaysWithin-if p.stdin_open _ _ (write_chunk-IsWithin n p w) w
  on_event-StaysWithin (stdin_ready write_blocks) p w = StaysWithin-if p.stdin_open _ _ w w
  on_event-StaysWithin (stdin_ready write_fails) p w = StaysWithin-if p.stdin_open _ _ tt w
  on_event-StaysWithin (stream_ready stream (offers available)) p w =
      StaysWithin-if (is_open stream p) _ _ (read_chunk-StaysWithin stream available p w) w
  on_event-StaysWithin (stream_ready stream read_blocks) p w =
      StaysWithin-if (is_open stream p) _ _ w w
  on_event-StaysWithin (stream_ready stream read_fails) p w =
      StaysWithin-if (is_open stream p) _ _ tt w

  on_events-StaysWithin :
      (es : List Ready) (p : Pipes) → IsWithin p → StaysWithin (on_events input max_output es p)
  unfolding on_events
  on_events-StaysWithin [] p w = w
  on_events-StaysWithin (e ∷ es) p w =
      follow (on_event input max_output e p) (on_event-StaysWithin e p w) (on_events-StaysWithin es)
    where
      follow :
          (g : Progress)
          → StaysWithin g
          → ((p' : Pipes) → IsWithin p' → StaysWithin (on_events input max_output es p'))
          → StaysWithin (elim g as (λ x. Progress) [
            | next p' ↦ on_events input max_output es p'
            | stop x ↦ stop x
          ])
      follow (next p') h rest = rest p' h
      follow (stop x) h rest = tt

  -- A completed exchange closed every pipe, so the input was written to its end.
  abbrev EndsWithin : Exchange → Type 0
  EndsWithin (exchanged p) =
      (p.delivered ≡ input) × (length p.out ≤ max_output) × (length p.err ≤ max_output)
  EndsWithin _ = Unit

  module _ (os : Posix) (deadline : ℕ) where
    await_exit-EndsWithin :
        (rounds : List Round) (p : Pipes) (s : Popen)
        → EndsWithin (exchanged p)
        → EndsWithin (await_exit os deadline rounds p s).0
    unfolding await_exit
    await_exit-EndsWithin [] p s h = last (leader_exited_unreaped os s).0
      where
        last :
            (o : Outcome Bool)
            → EndsWithin
                (elim o as (λ x. Exchange × Popen) [
                  | returned true ↦ (exchanged p, (leader_exited_unreaped os s).1)
                  | returned false ↦ (unfinished, (leader_exited_unreaped os s).1)
                  | raised e ↦
                      (failed (ExchangeError.group_error e), (leader_exited_unreaped os s).1)
                  | stalled ↦ (unfinished, (leader_exited_unreaped os s).1)
                ]).0
        last (returned true) = h
        last (returned false) = tt
        last (raised e) = tt
        last stalled = tt
    await_exit-EndsWithin (r ∷ rounds) p s h =
        let s₁ = (leader_exited_unreaped os s).1 in
        let s₂ = (pause os deadline r.cancellation s₁).1 in
        check (leader_exited_unreaped os s).0 (pause os deadline r.cancellation s₁).0
          (λ s'. await_exit-EndsWithin rounds p s' h)
      where
        check :
            (o : Outcome Bool) (g : Pause)
            → ((s' : Popen) → EndsWithin (await_exit os deadline rounds p s').0)
            → EndsWithin
                (elim o as (λ x. Exchange × Popen) [
                  | returned true ↦ (exchanged p, (leader_exited_unreaped os s).1)
                  | returned false ↦ elim g as (λ x. Exchange × Popen) [
                    | give_up e ↦ (
                      failed e,
                      (pause os deadline r.cancellation (leader_exited_unreaped os s).1).1,
                    )
                    | go_on remaining ↦
                        await_exit os deadline rounds p
                          (sleep
                            (min poll_interval remaining)
                            (pause os deadline r.cancellation (leader_exited_unreaped os s).1).1).1
                  ]
                  | raised e ↦
                      (failed (ExchangeError.group_error e), (leader_exited_unreaped os s).1)
                  | stalled ↦ (unfinished, (leader_exited_unreaped os s).1)
                ]).0
        check (returned true) g rest = h
        check (returned false) (give_up e) rest = tt
        check (returned false) (go_on remaining) rest = rest _
        check (raised e) g rest = tt
        check stalled g rest = tt

    turn-StaysWithin :
        (r : Round) (p : Pipes) (s : Popen)
        → IsWithin p
        → StaysWithin (turn os deadline input max_output r p s).0
    unfolding turn
    turn-StaysWithin r p s w = ground (arith, on_events-StaysWithin r.events p w)

    ends_of_closed : (p : Pipes) → IsWithin p → all_closed p ≡ true → EndsWithin (exchanged p)
    ends_of_closed p w closed =
        let at_end : p.input_offset ≡ length input = w.finished (ground arith) in
        (w.delivery ∙ (ap (λ n. take n input) at_end ∙ take_all input), w.out_within, w.err_within)

    exchange_loop-EndsWithin :
        (rounds : List Round) (p : Pipes) (s : Popen)
        → IsWithin p
        → EndsWithin (exchange_loop os deadline input max_output rounds p s).0
    unfolding exchange_loop
    exchange_loop-EndsWithin [] p s w = elim (Bool-cases (all_closed p)) [
      | inl closed ↦ rw closed (await_exit-EndsWithin [] p s (ends_of_closed p w closed))
      | inr waiting ↦ rw waiting tt
    ]
    exchange_loop-EndsWithin (r ∷ rounds) p s w =
        check (all_closed p) refl (turn os deadline input max_output r p s).0
          (turn-StaysWithin r p s w) (exchange_loop-EndsWithin rounds)
      where
        s₁ : Popen
        s₁ = (turn os deadline input max_output r p s).1

        check :
            (b : Bool)
            → all_closed p ≡ b
            → (g : Progress) → StaysWithin g
            → ((p' : Pipes) (s' : Popen)
                → IsWithin p'
                → EndsWithin (exchange_loop os deadline input max_output rounds p' s').0)
            → EndsWithin
                (elim b as (λ x. Exchange × Popen) [
                  | true ↦ await_exit os deadline (r ∷ rounds) p s
                  | false ↦ elim g as (λ x. Exchange × Popen) [
                    | next p' ↦ exchange_loop os deadline input max_output rounds p' s₁
                    | stop e ↦ (failed e, s₁)
                  ]
                ]).0
        check true closed g h rest =
            await_exit-EndsWithin (r ∷ rounds) p s (ends_of_closed p w closed)
        check false waiting (next p') h rest = rest p' s₁ h
        check false waiting (stop e) h rest = tt

opened-IsWithin : (input : Bytes) (max_output : ℕ) → IsWithin input max_output opened
opened-IsWithin input max_output = record {
  offset_within = omega arith;
  delivery = refl;
  finished = λ closed. cc;
  out_within = omega arith;
  err_within = omega arith;
}

EndsWithin-at :
    (input : Bytes) (max_output : ℕ) (x : Exchange) (p : Pipes)
    → EndsWithin input max_output x
    → x ≡ exchanged p
    → EndsWithin input max_output (exchanged p)
EndsWithin-at input max_output x p h e = subst (EndsWithin input max_output) e h

-- When the exchange completes, whatever the selector, the pipes and the clock did, the worker has
-- been given exactly the input, and neither of its two outputs is longer than the limit.
pub bounded_communicate-delivers :
    (os : Posix) (pipes_available : Bool) (input : Bytes) (timeout max_output : ℕ)
    (rounds : List Round) (s : Popen) (p : Pipes)
    → (bounded_communicate os pipes_available input timeout max_output rounds s).0 ≡ exchanged p
    → (p.delivered ≡ input) × (length p.out ≤ max_output) × (length p.err ≤ max_output)
unfolding bounded_communicate
bounded_communicate-delivers os false input timeout max_output rounds s p h = cc
bounded_communicate-delivers os true input timeout max_output rounds s p h =
    EndsWithin-at input max_output _ p
      (exchange_loop-EndsWithin input max_output os _ rounds opened _
        (opened-IsWithin input max_output))
      h
