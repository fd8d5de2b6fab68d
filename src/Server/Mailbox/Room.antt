-- ===== src/Server/Mailbox/Room.antt =====
-- The room of each lane, and why a parked producer waits.
use braid.Prelude.{
  ℕ, ◌+◌, ◌≤◌, ◌≡◌, sym, ◌∙◌, inl, inr, Bool, true, false, List, [], ◌∷◌, ◌++◌, arith, ltb,
  if◌then◌else◌, Bool-cases, length, length-append,
}
use braid.Server.Mailbox.{
  ActorEvent, control_lane, output_lane, control, MailboxState, is_bulk, lane, is_ended, is_kill,
  has_room, push, is_full,
}
use braid.Server.Mailbox.Every.{Every, Every-map}

ltb_mono : (a b n : ℕ) → a ≤ b → ltb a n ≡ false → ltb b n ≡ false
ltb_mono a b n h k = ground arith

pub clash : {A : Type 0} (b : Bool) → b ≡ true → b ≡ false → A
clash b h k = cc

module _ {P : Type 0} where
  -- A parked event has cause to wait: the receiver lives, and on the control lane there is no room.
  pub record Stuck (s : MailboxState P) (e : ActorEvent P) : Type 0 where
    pub alive : s.closed ≡ false
    pub tight : is_bulk e ≡ false → has_room s e ≡ false

  -- The bound of the control lane on an event.
  unfoldable bound : ActorEvent P → ℕ
  bound e = if is_kill e then control_lane + 1 else control_lane

  has_room-bound :
      (s : MailboxState P) (e : ActorEvent P)
      → is_bulk e ≡ false
      → has_room s e ≡ ltb (length s.control) (bound e)
  unfolding has_room bound is_ended is_kill is_bulk
  has_room-bound s e h = ground arith

  pub below-has_room :
      (s : MailboxState P) (e : ActorEvent P)
      → is_full s control ≡ false
      → is_bulk e ≡ false
      → has_room s e ≡ true
  unfolding is_full bound
  below-has_room s e f b = ground (arith, has_room-bound s e b)

  pub tight_mono :
      (s t : MailboxState P) (e : ActorEvent P)
      → length s.control ≤ length t.control
      → (is_bulk e ≡ false → has_room s e ≡ false)
      → is_bulk e ≡ false
      → has_room t e ≡ false
  tight_mono s t e h k b =
      has_room-bound t e b
      ∙ ltb_mono (length s.control) (length t.control) (bound e) h
          (sym (has_room-bound s e b) ∙ k b)

  -- The events of a lane that had to find room there.
  unfoldable pub roomed : List (ActorEvent P) → ℕ
  roomed [] = 0
  roomed (e ∷ es) = if is_ended e then roomed es else roomed es + 1

  roomed-length : (es : List (ActorEvent P)) → roomed es ≤ length es
  unfolding roomed
  roomed-length [] = omega arith
  roomed-length (e ∷ es) = ground (arith, roomed-length es)

  roomed-snoc :
      (es : List (ActorEvent P)) (e : ActorEvent P)
      → roomed (es ++ (e ∷ [])) ≡ roomed es + (if is_ended e then 0 else 1)
  unfolding roomed
  roomed-snoc [] e = ground arith
  roomed-snoc (x ∷ es) e = ground (arith, roomed-snoc es e)

  pub roomed-tail : (e : ActorEvent P) (es : List (ActorEvent P)) → roomed es ≤ roomed (e ∷ es)
  unfolding roomed
  roomed-tail e es = ground arith

  -- Both lanes within their bounds, and everybody parked with cause.
  pub record Orderly (s : MailboxState P) (parked : List (ActorEvent P)) : Type 0 where
    pub control_bound : length s.control ≤ control_lane + 1
    pub output_bound : roomed s.output ≤ output_lane
    pub waiting : Every (Stuck s) parked

  output-room :
      (s : MailboxState P) (e : ActorEvent P)
      → has_room s e ≡ true
      → is_bulk e ≡ true
      → roomed s.output ≤ output_lane
      → roomed (s.output ++ (e ∷ [])) ≤ output_lane
  unfolding has_room is_kill is_bulk is_ended
  output-room s e r b h = ground (arith, roomed-snoc s.output e, roomed-length s.output)

  control-room :
      (s : MailboxState P) (e : ActorEvent P)
      → has_room s e ≡ true
      → is_bulk e ≡ false
      → length (s.control ++ (e ∷ [])) ≤ control_lane + 1
  unfolding bound
  control-room s e r b = ground (arith, length-append s.control (e ∷ []), has_room-bound s e b)

  pub push-Orderly :
      (s : MailboxState P) (e : ActorEvent P) (parked : List (ActorEvent P))
      → has_room s e ≡ true
      → Orderly s parked
      → Orderly (push s e) parked
  unfolding push lane
  push-Orderly s e parked r h = elim (Bool-cases (is_bulk e)) [
    | inl b ↦ rw b (record {
      control_bound = h.control_bound;
      output_bound = output-room s e r b h.output_bound;
      waiting =
          Every-map (Stuck s) (Stuck _) parked
            (λ x k. record { alive = k.alive; tight = tight_mono s _ x (omega arith) k.tight })
            h.waiting;
    })
    | inr c ↦ rw c (record {
      control_bound = control-room s e r c;
      output_bound = h.output_bound;
      waiting =
          Every-map (Stuck s) (Stuck _) parked
            (λ x k. record {
              alive = k.alive;
              tight = tight_mono s _ x (omega (arith, length-append s.control (e ∷ []))) k.tight;
            })
            h.waiting;
    })
  ]
