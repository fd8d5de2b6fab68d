-- ===== src/Forward/Recv/Memory.antt =====
-- crates/forward/src/recv.rs: what a peer can make the receiver keep, whatever it sends.
use braid.Prelude.{
  ℕ, suc, ◌+◌, ◌-◌, ◌*◌, ◌≤◌, ◌<◌, min, ◌≡◌, refl, ◌∙◌, inl, inr, Bool, true, false, not, ◌&&◌,
  some, List, [], ◌∷◌, ◌++◌, arith, ltb, leb, ◌==◌, ltb→lt, leb→le, Bool-cases, Option-cases,
  is_some_and, length, drop, length-append, length-drop, saturating_add,
}
use braid.Forward.Wire.{forward_window, max_held_segments}
use braid.Forward.Recv.{
  spare_held, Held, Receiver, fresh, admits, consume, find, insert, or_spare, entry, store, refuses,
  hold, settle_end, declare, recycle, place, drain, drain_held, place_fresh, accept, receive,
  on_data,
}
use braid.Forward.Recv.Pieces.{Empties, or_spare-Empties}
use braid.Forward.Recv.Order.{
  From, total, size, From-mono, insert-From, length-insert, total-insert, size-or_spare,
  length-or_spare,
}

-- The part of the state that the loop of `drain_held` works on, `rest` still to place.
pub record Fits (rest : Held) (r : Receiver) : Type 0 where
  pub counted : r.held_bytes ≡ total rest
  pub few_bytes : total rest ≤ forward_window
  pub both : length r.ready + total rest ≤ 2 * forward_window
  pub order : From 0 rest
  pub few : length rest ≤ max_held_segments
  pub clean : Empties r.spare
  pub few_spare : length r.spare ≤ spare_held

abbrev pub Bounded : Receiver → Type 0
Bounded r = Fits r.held r

pub fresh-Bounded : Bounded fresh
unfolding fresh
fresh-Bounded = omega arith

store-Bounded :
    (r : Receiver) (off : ℕ) (bytes : List ℕ)
    → Bounded r
    → refuses r off bytes ≡ false
    → Bounded (store r off bytes)
unfolding store entry refuses
store-Bounded r off bytes v kept = elim (Bool-cases (ltb (length kept_entry) (length bytes))) [
  | inl longer ↦ rw longer (record {
    counted = omega (arith, sized, put bytes, ltb→lt (length kept_entry) (length bytes) longer);
    few_bytes = omega (arith, sized, put bytes, within);
    both = omega (arith, sized, put bytes, within);
    order = insert-From off 0 bytes r.held (omega arith) v.order;
    few = omega (arith, length-insert off bytes r.held, within);
    clean = or_spare-Empties (find off r.held) r.spare v.clean;
    few_spare = omega (arith, length-or_spare (find off r.held) r.spare);
  })
  | inr kept_old ↦ rw kept_old (record {
    counted = omega (arith, sized, put kept_entry);
    few_bytes = omega (arith, sized, put kept_entry);
    both = omega (arith, sized, put kept_entry);
    order = insert-From off 0 kept_entry r.held (omega arith) v.order;
    few = omega (arith, length-insert off kept_entry r.held, within);
    clean = or_spare-Empties (find off r.held) r.spare v.clean;
    few_spare = omega (arith, length-or_spare (find off r.held) r.spare);
  })
]
  where
    kept_entry : List ℕ
    kept_entry = (or_spare (find off r.held) r.spare).0

    sized : length kept_entry ≡ size (find off r.held)
    sized = size-or_spare (find off r.held) r.spare v.clean

    put :
        (b : List ℕ)
        → total (insert off b r.held) + size (find off r.held) ≡ total r.held + length b
    put b = total-insert off 0 b r.held v.order

    within :
        (length r.held < max_held_segments)
        × (length r.ready + r.held_bytes + length bytes ≤ forward_window)
    within = ground arith

module _ (capacity : Receiver → List ℕ → ℕ) where
  place-Fits :
      (r : Receiver) (off : ℕ) (h : List ℕ) (rest : Held)
      → Fits ((off, h) ∷ rest) r
      → Fits rest (place capacity r off h)
  unfolding place recycle
  place-Fits r off h rest v = ground (
    arith,
    length-drop (r.next - off) h,
    length-append r.ready (drop (r.next - off) h),
    From-mono 0 (suc off) rest,
  )

  drain-Bounded : (rest : Held) (r : Receiver) → Fits rest r → Bounded (drain capacity rest r)
  unfolding drain
  drain-Bounded [] r v = ground arith
  drain-Bounded ((off, h) ∷ rest) r v = elim (Bool-cases (ltb r.next off)) [
    | inl gap ↦ rw gap (record {
      counted = v.counted;
      few_bytes = v.few_bytes;
      both = v.both;
      order = v.order;
      few = v.few;
      clean = v.clean;
      few_spare = v.few_spare;
    })
    | inr near ↦ rw near (drain-Bounded rest (place capacity r off h) (place-Fits r off h rest v))
  ]

  place_fresh-Bounded :
      (r : Receiver) (bs : List ℕ) (end : ℕ) → Bounded r → Bounded (place_fresh capacity r bs end)
  unfolding place_fresh drain_held admits
  place_fresh-Bounded r bs end v =
      elim (Bool-cases (leb (length r.ready + length bs) forward_window)) [
        | inl room ↦ rw room (
            drain-Bounded r.held (record r { ready = r.ready ++ bs; next = end })
              (record {
                counted = v.counted;
                few_bytes = v.few_bytes;
                both = omega (
                  arith,
                  length-append r.ready bs,
                  leb→le (length r.ready + length bs) forward_window room,
                  v.few_bytes,
                );
                order = v.order;
                few = v.few;
                clean = v.clean;
                few_spare = v.few_spare;
              }))
        | inr full ↦ rw full v
      ]

  accept-Bounded :
      (r : Receiver) (off : ℕ) (bytes : List ℕ) (end : ℕ)
      → Bounded r
      → Bounded (accept capacity r off bytes end)
  unfolding accept hold
  accept-Bounded r off bytes end v = elim (Bool-cases (ltb r.next end)) [
    | inl new ↦ rw new (elim (Bool-cases (ltb r.next off)) [
      | inl gap ↦ rw gap (elim (Bool-cases (refuses r off bytes)) [
        | inl refused ↦ rw refused v
        | inr kept ↦ rw kept (store-Bounded r off bytes v kept)
      ])
      | inr near ↦ rw near (place_fresh-Bounded r (drop (r.next - off) bytes) end v)
    ])
    | inr old ↦ rw old v
  ]

Fits-same :
    (rest : Held) (r r' : Receiver)
    → r'.held_bytes ≡ r.held_bytes
    → r'.ready ≡ r.ready
    → r'.spare ≡ r.spare
    → Fits rest r
    → Fits rest r'
Fits-same rest r r' e f g v = record {
  counted = e ∙ v.counted;
  few_bytes = v.few_bytes;
  both = rw f v.both;
  order = v.order;
  few = v.few;
  clean = rw g v.clean;
  few_spare = rw g v.few_spare;
}

settle_end-Bounded : (r : Receiver) → Bounded r → Bounded (settle_end r)
unfolding settle_end
settle_end-Bounded r v =
    elim (Bool-cases (not r.finished && is_some_and r.fin (λ e. e == r.next))) [
      | inl now ↦ rw now (Fits-same r.held r _ refl refl refl v)
      | inr later ↦ rw later v
    ]

-- `declare` changes nothing but the end.
declare_same :
    (r r' : Receiver) (end : ℕ) (fin : Bool)
    → declare r end fin ≡ some r'
    → r' ≡ record r { fin = r'.fin }
unfolding declare
declare_same r r' end fin e = ground arith

-- Whatever segment arrives, lawful or not, the receiver keeps at most 256 segments and four spare
-- buffers, counts the bytes that it holds exactly, holds at most a window of them, and keeps at
-- most two windows of bytes in all, if that held before.
pub on_data-Bounded :
    (capacity : Receiver → List ℕ → ℕ) (r : Receiver) (off : ℕ) (fin : Bool) (bytes : List ℕ)
    → Bounded r
    → Bounded (on_data capacity r off fin bytes).0
unfolding on_data receive
on_data-Bounded capacity r off fin bytes v =
    elim (Option-cases (declare r (saturating_add off (length bytes)) fin)) [
      | inl bad ↦ rw (bad, receive) v
      | inr (r', good) ↦
          rw (good, receive)
            (settle_end-Bounded _
              (accept-Bounded capacity _ off bytes _ (marked r' (declare_same r r' _ fin good))))
    ]
  where
    marked :
        (r' : Receiver) → r' ≡ record r { fin = r'.fin } → Bounded (record r' { ack_owed = true })
    marked r' e = rw e (Fits-same r.held r _ refl refl refl v)

pub consume-Bounded : (r : Receiver) (n : ℕ) → Bounded r → Bounded (consume r n)
unfolding consume
consume-Bounded r n v = ground (arith, length-drop (min n (length r.ready)) r.ready)
