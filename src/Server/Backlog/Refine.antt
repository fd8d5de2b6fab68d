-- ===== src/Server/Backlog/Refine.antt =====
-- crates/server/src/backlog.rs: every push leaves the ring holding the end of the log.
use braid.Prelude.{
  ℕ, ◌+◌, ◌-◌, ◌%◌, ◌≤◌, ◌<◌, min, max, ◌≡◌, refl, sym, ap, ◌∙◌, ◌⊎◌, inl, inr, List, [], ◌∷◌, ◌++◌,
  append-nil, arith, ltb, leb, ◌==◌, ltb→lt, leb→le, Bool-cases, length, drop, length-append,
  length-drop, u64_max, saturating_add,
}
use braid.Server.Backlog.{
  floor_size, BacklogRing, doubled, regrow, grow_for, advance, evict, append_at, put, push,
}
use braid.Server.Backlog.Slots.{
  get_elem?, get-append_left, get-append_right, get-drop, length-around,
}
use braid.Server.Backlog.Log.{
  Keeps, Holds, append_at-Keeps, evict-Keeps, regrow-Keeps, doubled-enough,
}
use mathlib.Core.Path.{subst}
use native.Mathlib.Nat.{mod-lt}

-- There is room for `extra` bytes behind those that are kept, or the ring has all it may have.
record Roomy (log : List ℕ) (extra : ℕ) (r : BacklogRing) : Type 0 where
  held : Holds log r
  some_slot : 0 < length r.buf
  room : (length r.buf ≡ r.capacity) ⊎ (r.len + extra ≤ length r.buf)

head_le : (log : List ℕ) (r : BacklogRing) → Holds log r → r.head ≤ length r.buf
head_le log r v = elim v.turned [ inl inside ↦ omega arith | inr start ↦ omega arith ]

room_now :
    (len extra size capacity : ℕ)
    → size ≤ capacity
    → min (len + extra) capacity ≤ size
    → (size ≡ capacity) ⊎ (len + extra ≤ size)
room_now len extra size capacity within h = elim (Bool-cases (leb capacity size)) [
  | inl all ↦ inl (ground arith)
  | inr more ↦ inr (ground arith)
]

regrow-Holds :
    (log : List ℕ) (r : BacklogRing) (size : ℕ)
    → Holds log r
    → r.len ≤ size
    → size ≤ r.capacity
    → Keeps log r.base (regrow r size)
    → length (regrow r size).buf ≡ size
    → Holds log (regrow r size)
unfolding regrow
regrow-Holds log r size v fits within kept full_size = record {
  sized = omega (arith, full_size);
  within = omega (arith, full_size);
  turned = inr refl;
  ends = v.ends;
  full = v.full;
  keeps = kept;
}

regrow-same :
    (r : BacklogRing) (size : ℕ)
    → ((regrow r size).len ≡ r.len) × ((regrow r size).capacity ≡ r.capacity)
unfolding regrow
regrow-same r size = (refl, refl)

grow_for-Roomy :
    (log : List ℕ) (r : BacklogRing) (extra : ℕ)
    → 0 < extra
    → 0 < r.capacity
    → length log + extra ≤ u64_max
    → Holds log r
    → Roomy log extra (grow_for r extra)
unfolding grow_for regrow
grow_for-Roomy log r extra some_extra some_room short v =
    let needed = min (saturating_add r.len extra) r.capacity in
    let sum : saturating_add r.len extra ≡ r.len + extra = omega (arith, v.ends) in
    elim (Bool-cases (leb needed (length r.buf))) [
      | inl fits ↦
          let enough : needed ≤ length r.buf = leb→le needed (length r.buf) fits in
          rw fits (record {
            held = v;
            some_slot = omega arith;
            room = room_now r.len extra (length r.buf) r.capacity v.within (omega arith);
          })
      | inr small ↦
          let above : length r.buf < needed = ground arith in
          let size = min (doubled 64 (max (length r.buf) floor_size) needed) r.capacity in
          let reach =
            doubled-enough 64 (max (length r.buf) floor_size) needed (omega (arith, sum))
              (omega (arith, sum)) in
          let kept =
            regrow-Keeps log r.base size r (head_le log r v) v.sized (omega (arith, v.sized))
              v.keeps in
          rw small (record {
            held = regrow-Holds log r size v (omega (arith, v.sized)) (omega arith) kept.0 kept.1;
            some_slot = omega (arith, kept.1);
            room =
                room_now r.len extra (length (regrow r size).buf) r.capacity (omega (arith, kept.1))
                  (omega (arith, kept.1, reach, sum));
          })
    ]

evict-fields :
    (r : BacklogRing) (overwrite : ℕ)
    → r.head < length r.buf
    → let r' = evict r overwrite in
      (r'.buf ≡ r.buf)
      × (r'.len ≡ r.len - overwrite)
      × (r'.head < length r.buf)
      × (r'.base ≡ r.base)
      × (r'.capacity ≡ r.capacity)
unfolding evict
evict-fields r overwrite inside = elim (Bool-cases (ltb 0 overwrite)) [
  | inl some_go ↦
      rw some_go
        (refl, refl, mod-lt (r.head + overwrite) {m = length r.buf} (omega arith), refl, refl)
  | inr none_go ↦ rw none_go (refl, ground arith, inside, refl, refl)
]

-- What is kept of the log is kept of the longer log.
Keeps-append :
    (log input : List ℕ) (b b' : ℕ) (r : BacklogRing)
    → (r.len ≡ 0) ⊎ (b ≡ b')
    → b + r.len ≤ length log
    → Keeps log b r
    → Keeps (log ++ input) b' r
Keeps-append log input b b' r same inside kept i h =
    kept i h ∙ sym (get-append_left log input (b + i) (omega arith)) ∙ elim same [
      | inl empty ↦ absurd (omega arith)
      | inr moved ↦ ap (get_elem? (log ++ input)) {x = b + i} {y = b' + i} (omega arith)
    ]

-- The ring after the bytes that are not skipped are put behind what is left.
append-Holds :
    (log input : List ℕ) (r : BacklogRing) (skip base' : ℕ)
    → r.head < length r.buf
    → r.len + length (drop skip input) ≤ length r.buf
    → length r.buf ≤ r.capacity
    → base' + r.len ≡ length log + skip
    → skip ≤ length input
    → (0 < base' → r.len + length (drop skip input) ≡ r.capacity)
    → Keeps (log ++ input) base' r
    → Holds (log ++ input) (append_at (record r { base = base' }) (drop skip input))
unfolding append_at
append-Holds log input r skip base' inside fits within start few full kept =
    let bytes = drop skip input in
    let tail = (r.head + r.len) % length r.buf in
    let same =
      length-around r.buf tail bytes (mod-lt (r.head + r.len) {m = length r.buf} (omega arith))
        (omega arith) in
    record {
      sized = omega (arith, same);
      within = omega (arith, same);
      turned = inl (omega (arith, same));
      ends = omega (arith, start, length-drop skip input, length-append log input);
      full = full;
      keeps =
          append_at-Keeps (log ++ input) base' (record r { base = base' }) bytes inside fits kept
            (λ q h.
              get-drop skip q (skip + q) input (omega arith)
              ∙ sym (
                  get-append_right log input (base' + r.len + q) (skip + q)
                    (omega (arith, start))));
    }

advance-exact : (base n : ℕ) → base + n ≤ u64_max → advance base n ≡ base + n
unfolding advance
advance-exact base n h = ground arith

-- The end of the log is held, as much as there is room for, or it is all that the ring may hold.
put_full :
    (base len size capacity k : ℕ)
    → len ≤ size
    → 0 < k
    → (0 < base → len ≡ capacity)
    → (size ≡ capacity) ⊎ (len + k ≤ size)
    → size ≤ capacity
    → let skip = k - size in
      let overwrite = len + (k - skip) - size in
      0 < base + (skip + overwrite) → len - overwrite + (k - skip) ≡ capacity
put_full base len size capacity k sized some_input full (inl all) within moved =
    elim (Bool-cases (ltb 0 base)) [
      | inl old ↦ let held = full (ltb→lt 0 base old) in omega arith
      | inr young ↦ let none_yet : base ≡ 0 = ground arith in omega arith
    ]
put_full base len size capacity k sized some_input full (inr room) within moved =
    let held = full (omega arith) in omega arith

put-Holds :
    (log : List ℕ) (r : BacklogRing) (input : List ℕ)
    → 0 < length input
    → length log + length input ≤ u64_max
    → Roomy log (length input) r
    → Holds (log ++ input) (put r input)
unfolding put
put-Holds log r input some_input short w =
    let v = w.held in
    let size = length r.buf in
    let skip = length input - size in
    let bytes = drop skip input in
    let count = length-drop skip input in
    let overwrite = saturating_add r.len (length bytes) - size in
    let exact : overwrite ≡ r.len + (length input - skip) - size = omega (arith, count, v.ends) in
    let inside : r.head < size = elim v.turned [ inl h ↦ h | inr h ↦ omega (arith, w.some_slot) ] in
    let f = evict-fields r overwrite inside in
    let e = evict r overwrite in
    let sizes = ap length f.0 in
    let base' = advance e.base (skip + overwrite) in
    let moved : base' ≡ r.base + (skip + overwrite) =
      advance-exact e.base (skip + overwrite) (omega (arith, f.3, v.ends, v.sized, exact, count))
      ∙ ap (λ b. b + (skip + overwrite)) f.3 in
    append-Holds log input e skip base' (omega (arith, f.2, sizes))
      (omega (arith, f.1, sizes, count, exact, v.sized)) (omega (arith, f.4, sizes, v.within))
      (omega (arith, moved, f.1, exact, v.ends, v.sized, count)) (omega arith)
      (λ h. omega (
        arith,
        f.1,
        f.4,
        count,
        exact,
        put_full r.base r.len size r.capacity (length input) v.sized some_input v.full w.room
            v.within (omega (arith, h, moved, exact)),
      ))
      (Keeps-append log input (r.base + overwrite) base' e
        (elim (Bool-cases (ltb 0 skip)) [
          | inl skips ↦
              let some_skip = ltb→lt 0 skip skips in
              inl (omega (arith, f.1, exact, v.sized, some_skip))
          | inr whole ↦ let no_skip : skip ≡ 0 = ground arith in inr (omega (arith, moved, no_skip))
        ])
        (omega (arith, f.1, v.ends, exact, v.sized, count))
        (evict-Keeps log r.base overwrite r inside v.sized (omega (arith, exact, count, v.sized))
          v.keeps))

grow_for-capacity : (r : BacklogRing) (extra : ℕ) → (grow_for r extra).capacity ≡ r.capacity
unfolding grow_for regrow
grow_for-capacity r extra = ground arith

idle-Holds :
    (log : List ℕ) (r : BacklogRing) (input : List ℕ)
    → r.capacity ≡ 0
    → length log + length input ≤ u64_max
    → Holds log r
    → Holds (log ++ input) (record r { base = advance r.base (length input) })
idle-Holds log r input none_held short v =
    let moved = advance-exact r.base (length input) (omega (arith, v.ends)) in
    record {
      sized = v.sized;
      within = v.within;
      turned = v.turned;
      ends = omega (arith, moved, v.ends, length-append log input);
      full = λ h. omega (arith, v.sized, v.within, none_held);
      keeps = λ i h. absurd (omega (arith, v.sized, v.within, none_held));
    }

-- After every push the ring holds the end of all that was pushed, byte for byte: everything, until
-- that is more than the capacity, and from then on exactly the capacity; growth and the end of the
-- buffer lose nothing. The log fits 64 bits.
pub push-Holds :
    (log : List ℕ) (r : BacklogRing) (input : List ℕ)
    → length log + length input ≤ u64_max
    → Holds log r
    → Holds (log ++ input) (push r input)
unfolding push
push-Holds log r input short v = elim (Bool-cases (length input == 0)) [
  | inl empty ↦ rw empty (nothing input (ground arith))
  | inr some_input ↦ rw some_input (elim (Bool-cases (r.capacity == 0)) [
    | inl none_held ↦ rw none_held (idle-Holds log r input (ground arith) short v)
    | inr held ↦ rw held (
        put-Holds log (grow_for r (length input)) input (ground arith) short
          (grow_for-Roomy log r (length input) (ground arith) (ground arith) short v))
  ])
]
  where
    nothing : (xs : List ℕ) → length xs ≡ 0 → Holds (log ++ xs) r
    nothing [] e = subst (λ l. Holds l r) (sym (append-nil log)) v
    nothing (x ∷ xs) e = absurd (omega arith)
