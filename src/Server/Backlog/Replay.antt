-- ===== src/Server/Backlog/Replay.antt =====
-- crates/server/src/backlog.rs: what a client that resumes is given.
use braid.Prelude.{
  ℕ, suc, ◌+◌, ◌-◌, ◌%◌, ◌≤◌, ◌<◌, min, ◌≡◌, refl, sym, ap, ◌∙◌, ◌⊎◌, inl, inr, true, ◌||◌, none,
  some, List, [], ◌∷◌, ◌++◌, arith, ltb, ◌==◌, ltb→lt, lt→ltb, Bool-cases, unwrap_or, length, take,
  drop, length-append, length-take, length-drop,
}
use braid.Prelude.Slices.{drop-all}
use braid.Server.Backlog.{BacklogRing, slice, replay_slices, replay_from}
use braid.Server.Backlog.Slots.{
  get_elem?, get-append_left, get-append_right, get-drop, get-take, mod_wrap,
}
use braid.Server.Backlog.Log.{Holds, At}
use native.Mathlib.Nat.{mod-lt}

-- Lists of one length with the same slots are the same list.
same_slots :
    (xs ys : List ℕ)
    → length xs ≡ length ys
    → ((i : ℕ) → i < length xs → get_elem? xs i ≡ get_elem? ys i)
    → xs ≡ ys
same_slots [] [] e f = refl
same_slots [] (y ∷ ys) e f = absurd (omega arith)
same_slots (x ∷ xs) [] e f = absurd (omega arith)
same_slots (x ∷ xs) (y ∷ ys) e f =
    let heads : x ≡ y = ap (λ o. unwrap_or o 0) (f 0 (omega arith)) in
    let tails = same_slots xs ys (omega arith) (λ i h. f (suc i) (omega arith)) in
    ap (λ z. z ∷ xs) heads ∙ ap (◌∷◌ y) tails

-- A slot behind another, before and after the end of the buffer.
straight :
    (head start i size n q : ℕ)
    → n + i < size
    → start + i < size
    → At size (head + start) n
    → At size (head + (start + i)) q
    → n + i ≡ q
straight head start i size n q h lt (inl x) (inl y) = omega arith
straight head start i size n q h lt (inl x) (inr y) = absurd (omega arith)
straight head start i size n q h lt (inr x) (inl y) = absurd (omega arith)
straight head start i size n q h lt (inr x) (inr y) = omega arith

bent :
    (head start i size n q : ℕ)
    → size ≤ n + i
    → head < size
    → start + i < size
    → At size (head + start) n
    → At size (head + (start + i)) q
    → n + i - size ≡ q
bent head start i size n q h inside lt (inl x) (inl y) = absurd (omega arith)
bent head start i size n q h inside lt (inl x) (inr y) = omega arith
bent head start i size n q h inside lt (inr x) z = absurd (omega arith)

slices-exact :
    (log : List ℕ) (r : BacklogRing) (start : ℕ)
    → Holds log r
    → 0 < length r.buf
    → start ≤ r.len
    → (replay_slices r start).0 ++ (replay_slices r start).1 ≡ drop (r.base + start) log
unfolding replay_slices slice
slices-exact log r start v some_slot from =
    let size = length r.buf in
    let inside : r.head < size = elim v.turned [ inl h ↦ h | inr h ↦ omega arith ] in
    let n = (r.head + start) % size in
    let n_in : n < size = mod-lt (r.head + start) {m = size} some_slot in
    let first = min (r.len - start) (size - n) in
    let one = take first (drop n r.buf) in
    let two = take (r.len - start - first) r.buf in
    let one_size : length one ≡ first =
      omega (arith, length-take first (drop n r.buf), length-drop n r.buf) in
    let two_size : length two ≡ r.len - start - first =
      omega (arith, length-take (r.len - start - first) r.buf, v.sized) in
    let at_n = mod_wrap (r.head + start) size (omega (arith, v.sized)) in
    same_slots (one ++ two) (drop (r.base + start) log)
      (omega (
        arith,
        length-append one two,
        one_size,
        two_size,
        length-drop (r.base + start) log,
        v.ends,
      ))
      (λ i h.
        let within : start + i < r.len =
          omega (arith, h, length-append one two, one_size, two_size) in
        let at_q = mod_wrap (r.head + (start + i)) size (omega (arith, v.sized)) in
        elim (Bool-cases (ltb i first)) [
          | inl early ↦
              let lt : i < first = ltb→lt i first early in
              get-append_left one two i (omega (arith, one_size))
              ∙ get-take first i (drop n r.buf) lt
              ∙ get-drop n i ((r.head + (start + i)) % size) r.buf (
                  sym (
                    straight r.head start i size n ((r.head + (start + i)) % size) (omega arith)
                      (omega (arith, v.sized)) at_n at_q))
          | inr late ↦
              let le : first ≤ i = ground arith in
              get-append_right one two i (i - first) (omega (arith, one_size))
              ∙ get-take (r.len - start - first) (i - first) r.buf (omega arith)
              ∙ ap (get_elem? r.buf) (
                  omega (
                    arith,
                    bent r.head start i size n ((r.head + (start + i)) % size) (omega arith) inside
                        (omega (arith, v.sized)) at_n at_q,
                  ))
        ]
        ∙ v.keeps (start + i) within
        ∙ sym (get-drop (r.base + start) i (r.base + (start + i)) log (omega arith)))

where_out :
    (off base len total : ℕ)
    → base + len ≡ total
    → (ltb off base || ltb len (off - base)) ≡ true
    → (off < base) ⊎ (total < off)
where_out off base len total e h = elim (Bool-cases (ltb off base)) [
  | inl before ↦ inl (ltb→lt off base before)
  | inr from ↦ inr (ground arith)
]

-- A client that resumes at an offset that the ring still holds is given exactly the output from
-- there on, and one at any other offset is refused: nothing is skipped and nothing is made up. The
-- ring has some capacity.
pub replay-exact :
    (log : List ℕ) (r : BacklogRing) (off : ℕ)
    → Holds log r
    → 0 < r.capacity
    → ((r.base ≤ off)
        × (off ≤ length log)
        × ((a : List ℕ) × (b : List ℕ) × (replay_from r off ≡ some (a, b))
            × (a ++ b ≡ drop off log)))
      ⊎ (((off < r.base) ⊎ (length log < off)) × (replay_from r off ≡ none))
unfolding replay_from
replay-exact log r off v some_room =
    elim (Bool-cases (ltb off r.base || ltb r.len (off - r.base))) [
      | inl outside ↦ inr (where_out off r.base r.len (length log) v.ends outside, rw outside refl)
      | inr held ↦
          let low : r.base ≤ off = ground arith in
          let high : off - r.base ≤ r.len = ground arith in
          inl (
            low,
            omega (arith, v.ends, high),
            elim (Bool-cases (length r.buf == 0)) [
              | inl empty ↦
                  let none_kept : length r.buf ≡ 0 = ground arith in
                  let open_ring : ltb 0 r.capacity ≡ true = lt→ltb 0 r.capacity some_room in
                  (
                    [],
                    [],
                    rw (held, empty, open_ring) refl,
                    sym (drop-all off log (omega (arith, v.ends, v.sized, none_kept))),
                  )
              | inr some_slot ↦
                  let start = off - r.base in
                  (
                    (replay_slices r start).0,
                    (replay_slices r start).1,
                    rw (held, some_slot) refl,
                    slices-exact log r start v (ground arith) high
                        ∙ ap (λ k. drop k log) {x = r.base + start} {y = off} (omega arith),
                  )
            ],
          )
    ]
