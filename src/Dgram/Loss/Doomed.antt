-- ===== src/Dgram/Loss/Doomed.antt =====
-- crates/dgram/src/loss.rs: the packets that `detect` gives up on are exactly the doomed ones.
use braid.Prelude.{
  ℕ, ◌≤◌, ◌≡◌, refl, sym, ◌∙◌, inl, inr, Bool, true, false, Option, none, some, List, [], ◌∷◌,
  arith, Bool-cases, Option-cases,
}
use braid.Dgram.Loss.{
  InFlight, Cause, lost, silent, overflowed, LossDetector, probe_timeout, clear, retire, doom, hush,
  choose, detect_from, detect, expire,
}

-- A flight in the order in which it was sealed: numbers and send times ascend.
abbrev pub After : InFlight → List InFlight → Type 0
After p [] = Unit {0}
After p (q ∷ qs) = (p.number ≤ q.number) × (p.sent ≤ q.sent) × After q qs

abbrev pub Sealed : List InFlight → Type 0
Sealed [] = Unit {0}
Sealed (p ∷ ps) = After p ps

After-Sealed : (p : InFlight) (ps : List InFlight) → After p ps → Sealed ps
After-Sealed p [] a = tt
After-Sealed p (q ∷ qs) a = a.2

abbrev pub NoneDoomed : LossDetector → ℕ → List InFlight → Type 0
NoneDoomed d now [] = Unit {0}
NoneDoomed d now (p ∷ ps) = (doom d p now ≡ none) × NoneDoomed d now ps

-- A packet sealed later is doomed later.
doom_mono :
    (d : LossDetector) (p q : InFlight) (now : ℕ)
    → p.number ≤ q.number
    → p.sent ≤ q.sent
    → doom d p now ≡ none
    → doom d q now ≡ none
unfolding doom
doom_mono d p q now n s e = elim (Option-cases d.largest_acked) [
  | inl unheard ↦ ground (arith, unheard)
  | inr (l, seen) ↦ ground (arith, seen)
]

After-NoneDoomed :
    (d : LossDetector) (now : ℕ) (p : InFlight) (ps : List InFlight)
    → After p ps
    → doom d p now ≡ none
    → NoneDoomed d now ps
After-NoneDoomed d now p [] a e = tt
After-NoneDoomed d now p (q ∷ qs) a e =
    let here = doom_mono d p q now a.0 a.1 e in (here, After-NoneDoomed d now q qs a.2 here)

-- What holds after each way of going on holds after a round.
pub choose-all :
    (P : LossDetector × Bool → Type 0) (o : Option Cause) (a b c : LossDetector × Bool)
    → (o ≡ none → P a)
    → P b
    → P c
    → P (choose o a b c)
unfolding choose
choose-all P none a b c p q r = p refl
choose-all P (some lost) a b c p q r = q
choose-all P (some silent) a b c p q r = r
choose-all P (some overflowed) a b c p q r = r

alike-NoneDoomed :
    (d e : LossDetector) (now : ℕ) (ps : List InFlight)
    → ((q : InFlight) → doom d q now ≡ doom e q now)
    → NoneDoomed d now ps
    → NoneDoomed e now ps
alike-NoneDoomed d e now [] same h = tt
alike-NoneDoomed d e now (p ∷ ps) same h =
    (sym (same p) ∙ h.0, alike-NoneDoomed d e now ps same h.1)

detect_from-NoneDoomed :
    (ps : List InFlight) (d : LossDetector) (now : ℕ) (abandoned : Bool)
    → Sealed ps
    → NoneDoomed d now (detect_from ps d now abandoned).0.sent
unfolding detect_from hush retire doom probe_timeout
detect_from-NoneDoomed [] d now abandoned a = tt
detect_from-NoneDoomed (p ∷ ps) d now abandoned a =
    choose-all (λ r. NoneDoomed d now r.0.sent) (doom d p now) _ _ _
      (λ e. (e, After-NoneDoomed d now p ps a e))
      (alike-NoneDoomed (retire d p lost) d now _ (λ q. refl)
        (detect_from-NoneDoomed ps (retire d p lost) now abandoned (After-Sealed p ps a)))
      (alike-NoneDoomed (retire (hush d p) p silent) d now _ (λ q. refl)
        (detect_from-NoneDoomed ps (retire (hush d p) p silent) now true (After-Sealed p ps a)))

-- Although it stops at the first packet that is not doomed, an expiry leaves no doomed packet in
-- flight: none that a later one has overtaken by three or by the loss delay, and none older than the
-- probe timeout. The flight stands in the order in which it was sealed.
pub expire-NoneDoomed :
    (d : LossDetector) (now : ℕ) → Sealed d.sent → NoneDoomed d now (expire d now).sent
unfolding expire detect clear doom probe_timeout
expire-NoneDoomed d now a =
    let left =
      alike-NoneDoomed (clear d) d now _ (λ q. refl)
        (detect_from-NoneDoomed d.sent (clear d) now false a) in
    elim (Bool-cases (detect_from d.sent (clear d) now false).1) [
      | inl holds ↦ rw holds left
      | inr fails ↦ rw fails left
    ]
