-- ===== src/Notifier/Windows.antt =====
-- quiethours.go: the quiet window on the clock.
use aura_risk.Base.{
  Text, sym, ap, ◌∙◌, ℕ, ◌+◌, ◌-◌, ◌*◌, ◌%◌, ◌<◌, ◌≡◌, refl, ◌≢◌, ◌↔◌, true, some, arith,
  Option-cases, inl, inr,
}
use aura_risk.Notifier.{in_window, Clock, QuietHours, quiet, validate, parse_clock}

-- Of two times of day that differ, a minute of the day is in the window from the first to the
-- second exactly if going round the clock from the first reaches it before the second.
pub in_window_iff :
    (start stop minute : ℕ)
    → start < 1440
    → stop < 1440
    → minute < 1440
    → start ≢ stop
    → (in_window start stop minute ≡ true)
      ↔ ((minute + 1440 - start) % 1440 < (stop + 1440 - start) % 1440)
unfolding in_window
in_window_iff start stop minute a b c d = (λ e. ground arith, λ e. ground arith)

-- What Go's documentation says of the clock: hours are below 24 and minutes below 60, and whether
-- a zone is known does not depend on the time.
pub record IsClock (clock : Clock) : Type 0 where
  pub parsed : (v : Text) (h m : ℕ) → clock.parse v ≡ some (h, m) → (h < 24) × (m < 60)
  pub shown : (z : Text) (t h m : ℕ) → clock.local z t ≡ some (h, m) → (h < 24) × (m < 60)
  pub known :
      (z : Text) (t h m : ℕ)
      → clock.local z 0 ≡ some (h, m)
      → (hour : ℕ) × (minute : ℕ) × (clock.local z t ≡ some (hour, minute))

-- The minute of the day that a clock shows.
pub record IsMinute (clock : Clock) (zone : Text) (t minute : ℕ) : Type 0 where
  pub hour : ℕ
  pub past : ℕ
  pub shown : clock.local zone t ≡ some (hour, past)
  pub sum : minute ≡ hour * 60 + past
  pub bounded : minute < 1440

-- A window's ends.
pub record IsWindow (clock : Clock) (q : QuietHours) (start stop : ℕ) : Type 0 where
  pub start_parsed : parse_clock clock q.start ≡ some start
  pub stop_parsed : parse_clock clock q.stop ≡ some stop
  pub start_bounded : start < 1440
  pub stop_bounded : stop < 1440
  pub differ : start ≢ stop
  pub zone : (h : ℕ) × (m : ℕ) × (clock.local q.timezone 0 ≡ some (h, m))

parse_clock_bounded :
    (clock : Clock) (v : Text) (n : ℕ) → IsClock clock → parse_clock clock v ≡ some n → n < 1440
unfolding parse_clock
parse_clock_bounded clock v n c e = elim (Option-cases (clock.parse v)) [
  | inl bad ↦ absurd (ground arith)
  | inr ((h, m), good) ↦ ground (arith, c.parsed v h m good)
]

validate-IsWindow :
    (clock : Clock) (q : QuietHours)
    → IsClock clock
    → validate clock q ≡ true
    → (start : ℕ) × (stop : ℕ) × IsWindow clock q start stop
unfolding validate
validate-IsWindow clock q c v = elim (Option-cases (parse_clock clock q.start)) [
  | inl bad ↦ absurd (ground arith)
  | inr (start, first) ↦ elim (Option-cases (parse_clock clock q.stop)) [
    | inl bad ↦ absurd (ground arith)
    | inr (stop, second) ↦ elim (Option-cases (clock.local q.timezone 0)) [
      | inl bad ↦ absurd (ground arith)
      | inr ((h, m), zone) ↦ (
        start,
        stop,
        record {
          start_parsed = first;
          stop_parsed = second;
          start_bounded = parse_clock_bounded clock q.start start c first;
          stop_bounded = parse_clock_bounded clock q.stop stop c second;
          differ = ground arith;
          zone = (h, m, zone);
        },
      )
    ]
  ]
]

window-IsMinute :
    (clock : Clock) (q : QuietHours) (t h m : ℕ)
    → IsClock clock
    → clock.local q.timezone 0 ≡ some (h, m)
    → (minute : ℕ) × IsMinute clock q.timezone t minute
window-IsMinute clock q t h m c e =
    let (hour, past, shown) = c.known q.timezone t h m e in
    let (hours, pasts) = c.shown q.timezone t hour past shown in
    (
      hour * 60 + past,
      record { hour = hour; past = past; shown = shown; sum = refl; bounded = omega arith },
    )

shown_window :
    (clock : Clock) (q : QuietHours) (start stop t hour past : ℕ)
    → parse_clock clock q.start ≡ some start
    → parse_clock clock q.stop ≡ some stop
    → clock.local q.timezone t ≡ some (hour, past)
    → quiet clock q t ≡ in_window start stop (hour * 60 + past)
unfolding quiet
shown_window clock q start stop t hour past a b c = ground arith

quiet-in_window :
    (clock : Clock) (q : QuietHours) (start stop t minute : ℕ)
    → IsWindow clock q start stop
    → IsMinute clock q.timezone t minute
    → quiet clock q t ≡ in_window start stop minute
quiet-in_window clock q start stop t minute w m =
    shown_window clock q start stop t m.hour m.past w.start_parsed w.stop_parsed m.shown
    ∙ ap (in_window start stop) (sym m.sum)

quiet_iff :
    (clock : Clock) (q : QuietHours) (start stop t minute : ℕ)
    → IsWindow clock q start stop
    → IsMinute clock q.timezone t minute
    → (quiet clock q t ≡ true) ↔ ((minute + 1440 - start) % 1440 < (stop + 1440 - start) % 1440)
quiet_iff clock q start stop t minute w m =
    rw (quiet-in_window clock q start stop t minute w m)
      (in_window_iff start stop minute w.start_bounded w.stop_bounded m.bounded w.differ)

-- Quiet hours that pass validation, on a clock as Go documents it, hold at a time exactly if going
-- round the clock from their start reaches the time's minute of the day, as shown in their zone,
-- before their end. So a window whose end is before its start goes on past midnight.
pub validate-quiet :
    (clock : Clock) (q : QuietHours)
    → IsClock clock
    → validate clock q ≡ true
    → (start : ℕ) × (stop : ℕ) × IsWindow clock q start stop
      × ((t : ℕ)
          → (minute : ℕ) × IsMinute clock q.timezone t minute
            × ((quiet clock q t ≡ true)
                ↔ ((minute + 1440 - start) % 1440 < (stop + 1440 - start) % 1440)))
validate-quiet clock q c v =
    let (start, stop, w) = validate-IsWindow clock q c v in
    let (h, m, zone) = w.zone in
    (
      start,
      stop,
      w,
      λ t.
          let (minute, shown) = window-IsMinute clock q t h m c zone in
          (minute, shown, quiet_iff clock q start stop t minute w shown),
    )
