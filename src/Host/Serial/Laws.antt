-- ===== src/Host/Serial/Laws.antt =====
-- The callback of the serial lines, over every order of the listener's rounds, reads and registrations.
use mr_iss.Base.{
  ℕ, suc, ◌≡◌, refl, sym, ap, Bool, true, false, ◌&&◌, List, [], ◌∷◌, arith, ◌==◌, if◌then◌else◌,
  if_all,
}
use mr_iss.Host.Serial.{
  Line, Polled, Read, is_open, notify, listen_tcp, listen_pty, get_byte_tcp, get_byte_pty,
  register_async_rx_cb,
}

pub data Event : Type 0 where
  polled : Polled → Event
  reads : List Read → Event
  registered : Bool → Event

-- A round of the listener, and what a read leaves.
pub record Side : Type 0 where
  pub listen : Polled → Line → Line × Bool
  pub left_by : List Read → Line → Line

abbrev first_of : List Read → Read
first_of [] = Read.failed
first_of (r ∷ rs) = r

abbrev pub tcp : Side
tcp = record { listen = listen_tcp; left_by = λ rs s. (get_byte_tcp (first_of rs) s).1 }

abbrev pub pty : Side
pty = record { listen = listen_pty; left_by = λ rs s. (get_byte_pty rs s).1 }

-- A line and the calls since the last read.
abbrev pub step : Side → Event → Line × ℕ → Line × ℕ
step side (polled p) (s, calls) = let r = side.listen p s in (r.0, if r.1 then suc calls else calls)
step side (reads rs) (s, calls) = (side.left_by rs s, 0)
step side (registered b) (s, calls) = (register_async_rx_cb b s, calls)

abbrev pub run : Side → List Event → Line × ℕ → Line × ℕ
run side [] k = k
run side (e ∷ es) k = run side es (step side e k)

-- None if the next input is to be reported, and else one.
abbrev IsCounted : Line × ℕ → Type 0
IsCounted k = k.1 ≡ (if k.0.report_rx then 0 else 1)

abbrev Counts : Side → Type 0
Counts side =
    ((p : Polled) (s : Line) (calls : ℕ)
      → IsCounted (s, calls)
      → IsCounted (step side (polled p) (s, calls)))
    × ((rs : List Read) (s : Line) → (side.left_by rs s).report_rx ≡ true)

-- After a round of the listener.
abbrev Heard : ℕ → Line × Bool → Type 0
Heard calls r = IsCounted (r.0, if r.1 then suc calls else calls)

notify-Heard : (s : Line) (calls : ℕ) → IsCounted (s, calls) → Heard calls (notify s)
unfolding notify
notify-Heard s calls h = ground (arith, h)

tcp-Counts : Counts tcp
unfolding listen_tcp get_byte_tcp
tcp-Counts = (
  λ p s calls h.
      let s1 = if p.has_caller then record s { fd = p.accepted } else s in
      let h1 : IsCounted (s1, calls) = if_all (λ t. IsCounted (t, calls)) p.has_caller _ _ h h in
      if_all (Heard calls) (is_open s && p.is_dropped) _ _ h1
        (if_all (Heard calls) (is_open s && p.has_input) _ _ (notify-Heard s1 calls h1) h1),
  λ rs s. refl,
)

pty-Counts : Counts pty
unfolding listen_pty get_byte_pty
pty-Counts = (
  λ p s calls h.
      if_all (Heard calls) (is_open s && p.is_dropped) _ _ h
        (if_all (Heard calls) (is_open s && p.has_input) _ _ (notify-Heard s calls h) h),
  λ rs s. refl,
)

registered-IsCounted :
    (b : Bool) (s : Line) (calls : ℕ)
    → IsCounted (s, calls)
    → IsCounted (register_async_rx_cb b s, calls)
unfolding register_async_rx_cb
registered-IsCounted b s calls h = h

run-IsCounted :
    (side : Side) (es : List Event) (k : Line × ℕ)
    → Counts side
    → IsCounted k
    → IsCounted (run side es k)
run-IsCounted side [] k c h = h
run-IsCounted side (polled p ∷ es) (s, calls) c h =
    run-IsCounted side es (step side (polled p) (s, calls)) c (c.0 p s calls h)
run-IsCounted side (reads rs ∷ es) (s, calls) c h =
    run-IsCounted side es (step side (reads rs) (s, calls)) c
      (sym (ap (λ b. if b then 0 else 1) (c.1 rs s)))
run-IsCounted side (registered b ∷ es) (s, calls) c h =
    run-IsCounted side es (step side (registered b) (s, calls)) c (registered-IsCounted b s calls h)

-- The callback was called once since the last read if the line does not report, and else not; input on an open line is reported
-- exactly when it was not.
abbrev pub Notified : Side → Line × ℕ → Type 0
Notified side k =
    (k.1 ≡ (if k.0.report_rx then 0 else 1))
    × ((p : Polled)
        → is_open k.0 ≡ true
        → k.0.has_cb ≡ true
        → p.is_dropped ≡ false
        → p.has_input ≡ true
        → (side.listen p k.0).1 ≡ (k.1 == 0))

notify-calls :
    (s : Line) (calls : ℕ) → s.has_cb ≡ true → IsCounted (s, calls) → (notify s).1 ≡ (calls == 0)
unfolding notify
notify-calls s calls h c = ground (arith, h, c)

-- From a line that reports, after any sequence of the listener's rounds, reads and registrations of a callback, for a
-- line of either kind: the callback was called once since the last read if the line does not report, and else not; and
-- where the line is open and has a callback, a round that finds input and no hang-up calls it exactly when it was not.
pub run-Notified :
    (es : List Event) (s : Line)
    → s.report_rx ≡ true
    → Notified tcp (run tcp es (s, 0)) × Notified pty (run pty es (s, 0))
unfolding listen_tcp listen_pty
run-Notified es s h =
    let start : IsCounted (s, 0) = sym (ap (λ b. if b then 0 else 1) h) in
    let t = run tcp es (s, 0) in
    let u = run pty es (s, 0) in
    let tc = run-IsCounted tcp es (s, 0) tcp-Counts start in
    let uc = run-IsCounted pty es (s, 0) pty-Counts start in
    (
      (
        tc,
        λ p o c d i.
            rw (o, d, i)
              (if_all (λ (l : Line). (notify l).1 ≡ (t.1 == 0)) p.has_caller _ _
                (notify-calls (record t.0 { fd = p.accepted }) t.1 c tc)
                (notify-calls t.0 t.1 c tc)),
      ),
      (uc, λ p o c d i. rw (o, d, i) (notify-calls u.0 u.1 c uc)),
    )
