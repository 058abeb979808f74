-- ===== src/Jit/Emit/Room.antt =====
-- What an emission leaves: the bytes that stand, the room that is left, and the memory that is not touched.
use mr_iss.Jit.Emit.{Gen, write, code_final, emit}
use mr_iss.Jit.Emit.X86.{Holds}
use mr_iss.Jit.Emit.Code.{length-append, Holds-append, write-below, write-above, Holds-write}
use mr_iss.Base.{
  ℕ, ◌+◌, ◌-◌, ◌≤◌, ◌<◌, ◌≡◌, refl, ◌∙◌, ◌⊎◌, inl, inr, true, false, List, [], ◌++◌, arith, ltb,
  Bool-cases, length,
}

-- The bytes were emitted with room for them.
pub record Emitted (g h : Gen) (bs : List ℕ) : Type 0 where
  pub place : h.place ≡ g.place + length bs
  pub room : h.len + length bs ≡ g.len
  pub in_room : h.oom_abort ≡ false
  pub holds : Holds h.code g.place bs
  pub below : (x : ℕ) → x < g.place → h.code x ≡ g.code x
  pub above : (x : ℕ) → h.place ≤ x → h.code x ≡ g.code x

final_cases :
    (g : Gen) (n : ℕ)
    → ((g.len < n) × (code_final g n ≡ record g { oom_abort = true }))
      ⊎ ((n ≤ g.len) × (code_final g n ≡ record g { place = g.place + n; len = g.len - n }))
unfolding code_final
final_cases g n = elim (Bool-cases (ltb g.len n)) [
  | inl e ↦ inl (ground arith, rw e refl)
  | inr e ↦ inr (ground arith, rw e refl)
]

-- Whether or not there was room, the bytes stand at the place.
pub emit-Holds : (g : Gen) (bs : List ℕ) → Holds (emit g bs).code g.place bs
unfolding emit
emit-Holds g bs = elim (final_cases (record g { code = write g.code g.place bs }) (length bs)) [
  | inl (k, e) ↦ rw e (Holds-write g.code g.place bs)
  | inr (k, e) ↦ rw e (Holds-write g.code g.place bs)
]

-- Nothing but the place and the bytes after it is written.
pub emit-kept :
    (g : Gen) (bs : List ℕ) (x : ℕ)
    → (x < g.place) ⊎ (g.place + length bs ≤ x)
    → (emit g bs).code x ≡ g.code x
unfolding emit
emit-kept g bs x h =
    let same : write g.code g.place bs x ≡ g.code x = elim h [
      | inl k ↦ write-below g.code g.place bs x k
      | inr k ↦ write-above g.code g.place bs x k
    ] in
    elim (final_cases (record g { code = write g.code g.place bs }) (length bs)) [
      | inl (k, e) ↦ rw e same
      | inr (k, e) ↦ rw e same
    ]

-- With room for the bytes they are emitted, and without it the emission says so.
pub emit-Emitted :
    (g : Gen) (bs : List ℕ)
    → g.oom_abort ≡ false
    → ((emit g bs).oom_abort ≡ true) × (g.len < length bs) ⊎ Emitted g (emit g bs) bs
unfolding emit
emit-Emitted g bs ok =
    elim (final_cases (record g { code = write g.code g.place bs }) (length bs)) [
      | inl (k, e) ↦ inl (rw e refl, k)
      | inr (k, e) ↦ inr (
          rw e (record {
            place = refl;
            room = omega arith;
            in_room = ok;
            holds = Holds-write g.code g.place bs;
            below = λ x h. write-below g.code g.place bs x h;
            above = λ x h. write-above g.code g.place bs x h;
          }))
    ]

pub Emitted-append :
    {g h k : Gen} {bs cs : List ℕ} → Emitted g h bs → Emitted h k cs → Emitted g k (bs ++ cs)
Emitted-append {g} {h} {k} {bs} {cs} e f = record {
  place = omega (arith, e.place, f.place, length-append bs cs);
  room = omega (arith, e.room, f.room, length-append bs cs);
  in_room = f.in_room;
  holds =
      Holds-append k.code g.place bs cs
        (λ i l. f.below (g.place + i) (omega (arith, e.place)) ∙ e.holds i l)
        (rw (← e.place) f.holds);
  below = λ x l. f.below x (omega (arith, e.place)) ∙ e.below x l;
  above = λ x l. f.above x l ∙ e.above x (omega (arith, f.place));
}

pub Emitted-nil : (g : Gen) → g.oom_abort ≡ false → Emitted g g []
Emitted-nil g ok = record {
  place = omega arith;
  room = omega arith;
  in_room = ok;
  holds = λ i h. absurd (omega arith);
  below = λ x h. refl;
  above = λ x h. refl;
}
