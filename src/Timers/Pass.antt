-- ===== src/Timers/Pass.antt =====
-- `timerisr` of Kernel/timer.c: which callbacks one walk through the list calls.
use shaunos.Base.{
  ℕ, ◌+◌, ◌%◌, ◌<◌, ◌≡◌, ◌⊎◌, refl, sym, ◌∙◌, ap, arith, true, false, none, some, List, [], ◌∷◌,
  ◌++◌, leb, ◌&&◌, if◌then◌else◌, inl, inr, append-nil, append_assoc, Bool, ◌≤◌, Bool-cases,
}
use shaunos.Base.Int.{u32_mod}
use shaunos.Timers.{
  Timer, Kind, call, new_timer, not_one_kind, fire_oneshot, fire_periodic, visit, isr_pass,
}

-- A timer of one kind, whose next time lies ahead and can be written in 32 bits.
pub record IsProper (ticks : ℕ) (t : Timer) : Type 0 where
  pub one_kind :
      not_one_kind (record { enabled = t.enabled; oneshot = t.oneshot; periodic = t.periodic })
      ≡ false
  pub ahead : 0 < t.interval + (if t.periodic then 0 else 1)
  pub fits : ticks + t.interval < u32_mod

abbrev pub AllProper : ℕ → List Timer → Type 0
AllProper ticks [] = Unit {0}
AllProper ticks (t ∷ ts) = IsProper ticks t × AllProper ticks ts

-- What the visit to a timer comes to.
visit-oneshot :
    (ticks : ℕ) (t : Timer)
    → t.oneshot ≡ true
    → t.periodic ≡ false
    → visit ticks t ≡ (
        if t.enabled && leb t.expires (ticks % u32_mod)
        then (record t { enabled = elim t.func [ none ↦ t.enabled | some f ↦ false ] }, call t)
        else (t, []))
unfolding visit fire_oneshot fire_periodic
visit-oneshot ticks t once never = ground (arith, append-nil (call t))

visit-periodic :
    (ticks : ℕ) (t : Timer)
    → t.oneshot ≡ false
    → t.periodic ≡ true
    → visit ticks t ≡ (
        if t.enabled && leb t.expires (ticks % u32_mod)
        then (record t { expires = (ticks + t.interval) % u32_mod }, call t)
        else (t, []))
unfolding visit fire_oneshot fire_periodic
visit-periodic ticks t never again = ground arith

kinds :
    (t : Timer)
    → not_one_kind (record { enabled = t.enabled; oneshot = t.oneshot; periodic = t.periodic })
      ≡ false
    → ((t.oneshot ≡ true) × (t.periodic ≡ false)) ⊎ ((t.oneshot ≡ false) × (t.periodic ≡ true))
kinds t h = ground arith

visit-quiet : (ticks : ℕ) (t : Timer) → IsProper ticks t → (visit ticks (visit ticks t).0).1 ≡ []
visit-quiet ticks t p = elim (kinds t p.one_kind) [
  | inl (once, never) ↦ ground (arith, visit-oneshot ticks t, visit-oneshot ticks (visit ticks t).0)
  | inr (never, again) ↦
      ground
        (arith, visit-periodic ticks t, visit-periodic ticks (visit ticks t).0, p.ahead, p.fits)
]

-- In one tick of the clock no timer is called twice: a second walk through the list, with the clock
-- where it was, calls nothing. The timers are of one kind each, and periodic ones have a positive period
-- that does not run over 32 bits.
pub isr_pass-quiet :
    (ticks : ℕ) (ts : List Timer)
    → AllProper ticks ts
    → (isr_pass ticks (isr_pass ticks ts).0).1 ≡ []
unfolding isr_pass
isr_pass-quiet ticks [] h = refl
isr_pass-quiet ticks (t ∷ ts) (p, ps) = rw (visit-quiet ticks t p) (isr_pass-quiet ticks ts ps)

pub isr_pass-append :
    (ticks : ℕ) (ts us : List Timer)
    → (isr_pass ticks (ts ++ us)).1 ≡ (isr_pass ticks ts).1 ++ (isr_pass ticks us).1
unfolding isr_pass
isr_pass-append ticks [] us = refl
isr_pass-append ticks (t ∷ ts) us =
    ap (λ cs. (visit ticks t).1 ++ cs) (isr_pass-append ticks ts us)
    ∙ sym (append_assoc (visit ticks t).1 (isr_pass ticks ts).1 (isr_pass ticks us).1)

isr_pass-append-left :
    (ticks : ℕ) (ts us : List Timer)
    → (isr_pass ticks (ts ++ us)).0 ≡ (isr_pass ticks ts).0 ++ (isr_pass ticks us).0
unfolding isr_pass
isr_pass-append-left ticks [] us = refl
isr_pass-append-left ticks (t ∷ ts) us =
    ap (λ vs. (visit ticks t).0 ∷ vs) (isr_pass-append-left ticks ts us)

-- What two walks through `ts` with a timer behind them call, the first at `now` and the second at
-- `later`; `due` says whether the first one finds the timer due.
pub record Walks (ts : List Timer) (now later : ℕ) (k : Kind) (f arg : ℕ) (due : Bool)
    (us : List Timer) (again : Bool) : Type 0 where
  pub first : (isr_pass now us).1 ≡ (isr_pass now ts).1 ++ (if due then (f, arg) ∷ [] else [])
  pub second :
      (isr_pass later (isr_pass now us).0).1
      ≡ (isr_pass later (isr_pass now ts).0).1 ++ (if again then (f, arg) ∷ [] else [])

-- one timer alone, through two walks
module _ (id start expired now later f arg : ℕ) (k : Kind) where
  abbrev fresh : Timer
  fresh = new_timer id start expired k (some f) arg

  -- whether the second walk finds it due
  abbrev pub due_again : Bool
  due_again =
      if leb (start + expired) now
      then k.periodic && leb (now + expired) later
      else leb (start + expired) later

  alone-first :
      k.enabled ≡ true
      → not_one_kind k ≡ false
      → start + expired < u32_mod
      → now < u32_mod
      → (visit now fresh).1 ≡ (if leb (start + expired) now then (f, arg) ∷ [] else [])
  alone-first on one fits now_fits =
      let e : (start + expired) % u32_mod ≡ start + expired = omega arith in
      let n : now % u32_mod ≡ now = omega arith in
      elim (kinds fresh one) [
        | inl (once, never) ↦ ground (arith, visit-oneshot now fresh once never, e, n)
        | inr (never, again) ↦ ground (arith, visit-periodic now fresh never again, e, n)
      ]

  alone-second :
      k.enabled ≡ true
      → not_one_kind k ≡ false
      → start + expired < u32_mod
      → now + expired < u32_mod
      → now ≤ later
      → later < u32_mod
      → (visit later (visit now fresh).0).1 ≡ (if due_again then (f, arg) ∷ [] else [])
  alone-second on one fits fits' order later_fits =
      let e : (start + expired) % u32_mod ≡ start + expired = omega arith in
      let n : now % u32_mod ≡ now = omega arith in
      let l : later % u32_mod ≡ later = omega arith in
      let a : (now + expired) % u32_mod ≡ now + expired = omega arith in
      elim (Bool-cases (leb (start + expired) now)) [
        | inl due ↦ elim (kinds fresh one) [
          | inl (once, never) ↦
              (let v : (visit now fresh).0 ≡ record fresh { enabled = false } =
                  ground (arith, visit-oneshot now fresh once never) in
                rw v (
                  ground
                    (arith, visit-oneshot later (record fresh { enabled = false }) once never)))
          | inr (never, again) ↦
              (let v : (visit now fresh).0
                    ≡ record fresh { expires = (now + fresh.interval) % u32_mod } =
                  ground (arith, visit-periodic now fresh never again) in
                let i : fresh.interval ≡ expired = rw again refl in
                rw (v, i, a, due, again)
                  (ground (
                    arith,
                    visit-periodic later (record fresh { expires = now + expired }) never again,
                  )))
        ]
        | inr not_due ↦ elim (kinds fresh one) [
          | inl (once, never) ↦
              (let v : (visit now fresh).0 ≡ fresh =
                  ground (arith, visit-oneshot now fresh once never) in
                rw v (ground (arith, visit-oneshot later fresh once never)))
          | inr (never, again) ↦
              (let v : (visit now fresh).0 ≡ fresh =
                  ground (arith, visit-periodic now fresh never again) in
                rw v (ground (arith, visit-periodic later fresh never again)))
        ]
      ]

-- A timer that is registered behind others, enabled and with a callback, is called once, behind them, by
-- a walk at or after the time that it was set for, and by no walk before. A second walk, no earlier than
-- the first, calls it if it is due then: a one-shot timer only where the first walk did not, and a
-- periodic one that the first walk called where its period has gone by since. The times and the clock
-- are taken to fit into 32 bits.
pub isr_pass-new_timer :
    (ts : List Timer) (id start expired now later f arg : ℕ) (k : Kind)
    → k.enabled ≡ true
    → not_one_kind k ≡ false
    → start + expired < u32_mod
    → now + expired < u32_mod
    → now ≤ later
    → later < u32_mod
    → Walks ts now later k f arg
        (leb (start + expired) now)
        (ts ++ new_timer id start expired k (some f) arg ∷ [])
        (due_again id start expired now later f arg k)
unfolding isr_pass
isr_pass-new_timer ts id start expired now later f arg k on one fits fits' order later_fits =
    record {
      first =
          isr_pass-append now ts (t ∷ [])
          ∙ ap (λ cs. (isr_pass now ts).1 ++ cs) (append-nil (visit now t).1 ∙ called);
      second =
          ap (λ us. (isr_pass later us).1) (isr_pass-append-left now ts (t ∷ []))
          ∙ isr_pass-append later (isr_pass now ts).0 ((visit now t).0 ∷ [])
          ∙ ap (λ cs. (isr_pass later (isr_pass now ts).0).1 ++ cs)
              (append-nil (visit later (visit now t).0).1 ∙ called_again);
    }
  where
    t : Timer
    t = new_timer id start expired k (some f) arg

    called : (visit now t).1 ≡ (if leb (start + expired) now then (f, arg) ∷ [] else [])
    called = alone-first id start expired now later f arg k on one fits (omega arith)

    called_again :
        (visit later (visit now t).0).1
        ≡ (if due_again id start expired now later f arg k then (f, arg) ∷ [] else [])
    called_again =
        alone-second id start expired now later f arg k on one fits fits' order later_fits
