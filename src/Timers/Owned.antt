-- ===== src/Timers/Owned.antt =====
-- `register_timer`, `unregister_timer` and `timer_get_expired` of Kernel/timer.c over the identifiers of
-- Kernel/pid.c: every timer owns its identifier.
use shaunos.Base.{
  ℕ, ◌+◌, ◌/◌, ◌%◌, ◌<◌, ◌≡◌, ◌≢◌, refl, sym, ◌∙◌, ap, arith, Bool, true, false, Option, some, List,
  [], ◌∷◌, ◌++◌, ◌==◌, if◌then◌else◌, Bool-cases, Option-cases, inl, inr, ==→eq, ==→ne, eq→==,
  ne→==, length,
}
use shaunos.Base.Int.{pos, negsuc, u32_mod}
use shaunos.Base.Fault.{ok}
use shaunos.Kid.{KidObject}
use shaunos.Kid.Inv.{is_free}
use shaunos.Kid.Inv
use shaunos.Kid.Alloc.{Allocated, Defined, get_unused_id-Allocated, is_free-inside}
use shaunos.Kid.Release.{put_id-frees}
use shaunos.Timers.{
  Timer, Timers, Kind, einval, enobufs, not_one_kind, new_timer, register_timer, del_timer,
  unregister_timer, find_expires, timer_get_expired,
}

-- An identifier that no timer of the list has.
abbrev pub Absent : ℕ → List Timer → Type 0
Absent id [] = Unit {0}
Absent id (t ∷ ts) = (t.timer_id ≢ id) × Absent id ts

-- The timers have different identifiers, none of which is free.
abbrev pub AllOwned : KidObject → List Timer → Type 0
AllOwned ids [] = Unit {0}
AllOwned ids (t ∷ ts) = (is_free ids t.timer_id ≡ false) × Absent t.timer_id ts × AllOwned ids ts

pub record IsValid (s : Timers) : Type 0 where
  pub ids-valid : Inv.IsValid s.ids
  pub owned : AllOwned s.ids s.timers

free-Absent :
    (ids : KidObject) (id : ℕ) (ts : List Timer)
    → is_free ids id ≡ true
    → AllOwned ids ts
    → Absent id ts
free-Absent ids id [] free h = tt
free-Absent ids id (t ∷ ts) free (taken, apart, h) =
    ((λ e. absurd (cc (ap (is_free ids) e))), free-Absent ids id ts free h)

Absent-append :
    (id : ℕ) (ts : List Timer) (t : Timer)
    → Absent id ts
    → t.timer_id ≢ id
    → Absent id (ts ++ t ∷ [])
Absent-append id [] t h ne = (ne, tt)
Absent-append id (u ∷ ts) t (n, h) ne = (n, Absent-append id ts t h ne)

-- A timer with an identifier that has just been taken comes behind the others.
AllOwned-append :
    (ids ids' : KidObject) (ts : List Timer) (t : Timer)
    → ((j : ℕ) → is_free ids' j ≡ (if j == t.timer_id then false else is_free ids j))
    → AllOwned ids ts
    → Absent t.timer_id ts
    → AllOwned ids' (ts ++ t ∷ [])
AllOwned-append ids ids' [] t taken h a = (ground (arith, taken t.timer_id), tt, tt)
AllOwned-append ids ids' (u ∷ ts) t taken (u_taken, apart, h) (ne, a) = (
  ground (arith, taken u.timer_id),
  Absent-append u.timer_id ts t apart (λ e. ne (sym e)),
  AllOwned-append ids ids' ts t taken h a,
)

find_expires-append :
    (id : ℕ) (ts : List Timer) (t : Timer)
    → Absent id ts
    → t.timer_id ≡ id
    → find_expires id (ts ++ t ∷ []) ≡ some t.expires
unfolding find_expires
find_expires-append id [] t h e = rw (eq→== _ _ e) refl
find_expires-append id (u ∷ ts) t (ne, h) e = rw (ne→== _ _ ne) (find_expires-append id ts t h e)

del_timer-append :
    (id : ℕ) (ts : List Timer) (t : Timer)
    → Absent id ts
    → t.timer_id ≡ id
    → del_timer id (ts ++ t ∷ []) ≡ some ts
unfolding del_timer
del_timer-append id [] t h e = rw (eq→== _ _ e) refl
del_timer-append id (u ∷ ts) t (ne, h) e = rw (ne→== _ _ ne, del_timer-append id ts t h e) refl

-- What `register_timer` does when it succeeds: a timer with the lowest free identifier stands behind the
-- others.
pub record Registered (s : Timers) (expired : ℕ) (k : Kind) (callback : Option ℕ) (arg : ℕ)
    (s' : Timers) (id : ℕ) : Type 0 where
  pub taken : Allocated s.ids s'.ids id
  pub behind : s'.timers ≡ s.timers ++ new_timer id s.ticks expired k callback arg ∷ []
  pub ticks-eq : s'.ticks ≡ s.ticks
  pub valid : IsValid s'
  pub readable : timer_get_expired (pos id) s' ≡ (pos 0, some ((s.ticks + expired) % u32_mod))

-- Where the timers own their identifiers, some identifier is free, memory is found and exactly one kind
-- is asked for, `register_timer` returns the lowest free identifier, and the timers own theirs after it;
-- `timer_get_expired` then gives the time that the timer was set for. The fuel reaches from the start of
-- the search to the word of the free identifier; and what `bsf` leaves in its register at a word of
-- zeros, which is undefined, is either the -1 that the code looks for, or the word where the search
-- starts is not 0.
pub register_timer-Registered :
    (residue : Option ℕ) (fuel : ℕ) (expired : ℕ) (k : Kind) (callback : Option ℕ) (arg : ℕ)
    (s : Timers) (free : ℕ)
    → Defined residue s.ids
    → IsValid s
    → is_free s.ids free ≡ true
    → free / 32 < s.ids.offset + fuel
    → not_one_kind k ≡ false
    → (s' : Timers) × (id : ℕ) × (register_timer residue fuel true (pos expired) k callback arg s
        ≡ ok (s', pos id))
      × Registered s expired k callback arg s' id
unfolding register_timer timer_get_expired
register_timer-Registered residue fuel expired k callback arg s free defined v is enough one =
    let (ids', id, got, a) =
      get_unused_id-Allocated residue fuel s.ids free defined v.ids-valid is enough in
    let t = new_timer id s.ticks expired k callback arg in
    let absent = free-Absent s.ids id s.timers a.was_free v.owned in
    let s' : Timers = record s { ids = ids'; timers = s.timers ++ t ∷ [] } in
    (
      s',
      id,
      (rw (one, got) refl),
      record {
        taken = a;
        behind = refl;
        ticks-eq = refl;
        valid = record {
          ids-valid = a.valid;
          owned = AllOwned-append s.ids ids' s.timers t a.taken v.owned absent;
        };
        readable = rw (find_expires-append id s.timers t absent refl, timer_get_expired) refl;
      },
    )

-- A negative time, no kind or two, or no memory: `register_timer` changes nothing and returns an error.
pub register_timer_errors :
    (residue : Option ℕ) (fuel : ℕ) (room : Bool) (k : Kind) (callback : Option ℕ) (arg expired : ℕ)
    (s : Timers)
    → (register_timer residue fuel room (negsuc expired) k callback arg s ≡ ok (s, einval))
      × ((if not_one_kind k
            then register_timer residue fuel room (pos expired) k callback arg s
            else register_timer residue fuel false (pos expired) k callback arg s)
          ≡ ok (s, if not_one_kind k then einval else enobufs))
unfolding register_timer
register_timer_errors residue fuel room k callback arg expired s =
    elim (Bool-cases (not_one_kind k)) [
      | inl bad ↦ rw bad (refl, refl)
      | inr one ↦ rw one (refl, refl)
    ]

Absent-del_timer :
    (id j : ℕ) (ts us : List Timer) → del_timer id ts ≡ some us → Absent j ts → Absent j us
unfolding del_timer
Absent-del_timer id j [] us e h = cc
Absent-del_timer id j (t ∷ ts) us e (n, h) = elim (Bool-cases (t.timer_id == id)) [
  | inl here ↦ let q : some ts ≡ some us = rw here at e in let p : ts ≡ us = cc in rw (← p) h
  | inr there ↦ elim (Option-cases (del_timer id ts)) [
    | inl lost ↦ absurd (ground (arith, e, lost, there))
    | inr (vs, found) ↦
        let q : some (t ∷ vs) ≡ some us = rw (there, found) at e in
        let p : t ∷ vs ≡ us = cc in rw (← p) (n, Absent-del_timer id j ts vs found h)
  ]
]

-- The others keep their identifiers when one timer is removed and its identifier freed.
AllOwned-del_timer :
    (ids ids' : KidObject) (id : ℕ) (ts us : List Timer)
    → del_timer id ts ≡ some us
    → ((j : ℕ) → is_free ids' j ≡ (if j == id then true else is_free ids j))
    → AllOwned ids ts
    → AllOwned ids' us × Absent id us × (is_free ids id ≡ false)
unfolding del_timer
AllOwned-del_timer ids ids' id [] us e freed h = cc
AllOwned-del_timer ids ids' id (t ∷ ts) us e freed (taken, apart, h) =
    elim (Bool-cases (t.timer_id == id)) [
      | inl here ↦
          let same : t.timer_id ≡ id = ==→eq _ _ here in
          let q : some ts ≡ some us = rw here at e in
          let p : ts ≡ us = cc in
          let away : Absent id ts = rw same at apart in
          rw (← p) (still ts away h, away, (rw same at taken))
      | inr there ↦ elim (Option-cases (del_timer id ts)) [
        | inl lost ↦ absurd (ground (arith, e, lost, there))
        | inr (vs, found) ↦
            let q : some (t ∷ vs) ≡ some us = rw (there, found) at e in
            let p : t ∷ vs ≡ us = cc in
            let (owned, absent, was) = AllOwned-del_timer ids ids' id ts vs found freed h in
            rw (← p) (
              (
                ground (arith, freed t.timer_id),
                Absent-del_timer id t.timer_id ts vs found apart,
                owned,
              ),
              (==→ne _ _ there, absent),
              was,
            )
      ]
    ]
  where
    still : (rest : List Timer) → Absent id rest → AllOwned ids rest → AllOwned ids' rest
    still [] a o = tt
    still (u ∷ rest) (ne, a) (u_taken, u_apart, o) =
        (ground (arith, freed u.timer_id, ne→== _ _ ne), u_apart, still rest a o)

-- What is left when the timer of an identifier has been removed.
pub record Unregistered (s : Timers) (id : ℕ) (s' : Timers) : Type 0 where
  pub valid : IsValid s'
  pub removed : del_timer id s.timers ≡ some s'.timers
  pub gone : Absent id s'.timers
  pub freed : (j : ℕ) → is_free s'.ids j ≡ (if j == id then true else is_free s.ids j)
  pub ticks-eq : s'.ticks ≡ s.ticks

-- Where the timers own their identifiers and one of them has the identifier, which lies inside the map:
-- `unregister_timer` takes that timer alone out of the list, frees its identifier alone, and the others
-- own theirs after it.
pub unregister_timer-Unregistered :
    (id : ℕ) (s : Timers) (ts : List Timer)
    → IsValid s
    → del_timer id s.timers ≡ some ts
    → id / 32 < length s.ids.kid_map
    → (s' : Timers) × (unregister_timer (pos id) s ≡ ok (s', pos 0)) × Unregistered s id s'
unfolding unregister_timer
unregister_timer-Unregistered id s ts v found inside =
    let (ids', put, valid, freed) = put_id-frees s.ids id v.ids-valid inside in
    let (owned, absent, was) = AllOwned-del_timer s.ids ids' id s.timers ts found freed v.owned in
    (
      record s { ids = ids'; timers = ts },
      (rw (found, put, unregister_timer) refl),
      record {
        valid = record { ids-valid = valid; owned = owned };
        removed = found;
        gone = absent;
        freed = freed;
        ticks-eq = refl;
      },
    )

-- A timer that is registered and unregistered leaves the list as it was and the same identifiers free.
pub unregister_timer-register_timer :
    (residue : Option ℕ) (fuel : ℕ) (expired : ℕ) (k : Kind) (callback : Option ℕ) (arg : ℕ)
    (s : Timers) (free : ℕ)
    → Defined residue s.ids
    → IsValid s
    → is_free s.ids free ≡ true
    → free / 32 < s.ids.offset + fuel
    → not_one_kind k ≡ false
    → (s1 : Timers) × (id : ℕ) × (s2 : Timers) × (register_timer residue fuel true
          (pos expired)
          k
          callback
          arg
          s
        ≡ ok (s1, pos id))
      × (unregister_timer (pos id) s1 ≡ ok (s2, pos 0))
      × (s2.timers ≡ s.timers)
      × ((j : ℕ) → is_free s2.ids j ≡ is_free s.ids j)
unregister_timer-register_timer residue fuel expired k callback arg s free defined v is enough one =
    let (s1, id, made, r) =
      register_timer-Registered residue fuel expired k callback arg s free defined v is enough
        one in
    let t = new_timer id s.ticks expired k callback arg in
    let absent = free-Absent s.ids id s.timers r.taken.was_free v.owned in
    let found : del_timer id s1.timers ≡ some s.timers =
      ap (del_timer id) r.behind ∙ del_timer-append id s.timers t absent refl in
    let (s2, done, u) =
      unregister_timer-Unregistered id s1 s.timers r.valid found (inside s1 id r.taken) in
    (
      s1,
      id,
      s2,
      made,
      done,
      back s2.timers (sym found ∙ u.removed),
      λ j. again s1 s2 id r.taken u j,
    )
  where
    back : (ts : List Timer) → some s.timers ≡ some ts → ts ≡ s.timers
    back ts e = cc

    inside : (s1 : Timers) (id : ℕ) → Allocated s.ids s1.ids id → id / 32 < length s1.ids.kid_map
    inside s1 id a = omega (
      arith,
      is_free-inside s.ids id a.was_free,
      v.ids-valid.sized,
      a.valid.sized,
      ap (λ n. n / 4) a.same_size,
    )

    again :
        (s1 s2 : Timers) (id : ℕ)
        → Allocated s.ids s1.ids id
        → Unregistered s1 id s2
        → (j : ℕ) → is_free s2.ids j ≡ is_free s.ids j
    again s1 s2 id a u j = elim (Bool-cases (j == id)) [
      | inl here ↦ ground (arith, u.freed j, a.taken j, a.was_free, ==→eq _ _ here)
      | inr there ↦ ground (arith, u.freed j, a.taken j)
    ]
