-- ===== src/Shm/Entities/Flags.antt =====
-- What a reader takes out of an entity's record: the bits of its flags and its place in its list.
use Prim.Native.Nat.{bit_and}
use kstep.Prelude.{
  ℕ, ◌≡◌, refl, Bool, true, false, not, ◌&&◌, List, [], ◌∷◌, get_elem?, Option, some, arith, ◌==◌,
}
use kstep.Cpu.Mask.{test_cpu}
use kstep.Shm.{se_eligible, se_delayed, se_on_rq, se_curr, se_pick}
use kstep.Shm.Entities.{SchedEntity, is_addr, or_if, shm_se, RtTask, ahead, shm_rt_entity}

abbrev pub has_bit : ℕ → ℕ → Bool
has_bit flags bit = not (bit_and flags bit == 0)

-- Over the Booleans, check every value by evaluation.
abbrev both : (Bool → Bool) → Bool
both p = p true && p false

both_sound : (p : Bool → Bool) (b : Bool) → both p ≡ true → p b ≡ true
both_sound p true h = ground (arith, h)
both_sound p false h = ground (arith, h)

abbrev same : Bool → Bool → Bool
same true b = b
same false b = not b

same-eq : (a b : Bool) → same a b ≡ true → a ≡ b
same-eq true true h = refl
same-eq true false h = cc
same-eq false true h = cc
same-eq false false h = refl

abbrev word : Bool → Bool → Bool → Bool → Bool → ℕ
word pick eligible delayed curr on_rq = or_if pick se_pick (
    or_if eligible se_eligible
      (or_if delayed se_delayed (or_if curr se_curr (or_if on_rq se_on_rq 0))))

abbrev agrees : Bool → Bool → Bool → Bool → Bool → Bool
agrees p e d c o =
    same (has_bit (word p e d c o) se_pick) p
    && (same (has_bit (word p e d c o) se_eligible) e
        && (same (has_bit (word p e d c o) se_delayed) d
            && (same (has_bit (word p e d c o) se_curr) c
                && same (has_bit (word p e d c o) se_on_rq) o)))

agrees_table : both (λ p. both (λ e. both (λ d. both (λ c. both (λ o. agrees p e d c o))))) ≡ true
agrees_table = refl

agrees_lem : (p e d c o : Bool) → agrees p e d c o ≡ true
agrees_lem p e d c o = both_sound (agrees p e d c) o (
    both_sound (λ c. both (agrees p e d c)) c
      (both_sound (λ d. both (λ c. both (agrees p e d c))) d
        (both_sound (λ e. both (λ d. both (λ c. both (agrees p e d c)))) e
          (both_sound (λ p. both (λ e. both (λ d. both (λ c. both (agrees p e d c))))) p
            agrees_table))))

and-eq : (a b : Bool) → (a && b) ≡ true → (a ≡ true) × (b ≡ true)
and-eq true b h = (refl, h)
and-eq false b h = cc

-- Each bit of the flags of an entity's record is set exactly if what it stands for holds: it is
-- queued and the kernel's pick, it is queued and eligible, its dequeue is delayed, it is the
-- queue's current entity, and it is queued.
pub shm_se-flags :
    (se : SchedEntity)
    → (has_bit (shm_se se).flags se_pick ≡ se.on_rq && is_addr se.cfs_rq.pick_eevdf se.addr)
      × (has_bit (shm_se se).flags se_eligible ≡ se.on_rq && se.entity_eligible)
      × (has_bit (shm_se se).flags se_delayed ≡ se.sched_delayed)
      × (has_bit (shm_se se).flags se_curr ≡ (se.cfs_rq.curr == se.addr))
      × (has_bit (shm_se se).flags se_on_rq ≡ se.on_rq)
unfolding shm_se
shm_se-flags se =
    let p = se.on_rq && is_addr se.cfs_rq.pick_eevdf se.addr in
    let e = se.on_rq && se.entity_eligible in
    let c = se.cfs_rq.curr == se.addr in
    let (hp, r) = and-eq _ _ (agrees_lem p e se.sched_delayed c se.on_rq) in
    let (he, r') = and-eq _ _ r in
    let (hd, r'') = and-eq _ _ r' in
    let (hc, ho) = and-eq _ _ r'' in
    (same-eq _ _ hp, same-eq _ _ he, same-eq _ _ hd, same-eq _ _ hc, same-eq _ _ ho)

ahead-at :
    (p : ℕ) (queue : List ℕ) → test_cpu p queue ≡ true → get_elem? queue (ahead p queue) ≡ some p
unfolding ahead
ahead-at p [] h = cc
ahead-at p (q ∷ queue) h = ground (arith, ahead-at p queue)

-- The position of a task that stands on its list is its place there.
pub shm_rt_entity-position :
    (p : RtTask) (task : ℕ) (pick : Option ℕ) (curr : ℕ)
    → p.on_list ≡ true
    → test_cpu p.addr p.queue ≡ true
    → get_elem? p.queue (shm_rt_entity p task pick curr).position ≡ some p.addr
unfolding shm_rt_entity
shm_rt_entity-position p task pick curr on h = rw on (ahead-at p.addr p.queue h)
