-- ===== src/App/Invariant/Cases.antt =====
-- internal/app/app.go: the invariant under each kind of step.
use joyrun.Base.{
  ℕ, ◌+◌, String, ◌≡◌, refl, sym, ◌∙◌, true, false, inl, inr, ◌∷◌, any, All, nat_eq, nat_eq_iff,
  eq_refl, arith, Bool-cases,
}
use joyrun.App.Phases.{Phase, quiet, ready}
use joyrun.App.World.{World, put}
use joyrun.App.Invariant.{
  starts, HasRevision, IsTrue, Inv, is_ready, ready-eq, put-all, put-ready, Settled,
}
use joyrun.App.Invariant.Phases.{still_set, true-live}

module _ (id : String) where
  pub Inv-stranger :
      {w w' : World} {ph : ℕ → Phase} (n : ℕ) (p : Phase) (inv : Inv id w ph)
      → All (HasRevision id inv.rev) w'.db.tasks
      → (any (starts id) w.db.task_events ≡ true → any (starts id) w'.db.task_events ≡ true)
      → w'.sbatches ≡ w.sbatches
      → Settled id inv.rev inv.live p
      → Inv id w' (put ph n p)
  Inv-stranger {w} {w'} {ph} n p inv rows more sent s = record {
    rev = inv.rev;
    live = inv.live;
    rows = rows;
    fenced = λ l. more (inv.fenced l);
    phases = put-all id (IsTrue id inv.rev inv.live) ph n p inv.phases s.0;
    unique = λ a b at_a at_b.
        inv.unique a b (put-ready id ph n p s.1 a at_a) (put-ready id ph n p s.1 b at_b);
    unsent = λ m at. rw sent (inv.unsent m (put-ready id ph n p s.1 m at));
    idle = λ l. rw sent (inv.idle l);
    once = rw sent inv.once;
  }

  pub Inv-own :
      {w w' : World} {ph : ℕ → Phase} (n : ℕ) (p : Phase) (inv : Inv id w ph)
      → All (HasRevision id (inv.rev + 1)) w'.db.tasks
      → (any (starts id) w.db.task_events ≡ true → any (starts id) w'.db.task_events ≡ true)
      → w'.sbatches ≡ w.sbatches
      → IsTrue id (inv.rev + 1) inv.live p
      → is_ready id p ≡ false
      → Inv id w' (put ph n p)
  Inv-own {w} {w'} {ph} n p inv rows more sent v h = record {
    rev = inv.rev + 1;
    live = inv.live;
    rows = rows;
    fenced = λ l. more (inv.fenced l);
    phases =
        put-all id (IsTrue id (inv.rev + 1) inv.live) ph n p
          (λ m. still_set id inv.rev inv.live (ph m) (inv.phases m)) v;
    unique = λ a b at_a at_b.
        inv.unique a b (put-ready id ph n p h a at_a) (put-ready id ph n p h b at_b);
    unsent = λ m at. rw sent (inv.unsent m (put-ready id ph n p h m at));
    idle = λ l. rw sent (inv.idle l);
    once = rw sent inv.once;
  }

  only_mover :
      (ph : ℕ → Phase) (n : ℕ) (p : Phase)
      → ((m : ℕ) → is_ready id (ph m) ≡ false)
      → (m : ℕ) → put ph n p m ≡ ready
      → m ≡ n
  only_mover ph n p asleep m e = elim (Bool-cases (nat_eq m n)) [
    | inl same ↦ ground (arith, nat_eq_iff m n)
    | inr diff ↦ ground (arith, asleep m)
  ]

  pub Inv-ready :
      {w w' : World} {ph : ℕ → Phase} (n : ℕ) (inv : Inv id w ph)
      → inv.live ≡ false
      → All (HasRevision id (inv.rev + 1)) w'.db.tasks
      → any (starts id) w'.db.task_events ≡ true
      → w'.sbatches ≡ w.sbatches
      → Inv id w' (put ph n ready)
  Inv-ready {w} {w'} {ph} n inv asleep rows begun sent = record {
    rev = inv.rev + 1;
    live = true;
    rows = rows;
    fenced = λ l. begun;
    phases =
        put-all id (IsTrue id (inv.rev + 1) true) ph n ready
          (λ m. true-live id inv.rev inv.live (ph m) (inv.phases m)) tt;
    unique = λ a b at_a at_b.
        only_mover ph n ready all_asleep a at_a ∙ sym (only_mover ph n ready all_asleep b at_b);
    unsent = λ m at. (refl, rw sent (inv.idle asleep));
    idle = λ l. ground arith;
    once = rw (sent, inv.idle asleep) (omega arith);
  }
    where
      all_asleep : (m : ℕ) → is_ready id (ph m) ≡ false
      all_asleep m = elim (Bool-cases (is_ready id (ph m))) [
        | inr e ↦ e
        | inl e ↦ ground (arith, inv.unsent m (ready-eq id (ph m) e))
      ]

  pub Inv-sent :
      {w w' : World} {ph : ℕ → Phase} (n : ℕ) (inv : Inv id w ph)
      → ph n ≡ ready
      → w'.db ≡ w.db
      → w'.sbatches ≡ id ∷ w.sbatches
      → Inv id w' (put ph n quiet)
  Inv-sent {w} {w'} {ph} n inv at_n db sent = record {
    rev = inv.rev;
    live = inv.live;
    rows = rw db inv.rows;
    fenced = λ l. rw db (inv.fenced l);
    phases = put-all id (IsTrue id inv.rev inv.live) ph n quiet inv.phases tt;
    unique = λ a b at_a at_b.
        inv.unique a b (put-ready id ph n quiet refl a at_a) (put-ready id ph n quiet refl b at_b);
    unsent =
        λ m at. absurd (mover_left m at (inv.unique m n (put-ready id ph n quiet refl m at) at_n));
    idle = λ l. ground (arith, (inv.unsent n at_n).0);
    once = rw (sent, eq_refl id, (inv.unsent n at_n).1) (omega arith);
  }
    where
      mover_left : (m : ℕ) → put ph n quiet m ≡ ready → m ≡ n → ⊥
      mover_left m at same = ground (arith, nat_eq_iff m n)
