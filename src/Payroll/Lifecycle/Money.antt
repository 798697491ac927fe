-- ===== src/Payroll/Lifecycle/Money.antt =====
-- Money moves only when an approved run is paid.
use hidden_oasis_staff_payro.Common.{
  ℕ, ◌≡◌, ◌⊎◌, inl, inr, refl, sym, subst, true, false, none, some, map, arith,
}
use hidden_oasis_staff_payro.Payroll.Store.{
  Run, RunStatus, draft, for_owner_review, approved, paid, locked, unknown,
  normalize_payroll_status, find_run, run_where_id,
}
use hidden_oasis_staff_payro.Payroll.Lifecycle.{
  Books, Request, is_final, allowed, is_revision, guard, effects, changed_books, reopen, changed,
  update_payroll_status, approved_run, hand_off, same_status,
}
use hidden_oasis_staff_payro.Payroll.Lifecycle.Transitions.{update-IsMade, guard-allowed}

-- The tables of money are the same.
pub record IsSameMoney (b b' : Books) : Type 0 where
  pub same_advances : b'.store.advances ≡ b.store.advances
  pub same_repayments : b'.store.repayments ≡ b.store.repayments
  pub same_queue : b'.queue ≡ b.queue

hand_off-money :
    (run_id : ℕ) (status : RunStatus) (req : Request) (b : Books)
    → IsSameMoney b (hand_off run_id status req b)
unfolding hand_off
hand_off-money run_id status req b = record {
  same_advances = ground arith;
  same_repayments = ground arith;
  same_queue = ground arith;
}

draft-not-final : (s : RunStatus) → allowed s draft ≡ true → is_final s ≡ false
unfolding allowed is_final
draft-not-final draft a = refl
draft-not-final for_owner_review a = refl
draft-not-final approved a = refl
draft-not-final paid a = cc
draft-not-final locked a = cc
draft-not-final (unknown u) a = refl

same : (b : Books) → IsSameMoney b b
same b = record { same_advances = refl; same_repayments = refl; same_queue = refl }

reopen-money :
    (run_id : ℕ) (old : RunStatus) (req : Request) (b : Books)
    → is_final old ≡ false
    → IsSameMoney b (reopen run_id old req b)
unfolding reopen
reopen-money run_id old req b open_run =
    rw (open_run, reopen)
      (record { same_advances = refl; same_repayments = refl; same_queue = refl })

effects-money :
    (run_id : ℕ) (old status : RunStatus) (req : Request) (b : Books)
    → allowed old status ≡ true
    → (status ≡ paid) ⊎ IsSameMoney b (effects run_id old status req b)
unfolding effects
effects-money run_id old paid req b a = inl refl
effects-money run_id old approved req b a =
    let runs = map (run_where_id run_id (approved_run req.actor req.now)) b.store.runs in
    let m =
      hand_off-money run_id approved req (record b { store = record b.store { runs = runs } }) in
    inr (record {
      same_advances = m.same_advances;
      same_repayments = m.same_repayments;
      same_queue = m.same_queue;
    })
effects-money run_id old locked req b a =
    inr (record { same_advances = refl; same_repayments = refl; same_queue = refl })
effects-money run_id old for_owner_review req b a =
    inr (record { same_advances = refl; same_repayments = refl; same_queue = refl })
effects-money run_id old draft req b a = inr (reopen-money run_id old req b (draft-not-final old a))
effects-money run_id old (unknown t) req b a =
    inr (record { same_advances = refl; same_repayments = refl; same_queue = refl })

allowed-paid : (s : RunStatus) → allowed s paid ≡ true → s ≡ approved
unfolding allowed
allowed-paid draft a = cc
allowed-paid for_owner_review a = cc
allowed-paid approved a = refl
allowed-paid paid a = cc
allowed-paid locked a = cc
allowed-paid (unknown u) a = cc

guard-paid :
    (run : Run) (req : Request)
    → guard run paid req ≡ none
    → (is_revision run ≡ false) × (req.blockers ≡ 0)
unfolding guard same_status
guard-paid run req h = (ground arith, ground arith)

-- The advances, the repayments and the journal lines stay as they are in every change that is made
-- but one: the payment of an approved run that is no revision and has no blockers.
pub money-moves :
    (run_id : ℕ) (req : Request) (b b' : Books)
    → update_payroll_status run_id req b ≡ changed b'
    → IsSameMoney b b'
      ⊎ ((normalize_payroll_status req.status ≡ paid)
          × ((run : Run) × (find_run run_id b.store.runs ≡ some run)
              × (run.status ≡ approved)
              × (is_revision run ≡ false)
              × (req.blockers ≡ 0)))
unfolding changed_books
money-moves run_id req b b' h =
    let m = update-IsMade run_id req b b' h in
    let status = normalize_payroll_status req.status in
    let (ok, current) = guard-allowed m.run status req m.passes in
    elim (effects-money run_id m.run.status status req b ok) [
      | inr money ↦ inl (
          subst (λ (x : Books). IsSameMoney b x) (sym m.result)
            (record {
              same_advances = money.same_advances;
              same_repayments = money.same_repayments;
              same_queue = money.same_queue;
            }))
      | inl e ↦
          let (original, clear) =
            guard-paid m.run req (subst (λ t. guard m.run t req ≡ none) e m.passes) in
          inr (
            e,
            (
              m.run,
              m.found,
              allowed-paid m.run.status (subst (λ t. allowed m.run.status t ≡ true) e ok),
              original,
              clear,
            ),
          )
    ]
