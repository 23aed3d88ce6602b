-- ===== src/Analytics/Reconcile.antt =====
-- The rollups of internal/core/service/analytics_projection.go are what the applied contributions add
-- up to, bucket by bucket, whatever messages were handled.
use billpiggy.Base.{
  ℕ, ◌+◌, ◌%◌, ◌≡◌, refl, sym, ap, ◌∙◌, Bool, true, false, not, String, List, [], ◌∷◌, Option, none,
  some, ◌==◌, string_eq, string_beq_iff, if◌then◌else◌, arith,
}
use billpiggy.Base.Int.{pos, negsuc, word}
use billpiggy.Base.Assoc.{lookup, insert}
use billpiggy.Outbox.{Bytes}
use billpiggy.Projections.{
  ExpenseContribution, ExpenseEnvelope, Decoded, decoded, skipped, undecodable,
  decode_expense_contribution, rollup_periods,
}
use billpiggy.Rollups.{
  RollupKey, AnalyticsRepository, load_contribution, save_contribution, new_analytics_repository,
}
use billpiggy.Analytics.{
  adjust, reverse_previous, settle_removal, validate_contribution, apply_next, handle_contribution,
  handle, handle_all,
}
use billpiggy.Analytics.Buckets.{amount_at, amount-periods, periods_keep, word_of_bound}
use billpiggy.Analytics.Shares.{contributed, total, periods_plus, periods_minus}

-- Each contribution is filed under its own expense.
abbrev pub Filed : List (String × ExpenseContribution) → Type 0
Filed [] = Unit
Filed ((id, c) ∷ m) = (c.expense_id ≡ id) × Filed m

abbrev pub Reconciled : AnalyticsRepository → Type 0
Reconciled r = (k : RollupKey) → amount_at k r % word ≡ total k r.contributions % word

abbrev old_share : RollupKey → Option ExpenseContribution → ℕ
old_share k none = 0
old_share k (some c) = contributed k c

total-insert :
    (k : RollupKey) (id : String) (c : ExpenseContribution)
    (m : List (String × ExpenseContribution))
    → total k (insert id c m) + old_share k (lookup id m) ≡ total k m + contributed k c
unfolding insert lookup
total-insert k id c [] = omega arith
total-insert k id c ((j, d) ∷ m) = ground (arith, total-insert k id c m)

insert-Filed :
    (id : String) (c : ExpenseContribution) (m : List (String × ExpenseContribution))
    → c.expense_id ≡ id
    → Filed m
    → Filed (insert id c m)
unfolding insert
insert-Filed id c [] e filed = (e, tt)
insert-Filed id c ((j, d) ∷ m) e (here, filed) =
    filed_if (insert id c m) (j == id) (λ h. e ∙ sym ((string_beq_iff j id).0 h)) (here, filed)
      (insert-Filed id c m e filed)
  where
    filed_if :
        (rest : List (String × ExpenseContribution)) (b : Bool)
        → (b ≡ true → c.expense_id ≡ j)
        → (d.expense_id ≡ j) × Filed m
        → Filed rest
        → Filed (if b then (j, c) ∷ m else (j, d) ∷ rest)
    filed_if rest true replaced old inserted = (replaced refl, old.1)
    filed_if rest false replaced old inserted = (old.0, inserted)

lookup-Filed :
    (id : String) (c : ExpenseContribution) (m : List (String × ExpenseContribution))
    → Filed m
    → lookup id m ≡ some c
    → c.expense_id ≡ id
unfolding lookup
lookup-Filed id c [] filed h = cc
lookup-Filed id c ((j, d) ∷ m) (here, filed) h =
    ground (arith, string_beq_iff j id, lookup-Filed id c m filed)

amount-adjust_back :
    (k : RollupKey) (c : ExpenseContribution) (r : AnalyticsRepository)
    → (amount_at k (adjust c (negsuc 0) r) + contributed k (record c { active = true })) % word
      ≡ amount_at k r % word
unfolding adjust
amount-adjust_back k c r =
    omega (arith, amount-periods k c (negsuc 0) rollup_periods r, periods_minus k c rollup_periods)

amount-adjust :
    (k : RollupKey) (c : ExpenseContribution) (r : AnalyticsRepository)
    → amount_at k (adjust c (pos 1) r) % word
      ≡ (amount_at k r + contributed k (record c { active = true })) % word
unfolding adjust
amount-adjust k c r =
    omega (arith, amount-periods k c (pos 1) rollup_periods r, periods_plus k c rollup_periods)

-- The reversal takes out exactly what the recorded contribution counted.
amount-reverse :
    (k : RollupKey) (previous : Option ExpenseContribution) (r : AnalyticsRepository)
    → (amount_at k (reverse_previous previous r) + old_share k previous) % word
      ≡ amount_at k r % word
amount-reverse k none r = omega arith
amount-reverse k (some c) r = reversed (c.active)
  where
    reversed :
        (b : Bool)
        → (amount_at k (if b then adjust c (negsuc 0) r else r)
              + contributed k (record c { active = b }))
            % word
          ≡ amount_at k r % word
    reversed true = amount-adjust_back k c r
    reversed false = omega arith

reverse_keeps :
    (previous : Option ExpenseContribution) (r : AnalyticsRepository)
    → (reverse_previous previous r).contributions ≡ r.contributions
unfolding adjust
reverse_keeps none r = refl
reverse_keeps (some c) r = kept (c.active)
  where
    kept : (b : Bool) → (if b then adjust c (negsuc 0) r else r).contributions ≡ r.contributions
    kept true = periods_keep c (negsuc 0) rollup_periods r
    kept false = refl

abbrev pub IsReconciled : AnalyticsRepository → Type 0
IsReconciled r = Reconciled r × Filed r.contributions

-- Recording the contribution `c` in place of what the reversal took out.
saved :
    (c : ExpenseContribution) (r s : AnalyticsRepository)
    → IsReconciled r
    → s.contributions ≡ r.contributions
    → ((k : RollupKey)
        → (amount_at k s + old_share k (lookup c.expense_id r.contributions)) % word
          ≡ (amount_at k r + contributed k c) % word)
    → IsReconciled (save_contribution c s)
unfolding save_contribution
saved c r s (sums, filed) same amounts = rw same (
  (λ k. omega (arith, sums k, amounts k, total-insert k c.expense_id c r.contributions)),
  insert-Filed c.expense_id c r.contributions refl filed,
)

handle-removal :
    (id : String) (r : AnalyticsRepository) (previous : Option ExpenseContribution)
    → lookup id r.contributions ≡ previous
    → IsReconciled r
    → IsReconciled (settle_removal previous (reverse_previous previous r))
handle-removal id r none e ok = ok
handle-removal id r (some c) e ok =
    let own = lookup-Filed id c r.contributions (ok.1) e in
    saved (record c { active = false }) r (reverse_previous (some c) r) ok
      (reverse_keeps (some c) r)
      (λ k. omega (arith, amount-reverse k (some c) r, ap (old_share k) (found own)))
  where
    found : c.expense_id ≡ id → lookup c.expense_id r.contributions ≡ some c
    found own = ap (λ i. lookup i r.contributions) own ∙ e

handle-apply :
    (next : ExpenseContribution) (r : AnalyticsRepository)
    → next.active ≡ true
    → IsReconciled r
    → IsReconciled (
        save_contribution next
          (adjust next (pos 1) (reverse_previous (lookup next.expense_id r.contributions) r)))
unfolding adjust
handle-apply next r live ok =
    let previous = lookup next.expense_id r.contributions in
    let back = reverse_previous previous r in
    saved next r (adjust next (pos 1) back) ok
      (periods_keep next (pos 1) rollup_periods back ∙ reverse_keeps previous r)
      (λ k. omega (
        arith,
        amount-adjust k next back,
        amount-reverse k previous r,
        ap (λ (b : Bool). contributed k (record next { active = b })) live,
      ))

-- A message leaves the repository reconciled, or fails and leaves it to the unit of work.
abbrev Good : Option AnalyticsRepository → Type 0
Good none = Unit
Good (some s) = IsReconciled s

contribution-Good :
    (next : ExpenseContribution) (r : AnalyticsRepository)
    → IsReconciled r
    → Good (handle_contribution next r)
unfolding handle_contribution apply_next load_contribution
contribution-Good next r ok = branch (next.active) (validate_contribution next) refl
  where
    branch :
        (live valid : Bool)
        → next.active ≡ live
        → Good (
            if not live
            then some (
                settle_removal
                  (lookup next.expense_id r.contributions)
                  (reverse_previous (lookup next.expense_id r.contributions) r))
            else if not valid
            then none
            else some (
                save_contribution next (
                  adjust next
                    (pos 1)
                    (reverse_previous (lookup next.expense_id r.contributions) r))))
    branch false valid e =
        handle-removal next.expense_id r (lookup next.expense_id r.contributions) refl ok
    branch true false e = tt
    branch true true e = handle-apply next r e ok

decoded-Good :
    (d : Decoded ExpenseContribution) (r : AnalyticsRepository)
    → IsReconciled r
    → Good (elim d [
      | undecodable ↦ none
      | skipped ↦ some r
      | decoded next ↦ handle_contribution next r
    ])
decoded-Good undecodable r ok = tt
decoded-Good skipped r ok = ok
decoded-Good (decoded next) r ok = contribution-Good next r ok

all-IsReconciled :
    (unmarshal : Bytes → Option ExpenseEnvelope) (messages : List (String × Bytes))
    (r : AnalyticsRepository)
    → IsReconciled r
    → IsReconciled (handle_all unmarshal messages r)
unfolding handle_all handle
all-IsReconciled unmarshal [] r ok = ok
all-IsReconciled unmarshal ((event_type, payload) ∷ messages) r ok =
    all-IsReconciled unmarshal messages _ (
      next_ok
        (elim (decode_expense_contribution unmarshal event_type payload) [
          | undecodable ↦ none
          | skipped ↦ some r
          | decoded next ↦ handle_contribution next r
        ])
        (decoded-Good (decode_expense_contribution unmarshal event_type payload) r ok))
  where
    next_ok :
        (o : Option AnalyticsRepository) → Good o → IsReconciled (elim o [ none ↦ r | some s ↦ s ])
    next_ok none g = ok
    next_ok (some s) g = g

-- Whatever messages were handled since the empty repository (expenses added, edited in any of their
-- dimensions and removed, and messages handled again or failing among them), the amount of every bucket is
-- the sum of the contributions recorded as applied that count in it, as int64 adds them.
pub rollups-add_up :
    (unmarshal : Bytes → Option ExpenseEnvelope) (messages : List (String × Bytes)) (k : RollupKey)
    → amount_at k (handle_all unmarshal messages new_analytics_repository)
      ≡ total k (handle_all unmarshal messages new_analytics_repository).contributions % word
unfolding new_analytics_repository lookup
rollups-add_up unmarshal messages k =
    let r = handle_all unmarshal messages new_analytics_repository in
    let ok = all-IsReconciled unmarshal messages new_analytics_repository ((λ j. refl), tt) in
    omega (arith, ok.0 k, word_of_bound (lookup k r.rollups))
