-- ===== src/Subscriptions/Listed.antt =====
-- subscriptions.go: the subscriptions that may be stored together.
use aura_risk.Base.{
  ℕ, ◌≤◌, ◌<◌, subst, ◌≡◌, Bool, true, false, List, [], ◌∷◌, ◌++◌, ◌==◌, exists, count_rows, update,
  delete, All, All-update, All-delete, All-append, Distinct, Distinct-delete, Distinct-update_key,
  Distinct-append_one, count_rows-update, count_rows-delete, count_rows-append, arith,
}
use aura_risk.Notifier.{Clock, Subscription}
use aura_risk.Subscriptions.{of_account, max_subscriptions_per_account}
use aura_risk.Subscriptions.Checks.{IsStored}

-- Subscription ids are distinct, no account has more than ten, and each may be stored.
pub record IsListed (clock : Clock) (ss : List Subscription) : Type 0 where
  pub distinct : Distinct (λ s. s.id) ss
  pub limited : (account : ℕ) → count_rows (of_account account) ss ≤ max_subscriptions_per_account
  pub stored : All (IsStored clock) ss

module _ (clock : Clock) where
  pub updated-IsListed :
      (p : Subscription → Bool) (g : Subscription → Subscription) (ss : List Subscription)
      → ((s : Subscription) → (g s).id ≡ s.id)
      → ((s : Subscription) → (g s).account_id ≡ s.account_id)
      → ((s : Subscription) → IsStored clock s → IsStored clock (g s))
      → IsListed clock ss
      → IsListed clock (update p g ss)
  updated-IsListed p g ss same_id same_account keeps l = record {
    distinct = Distinct-update_key (λ s. s.id) p g ss same_id l.distinct;
    limited = λ account.
        let fewer =
          count_rows-update p g (of_account account) ss (λ s h k. rw (same_account s) at k) in
        omega (arith, fewer, l.limited account);
    stored = All-update (IsStored clock) p g ss (λ s k h. keeps s k) l.stored;
  }

  pub deleted-IsListed :
      (p : Subscription → Bool) (ss : List Subscription)
      → IsListed clock ss
      → IsListed clock (delete p ss)
  deleted-IsListed p ss l = record {
    distinct = Distinct-delete (λ s. s.id) p ss l.distinct;
    limited =
        λ account. omega (arith, count_rows-delete p (of_account account) ss, l.limited account);
    stored = All-delete (IsStored clock) p ss l.stored;
  }

  pub inserted-IsListed :
      (s : Subscription) (ss : List Subscription)
      → IsStored clock s
      → count_rows (of_account s.account_id) ss < max_subscriptions_per_account
      → exists (λ r. r.id == s.id) ss ≡ false
      → IsListed clock ss
      → IsListed clock (ss ++ (s ∷ []))
  inserted-IsListed s ss may room new l = record {
    distinct = Distinct-append_one (λ r. r.id) ss s l.distinct new;
    limited = λ account. ground (
      arith,
      count_rows-append (of_account account) ss (s ∷ []),
      l.limited account,
      at_account account,
    );
    stored = All-append (IsStored clock) ss (s ∷ []) l.stored (may, tt);
  }
    where
      at_account :
          (account : ℕ)
          → (s.account_id == account) ≡ true
          → count_rows (of_account account) ss < max_subscriptions_per_account
      at_account account h =
          subst (λ a. count_rows (of_account a) ss < max_subscriptions_per_account)
            (ground (arith, h)) room
