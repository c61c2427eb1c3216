-- ===== src/Auth/Removal.antt =====
-- What the OWNER's removals and an activation leave behind.
use xauusd_bot.Base.{ℕ, ◌≡◌, refl, ap, sym, ◌∙◌, List, [], ◌∷◌, Text, arith}
use xauusd_bot.Auth.Types.{User, Session, Audit, Store, Library}
use xauusd_bot.Auth.Store.{ok, update_where, count_where}
use xauusd_bot.Auth.Accounts.{audit}
use xauusd_bot.Auth.Sessions.{revoke_at}
use xauusd_bot.Auth.Administration.{is_live_of, revoke_all_account_sessions}
use xauusd_bot.Auth.Blocks.{Ensures-gets, Ensures-or_raise, block_rules, transaction_ok}
use xauusd_bot.Auth.Authority.{Ensures-owner_in_session}
use xauusd_bot.Auth.Lookups.{find_user-id}

none_live :
    (i now : ℕ) (xs : List Session)
    → count_where (is_live_of i) (update_where (is_live_of i) (revoke_at now) xs) ≡ 0
unfolding count_where update_where is_live_of revoke_at
none_live i now [] = refl
none_live i now (x ∷ xs) = ground (arith, none_live i now xs)

-- `k` sessions of the account were live, and none is.
abbrev Counted : Store → ℕ → ℕ → Store → Type 0
Counted s target k t =
    (k ≡ count_where (is_live_of target) s.sessions)
    × (count_where (is_live_of target) t.sessions ≡ 0)

module _ (s : Store) (target : ℕ) (u : User) (same : u.id ≡ target) (now : ℕ) where
  counted :
      (audits : List Audit)
      → Counted s target (count_where (is_live_of u.id) s.sessions) (record s {
        sessions = update_where (is_live_of u.id) (revoke_at now) s.sessions;
        audits = audits;
      })
  counted audits = (
    ap (λ i. count_where (is_live_of i) s.sessions) same,
    ap (λ i. count_where (is_live_of i) (update_where (is_live_of u.id) (revoke_at now) s.sessions))
          (sym same)
        ∙ none_live u.id now s.sessions,
  )

-- The number that the OWNER is told when it revokes all sessions of an account is the number that
-- were live, and none of them is live afterwards.
pub revoke_all_counts :
    (lib : Library) (s : Store) (now actor : ℕ) (identity : Text) (target n : ℕ)
    → (revoke_all_account_sessions lib now actor identity target s).0 ≡ ok n
    → (n ≡ count_where (is_live_of target) s.sessions)
      × (count_where
            (is_live_of target)
            (revoke_all_account_sessions lib now actor identity target s).1.sessions
          ≡ 0)
unfolding revoke_all_account_sessions audit
revoke_all_counts lib s now actor identity target n e = transaction_ok (Counted s target) _ s n e (
    Ensures-owner_in_session s lib actor identity _ λ a _. Ensures-gets s _ _ (
      Ensures-or_raise s _ _ _ λ u found.
        let left = counted s target u (find_user-id target s.users u found) now in
        search (block_rules, left) depth 8))
