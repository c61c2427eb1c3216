-- ===== src/Supervisor/Listing.antt =====
-- services/supervisor.py: `_process_snapshot`, from the rows that PowerShell prints, and that the
-- supervisor does not end itself.
use xauusd_bot.Base.{
  ℕ, zero, suc, ◌≡◌, refl, sym, ◌∙◌, ap, true, false, Option, none, some, List, [], ◌∷◌, Text, ◌==◌,
  if◌then◌else◌, if_case, is_some, inl, inr, arith, false≢true,
}
use mathlib.Core.List.{Memᴰ}
use mathlib.Core.List.Memᴰ
use xauusd_bot.Supervisor.Types.{
  Pid, ProcessRecord, ProcessIdentity, Snapshot, killed, Supervisor, Host, is_text, find_identity,
}
use xauusd_bot.Supervisor.Trees.{still_holds}
use xauusd_bot.Supervisor.Descent.{Below, top, child}
use xauusd_bot.Supervisor.Owned.{IsOwned, in_tree, in_record, as_child}
use xauusd_bot.Supervisor.Stop.{StopAnswers}
use xauusd_bot.Supervisor.Stopping.{stop_component}
use xauusd_bot.Supervisor.Ending.{stop_component-EndsOwned}

-- A row of `Win32_Process`: a `ProcessId` that is missing or no number is `none`, and so is a parent
-- that is no number; one that is missing is 0.
pub record Row : Type 0 where
  pub process_id : Option ℕ
  pub parent_process_id : Option ℕ
  pub creation_date : Option Text
  pub executable_path : Option Text
  pub command_line : Option Text

-- `int(… or 0) or None`
unfoldable pub parent_or_none : ℕ → Option Pid
parent_or_none zero = none
parent_or_none (suc n) = some (suc n)

-- `str(… or "") or None`
unfoldable pub text_or_none : Option Text → Option Text
text_or_none o = if is_text o then o else none

-- `str(… or "")`
abbrev pub text_or_empty : Option Text → Text
text_or_empty none = []
text_or_empty (some t) = t

unfoldable pub identity_of : Row → Pid → ℕ → ProcessIdentity
identity_of row pid parent = record {
  pid = pid;
  parent_pid = parent_or_none parent;
  creation_time = text_or_none row.creation_date;
  executable = text_or_none row.executable_path;
  command_line = text_or_empty row.command_line;
}

-- `snapshot[pid] = identity`
unfoldable pub put_identity : ProcessIdentity → Snapshot → Snapshot
put_identity i [] = i ∷ []
put_identity i (j ∷ js) = if i.pid == j.pid then i ∷ js else j ∷ put_identity i js

unfoldable pub add_row : Pid → Row → Option ℕ → Option ℕ → Snapshot → Snapshot
add_row self row (some pid) (some parent) snapshot =
    if pid == self then snapshot else put_identity (identity_of row pid parent) snapshot
add_row self row _ _ snapshot = snapshot

-- The loop over the rows, for the process with this pid.
unfoldable pub snapshot_of_rows : Pid → List Row → Snapshot → Snapshot
snapshot_of_rows self [] snapshot = snapshot
snapshot_of_rows self (row ∷ rows) snapshot =
    snapshot_of_rows self rows (add_row self row row.process_id row.parent_process_id snapshot)

find_identity-put_identity :
    (p : Pid) (i : ProcessIdentity) (snapshot : Snapshot)
    → i.pid == p ≡ false
    → find_identity p snapshot ≡ none
    → find_identity p (put_identity i snapshot) ≡ none
unfolding find_identity put_identity
find_identity-put_identity p i [] other e = rw other
find_identity-put_identity p i (j ∷ js) other e =
    ground (arith, other, e, find_identity-put_identity p i js)

add_row-misses :
    (self : Pid) (row : Row) (pid parent : Option ℕ) (snapshot : Snapshot)
    → find_identity self snapshot ≡ none
    → find_identity self (add_row self row pid parent snapshot) ≡ none
unfolding add_row identity_of
add_row-misses self row none parent snapshot e = e
add_row-misses self row (some p) none snapshot e = e
add_row-misses self row (some p) (some q) snapshot e =
    if_case (λ next. find_identity self next ≡ none) (p == self) _ _ (λ same. e)
      (λ other. find_identity-put_identity self (identity_of row p q) snapshot other e)

snapshot_of_rows-misses :
    (self : Pid) (rows : List Row) (snapshot : Snapshot)
    → find_identity self snapshot ≡ none
    → find_identity self (snapshot_of_rows self rows snapshot) ≡ none
unfolding snapshot_of_rows
snapshot_of_rows-misses self [] snapshot e = e
snapshot_of_rows-misses self (row ∷ rows) snapshot e =
    snapshot_of_rows-misses self rows _
      (add_row-misses self row row.process_id row.parent_process_id snapshot e)

same_is_equal : (p q : Pid) → p ≡ q → p == q ≡ true
same_is_equal p q h = ground (arith, h)

find_identity-Memᴰ :
    (snapshot : Snapshot) (i : ProcessIdentity)
    → Memᴰ i snapshot
    → is_some (find_identity i.pid snapshot) ≡ true
unfolding find_identity
find_identity-Memᴰ [] i m = absurd (Memᴰ.not-nil m)
find_identity-Memᴰ (j ∷ js) i (Memᴰ.head e) =
    rw (same_is_equal j.pid i.pid (ap (λ k. k.pid) (sym e))) refl
find_identity-Memᴰ (j ∷ js) i (Memᴰ.tail m) =
    if_case (λ (o : Option ProcessIdentity). is_some o ≡ true) (j.pid == i.pid) _ _ (λ e. refl)
      (λ e. find_identity-Memᴰ js i m)

module _ (host : Host) where
  Below-listed :
      (command : List Text) (snapshot : Snapshot) (root p : Pid)
      → Below host command snapshot root p
      → is_some (find_identity p snapshot) ≡ true
  Below-listed command snapshot root p (top e) = e
  Below-listed command snapshot root p (child i m parent runs below) =
      find_identity-Memᴰ snapshot i m

  still_holds-listed :
      (command : List Text) (time : Option Text) (o : Option ProcessIdentity)
      → still_holds host command time o ≡ true
      → is_some o ≡ true
  unfolding still_holds
  still_holds-listed command time none h = h
  still_holds-listed command time (some i) h = refl

  IsOwned-listed :
      (r : ProcessRecord) (kid : Option Pid) (snapshot : Snapshot) (p : Pid)
      → host.is_windows ≡ true
      → IsOwned host r kid snapshot p
      → is_some (find_identity p snapshot) ≡ true
  IsOwned-listed r kid snapshot p windows (in_tree w root below) =
      Below-listed r.command snapshot _ p below
  IsOwned-listed r kid snapshot p windows (in_record w stored) =
      still_holds-listed r.command stored.time (find_identity p snapshot) stored.holds
  IsOwned-listed r kid snapshot p windows (as_child posix e) =
      absurd (false≢true (sym posix ∙ windows))

  killed_injective : (p q : Pid) → killed p ≡ killed q → p ≡ q
  killed_injective p q e = cc

  -- On Windows stop_component does not end the process that calls it, whatever the registry holds:
  -- its own row is never in the snapshot that says what is owned.
  pub stop_component_spares_itself :
      (a : StopAnswers) (component : Text) (operation_id : Option Text) (operation : Text)
      (s : Supervisor) (self : Pid) (rows : List Row)
      → host.is_windows ≡ true
      → a.owner_snapshot ≡ snapshot_of_rows self rows []
      → Memᴰ (killed self) (stop_component host a component operation_id operation s).1.effects
      → Memᴰ (killed self) s.effects
  unfolding find_identity
  stop_component_spares_itself a component operation_id operation s self rows windows listed m =
      elim (stop_component-EndsOwned host a component operation_id operation s (killed self) m) [
        | inl k ↦ k
        | inr (p, e, owned) ↦
            let is_listed = IsOwned-listed _ _ a.owner_snapshot p windows owned in
            let missed = snapshot_of_rows-misses self rows [] refl in
            absurd (
              false≢true (
                sym (ap is_some missed)
                ∙ ap (λ q. is_some (find_identity q (snapshot_of_rows self rows [])))
                    (killed_injective self p e)
                ∙ ap (λ x. is_some (find_identity p x)) (sym listed)
                ∙ is_listed))
      ]
