-- ===== src/Supervisor/Opened.antt =====
-- services/supervisor.py: what a pass of the supervisor computes with, for the examples.
use xauusd_bot.Base.{Bool, true, dict_get, dict_set, dict_pop, text_eq}
use xauusd_bot.Csrf.Slices.{drop}
use xauusd_bot.Supervisor.Types.{
  is_running, is_live_state, has_failed, is_text, is_pid, same_text, same_command, find_identity,
}
use xauusd_bot.Supervisor.Commands.{
  has_character, backslashes, quoted_characters, needs_quotes, quoted_argument, list2cmdline,
  slashes_turned, without_quotes, starts_with, find, ends_there, ends_after, needle_matches,
  observed_line, arguments_of, command_matches,
}
use xauusd_bot.Supervisor.Trees.{
  elem, parent_in, add_pid, add_pids, insert_sorted, sorted, reverse_onto, sorted_reverse, joins,
  sweep, sweeps, starting_set, matching_descendants, matching_pids, parent_of, without_parent_in,
  matching_command_roots, still_holds, verified_pairs, verified_stored_pids,
}
use xauusd_bot.Supervisor.Identity.{
  process_snapshot, blank_record, new_record, identity_matches, identity_at, record_matches_process,
  find_matching_processes, least_of, first_stored, stored_root, sole, or_else, pid_if_matches,
  root_of, creation_or, parent_or, or_root, with_creation, identities_of, owned_from, with_root,
  refresh_identity, is_observed, observes, wait_for_identity,
}
use xauusd_bot.Supervisor.Start.{
  want_running, existing_running, close_diagnostics, open_diagnostics, store, degrade, judged,
  existing_or_new, keep_child, refresh_until, error_kept, launched_record, verified_launch,
  degraded_unless, launch, is_doubtful, adopt, start_on_matches, record_holds, record_is_alive,
  keep_record, start_on_record, has_command, start_on_child, start_component,
}
use xauusd_bot.Supervisor.Stop.{
  owned_with, owned_by_pairs, owned_in, owned_of_record, verified_owned_pids, terminate_each,
  terminate_child, terminate_last, terminate_owned_processes, any_listed, any_alive, pids_are_alive,
  wait_for_pids_to_exit,
}
use xauusd_bot.Supervisor.Stopping.{
  want_stopped, clear_process, code_after, exit_code_of, stop_finished, stop_degraded, stop_ended,
  stop_owned, put_stopping, stop_record, with_context, stop_component, start_if_stopped,
  restart_component,
}
use xauusd_bot.Supervisor.Listing.{
  parent_or_none, text_or_none, identity_of, put_identity, add_row, snapshot_of_rows,
}
use xauusd_bot.Supervisor.Monitor.{
  recent, save, put_record, put_changed, drop_child, release, monitor_live, monitor_stopped,
  monitor_survivor, crash_record, history_of, with_history, monitor_start, monitor_restart,
  monitor_crash, monitor_survivors, monitor_ended, monitor_polled, monitor_child, monitor_children,
  save_pass, monitor_once,
}

-- A line to be named where a call is run.
unfoldable pub opened : Bool
unfolding dict_get dict_set dict_pop text_eq drop is_running is_live_state has_failed is_text is_pid
    same_text same_command find_identity has_character backslashes quoted_characters needs_quotes
    quoted_argument list2cmdline slashes_turned without_quotes starts_with find ends_there
    ends_after needle_matches observed_line arguments_of command_matches elem parent_in add_pid
    add_pids insert_sorted sorted reverse_onto sorted_reverse joins sweep sweeps starting_set
    matching_descendants matching_pids parent_of without_parent_in matching_command_roots
    still_holds verified_pairs verified_stored_pids process_snapshot blank_record new_record
    identity_matches identity_at record_matches_process find_matching_processes least_of
    first_stored stored_root sole or_else pid_if_matches root_of creation_or parent_or or_root
    with_creation identities_of owned_from with_root refresh_identity is_observed observes
    wait_for_identity want_running existing_running close_diagnostics open_diagnostics store degrade
    judged existing_or_new keep_child refresh_until error_kept launched_record verified_launch
    degraded_unless launch is_doubtful adopt start_on_matches record_holds record_is_alive
    keep_record start_on_record has_command start_on_child start_component want_stopped
    clear_process owned_with owned_by_pairs owned_in owned_of_record verified_owned_pids
    terminate_each terminate_child terminate_last terminate_owned_processes any_listed any_alive
    pids_are_alive wait_for_pids_to_exit code_after exit_code_of stop_finished stop_degraded
    stop_ended stop_owned put_stopping stop_record with_context stop_component start_if_stopped
    restart_component parent_or_none text_or_none identity_of put_identity add_row snapshot_of_rows
    recent save put_record put_changed drop_child release monitor_live monitor_stopped
    monitor_survivor crash_record history_of with_history monitor_start monitor_restart
    monitor_crash monitor_survivors monitor_ended monitor_polled monitor_child monitor_children
    save_pass monitor_once
opened = true
