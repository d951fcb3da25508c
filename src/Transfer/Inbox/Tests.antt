-- ===== src/Transfer/Inbox/Tests.antt =====
-- The theorem on the notices, at a notice that is read for the first time.
use smart_monitor_back_end.Base.{◌≡◌, refl, none, some, [], ◌∷◌}
use smart_monitor_back_end.Database.{Db, DeviceTransferNotice, phase_pending}
use smart_monitor_back_end.Transfer.Inbox.{
  Marked, notices_of, read_row, mark_notice_read, mark_notice_read-Marked,
}

abbrev note : DeviceTransferNotice
note = record {
  id = 4;
  transfer_id = 1;
  user_id = 2;
  phase = phase_pending;
  body = "";
  created_at = 5;
  read_at = none;
}

abbrev other_note : DeviceTransferNotice
other_note = record note { id = 3; user_id = 1 }

abbrev inbox : Db
inbox = record {
  users = [];
  devices = [];
  memberships = [];
  channels = [];
  transfers = [];
  challenges = [];
  notices = note ∷ other_note ∷ [];
  checks = [];
  alarm_configurations = [];
  local_history_records = [];
  power_measurements = [];
  next_device_id = 8;
  next_channel_id = 6;
  next_transfer_id = 1;
  next_notice_id = 5;
}

abbrev read_inbox : Db
read_inbox = record inbox { notices = read_row 70 note ∷ other_note ∷ [] }

reads_note : mark_notice_read 2 4 70 inbox ≡ (some (read_row 70 note), read_inbox)
unfolding mark_notice_read
reads_note = refl

foreign_note : mark_notice_read 2 3 70 inbox ≡ (none, inbox)
unfolding mark_notice_read
foreign_note = refl

mark_notice_read-Marked_example :
    (notices_of 1 read_inbox ≡ notices_of 1 inbox)
    × Marked 2 4 90 inbox read_inbox (some (read_row 70 note))
mark_notice_read-Marked_example =
    mark_notice_read-Marked 2 4 70 90 1 inbox read_inbox (some (read_row 70 note)) refl reads_note
